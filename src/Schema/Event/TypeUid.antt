-- ===== src/Schema/Event/TypeUid.antt =====
-- The arithmetic of type_uid.
use ocsf_toolkit.Common.{
  ◌≡◌, refl, ap, Bool, true, false, not, ◌&&◌, ◌||◌, none, some, arith, if◌then◌else◌, Bool-cases,
  inl, inr,
}
use ocsf_toolkit.Common.Int.{ℤ, pos, negsuc, ltb_ℤ}
use ocsf_toolkit.Schema.Event.{
  max_int64, min_int64, add_ℤ, minus_ℤ, times_100, wrap_int64, expected_type_uid,
}

-- the range of int64
abbrev pub in_int64 : ℤ → Bool
in_int64 a = not (ltb_ℤ a min_int64) && not (ltb_ℤ max_int64 a)

-- An int64 operation whose result is in range does not wrap.
wrap-in_int64 : (a : ℤ) → in_int64 a ≡ true → wrap_int64 a ≡ a
unfolding wrap_int64
wrap-in_int64 (pos n) h = ground arith
wrap-in_int64 (negsuc n) h = ground arith

-- the bounds of class_uid are those of the product
guard_lem :
    (c : ℤ)
    → ltb_ℤ (pos 92233720368547758) c || ltb_ℤ c (negsuc 92233720368547757)
      ≡ not (in_int64 (times_100 c))
guard_lem (pos n) = ground arith
guard_lem (negsuc n) = ground arith

-- the two tests before the addition, with no wrap-around
sum_lem :
    (b a : ℤ)
    → in_int64 b ≡ true
    → in_int64 a ≡ true
    → (if ltb_ℤ (pos 0) a && ltb_ℤ (minus_ℤ max_int64 a) b
        then none
        else if ltb_ℤ a (pos 0) && ltb_ℤ b (minus_ℤ min_int64 a)
        then none
        else some (add_ℤ b a))
      ≡ (if in_int64 (add_ℤ b a) then some (add_ℤ b a) else none)
sum_lem (pos m) (pos n) hb ha = ground arith
sum_lem (pos m) (negsuc n) hb ha = ground arith
sum_lem (negsuc m) (pos n) hb ha = ground arith
sum_lem (negsuc m) (negsuc n) hb ha = ground arith

-- what the tests let through does not wrap
choose_wrapped :
    (t u r : Bool) (s w : ℤ)
    → (r ≡ true → w ≡ s)
    → (if t then none else if u then none else some s) ≡ (if r then some s else none)
    → (if t then none else if u then none else some w) ≡ (if r then some s else none)
choose_wrapped true u r s w h e = e
choose_wrapped false true r s w h e = e
choose_wrapped false false true s w h e = ap some (h refl)
choose_wrapped false false false s w h e = cc

upper_lem :
    (b a : ℤ)
    → in_int64 a ≡ true
    → ltb_ℤ (pos 0) a && ltb_ℤ (wrap_int64 (minus_ℤ max_int64 a)) b
      ≡ ltb_ℤ (pos 0) a && ltb_ℤ (minus_ℤ max_int64 a) b
upper_lem b (pos n) h =
    ap (λ (z : ℤ). ltb_ℤ (pos 0) (pos n) && ltb_ℤ z b)
      (wrap-in_int64 (minus_ℤ max_int64 (pos n)) (ground arith))
upper_lem b (negsuc n) h = ground arith

lower_lem :
    (b a : ℤ)
    → in_int64 a ≡ true
    → ltb_ℤ a (pos 0) && ltb_ℤ b (wrap_int64 (minus_ℤ min_int64 a))
      ≡ ltb_ℤ a (pos 0) && ltb_ℤ b (minus_ℤ min_int64 a)
lower_lem b (pos n) h = ground arith
lower_lem b (negsuc n) h =
    ap (λ (z : ℤ). ltb_ℤ (negsuc n) (pos 0) && ltb_ℤ b z)
      (wrap-in_int64 (minus_ℤ min_int64 (negsuc n)) (ground arith))

-- the code behind the first test, on a product in range
sum_wrapped :
    (b a : ℤ)
    → in_int64 b ≡ true
    → in_int64 a ≡ true
    → (if ltb_ℤ (pos 0) a && ltb_ℤ (wrap_int64 (minus_ℤ max_int64 a)) b
        then none
        else if ltb_ℤ a (pos 0) && ltb_ℤ b (wrap_int64 (minus_ℤ min_int64 a))
        then none
        else some (wrap_int64 (add_ℤ b a)))
      ≡ (if in_int64 (add_ℤ b a) then some (add_ℤ b a) else none)
sum_wrapped b a hb ha =
    rw (upper_lem b a ha, lower_lem b a ha)
      (choose_wrapped (ltb_ℤ (pos 0) a && ltb_ℤ (minus_ℤ max_int64 a) b)
        (ltb_ℤ a (pos 0) && ltb_ℤ b (minus_ℤ min_int64 a)) (in_int64 (add_ℤ b a)) (add_ℤ b a)
        (wrap_int64 (add_ℤ b a)) (wrap-in_int64 (add_ℤ b a)) (sum_lem b a hb ha))

-- For an activity_id in the range of int64, the type_uid is class_uid * 100 + activity_id, computed
-- over the integers, where both the product and the sum are in the range of int64, and otherwise the
-- overflow is reported.
pub expected_type_uid_lem :
    (class_uid activity_id : ℤ)
    → in_int64 activity_id ≡ true
    → expected_type_uid class_uid activity_id ≡ (
        if in_int64 (times_100 class_uid) && in_int64 (add_ℤ (times_100 class_uid) activity_id)
        then some (add_ℤ (times_100 class_uid) activity_id)
        else none)
unfolding expected_type_uid
expected_type_uid_lem c a ha = elim (Bool-cases (in_int64 (times_100 c))) [
  | inl e ↦ rw (guard_lem c, wrap-in_int64 (times_100 c) e, e) (sum_wrapped (times_100 c) a e ha)
  | inr n ↦ rw (guard_lem c, n) refl
]
