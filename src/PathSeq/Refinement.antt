-- ===== src/PathSeq/Refinement.antt =====
-- The sequence behaves as a list: what it stores is `view`, and each operation is the one on lists.
use ocsf_toolkit.Common.{
  ℕ, zero, suc, ◌+◌, ◌-◌, ◌≤◌, ◌<◌, ◌≡◌, sym, ap, ◌∙◌, List, [], ◌∷◌, ◌++◌, arith, take, drop,
  get_elem?, length, length-set, length-append, length-replicate, append_assoc,
}
use ocsf_toolkit.PathSeq.{Sequence, inline_capacity, empty, push, pop, at, items, items_from}
use ocsf_toolkit.PathSeq.Lists.{
  drop_last, set-append_left, set-append_right, get_elem?-append_left, get_elem?-append_right,
  take-set_last, take_all, take-set_beyond, drop_last-take, get_elem?-take, length-take_le,
  drop_step, get_elem?-lt, drop_all, drop_last-concat,
}

-- The inline array has its eight slots, and the slots hold `len` elements, counted across both.
pub record IsValid {T : Type 0} (s : Sequence T) : Type 0 where
  pub slots : length s.inline ≡ inline_capacity
  pub room : s.len ≤ inline_capacity + length s.overflow

module _ {T : Type 0} where
  abbrev pub view : Sequence T → List T
  view s = take s.len (s.inline ++ s.overflow)

  pub push-IsValid : (s : Sequence T) (v : T) → IsValid s → IsValid (push s v)
  unfolding push
  push-IsValid s v h = ground (
    arith,
    length-set s.inline s.len v,
    length-set s.overflow (s.len - 8) v,
    length-append s.overflow (v ∷ []),
  )

  pub pop-IsValid : (z : T) (s : Sequence T) → IsValid s → IsValid (pop z s)
  unfolding pop
  pop-IsValid z s h =
      ground (arith, length-set s.inline (s.len - 1) z, length-set s.overflow (s.len - 1 - 8) z)

  pub empty-IsValid : (z : T) → IsValid (empty z)
  unfolding empty
  empty-IsValid z = omega (arith, length-replicate 8 z)

  pub length-view : (s : Sequence T) → IsValid s → length (view s) ≡ s.len
  length-view s h =
      length-take_le (s.inline ++ s.overflow) s.len
        (omega (arith, h.slots, h.room, length-append s.inline s.overflow))

  pub view-push : (s : Sequence T) (v : T) → IsValid s → view (push s v) ≡ view s ++ v ∷ []
  unfolding push
  view-push s v h = ground (
    arith,
    set-append_left s.inline s.overflow s.len v,
    set-append_right s.inline s.overflow 8 s.len v,
    take-set_last (s.inline ++ s.overflow) s.len v,
    append_assoc s.inline s.overflow (v ∷ []),
    take_all (s.inline ++ s.overflow) s.len,
    take_all ((s.inline ++ s.overflow) ++ v ∷ []) (s.len + 1),
    length-append s.inline s.overflow,
    length-append (s.inline ++ s.overflow) (v ∷ []),
  )

  pub view-pop : (z : T) (s : Sequence T) → IsValid s → view (pop z s) ≡ drop_last (view s)
  unfolding pop
  view-pop z s h = ground (
    arith,
    set-append_left s.inline s.overflow (s.len - 1) z,
    set-append_right s.inline s.overflow 8 (s.len - 1) z,
    take-set_beyond (s.inline ++ s.overflow) (s.len - 1) z,
    drop_last-take (s.inline ++ s.overflow) (s.len - 1),
    length-append s.inline s.overflow,
  )

  pub at-view : (s : Sequence T) (i : ℕ) → IsValid s → i < s.len → at s i ≡ get_elem? (view s) i
  unfolding at
  at-view s i h lt = ground (
    arith,
    get_elem?-take (s.inline ++ s.overflow) s.len i,
    get_elem?-append_left s.inline s.overflow i,
    get_elem?-append_right s.inline s.overflow 8 i,
  )

  items_from-view :
      (s : Sequence T) (i n : ℕ) → IsValid s → i + n ≡ s.len → items_from s i n ≡ drop i (view s)
  unfolding items_from
  items_from-view s i zero h e = sym (drop_all (view s) i (omega (arith, length-view s h)))
  items_from-view s i (suc n) h e =
      let (x, found) = get_elem?-lt (view s) i (omega (arith, length-view s h)) in
      rw (at-view s i h (omega arith) ∙ found, drop_step (view s) i x found)
        (ap (λ (r : List T). x ∷ r)
          (items_from-view s (i + 1) n h (omega arith)
            ∙ ap (λ (j : ℕ). drop j (view s)) {x = i + 1} {y = suc i} (omega arith)))

  -- A loop over the indexes of a valid sequence reads exactly the elements of its view, in order.
  pub items-view : (s : Sequence T) → IsValid s → items s ≡ view s
  unfolding items
  items-view s h = items_from-view s 0 s.len h (omega arith)

  -- Pushing onto a valid sequence keeps it valid and appends the value to its view, whether the
  -- slot is inline, a popped overflow slot, or a new overflow slot.
  pub push_lem :
      (s : Sequence T) (v : T)
      → IsValid s
      → IsValid (push s v) × (view (push s v) ≡ view s ++ v ∷ [])
  push_lem s v h = (push-IsValid s v h, view-push s v h)

  -- Popping a valid sequence keeps it valid and removes the last element of its view.
  pub pop_lem :
      (z : T) (s : Sequence T)
      → IsValid s
      → IsValid (pop z s) × (view (pop z s) ≡ drop_last (view s))
  pop_lem z s h = (pop-IsValid z s h, view-pop z s h)

  -- On a valid sequence, pushing and then popping gives back the view.
  pub view-pop-push :
      (z : T) (s : Sequence T) (v : T) → IsValid s → view (pop z (push s v)) ≡ view s
  view-pop-push z s v h =
      view-pop z (push s v) (push-IsValid s v h)
      ∙ (ap drop_last (view-push s v h) ∙ drop_last-concat (view s) v)
