-- ===== src/Observable/Collection/Filter.antt =====
-- `FilterRemovable` removes exactly the marked entries.
use ocsf_toolkit.Common.{
  ℕ, suc, ◌+◌, ◌-◌, ◌≤◌, ◌≡◌, inr, refl, List, [], ◌∷◌, Bool, true, false, arith, length,
  if◌then◌else◌, nat_eq,
}
use ocsf_toolkit.EventValue.{Value}
use ocsf_toolkit.Observable.Collection.{as_slice, Collection, kept, filter_removable}

-- how many flags are set: `RemovableCount`
unfoldable pub removable_count : List Bool → ℕ
removable_count [] = 0
removable_count (flag ∷ flags) = let n = removable_count flags in if flag then suc n else n

-- `Retained values flags rest`: `rest` is `values` without those whose flag is set, in order.
pub data Retained : List Value → List Bool → List Value → Type 0 where
  none_left : Retained [] [] []
  removed :
      {v : Value} {vs rest : List Value} {flags : List Bool}
      → Retained vs flags rest
      → Retained (v ∷ vs) (true ∷ flags) rest
  retained :
      {v : Value} {vs rest : List Value} {flags : List Bool}
      → Retained vs flags rest
      → Retained (v ∷ vs) (false ∷ flags) (v ∷ rest)

kept-Retained :
    (vs : List Value) (flags : List Bool)
    → length flags ≡ length vs
    → Retained vs flags (kept vs flags)
unfolding kept
kept-Retained [] [] h = none_left
kept-Retained [] (flag ∷ flags) h = absurd (omega arith)
kept-Retained (v ∷ vs) [] h = absurd (omega arith)
kept-Retained (v ∷ vs) (true ∷ flags) h = removed (kept-Retained vs flags (omega arith))
kept-Retained (v ∷ vs) (false ∷ flags) h = retained (kept-Retained vs flags (omega arith))

length-kept :
    (vs : List Value) (flags : List Bool)
    → length flags ≡ length vs
    → length (kept vs flags) + removable_count flags ≡ length vs
unfolding kept removable_count
length-kept [] [] h = refl
length-kept [] (flag ∷ flags) h = absurd (omega arith)
length-kept (v ∷ vs) [] h = absurd (omega arith)
length-kept (v ∷ vs) (true ∷ flags) h = omega (arith, length-kept vs flags (omega arith))
length-kept (v ∷ vs) (false ∷ flags) h = omega (arith, length-kept vs flags (omega arith))

-- Filtering succeeds when there is a flag for each entry and the count is that of the flags set.
-- Then the result is a slice of the same element type (of the same type where it was a slice), with
-- exactly the unmarked entries in order.
pub filter_removable_ok :
    (c : Collection) (flags : List Bool)
    → length flags ≡ length c.values
    → (d : Collection) × (filter_removable c flags (removable_count flags) ≡ inr d)
      × Retained c.values flags d.values
      × (d.container ≡ as_slice c.container)
      × (d.element ≡ c.element)
unfolding filter_removable
filter_removable_ok c flags h = (
  record { container = as_slice c.container; element = c.element; values = kept c.values flags },
  ground (arith, length-kept c.values flags h),
  kept-Retained c.values flags h,
  refl,
  refl,
)

counts_match :
    (c d : Collection) (flags : List Bool) (count : ℕ)
    → filter_removable c flags count ≡ inr d
    → (length flags ≡ length c.values)
      × (count ≡ length c.values - length (kept c.values flags))
      × (d ≡ record {
        container = as_slice c.container;
        element = c.element;
        values = kept c.values flags;
      })
unfolding filter_removable
counts_match c d flags count h = ground arith

-- Filtering succeeds only when there is a flag for each entry and the count is that of the flags
-- set, and then the result is a slice (of the same type where it was one) with exactly the unmarked
-- entries, in order.
pub filter_removable_sound :
    (c d : Collection) (flags : List Bool) (count : ℕ)
    → filter_removable c flags count ≡ inr d
    → (length flags ≡ length c.values)
      × (count ≡ removable_count flags)
      × Retained c.values flags d.values
      × (d.container ≡ as_slice c.container)
      × (d.element ≡ c.element)
filter_removable_sound c d flags count h =
    let (lengths, counts, result) = counts_match c d flags count h in
    (
      lengths,
      omega (arith, length-kept c.values flags lengths),
      rw result (kept-Retained c.values flags lengths),
      rw result,
      rw result,
    )

pub removable_count-length : (flags : List Bool) → removable_count flags ≤ length flags
unfolding removable_count
removable_count-length [] = omega arith
removable_count-length (true ∷ flags) = omega (arith, removable_count-length flags)
removable_count-length (false ∷ flags) = omega (arith, removable_count-length flags)

pub all_removed :
    (vs : List Value) (flags : List Bool)
    → length flags ≡ length vs
    → removable_count flags ≡ length vs
    → Retained vs flags []
unfolding removable_count
all_removed [] [] h n = none_left
all_removed [] (flag ∷ flags) h n = absurd (omega arith)
all_removed (v ∷ vs) [] h n = absurd (omega arith)
all_removed (v ∷ vs) (true ∷ flags) h n = removed (all_removed vs flags (omega arith) (omega arith))
all_removed (v ∷ vs) (false ∷ flags) h n = absurd (omega (arith, removable_count-length flags))

pub none_removed :
    (vs : List Value) (flags : List Bool)
    → length flags ≡ length vs
    → removable_count flags ≡ 0
    → Retained vs flags vs
unfolding removable_count
none_removed [] [] h n = none_left
none_removed [] (flag ∷ flags) h n = absurd (omega arith)
none_removed (v ∷ vs) [] h n = absurd (omega arith)
none_removed (v ∷ vs) (true ∷ flags) h n = absurd (omega arith)
none_removed (v ∷ vs) (false ∷ flags) h n = retained (none_removed vs flags (omega arith) n)
