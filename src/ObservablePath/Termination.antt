-- ===== src/ObservablePath/Termination.antt =====
-- The loops of `Parse` end: their fuel is enough for every text.
use ocsf_toolkit.Common.{
  ℕ, zero, suc, ◌≤◌, ◌<◌, ◌≡◌, ◌⊎◌, inl, inr, refl, ap, ◌≢◌, List, [], ◌∷◌, ◌++◌, Bool, true, false,
  Option, none, some, Bytes, bytes_eq, nat_eq, same, length, cut, arith, Bool-cases,
}
use ocsf_toolkit.Common.Decimal.{atoi}
use ocsf_toolkit.PathSeq
use ocsf_toolkit.PathSeq.{Sequence}
use ocsf_toolkit.ObservablePath.{
  Selector, Segment, Result, ok, err, ParseError, out_of_fuel, parse_selector, parse_selectors,
  zero_segment, parse_segment, parse_segments, parse, index_of, ◌>>=◌, with_selectors, as_path,
  ObservablePath, behind_root, parse_name, at_root,
}

abbrev pub ran_out_by : ParseError → Bool
ran_out_by out_of_fuel = true
ran_out_by _ = false

abbrev pub ran_out : {A : Type 0} → Result A → Bool
ran_out (err e) = ran_out_by e
ran_out (ok a) = false

cut-cases :
    (b : ℕ) (s : Bytes)
    → ((t : Bytes) × (cut b s ≡ (t, none)))
      ⊎ ((t : Bytes) × (rest : Bytes) × (cut b s ≡ (t, some rest)) × (length rest < length s))
cut-cases b [] = inl ([], refl)
cut-cases b (c ∷ s) = elim (Bool-cases (same c b)) [
  | inl found ↦ inr ([], s, rw found refl, omega arith)
  | inr other ↦ elim (cut-cases b s) [
    | inl (t, e) ↦ inl (c ∷ t, rw (other, e) refl)
    | inr (t, rest, e, lt) ↦ inr (c ∷ t, rest, rw (other, e) refl, omega arith)
  ]
]

>>=-ran_out :
    {A B : Type 0} (r : Result A) (f : A → Result B)
    → ran_out r ≡ false
    → ((a : A) → ran_out (f a) ≡ false)
    → ran_out (r >>= f) ≡ false
>>=-ran_out (ok a) f h k = k a
>>=-ran_out (err e) f h k = h

index_of-ran_out : (n : Option ℕ) → ran_out (index_of n) ≡ false
index_of-ran_out none = refl
index_of-ran_out (some n) = refl

parse_selector-ran_out : (text : Bytes) → ran_out (parse_selector text) ≡ false
unfolding parse_selector
parse_selector-ran_out text = ground (arith, index_of-ran_out (atoi text))

parse_selectors-ran_out :
    (fuel : ℕ) (text : Bytes) (selectors : List Selector)
    → length text ≤ fuel
    → ran_out (parse_selectors fuel text selectors) ≡ false
unfolding parse_selectors
parse_selectors-ran_out fuel [] selectors le = refl
parse_selectors-ran_out zero (c ∷ text) selectors le = absurd (omega arith)
parse_selectors-ran_out (suc fuel) (c ∷ text) selectors le = elim (Bool-cases (same c b'[')) [
  | inr other ↦ rw other refl
  | inl opened ↦ rw opened (elim (cut-cases b']' text) [
    | inl (t, e) ↦ rw e refl
    | inr (t, rest, e, lt) ↦ rw e (
        >>=-ran_out (parse_selector t)
          (λ selector. parse_selectors fuel rest (selectors ++ selector ∷ []))
          (parse_selector-ran_out t)
          (λ selector.
            parse_selectors-ran_out fuel rest (selectors ++ selector ∷ []) (omega arith)))
  ])
]

with_selectors-ran_out :
    (attribute : Bytes) (r : Result (List Selector))
    → ran_out r ≡ false
    → ran_out (with_selectors attribute r) ≡ false
with_selectors-ran_out attribute (ok selectors) h = refl
with_selectors-ran_out attribute (err e) h = h

parse_segment-ran_out : (part : Bytes) → ran_out (parse_segment part) ≡ false
unfolding parse_segment
parse_segment-ran_out part = elim (Bool-cases (same part [])) [
  | inl empty ↦ rw empty refl
  | inr full ↦ rw full (elim (cut-cases b'[' part) [
    | inl (t, e) ↦ rw e refl
    | inr (t, rest, e, lt) ↦ rw e (elim (Bool-cases (same t [])) [
      | inl none_there ↦ rw none_there refl
      | inr there ↦ rw there (
          with_selectors-ran_out t (parse_selectors (suc (length rest)) (b'[' ∷ rest) [])
            (parse_selectors-ran_out (suc (length rest)) (b'[' ∷ rest) [] (omega arith)))
    ])
  ])
]

parse_segments-ran_out :
    (fuel : ℕ) (name : Bytes) (path : Sequence Segment)
    → length name < fuel
    → ran_out (parse_segments fuel name path) ≡ false
unfolding parse_segments
parse_segments-ran_out zero name path lt = absurd (omega arith)
parse_segments-ran_out (suc fuel) name path lt = elim (cut-cases b'.' name) [
  | inl (t, e) ↦ rw e (
      >>=-ran_out (parse_segment t) (λ segment. ok (PathSeq.push path segment))
        (parse_segment-ran_out t) (λ segment. refl))
  | inr (t, rest, e, shorter) ↦ rw e (
      >>=-ran_out (parse_segment t)
        (λ segment. parse_segments fuel rest (PathSeq.push path segment)) (parse_segment-ran_out t)
        (λ segment. parse_segments-ran_out fuel rest (PathSeq.push path segment) (omega arith)))
]

as_path-ran_out :
    (rooted : Bool) (r : Result (Sequence Segment))
    → ran_out r ≡ false
    → ran_out (as_path rooted r) ≡ false
as_path-ran_out rooted (ok path) h = refl
as_path-ran_out rooted (err e) h = h

parse_name-ran_out : (rooted : Bool) (name : Bytes) → ran_out (parse_name rooted name) ≡ false
parse_name-ran_out rooted [] = refl
parse_name-ran_out rooted (c ∷ name) =
    as_path-ran_out rooted
      (parse_segments (suc (length (c ∷ name))) (c ∷ name) (PathSeq.empty zero_segment))
      (parse_segments-ran_out (suc (length (c ∷ name))) (c ∷ name) (PathSeq.empty zero_segment)
        (omega arith))

behind_root-ran_out : (name : Bytes) → ran_out (behind_root name) ≡ false
behind_root-ran_out [] = refl
behind_root-ran_out (c ∷ name) = ground (arith, parse_name-ran_out true name)

at_root-ran_out : (name : Bytes) → ran_out (at_root name) ≡ false
at_root-ran_out [] = refl
at_root-ran_out (c ∷ name) =
    ground (arith, behind_root-ran_out name, parse_name-ran_out false (c ∷ name))

result_cases :
    {A : Type 0} (r : Result A)
    → ran_out r ≡ false
    → ((a : A) × (r ≡ ok a)) ⊎ ((e : ParseError) × (r ≡ err e) × (e ≢ out_of_fuel))
result_cases (ok a) h = inl (a, refl)
result_cases (err e) h = inr (e, refl, λ same_error. absurd (cc (ap ran_out_by same_error)))

-- The loops of `Parse` end for every name: it gives a path, or one of the nine errors of the code,
-- and never runs out of the fuel that bounds the loops by the length of the text.
pub parse_ends :
    (name : Bytes)
    → ((path : ObservablePath) × (parse name ≡ ok path))
      ⊎ ((e : ParseError) × (parse name ≡ err e) × (e ≢ out_of_fuel))
unfolding parse
parse_ends name = result_cases (at_root name) (at_root-ran_out name)
