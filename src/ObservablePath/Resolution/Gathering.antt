-- ===== src/ObservablePath/Resolution/Gathering.antt =====
-- The loops over a stack visit the values that are no arrays, in order, and end.
use ocsf_toolkit.Common.{
  ℕ, zero, suc, ◌+◌, ◌≤◌, ◌<◌, ◌≡◌, refl, sym, ap, ◌∙◌, List, [], ◌∷◌, ◌++◌, Bool, true, false,
  ◌||◌, Option, some, arith, append_assoc, length, nat_eq, same, inl, inr, Bool-cases,
  if◌then◌else◌,
}
use ocsf_toolkit.EventValue.{Value, array, Items, nil, cons, array_view, elements}
use ocsf_toolkit.ObservablePath.{Segment}
use ocsf_toolkit.ObservablePath.Resolution.{
  Resolution, candidates, segment_candidates, match_candidates, rounds, item_rounds, all_rounds,
}

-- the values in a value, arrays replaced by what they hold
unfoldable mutual
  pub leaves : Value → List Value
  leaves (array container element vs) = item_leaves vs
  leaves value = value ∷ []

  pub item_leaves : Items → List Value
  item_leaves nil = []
  item_leaves (cons v vs) = leaves v ++ item_leaves vs

unfoldable pub all_leaves : List Value → List Value
unfolding leaves
all_leaves [] = []
all_leaves (v ∷ vs) = leaves v ++ all_leaves vs

-- whether a value is or holds an empty array
unfoldable mutual
  pub has_empty : Value → Bool
  has_empty (array container element nil) = true
  has_empty (array container element (cons v vs)) = has_empty v || item_has_empty vs
  has_empty value = false

  pub item_has_empty : Items → Bool
  item_has_empty nil = false
  item_has_empty (cons v vs) = has_empty v || item_has_empty vs

unfoldable pub any_empty : List Value → Bool
unfolding has_empty
any_empty [] = false
any_empty (v ∷ vs) = has_empty v || any_empty vs

abbrev pub any : (Value → Bool) → List Value → Bool
any test [] = false
any test (v ∷ vs) = test v || any test vs

abbrev pub is_cons : List Value → Bool
is_cons [] = false
is_cons (v ∷ vs) = true

rounds_pos : (v : Value) → 0 < rounds v
unfolding rounds
rounds_pos (array container element vs) = omega arith
rounds_pos v = omega arith

pub item_rounds-elements : (vs : Items) → item_rounds vs ≡ all_rounds (elements vs)
unfolding all_rounds
item_rounds-elements nil = refl
item_rounds-elements (cons v vs) = ap (λ (n : ℕ). rounds v + n) (item_rounds-elements vs)

pub all_rounds-append : (xs ys : List Value) → all_rounds (xs ++ ys) ≡ all_rounds xs + all_rounds ys
unfolding all_rounds
all_rounds-append [] ys = omega arith
all_rounds-append (x ∷ xs) ys = omega (arith, all_rounds-append xs ys)

item_leaves-elements : (vs : Items) → item_leaves vs ≡ all_leaves (elements vs)
unfolding all_leaves
item_leaves-elements nil = refl
item_leaves-elements (cons v vs) = ap (λ (l : List Value). leaves v ++ l) (item_leaves-elements vs)

all_leaves-append : (xs ys : List Value) → all_leaves (xs ++ ys) ≡ all_leaves xs ++ all_leaves ys
unfolding all_leaves
all_leaves-append [] ys = refl
all_leaves-append (x ∷ xs) ys =
    ap (λ (l : List Value). leaves x ++ l) (all_leaves-append xs ys)
    ∙ sym (append_assoc (leaves x) (all_leaves xs) (all_leaves ys))

item_has_empty-elements : (vs : Items) → item_has_empty vs ≡ any_empty (elements vs)
unfolding any_empty
item_has_empty-elements nil = refl
item_has_empty-elements (cons v vs) =
    ap (λ (b : Bool). has_empty v || b) (item_has_empty-elements vs)

any_empty-append : (xs ys : List Value) → any_empty (xs ++ ys) ≡ any_empty xs || any_empty ys
unfolding any_empty
any_empty-append [] ys = refl
any_empty-append (x ∷ xs) ys = ground (arith, any_empty-append xs ys)

-- With an array on top of the stack the loops go on with its elements in its place.
all_leaves-array :
    (vs : Items) (stack : List Value)
    → item_leaves vs ++ all_leaves stack ≡ all_leaves (elements vs ++ stack)
all_leaves-array vs stack =
    ap (λ (l : List Value). l ++ all_leaves stack) (item_leaves-elements vs)
    ∙ sym (all_leaves-append (elements vs) stack)

all_rounds-array :
    (vs : Items) (stack : List Value) (fuel : ℕ)
    → suc (item_rounds vs) + all_rounds stack ≤ suc fuel
    → all_rounds (elements vs ++ stack) ≤ fuel
all_rounds-array vs stack fuel le =
    omega (arith, le, item_rounds-elements vs, all_rounds-append (elements vs) stack)

abbrev pub with_leaves : (Value → Bool) → List Value → Resolution → Resolution
with_leaves matches vs r = record r {
  found = r.found || is_cons vs;
  matched = r.matched || any matches vs;
}

or_true : (b : Bool) → true ≡ b || true
or_true true = refl
or_true false = refl

or_swap : (a b c : Bool) → (a || b) || c ≡ (a || c) || b
or_swap a b c = ground arith

or_assoc : (a b c : Bool) → (a || b) || c ≡ a || (b || c)
or_assoc a b c = ground arith

as_found :
    (r : Resolution) (n m : Bool)
    → n ≡ m
    → some (record r { found = true; matched = n })
      ≡ some (record r { found = r.found || true; matched = m })
as_found r n m e =
    ap (λ (b : Bool). some (record r { found = b; matched = n })) (or_true r.found)
    ∙ ap (λ (b : Bool). some (record r { found = r.found || true; matched = b })) e

leaf_step :
    (matches : Value → Bool) (v : Value) (vs : List Value) (r : Resolution)
    (rest : Option Resolution)
    → rest ≡ some (with_leaves matches vs (record r { found = true }))
    → (if matches v then some (record r { found = true; matched = true }) else rest)
      ≡ some (with_leaves matches (v ∷ vs) r)
leaf_step matches v vs r rest e = elim (Bool-cases (matches v)) [
  | inl yes_it ↦ rw yes_it (as_found r true (r.matched || true) (or_true r.matched))
  | inr no_it ↦
      rw no_it (e ∙ as_found r (r.matched || any matches vs) (r.matched || any matches vs) refl)
]

-- Given a round for each value and array on the stack, the loop of `matchCandidates` ends: it finds a value exactly when the stack
-- holds one that is no array, at whatever depth, and matches exactly when one of them matches.
pub match_candidates-leaves :
    (matches : Value → Bool) (fuel : ℕ) (stack : List Value) (r : Resolution)
    → all_rounds stack ≤ fuel
    → match_candidates fuel matches stack r ≡ some (with_leaves matches (all_leaves stack) r)
unfolding match_candidates all_rounds rounds all_leaves leaves array_view
match_candidates-leaves matches fuel [] r le = ground arith
match_candidates-leaves matches zero (v ∷ stack) r le = absurd (omega (arith, le, rounds_pos v))
match_candidates-leaves matches (suc fuel) (array container element vs ∷ stack) r le =
    match_candidates-leaves matches fuel (elements vs ++ stack) r
      (all_rounds-array vs stack fuel le)
    ∙ ap (λ (l : List Value). some (with_leaves matches l r)) (sym (all_leaves-array vs stack))
match_candidates-leaves matches (suc fuel) (v ∷ stack) r le =
    leaf_step matches v (all_leaves stack) r
      (match_candidates fuel matches stack (record r { found = true }))
      (match_candidates-leaves matches fuel stack (record r { found = true }) (omega (arith, le)))

-- the rounds of `resolveSegmentCandidates` for values that are no arrays
abbrev pub gathered : Segment → List Value → List Value → Bool → List Value × Bool
gathered segment [] result missing = (result, missing)
gathered segment (v ∷ vs) result missing =
    let (more, selection_missing) = candidates result segment v in
    gathered segment vs more (missing || selection_missing)

gathered-missing :
    (segment : Segment) (vs result : List Value) (missing extra : Bool)
    → gathered segment vs result (missing || extra)
      ≡ ((gathered segment vs result missing).0, (gathered segment vs result missing).1 || extra)
gathered-missing segment [] result missing extra = refl
gathered-missing segment (v ∷ vs) result missing extra =
    let (more, m) = candidates result segment v in
    ap (gathered segment vs more) (or_swap missing extra m)
    ∙ gathered-missing segment vs more (missing || m) extra

any_empty-array :
    (v : Value) (vs : Items) (stack : List Value) (missing : Bool)
    → (missing || same (length (elements (cons v vs))) 0)
        || any_empty (elements (cons v vs) ++ stack)
      ≡ missing || (item_has_empty (cons v vs) || any_empty stack)
any_empty-array v vs stack missing =
    rw (any_empty-append (elements (cons v vs)) stack, sym (item_has_empty-elements (cons v vs)))
      (ground arith)

-- Given a round for each value and array on the stack, the loop of `resolveSegmentCandidates` ends.
pub segment_candidates-leaves :
    (fuel : ℕ) (segment : Segment) (stack result : List Value) (missing : Bool)
    → all_rounds stack ≤ fuel
    → segment_candidates fuel segment stack result missing
      ≡ some (gathered segment (all_leaves stack) result (missing || any_empty stack))
unfolding segment_candidates all_rounds rounds all_leaves leaves any_empty has_empty array_view
segment_candidates-leaves fuel segment [] result missing le = ground arith
segment_candidates-leaves zero segment (v ∷ stack) result missing le =
    absurd (omega (arith, le, rounds_pos v))
segment_candidates-leaves (suc fuel) segment (array container element nil ∷ stack) result missing
      le =
    segment_candidates-leaves fuel segment stack result (missing || true) (omega (arith, le))
    ∙ ap (λ (b : Bool). some (gathered segment (all_leaves stack) result b))
        (or_assoc missing true (any_empty stack))
segment_candidates-leaves (suc fuel) segment (array container element (cons v vs) ∷ stack) result
      missing le =
    let now = missing || same (length (elements (cons v vs))) 0 in
    segment_candidates-leaves fuel segment (v ∷ (elements vs ++ stack)) result now
      (all_rounds-array (cons v vs) stack fuel le)
    ∙ (ap
          (λ (l : List Value).
            some (gathered segment l result (now || any_empty (elements (cons v vs) ++ stack))))
          (sym (all_leaves-array (cons v vs) stack))
        ∙ ap
            (λ (b : Bool).
              some (gathered segment (item_leaves (cons v vs) ++ all_leaves stack) result b))
            (any_empty-array v vs stack missing))
segment_candidates-leaves (suc fuel) segment (v ∷ stack) result missing le =
    let (more, m) = candidates result segment v in
    segment_candidates-leaves fuel segment stack more (missing || m) (omega (arith, le))
    ∙ ap (λ (b : Bool). some (gathered segment (all_leaves stack) more b))
        (or_swap missing m (any_empty stack))
