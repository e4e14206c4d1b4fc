-- ===== src/ObservablePath/Resolution/Agreement.antt =====
-- The walk for paths without arrays answers what the general walk would.
use ocsf_toolkit.Common.{
  ◌≡◌, refl, sym, ap, ◌∙◌, List, [], ◌∷◌, Bool, true, false, not, ◌||◌, Option, none, some, arith,
  append-nil, length, nat_eq, bytes_eq, lookup, same, inl, inr, Bool-cases, Option-cases,
}
use ocsf_toolkit.EventValue.{Value, null, array, object, array_view, entries}
use ocsf_toolkit.PathSeq
use ocsf_toolkit.ObservablePath.{Selector, Segment, ObservablePath}
use ocsf_toolkit.ObservablePath.Resolution.{
  Resolution, single_from, resolve_from, resolve, with_match, candidates, or_general, or_missing,
  single_attribute, attribute_candidates, select_from, branch_missing, nothing_selected,
  value_found, all_rounds, reversed, unless_none_left,
}
use ocsf_toolkit.ObservablePath.Resolution.Gathering.{
  all_leaves, leaves, with_leaves, gathered, any_empty, has_empty, all_rounds-append,
  match_candidates-leaves, segment_candidates-leaves,
}

all_rounds-reversed : (vs : List Value) → all_rounds (reversed vs) ≡ all_rounds vs
unfolding all_rounds
all_rounds-reversed [] = refl
all_rounds-reversed (v ∷ vs) =
    omega (arith, all_rounds-append (reversed vs) (v ∷ []), all_rounds-reversed vs)

-- the general walk in terms of the values that are no arrays
resolve_from-nil :
    (matches : Value → Bool) (current : List Value) (missing : Bool)
    → resolve_from matches [] current missing
      ≡ some (
          with_leaves matches
            (all_leaves (reversed current))
            (record { found = false; matched = false; missing = missing }))
unfolding resolve_from
resolve_from-nil matches current missing =
    match_candidates-leaves matches (all_rounds current) (reversed current) _
      (omega (arith, all_rounds-reversed current))

resolve_from-cons :
    (matches : Value → Bool) (segment : Segment) (rest : List Segment) (current : List Value)
    (missing : Bool)
    → resolve_from matches (segment ∷ rest) current missing
      ≡ unless_none_left
          (some (
            gathered segment
              (all_leaves (reversed current))
              []
              (missing || any_empty (reversed current))))
          (λ vs m. resolve_from matches rest vs m)
unfolding resolve_from
resolve_from-cons matches segment rest current missing =
    ap
      (λ (o : Option (List Value × Bool)).
        unless_none_left o (λ vs m. resolve_from matches rest vs m))
      (segment_candidates-leaves (all_rounds current) segment (reversed current) [] missing
        (omega (arith, all_rounds-reversed current)))

abbrev Ends : Option Resolution → Type 0
Ends o = (r : Resolution) × (o ≡ some r)

unless_none_left-Ends :
    (gathered_values : List Value × Bool) (continue : List Value → Bool → Option Resolution)
    → ((vs : List Value) (m : Bool) → Ends (continue vs m))
    → Ends (unless_none_left (some gathered_values) continue)
unless_none_left-Ends ([], m) continue h =
    (record { found = false; matched = false; missing = m }, refl)
unless_none_left-Ends (v ∷ vs, m) continue h = h (v ∷ vs) m

resolve_from-Ends :
    (matches : Value → Bool) (segments : List Segment) (current : List Value) (missing : Bool)
    → Ends (resolve_from matches segments current missing)
resolve_from-Ends matches [] current missing = (_, resolve_from-nil matches current missing)
resolve_from-Ends matches (segment ∷ rest) current missing =
    let (r, e) =
      unless_none_left-Ends
        (gathered segment (all_leaves (reversed current)) []
          (missing || any_empty (reversed current)))
        (λ vs m. resolve_from matches rest vs m) (λ vs m. resolve_from-Ends matches rest vs m) in
    (r, resolve_from-cons matches segment rest current missing ∙ e)

-- On an event that is a tree, `resolve` ends for every path and matcher: the rounds that its loops are
-- given, one for each value and array on their stack, are enough.
resolve_ends :
    (matches : Value → Bool) (p : ObservablePath) (event : Value)
    → (r : Resolution) × (resolve matches p event ≡ some r)
unfolding resolve
resolve_ends matches p event = elim (Option-cases (single_from (PathSeq.items p.segments) event)) [
  | inl e ↦ rw e (resolve_from-Ends matches (PathSeq.items p.segments) (event ∷ []) false)
  | inr (handled, e) ↦ rw e (with_match matches handled, refl)
]

no_selectors :
    (selectors : List Selector) → not (same (length selectors) 0) ≡ false → selectors ≡ []
no_selectors [] h = refl
no_selectors (s ∷ rest) h = absurd (ground arith)

leaf_alone : (v : Value) → array_view v ≡ none → (leaves v ≡ v ∷ []) × (has_empty v ≡ false)
unfolding leaves has_empty array_view
leaf_alone (array container element vs) h = absurd cc
leaf_alone v h = (refl, refl)

one_leaf : (v : Value) → leaves v ≡ v ∷ [] → all_leaves (v ∷ []) ≡ v ∷ []
unfolding all_leaves
one_leaf v e = append-nil (leaves v) ∙ e

one_full : (v : Value) → has_empty v ≡ false → any_empty (v ∷ []) ≡ false
unfolding any_empty
one_full v e = ground arith

abbrev general : (Value → Bool) → Segment → List Segment → List Value × Bool → Option Resolution
general matches s rest selected =
    unless_none_left (some selected) (λ vs m. resolve_from matches rest vs m)

resolve_from-leaf :
    (matches : Value → Bool) (s : Segment) (rest : List Segment) (current : Value)
    → array_view current ≡ none
    → resolve_from matches (s ∷ rest) (current ∷ []) false
      ≡ general matches s rest (candidates [] s current)
resolve_from-leaf matches s rest current h =
    let (alone, full) = leaf_alone current h in
    resolve_from-cons matches s rest (current ∷ []) false
    ∙ (ap (λ (l : List Value). general matches s rest (gathered s l [] (any_empty (current ∷ []))))
          (one_leaf current alone)
        ∙ ap
            (λ (b : Bool).
              general matches s rest
                ((candidates [] s current).0, b || (candidates [] s current).1))
            (one_full current full))

or_false : (b : Bool) → b || false ≡ b
or_false b = ground arith

single_from-leaf : (v : Value) → array_view v ≡ none → single_from [] v ≡ some (v, value_found)
unfolding single_from
single_from-leaf v h = rw h refl

module _ (s : Segment) (rest : List Segment) (current : Value)
    (plain : not (same (length s.selectors) 0) ≡ false) where
  single_from-open :
      array_view current ≡ none
      → single_from (s ∷ rest) current
        ≡ single_attribute s.attribute current (λ inner. single_from rest inner)
  unfolding single_from
  single_from-open leaf = rw (plain, leaf) refl

  single_from-array :
      (vs : List Value) → array_view current ≡ some vs → single_from (s ∷ rest) current ≡ none
  unfolding single_from
  single_from-array vs is_array = rw (plain, is_array) refl

module _ (matches : Value → Bool) where
  as_handled :
      (o : Option (Value × Resolution)) (handled : Value × Resolution)
      → o ≡ some handled
      → or_general matches o none ≡ some (with_match matches handled)
  as_handled o handled e = ap (λ (x : Option (Value × Resolution)). or_general matches x none) e

  single_from-nil :
      (current : Value) (handled : Value × Resolution)
      → single_from [] current ≡ some handled
      → resolve_from matches [] (current ∷ []) false ≡ some (with_match matches handled)
  unfolding single_from
  single_from-nil current handled e = elim (Option-cases (array_view current)) [
    | inr (vs, is_array) ↦ absurd (cc (e, is_array))
    | inl no_array ↦
        resolve_from-nil matches (current ∷ []) false
        ∙ (ap
              (λ (l : List Value). some (
                with_leaves matches l (record { found = false; matched = false; missing = false })))
              (one_leaf current (leaf_alone current no_array).0)
            ∙ (ap (λ (b : Bool). some (record { found = true; matched = b; missing = false }))
                  (or_false (matches current))
                ∙ as_handled (some (current, value_found)) handled
                    (sym (single_from-leaf current no_array) ∙ e)))
  ]

  module _ (s : Segment) (rest : List Segment) (handled : Value × Resolution)
      (plain : s.selectors ≡ []) where
    abbrev Agrees : List Segment → Type 0
    Agrees segments =
        (current : Value)
        → single_from segments current ≡ some handled
        → resolve_from matches segments (current ∷ []) false ≡ some (with_match matches handled)

    single_attribute-found :
        (found : Option Value)
        → Agrees rest
        → or_missing found (λ inner. single_from rest inner) ≡ some handled
        → general matches s rest (attribute_candidates [] s.selectors found)
          ≡ some (with_match matches handled)
    single_attribute-found none later e = as_handled (some (null, branch_missing)) handled e
    single_attribute-found (some inner) later e =
        ap (λ (l : List Selector). general matches s rest (select_from [] l inner)) plain
        ∙ later inner e

    single_attribute-leaf :
        (current : Value)
        → Agrees rest
        → array_view current ≡ none
        → single_attribute s.attribute current (λ inner. single_from rest inner) ≡ some handled
        → general matches s rest (candidates [] s current) ≡ some (with_match matches handled)
    unfolding array_view
    single_attribute-leaf null later leaf e = as_handled (some (null, branch_missing)) handled e
    single_attribute-leaf (object fs) later leaf e =
        single_attribute-found (lookup s.attribute (entries fs)) later e
    single_attribute-leaf (array container element vs) later leaf e = absurd cc
    single_attribute-leaf current later leaf e =
        as_handled (some (null, nothing_selected)) handled e

  -- Where `resolveSingle` handles a path, its answer is the one that the general walk over candidate
  -- values gives.
  pub single_from-resolve_from :
      (segments : List Segment) (current : Value) (handled : Value × Resolution)
      → single_from segments current ≡ some handled
      → resolve_from matches segments (current ∷ []) false ≡ some (with_match matches handled)
  unfolding single_from
  single_from-resolve_from [] current handled e = single_from-nil current handled e
  single_from-resolve_from (s ∷ rest) current handled e =
      elim (Bool-cases (not (same (length s.selectors) 0))) [
        | inl selecting ↦ absurd (cc (e, selecting))
        | inr plain ↦ elim (Option-cases (array_view current)) [
          | inr (vs, is_array) ↦ absurd (cc (e, single_from-array s rest current plain vs is_array))
          | inl leaf ↦
              resolve_from-leaf matches s rest current leaf
              ∙ single_attribute-leaf s rest handled (no_selectors s.selectors plain) current
                  (λ inner h. single_from-resolve_from rest inner handled h) leaf
                  (sym (single_from-open s rest current plain leaf) ∙ e)
        ]
      ]
