-- ===== src/Schema/Types/Validation.antt =====
-- A schema whose type inheritance is valid has no cycles.
use ocsf_toolkit.Common.{
  ℕ, zero, suc, ◌+◌, ◌<◌, ◌≡◌, ◌↔◌, ◌⊎◌, inl, inr, refl, sym, subst, ◌∙◌, List, [], ◌∷◌, ◌++◌, true,
  none, some, Bytes, bytes_eq, same, same_iff, lookup, contains, length, arith, Bool-cases,
  Option-cases,
}
use ocsf_toolkit.Schema.Types.{
  Types, TypeDefinition, parent, is_primitive_type_name, Resolved, resolved, resolve_primitive_type,
  Walked, walked, cycle_at, walk_open, walk_from, with_walked, validate_names, names_of,
  validate_type_inheritance,
}
use ocsf_toolkit.Schema.Types.Termination.{
  Grounded, stops, goes_on, Climbs, Grounded-acyclic, following, Ends, at_last, at_cycle,
  resolve_primitive_type-Ends, primitive_ends, orphan_ends, parent_follows, parent-lookup, Upward,
  unseen, unseen-nil, unseen-cons, Lead, Lead-contains, Lead-step, some_injective,
}

-- every name of a list is grounded
abbrev AllGrounded : Types → List Bytes → Type 0
AllGrounded types names = (x : Bytes) → contains names x ≡ true → Grounded types x

-- what a walk that finds no cycle shows, of the type it starts from and of those it marks
abbrev Walks : Types → Bytes → List Bytes → Walked → Type 0
Walks types name path (walked marked) =
    Grounded types name
    × ((x : Bytes) → contains marked x ≡ true → (contains path x ≡ true) ⊎ Grounded types x)
Walks types name path _ = Unit

module _ (types : Types) (visited : List Bytes) (before : AllGrounded types visited) where
  marked_cons :
      (name : Bytes) (path : List Bytes) (x : Bytes)
      → Grounded types name
      → (contains (name ∷ path) x ≡ true) ⊎ Grounded types x
      → (contains path x ≡ true) ⊎ Grounded types x
  marked_cons name path x grounded (inr g) = inr g
  marked_cons name path x grounded (inl e) = elim (Bool-cases (same name x)) [
    | inl equal ↦ inr (subst (Grounded types) ((same_iff name x).0 equal) grounded)
    | inr other ↦ inl (rw other at e)
  ]

  climbed :
      (name up : Bytes) (path : List Bytes) (w : Walked)
      → following types name ≡ some up
      → Walks types up (name ∷ path) w
      → Walks types name path w
  climbed name up path (walked marked) e (grounded, others) =
      let here = goes_on name up e grounded in
      (here, λ x m. marked_cons name path x here (others x m))
  climbed name up path (cycle_at x) e h = tt
  climbed name up path walk_open e h = tt

  walk_from-Walks :
      (rounds : ℕ) (name : Bytes) (path : List Bytes)
      → Walks types name path (walk_from rounds types visited name path)
  unfolding walk_from
  walk_from-Walks zero name path = tt
  walk_from-Walks (suc rounds) name path = elim (Bool-cases (is_primitive_type_name name)) [
    | inl p ↦ rw p (stops name (primitive_ends types name p), λ x m. inl m)
    | inr p ↦ elim (Bool-cases (contains path name)) [
      | inl repeated ↦ rw (p, repeated) tt
      | inr fresh ↦ elim (Bool-cases (contains visited name)) [
        | inl done ↦ rw (p, fresh, done) (before name done, λ x m. inl m)
        | inr new ↦
            rw (p, fresh, new)
              (elim (Option-cases (parent types name)) [
                | inl orphan ↦
                    let here = stops name (orphan_ends types name orphan) in
                    rw orphan (here, λ x m. marked_cons name path x here (inl m))
                | inr (up, e) ↦ rw e (
                    climbed name up path (walk_from rounds types visited up (name ∷ path))
                      (parent_follows types name up p e) (walk_from-Walks rounds up (name ∷ path)))
              ])
      ]
    ]
  ]

append-AllGrounded :
    (types : Types) (visited marked : List Bytes)
    → AllGrounded types visited
    → ((x : Bytes) → contains marked x ≡ true → Grounded types x)
    → AllGrounded types (marked ++ visited)
append-AllGrounded types visited [] before new x e = before x e
append-AllGrounded types visited (m ∷ marked) before new x e = elim (Bool-cases (same m x)) [
  | inl equal ↦ new x (rw equal refl)
  | inr other ↦
      append-AllGrounded types visited marked before (λ y f. new y (ground (arith, f))) x
        (rw other at e)
]

not_in_empty :
    (types : Types) (x : Bytes) → (contains [] x ≡ true) ⊎ Grounded types x → Grounded types x
not_in_empty types x (inl e) = absurd cc
not_in_empty types x (inr g) = g

cons-AllGrounded :
    (types : Types) (name : Bytes) (names : List Bytes)
    → Grounded types name
    → AllGrounded types names
    → AllGrounded types (name ∷ names)
cons-AllGrounded types name names here rest x e = elim (Bool-cases (same name x)) [
  | inl equal ↦ subst (Grounded types) ((same_iff name x).0 equal) here
  | inr other ↦ rest x (rw other at e)
]

entered-Grounded :
    (types : Types) (name : Bytes) (names visited : List Bytes) (w : Walked)
    → AllGrounded types visited
    → Walks types name [] w
    → ((seen : List Bytes)
        → AllGrounded types seen
        → validate_names types names seen ≡ none
        → AllGrounded types names)
    → with_walked visited w (λ marked. validate_names types names marked) ≡ none
    → AllGrounded types (name ∷ names)
entered-Grounded types name names visited (walked marked) before (here, others) continue e =
    cons-AllGrounded types name names here (
      continue (marked ++ visited)
        (append-AllGrounded types visited marked before (λ x m. not_in_empty types x (others x m)))
        e)
entered-Grounded types name names visited (cycle_at x) before h continue e = absurd cc
entered-Grounded types name names visited walk_open before h continue e = absurd cc

-- what a loop over the names has shown when it reports no cycle
validate_names-Grounded :
    (types : Types) (names visited : List Bytes)
    → AllGrounded types visited
    → validate_names types names visited ≡ none
    → AllGrounded types names
unfolding validate_names
validate_names-Grounded types [] visited before valid = λ x e. absurd cc
validate_names-Grounded types (name ∷ names) visited before valid =
    elim (Bool-cases (contains visited name)) [
      | inl done ↦
          cons-AllGrounded types name names (before name done)
            (validate_names-Grounded types names visited before (rw done at valid))
      | inr new ↦
          entered-Grounded types name names visited
            (walk_from (length types + 2) types visited name []) before
            (walk_from-Walks types visited before (length types + 2) name [])
            (λ seen grounded e. validate_names-Grounded types names seen grounded e)
            (rw new at valid)
    ]

contains-names_of :
    (types : Types) (name : Bytes) (d : TypeDefinition)
    → lookup name types ≡ some d
    → contains (names_of types) name ≡ true
contains-names_of [] name d e = absurd cc
contains-names_of ((n, d') ∷ types) name d e = ground (arith, contains-names_of types name d)

name-Grounded :
    (types : Types) → validate_type_inheritance types ≡ none → (name : Bytes) → Grounded types name
unfolding validate_type_inheritance
name-Grounded types valid name = elim (Option-cases (following types name)) [
  | inl e ↦ stops name e
  | inr (up, e) ↦ elim (Bool-cases (is_primitive_type_name name)) [
    | inl p ↦ stops name (primitive_ends types name p)
    | inr p ↦
        let (d, found) = parent-lookup types name up (sym (rw p refl) ∙ e) in
        validate_names-Grounded types (names_of types) [] (λ x impossible. absurd cc) valid name
          (contains-names_of types name d found)
  ]
]

-- In a schema whose type inheritance is valid, `ResolvePrimitiveType` never fails: for every type it
-- gives the type itself or one above it, from which inheritance does not go on.
pub resolve_primitive_type-valid :
    (types : Types) (name : Bytes)
    → validate_type_inheritance types ≡ none
    → (top : Bytes) × (resolve_primitive_type (some types) name ≡ resolved top)
      × Upward types name top
      × (following types top ≡ none)
resolve_primitive_type-valid types name valid =
    go (resolve_primitive_type (some types) name) refl (resolve_primitive_type-Ends types name)
  where
    go :
        (r : Resolved)
        → resolve_primitive_type (some types) name ≡ r
        → Ends types name r
        → (top : Bytes) × (resolve_primitive_type (some types) name ≡ resolved top)
          × Upward types name top
          × (following types top ≡ none)
    go r e (at_last top upward last) = (top, e, upward, last)
    go r e (at_cycle x upward climb) =
        absurd (Grounded-acyclic types x (name-Grounded types valid x) climb)

-- a walk ends, and a cycle that it reports is one
abbrev Reports : Types → Walked → Type 0
Reports types (walked marked) = Unit
Reports types (cycle_at x) = Climbs types x x
Reports types walk_open = ⊥

walk_from-Reports :
    (types : Types) (visited : List Bytes) (rounds : ℕ) (name : Bytes) (path : List Bytes)
    → unseen types path + 1 < rounds
    → Lead types path name
    → Reports types (walk_from rounds types visited name path)
unfolding walk_from
walk_from-Reports types visited zero name path le lead = absurd (omega arith)
walk_from-Reports types visited (suc rounds) name path le lead =
    elim (Bool-cases (is_primitive_type_name name)) [
      | inl p ↦ rw p tt
      | inr p ↦ elim (Bool-cases (contains path name)) [
        | inl repeated ↦ rw (p, repeated) (Lead-contains types path name name lead repeated)
        | inr fresh ↦ elim (Bool-cases (contains visited name)) [
          | inl done ↦ rw (p, fresh, done) tt
          | inr new ↦
              rw (p, fresh, new)
                (elim (Option-cases (parent types name)) [
                  | inl orphan ↦ rw orphan tt
                  | inr (up, e) ↦ rw e (
                      let (d, found) = parent-lookup types name up e in
                      walk_from-Reports types visited rounds up (name ∷ path)
                        (omega (arith, le, unseen-cons types name path d found fresh))
                        (Lead-step types path name up lead (parent_follows types name up p e)))
                ])
        ]
      ]
    ]

entered-Climbs :
    (types : Types) (names visited : List Bytes) (w : Walked) (x : Bytes)
    → Reports types w
    → ((seen : List Bytes) → validate_names types names seen ≡ some x → Climbs types x x)
    → with_walked visited w (λ marked. validate_names types names marked) ≡ some x
    → Climbs types x x
entered-Climbs types names visited (walked marked) x h continue e = continue (marked ++ visited) e
entered-Climbs types names visited (cycle_at y) x h continue e =
    subst (λ (z : Bytes). Climbs types z z) (some_injective e) h
entered-Climbs types names visited walk_open x h continue e = absurd h

validate_names-Climbs :
    (types : Types) (names visited : List Bytes) (x : Bytes)
    → validate_names types names visited ≡ some x
    → Climbs types x x
unfolding validate_names
validate_names-Climbs types [] visited x e = absurd cc
validate_names-Climbs types (name ∷ names) visited x e = elim (Bool-cases (contains visited name)) [
  | inl done ↦ validate_names-Climbs types names visited x (rw done at e)
  | inr new ↦
      entered-Climbs types names visited (walk_from (length types + 2) types visited name []) x
        (walk_from-Reports types visited (length types + 2) name []
          (omega (arith, unseen-nil types)) tt)
        (λ seen f. validate_names-Climbs types names seen x f) (rw new at e)
]

reported : (types : Types) (x : Bytes) → validate_type_inheritance types ≡ some x → Climbs types x x
unfolding validate_type_inheritance
reported types x e = validate_names-Climbs types (names_of types) [] x e

accepted :
    (types : Types) → ((x : Bytes) → Climbs types x x → ⊥) → validate_type_inheritance types ≡ none
accepted types acyclic = elim (Option-cases (validate_type_inheritance types)) [
  | inl e ↦ e
  | inr (x, e) ↦ absurd (acyclic x (reported types x e))
]

-- `validateTypeInheritance` ends, and accepts exactly the dictionaries in which no type inherits
-- from itself.
pub validate_type_inheritance-Climbs :
    (types : Types)
    → (validate_type_inheritance types ≡ none) ↔ ((x : Bytes) → Climbs types x x → ⊥)
validate_type_inheritance-Climbs types =
    (λ valid x climb. Grounded-acyclic types x (name-Grounded types valid x) climb, accepted types)
