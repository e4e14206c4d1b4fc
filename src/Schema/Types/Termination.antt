-- ===== src/Schema/Types/Termination.antt =====
-- Type inheritance ends: each loop over the parents of a type, and what validation promises of it.
use ocsf_toolkit.Common.{
  ℕ, zero, suc, ◌+◌, ◌≤◌, ◌<◌, ◌≡◌, ◌⊎◌, inl, inr, refl, sym, ap, subst, ◌∙◌, List, [], ◌∷◌, Bool,
  true, false, Option, none, some, Bytes, bytes_eq, same, same_iff, lookup, contains, length, arith,
  Bool-cases, Option-cases, if◌then◌else◌, All,
}
use ocsf_toolkit.Schema.Types.{
  Types, TypeDefinition, parent_of, parent, is_primitive_type_name, Resolved, resolved, cyclic,
  resolve_from, resolve_primitive_type,
}

abbrev next_of : Bool → Option Bytes → Option Bytes
next_of true up = none
next_of false up = up

-- where the loops go on from a type
abbrev pub following : Types → Bytes → Option Bytes
following types name = next_of (is_primitive_type_name name) (parent types name)

-- The parents of a type end, and one type is met behind another.
pub data Grounded (types : Types) : Bytes → Type 0 where
  stops : (name : Bytes) → following types name ≡ none → Grounded types name
  goes_on :
      (name up : Bytes) → following types name ≡ some up → Grounded types up → Grounded types name

pub data Climbs (types : Types) : Bytes → Bytes → Type 0 where
  once : (name up : Bytes) → following types name ≡ some up → Climbs types name up
  again :
      (name up top : Bytes)
      → following types name ≡ some up
      → Climbs types up top
      → Climbs types name top

pub some_injective : {a b : Bytes} → some a ≡ some b → a ≡ b
some_injective e = cc

module _ (types : Types) where
  pub Climbs-snoc :
      (a b c : Bytes) → Climbs types a b → following types b ≡ some c → Climbs types a c
  Climbs-snoc a b c (once a' b' e) f = again a b c e (once b c f)
  Climbs-snoc a b c (again a' up b' e climb) f = again a up c e (Climbs-snoc up b c climb f)

  -- A type whose parents end is not its own parent, however far up.
  pub Grounded-acyclic : (name : Bytes) → Grounded types name → Climbs types name name → ⊥
  Grounded-acyclic name (stops n e) (once a b f) = absurd (cc (e, f))
  Grounded-acyclic name (stops n e) (again a up b f climb) = absurd (cc (e, f))
  Grounded-acyclic name (goes_on n up e grounded) (once a b f) =
      Grounded-acyclic up grounded
        (subst (λ (x : Bytes). Climbs types x x) (some_injective (sym f ∙ e)) (once name name f))
  Grounded-acyclic name (goes_on n up e grounded) (again a up' b f climb) =
      Grounded-acyclic up grounded (
        subst (λ (x : Bytes). Climbs types x x) (some_injective (sym f ∙ e))
          (Climbs-snoc up' name up' climb f))

-- how many types are not in a list of names
abbrev pub unseen : Types → List Bytes → ℕ
unseen [] seen = 0
unseen ((name, d) ∷ types) seen =
    if contains seen name then unseen types seen else suc (unseen types seen)

pub unseen-nil : (types : Types) → unseen types [] ≡ length types
unseen-nil [] = refl
unseen-nil (entry ∷ types) = ap suc (unseen-nil types)

unseen-cons_le :
    (types : Types) (name : Bytes) (seen : List Bytes)
    → unseen types (name ∷ seen) ≤ unseen types seen
unseen-cons_le [] name seen = omega arith
unseen-cons_le ((n, d) ∷ types) name seen = ground (arith, unseen-cons_le types name seen)

pub unseen-cons :
    (types : Types) (name : Bytes) (seen : List Bytes) (d : TypeDefinition)
    → lookup name types ≡ some d
    → contains seen name ≡ false
    → unseen types (name ∷ seen) < unseen types seen
unseen-cons [] name seen d e f = absurd cc
unseen-cons ((n, d') ∷ types) name seen d e f = ground (
  arith,
  unseen-cons types name seen d,
  unseen-cons_le types name seen,
  same_iff n name,
  same_iff name n,
)

pub parent-lookup :
    (types : Types) (name up : Bytes)
    → parent types name ≡ some up
    → (d : TypeDefinition) × (lookup name types ≡ some d)
unfolding parent
parent-lookup types name up e = elim (Option-cases (lookup name types)) [
  | inl missing ↦ absurd (cc (sym (ap parent_of missing) ∙ e))
  | inr found ↦ found
]

pub primitive_ends :
    (types : Types) (name : Bytes)
    → is_primitive_type_name name ≡ true
    → following types name ≡ none
primitive_ends types name h = rw h refl

pub orphan_ends :
    (types : Types) (name : Bytes) → parent types name ≡ none → following types name ≡ none
orphan_ends types name h = elim (Bool-cases (is_primitive_type_name name)) [
  | inl p ↦ rw p refl
  | inr p ↦ rw p h
]

pub parent_follows :
    (types : Types) (name up : Bytes)
    → is_primitive_type_name name ≡ false
    → parent types name ≡ some up
    → following types name ≡ some up
parent_follows types name up p h = rw p h

-- what the loop of `ResolvePrimitiveType` knows: every type it has seen leads to the one it is at
abbrev pub Lead : Types → List Bytes → Bytes → Type 0
Lead types seen name = All (λ (x : Bytes). Climbs types x name) seen

pub Lead-contains :
    (types : Types) (seen : List Bytes) (name top : Bytes)
    → Lead types seen top
    → contains seen name ≡ true
    → Climbs types name top
Lead-contains types [] name top h e = absurd cc
Lead-contains types (x ∷ seen) name top (climb, h) e = elim (Bool-cases (same x name)) [
  | inl equal ↦ subst (λ (y : Bytes). Climbs types y top) ((same_iff x name).0 equal) climb
  | inr other ↦ Lead-contains types seen name top h (rw other at e)
]

pub Lead-step :
    (types : Types) (seen : List Bytes) (name up : Bytes)
    → Lead types seen name
    → following types name ≡ some up
    → Lead types (name ∷ seen) up
Lead-step types seen name up h e = (once name up e, later seen h)
  where
    later : (xs : List Bytes) → Lead types xs name → Lead types xs up
    later [] h = h
    later (x ∷ xs) (climb, h) = (Climbs-snoc types x name up climb e, later xs h)

-- One type is another or leads to it.
abbrev pub Upward : Types → Bytes → Bytes → Type 0
Upward types name top = (name ≡ top) ⊎ Climbs types name top

Upward-step :
    (types : Types) (start name up : Bytes)
    → Upward types start name
    → following types name ≡ some up
    → Upward types start up
Upward-step types start name up (inl e) f =
    inr (once start up (subst (λ (x : Bytes). following types x ≡ some up) (sym e) f))
Upward-step types start name up (inr climb) f = inr (Climbs-snoc types start name up climb f)

-- A result of following the parents of a type: the last of them, or one that leads to itself.
pub data Ends (types : Types) (name : Bytes) : Resolved → Type 0 where
  at_last :
      (top : Bytes)
      → Upward types name top
      → following types top ≡ none
      → Ends types name (resolved top)
  at_cycle :
      (again_at : Bytes)
      → Upward types name again_at
      → Climbs types again_at again_at
      → Ends types name (cyclic again_at)

resolve_from-Ends :
    (types : Types) (rounds : ℕ) (start name : Bytes) (seen : List Bytes)
    → unseen types seen + 1 < rounds
    → Upward types start name
    → Lead types seen name
    → Ends types start (resolve_from rounds types name seen)
unfolding resolve_from
resolve_from-Ends types zero start name seen le upward lead = absurd (omega arith)
resolve_from-Ends types (suc rounds) start name seen le upward lead =
    elim (Bool-cases (is_primitive_type_name name)) [
      | inl p ↦ rw p (at_last name upward (primitive_ends types name p))
      | inr p ↦ elim (Bool-cases (contains seen name)) [
        | inl repeated ↦
            rw (p, repeated)
              (at_cycle name upward (Lead-contains types seen name name lead repeated))
        | inr fresh ↦
            rw (p, fresh)
              (elim (Option-cases (parent types name)) [
                | inl orphan ↦ rw orphan (at_last name upward (orphan_ends types name orphan))
                | inr (up, e) ↦ rw e (
                    let (d, found) = parent-lookup types name up e in
                    let follows = parent_follows types name up p e in
                    resolve_from-Ends types rounds start up (name ∷ seen)
                      (omega (arith, le, unseen-cons types name seen d found fresh))
                      (Upward-step types start name up upward follows)
                      (Lead-step types seen name up lead follows))
              ])
      ]
    ]

-- `ResolvePrimitiveType` ends for every type, cyclic inheritance included. Its result is the type
-- itself or one of those above it: a type from which inheritance does not go on, or, as an error, a
-- type that inherits from itself.
pub resolve_primitive_type-Ends :
    (types : Types) (name : Bytes) → Ends types name (resolve_primitive_type (some types) name)
unfolding resolve_primitive_type
resolve_primitive_type-Ends types name =
    resolve_from-Ends types (length types + 2) name name [] (omega (arith, unseen-nil types))
      (inl refl) tt
