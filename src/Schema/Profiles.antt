-- ===== src/Schema/Profiles.antt =====
-- Which attributes are active under the profiles of an event.
use ocsf_toolkit.Common.{
  ◌≡◌, ◌↔◌, ◌⊎◌, inl, inr, refl, List, [], ◌∷◌, true, some, arith, Bytes, bytes_eq, contains,
  same_iff, same_refl, Bool-cases,
}
use ocsf_toolkit.Schema.{AttributeDefinition, any_active, scoped_active, attribute_active}

any_active-some :
    (names profiles : List Bytes)
    → any_active names profiles ≡ true
    → (p : Bytes) × (contains names p ≡ true) × (contains profiles p ≡ true)
unfolding any_active
any_active-some [] profiles h = cc
any_active-some (n ∷ names) profiles h = elim (Bool-cases (contains profiles n)) [
  | inl e ↦ (n, ground (arith, same_refl n), e)
  | inr e ↦
      let (p, named, active) = any_active-some names profiles (ground arith) in
      (p, ground (arith, named), active)
]

some-any_active :
    (names profiles : List Bytes) (p : Bytes)
    → contains names p ≡ true
    → contains profiles p ≡ true
    → any_active names profiles ≡ true
unfolding any_active
some-any_active [] profiles p h k = cc
some-any_active (n ∷ names) profiles p h k =
    ground (arith, some-any_active names profiles p, same_iff n p)

scoped_active_iff :
    (names profiles : List Bytes)
    → (scoped_active names profiles ≡ true)
      ↔ ((names ≡ []) ⊎ ((p : Bytes) × (contains names p ≡ true) × (contains profiles p ≡ true)))
unfolding scoped_active
scoped_active_iff [] profiles = (λ e. inl refl, λ e. refl)
scoped_active_iff (n ∷ names) profiles = (
  λ e. inr (any_active-some (n ∷ names) profiles e),
  λ c. elim c [ inl e ↦ cc | inr (p, h, k) ↦ some-any_active (n ∷ names) profiles p h k ],
)

-- An attribute is active exactly when no profile scopes it or one of its profiles is among the active
-- ones.
pub attribute_active_iff :
    (a : AttributeDefinition) (profiles : List Bytes)
    → (attribute_active (some a) profiles ≡ true) ↔ (
        (a.profiles ≡ [])
        ⊎ ((p : Bytes) × (contains a.profiles p ≡ true) × (contains profiles p ≡ true)))
unfolding attribute_active
attribute_active_iff a profiles = scoped_active_iff a.profiles profiles
