-- ===== src/Schema/Types.antt =====
-- internal/schema/schema.go: the inheritance of dictionary types.
pub mod Termination
pub mod Validation
use ocsf_toolkit.Common.{
  ℕ, zero, suc, ◌+◌, List, [], ◌∷◌, ◌++◌, map, Bool, true, false, not, ◌&&◌, ◌||◌, Option, none,
  some, Bytes, bytes_eq, codes, same, lookup, contains, length, if◌then◌else◌,
}
use ocsf_toolkit.Common.Int.{ℤ}

-- `TypeDefinition` and its `CommonAttributeDefinition`, without the fields that validation reads
pub record TypeDefinition : Type 0 where
  pub type_name : Bytes
  pub observable : Option ℤ

-- `Types.Attributes`, without null definitions, which are refused when a schema is loaded
abbrev pub Types : Type 0
Types = List (Bytes × TypeDefinition)

abbrev pub primitive_names : List Bytes
primitive_names =
    codes "boolean_t"
    ∷ codes "float_t"
    ∷ codes "integer_t"
    ∷ codes "long_t"
    ∷ codes "string_t"
    ∷ codes "json_t"
    ∷ []

-- `isPrimitiveTypeName`
unfoldable pub is_primitive_type_name : Bytes → Bool
is_primitive_type_name name = contains primitive_names name

-- `typeDef.Type`, and none where the definition is missing or has no type
abbrev pub parent_of : Option TypeDefinition → Option Bytes
parent_of none = none
parent_of (some d) = if same d.type_name [] then none else some d.type_name

unfoldable pub parent : Types → Bytes → Option Bytes
parent types name = parent_of (lookup name types)

-- The loop of `TypeDerivedFrom`; `rounds` is its variable `remaining`.
abbrev pub derived_by : Option TypeDefinition → (Bytes → Bool) → Bool
derived_by none continue = false
derived_by (some d) continue = continue d.type_name

unfoldable pub derived_within : ℕ → Types → Bytes → Bytes → Bool
derived_within zero types name base = false
derived_within (suc rounds) types name base =
    if same name []
    then false
    else if same name base
    then true
    else derived_by (lookup name types) (λ up. derived_within rounds types up base)

-- `TypeDerivedFrom`; the types are none where a pointer on the way to them is nil
unfoldable pub type_derived_from : Option Types → Bytes → Bytes → Bool
unfolding derived_within
type_derived_from none name base = same name base
type_derived_from (some types) name base = derived_within (length types + 1) types name base

-- the result of following parents: the last type, a type met twice, or no result
pub data Resolved : Type 0 where
  resolved : Bytes → Resolved
  cyclic : Bytes → Resolved
  out_of_rounds : Resolved

abbrev pub at_parent : Bytes → Option Bytes → (Bytes → Resolved) → Resolved
at_parent name none continue = resolved name
at_parent name (some up) continue = continue up

-- The loop of `ResolvePrimitiveType`, which ends after as many rounds as there are types and one more.
unfoldable pub resolve_from : ℕ → Types → Bytes → List Bytes → Resolved
unfolding is_primitive_type_name parent
resolve_from zero types name seen = out_of_rounds
resolve_from (suc rounds) types name seen =
    let deeper =
      at_parent name (parent types name) (λ up. resolve_from rounds types up (name ∷ seen)) in
    if is_primitive_type_name name
    then resolved name
    else if contains seen name
    then cyclic name
    else deeper

-- `ResolvePrimitiveType`
unfoldable pub resolve_primitive_type : Option Types → Bytes → Resolved
unfolding resolve_from
resolve_primitive_type none name = resolved name
resolve_primitive_type (some types) name = resolve_from (length types + 2) types name []

-- what one walk of `validateTypeInheritance` ends in: the names that it marked, a cycle, or no result
pub data Walked : Type 0 where
  walked : List Bytes → Walked
  cycle_at : Bytes → Walked
  walk_open : Walked

abbrev pub walk_parent : List Bytes → Option Bytes → (Bytes → Walked) → Walked
walk_parent path none continue = walked path
walk_parent path (some up) continue = continue up

-- The inner loop of `validateTypeInheritance`. The names in the state `typeVisiting` are those of
-- `path`, and `visited` are those in the state `typeVisited`.
unfoldable pub walk_from : ℕ → Types → List Bytes → Bytes → List Bytes → Walked
unfolding is_primitive_type_name parent
walk_from zero types visited name path = walk_open
walk_from (suc rounds) types visited name path =
    let deeper =
      walk_parent (name ∷ path) (parent types name)
        (λ up. walk_from rounds types visited up (name ∷ path)) in
    if is_primitive_type_name name
    then walked path
    else if contains path name
    then cycle_at name
    else if contains visited name
    then walked path
    else deeper

abbrev pub with_walked : List Bytes → Walked → (List Bytes → Option Bytes) → Option Bytes
with_walked visited (walked path) continue = continue (path ++ visited)
with_walked visited (cycle_at name) continue = some name
with_walked visited walk_open continue = some []

-- The loop of `validateTypeInheritance` over the names of the types, with the type at which there is
-- a cycle as its error. The order of the names decides only which cycle is found.
unfoldable pub validate_names : Types → List Bytes → List Bytes → Option Bytes
unfolding walk_from
validate_names types [] visited = none
validate_names types (name ∷ names) visited =
    let skipped = validate_names types names visited in
    let entered =
      with_walked visited (walk_from (length types + 2) types visited name [])
        (λ marked. validate_names types names marked) in
    if contains visited name then skipped else entered

abbrev pub names_of : Types → List Bytes
names_of types = map (λ (entry : Bytes × TypeDefinition). entry.0) types

unfoldable pub validate_type_inheritance : Types → Option Bytes
unfolding validate_names
validate_type_inheritance types = validate_names types (names_of types) []
