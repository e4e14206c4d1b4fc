-- ===== src/Schema/Siblings.antt =====
-- internal/schema/schema.go: the enum siblings of an item and the types of observables.
pub mod Links
use ocsf_toolkit.Common.{
  ℕ, List, [], ◌∷◌, Bool, true, false, not, ◌&&◌, ◌||◌, Option, none, some, Bytes, bytes_eq,
  bool_eq, codes, same, lookup, insert, is_some, if◌then◌else◌, ◌⊎◌, inl, inr,
}
use ocsf_toolkit.Common.Int.{ℤ, int_eq}
use ocsf_toolkit.Schema.{AttributeDefinition}
use ocsf_toolkit.Schema.NumericEnum.{EnumDefinition}
use ocsf_toolkit.Schema.Items.{Attributes, Objects, ObjectDefinition}
use ocsf_toolkit.Schema.Event.{enum_sibling_supported}

-- The codes of `enumSiblingInitializationIssue`.
pub data SiblingIssue : Type 0 where
  source_not_integral target_not_found target_is_enum target_not_string : SiblingIssue

abbrev pub target_issue : AttributeDefinition → Option AttributeDefinition → Option SiblingIssue
target_issue attribute none = some target_not_found
target_issue attribute (some sibling) =
    if is_some sibling.enum
    then some target_is_enum
    else if not (same sibling.type_name (codes "string_t"))
        || not (same attribute.is_array sibling.is_array)
    then some target_not_string
    else none

-- `enumSiblingInitializationIssue`, without the wording and the details of the issue
unfoldable pub enum_sibling_initialization_issue :
    AttributeDefinition → Option AttributeDefinition → Option SiblingIssue
enum_sibling_initialization_issue attribute sibling =
    if not (same attribute.type_name (codes "integer_t"))
      && not (same attribute.type_name (codes "long_t"))
    then some source_not_integral
    else target_issue attribute sibling

-- the sibling that an attribute names, if it has an enum and names one
abbrev pub sibling_name : AttributeDefinition → Option Bytes
sibling_name a = if is_some a.enum then a.sibling else none

-- what `setItemTraversalCache` keeps for the event walk: each enum with the sibling that is linked to
-- it, in the order of their names, and the issues
pub record SiblingLinks : Type 0 where
  pub links : List (Bytes × Bytes)
  pub issues : List (Bytes × SiblingIssue)

abbrev pub add_link : Bytes → Bytes → Option SiblingIssue → SiblingLinks → SiblingLinks
add_link name sibling none found = record found { links = (name, sibling) ∷ found.links }
add_link name sibling (some code) found = record found { issues = (name, code) ∷ found.issues }

abbrev pub link :
    Attributes → Bytes → AttributeDefinition → Option Bytes → SiblingLinks → SiblingLinks
link attributes name a none found = found
link attributes name a (some sibling) found =
    add_link name sibling (enum_sibling_initialization_issue a (lookup sibling attributes)) found

-- the loop of `setItemTraversalCache` over the ordered attributes
unfoldable pub link_siblings : Attributes → Attributes → SiblingLinks
unfolding enum_sibling_initialization_issue
link_siblings attributes [] = record { links = []; issues = [] }
link_siblings attributes ((name, a) ∷ rest) =
    link attributes name a (sibling_name a) (link_siblings attributes rest)

-- the two enums that `validateItemEnumSiblingRelationships` reports, and their sibling
pub record SharedSibling : Type 0 where
  pub owner : Bytes
  pub attribute : Bytes
  pub sibling : Bytes

abbrev pub shared_or : Bytes → Bytes → Option Bytes → Option SharedSibling → Option SharedSibling
shared_or name sibling none rest = rest
shared_or name sibling (some owner) rest =
    some (record { owner = owner; attribute = name; sibling = sibling })

abbrev pub owned :
    Attributes
    → Bytes
    → AttributeDefinition
    → Option Bytes
    → List (Bytes × Bytes)
    → (List (Bytes × Bytes) → Option SharedSibling)
    → Option SharedSibling
owned attributes name a none sibling_of continue = continue sibling_of
owned attributes name a (some sibling) sibling_of continue =
    if not (enum_sibling_supported (some a) (lookup sibling attributes))
    then continue sibling_of
    else shared_or name sibling (lookup sibling sibling_of)
        (continue (insert sibling name sibling_of))

-- the loop of `validateItemEnumSiblingRelationships` over the sorted attributes
unfoldable pub validate_siblings :
    Attributes → Attributes → List (Bytes × Bytes) → Option SharedSibling
unfolding enum_sibling_supported
validate_siblings attributes [] sibling_of = none
validate_siblings attributes ((name, a) ∷ rest) sibling_of =
    owned attributes name a (sibling_name a) sibling_of (λ s. validate_siblings attributes rest s)

-- `validateItemEnumSiblingRelationships` of an item whose attributes are listed in order
unfoldable pub validate_item_enum_sibling_relationships : Attributes → Option SharedSibling
unfolding validate_siblings
validate_item_enum_sibling_relationships attributes = validate_siblings attributes attributes []

-- Package strconv's `ParseInt` at base 10 to 64 bits.
module _ (parse_int : Bytes → Option ℤ) where
  -- the errors of `makeObservableTypes`, with the IDs that they name
  pub data ObservableTypesError : Type 0 where
    invalid_id : Bytes → ObservableTypesError
    duplicate_id : Bytes → Bytes → ℤ → ObservableTypesError

  abbrev pub typed :
      Bytes
      → EnumDefinition
      → Option ℤ
      → List (ℤ × (Bytes × Bytes))
      → (List (ℤ × (Bytes × Bytes)) → ObservableTypesError ⊎ List (ℤ × (Bytes × Bytes)))
      → ObservableTypesError ⊎ List (ℤ × (Bytes × Bytes))
  typed text d none seen continue = inl (invalid_id text)
  typed text d (some id) seen continue = elim (lookup id seen) [
    | some (previous, caption) ↦ inl (duplicate_id previous text id)
    | none ↦ continue (insert id (text, d.caption) seen)
  ]

  -- The loop of `makeObservableTypes` over the sorted IDs of the enum: each ID with its text and its
  -- caption. A null definition is not a value of an enum here.
  unfoldable pub observable_types_from :
      List (Bytes × EnumDefinition)
      → List (ℤ × (Bytes × Bytes))
      → ObservableTypesError ⊎ List (ℤ × (Bytes × Bytes))
  observable_types_from [] seen = inr seen
  observable_types_from ((text, d) ∷ rest) seen =
      typed text d (parse_int text) seen (λ s. observable_types_from rest s)

  abbrev enum_of : Option AttributeDefinition → List (Bytes × EnumDefinition)
  enum_of none = []
  enum_of (some a) = elim a.enum [ none ↦ [] | some enum ↦ enum ]

  abbrev type_enum : Option ObjectDefinition → List (Bytes × EnumDefinition)
  type_enum none = []
  type_enum (some object) = enum_of (lookup (codes "type_id") object.attributes)

  -- `makeObservableTypes`
  unfoldable pub make_observable_types : Objects → ObservableTypesError ⊎ List (ℤ × (Bytes × Bytes))
  unfolding observable_types_from
  make_observable_types objects =
      observable_types_from (type_enum (lookup (codes "observable") objects)) []
