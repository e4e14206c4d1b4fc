-- ===== src/Schema.antt =====
-- internal/schema: the parts of a compiled schema that event processing reads.
pub mod NumericEnum
pub mod Event
pub mod Profiles
pub mod Items
pub mod Types
pub mod Siblings
use ocsf_toolkit.Common.{
  List, [], ◌∷◌, Bool, true, false, Option, none, some, Bytes, bytes_eq, contains, codes, same,
  if◌then◌else◌, ◌||◌,
}
use ocsf_toolkit.Common.Int.{ℤ}
use ocsf_toolkit.Schema.NumericEnum.{EnumDefinition, NumericEnumIndex, build_index}

-- `ItemAttributeDefinition`. An `IsArray` that is nil counts as false, and an `Enum` that is nil is
-- none. The pointers to other attributes are arguments of the functions that follow them.
pub record AttributeDefinition : Type 0 where
  pub type_name : Bytes
  pub primitive_type : Bytes
  pub is_array : Bool
  pub enum : Option (List (Bytes × EnumDefinition))
  pub sibling : Option Bytes
  pub object_type : Option Bytes
  pub profiles : List Bytes
  pub observable : Option ℤ
  pub numeric_enums : Option NumericEnumIndex

any_active : List Bytes → List Bytes → Bool
any_active [] profiles = false
any_active (profile ∷ rest) profiles =
    if contains profiles profile then true else any_active rest profiles

scoped_active : List Bytes → List Bytes → Bool
unfolding any_active
scoped_active [] profiles = true
scoped_active (p ∷ scopes) profiles = any_active (p ∷ scopes) profiles

-- `AttributeActive`; the profile set is the list of its members.
unfoldable pub attribute_active : Option AttributeDefinition → List Bytes → Bool
unfolding scoped_active
attribute_active none profiles = false
attribute_active (some a) profiles = scoped_active a.profiles profiles

-- Package strconv at base 10: `ParseInt` to 64 bits, and `FormatInt`.
module _ (parse_int : Bytes → Option ℤ) (format_int : ℤ → Bytes) where
  -- The index that one round of `initializeItemNumericEnums` leaves in an attribute.
  unfoldable pub initialized_index :
      AttributeDefinition
      → Option (List (Bytes × EnumDefinition))
      → Option NumericEnumIndex
      → Option NumericEnumIndex
  initialized_index a none before = before
  initialized_index a (some enum) before =
      if same a.primitive_type (codes "integer_t") || same a.primitive_type (codes "long_t")
      then some (build_index parse_int format_int enum)
      else before

  unfoldable pub initialize_numeric_enums : AttributeDefinition → AttributeDefinition
  unfolding initialized_index
  initialize_numeric_enums a = record a {
    numeric_enums = initialized_index a a.enum a.numeric_enums;
  }
