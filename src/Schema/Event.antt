-- ===== src/Schema/Event.antt =====
-- internal/schema/event.go: the class, the profiles and the type_uid of an event.
pub mod TypeUid
use ocsf_toolkit.Common.{
  ℕ, ◌+◌, ◌-◌, ◌*◌, ◌%◌, List, [], ◌∷◌, Bool, true, false, not, ◌&&◌, ◌||◌, Option, none, some,
  Bytes, bytes_eq, bool_eq, codes, same, lookup, ltb, leb, contains, is_some, if◌then◌else◌,
}
use ocsf_toolkit.Common.Int.{ℤ, pos, negsuc, pos_part, neg_part, ltb_ℤ, int_eq}
use ocsf_toolkit.EventValue.{Value, Map, null, as_map, array_view, reads_elements}
use ocsf_toolkit.EventValue.Scalar.{NumberLibrary, as_string_at, as_integer}
use ocsf_toolkit.EventValue.Object.{get_attribute}
use ocsf_toolkit.Schema.{AttributeDefinition}

abbrev pub max_int64 : ℤ
max_int64 = pos 9223372036854775807

abbrev pub min_int64 : ℤ
min_int64 = negsuc 9223372036854775807

abbrev pub two_64 : ℕ
two_64 = 18446744073709551616

-- p - n
abbrev pub difference : ℕ → ℕ → ℤ
difference p n = if leb n p then pos (p - n) else negsuc (n - p - 1)

abbrev pub add_ℤ : ℤ → ℤ → ℤ
add_ℤ a b = difference (pos_part a + pos_part b) (neg_part a + neg_part b)

abbrev pub minus_ℤ : ℤ → ℤ → ℤ
minus_ℤ a b = difference (pos_part a + neg_part b) (neg_part a + pos_part b)

abbrev pub times_100 : ℤ → ℤ
times_100 a = difference (pos_part a * 100) (neg_part a * 100)

-- the residue of a modulo 2 ^ 64, and the int64 that it stands for
abbrev pub residue : ℤ → ℕ
residue a = (pos_part a + (two_64 - neg_part a % two_64)) % two_64

abbrev pub as_int64 : ℕ → ℤ
as_int64 r = if ltb r 9223372036854775808 then pos r else negsuc (two_64 - r - 1)

-- the result of an int64 operation, which wraps around
unfoldable pub wrap_int64 : ℤ → ℤ
wrap_int64 a = as_int64 (residue a)

-- `ExpectedTypeUID`. `math.MaxInt64/100` and `math.MinInt64/100` are the two bounds of class_uid.
unfoldable pub expected_type_uid : ℤ → ℤ → Option ℤ
unfolding wrap_int64
expected_type_uid class_uid activity_id =
    let base = wrap_int64 (times_100 class_uid) in
    if ltb_ℤ (pos 92233720368547758) class_uid || ltb_ℤ class_uid (negsuc 92233720368547757)
    then none
    else if ltb_ℤ (pos 0) activity_id && ltb_ℤ (wrap_int64 (minus_ℤ max_int64 activity_id)) base
    then none
    else if ltb_ℤ activity_id (pos 0) && ltb_ℤ base (wrap_int64 (minus_ℤ min_int64 activity_id))
    then none
    else some (wrap_int64 (add_ℤ base activity_id))

-- `ClassResolution`, with the class where Go returns one, and the class_uid where Go returns it.
pub data ClassResolution (C : Type 0) : Type 0 where
  class_resolved : C → ℤ → ClassResolution C
  class_uid_missing class_uid_wrong_type : ClassResolution C
  class_uid_unknown : ℤ → ClassResolution C

module _ {C : Type 0} (lib : NumberLibrary) (classes : List (ℤ × C)) where
  abbrev known : ℤ → Option C → ClassResolution C
  known uid none = class_uid_unknown uid
  known uid (some class) = class_resolved class uid

  abbrev by_uid : Option ℤ → ClassResolution C
  by_uid none = class_uid_wrong_type
  by_uid (some uid) = known uid (lookup uid classes)

  abbrev by_value : Option Value → ClassResolution C
  by_value none = class_uid_missing
  by_value (some value) = by_uid (as_integer lib value)

  -- `ResolveEventClass`
  unfoldable pub resolve_event_class : Map → ClassResolution C
  resolve_event_class event = by_value (get_attribute event (codes "class_uid"))

-- the members that `result` holds after the loop, which a set keeps once
abbrev add_profile : Option Bytes → List Bytes → List Bytes
add_profile none rest = rest
add_profile (some profile) rest = profile ∷ rest

abbrev strings : Bool → List Value → List Bytes
strings direct [] = []
strings direct (v ∷ vs) = add_profile (as_string_at direct v) (strings direct vs)

abbrev strings_of : Bool → Option (List Value) → List Bytes
strings_of direct none = []
strings_of direct (some vs) = strings direct vs

-- A nil map reads as null.
abbrev profiles_of : Option Value → List Bytes
profiles_of none = []
profiles_of (some value) = strings_of (reads_elements value) (array_view value)

abbrev profiles_in : Option Map → List Bytes
profiles_in none = []
profiles_in (some metadata) = profiles_of (lookup (codes "profiles") metadata)

abbrev metadata_of : Option Value → Option Map
metadata_of none = none
metadata_of (some value) = as_map value

-- `EventProfileSet`, as the list of its members; the nil set has none.
unfoldable pub event_profile_set : Map → List Bytes
event_profile_set event = profiles_in (metadata_of (lookup (codes "metadata") event))

-- `EnumSiblingSupported`; none is a nil definition.
unfoldable pub enum_sibling_supported :
    Option AttributeDefinition → Option AttributeDefinition → Bool
enum_sibling_supported none sibling = false
enum_sibling_supported (some attribute) none = false
enum_sibling_supported (some attribute) (some sibling) =
    if is_some sibling.enum || not (same attribute.is_array sibling.is_array)
    then false
    else if not (same sibling.type_name (codes "string_t"))
    then false
    else same attribute.type_name (codes "integer_t") || same attribute.type_name (codes "long_t")
