-- ===== src/Processing/EnumLookup.antt =====
-- `lookupEnumDefinition` and `lookupNumericEnumDefinition` (internal/processing/process.go).
pub mod Independence
use ocsf_toolkit.Common.{
  ℕ, List, [], ◌∷◌, Bool, true, false, not, ◌&&◌, ◌||◌, Option, none, some, Bytes, bytes_eq, codes,
  same, lookup, if◌then◌else◌,
}
use ocsf_toolkit.Common.Int.{ℤ}
use ocsf_toolkit.EventValue.{Value, number}
use ocsf_toolkit.EventValue.Scalar.{
  NumberLibrary, as_string, as_integer, format_scalar, float_syntax,
}
use ocsf_toolkit.Schema.{AttributeDefinition}
use ocsf_toolkit.Schema.NumericEnum.{
  EnumDefinition, numeric_enum_definition, numeric_enum_keys_canonical,
}
use ocsf_toolkit.Processing.Context.{Context}

-- The definition where Go returns one with `enumLookupFound`.
pub data EnumLookup : Type 0 where
  found : EnumDefinition → EnumLookup
  value_unusable definition_missing : EnumLookup

-- A nil map has no entries.
abbrev pub enum_entries : Option (List (Bytes × EnumDefinition)) → List (Bytes × EnumDefinition)
enum_entries none = []
enum_entries (some enum) = enum

abbrev as_found : Option EnumDefinition → EnumLookup
as_found none = definition_missing
as_found (some d) = found d

abbrev in_enum : AttributeDefinition → Option Bytes → EnumLookup
in_enum attr none = value_unusable
in_enum attr (some text) = as_found (lookup text (enum_entries attr.enum))

abbrev in_index : AttributeDefinition → Option ℤ → EnumLookup
in_index attr none = value_unusable
in_index attr (some integer) = as_found (numeric_enum_definition attr.numeric_enums integer)

-- The first number of an event settles which spelling is tried first.
abbrev learn_style : Context → Bytes → Context
learn_style c text = if c.json_number_style_known then c else record c {
  json_number_style_known = true;
  json_number_uses_float_syntax = float_syntax text;
}

-- the exact spelling in the enum's map, where it is tried
abbrev exact_spelling : Context → AttributeDefinition → Bytes → Option EnumDefinition
exact_spelling c attr text =
    if not c.json_number_uses_float_syntax && numeric_enum_keys_canonical attr.numeric_enums
    then lookup text (enum_entries attr.enum)
    else none

abbrev or_by_value : Option EnumDefinition → EnumLookup → EnumLookup
or_by_value (some d) l = found d
or_by_value none l = l

module _ (lib : NumberLibrary) where
  unfoldable pub lookup_numeric_enum_definition :
      Context → AttributeDefinition → Value → Context × EnumLookup
  lookup_numeric_enum_definition c attr (number text) =
      let c' = learn_style c text in
      (c', or_by_value (exact_spelling c' attr text) (in_index attr (as_integer lib (number text))))
  lookup_numeric_enum_definition c attr value = (c, in_index attr (as_integer lib value))

  unfoldable pub lookup_enum_definition :
      Context → AttributeDefinition → Value → Context × EnumLookup
  unfolding lookup_numeric_enum_definition
  lookup_enum_definition c attr value =
      if same attr.primitive_type (codes "string_t")
      then (c, in_enum attr (as_string value))
      else if same attr.primitive_type (codes "integer_t")
          || same attr.primitive_type (codes "long_t")
      then lookup_numeric_enum_definition c attr value
      else (c, in_enum attr (format_scalar lib value))
