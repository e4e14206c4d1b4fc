-- ===== src/Tests/Enums.antt =====
-- Enum lookup, and the addition and removal of enum siblings, on a small attribute.
use ocsf_toolkit.Common.{
  ◌≡◌, ◌⊎◌, inl, inr, refl, List, [], ◌∷◌, Bool, true, false, ◌&&◌, none, some, Bytes, bytes_eq,
  codes, lookup,
}
use ocsf_toolkit.Common.Int.{pos}
use ocsf_toolkit.EventValue.{
  Value, Map, text, int, number, array, slice, any_element, items_of, array_view, reads_elements,
  fixed_array,
}
use ocsf_toolkit.EventValue.Scalar.{as_integer, is_other_enum_value}
use ocsf_toolkit.EventValue.Object.{get_attribute}
use ocsf_toolkit.Schema.{AttributeDefinition, initialize_numeric_enums}
use ocsf_toolkit.Schema.NumericEnum.{EnumDefinition, build_index, numeric_enum_definition}
use ocsf_toolkit.Schema.NumericEnum.Lookup.{DistinctKeys}
use ocsf_toolkit.Schema.NumericEnum.Build.{numeric_enum_definition-build_index, ReadsBack}
use ocsf_toolkit.Processing.EnumLookup.{
  lookup_enum_definition, found, lookup_numeric_enum_definition,
}
use ocsf_toolkit.Processing.EnumLookup.Independence.{
  IsCompiled, enum_meaning, by_value, lookup_numeric-by_value,
}
use ocsf_toolkit.Processing.EnumRemoval.{integral, remove_enum_sibling_pair}
use ocsf_toolkit.Processing.EnumRemoval.Safety.{
  Settled, AnyOther, remove_enum_sibling_pair-scalar, remove_enum_sibling_pair-other,
}
use ocsf_toolkit.Processing.EnumRemoval.Accounting.{
  Removed, Retained, remove_enum_sibling_pair-counted,
}
use ocsf_toolkit.Processing.EnumAddition.{add_enum_sibling}
use ocsf_toolkit.Processing.EnumAddition.RoundTrip.{remove-add_enum_sibling}
use ocsf_toolkit.Processing.ArrayAddition.{string_slice, add_enum_array_sibling}
use ocsf_toolkit.Processing.ArrayAddition.RoundTrip.{
  AllCaptioned, captions, remove-add_enum_array_sibling,
}
use ocsf_toolkit.Tests.Samples.{parse_int, format_int, library, context, nothing_suppressed}

abbrev low : EnumDefinition
low = record { caption = codes "Low" }

abbrev high : EnumDefinition
high = record { caption = codes "High" }

abbrev other : EnumDefinition
other = record { caption = codes "Other" }

abbrev severity : List (Bytes × EnumDefinition)
severity = (codes "2", high) ∷ (codes "99", other) ∷ (codes "1", low) ∷ []

severity-DistinctKeys : DistinctKeys severity
severity-DistinctKeys = (refl, (refl, (refl, tt)))

reads_back : ReadsBack parse_int format_int (pos 2)
unfolding parse_int format_int
reads_back = refl

numeric_enum_definition-build_index_example :
    numeric_enum_definition (some (build_index parse_int format_int severity)) (pos 2)
    ≡ lookup (format_int (pos 2)) severity
numeric_enum_definition-build_index_example =
    numeric_enum_definition-build_index parse_int format_int severity (pos 2) severity-DistinctKeys
      reads_back

severity_canonical : (build_index parse_int format_int severity).keys_canonical ≡ true
unfolding build_index parse_int format_int
severity_canonical = refl

abbrev attribute : Bool → AttributeDefinition
attribute is_array = record {
  type_name = codes "integer_t";
  primitive_type = codes "integer_t";
  is_array = is_array;
  enum = some severity;
  sibling = some (codes "severity");
  object_type = none;
  profiles = [];
  observable = none;
  numeric_enums = some (build_index library.number_int64 library.format_int severity);
}

attribute-IsCompiled : (is_array : Bool) → IsCompiled library (attribute is_array)
unfolding initialize_numeric_enums
attribute-IsCompiled is_array = record { distinct = severity-DistinctKeys; initialized = refl }

lookup_numeric-by_value_example :
    (lookup_numeric_enum_definition library context (attribute false) (number (codes "2"))).1
    ≡ by_value library (attribute false) (number (codes "2"))
lookup_numeric-by_value_example =
    lookup_numeric-by_value library (attribute false) context (number (codes "2"))
      (attribute-IsCompiled false)

abbrev item : Map
item = (codes "severity_id", number (codes "2")) ∷ []

abbrev item_with_sibling : Map
item_with_sibling = (codes "severity", text (codes "High")) ∷ item

present : get_attribute item (codes "severity_id") ≡ some (number (codes "2"))
unfolding get_attribute
present = refl

still_present : get_attribute item_with_sibling (codes "severity_id") ≡ some (number (codes "2"))
unfolding get_attribute
still_present = refl

meaning : enum_meaning library (attribute false) (number (codes "2")) ≡ found high
unfolding enum_meaning as_integer library numeric_enum_definition build_index
meaning = refl

specific : integral (attribute false) && is_other_enum_value library (number (codes "2")) ≡ false
unfolding is_other_enum_value library
specific = refl

remove-add_enum_sibling_example :
    let added =
      (add_enum_sibling library context item
        (number (codes "2"))
        (codes "severity_id")
        (attribute false)
        true
        true
        false
        nothing_suppressed).1 in
    let removed =
      (remove_enum_sibling_pair library context added
        (codes "severity_id")
        (attribute false)
        (codes "severity")
        true
        false
        nothing_suppressed).1 in
    (lookup (codes "severity") added ≡ some (text high.caption))
    × ((key : Bytes) → lookup key removed ≡ lookup key item)
remove-add_enum_sibling_example =
    remove-add_enum_sibling library (attribute false) context context item (number (codes "2"))
      (codes "severity_id") (codes "severity") high nothing_suppressed nothing_suppressed
      (attribute-IsCompiled false) refl refl (λ e. cc) present refl meaning (λ e. cc) specific

remove_enum_sibling_pair-scalar_example :
    Settled library
      (attribute false)
      context
      item_with_sibling
      (codes "severity_id")
      (codes "severity")
      (codes "High")
      (number (codes "2"))
      nothing_suppressed
remove_enum_sibling_pair-scalar_example =
    remove_enum_sibling_pair-scalar library (attribute false) context item_with_sibling
      (codes "severity_id") (codes "severity") (codes "High") (number (codes "2"))
      nothing_suppressed (attribute-IsCompiled false) refl refl still_present

remove_enum_sibling_pair-counted_example :
    let result =
      remove_enum_sibling_pair library context item_with_sibling
        (codes "severity_id")
        (attribute false)
        (codes "severity")
        true
        false
        nothing_suppressed in
    Removed library (attribute false) context item_with_sibling (codes "severity") result
    ⊎ Retained library (attribute false) context item_with_sibling result
remove_enum_sibling_pair-counted_example =
    remove_enum_sibling_pair-counted library (attribute false) context item_with_sibling
      (codes "severity_id") (codes "severity") (text (codes "High")) false nothing_suppressed refl

abbrev ids : Value
ids = array slice any_element (items_of (int (pos 1) ∷ int (pos 99) ∷ []))

abbrev sibling_texts : Value
sibling_texts = array slice any_element (items_of (text (codes "Low") ∷ text (codes "Vendor") ∷ []))

abbrev item_of_arrays : Map
item_of_arrays = (codes "severity_id", ids) ∷ (codes "severity", sibling_texts) ∷ []

ids_present : get_attribute item_of_arrays (codes "severity_id") ≡ some ids
unfolding get_attribute
ids_present = refl

ids_viewed : array_view ids ≡ some (int (pos 1) ∷ int (pos 99) ∷ [])
unfolding array_view
ids_viewed = refl

ids_read : reads_elements ids ≡ true
unfolding reads_elements
ids_read = refl

holds_99 : AnyOther library (attribute true) (int (pos 1) ∷ int (pos 99) ∷ [])
unfolding as_integer
holds_99 = inr (inl refl)

remove_enum_sibling_pair-other_example :
    (remove_enum_sibling_pair library context item_of_arrays
      (codes "severity_id")
      (attribute true)
      (codes "severity")
      true
      true
      nothing_suppressed).1
    ≡ item_of_arrays
remove_enum_sibling_pair-other_example =
    remove_enum_sibling_pair-other library (attribute true) context item_of_arrays
      (codes "severity_id") (codes "severity") ids sibling_texts (int (pos 1) ∷ int (pos 99) ∷ [])
      true nothing_suppressed refl refl (λ e. cc) ids_present ids_viewed ids_read holds_99

-- In Go's `[2]any` the elements have the type of the interface, so that forced removal does not find
-- the source-specific value 99.
abbrev item_of_fixed_array : Map
item_of_fixed_array =
    (
      codes "severity_id",
      array fixed_array any_element (items_of (int (pos 1) ∷ int (pos 99) ∷ [])),
    )
    ∷ (codes "severity", sibling_texts)
    ∷ []

fixed_array_of_99_loses_its_sibling :
    (remove_enum_sibling_pair library context item_of_fixed_array
      (codes "severity_id")
      (attribute true)
      (codes "severity")
      true
      true
      nothing_suppressed).1
    ≡ (
      codes "severity_id",
      array fixed_array any_element (items_of (int (pos 1) ∷ int (pos 99) ∷ [])),
    )
      ∷ []
unfolding remove_enum_sibling_pair array_view get_attribute lookup_enum_definition as_integer
    numeric_enum_definition build_index library reads_elements
fixed_array_of_99_loses_its_sibling = refl

abbrev levels : List Value
levels = int (pos 1) ∷ int (pos 2) ∷ []

abbrev level_ids : Value
level_ids = array slice any_element (items_of levels)

abbrev item_of_levels : Map
item_of_levels = (codes "severity_id", level_ids) ∷ []

levels_present : get_attribute item_of_levels (codes "severity_id") ≡ some level_ids
unfolding get_attribute
levels_present = refl

levels_viewed : array_view level_ids ≡ some levels
unfolding array_view
levels_viewed = refl

levels-AllCaptioned : AllCaptioned library (attribute true) levels
unfolding enum_meaning as_integer library numeric_enum_definition build_index
levels-AllCaptioned = (
  record { definition = low; defined = refl; nonempty = λ e. cc; specific = refl },
  (record { definition = high; defined = refl; nonempty = λ e. cc; specific = refl }, tt),
)

remove-add_enum_array_sibling_example :
    let added =
      (add_enum_array_sibling library
        (attribute true)
        false
        context
        item_of_levels
        level_ids
        (codes "severity_id")
        (codes "severity")
        true
        nothing_suppressed).1 in
    let removed =
      (remove_enum_sibling_pair library context added
        (codes "severity_id")
        (attribute true)
        (codes "severity")
        true
        false
        nothing_suppressed).1 in
    (lookup (codes "severity") added
      ≡ some (string_slice (captions library (attribute true) levels levels-AllCaptioned)))
    × ((key : Bytes) → lookup key removed ≡ lookup key item_of_levels)
remove-add_enum_array_sibling_example =
    remove-add_enum_array_sibling library (attribute true) false context context item_of_levels
      level_ids levels (codes "severity_id") (codes "severity") nothing_suppressed
      nothing_suppressed levels-AllCaptioned (attribute-IsCompiled true) refl (λ e. cc)
      levels_present levels_viewed refl
