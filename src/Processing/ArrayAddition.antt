-- ===== src/Processing/ArrayAddition.antt =====
-- The addition of enum siblings to enum arrays (internal/processing/enrichment.go).
pub mod RoundTrip
use ocsf_toolkit.Common.{
  ℕ, ◌+◌, List, [], ◌∷◌, map, Bool, true, false, not, ◌&&◌, ◌||◌, Option, none, some, Bytes,
  bytes_eq, codes, same, insert, if◌then◌else◌,
}
use ocsf_toolkit.Common.Int.{ℤ, pos, int_eq}
use ocsf_toolkit.EventValue.{
  Value, Map, text, array, slice, other_element, items_of, array_view, reads_elements,
}
use ocsf_toolkit.EventValue.Scalar.{NumberLibrary, is_99, as_integer_at}
use ocsf_toolkit.EventValue.Object.{get_attribute}
use ocsf_toolkit.Schema.{AttributeDefinition}
use ocsf_toolkit.Processing.Context.{Context, IssueSuppression}
use ocsf_toolkit.Processing.EnumLookup.{EnumLookup, lookup_enum_definition}
use ocsf_toolkit.Processing.EnumAddition.{caption_of, report_not_added, report_other}

-- a Go `[]string`
abbrev pub string_slice : List Bytes → Value
string_slice captions = array slice (other_element 0) (items_of (map text captions))

-- what the loop leaves: `captions` and `reportOtherAddition`, or none where it reported and returned
abbrev pub Collected : Type 0
Collected = Option (List Bytes × Bool)

abbrev pub add_caption : Bytes → Bool → Context × Collected → Context × Collected
add_caption caption other (c, none) = (c, none)
add_caption caption other (c, some (captions, others)) =
    (c, some (caption ∷ captions, other || others))

abbrev pub if_caption : Option Bytes → Context → (Bytes → Context × Collected) → Context × Collected
if_caption none c continue = (c, none)
if_caption (some caption) c continue = continue caption

-- `derived` is `TypeDerivedFrom(attrDef.Type, "string_t")`.
module _ (lib : NumberLibrary) (attr : AttributeDefinition) (derived : Bool) where
  abbrev pub enum_array_is_other : Bool → Value → Bool
  enum_array_is_other direct value =
      if derived then false else is_99 (as_integer_at lib direct value)

  -- the loop over the enum array; `direct` tells whether the typed accessors read its elements
  unfoldable pub array_captions : Context → Bool → List Value → Context × Collected
  array_captions c direct [] = (c, some ([], false))
  array_captions c direct (value ∷ values) =
      let (c', result) = lookup_enum_definition lib c attr value in
      let rest = array_captions c' direct values in
      if_caption (caption_of result) c'
        (λ caption. add_caption caption (enum_array_is_other direct value) rest)

  abbrev write_captions :
      Map → Bytes → Bytes → IssueSuppression → Context × Collected → Context × Map
  write_captions item name sibling suppression (c, none) =
      (report_not_added c suppression name sibling false none, item)
  write_captions item name sibling suppression (c, some (captions, other)) = (
    report_other other suppression name sibling
        (record c { enum_siblings_added = c.enum_siblings_added + 1 }),
    insert sibling (string_slice captions) item,
  )

  abbrev to_values :
      Context → Map → Bytes → Bytes → IssueSuppression → Bool → Option (List Value) → Context × Map
  to_values c item name sibling suppression direct none = (c, item)
  to_values c item name sibling suppression direct (some values) =
      write_captions item name sibling suppression (array_captions c direct values)

  abbrev where_absent :
      Context → Map → Value → Bytes → Bytes → IssueSuppression → Option Value → Context × Map
  where_absent c item value name sibling suppression (some present) = (c, item)
  where_absent c item value name sibling suppression none =
      to_values c item name sibling suppression (reads_elements value) (array_view value)

  -- `addEnumArraySibling`. `enabled` is `enumSiblingsEnabled`.
  unfoldable pub add_enum_array_sibling :
      Context → Map → Value → Bytes → Bytes → Bool → IssueSuppression → Context × Map
  unfolding array_captions
  add_enum_array_sibling c item value name sibling enabled suppression =
      if not enabled
      then (c, item)
      else where_absent c item value name sibling suppression (get_attribute item sibling)
