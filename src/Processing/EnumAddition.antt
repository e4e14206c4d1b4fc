-- ===== src/Processing/EnumAddition.antt =====
-- The addition of enum siblings (internal/processing/enrichment.go).
pub mod RoundTrip
use ocsf_toolkit.Common.{
  ℕ, ◌+◌, List, [], ◌∷◌, ◌++◌, Bool, true, false, not, ◌&&◌, ◌||◌, Option, none, some, Bytes,
  bytes_eq, codes, same, lookup, insert, is_some, if◌then◌else◌,
}
use ocsf_toolkit.EventValue.{Value, Map, text}
use ocsf_toolkit.EventValue.Scalar.{NumberLibrary, is_other_enum_value}
use ocsf_toolkit.EventValue.Object.{get_attribute}
use ocsf_toolkit.PathStyle.{array_indexed}
use ocsf_toolkit.EventPath.{to_string, sibling_string}
use ocsf_toolkit.IssueCode.{
  source_enrichment, enrichment_enum_sibling_not_added, enrichment_enum_sibling_other_added,
}
use ocsf_toolkit.Schema.{AttributeDefinition, attribute_active}
use ocsf_toolkit.Schema.NumericEnum.{EnumDefinition}
use ocsf_toolkit.Processing.Context.{Context, IssueSuppression, report}
use ocsf_toolkit.Processing.EnumLookup.{
  EnumLookup, found, value_unusable, definition_missing, lookup_enum_definition,
}

-- `enumDetail`, where it has a caption
abbrev pub caption_of : EnumLookup → Option Bytes
caption_of (found d) = if same d.caption [] then none else some d.caption
caption_of _ = none

abbrev write_sibling : Context → Map → Bytes → Option Value → Option Bytes → Context × Map
write_sibling c item sibling (some present) caption = (c, item)
write_sibling c item sibling none none = (c, item)
write_sibling c item sibling none (some caption) = (
  record c { enum_siblings_added = c.enum_siblings_added + 1 },
  insert sibling (text caption) item,
)

abbrev at_sibling : Context → Map → Option Bytes → Option Bytes → Context × Map
at_sibling c item caption none = (c, item)
at_sibling c item caption (some sibling) =
    write_sibling c item sibling (get_attribute item sibling) caption

-- `processContext.addEnumSibling`
unfoldable pub context_add_enum_sibling :
    Context → Map → EnumLookup → AttributeDefinition → Context × Map
context_add_enum_sibling c item lookup attr = at_sibling c item (caption_of lookup) attr.sibling

-- the report that no sibling was added
abbrev pub report_not_added :
    Context → IssueSuppression → Bytes → Bytes → Bool → Option Bytes → Context
report_not_added c suppression name sibling true caption = c
report_not_added c suppression name sibling false (some caption) = c
report_not_added c suppression name sibling false none =
    report c suppression source_enrichment enrichment_enum_sibling_not_added (
      (codes "attribute_path", to_string c.path array_indexed)
      ∷ (codes "attribute", name)
      ∷ (codes "sibling", sibling)
      ∷ [])

-- the report that a caption was added for the enum identifier 99
abbrev pub report_other : Bool → IssueSuppression → Bytes → Bytes → Context → Context
report_other false suppression name sibling c = c
report_other true suppression name sibling c =
    report c suppression source_enrichment enrichment_enum_sibling_other_added (
      (codes "attribute_path", sibling_string c.path sibling array_indexed)
      ∷ (codes "attribute", sibling)
      ∷ (codes "enum_attribute_path", to_string c.path array_indexed)
      ∷ (codes "enum_attribute", name)
      ∷ [])

module _ (lib : NumberLibrary) where
  abbrev add_named :
      Context
      → Map
      → Value
      → Bytes
      → AttributeDefinition
      → IssueSuppression
      → EnumLookup
      → Option Bytes
      → Context × Map
  add_named c item value name attr suppression result none =
      context_add_enum_sibling c item result attr
  add_named c item value name attr suppression result (some sibling) =
      let absent = not (is_some (get_attribute item sibling)) in
      let other = absent && is_other_enum_value lib value && is_some (caption_of result) in
      let reported = report_not_added c suppression name sibling (not absent) (caption_of result) in
      let (c', item') = context_add_enum_sibling reported item result attr in
      (report_other other suppression name sibling c', item')

  -- `enrichmentProcessor.addEnumSibling`. `enabled` is `enumSiblingsEnabled`, `sibling_active` says
  -- that the resolved sibling is active, and `array_element` that the value is one of an array.
  unfoldable pub add_enum_sibling :
      Context
      → Map
      → Value
      → Bytes
      → AttributeDefinition
      → Bool
      → Bool
      → Bool
      → IssueSuppression
      → Context × Map
  unfolding context_add_enum_sibling
  add_enum_sibling c item value name attr enabled sibling_active array_element suppression =
      if not enabled || array_element || not sibling_active
      then (c, item)
      else (let (c', result) = lookup_enum_definition lib c attr value in
          add_named c' item value name attr suppression result attr.sibling)
