-- ===== src/Processing/EnumRemoval.antt =====
-- The removal of enum siblings (internal/processing/enrichment_removal.go).
pub mod Accounting
pub mod Safety
use ocsf_toolkit.Common.{
  ℕ, ◌+◌, List, [], ◌∷◌, ◌++◌, Bool, true, false, not, ◌&&◌, ◌||◌, Option, none, some, Bytes,
  bytes_eq, codes, nat_eq, same, lookup, erase, length, if◌then◌else◌,
}
use ocsf_toolkit.Common.Int.{ℤ, pos, int_eq}
use ocsf_toolkit.EventValue.{Value, Map, null, array_view, reads_elements}
use ocsf_toolkit.EventValue.Scalar.{
  NumberLibrary, as_string, as_string_at, is_99, as_integer_at, is_other_enum_value,
}
use ocsf_toolkit.EventValue.Object.{get_attribute}
use ocsf_toolkit.PathStyle.{array_indexed}
use ocsf_toolkit.EventPath.{child_string}
use ocsf_toolkit.IssueCode.{source_enrichment_removal, enrichment_removal_enum_sibling_not_removed}
use ocsf_toolkit.Schema.{AttributeDefinition}
use ocsf_toolkit.Schema.NumericEnum.{EnumDefinition}
use ocsf_toolkit.Processing.Context.{Context, IssueSuppression, report}
use ocsf_toolkit.Processing.EnumLookup.{
  EnumLookup, found, value_unusable, definition_missing, lookup_enum_definition,
}

-- `enumSiblingRetentionReason`, without the two values that are no reasons.
pub data RetentionReason : Type 0 where
  sibling_value_wrong_type enum_value_missing enum_value_wrong_type : RetentionReason
  enum_value_unknown sibling_value_mismatch : RetentionReason

unfoldable pub reason_name : RetentionReason → Bytes
reason_name sibling_value_wrong_type = codes "sibling_value_wrong_type"
reason_name enum_value_missing = codes "enum_value_missing"
reason_name enum_value_wrong_type = codes "enum_value_wrong_type"
reason_name enum_value_unknown = codes "enum_value_unknown"
reason_name sibling_value_mismatch = codes "sibling_value_mismatch"

abbrev expected_detail : RetentionReason → Bytes → List (Bytes × Bytes)
expected_detail sibling_value_mismatch caption = (codes "expected_value", caption) ∷ []
expected_detail _ caption = []

unfoldable pub record_enum_sibling_retention :
    Context → Bytes → Bytes → RetentionReason → Bytes → IssueSuppression → Context
unfolding report reason_name
record_enum_sibling_retention c enum_name sibling_name reason expected suppression =
    report (record c { enum_siblings_retained = c.enum_siblings_retained + 1 }) suppression
      source_enrichment_removal enrichment_removal_enum_sibling_not_removed
      ((codes "attribute_path", child_string c.path sibling_name array_indexed)
        ∷ (codes "attribute", sibling_name)
        ∷ (codes "enum_attribute_path", child_string c.path enum_name array_indexed)
        ∷ (codes "enum_attribute", enum_name)
        ∷ (codes "reason", reason_name reason)
        ∷ expected_detail reason expected)

-- What the checks of a sibling end in: the sibling is deleted, is kept as source data of the enum
-- identifier 99, or is kept for a reason, with the caption that was expected.
pub data Verdict : Type 0 where
  delete : Verdict
  keep_other : Verdict
  retain : RetentionReason → Bytes → Verdict

abbrev definition_of : EnumLookup → Option EnumDefinition
definition_of (found d) = some d
definition_of _ = none

abbrev usable : EnumLookup → Bool
usable value_unusable = false
usable _ = true

abbrev pub integral : AttributeDefinition → Bool
integral attr =
    same attr.primitive_type (codes "integer_t") || same attr.primitive_type (codes "long_t")

-- the caption test of safe removal
abbrev compare_caption : Option EnumDefinition → Option Bytes → Verdict
compare_caption none sibling = retain enum_value_unknown []
compare_caption (some d) none = retain sibling_value_mismatch d.caption
compare_caption (some d) (some s) =
    if same s d.caption then delete else retain sibling_value_mismatch d.caption

-- the tests of one enum value against its sibling text, in their order
abbrev judge : Bool → EnumLookup → Bool → Option Bytes → Verdict
judge force lookup other sibling =
    if not (usable lookup)
    then retain enum_value_wrong_type []
    else if other
    then keep_other
    else if force
    then delete
    else compare_caption (definition_of lookup) sibling

abbrev head_string : Bool → List Value → Option Bytes
head_string direct [] = none
head_string direct (v ∷ vs) = as_string_at direct v

abbrev tail_of : List Value → List Value
tail_of [] = []
tail_of (v ∷ vs) = vs

abbrev if_delete : Verdict → Context × Verdict → Context × Verdict → Context × Verdict
if_delete delete continue stop = continue
if_delete _ continue stop = stop

abbrev delete_sibling : Context → Map → Bytes → Context × Map
delete_sibling c item sibling_name =
    (record c { enum_siblings_removed = c.enum_siblings_removed + 1 }, erase sibling_name item)

abbrev pub apply_verdict :
    Map → Bytes → Bytes → IssueSuppression → Context × Verdict → Context × Map
apply_verdict item enum_name sibling_name suppression (c, delete) =
    delete_sibling c item sibling_name
apply_verdict item enum_name sibling_name suppression (c, keep_other) =
    (record c { enum_siblings_retained = c.enum_siblings_retained + 1 }, item)
apply_verdict item enum_name sibling_name suppression (c, retain reason expected) =
    (record_enum_sibling_retention c enum_name sibling_name reason expected suppression, item)

module _ (lib : NumberLibrary) where
  -- `enumSiblingValueDefinition`, and the tests that follow it
  unfoldable pub scalar_verdict :
      Context → AttributeDefinition → Bool → Value → Bytes → Context × Verdict
  scalar_verdict c attr force value sibling =
      let (c', result) = lookup_enum_definition lib c attr value in
      (c', judge force result (integral attr && is_other_enum_value lib value) (some sibling))

  -- The loop of `removeEnumArraySiblingPair`: it goes on only past an element that does not keep
  -- the sibling. The sibling array is walked along with the enum array; `direct` and `texts_direct`
  -- tell for each whether the typed accessors read its elements.
  unfoldable pub array_verdict :
      Context
      → AttributeDefinition
      → Bool
      → Bool
      → Bool
      → List Value
      → List Value
      → Context × Verdict
  array_verdict c attr force direct texts_direct [] siblings = (c, delete)
  array_verdict c attr force direct texts_direct (value ∷ values) siblings =
      let (c', result) = lookup_enum_definition lib c attr value in
      let verdict =
        judge force result (integral attr && is_99 (as_integer_at lib direct value))
          (head_string texts_direct siblings) in
      let rest = array_verdict c' attr force direct texts_direct values (tail_of siblings) in
      if_delete verdict rest (c', verdict)

  abbrev scalar_enum :
      Context → AttributeDefinition → Bool → Bytes → Option Value → Context × Verdict
  scalar_enum c attr force sibling none = (c, retain enum_value_missing [])
  scalar_enum c attr force sibling (some value) = scalar_verdict c attr force value sibling

  abbrev scalar_sibling :
      Context → AttributeDefinition → Bool → Option Value → Option Bytes → Context × Verdict
  scalar_sibling c attr force enum_value none = (c, retain sibling_value_wrong_type [])
  scalar_sibling c attr force enum_value (some sibling) =
      scalar_enum c attr force sibling enum_value

  abbrev array_values :
      Context
      → AttributeDefinition
      → Bool
      → Bool
      → Bool
      → List Value
      → Option (List Value)
      → Context × Verdict
  array_values c attr force direct texts_direct siblings none = (c, retain enum_value_wrong_type [])
  array_values c attr force direct texts_direct siblings (some values) =
      if not force && not (same (length values) (length siblings))
      then (c, retain sibling_value_mismatch (codes "an equally sized caption array"))
      else array_verdict c attr force direct texts_direct values siblings

  abbrev array_enum :
      Context → AttributeDefinition → Bool → Bool → List Value → Option Value → Context × Verdict
  array_enum c attr force texts_direct siblings none = (c, retain enum_value_missing [])
  array_enum c attr force texts_direct siblings (some value) =
      array_values c attr force (reads_elements value) texts_direct siblings (array_view value)

  abbrev array_sibling :
      Context
      → AttributeDefinition
      → Bool
      → Option Value
      → Bool
      → Option (List Value)
      → Context × Verdict
  array_sibling c attr force enum_value texts_direct none = (c, retain sibling_value_wrong_type [])
  array_sibling c attr force enum_value texts_direct (some siblings) =
      array_enum c attr force texts_direct siblings enum_value

  -- the verdict on a sibling that is present and not null
  unfoldable pub verdict :
      Context → Map → Bytes → AttributeDefinition → Bool → Value → Context × Verdict
  unfolding scalar_verdict array_verdict
  verdict c item enum_name attr force sibling =
      if attr.is_array
      then array_sibling c attr force (get_attribute item enum_name) (reads_elements sibling)
          (array_view sibling)
      else scalar_sibling c attr force (get_attribute item enum_name) (as_string sibling)

  abbrev on_sibling :
      Context
      → Map
      → Bytes
      → AttributeDefinition
      → Bytes
      → Bool
      → IssueSuppression
      → Option Value
      → Context × Map
  on_sibling c item enum_name attr sibling_name force suppression none = (c, item)
  on_sibling c item enum_name attr sibling_name force suppression (some null) =
      delete_sibling c item sibling_name
  on_sibling c item enum_name attr sibling_name force suppression (some sibling) =
      apply_verdict item enum_name sibling_name suppression
        (verdict c item enum_name attr force sibling)

  -- `removeEnumSiblingPair`, with `removeEnumArraySiblingPair` for arrays
  unfoldable pub remove_enum_sibling_pair :
      Context
      → Map
      → Bytes
      → AttributeDefinition
      → Bytes
      → Bool
      → Bool
      → IssueSuppression
      → Context × Map
  unfolding verdict record_enum_sibling_retention
  remove_enum_sibling_pair c item enum_name attr sibling_name enabled force suppression =
      if not enabled
      then (c, item)
      else on_sibling c item enum_name attr sibling_name force suppression
          (lookup sibling_name item)
