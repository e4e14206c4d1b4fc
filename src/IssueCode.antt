-- ===== src/IssueCode.antt =====
-- issue/code.go and issue/source.go: the codes and sources of tolerable processing issues. A code is
-- its position in the constant block, and indexes the table.
use ocsf_toolkit.Common.{ℕ, List, [], ◌∷◌, Bool, true, false, Option, Bytes, codes}
use Prim.Native.String.{String}
use ocsf_toolkit.CodeRegistry
use ocsf_toolkit.CodeRegistry.{Info, Registry}

abbrev entry : String → String → Bool → Info
entry name description mandatory = record {
  name = codes name;
  description = codes description;
  mandatory = mandatory;
}

abbrev pub event_traversal_limited : ℕ
event_traversal_limited = 1

abbrev pub enrichment_observable_not_added_wrong_type : ℕ
enrichment_observable_not_added_wrong_type = 2

abbrev pub enrichment_observable_not_added_json_type : ℕ
enrichment_observable_not_added_json_type = 3

abbrev pub enrichment_enum_sibling_not_added : ℕ
enrichment_enum_sibling_not_added = 4

abbrev pub enrichment_enum_sibling_other_added : ℕ
enrichment_enum_sibling_other_added = 5

abbrev pub enrichment_observables_not_added_wrong_type : ℕ
enrichment_observables_not_added_wrong_type = 6

abbrev pub enrichment_observable_duplicate_skipped : ℕ
enrichment_observable_duplicate_skipped = 7

abbrev pub enrichment_removal_enum_sibling_not_removed : ℕ
enrichment_removal_enum_sibling_not_removed = 8

abbrev pub observable_array_wrong_type : ℕ
observable_array_wrong_type = 9

abbrev pub observable_element_wrong_type : ℕ
observable_element_wrong_type = 10

abbrev pub observable_name_missing : ℕ
observable_name_missing = 11

abbrev pub observable_name_wrong_type : ℕ
observable_name_wrong_type = 12

abbrev pub observable_name_invalid_syntax : ℕ
observable_name_invalid_syntax = 13

abbrev pub observable_name_invalid_reference : ℕ
observable_name_invalid_reference = 14

abbrev pub observable_path_not_found : ℕ
observable_path_not_found = 15

abbrev pub observable_path_not_object : ℕ
observable_path_not_object = 16

abbrev pub observable_value_wrong_type : ℕ
observable_value_wrong_type = 17

abbrev pub observable_value_not_found : ℕ
observable_value_not_found = 18

abbrev pub class_uid_missing : ℕ
class_uid_missing = 19

abbrev pub class_uid_wrong_type : ℕ
class_uid_wrong_type = 20

abbrev pub class_uid_unknown : ℕ
class_uid_unknown = 21

-- `issueCodeInfos`
unfoldable pub issue_code_infos : Registry
issue_code_infos =
    entry "" "" false
    ∷ entry "issue_event_traversal_limited"
        "Schema-guided processing stopped at a recursive-object boundary." true
    ∷ entry "issue_enrichment_observable_not_added_wrong_type"
        "The observable source value has an unsupported type." false
    ∷ entry "issue_enrichment_observable_not_added_json_type"
        "The observable source value has the ambiguous json_t type." false
    ∷ entry "issue_enrichment_enum_sibling_not_added"
        "The enum value has no usable schema caption for its sibling." false
    ∷ entry "issue_enrichment_enum_sibling_other_added"
        "A sibling was synthesized using the enum ID 99 caption." false
    ∷ entry "issue_enrichment_observables_not_added_wrong_type"
        "The top-level observables attribute has an invalid value." false
    ∷ entry "issue_enrichment_observable_duplicate_skipped"
        "The generated observable duplicates one already present." false
    ∷ entry "issue_enrichment_removal_enum_sibling_not_removed"
        "The enum sibling was retained because safe removal failed." false
    ∷ entry "issue_observable_array_wrong_type" "The observables attribute is not an array." false
    ∷ entry "issue_observable_element_wrong_type" "An observables array element is not an object."
        false
    ∷ entry "issue_observable_name_missing" "An observable is missing its name." false
    ∷ entry "issue_observable_name_wrong_type" "An observable's name is not a string." false
    ∷ entry "issue_observable_name_invalid_syntax" "An observable's name has invalid path syntax."
        false
    ∷ entry "issue_observable_name_invalid_reference"
        "The observable name is not defined by the event's class." false
    ∷ entry "issue_observable_path_not_found"
        "The observable's named path was not found in the event." false
    ∷ entry "issue_observable_path_not_object"
        "A valueless observable does not resolve to an object." false
    ∷ entry "issue_observable_value_wrong_type"
        "The observable's value is neither a string nor null." false
    ∷ entry "issue_observable_value_not_found"
        "The observable's value was not found at its named path." false
    ∷ entry "issue_class_uid_missing" "The class_uid is missing." true
    ∷ entry "issue_class_uid_wrong_type" "The class_uid has the wrong type." true
    ∷ entry "issue_class_uid_unknown" "The class_uid is not defined in the schema." true
    ∷ entry "issue_at_init_schema_enum_sibling_source_not_integral"
        "An enum with a sibling does not have the direct type integer_t or long_t." false
    ∷ entry "issue_at_init_schema_enum_sibling_target_not_found"
        "An enum sibling target is absent from its class or object." false
    ∷ entry "issue_at_init_schema_enum_sibling_target_is_enum"
        "An enum sibling target is itself an enum." false
    ∷ entry "issue_at_init_schema_enum_sibling_target_not_string"
        "The enum sibling target is not a direct, same-shaped string_t." false
    ∷ []

-- `sourceInfos`
unfoldable pub source_infos : Registry
source_infos =
    entry "" "" false
    ∷ entry "processing" "" false
    ∷ entry "enrichment" "" false
    ∷ entry "enrichment_removal" "" false
    ∷ entry "validation" "" false
    ∷ []

abbrev pub source_processing : ℕ
source_processing = 1

abbrev pub source_enrichment : ℕ
source_enrichment = 2

abbrev pub source_enrichment_removal : ℕ
source_enrichment_removal = 3

-- `IssueCode.Suppressible`, `IssueCode.String` and `ParseCode`
unfoldable pub suppressible : ℕ → Bool
unfolding CodeRegistry.suppressible issue_code_infos
suppressible code = CodeRegistry.suppressible issue_code_infos code

unfoldable pub to_string : ℕ → Bytes
to_string code = CodeRegistry.to_string issue_code_infos code

unfoldable pub parse_code : Bytes → Option ℕ
parse_code value = CodeRegistry.parse issue_code_infos value

unfoldable pub valid : ℕ → Bool
valid code = CodeRegistry.valid issue_code_infos code

unfoldable pub codes_in_order : List ℕ
codes_in_order = CodeRegistry.codes_of issue_code_infos

unfoldable pub description : ℕ → Bytes
description code = CodeRegistry.description issue_code_infos code

unfoldable pub marshal_text : ℕ → Option Bytes
marshal_text code = CodeRegistry.marshal_text issue_code_infos code

unfoldable pub unmarshal_text : Bytes → Option ℕ
unmarshal_text text = CodeRegistry.unmarshal_text issue_code_infos text

-- `Source.Valid`, `Source.String` and `ParseSource`
unfoldable pub source_valid : ℕ → Bool
source_valid source = CodeRegistry.valid source_infos source

unfoldable pub source_to_string : ℕ → Bytes
source_to_string source = CodeRegistry.to_string source_infos source

unfoldable pub parse_source : Bytes → Option ℕ
parse_source value = CodeRegistry.parse source_infos value
