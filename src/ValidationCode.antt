-- ===== src/ValidationCode.antt =====
-- validation/code.go and validation/level.go: the codes and levels of validation findings.
use ocsf_toolkit.Common.{
  ℕ, List, [], ◌∷◌, map, Bool, true, false, not, Option, none, some, Bytes, codes, get_elem?, set,
  if◌then◌else◌,
}
use Prim.Native.String.{String}
use ocsf_toolkit.CodeRegistry
use ocsf_toolkit.CodeRegistry.{Info, Registry}

-- `Level`: 0 is the invalid level.
abbrev pub level_warning : ℕ
level_warning = 1

abbrev pub level_error : ℕ
level_error = 2

abbrev named : String → Info
named name = record { name = codes name; description = []; mandatory = false }

-- `levelInfos`
unfoldable pub level_infos : Registry
level_infos = named "" ∷ named "warning" ∷ named "error" ∷ []

pub record CodeInfo : Type 0 where
  pub name : Bytes
  pub description : Bytes
  pub default_level : ℕ

abbrev entry : String → String → ℕ → CodeInfo
entry name description level = record {
  name = codes name;
  description = codes description;
  default_level = level;
}

abbrev pub class_uid_unknown : ℕ
class_uid_unknown = 1

abbrev pub class_uid_missing : ℕ
class_uid_missing = 49

abbrev pub class_uid_wrong_type : ℕ
class_uid_wrong_type = 50

-- `codeInfos`
unfoldable pub code_infos : List CodeInfo
code_infos =
    entry "" "" 0
    ∷ entry "validation_class_uid_unknown" "The class_uid is not defined in the schema." level_error
    ∷ entry "validation_profile_unknown" "A metadata profile is not defined by the schema."
        level_error
    ∷ entry "validation_attribute_enum_value_unknown"
        "A scalar enum value is not defined by the schema." level_error
    ∷ entry "validation_attribute_enum_array_value_unknown"
        "An enum-array value is not defined by the schema." level_error
    ∷ entry "validation_attribute_enum_sibling_without_enum"
        "An enum sibling is present without its integral enum attribute." level_error
    ∷ entry "validation_schema_bug_object_missing"
        "An object type referenced by the schema is missing." level_error
    ∷ entry "validation_attribute_enum_array_sibling_missing"
        "An enum-array element has no corresponding sibling element." level_error
    ∷ entry "validation_attribute_enum_array_sibling_incorrect"
        "An enum-array sibling element does not match its enum value." level_error
    ∷ entry "validation_attribute_enum_array_sibling_length_mismatch"
        "An enum array and its sibling array have different lengths." level_error
    ∷ entry "validation_schema_bug_type_missing"
        "An attribute type referenced by the schema is missing." level_error
    ∷ entry "validation_schema_bug_primitive_type_unknown"
        "A primitive schema type is not supported." level_error
    ∷ entry "validation_attribute_value_not_in_super_type_values"
        "A value is not in its supertype's allowed values." level_error
    ∷ entry "validation_attribute_value_not_in_type_values"
        "A value is not in its type's allowed values." level_error
    ∷ entry "validation_attribute_value_exceeds_super_type_range"
        "A value is outside its supertype's permitted range." level_error
    ∷ entry "validation_attribute_value_exceeds_range"
        "A value is outside its type's permitted range." level_error
    ∷ entry "validation_attribute_value_exceeds_super_type_max_len"
        "A value is longer than its supertype permits." level_error
    ∷ entry "validation_attribute_value_exceeds_max_len" "A value is longer than its type permits."
        level_error
    ∷ entry "validation_schema_bug_type_regex_invalid"
        "A regular expression defined by the schema is invalid." level_error
    ∷ entry "validation_attribute_unknown" "An attribute is not defined by the active schema."
        level_error
    ∷ entry "validation_attribute_requires_profile"
        "An attribute is defined by the schema but requires a profile that is not active for the event."
        level_error
    ∷ entry "validation_version_invalid_format"
        "The event metadata version is not valid semantic versioning." level_error
    ∷ entry "validation_version_incompatible_initial_development"
        "The event and schema use incompatible initial-development versions." level_error
    ∷ entry "validation_version_incompatible_prerelease"
        "The event and schema use incompatible prerelease versions." level_error
    ∷ entry "validation_version_incompatible_later"
        "The event version is later than the loaded schema version." level_error
    ∷ entry "validation_type_uid_expected_value_overflow"
        "The type_uid derived from class_uid and activity_id exceeds the signed 64-bit range."
        level_error
    ∷ entry "validation_type_uid_incorrect"
        "The type_uid is inconsistent with class_uid and activity_id." level_error
    ∷ entry "validation_constraint_failed" "A schema constraint is not satisfied." level_error
    ∷ entry "validation_constraint_unknown" "A schema constraint is not supported." level_error
    ∷ entry "validation_observable_name_invalid_syntax"
        "An observable name has invalid path syntax." level_error
    ∷ entry "validation_observable_name_invalid_reference"
        "An observable name is not defined by the event class." level_error
    ∷ entry "validation_observable_path_not_found" "An observable path is absent from the event."
        level_error
    ∷ entry "validation_observable_path_not_object"
        "A valueless observable path does not resolve to an object." level_error
    ∷ entry "validation_observable_value_not_found"
        "An observable value is absent from its named event path." level_error
    ∷ entry "validation_attribute_required_missing" "A required attribute is missing." level_error
    ∷ entry "validation_attribute_wrong_type"
        "An attribute value is incompatible with its schema type." level_error
    ∷ entry "validation_class_deprecated" "The event class is deprecated." level_warning
    ∷ entry "validation_attribute_deprecated" "An attribute is deprecated." level_warning
    ∷ entry "validation_attribute_type_deprecated"
        "A non-deprecated attribute uses a deprecated dictionary type." level_warning
    ∷ entry "validation_object_deprecated" "An object type is deprecated." level_warning
    ∷ entry "validation_attribute_recommended_missing" "A recommended attribute is missing."
        level_warning
    ∷ entry "validation_attribute_enum_sibling_suspicious_other"
        "An enum ID 99 sibling is suspicious." level_warning
    ∷ entry "validation_attribute_enum_sibling_incorrect"
        "A scalar enum sibling does not match its enum value." level_warning
    ∷ entry "validation_attribute_enum_value_deprecated" "A scalar enum value is deprecated."
        level_warning
    ∷ entry "validation_attribute_enum_array_value_deprecated" "An enum-array value is deprecated."
        level_warning
    ∷ entry "validation_attribute_value_super_type_regex_not_matched"
        "A value does not match its supertype's regular expression." level_warning
    ∷ entry "validation_attribute_value_regex_not_matched"
        "A value does not match its type's regular expression." level_warning
    ∷ entry "validation_version_earlier"
        "The event version is earlier than the compatible loaded schema version." level_warning
    ∷ entry "validation_observable_name_path_notation_unexpected"
        "An observable name does not use the configured path notation." level_warning
    ∷ entry "validation_class_uid_missing" "The class_uid is missing." level_error
    ∷ entry "validation_class_uid_wrong_type" "The class_uid has the wrong type." level_error
    ∷ []

abbrev to_info : CodeInfo → Info
to_info i = record { name = i.name; description = i.description; mandatory = false }

abbrev mark : ℕ → Option Info → Registry → Registry
mark code none infos = infos
mark code (some info) infos = set infos code (record info { mandatory = true })

-- `infos[code].Mandatory = true`
abbrev mandatory : ℕ → Registry → Registry
mandatory code infos = mark code (get_elem? infos code) infos

-- `codeRegistryInfos`
unfoldable pub code_registry_infos : Registry
unfolding code_infos
code_registry_infos =
    mandatory class_uid_unknown
      (mandatory class_uid_wrong_type (mandatory class_uid_missing (map to_info code_infos)))

unfoldable pub valid : ℕ → Bool
valid code = CodeRegistry.valid code_registry_infos code

abbrev level_of : Option CodeInfo → ℕ
level_of none = 0
level_of (some info) = info.default_level

unfoldable pub default_level : ℕ → ℕ
unfolding valid
default_level code = if not (valid code) then 0 else level_of (get_elem? code_infos code)

unfoldable pub suppressible : ℕ → Bool
suppressible code = CodeRegistry.suppressible code_registry_infos code

unfoldable pub to_string : ℕ → Bytes
to_string code = CodeRegistry.to_string code_registry_infos code

unfoldable pub parse_code : Bytes → Option ℕ
parse_code value = CodeRegistry.parse code_registry_infos value

unfoldable pub codes_in_order : List ℕ
codes_in_order = CodeRegistry.codes_of code_registry_infos

unfoldable pub description : ℕ → Bytes
description code = CodeRegistry.description code_registry_infos code

unfoldable pub marshal_text : ℕ → Option Bytes
marshal_text code = CodeRegistry.marshal_text code_registry_infos code

unfoldable pub unmarshal_text : Bytes → Option ℕ
unmarshal_text text = CodeRegistry.unmarshal_text code_registry_infos text

-- `Level.Valid`, `Level.String` and `ParseLevel`
unfoldable pub level_valid : ℕ → Bool
level_valid level = CodeRegistry.valid level_infos level

unfoldable pub level_to_string : ℕ → Bytes
level_to_string level = CodeRegistry.to_string level_infos level

unfoldable pub parse_level : Bytes → Option ℕ
parse_level value = CodeRegistry.parse level_infos value
