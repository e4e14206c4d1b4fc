-- ===== src/Tests/Tables.antt =====
-- Codes of the tables, and a small registry.
use ocsf_toolkit.Common.{
  ◌≡◌, refl, ◌⊎◌, [], ◌∷◌, true, false, not, some, Bytes, bytes_eq, nat_eq, arith, codes, contains,
}
use ocsf_toolkit.CodeRegistry
use ocsf_toolkit.CodeRegistry.{Info, Registry}
use ocsf_toolkit.CodeRegistry.RoundTrip.{IsRegistry, parse-to_string}
use ocsf_toolkit.IssueCode
use ocsf_toolkit.ValidationCode
use ocsf_toolkit.CodeTables.{
  suppressible_lem, mandatory_issues, default_level_lem, mandatory_findings,
}

abbrev info : Bytes → Info
info name = record { name = name; description = []; mandatory = false }

abbrev registry : Registry
registry = info [] ∷ info (codes "first") ∷ info (codes "second") ∷ []

registry-IsRegistry : IsRegistry registry
registry-IsRegistry = record { start = omega arith; fits = omega arith; apart = refl }

valid_second : CodeRegistry.valid registry 2 ≡ true
unfolding CodeRegistry.valid
valid_second = refl

parse-to_string_example : CodeRegistry.parse registry (CodeRegistry.to_string registry 2) ≡ some 2
parse-to_string_example = parse-to_string registry 2 registry-IsRegistry valid_second

parsed_second : CodeRegistry.parse registry (codes "second") ≡ some 2
unfolding CodeRegistry.parse
parsed_second = refl

valid_issue : IssueCode.valid 19 ≡ true
unfolding IssueCode.valid CodeRegistry.valid IssueCode.issue_code_infos
valid_issue = refl

suppressible_lem_example : IssueCode.suppressible 19 ≡ not (contains mandatory_issues 19)
suppressible_lem_example = suppressible_lem 19 valid_issue

valid_finding : ValidationCode.valid 50 ≡ true
unfolding ValidationCode.valid CodeRegistry.valid ValidationCode.code_registry_infos
valid_finding = refl

default_level_lem_example :
    (ValidationCode.suppressible 50 ≡ not (contains mandatory_findings 50))
    × ((ValidationCode.default_level 50 ≡ ValidationCode.level_warning)
        ⊎ (ValidationCode.default_level 50 ≡ ValidationCode.level_error))
default_level_lem_example = default_level_lem 50 valid_finding
