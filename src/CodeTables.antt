-- ===== src/CodeTables.antt =====
-- What the registries of issue codes and of validation codes promise (issue, validation).
use ocsf_toolkit.Common.{
  ℕ, zero, suc, ◌<◌, ◌≡◌, refl, ◌⊎◌, inl, inr, List, [], ◌∷◌, Bool, true, not, ◌&&◌, some, arith,
  same, same_iff, Bool-cases, nat_eq, bool_eq, bytes_eq, length, ltb, ◌||◌, contains,
}
use ocsf_toolkit.CodeRegistry
use ocsf_toolkit.CodeRegistry.RoundTrip.{IsRegistry, parse-to_string}
use ocsf_toolkit.IssueCode
use ocsf_toolkit.IssueCode.{issue_code_infos}
use ocsf_toolkit.ValidationCode
use ocsf_toolkit.ValidationCode.{
  code_registry_infos, code_infos, default_level, level_warning, level_error,
}

pub issue_code_infos-IsRegistry : IsRegistry issue_code_infos
unfolding issue_code_infos
issue_code_infos-IsRegistry = record { start = omega arith; fits = omega arith; apart = refl }

pub code_registry_infos-IsRegistry : IsRegistry code_registry_infos
unfolding code_registry_infos
code_registry_infos-IsRegistry = record { start = omega arith; fits = omega arith; apart = refl }

-- A test of the numbers below a bound
abbrev holds_below : ℕ → (ℕ → Bool) → Bool
holds_below zero test = true
holds_below (suc n) test = test n && holds_below n test

holds_below_lem :
    (n : ℕ) (test : ℕ → Bool) (k : ℕ) → holds_below n test ≡ true → k < n → test k ≡ true
holds_below_lem zero test k h lt = absurd (omega arith)
holds_below_lem (suc n) test k h lt = ground (arith, holds_below_lem n test k)

-- An issue code is parsed back from its name.
pub parse_code-to_string :
    (code : ℕ)
    → IssueCode.valid code ≡ true
    → IssueCode.parse_code (IssueCode.to_string code) ≡ some code
unfolding IssueCode.valid IssueCode.parse_code IssueCode.to_string
parse_code-to_string code v = parse-to_string issue_code_infos code issue_code_infos-IsRegistry v

-- The issues that no configuration can suppress
abbrev pub mandatory_issues : List ℕ
mandatory_issues =
    IssueCode.event_traversal_limited ∷ IssueCode.class_uid_missing ∷ IssueCode.class_uid_wrong_type
    ∷ IssueCode.class_uid_unknown ∷ []

suppressible_table :
    holds_below
      (length issue_code_infos)
      (λ k. same (IssueCode.suppressible k) (ltb 0 k && not (contains mandatory_issues k)))
    ≡ true
unfolding IssueCode.suppressible issue_code_infos CodeRegistry.suppressible CodeRegistry.valid
suppressible_table = refl

-- A valid issue code can be suppressed unless it reports a traversal limit or an unusable class_uid.
pub suppressible_lem :
    (code : ℕ)
    → IssueCode.valid code ≡ true
    → IssueCode.suppressible code ≡ not (contains mandatory_issues code)
unfolding IssueCode.valid CodeRegistry.valid
suppressible_lem code v = ground (
  arith,
  holds_below_lem (length issue_code_infos)
      (λ k. same (IssueCode.suppressible k) (ltb 0 k && not (contains mandatory_issues k))) code
      suppressible_table,
  same_iff (IssueCode.suppressible code) (ltb 0 code && not (contains mandatory_issues code)),
)

-- The findings that no configuration can suppress
abbrev pub mandatory_findings : List ℕ
mandatory_findings =
    ValidationCode.class_uid_unknown ∷ ValidationCode.class_uid_missing
    ∷ ValidationCode.class_uid_wrong_type ∷ []

-- what a validation code of the table has
abbrev finding_test : ℕ → Bool
finding_test k =
    same k 0
    || (same (ValidationCode.suppressible k) (not (contains mandatory_findings k))
        && (same (default_level k) level_warning || same (default_level k) level_error))

finding_table : holds_below (length code_registry_infos) finding_test ≡ true
unfolding code_registry_infos ValidationCode.suppressible default_level CodeRegistry.suppressible
    CodeRegistry.valid
finding_table = refl

tested : (code : ℕ) → ValidationCode.valid code ≡ true → finding_test code ≡ true
unfolding ValidationCode.valid CodeRegistry.valid
tested code v =
    holds_below_lem (length code_registry_infos) finding_test code finding_table (ground arith)

-- A valid validation code can be suppressed unless it reports an unusable class_uid, and its default
-- level is a warning or an error.
pub default_level_lem :
    (code : ℕ)
    → ValidationCode.valid code ≡ true
    → (ValidationCode.suppressible code ≡ not (contains mandatory_findings code))
      × ((default_level code ≡ level_warning) ⊎ (default_level code ≡ level_error))
unfolding ValidationCode.valid CodeRegistry.valid
default_level_lem code v = (
  ground (
    arith,
    tested code v,
    same_iff (ValidationCode.suppressible code) (not (contains mandatory_findings code)),
    same_iff code 0,
  ),
  elim (Bool-cases (same (default_level code) level_warning)) [
    | inl e ↦ inl ((same_iff (default_level code) level_warning).0 e)
    | inr n ↦ inr (
        (same_iff (default_level code) level_error).0
          (ground (arith, tested code v, same_iff code 0, n)))
  ],
)

-- A validation code is parsed back from its name.
pub parse_finding-to_string :
    (code : ℕ)
    → ValidationCode.valid code ≡ true
    → ValidationCode.parse_code (ValidationCode.to_string code) ≡ some code
unfolding ValidationCode.valid ValidationCode.parse_code ValidationCode.to_string
parse_finding-to_string code v =
    parse-to_string code_registry_infos code code_registry_infos-IsRegistry v
