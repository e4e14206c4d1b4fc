-- ===== src/Processing/Context.antt =====
-- The parts of `processContext` that the processors read and write, and issue suppression
-- (internal/processing/issue_suppression.go). The wording of an issue's message is left out.
use ocsf_toolkit.Common.{
  ℕ, ◌+◌, List, [], ◌∷◌, ◌++◌, Bool, true, false, not, Option, none, some, Bytes, nat_eq, bytes_eq,
  same, codes, contains, if◌then◌else◌,
}
use ocsf_toolkit.PathStyle.{Style}
use ocsf_toolkit.EventValue.{Map}
use ocsf_toolkit.EventPath.{EventPath}
use ocsf_toolkit.Processing.ClassObservables.{Node}
use ocsf_toolkit.IssueCode.{suppressible, source_processing, event_traversal_limited}

-- `Details` holds texts under text keys, and numbers as their decimal texts.
pub record Issue : Type 0 where
  pub source : ℕ
  pub code : ℕ
  pub details : List (Bytes × Bytes)

pub record Context : Type 0 where
  pub enum_siblings_added : ℕ
  pub enum_siblings_removed : ℕ
  pub enum_siblings_retained : ℕ
  pub observables_removed : ℕ
  pub observables_retained : ℕ
  pub issues : List Issue
  pub suppressed_issues : ℕ
  pub traversal_limit_reported : Bool
  pub class_observable_trie : Option Node
  pub observables_added : ℕ
  pub observables : List Map
  -- `observableDiagnosticPaths`, with none for nil
  pub observable_diagnostic_paths : Option (List Bytes)
  -- none where the start is negative
  pub generated_observables_start : Option ℕ
  pub generated_observables_path_notation : Style
  pub json_number_style_known : Bool
  pub json_number_uses_float_syntax : Bool
  pub path : EventPath

-- `codes` is none where Go has a nil set, which stands for every suppressible code.
pub record IssueSuppression : Type 0 where
  pub configured : Bool
  pub codes : Option (List ℕ)

unfoldable pub new_issue_suppression : Bool → List ℕ → IssueSuppression
new_issue_suppression false config = record { configured = false; codes = none }
new_issue_suppression true [] = record { configured = true; codes = none }
new_issue_suppression true (c ∷ cs) = record { configured = true; codes = some (c ∷ cs) }

abbrev member : Option (List ℕ) → ℕ → Bool
member none code = true
member (some codes) code = contains codes code

unfoldable pub suppresses : IssueSuppression → ℕ → Bool
suppresses s code =
    if not s.configured
    then false
    else if not (suppressible code)
    then false
    else member s.codes code

-- `suppressesIssue` counts what it suppresses.
unfoldable pub suppresses_issue : Context → IssueSuppression → ℕ → Context × Bool
suppresses_issue c s code =
    if not (suppresses s code)
    then (c, false)
    else (record c { suppressed_issues = c.suppressed_issues + 1 }, true)

unfoldable pub add_processor_issue : Context → ℕ → ℕ → List (Bytes × Bytes) → Context
add_processor_issue c source code details = record c {
  issues = c.issues ++ record { source = source; code = code; details = details } ∷ [];
}

-- the pattern `if !context.suppressesIssue(s, code) { context.addProcessorIssue(…) }`
unfoldable pub report : Context → IssueSuppression → ℕ → ℕ → List (Bytes × Bytes) → Context
unfolding suppresses_issue add_processor_issue
report c s source code details =
    let (c', suppressed) = suppresses_issue c s code in
    if suppressed then c' else add_processor_issue c' source code details

-- `addProcessingTraversalLimitIssue`, which reports the first of its kind only
unfoldable pub add_processing_traversal_limit_issue : Context → Bytes → Bytes → Bytes → Context
unfolding add_processor_issue
add_processing_traversal_limit_issue c attribute_path attribute object_type =
    if c.traversal_limit_reported
    then c
    else add_processor_issue (record c { traversal_limit_reported = true }) source_processing
        event_traversal_limited
        ((codes "attribute_path", attribute_path)
          ∷ (codes "attribute", attribute)
          ∷ (if same object_type [] then [] else (codes "object_type", object_type) ∷ []))
