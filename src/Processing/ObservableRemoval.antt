-- ===== src/Processing/ObservableRemoval.antt =====
-- The removal of observables (internal/processing/enrichment_removal.go, with the details of
-- internal/observable/diagnostic.go; the wording of messages is left out).
pub mod Result
use ocsf_toolkit.Common.{
  ℕ, zero, suc, ◌+◌, ◌-◌, ◌⊎◌, inl, inr, List, [], ◌∷◌, ◌++◌, map, Bool, true, false, not, Option,
  none, some, Bytes, bytes_eq, codes, nat_eq, same, lookup, insert, erase, length, if◌then◌else◌,
}
use ocsf_toolkit.EventValue.{Value, Map, null, array_view}
use ocsf_toolkit.EventValue.Scalar.{NumberLibrary}
use ocsf_toolkit.PathStyle.{array_indexed}
use ocsf_toolkit.EventPath
use ocsf_toolkit.EventPath.{
  EventPath, root, push_attribute, push_array_index, to_string, child_string,
}
use ocsf_toolkit.IssueCode.{
  source_enrichment_removal, observable_array_wrong_type, observable_element_wrong_type,
  observable_name_missing, observable_name_wrong_type, observable_name_invalid_syntax,
  observable_name_invalid_reference, observable_path_not_found, observable_path_not_object,
  observable_value_wrong_type, observable_value_not_found,
}
use ocsf_toolkit.Schema.Items.{ClassDefinition, Objects}
use ocsf_toolkit.Observable.Collection.{Collection, FilterError, filter_removable, to_value}
use ocsf_toolkit.Observable.Collection.Filter.{removable_count}
use ocsf_toolkit.Observable.Analysis.{
  Entry, Problem, problem_none, array_wrong_type, element_wrong_type, name_missing, name_wrong_type,
  name_invalid_syntax, name_invalid_reference, name_traversal_limited, path_not_found,
  path_not_object, value_wrong_type, value_not_found, analyze,
}
use ocsf_toolkit.Processing.Context.{
  Context, IssueSuppression, suppresses_issue, add_processor_issue,
  add_processing_traversal_limit_issue,
}

-- `observableIssueCode`
unfoldable pub observable_issue_code : Problem → Option ℕ
observable_issue_code array_wrong_type = some observable_array_wrong_type
observable_issue_code element_wrong_type = some observable_element_wrong_type
observable_issue_code name_missing = some observable_name_missing
observable_issue_code name_wrong_type = some observable_name_wrong_type
observable_issue_code name_invalid_syntax = some observable_name_invalid_syntax
observable_issue_code name_invalid_reference = some observable_name_invalid_reference
observable_issue_code path_not_found = some observable_path_not_found
observable_issue_code path_not_object = some observable_path_not_object
observable_issue_code value_wrong_type = some observable_value_wrong_type
observable_issue_code value_not_found = some observable_value_not_found
observable_issue_code _ = none

abbrev details : Bytes → Bytes → List (Bytes × Bytes)
details attribute_path attribute =
    (codes "attribute_path", attribute_path) ∷ (codes "attribute", attribute) ∷ []

abbrev name_details : EventPath → List (Bytes × Bytes)
name_details path = details (child_string path (codes "name") array_indexed) (codes "name")

abbrev value_details : EventPath → List (Bytes × Bytes)
value_details path = details (child_string path (codes "value") array_indexed) (codes "value")

-- `EntryToDiagnostic`
unfoldable pub entry_to_diagnostic : Problem → EventPath → Option (List (Bytes × Bytes))
unfolding child_string to_string
entry_to_diagnostic array_wrong_type path =
    some (details (codes "observables") (codes "observables"))
entry_to_diagnostic element_wrong_type path =
    some (details (to_string path array_indexed) (codes "observables"))
entry_to_diagnostic name_missing path = some (name_details path)
entry_to_diagnostic name_wrong_type path = some (name_details path)
entry_to_diagnostic name_invalid_syntax path = some (name_details path)
entry_to_diagnostic name_invalid_reference path = some (name_details path)
entry_to_diagnostic path_not_found path = some (name_details path)
entry_to_diagnostic path_not_object path = some (name_details path)
entry_to_diagnostic value_wrong_type path = some (value_details path)
entry_to_diagnostic value_not_found path = some (value_details path)
entry_to_diagnostic _ path = none

abbrev add_diagnostic : Context → ℕ → Option (List (Bytes × Bytes)) → Context
add_diagnostic c code none = c
add_diagnostic c code (some found) = add_processor_issue c source_enrichment_removal code found

abbrev unless_suppressed : Context × Bool → ℕ → Option (List (Bytes × Bytes)) → Context
unless_suppressed (c, true) code diagnostic = c
unless_suppressed (c, false) code diagnostic = add_diagnostic c code diagnostic

abbrev report_code : Context → IssueSuppression → Option ℕ → Option (List (Bytes × Bytes)) → Context
report_code c suppression none diagnostic = c
report_code c suppression (some code) diagnostic =
    unless_suppressed (suppresses_issue c suppression code) code diagnostic

abbrev report_problem : Context → IssueSuppression → Problem → EventPath → Context
report_problem c suppression name_traversal_limited path =
    add_processing_traversal_limit_issue c (to_string path array_indexed) (codes "observables") []
report_problem c suppression problem path =
    report_code c suppression (observable_issue_code problem) (entry_to_diagnostic problem path)

-- the loop over the entries, whose path is popped at the end of each round
unfoldable pub report_entries : Context → IssueSuppression → List Entry → ℕ → EventPath → Context
unfolding observable_issue_code entry_to_diagnostic suppresses_issue add_processor_issue
    add_processing_traversal_limit_issue push_array_index EventPath.pop
report_entries c suppression [] i path = c
report_entries c suppression (entry ∷ rest) i path =
    let pushed = push_array_index path i in
    report_entries (report_problem c suppression entry.problem pushed) suppression rest (i + 1)
      (EventPath.pop pushed)

abbrev pub removable_flags : List Entry → List Bool
removable_flags entries = map (λ (e : Entry). e.removable) entries

abbrev counted : Context → ℕ → ℕ → Context
counted c removed total = record c {
  observables_removed = c.observables_removed + removed;
  observables_retained = c.observables_retained + (total - removed);
}

abbrev set_observables : Context → Map → FilterError ⊎ Collection → FilterError ⊎ (Context × Map)
set_observables c event (inl e) = inl e
set_observables c event (inr filtered) =
    inr (c, insert (codes "observables") (to_value filtered) event)

-- what follows the reports, by the collection if the attribute is an array
unfoldable pub remove_entries :
    Context → Map → List Entry → Option Collection → FilterError ⊎ (Context × Map)
unfolding filter_removable removable_count
remove_entries c event entries none =
    inr (record c { observables_retained = c.observables_retained + 1 }, event)
remove_entries c event entries (some observables) =
    let remove_count = removable_count (removable_flags entries) in
    let total = length observables.values in
    if same remove_count total
    then inr (counted c remove_count total, erase (codes "observables") event)
    else if same remove_count 0
    then inr (counted c remove_count total, event)
    else set_observables (counted c remove_count total) event
        (filter_removable observables (removable_flags entries) remove_count)

abbrev analyzed :
    Context
    → IssueSuppression
    → Map
    → Option (List Entry × Option Collection)
    → FilterError ⊎ (Context × Map)
analyzed c suppression event none = inr (c, event)
analyzed c suppression event (some (entries, observables)) =
    remove_entries
      (report_entries c suppression entries 0 (push_attribute root (codes "observables"))) event
      entries observables

module _ (lib : NumberLibrary) (objects : Objects) (class : Option ClassDefinition)
    (profiles : List Bytes) where
  abbrev remove_present :
      Context → Map → IssueSuppression → Option Value → FilterError ⊎ (Context × Map)
  remove_present c event suppression none = inr (c, event)
  remove_present c event suppression (some null) = inr (c, erase (codes "observables") event)
  remove_present c event suppression (some value) =
      analyzed c suppression event (analyze lib objects class profiles event)

  -- `removeObservablesSafely`; the error is that of `FilterRemovable`
  unfoldable pub remove_observables_safely :
      Context → Map → Bool → IssueSuppression → FilterError ⊎ (Context × Map)
  unfolding analyze report_entries remove_entries root push_attribute
  remove_observables_safely c event enabled suppression =
      if not enabled
      then inr (c, event)
      else remove_present c event suppression (lookup (codes "observables") event)

abbrev count_removed : Context → Option (List Value) → Context
count_removed c none = c
count_removed c (some vs) = record c { observables_removed = c.observables_removed + length vs }

abbrev force_remove : Context → Map → Option Value → Context × Map
force_remove c event none = (c, event)
force_remove c event (some value) =
    (count_removed c (array_view value), erase (codes "observables") event)

-- `forceRemoveObservablesWithoutAnalysis`
unfoldable pub force_remove_observables : Context → Map → Bool → Context × Map
unfolding array_view
force_remove_observables c event enabled =
    if not enabled then (c, event) else force_remove c event (lookup (codes "observables") event)
