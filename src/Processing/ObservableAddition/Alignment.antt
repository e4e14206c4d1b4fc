-- ===== src/Processing/ObservableAddition/Alignment.antt =====
-- The diagnostic paths stay beside the observables through the addition of an attribute's values.
use ocsf_toolkit.Common.{
  ℕ, ◌+◌, List, [], ◌∷◌, Bool, true, false, not, Option, none, some, Bytes, length, replicate,
  length-replicate, length-append, if◌then◌else◌, inl, inr, arith, Bool-cases, same, nat_eq,
  bytes_eq, ◌&&◌, is_some,
}
use ocsf_toolkit.Common.Int.{ℤ}
use ocsf_toolkit.PathStyle.{Style, array_indexed}
use ocsf_toolkit.EventValue.{Value, Map, array_view}
use ocsf_toolkit.EventValue.Scalar.{NumberLibrary, as_string, format_scalar}
use ocsf_toolkit.EventPath.{EventPath, to_string}
use ocsf_toolkit.Schema.{AttributeDefinition}
use ocsf_toolkit.Processing.Context.{
  Context, IssueSuppression, report, suppresses, suppresses_issue, add_processor_issue,
}
use ocsf_toolkit.Processing.ObservableAddition.{
  ObservableSchema, EnrichmentProcessor, add_generated_observable, add_observable, grow_paths,
  add_formatted, add_scalar, add_scalar_value_observable, add_elements, add_array_value_observables,
  observable_type_id, add_values, at_index, leave, needs_diagnostic_path, observable_of,
}
use ocsf_toolkit.Processing.ObservableAddition.Diagnostics.{IsAligned, IsAlignedTo}

grow_paths-IsAlignedTo :
    (paths : Option (List Bytes)) (n : ℕ) (needed : Bool) (rendered : Bytes)
    → IsAlignedTo paths n
    → IsAlignedTo (grow_paths paths n needed rendered) (n + 1)
grow_paths-IsAlignedTo none n false rendered h = h
grow_paths-IsAlignedTo (some paths) n false rendered h =
    omega (arith, h, length-append paths ([] ∷ []))
grow_paths-IsAlignedTo none n true rendered h =
    omega (arith, length-append (replicate n []) (rendered ∷ []), length-replicate {A = Bytes} n [])
grow_paths-IsAlignedTo (some paths) n true rendered h =
    omega (arith, h, length-append paths (rendered ∷ []))

pub add_generated_observable-IsAligned :
    (c : Context) (path : EventPath) (observable : Map) (style : Style)
    → IsAligned c
    → IsAligned (add_generated_observable c path observable style)
unfolding add_generated_observable
add_generated_observable-IsAligned c path observable style h =
    rw (length-append c.observables (observable ∷ [])) (
      grow_paths-IsAlignedTo c.observable_diagnostic_paths (length c.observables)
        (needs_diagnostic_path style path) (to_string path array_indexed) h)

add_observable-IsAligned :
    (schema : ObservableSchema) (c : Context) (id : ℤ) (value : Option Bytes) (style : Style)
    (enabled : Bool)
    → IsAligned c
    → IsAligned (add_observable schema c id value style enabled)
unfolding add_observable
add_observable-IsAligned schema c id value style enabled h =
    add_generated_observable-IsAligned c c.path
      (observable_of schema (to_string c.path style) id value enabled) style h

report-IsAligned :
    (c : Context) (s : IssueSuppression) (source code : ℕ) (details : List (Bytes × Bytes))
    → IsAligned c
    → IsAligned (report c s source code details)
unfolding report suppresses_issue add_processor_issue
report-IsAligned c s source code details h = elim (Bool-cases (suppresses s code)) [
  | inl e ↦ rw e h
  | inr e ↦ rw e h
]

choose-IsAligned :
    (b : Bool) (c d : Context) → IsAligned c → IsAligned d → IsAligned (if b then c else d)
choose-IsAligned true c d hc hd = hc
choose-IsAligned false c d hc hd = hd

module _ (lib : NumberLibrary) (schema : ObservableSchema) (p : EnrichmentProcessor) where
  add_formatted-IsAligned :
      (c : Context) (name : Bytes) (id : ℤ) (is_text : Bool) (formatted : Option Bytes)
      → IsAligned c
      → IsAligned (add_formatted lib schema p c name id is_text formatted)
  add_formatted-IsAligned c name id is_text none h = report-IsAligned c p.issue_suppression _ _ _ h
  add_formatted-IsAligned c name id is_text (some s) h =
      choose-IsAligned (same s [] && not is_text) _ _
        (report-IsAligned c p.issue_suppression _ _ _ h)
        (add_observable-IsAligned schema c id (some s) p.path_notation p.enum_siblings_enabled h)

  add_scalar-IsAligned :
      (c : Context) (name : Bytes) (attr : AttributeDefinition) (value : Value) (id : Option ℤ)
      → IsAligned c
      → IsAligned (add_scalar lib schema p c name attr value id)
  add_scalar-IsAligned c name attr value none h = h
  add_scalar-IsAligned c name attr value (some id) h =
      choose-IsAligned _ _ _ (report-IsAligned c p.issue_suppression _ _ _ h)
        (add_formatted-IsAligned c name id (is_some (as_string value)) (format_scalar lib value) h)

  add_scalar_value_observable-IsAligned :
      (c : Context) (name : Bytes) (attr : AttributeDefinition) (value : Value)
      → IsAligned c
      → IsAligned (add_scalar_value_observable lib schema p c name attr value)
  unfolding add_scalar_value_observable
  add_scalar_value_observable-IsAligned c name attr value h =
      add_scalar-IsAligned c name attr value (observable_type_id schema p c name attr) h

  add_elements-IsAligned :
      (c : Context) (name : Bytes) (attr : AttributeDefinition) (values : List Value) (index : ℕ)
      → IsAligned c
      → IsAligned (add_elements lib schema p c name attr values index)
  unfolding add_elements
  add_elements-IsAligned c name attr [] index h = h
  add_elements-IsAligned c name attr (value ∷ values) index h =
      add_elements-IsAligned
        (leave (add_scalar_value_observable lib schema p (at_index c index) name attr value)) name
        attr values (index + 1)
        (add_scalar_value_observable-IsAligned (at_index c index) name attr value h)

  add_values-IsAligned :
      (c : Context) (name : Bytes) (attr : AttributeDefinition) (values : Option (List Value))
      → IsAligned c
      → IsAligned (add_values lib schema p c name attr values)
  add_values-IsAligned c name attr (some values) h = add_elements-IsAligned c name attr values 0 h
  add_values-IsAligned c name attr none h =
      choose-IsAligned _ _ _ (report-IsAligned c p.issue_suppression _ _ _ h) h

  -- After the values of an array attribute, the diagnostic paths, where there are any, are as many as the
  -- observables, when they were before.
  add_array_value_observables-IsAligned :
      (c : Context) (name : Bytes) (attr : AttributeDefinition) (value : Value)
      → IsAligned c
      → IsAligned (add_array_value_observables lib schema p c name attr value)
  unfolding add_array_value_observables
  add_array_value_observables-IsAligned c name attr value h =
      add_values-IsAligned c name attr (array_view value) h
