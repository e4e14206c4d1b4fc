-- ===== src/Processing/ObservableAddition/Elements.antt =====
-- What the values of an array attribute add to the observables.
use ocsf_toolkit.Common.{
  ℕ, ◌+◌, ◌≡◌, refl, sym, ap, ◌∙◌, List, [], ◌∷◌, ◌++◌, append-nil, append_assoc, Bool, true, false,
  not, ◌&&◌, Option, none, some, Bytes, bytes_eq, codes, same, is_some, arith, length,
  length-append, Bool-cases, inl, inr, if◌then◌else◌,
}
use ocsf_toolkit.Common.Int.{ℤ}
use ocsf_toolkit.PathSeq.Refinement.{
  IsValid, view, push-IsValid, pop-IsValid, view-push, view-pop-push,
}
use ocsf_toolkit.EventValue.{Value, Map, array_view}
use ocsf_toolkit.EventValue.Scalar.{NumberLibrary, as_string, format_scalar}
use ocsf_toolkit.EventPath.{Element, array_index, zero_element, to_string, push_array_index, pop}
use ocsf_toolkit.EventPath.Reference.{reference}
use ocsf_toolkit.EventPath.Rendering.{to_string-view}
use ocsf_toolkit.Schema.{AttributeDefinition}
use ocsf_toolkit.Schema.Types.{type_derived_from}
use ocsf_toolkit.Observable.Discovery
use ocsf_toolkit.Processing.Context.{
  Context, IssueSuppression, report, suppresses, suppresses_issue, add_processor_issue,
}
use ocsf_toolkit.Processing.ClassObservables.{allows}
use ocsf_toolkit.Processing.ObservableAddition.{
  ObservableSchema, EnrichmentProcessor, add_generated_observable, add_observable, observable_of,
  add_formatted, add_scalar_value_observable, add_elements, add_array_value_observables,
  observable_type_id, at_index, leave, types_of,
}

-- the issues that were reported or suppressed
abbrev pub judged : Context → ℕ
judged c = length c.issues + c.suppressed_issues

-- What one value does: it adds an observable, or it is reported; the path stays.
record Step (c c' : Context) (added : List Map) : Type 0 where
  appended : c'.observables ≡ c.observables ++ added
  accounted : judged c' + length added ≡ judged c + 1
  path_kept : c'.path ≡ c.path

report-Step :
    (c : Context) (s : IssueSuppression) (source code : ℕ) (details : List (Bytes × Bytes))
    → Step c (report c s source code details) []
unfolding report suppresses_issue add_processor_issue
report-Step c s source code details = elim (Bool-cases (suppresses s code)) [
  | inl e ↦ rw e (record {
    appended = sym (append-nil c.observables);
    accounted = omega arith;
    path_kept = refl;
  })
  | inr e ↦ rw e (record {
    appended = sym (append-nil c.observables);
    accounted = omega (
      arith,
      length-append c.issues (record { source = source; code = code; details = details } ∷ []),
    );
    path_kept = refl;
  })
]

module _ (lib : NumberLibrary) (schema : ObservableSchema) (p : EnrichmentProcessor) (id : ℤ) where
  -- the observable of a value, by the text of its path: none for a value that is no scalar
  abbrev pub scalar_observables : Bytes → Bool → Option Bytes → List Map
  scalar_observables path is_text none = []
  scalar_observables path is_text (some s) =
      if same s [] && not is_text
      then []
      else observable_of schema path id (some s) p.enum_siblings_enabled ∷ []

  -- the observables of the values of an array at a path, each at the path with its index
  abbrev pub element_observables : List Element → List Value → ℕ → List Map
  element_observables path [] index = []
  element_observables path (value ∷ values) index =
      scalar_observables (reference p.path_notation (path ++ array_index index ∷ []))
        (is_some (as_string value)) (format_scalar lib value)
      ++ element_observables path values (index + 1)

  add_formatted-Step :
      (c : Context) (name : Bytes) (is_text : Bool) (formatted : Option Bytes)
      → Step c
          (add_formatted lib schema p c name id is_text formatted)
          (scalar_observables (to_string c.path p.path_notation) is_text formatted)
  unfolding add_observable add_generated_observable
  add_formatted-Step c name is_text none = report-Step c p.issue_suppression _ _ _
  add_formatted-Step c name is_text (some s) = elim (Bool-cases (same s [] && not is_text)) [
    | inl e ↦ rw e (report-Step c p.issue_suppression _ _ _)
    | inr e ↦ rw e (record { appended = refl; accounted = refl; path_kept = refl })
  ]

  -- The type of an attribute is allowed, and is no `json_t`.
  pub record IsObservable (name : Bytes) (attr : AttributeDefinition) : Type 0 where
    pub typed : Discovery.type_id schema.compiled name (some attr) ≡ some id
    pub allowed : allows p.observable_types id ≡ true
    pub scalar :
        type_derived_from (types_of schema.compiled.dictionary) attr.type_name (codes "json_t")
        ≡ false

  observable_type_id-id :
      (c : Context) (name : Bytes) (attr : AttributeDefinition)
      → IsObservable name attr
      → observable_type_id schema p c name attr ≡ some id
  unfolding observable_type_id
  observable_type_id-id c name attr h = rw (h.typed, h.allowed) refl

  add_scalar_value_observable-Step :
      (c : Context) (name : Bytes) (attr : AttributeDefinition) (value : Value)
      → IsObservable name attr
      → Step c (add_scalar_value_observable lib schema p c name attr value) (
          scalar_observables
            (to_string c.path p.path_notation)
            (is_some (as_string value))
            (format_scalar lib value))
  unfolding add_scalar_value_observable
  add_scalar_value_observable-Step c name attr value h =
      rw (observable_type_id-id c name attr h, h.scalar)
        (add_formatted-Step c name (is_some (as_string value)) (format_scalar lib value))

  -- What the values of an array do: each adds its observable under its own path or is reported, and
  -- the path of the traversal is afterwards what it was.
  pub record Adds (c : Context) (values : List Value) (index : ℕ) (c' : Context) : Type 0 where
    pub appended :
        c'.observables ≡ c.observables ++ element_observables (view c.path.elements) values index
    pub accounted :
        judged c' + length c'.observables ≡ judged c + length c.observables + length values
    pub valid : IsValid c'.path.elements
    pub path_kept : view c'.path.elements ≡ view c.path.elements

  pushed_text :
      (c : Context) (index : ℕ)
      → IsValid c.path.elements
      → to_string (at_index c index).path p.path_notation
        ≡ reference p.path_notation (view c.path.elements ++ array_index index ∷ [])
  unfolding push_array_index
  pushed_text c index valid =
      to_string-view (push_array_index c.path index) p.path_notation
        (push-IsValid c.path.elements (array_index index) valid)
      ∙ ap (reference p.path_notation) (view-push c.path.elements (array_index index) valid)

  left_path :
      (c c' : Context) (index : ℕ)
      → IsValid c.path.elements
      → c'.path ≡ (at_index c index).path
      → IsValid (leave c').path.elements × (view (leave c').path.elements ≡ view c.path.elements)
  unfolding push_array_index pop
  left_path c c' index valid e = rw e (
    pop-IsValid zero_element _ (push-IsValid c.path.elements (array_index index) valid),
    view-pop-push zero_element c.path.elements (array_index index) valid,
  )

  Step-Adds :
      (c c' c'' : Context) (value : Value) (values : List Value) (index : ℕ)
      → Step (at_index c index) c' (
          scalar_observables
            (to_string (at_index c index).path p.path_notation)
            (is_some (as_string value))
            (format_scalar lib value))
      → IsValid c.path.elements
      → view (leave c').path.elements ≡ view c.path.elements
      → Adds (leave c') values (index + 1) c''
      → Adds c (value ∷ values) index c''
  Step-Adds c c' c'' value values index step valid back rest =
      let added =
        scalar_observables (to_string (at_index c index).path p.path_notation)
          (is_some (as_string value)) (format_scalar lib value) in
      record {
        appended =
            rest.appended
            ∙ rw (back, step.appended, pushed_text c index valid) (append_assoc c.observables _ _);
        accounted = omega (
          arith,
          rest.accounted,
          step.accounted,
          ap length step.appended,
          length-append c.observables added,
        );
        valid = rest.valid;
        path_kept = rest.path_kept ∙ back;
      }

  add_elements-Adds :
      (name : Bytes) (attr : AttributeDefinition)
      → IsObservable name attr
      → (values : List Value) (c : Context) (index : ℕ) → IsValid c.path.elements
      → Adds c values index (add_elements lib schema p c name attr values index)
  unfolding add_elements
  add_elements-Adds name attr h [] c index valid = record {
    appended = sym (append-nil c.observables);
    accounted = omega arith;
    valid = valid;
    path_kept = refl;
  }
  add_elements-Adds name attr h (value ∷ values) c index valid =
      let c' = add_scalar_value_observable lib schema p (at_index c index) name attr value in
      let step = add_scalar_value_observable-Step (at_index c index) name attr value h in
      let (popped, back) = left_path c c' index valid step.path_kept in
      Step-Adds c c' _ value values index step valid back
        (add_elements-Adds name attr h values (leave c') (index + 1) popped)

  -- For an array attribute with an allowed observable type that is no `json_t`, and a valid path, the
  -- observables of its values are added behind the earlier ones, in order, each under the text of the
  -- path with the value's index; every value is added, reported or has its report suppressed; and the
  -- path of the traversal is afterwards what it was.
  pub add_array_value_observables-Adds :
      (c : Context) (name : Bytes) (attr : AttributeDefinition) (value : Value)
      (values : List Value)
      → IsObservable name attr
      → array_view value ≡ some values
      → IsValid c.path.elements
      → Adds c values 0 (add_array_value_observables lib schema p c name attr value)
  unfolding add_array_value_observables
  add_array_value_observables-Adds c name attr value values h viewed valid =
      rw viewed (add_elements-Adds name attr h values c 0 valid)
