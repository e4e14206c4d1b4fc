-- ===== src/Tests/Generation.antt =====
-- The observables that an event's attribute generates, with the paths that are reported for them.
use ocsf_toolkit.Common.{◌≡◌, refl, [], ◌∷◌, true, none, some, bytes_eq, codes, arith, length}
use ocsf_toolkit.Common.Int.{pos}
use ocsf_toolkit.PathStyle.{array_indexed, simple}
use ocsf_toolkit.PathSeq.Refinement.{IsValid}
use ocsf_toolkit.EventValue.{Value, Map, text, int, array, slice, any_element, items_of, array_view}
use ocsf_toolkit.EventPath.{EventPath, attribute, array_index, to_string}
use ocsf_toolkit.Schema.{AttributeDefinition}
use ocsf_toolkit.Processing.ObservableAddition.{
  ObservableSchema, EnrichmentProcessor, observable_diagnostic_path, add_array_value_observables,
  terminal_observable_attribute,
}
use ocsf_toolkit.Processing.ObservableAddition.Reports.{
  generate, AllProper, generated_paths_are_reported,
}
use ocsf_toolkit.Processing.ObservableAddition.Elements.{
  IsObservable, Adds, add_array_value_observables-Adds,
}
use ocsf_toolkit.PathSeq
use ocsf_toolkit.EventPath.{push_array_index}
use ocsf_toolkit.Common.{◌+◌, List}
use ocsf_toolkit.Processing.Context.{Context}
use ocsf_toolkit.EventValue.Scalar.{format_scalar}
use ocsf_toolkit.Observable.Discovery
use ocsf_toolkit.Processing.ClassObservables.{allows}
use ocsf_toolkit.Schema.Types.{type_derived_from}
use ocsf_toolkit.Tests.Samples.{library, context, nothing_suppressed}

abbrev path : EventPath
path = record {
  elements = record {
    inline =
        attribute (codes "files")
        ∷ array_index 2
        ∷ attribute (codes "name")
        ∷ attribute []
        ∷ attribute []
        ∷ attribute []
        ∷ attribute []
        ∷ attribute []
        ∷ [];
    overflow = [];
    len = 3;
  };
}

path-IsValid : IsValid path.elements
path-IsValid = record { slots = refl; room = omega arith }

abbrev observable : Map
observable = (codes "name", text (codes "files.name")) ∷ (codes "type_id", int (pos 7)) ∷ []

abbrev other_path : EventPath
other_path = push_array_index path 0

abbrev additions : List (EventPath × Map)
additions = (path, observable) ∷ (other_path, observable) ∷ []

additions-AllProper : AllProper additions
unfolding push_array_index PathSeq.push
additions-AllProper = (
  record { valid = path-IsValid; not_root = λ e. cc },
  (record { valid = record { slots = refl; room = omega arith }; not_root = λ e. cc }, tt),
)

generated_paths_are_reported_example :
    observable_diagnostic_path
      (generate additions simple context)
      (length context.observables + 0)
      (to_string path simple)
      simple
    ≡ to_string path array_indexed
unfolding context
generated_paths_are_reported_example =
    generated_paths_are_reported simple additions context 0 path observable tt additions-AllProper
      refl

abbrev names : AttributeDefinition
names = record {
  type_name = codes "hostname_t";
  primitive_type = codes "string_t";
  is_array = true;
  enum = none;
  sibling = none;
  object_type = none;
  profiles = [];
  observable = some (pos 1);
  numeric_enums = none;
}

abbrev schema : ObservableSchema
schema = record {
  compiled = record { objects = []; dictionary = none };
  captions = (pos 1, codes "Hostname") ∷ [];
}

abbrev processor : EnrichmentProcessor
processor = record {
  enum_siblings_enabled = true;
  observables_enabled = true;
  path_notation = simple;
  observable_types = none;
  class_observable_tries = [];
  object_observability = [];
  issue_suppression = nothing_suppressed;
}

abbrev two_names : Value
two_names = array slice any_element (items_of (text (codes "a") ∷ text (codes "b") ∷ []))

abbrev at_path : Context
at_path = record context { path = path }

names-IsObservable : IsObservable library schema processor (pos 1) (codes "names") names
unfolding Discovery.type_id allows type_derived_from
names-IsObservable = record { typed = refl; allowed = refl; scalar = refl }

names_viewed : array_view two_names ≡ some (text (codes "a") ∷ text (codes "b") ∷ [])
unfolding array_view
names_viewed = refl

add_array_value_observables-Adds_example :
    Adds library schema processor
      (pos 1)
      at_path
      (text (codes "a") ∷ text (codes "b") ∷ [])
      0
      (add_array_value_observables library schema processor at_path (codes "names") names two_names)
add_array_value_observables-Adds_example =
    add_array_value_observables-Adds library schema processor (pos 1) at_path (codes "names") names
      two_names (text (codes "a") ∷ text (codes "b") ∷ []) names-IsObservable names_viewed
      path-IsValid

two_are_generated :
    length
      (add_array_value_observables library schema processor context
        (codes "names")
        names
        two_names).observables
    ≡ 2
unfolding add_array_value_observables context array_view Discovery.type_id allows type_derived_from
    format_scalar
two_are_generated = refl

terminal_of_an_indexed_path :
    terminal_observable_attribute (codes "files[2].name[0]") ≡ codes "name"
unfolding terminal_observable_attribute
terminal_of_an_indexed_path = refl
