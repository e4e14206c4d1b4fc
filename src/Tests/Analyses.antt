-- ===== src/Tests/Analyses.antt =====
-- An event with observables, some of which it makes redundant.
use ocsf_toolkit.Common.{◌≡◌, refl, inr, List, [], ◌∷◌, true, false, none, some, bytes_eq, codes}
use ocsf_toolkit.Common.Int.{pos}
use ocsf_toolkit.EventValue.{
  Value, Map, text, object, array, slice, any_element, items_of, fields_of, as_map,
}
use ocsf_toolkit.Schema.{AttributeDefinition}
use ocsf_toolkit.Schema.Items.{ClassDefinition}
use ocsf_toolkit.Observable.Collection.{Collection, new_collection}
use ocsf_toolkit.Observable.Analysis.{analyze_entry}
use ocsf_toolkit.Observable.Analysis.Redundancy.{IsRedundant, analyze_entry-IsRedundant}
use ocsf_toolkit.Processing.Context.{Context}
use ocsf_toolkit.Processing.ObservableRemoval.{remove_observables_safely}
use ocsf_toolkit.Processing.ObservableRemoval.Result.{
  Leaves, flags_of, remove_observables_safely-Leaves,
}
use ocsf_toolkit.Common.{arith, contains, ◌↔◌, Bytes}
use ocsf_toolkit.Common.Int.{ℤ}
use ocsf_toolkit.EventPath.{EventPath, attribute, array_index}
use ocsf_toolkit.EventPath.LastAttribute.{attribute_names}
use ocsf_toolkit.PathSeq.Refinement.{view}
use ocsf_toolkit.Schema.Items.{ObjectDefinition}
use ocsf_toolkit.Observable.Discovery.{Compiled, all_edges, seeds, compile_object_observability}
use ocsf_toolkit.Observable.Discovery.Reachability.{Generates, observability-Generates}
use ocsf_toolkit.Processing.ClassObservables.{compile_class_observable_trie, type_id}
use ocsf_toolkit.Processing.ClassObservables.Lookup.{declared, type_id-declared}
use ocsf_toolkit.Tests.Samples.{library, context, nothing_suppressed}

abbrev hostname : AttributeDefinition
hostname = record {
  type_name = codes "hostname_t";
  primitive_type = codes "string_t";
  is_array = false;
  enum = none;
  sibling = none;
  object_type = none;
  profiles = [];
  observable = some (pos 1);
  numeric_enums = none;
}

abbrev class : ClassDefinition
class = record {
  name = codes "lookup";
  uid = pos 4003;
  attributes = (codes "hostname", hostname) ∷ [];
  observables = [];
}

abbrev redundant_one : Map
redundant_one = (codes "name", text (codes "hostname")) ∷ (codes "value", text (codes "web")) ∷ []

abbrev values : List Value
values =
    object (fields_of redundant_one)
    ∷ object (
        fields_of
          ((codes "name", text (codes "hostname")) ∷ (codes "value", text (codes "db")) ∷ []))
    ∷ text (codes "stray")
    ∷ []

abbrev event : Map
event =
    (codes "hostname", text (codes "web"))
    ∷ (codes "observables", array slice any_element (items_of values))
    ∷ []

abbrev observables : Collection
observables = record { container = slice; element = any_element; values = values }

observables-collection :
    new_collection (array slice any_element (items_of values)) ≡ some observables
unfolding new_collection
observables-collection = refl

first_removable :
    (analyze_entry library [] (some class) [] event (object (fields_of redundant_one))).removable
    ≡ true
unfolding analyze_entry
first_removable = refl

analyze_entry-IsRedundant_example :
    (m : Map) × (as_map (object (fields_of redundant_one)) ≡ some m)
    × IsRedundant library [] (some class) [] event m
analyze_entry-IsRedundant_example =
    analyze_entry-IsRedundant library [] (some class) [] event (object (fields_of redundant_one))
      first_removable

remove_observables_safely-Leaves_example :
    (c' : Context) × (event' : Map) × (remove_observables_safely library []
        (some class)
        []
        context
        event
        true
        nothing_suppressed
      ≡ inr (c', event'))
    × Leaves context event values (flags_of library [] (some class) [] event values) c' event'
remove_observables_safely-Leaves_example =
    remove_observables_safely-Leaves library [] (some class) [] context event nothing_suppressed
      (array slice any_element (items_of values)) observables refl observables-collection

abbrev user_object : ObjectDefinition
user_object = record { attributes = (codes "hostname", hostname) ∷ []; observable = none }

abbrev user : AttributeDefinition
user = record hostname {
  type_name = codes "object_t";
  object_type = some (codes "user");
  observable = none;
}

abbrev actor_object : ObjectDefinition
actor_object = record { attributes = (codes "user", user) ∷ []; observable = none }

abbrev compiled : Compiled
compiled = record {
  objects = (codes "actor", actor_object) ∷ (codes "user", user_object) ∷ [];
  dictionary = none;
}

observability-Generates_example :
    (out : List Bytes) × (compile_object_observability compiled none ≡ some out)
    × ((name : Bytes)
        → (contains out name ≡ true)
          ↔ Generates
              (all_edges compiled none compiled.objects)
              (seeds compiled none compiled.objects [])
              name)
observability-Generates_example = observability-Generates compiled none

abbrev path : EventPath
path = record {
  elements = record {
    inline =
        attribute (codes "actor")
        ∷ array_index 0
        ∷ attribute (codes "user")
        ∷ attribute []
        ∷ attribute []
        ∷ attribute []
        ∷ attribute []
        ∷ attribute []
        ∷ [];
    overflow = [];
    len = 3;
  };
}

abbrev declarations : List (Bytes × ℤ)
declarations = (codes "actor.user", pos 21) ∷ (codes "actor", pos 4) ∷ []

type_id-declared_example :
    type_id (compile_class_observable_trie declarations none) path
    ≡ declared none declarations (attribute_names (view path.elements)) none
type_id-declared_example =
    type_id-declared declarations none path (record { slots = refl; room = omega arith })
