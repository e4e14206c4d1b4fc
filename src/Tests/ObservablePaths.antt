-- ===== src/Tests/ObservablePaths.antt =====
-- Names of observables, and the paths that they are read as.
use ocsf_toolkit.Common.{
  ◌≡◌, ◌≢◌, ◌⊎◌, ◌≤◌, ◌↔◌, refl, List, [], ◌∷◌, true, false, none, some, Bytes, bytes_eq, codes,
  arith,
}
use ocsf_toolkit.Common.Int.{pos}
use ocsf_toolkit.PathSeq.{Sequence}
use ocsf_toolkit.PathSeq.Refinement.{IsValid, view}
use ocsf_toolkit.PathStyle.{json_path, array_wildcard, valid}
use ocsf_toolkit.EventPath.{Element, attribute, array_index, EventPath, to_string}
use ocsf_toolkit.EventValue.{
  Value, text, array, object, slice, any_element, items_of, fields_of, array_view, null,
}
use ocsf_toolkit.Schema.{AttributeDefinition, attribute_active}
use ocsf_toolkit.Schema.Items.{ClassDefinition, Objects}
use ocsf_toolkit.ObservablePath.{
  brackets, index, Segment, ObservablePath, ParseError, ok, err, out_of_fuel, parse,
}
use ocsf_toolkit.ObservablePath.RoundTrip.{path_text, parse-path_text}
use ocsf_toolkit.ObservablePath.Rendered.{parse-event_path_text}
use ocsf_toolkit.ObservablePath.Termination.{parse_ends}
use ocsf_toolkit.ObservablePath.Definition.{defined, definition, uses_notation}
use ocsf_toolkit.ObservablePath.Walk.{Walk, definition-Walk}
use ocsf_toolkit.ObservablePath.Notation.{Follows, reaches, passes, written_names_are_defined}
use ocsf_toolkit.ObservablePath.Resolution.{
  single_from, resolve_from, with_match, value_found, match_candidates, all_rounds, is_object,
  is_null, nothing_selected,
}
use ocsf_toolkit.ObservablePath.Resolution.Gathering.{
  with_leaves, all_leaves, match_candidates-leaves,
}
use ocsf_toolkit.ObservablePath.Resolution.Agreement.{single_from-resolve_from}

abbrev devices_segment : Segment
devices_segment = record { attribute = codes "devices"; selectors = index 3 ∷ [] }

abbrev hostname_segment : Segment
hostname_segment = record { attribute = codes "hostname"; selectors = [] }

parse-path_text_example :
    (path : Sequence Segment) × (parse (path_text true (devices_segment ∷ hostname_segment ∷ []))
      ≡ ok (record { segments = path; rooted = true }))
    × IsValid path
    × (view path ≡ devices_segment ∷ hostname_segment ∷ [])
parse-path_text_example = parse-path_text true devices_segment (hostname_segment ∷ []) refl refl

abbrev elements : List Element
elements = attribute (codes "devices") ∷ array_index 3 ∷ attribute (codes "hostname") ∷ []

abbrev event_path : EventPath
event_path = record {
  elements = record {
    inline =
        attribute (codes "devices")
        ∷ array_index 3
        ∷ attribute (codes "hostname")
        ∷ array_index 0
        ∷ attribute []
        ∷ attribute []
        ∷ attribute []
        ∷ attribute []
        ∷ [];
    overflow = [];
    len = 3;
  };
}

event_path-IsValid : IsValid event_path.elements
event_path-IsValid = record { slots = refl; room = omega arith }

parse-event_path_text_example :
    (path : Sequence Segment) × (parse (to_string event_path json_path)
      ≡ ok (record { segments = path; rooted = true }))
    × IsValid path
    × (view path ≡ devices_segment ∷ hostname_segment ∷ [])
parse-event_path_text_example =
    parse-event_path_text event_path json_path (codes "devices")
      (array_index 3 ∷ attribute (codes "hostname") ∷ []) event_path-IsValid refl refl refl

parse_ends_example :
    ((path : ObservablePath) × (parse (codes "a[3].b[") ≡ ok path))
    ⊎ ((e : ParseError) × (parse (codes "a[3].b[") ≡ err e) × (e ≢ out_of_fuel))
parse_ends_example = parse_ends (codes "a[3].b[")

abbrev hostname : AttributeDefinition
hostname = record {
  type_name = codes "hostname_t";
  primitive_type = codes "string_t";
  is_array = false;
  enum = none;
  sibling = none;
  object_type = none;
  profiles = [];
  observable = some (pos 1);
  numeric_enums = none;
}

abbrev devices : AttributeDefinition
devices = record {
  type_name = codes "object_t";
  primitive_type = codes "object_t";
  is_array = true;
  enum = none;
  sibling = none;
  object_type = some (codes "device");
  profiles = codes "host" ∷ [];
  observable = none;
  numeric_enums = none;
}

abbrev objects : Objects
objects =
    (codes "device", record { attributes = (codes "hostname", hostname) ∷ []; observable = none })
    ∷ []

abbrev class : ClassDefinition
class = record {
  name = codes "inventory";
  uid = pos 5001;
  attributes = (codes "devices", devices) ∷ [];
  observables = [];
}

abbrev host_profile : List Bytes
host_profile = codes "host" ∷ []

devices_active : attribute_active (some devices) host_profile ≡ true
unfolding attribute_active
devices_active = refl

hostname_active : attribute_active (some hostname) host_profile ≡ true
unfolding attribute_active
hostname_active = refl

elements-Follows : Follows objects host_profile [] class.attributes elements
elements-Follows =
    passes [] class.attributes (codes "devices") devices 3 ((codes "hostname", hostname) ∷ [])
      (codes "hostname") [] refl devices_active refl refl refl
      (reaches (codes "devices" ∷ []) ((codes "hostname", hostname) ∷ []) (codes "hostname")
        hostname 0 refl hostname_active)

array_wildcard-valid : valid array_wildcard ≡ true
unfolding valid
array_wildcard-valid = refl

written_names_are_defined_example :
    (path : ObservablePath) × (parse (to_string event_path array_wildcard) ≡ ok path)
    × (definition objects host_profile path (some class) ≡ defined)
    × (uses_notation objects array_wildcard path (some class) ≡ true)
written_names_are_defined_example =
    written_names_are_defined objects host_profile array_wildcard event_path class (codes "devices")
      (array_index 3 ∷ attribute (codes "hostname") ∷ []) event_path-IsValid refl refl refl
      array_wildcard-valid elements-Follows

abbrev observable_path : ObservablePath
observable_path = record {
  segments = record {
    inline =
        record { attribute = codes "devices"; selectors = brackets ∷ [] }
        ∷ hostname_segment
        ∷ hostname_segment
        ∷ hostname_segment
        ∷ hostname_segment
        ∷ hostname_segment
        ∷ hostname_segment
        ∷ hostname_segment
        ∷ [];
    overflow = [];
    len = 2;
  };
  rooted = false;
}

definition-Walk_example :
    (definition objects host_profile observable_path (some class) ≡ defined)
    ↔ Walk objects host_profile [] class.attributes (view observable_path.segments)
definition-Walk_example =
    definition-Walk objects host_profile observable_path class
      (record { slots = refl; room = omega arith })

abbrev host : Value
host = object (fields_of ((codes "hostname", text (codes "web")) ∷ []))

abbrev event : Value
event = object (fields_of ((codes "device", host) ∷ []))

event-handled :
    single_from (record { attribute = codes "device"; selectors = [] } ∷ []) event
    ≡ some (host, value_found)
unfolding single_from array_view
event-handled = refl

single_from-resolve_from_example :
    resolve_from is_object
      (record { attribute = codes "device"; selectors = [] } ∷ [])
      (event ∷ [])
      false
    ≡ some (with_match is_object (host, value_found))
single_from-resolve_from_example =
    single_from-resolve_from is_object (record { attribute = codes "device"; selectors = [] } ∷ [])
      event (host, value_found) event-handled

abbrev stack : List Value
stack = array slice any_element (items_of (host ∷ (null ∷ []))) ∷ []

stack-rounds : all_rounds stack ≤ 3
unfolding all_rounds
stack-rounds = omega arith

match_candidates-leaves_example :
    match_candidates 3 is_null stack nothing_selected
    ≡ some (with_leaves is_null (all_leaves stack) nothing_selected)
match_candidates-leaves_example =
    match_candidates-leaves is_null 3 stack nothing_selected stack-rounds
