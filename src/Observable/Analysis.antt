-- ===== src/Observable/Analysis.antt =====
-- internal/observable/analysis.go: which entries of the observables array the event makes redundant.
pub mod Entries
pub mod Redundancy
use ocsf_toolkit.Common.{
  ℕ, zero, suc, ◌+◌, ◌≡◌, List, [], ◌∷◌, ◌++◌, Bool, true, false, not, ◌||◌, Option, none, some,
  Bytes, bytes_eq, nat_eq, codes, same, lookup, ltb, leb, length, get_elem?, map, if◌then◌else◌,
}
use ocsf_toolkit.EventValue.{Value, null, text, Map, as_map, object, fields_of}
use ocsf_toolkit.EventValue.Scalar.{NumberLibrary, as_string}
use ocsf_toolkit.EventValue.Object.{get_attribute}
use ocsf_toolkit.Schema.Items.{ClassDefinition, Objects}
use ocsf_toolkit.ObservablePath.{
  ObservablePath, ParseError, Result, ok, err, parse, first_attribute,
}
use ocsf_toolkit.ObservablePath.Definition.{
  DefinitionStatus, undefined, defined, traversal_limited, definition,
}
use ocsf_toolkit.ObservablePath.Resolution.{
  Resolution, nothing_selected, resolve_object, resolve_null, resolve_string,
}
use ocsf_toolkit.Observable.Collection.{Collection, new_collection}

-- `Problem`, without the count of its values
pub data Problem : Type 0 where
  problem_none array_wrong_type element_wrong_type name_missing name_wrong_type : Problem
  name_invalid_syntax name_invalid_reference name_traversal_limited : Problem
  path_not_found path_not_object value_wrong_type value_not_found : Problem

-- `Entry`; `path` is none where `PathDefined` is false, `parse_error` where `Err` is nil.
pub record Entry : Type 0 where
  pub raw : Value
  pub observable : Option Map
  pub name : Bytes
  pub path : Option ObservablePath
  pub removable : Bool
  pub problem : Problem
  pub parse_error : Option ParseError

abbrev pub entry_of : Value → Entry
entry_of value = record {
  raw = value;
  observable = none;
  name = [];
  path = none;
  removable = false;
  problem = problem_none;
  parse_error = none;
}

abbrev pub problem : Problem → Entry → Entry
problem p entry = record entry { problem = p }

abbrev pub redundant : Entry → Entry
redundant entry = record entry { removable = true }

-- `resolve` always gives a resolution.
abbrev pub resolution_of : Option Resolution → Resolution
resolution_of none = nothing_selected
resolution_of (some r) = r

-- the tests of a resolution, with the problem of a value that was found but did not match
abbrev pub judged : Bool → Resolution → Problem → Entry → Entry
judged enough r mismatch entry =
    if enough
    then redundant entry
    else if not r.found
    then problem path_not_found entry
    else problem mismatch entry

-- `problemForDefinitionStatus`
unfoldable pub problem_for_definition_status : DefinitionStatus → Problem
problem_for_definition_status undefined = name_invalid_reference
problem_for_definition_status defined = problem_none
problem_for_definition_status traversal_limited = name_traversal_limited

abbrev pub is_none : Problem → Bool
is_none problem_none = true
is_none _ = false

-- `Analyzer`: the value of the attribute `observables`, its elements if it is an array, and the
-- loop's state. The event and the schema are parameters of the functions below.
pub record Analyzer : Type 0 where
  pub source : Value
  pub observables : Option Collection
  pub position : ℕ
  pub limit : ℕ

abbrev pub values_of : Option Collection → List Value
values_of none = []
values_of (some c) = c.values

abbrev pub analyzer_of : Option Value → Option Analyzer
analyzer_of none = none
analyzer_of (some value) = some (record {
  source = value;
  observables = new_collection value;
  position = 0;
  limit = length (values_of (new_collection value));
})

-- `LimitEntries`, of a count that is not negative
unfoldable pub limit_entries : Analyzer → ℕ → Analyzer
limit_entries a count = if leb a.limit count then a else record a { limit = count }

abbrev pub collect : Option (ℕ × Entry) → (Entry → List Entry) → List Entry
collect none continue = []
collect (some (i, entry)) continue = continue entry

abbrev pub event_value : Map → Value
event_value event = object (fields_of event)

module _ (lib : NumberLibrary) (objects : Objects) (class : Option ClassDefinition)
    (profiles : List Bytes) (event : Map) where
  abbrev pub analyze_text : ObservablePath → Entry → Option Bytes → Entry
  analyze_text path entry none = problem value_wrong_type entry
  analyze_text path entry (some s) =
      let r = resolution_of (resolve_string lib path (event_value event) s) in
      judged r.matched r value_not_found entry

  -- the three cases of the attribute `value`
  unfoldable pub analyze_value : ObservablePath → Entry → Option Value → Entry
  unfolding resolve_object resolve_null resolve_string
  analyze_value path entry none =
      let r = resolution_of (resolve_object path (event_value event)) in
      judged r.matched r path_not_object entry
  analyze_value path entry (some null) =
      let r = resolution_of (resolve_null path (event_value event)) in
      judged (r.missing || r.matched) r value_not_found entry
  analyze_value path entry (some value) = analyze_text path entry (as_string value)

  abbrev pub analyze_path : Map → Entry → Result ObservablePath → Entry
  analyze_path observable entry (err e) = record entry {
    problem = name_invalid_syntax;
    parse_error = some e;
  }
  analyze_path observable entry (ok path) =
      if same (first_attribute path) (codes "observables")
      then problem name_invalid_reference entry
      else if is_none (problem_for_definition_status (definition objects profiles path class))
      then analyze_value path (record entry { path = some path })
          (lookup (codes "value") observable)
      else problem (problem_for_definition_status (definition objects profiles path class)) entry

  abbrev pub analyze_name : Map → Entry → Option Bytes → Entry
  analyze_name observable entry none = problem name_wrong_type entry
  analyze_name observable entry (some name) =
      analyze_path observable (record entry { name = name }) (parse name)

  abbrev pub analyze_named : Map → Entry → Option Value → Entry
  analyze_named observable entry none = problem name_missing entry
  analyze_named observable entry (some value) = analyze_name observable entry (as_string value)

  abbrev pub analyze_map : Entry → Option Map → Entry
  analyze_map entry none = problem element_wrong_type entry
  analyze_map entry (some observable) =
      analyze_named observable (record entry { observable = some observable })
        (get_attribute observable (codes "name"))

  -- `analyzeEntry`
  unfoldable pub analyze_entry : Value → Entry
  unfolding parse first_attribute definition problem_for_definition_status analyze_value
      get_attribute
  analyze_entry value = analyze_map (entry_of value) (as_map value)

  -- `NewAnalyzer`
  unfoldable pub new_analyzer : Option Analyzer
  unfolding get_attribute new_collection
  new_analyzer = analyzer_of (get_attribute event (codes "observables"))

  abbrev pub entry_at : Option Value → Entry
  entry_at none = entry_of null
  entry_at (some value) = analyze_entry value

  abbrev next_of : Analyzer → Option Collection → Option (ℕ × Entry) × Analyzer
  next_of a none = if not (same a.position 0) then (none, a) else (
    some (0, problem array_wrong_type (entry_of a.source)),
    record a { position = a.position + 1 },
  )
  next_of a (some c) = if leb a.limit a.position then (none, a) else (
    some (a.position, entry_at (get_elem? c.values a.position)),
    record a { position = a.position + 1 },
  )

  -- `Next`; its error is not reached, as a path has no other definition status
  unfoldable pub advance : Analyzer → Option (ℕ × Entry) × Analyzer
  unfolding analyze_entry
  advance a = next_of a a.observables

  -- the loop of `Analyze`
  unfoldable pub entries_of : ℕ → Analyzer → List Entry
  unfolding advance
  entries_of zero a = []
  entries_of (suc rounds) a =
      let (found, a') = advance a in collect found (λ entry. entry ∷ entries_of rounds a')

  -- `Analyze`: the entries, and the collection where the attribute is an array. An analysis takes one
  -- round for an attribute that is no array, one for each element of an array, and one to end.
  abbrev pub analysis_of : Option Analyzer → Option (List Entry × Option Collection)
  analysis_of none = none
  analysis_of (some a) = some (entries_of (a.limit + 2) a, a.observables)

  unfoldable pub analyze : Option (List Entry × Option Collection)
  unfolding new_analyzer entries_of
  analyze = analysis_of new_analyzer
