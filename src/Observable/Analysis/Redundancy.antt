-- ===== src/Observable/Analysis/Redundancy.antt =====
-- An entry is removable only where the event itself holds what it says.
use ocsf_toolkit.Common.{
  ◌≡◌, ◌≢◌, refl, List, Bool, true, false, ◌||◌, Option, none, some, Bytes, bytes_eq, codes, same,
  same_iff, lookup, arith, if◌then◌else◌,
}
use ocsf_toolkit.EventValue.{Value, null, text, Map, as_map}
use ocsf_toolkit.EventValue.Scalar.{NumberLibrary, as_string}
use ocsf_toolkit.EventValue.Object.{get_attribute}
use ocsf_toolkit.Schema.Items.{ClassDefinition, Objects}
use ocsf_toolkit.ObservablePath.{ObservablePath, Result, ok, err, parse, first_attribute}
use ocsf_toolkit.ObservablePath.Definition.{
  DefinitionStatus, undefined, defined, traversal_limited, definition,
}
use ocsf_toolkit.ObservablePath.Resolution.{
  Resolution, resolve_object, resolve_null, resolve_string,
}
use ocsf_toolkit.Observable.Analysis.{
  Entry, Problem, name_invalid_reference, problem, entry_of, is_none, judged, resolution_of,
  problem_for_definition_status, event_value, analyze_value, analyze_path, analyze_name,
  analyze_named, analyze_map, analyze_entry,
}

gate :
    (inside : Bool) (status : DefinitionStatus) (entry looked_up : Entry)
    → entry.removable ≡ false
    → (if inside
        then problem name_invalid_reference entry
        else if is_none (problem_for_definition_status status)
        then looked_up
        else problem (problem_for_definition_status status) entry).removable
      ≡ true
    → (inside ≡ false) × (status ≡ defined) × (looked_up.removable ≡ true)
unfolding problem_for_definition_status
gate true status entry looked_up h e = absurd (cc (h, e))
gate false undefined entry looked_up h e = absurd (cc (h, e))
gate false traversal_limited entry looked_up h e = absurd (cc (h, e))
gate false defined entry looked_up h e = (refl, refl, e)

module _ (lib : NumberLibrary) (objects : Objects) (class : Option ClassDefinition)
    (profiles : List Bytes) (event : Map) where
  abbrev pub at_object : ObservablePath → Resolution
  at_object path = resolution_of (resolve_object path (event_value event))

  abbrev pub at_null : ObservablePath → Resolution
  at_null path = resolution_of (resolve_null path (event_value event))

  abbrev pub at_text : ObservablePath → Bytes → Resolution
  at_text path s = resolution_of (resolve_string lib path (event_value event) s)

  -- What the event shows at a path, for the attribute `value` of an observable: an object where there
  -- is no value, a null or nothing where it is null, and the same text where it is a text.
  pub data Shown (path : ObservablePath) : Option Value → Type 0 where
    as_object : (at_object path).matched ≡ true → Shown path none
    as_null : (at_null path).missing || (at_null path).matched ≡ true → Shown path (some null)
    as_text :
        (value : Value) (s : Bytes)
        → as_string value ≡ some s
        → (at_text path s).matched ≡ true
        → Shown path (some value)

  -- An observable whose name is a path that the class defines, at which the event shows its value.
  pub record IsRedundant (observable : Map) : Type 0 where
    pub name : Bytes
    pub name_value : Value
    pub path : ObservablePath
    pub named : get_attribute observable (codes "name") ≡ some name_value
    pub is_text : as_string name_value ≡ some name
    pub parsed : parse name ≡ ok path
    pub elsewhere : first_attribute path ≢ codes "observables"
    pub is_defined : definition objects profiles path class ≡ defined
    pub shown : Shown path (lookup (codes "value") observable)

  judged-removable :
      (enough : Bool) (r : Resolution) (mismatch : Problem) (entry : Entry)
      → entry.removable ≡ false
      → (judged enough r mismatch entry).removable ≡ true
      → enough ≡ true
  judged-removable true r mismatch entry h e = refl
  judged-removable false r mismatch entry h e = absurd (ground arith)

  analyze_value-Shown :
      (path : ObservablePath) (entry : Entry) (value : Option Value)
      → entry.removable ≡ false
      → (analyze_value lib objects class profiles event path entry value).removable ≡ true
      → Shown path value
  unfolding analyze_value
  analyze_value-Shown path entry none h e =
      as_object (judged-removable (at_object path).matched (at_object path) _ entry h e)
  analyze_value-Shown path entry (some null) h e = as_null (
      judged-removable ((at_null path).missing || (at_null path).matched) (at_null path) _ entry h
        e)
  analyze_value-Shown path entry (some (text s)) h e =
      as_text (text s) s refl
        (judged-removable (at_text path s).matched (at_text path s) _ entry h e)
  analyze_value-Shown path entry (some value) h e = absurd (cc (h, e))

  analyze_path-IsRedundant :
      (observable : Map) (entry : Entry) (name : Bytes) (name_value : Value)
      (r : Result ObservablePath)
      → get_attribute observable (codes "name") ≡ some name_value
      → as_string name_value ≡ some name
      → parse name ≡ r
      → entry.removable ≡ false
      → (analyze_path lib objects class profiles event observable entry r).removable ≡ true
      → IsRedundant observable
  analyze_path-IsRedundant observable entry name name_value (err x) named is_text parsed h e =
      absurd (cc (h, e))
  analyze_path-IsRedundant observable entry name name_value (ok path) named is_text parsed h e =
      let value = lookup (codes "value") observable in
      let (elsewhere, is_defined, removable) =
        gate (same (first_attribute path) (codes "observables"))
          (definition objects profiles path class) entry
          (analyze_value lib objects class profiles event path (record entry { path = some path })
            value)
          h e in
      record {
        name = name;
        name_value = name_value;
        path = path;
        named = named;
        is_text = is_text;
        parsed = parsed;
        elsewhere = λ same_name.
            absurd
              (cc (elsewhere, (same_iff (first_attribute path) (codes "observables")).1 same_name));
        is_defined = is_defined;
        shown = analyze_value-Shown path (record entry { path = some path }) value h removable;
      }

  analyze_name-IsRedundant :
      (observable : Map) (entry : Entry) (name_value : Value) (name : Option Bytes)
      → get_attribute observable (codes "name") ≡ some name_value
      → as_string name_value ≡ name
      → entry.removable ≡ false
      → (analyze_name lib objects class profiles event observable entry name).removable ≡ true
      → IsRedundant observable
  analyze_name-IsRedundant observable entry name_value none named is_text h e = absurd (cc (h, e))
  analyze_name-IsRedundant observable entry name_value (some name) named is_text h e =
      analyze_path-IsRedundant observable (record entry { name = name }) name name_value
        (parse name) named is_text refl h e

  analyze_named-IsRedundant :
      (observable : Map) (entry : Entry) (name_value : Option Value)
      → get_attribute observable (codes "name") ≡ name_value
      → entry.removable ≡ false
      → (analyze_named lib objects class profiles event observable entry name_value).removable
        ≡ true
      → IsRedundant observable
  analyze_named-IsRedundant observable entry none named h e = absurd (cc (h, e))
  analyze_named-IsRedundant observable entry (some v) named h e =
      analyze_name-IsRedundant observable entry v (as_string v) named refl h e

  analyze_map-IsRedundant :
      (entry : Entry) (observable : Option Map)
      → entry.removable ≡ false
      → (analyze_map lib objects class profiles event entry observable).removable ≡ true
      → (m : Map) × (observable ≡ some m) × IsRedundant m
  analyze_map-IsRedundant entry none h e = absurd (cc (h, e))
  analyze_map-IsRedundant entry (some m) h e = (
    m,
    refl,
    analyze_named-IsRedundant m (record entry { observable = some m })
        (get_attribute m (codes "name")) refl h e,
  )

  -- Only a redundant observable is removable: an object that has a text as its name, which parses to
  -- a path that does not start at the observables and that the class defines, and where the event
  -- shows at that path what the attribute `value` says.
  pub analyze_entry-IsRedundant :
      (value : Value)
      → (analyze_entry lib objects class profiles event value).removable ≡ true
      → (m : Map) × (as_map value ≡ some m) × IsRedundant m
  unfolding analyze_entry
  analyze_entry-IsRedundant value e = analyze_map-IsRedundant (entry_of value) (as_map value) refl e
