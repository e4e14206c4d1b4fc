-- ===== src/Processing/ObservableRemoval/Result.antt =====
-- What safe removal leaves of the observables.
use ocsf_toolkit.Common.{
  ℕ, suc, ◌+◌, ◌≡◌, ◌≢◌, inl, inr, refl, sym, ap, subst, ◌∙◌, List, [], ◌∷◌, Bool, true, false,
  Option, none, some, Bytes, bytes_eq, nat_eq, codes, same, same_iff, lookup, insert, erase,
  lookup-insert, lookup-erase, length, map, arith, Bool-cases,
}
use ocsf_toolkit.EventValue.{Value, Map, null, array, elements-items_of}
use ocsf_toolkit.EventValue.Scalar.{NumberLibrary}
use ocsf_toolkit.EventValue.Object.{get_attribute}
use ocsf_toolkit.EventPath
use ocsf_toolkit.EventPath.{EventPath, root, push_attribute, push_array_index}
use ocsf_toolkit.Schema.Items.{ClassDefinition, Objects}
use ocsf_toolkit.Observable.Collection.{Collection, new_collection, to_value}
use ocsf_toolkit.Observable.Collection.Filter.{
  removable_count, removable_count-length, Retained, filter_removable_ok, all_removed, none_removed,
}
use ocsf_toolkit.Observable.Analysis.{
  Entry, Problem, name_traversal_limited, values_of, analyze, analyze_entry,
}
use ocsf_toolkit.Observable.Analysis.Entries.{analyze_all, analyze-array}
use ocsf_toolkit.Processing.Context.{
  Context, IssueSuppression, suppresses_issue, add_processor_issue,
  add_processing_traversal_limit_issue,
}
use ocsf_toolkit.Processing.ObservableRemoval.{
  observable_issue_code, entry_to_diagnostic, report_entries, report_problem, report_code,
  unless_suppressed, removable_flags, remove_entries, remove_observables_safely, analyzed,
  remove_present, counted,
}

-- the two counters of observables agree
pub record SameCounts (c d : Context) : Type 0 where
  pub removed : d.observables_removed ≡ c.observables_removed
  pub retained : d.observables_retained ≡ c.observables_retained

unless_suppressed-SameCounts :
    (c : Context) (suppression : IssueSuppression) (code : ℕ)
    (diagnostic : Option (List (Bytes × Bytes)))
    → SameCounts c (unless_suppressed (suppresses_issue c suppression code) code diagnostic)
unfolding suppresses_issue add_processor_issue
unless_suppressed-SameCounts c suppression code none = ground arith
unless_suppressed-SameCounts c suppression code (some details) = ground arith

report_code-SameCounts :
    (c : Context) (suppression : IssueSuppression) (code : Option ℕ)
    (diagnostic : Option (List (Bytes × Bytes)))
    → SameCounts c (report_code c suppression code diagnostic)
report_code-SameCounts c suppression none diagnostic = record { removed = refl; retained = refl }
report_code-SameCounts c suppression (some code) diagnostic =
    unless_suppressed-SameCounts c suppression code diagnostic

report_problem-SameCounts :
    (c : Context) (suppression : IssueSuppression) (p : Problem) (path : EventPath)
    → SameCounts c (report_problem c suppression p path)
unfolding add_processing_traversal_limit_issue add_processor_issue
report_problem-SameCounts c suppression name_traversal_limited path = ground arith
report_problem-SameCounts c suppression p path =
    report_code-SameCounts c suppression (observable_issue_code p) (entry_to_diagnostic p path)

report_entries-SameCounts :
    (c : Context) (suppression : IssueSuppression) (entries : List Entry) (i : ℕ) (path : EventPath)
    → SameCounts c (report_entries c suppression entries i path)
unfolding report_entries
report_entries-SameCounts c suppression [] i path = record { removed = refl; retained = refl }
report_entries-SameCounts c suppression (entry ∷ rest) i path =
    let pushed = push_array_index path i in
    let now = report_problem c suppression entry.problem pushed in
    let first = report_problem-SameCounts c suppression entry.problem pushed in
    let later = report_entries-SameCounts now suppression rest (i + 1) (EventPath.pop pushed) in
    record { removed = later.removed ∙ first.removed; retained = later.retained ∙ first.retained }

-- the observables that a value of the attribute holds
abbrev pub held : Option Value → List Value
held none = []
held (some value) = values_of (new_collection value)

-- What a removal leaves of an event and of the context, where `values` were the observables and
-- `flags` says which of them were removable.
pub record Leaves (c : Context) (event : Map) (values : List Value) (flags : List Bool)
    (c' : Context) (event' : Map) : Type 0 where
  pub kept_ones : Retained values flags (held (lookup (codes "observables") event'))
  pub others : (name : Bytes) → codes "observables" ≢ name → lookup name event' ≡ lookup name event
  pub removed_count : c'.observables_removed ≡ c.observables_removed + removable_count flags
  pub retained_count :
      c'.observables_retained + removable_count flags ≡ c.observables_retained + length values

not_same : (a b : Bytes) → a ≢ b → same a b ≡ false
not_same a b h = ground (arith, same_iff a b)

erase-others :
    (key name : Bytes) (event : Map)
    → key ≢ name
    → lookup name (erase key event) ≡ lookup name event
erase-others key name event h = lookup-erase key name event ∙ rw (not_same key name h) refl

insert-others :
    (key name : Bytes) (value : Value) (event : Map)
    → key ≢ name
    → lookup name (insert key value event) ≡ lookup name event
insert-others key name value event h =
    lookup-insert key name value event ∙ rw (not_same key name h) refl

held-erase :
    (event : Map) → held (lookup (codes "observables") (erase (codes "observables") event)) ≡ []
held-erase event = ap held (lookup-erase (codes "observables") (codes "observables") event)

held-insert :
    (d : Collection) (event : Map)
    → held (lookup (codes "observables") (insert (codes "observables") (to_value d) event))
      ≡ d.values
unfolding new_collection
held-insert d event =
    ap held (lookup-insert (codes "observables") (codes "observables") (to_value d) event)
    ∙ elements-items_of d.values

counted-Leaves :
    (c : Context) (event event' : Map) (values : List Value) (flags : List Bool)
    → length flags ≡ length values
    → Retained values flags (held (lookup (codes "observables") event'))
    → ((name : Bytes) → codes "observables" ≢ name → lookup name event' ≡ lookup name event)
    → Leaves c event values flags (counted c (removable_count flags) (length values)) event'
counted-Leaves c event event' values flags lengths kept_ones others =
    let most = removable_count-length flags in
    record {
      kept_ones = kept_ones;
      others = others;
      removed_count = refl;
      retained_count = omega arith;
    }

remove_entries-Leaves :
    (c : Context) (event : Map) (entries : List Entry) (value : Value) (observables : Collection)
    → lookup (codes "observables") event ≡ some value
    → new_collection value ≡ some observables
    → length (removable_flags entries) ≡ length observables.values
    → (c' : Context) × (event' : Map) × (remove_entries c event entries (some observables)
        ≡ inr (c', event'))
      × Leaves c event observables.values (removable_flags entries) c' event'
unfolding remove_entries
remove_entries-Leaves c event entries value observables present is_array lengths =
    let flags = removable_flags entries in
    let count = removable_count flags in
    let values = observables.values in
    let now = counted c count (length values) in
    elim (Bool-cases (same count (length values))) [
      | inl all ↦ (
        now,
        erase (codes "observables") event,
        rw all refl,
        counted-Leaves c event (erase (codes "observables") event) values flags lengths
            (subst (Retained values flags) (sym (held-erase event))
              (all_removed values flags lengths ((same_iff count (length values)).0 all)))
            (λ name other. erase-others (codes "observables") name event other),
      )
      | inr some_left ↦ elim (Bool-cases (same count 0)) [
        | inl nothing ↦ (
          now,
          event,
          rw (some_left, nothing) refl,
          counted-Leaves c event event values flags lengths
              (subst (Retained values flags) (sym (rw (present, is_array) refl))
                (none_removed values flags lengths ((same_iff count 0).0 nothing)))
              (λ name other. refl),
        )
        | inr several ↦
            let (d, filtered, left_over, slice_type, element_type) =
              filter_removable_ok observables flags lengths in
            (
              now,
              insert (codes "observables") (to_value d) event,
              rw (some_left, several, filtered) refl,
              counted-Leaves c event (insert (codes "observables") (to_value d) event) values flags
                  lengths (subst (Retained values flags) (sym (held-insert d event)) left_over)
                  (λ name other. insert-others (codes "observables") name (to_value d) event other),
            )
      ]
    ]

same_start :
    (c d : Context) (event : Map) (values : List Value) (flags : List Bool) (c' : Context)
    (event' : Map)
    → SameCounts c d
    → Leaves d event values flags c' event'
    → Leaves c event values flags c' event'
same_start c d event values flags c' event' same_counts leaves = record {
  kept_ones = leaves.kept_ones;
  others = leaves.others;
  removed_count = omega (arith, leaves.removed_count, same_counts.removed);
  retained_count = omega (arith, leaves.retained_count, same_counts.retained);
}

length-map : {A B : Type 0} (f : A → B) (xs : List A) → length (map f xs) ≡ length xs
length-map f [] = refl
length-map f (x ∷ xs) = ap suc (length-map f xs)

module _ (lib : NumberLibrary) (objects : Objects) (class : Option ClassDefinition)
    (profiles : List Bytes) where
  abbrev pub flags_of : Map → List Value → List Bool
  flags_of event values = removable_flags (analyze_all lib objects class profiles event values)

  length-flags_of :
      (event : Map) (values : List Value) → length (flags_of event values) ≡ length values
  length-flags_of event values =
      length-map (λ (e : Entry). e.removable) (analyze_all lib objects class profiles event values)
      ∙ length-map (analyze_entry lib objects class profiles event) values

  attribute_of_array :
      (event : Map) (value : Value) (observables : Collection)
      → lookup (codes "observables") event ≡ some value
      → new_collection value ≡ some observables
      → get_attribute event (codes "observables") ≡ some value
  unfolding get_attribute new_collection
  attribute_of_array event (array container element vs) observables present is_array =
      rw present refl
  attribute_of_array event null observables present is_array = absurd cc
  attribute_of_array event value observables present is_array = absurd cc

  remove_array :
      (c : Context) (event : Map) (suppression : IssueSuppression) (value : Value)
      (observables : Collection)
      → lookup (codes "observables") event ≡ some value
      → new_collection value ≡ some observables
      → remove_observables_safely lib objects class profiles c event true suppression
        ≡ analyzed c suppression event (analyze lib objects class profiles event)
  unfolding remove_observables_safely new_collection
  remove_array c event suppression (array container element vs) observables present is_array =
      ap (λ (o : Option Value). remove_present lib objects class profiles c event suppression o)
        present
  remove_array c event suppression null observables present is_array = absurd cc
  remove_array c event suppression value observables present is_array = absurd cc

  -- Safe removal on an event whose attribute `observables` is an array always succeeds. It leaves, in
  -- order, exactly the observables whose entries are not removable (no attribute where none is left),
  -- changes no other attribute of the event, and counts each observable once, as removed or as
  -- retained.
  pub remove_observables_safely-Leaves :
      (c : Context) (event : Map) (suppression : IssueSuppression) (value : Value)
      (observables : Collection)
      → lookup (codes "observables") event ≡ some value
      → new_collection value ≡ some observables
      → (c' : Context) × (event' : Map) × (remove_observables_safely lib objects class profiles c
            event true suppression
          ≡ inr (c', event'))
        × Leaves c event observables.values (flags_of event observables.values) c' event'
  remove_observables_safely-Leaves c event suppression value observables present is_array =
      let entries = analyze_all lib objects class profiles event observables.values in
      let start = push_attribute root (codes "observables") in
      let now = report_entries c suppression entries 0 start in
      let (c', event', result, leaves) =
        remove_entries-Leaves now event entries value observables present is_array
          (length-flags_of event observables.values) in
      (
        c',
        event',
        remove_array c event suppression value observables present is_array
            ∙ (ap (analyzed c suppression event) (
                  analyze-array lib objects class profiles event value observables
                    (attribute_of_array event value observables present is_array) is_array)
                ∙ result),
        same_start c now event observables.values (flags_of event observables.values) c' event'
            (report_entries-SameCounts c suppression entries 0 start) leaves,
      )
