-- ===== src/Observable/Analysis/Entries.antt =====
-- An analysis has an entry for each element of the observables array.
use ocsf_toolkit.Common.{
  ℕ, zero, suc, ◌+◌, ◌≡◌, refl, sym, ap, ◌∙◌, List, [], ◌∷◌, ◌++◌, true, false, Option, some, Bytes,
  bytes_eq, codes, arith, length, length-append, append_assoc, get_elem?, map, leb,
}
use ocsf_toolkit.EventValue.{Value, Map}
use ocsf_toolkit.EventValue.Scalar.{NumberLibrary}
use ocsf_toolkit.EventValue.Object.{get_attribute}
use ocsf_toolkit.Schema.Items.{ClassDefinition, Objects}
use ocsf_toolkit.Observable.Collection.{Collection, new_collection}
use ocsf_toolkit.Observable.Analysis.{
  Entry, analyze_entry, advance, entries_of, analyze, new_analyzer,
}

get_elem?-middle :
    (before : List Value) (v : Value) (rest : List Value)
    → get_elem? (before ++ v ∷ rest) (length before) ≡ some v
get_elem?-middle [] v rest = refl
get_elem?-middle (b ∷ before) v rest = get_elem?-middle before v rest

at_end : (limit position : ℕ) → limit ≡ position + 0 → leb limit position ≡ true
at_end limit position e = ground arith

not_at_end : (limit position left : ℕ) → limit ≡ position + suc left → leb limit position ≡ false
not_at_end limit position left e = ground arith

found_at :
    (values before : List Value) (v : Value) (rest : List Value) (position : ℕ)
    → values ≡ before ++ v ∷ rest
    → position ≡ length before
    → get_elem? values position ≡ some v
found_at values before v rest position e at = rw (e, at) (get_elem?-middle before v rest)

module _ (lib : NumberLibrary) (objects : Objects) (class : Option ClassDefinition)
    (profiles : List Bytes) (event : Map) where
  abbrev pub analyze_all : List Value → List Entry
  analyze_all vs = map (analyze_entry lib objects class profiles event) vs

  entries_of-array :
      (source : Value) (c : Collection) (before rest : List Value) (position limit rounds : ℕ)
      → c.values ≡ before ++ rest
      → position ≡ length before
      → limit ≡ position + length rest
      → length rest + 2 ≡ rounds
      → entries_of lib objects class profiles event rounds
          (record { source = source; observables = some c; position = position; limit = limit })
        ≡ analyze_all rest
  unfolding entries_of advance
  entries_of-array source c before rest position limit zero e at within n = absurd (omega arith)
  entries_of-array source c before [] position limit (suc rounds) e at within n =
      rw (at_end limit position within) refl
  entries_of-array source c before (v ∷ rest) position limit (suc rounds) e at within n =
      rw
        (
          not_at_end limit position (length rest) within,
          found_at c.values before v rest position e at,
        )
        (ap (λ (l : List Entry). analyze_entry lib objects class profiles event v ∷ l)
          (entries_of-array source c (before ++ v ∷ []) rest (position + 1) limit rounds
            (e ∙ sym (append_assoc before (v ∷ []) rest))
            (omega (arith, at, length-append before (v ∷ []))) (omega arith) (omega arith)))

  -- An analysis of an event whose attribute `observables` is an array has exactly one entry for each
  -- element, in order: the entry of that element by itself.
  pub analyze-array :
      (value : Value) (c : Collection)
      → get_attribute event (codes "observables") ≡ some value
      → new_collection value ≡ some c
      → analyze lib objects class profiles event ≡ some (analyze_all c.values, some c)
  unfolding analyze new_analyzer
  analyze-array value c present is_array =
      rw (present, is_array)
        (ap (λ (es : List Entry). some (es, some c))
          (entries_of-array value c [] c.values 0 (length c.values) (length c.values + 2) refl refl
            (omega arith) refl))
