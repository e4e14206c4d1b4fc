-- ===== src/Processing/EnumRemoval/Accounting.antt =====
-- What the removal of an enum sibling counts.
use ocsf_toolkit.Common.{
  ℕ, ◌+◌, ◌≡◌, ◌⊎◌, inl, inr, refl, ◌∙◌, List, [], ◌∷◌, Bool, true, false, not, ◌&&◌, Option, none,
  some, arith, Bytes, bytes_eq, codes, same, lookup, erase, length, nat_eq, if◌then◌else◌,
}
use ocsf_toolkit.EventValue.{Value, Map, null, number, array_view, reads_elements}
use ocsf_toolkit.EventValue.Scalar.{NumberLibrary, as_string, is_99, as_integer_at}
use ocsf_toolkit.EventValue.Object.{get_attribute}
use ocsf_toolkit.Schema.{AttributeDefinition}
use ocsf_toolkit.Processing.Context.{
  Context, IssueSuppression, report, suppresses_issue, add_processor_issue,
}
use ocsf_toolkit.Processing.EnumLookup.{lookup_enum_definition, lookup_numeric_enum_definition}
use ocsf_toolkit.Processing.EnumRemoval.{
  Verdict, delete, keep_other, retain, judge, integral, scalar_verdict, array_verdict, verdict,
  apply_verdict, remove_enum_sibling_pair, record_enum_sibling_retention, sibling_value_mismatch,
  head_string, tail_of, if_delete, array_values, array_sibling, scalar_sibling, on_sibling,
}

-- the two counters of removal
abbrev pub counted : Context → ℕ × ℕ
counted c = (c.enum_siblings_removed, c.enum_siblings_retained)

report-counted :
    (c : Context) (s : IssueSuppression) (source code : ℕ) (details : List (Bytes × Bytes))
    → counted (report c s source code details) ≡ counted c
unfolding report suppresses_issue add_processor_issue
report-counted c s source code details = ground arith

module _ (lib : NumberLibrary) (attr : AttributeDefinition) where
  lookup-counted :
      (c : Context) (value : Value)
      → counted (lookup_enum_definition lib c attr value).0 ≡ counted c
  unfolding lookup_enum_definition lookup_numeric_enum_definition
  lookup-counted c (number t) = ground arith
  lookup-counted c _ = ground arith

  if_delete-counted :
      (c : Context) (v : Verdict) (continue stop : Context × Verdict)
      → counted continue.0 ≡ counted c
      → counted stop.0 ≡ counted c
      → counted (if_delete v continue stop).0 ≡ counted c
  if_delete-counted c delete continue stop h k = h
  if_delete-counted c keep_other continue stop h k = k
  if_delete-counted c (retain reason expected) continue stop h k = k

  array_verdict-counted :
      (c : Context) (force direct texts_direct : Bool) (values siblings : List Value)
      → counted (array_verdict lib c attr force direct texts_direct values siblings).0 ≡ counted c
  unfolding array_verdict
  array_verdict-counted c force direct texts_direct [] siblings = refl
  array_verdict-counted c force direct texts_direct (v ∷ vs) siblings =
      if_delete-counted c
        (judge force (lookup_enum_definition lib c attr v).1
          (integral attr && is_99 (as_integer_at lib direct v)) (head_string texts_direct siblings))
        (array_verdict lib (lookup_enum_definition lib c attr v).0 attr force direct texts_direct vs
          (tail_of siblings))
        (
          (lookup_enum_definition lib c attr v).0,
          judge force (lookup_enum_definition lib c attr v).1
              (integral attr && is_99 (as_integer_at lib direct v))
              (head_string texts_direct siblings),
        )
        (array_verdict-counted (lookup_enum_definition lib c attr v).0 force direct texts_direct vs
            (tail_of siblings)
          ∙ lookup-counted c v)
        (lookup-counted c v)

  if_counted :
      (c : Context) (b : Bool) (x y : Context × Verdict)
      → counted x.0 ≡ counted c
      → counted y.0 ≡ counted c
      → counted (if b then x else y).0 ≡ counted c
  if_counted c true x y h k = h
  if_counted c false x y h k = k

  array_values-counted :
      (c : Context) (force direct texts_direct : Bool) (siblings : List Value)
      (values : Option (List Value))
      → counted (array_values lib c attr force direct texts_direct siblings values).0 ≡ counted c
  array_values-counted c force direct texts_direct siblings none = refl
  array_values-counted c force direct texts_direct siblings (some values) =
      if_counted c (not force && not (same (length values) (length siblings)))
        (c, retain sibling_value_mismatch (codes "an equally sized caption array"))
        (array_verdict lib c attr force direct texts_direct values siblings) refl
        (array_verdict-counted c force direct texts_direct values siblings)

  array_sibling-counted :
      (c : Context) (force : Bool) (enum_value : Option Value) (texts_direct : Bool)
      (siblings : Option (List Value))
      → counted (array_sibling lib c attr force enum_value texts_direct siblings).0 ≡ counted c
  array_sibling-counted c force enum_value texts_direct none = refl
  array_sibling-counted c force none texts_direct (some siblings) = refl
  array_sibling-counted c force (some value) texts_direct (some siblings) =
      array_values-counted c force (reads_elements value) texts_direct siblings (array_view value)

  scalar_sibling-counted :
      (c : Context) (force : Bool) (enum_value : Option Value) (sibling : Option Bytes)
      → counted (scalar_sibling lib c attr force enum_value sibling).0 ≡ counted c
  unfolding scalar_verdict
  scalar_sibling-counted c force enum_value none = refl
  scalar_sibling-counted c force none (some sibling) = refl
  scalar_sibling-counted c force (some value) (some sibling) = lookup-counted c value

  verdict-counted :
      (c : Context) (item : Map) (enum_name : Bytes) (force : Bool) (sibling : Value)
      → counted (verdict lib c item enum_name attr force sibling).0 ≡ counted c
  unfolding verdict
  verdict-counted c item enum_name force sibling =
      if_counted c attr.is_array
        (array_sibling lib c attr force (get_attribute item enum_name) (reads_elements sibling)
          (array_view sibling))
        (scalar_sibling lib c attr force (get_attribute item enum_name) (as_string sibling))
        (array_sibling-counted c force (get_attribute item enum_name) (reads_elements sibling)
          (array_view sibling))
        (scalar_sibling-counted c force (get_attribute item enum_name) (as_string sibling))

  -- the two outcomes of removal
  abbrev pub Removed : Context → Map → Bytes → Context × Map → Type 0
  Removed c item sibling_name (c', item') =
      (item' ≡ erase sibling_name item)
      × (counted c' ≡ (c.enum_siblings_removed + 1, c.enum_siblings_retained))

  abbrev pub Retained : Context → Map → Context × Map → Type 0
  Retained c item (c', item') =
      (item' ≡ item) × (counted c' ≡ (c.enum_siblings_removed, c.enum_siblings_retained + 1))

  apply_verdict-counted :
      (c : Context) (item : Map) (enum_name sibling_name : Bytes) (s : IssueSuppression)
      (r : Context × Verdict)
      → counted r.0 ≡ counted c
      → let result = apply_verdict item enum_name sibling_name s r in
        Removed c item sibling_name result ⊎ Retained c item result
  unfolding record_enum_sibling_retention
  apply_verdict-counted c item enum_name sibling_name s (c', delete) h = inl (refl, ground arith)
  apply_verdict-counted c item enum_name sibling_name s (c', keep_other) h =
      inr (refl, ground arith)
  apply_verdict-counted c item enum_name sibling_name s (c', retain reason expected) h =
      inr (refl, report-counted _ s _ _ _ ∙ ground arith)

  on_sibling-counted :
      (c : Context) (item : Map) (enum_name sibling_name : Bytes) (force : Bool)
      (s : IssueSuppression) (sibling : Value)
      → let result = on_sibling lib c item enum_name attr sibling_name force s (some sibling) in
        Removed c item sibling_name result ⊎ Retained c item result
  on_sibling-counted c item enum_name sibling_name force s null = inl (refl, refl)
  on_sibling-counted c item enum_name sibling_name force s sibling =
      apply_verdict-counted c item enum_name sibling_name s
        (verdict lib c item enum_name attr force sibling)
        (verdict-counted c item enum_name force sibling)

  -- Removal, where the sibling is present, either erases it and counts one removal, or leaves the item as
  -- it is and counts one retention.
  pub remove_enum_sibling_pair-counted :
      (c : Context) (item : Map) (enum_name sibling_name : Bytes) (sibling : Value) (force : Bool)
      (s : IssueSuppression)
      → lookup sibling_name item ≡ some sibling
      → let result = remove_enum_sibling_pair lib c item enum_name attr sibling_name true force s in
        Removed c item sibling_name result ⊎ Retained c item result
  unfolding remove_enum_sibling_pair
  remove_enum_sibling_pair-counted c item enum_name sibling_name sibling force s there =
      rw there (on_sibling-counted c item enum_name sibling_name force s sibling)
