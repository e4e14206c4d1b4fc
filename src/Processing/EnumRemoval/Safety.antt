-- ===== src/Processing/EnumRemoval/Safety.antt =====
-- What removal deletes, and what it keeps.
use ocsf_toolkit.Common.{
  ◌≡◌, ◌≢◌, ◌↔◌, ◌⊎◌, inl, inr, refl, sym, ◌∙◌, List, [], ◌∷◌, Bool, true, false, not, ◌&&◌, Option,
  some, arith, Bytes, bytes_eq, codes, same, same_iff, lookup, erase, length, nat_eq, if◌then◌else◌,
  Option-cases,
}
use ocsf_toolkit.EventValue.{Value, Map, null, text, array_view, reads_elements}
use ocsf_toolkit.EventValue.Scalar.{NumberLibrary, is_99, as_integer, is_other_enum_value}
use ocsf_toolkit.EventValue.Object.{get_attribute}
use ocsf_toolkit.Schema.{AttributeDefinition}
use ocsf_toolkit.Schema.NumericEnum.{EnumDefinition}
use ocsf_toolkit.Processing.Context.{Context, IssueSuppression}
use ocsf_toolkit.Processing.EnumLookup.{
  EnumLookup, found, value_unusable, definition_missing, lookup_enum_definition,
}
use ocsf_toolkit.Processing.EnumLookup.Independence.{
  IsCompiled, enum_meaning, lookup_enum_definition-enum_meaning,
}
use ocsf_toolkit.Processing.EnumRemoval.{
  Verdict, delete, keep_other, retain, judge, integral, scalar_verdict, array_verdict, verdict,
  apply_verdict, on_sibling, remove_enum_sibling_pair, sibling_value_mismatch, head_string, tail_of,
  if_delete,
}

module _ (lib : NumberLibrary) (attr : AttributeDefinition) where
  -- A sibling text that the schema and the enum value determine: the value is not the source-specific
  -- 99, its enum defines it, and the text is the caption.
  pub record IsRedundant (value : Value) (sibling : Bytes) : Type 0 where
    pub definition : EnumDefinition
    pub defined : enum_meaning lib attr value ≡ found definition
    pub captioned : sibling ≡ definition.caption
    pub specific : integral attr && is_other_enum_value lib value ≡ false

  judge-delete :
      (l : EnumLookup) (other : Bool) (sibling : Bytes)
      → judge false l other (some sibling) ≡ delete
      → (d : EnumDefinition) × (l ≡ found d) × (sibling ≡ d.caption) × (other ≡ false)
  judge-delete (found d) true sibling h = cc
  judge-delete (found d) false sibling h =
      (d, refl, ground (arith, same_iff sibling d.caption), refl)
  judge-delete value_unusable other sibling h = cc
  judge-delete definition_missing true sibling h = cc
  judge-delete definition_missing false sibling h = cc

  -- Safe removal deletes a sibling text exactly when it is redundant.
  scalar_verdict-delete :
      (c : Context) (value : Value) (sibling : Bytes)
      → IsCompiled lib attr
      → ((scalar_verdict lib c attr false value sibling).1 ≡ delete) ↔ IsRedundant value sibling
  unfolding scalar_verdict
  scalar_verdict-delete c value sibling h = (forth, back)
    where
      same_lookup : (lookup_enum_definition lib c attr value).1 ≡ enum_meaning lib attr value
      same_lookup = lookup_enum_definition-enum_meaning lib attr c value h

      forth : (scalar_verdict lib c attr false value sibling).1 ≡ delete → IsRedundant value sibling
      forth e =
          let (d, defined, captioned, specific) =
            judge-delete (lookup_enum_definition lib c attr value).1
              (integral attr && is_other_enum_value lib value) sibling e in
          record {
            definition = d;
            defined = sym same_lookup ∙ defined;
            captioned = captioned;
            specific = specific;
          }

      back : IsRedundant value sibling → (scalar_verdict lib c attr false value sibling).1 ≡ delete
      back r =
          rw (same_lookup ∙ r.defined, r.specific)
            (ground (arith, r.captioned, same_iff sibling r.definition.caption))

  apply_verdict-kept :
      (item : Map) (enum_name sibling_name : Bytes) (s : IssueSuppression) (r : Context × Verdict)
      → r.1 ≢ delete
      → (apply_verdict item enum_name sibling_name s r).1 ≡ item
  apply_verdict-kept item enum_name sibling_name s (c, delete) h = absurd (h refl)
  apply_verdict-kept item enum_name sibling_name s (c, keep_other) h = refl
  apply_verdict-kept item enum_name sibling_name s (c, retain reason expected) h = refl

  pub apply_verdict-delete :
      (item : Map) (enum_name sibling_name : Bytes) (s : IssueSuppression) (r : Context × Verdict)
      → r.1 ≡ delete
      → (apply_verdict item enum_name sibling_name s r).1 ≡ erase sibling_name item
  apply_verdict-delete item enum_name sibling_name s (c, delete) h = refl
  apply_verdict-delete item enum_name sibling_name s (c, keep_other) h = cc
  apply_verdict-delete item enum_name sibling_name s (c, retain reason expected) h = cc

  -- what safe removal may do
  abbrev pub Settled : Context → Map → Bytes → Bytes → Bytes → Value → IssueSuppression → Type 0
  Settled c item enum_name sibling_name sibling value s =
      let item' =
        (remove_enum_sibling_pair lib c item enum_name attr sibling_name true false s).1 in
      ((item' ≡ erase sibling_name item) × IsRedundant value sibling)
      ⊎ ((item' ≡ item) × (¬ IsRedundant value sibling))

  delete_or : (v : Verdict) → (v ≡ delete) ⊎ (v ≢ delete)
  delete_or delete = inl refl
  delete_or keep_other = inr (λ e. cc)
  delete_or (retain reason expected) = inr (λ e. cc)

  -- Safe removal of a scalar pair on a compiled attribute, where the sibling is a text and the enum
  -- attribute is present: either the sibling is redundant and erased, or it is not redundant and the
  -- item stays as it is.
  pub remove_enum_sibling_pair-scalar :
      (c : Context) (item : Map) (enum_name sibling_name sibling : Bytes) (value : Value)
      (s : IssueSuppression)
      → IsCompiled lib attr
      → attr.is_array ≡ false
      → lookup sibling_name item ≡ some (text sibling)
      → get_attribute item enum_name ≡ some value
      → Settled c item enum_name sibling_name sibling value s
  unfolding remove_enum_sibling_pair verdict
  remove_enum_sibling_pair-scalar c item enum_name sibling_name sibling value s h scalar there
        enum =
      let exactly = scalar_verdict-delete c value sibling h in
      elim (delete_or (scalar_verdict lib c attr false value sibling).1) [
        | inl e ↦ inl (
          simp (there, scalar, enum)
              (apply_verdict-delete item enum_name sibling_name s
                (scalar_verdict lib c attr false value sibling) e),
          exactly.0 e,
        )
        | inr n ↦ inr (
          simp (there, scalar, enum)
              (apply_verdict-kept item enum_name sibling_name s
                (scalar_verdict lib c attr false value sibling) n),
          λ r. n (exactly.1 r),
        )
      ]

  -- An element of an enum array that holds source-specific data, by its own value.
  abbrev pub AnyOther : List Value → Type 0
  AnyOther [] = ⊥
  AnyOther (v ∷ vs) = (integral attr && is_99 (as_integer lib v) ≡ true) ⊎ AnyOther vs

  judge-other :
      (force : Bool) (l : EnumLookup) (sibling : Option Bytes) → judge force l true sibling ≢ delete
  judge-other force (found d) sibling = λ e. cc
  judge-other force value_unusable sibling = λ e. cc
  judge-other force definition_missing sibling = λ e. cc

  if_delete-ne :
      (v : Verdict) (continue : Context × Verdict) (c : Context)
      → (v ≢ delete) ⊎ (continue.1 ≢ delete)
      → (if_delete v continue (c, v)).1 ≢ delete
  if_delete-ne delete continue c (inl n) = absurd (n refl)
  if_delete-ne delete continue c (inr n) = n
  if_delete-ne keep_other continue c n = λ e. cc
  if_delete-ne (retain reason expected) continue c n = λ e. cc

  array_verdict-other :
      (c : Context) (force texts_direct : Bool) (values siblings : List Value)
      → AnyOther values
      → (array_verdict lib c attr force true texts_direct values siblings).1 ≢ delete
  unfolding array_verdict
  array_verdict-other c force texts_direct [] siblings h = absurd h
  array_verdict-other c force texts_direct (v ∷ vs) siblings (inl e) =
      if_delete-ne
        (judge force (lookup_enum_definition lib c attr v).1
          (integral attr && is_99 (as_integer lib v)) (head_string texts_direct siblings))
        (array_verdict lib (lookup_enum_definition lib c attr v).0 attr force true texts_direct vs
          (tail_of siblings))
        (lookup_enum_definition lib c attr v).0
        (inl (
          rw e (
            judge-other force (lookup_enum_definition lib c attr v).1
              (head_string texts_direct siblings))))
  array_verdict-other c force texts_direct (v ∷ vs) siblings (inr there) =
      if_delete-ne
        (judge force (lookup_enum_definition lib c attr v).1
          (integral attr && is_99 (as_integer lib v)) (head_string texts_direct siblings))
        (array_verdict lib (lookup_enum_definition lib c attr v).0 attr force true texts_direct vs
          (tail_of siblings))
        (lookup_enum_definition lib c attr v).0
        (inr (
          array_verdict-other (lookup_enum_definition lib c attr v).0 force texts_direct vs
            (tail_of siblings) there))

  if_ne :
      (b : Bool) (x y : Context × Verdict)
      → x.1 ≢ delete
      → y.1 ≢ delete
      → (if b then x else y).1 ≢ delete
  if_ne true x y h k = h
  if_ne false x y h k = k

  on_sibling-value :
      (c : Context) (item : Map) (enum_name sibling_name : Bytes) (force : Bool)
      (s : IssueSuppression) (sibling : Value)
      → sibling ≢ null
      → on_sibling lib c item enum_name attr sibling_name force s (some sibling)
        ≡ apply_verdict item enum_name sibling_name s
            (verdict lib c item enum_name attr force sibling)
  on_sibling-value c item enum_name sibling_name force s null h = absurd (h refl)
  on_sibling-value c item enum_name sibling_name force s _ h = refl

  -- the verdict on an array that holds the value 99
  verdict-other :
      (c : Context) (item : Map) (enum_name : Bytes) (force : Bool) (enum_value sibling : Value)
      (values : List Value)
      → attr.is_array ≡ true
      → get_attribute item enum_name ≡ some enum_value
      → array_view enum_value ≡ some values
      → reads_elements enum_value ≡ true
      → AnyOther values
      → (verdict lib c item enum_name attr force sibling).1 ≢ delete
  unfolding verdict
  verdict-other c item enum_name force enum_value sibling values array enum viewed read other =
      elim (Option-cases (array_view sibling)) [
        | inl e ↦ simp (array, enum, e) (λ q. cc)
        | inr (siblings, e) ↦
            simp (array, enum, viewed, read, e)
              (if_ne (not force && not (same (length values) (length siblings)))
                (c, retain sibling_value_mismatch (codes "an equally sized caption array"))
                (array_verdict lib c attr force true (reads_elements sibling) values siblings)
                (λ q. cc)
                (array_verdict-other c force (reads_elements sibling) values siblings other))
      ]

  -- Where an enum array of an integral attribute holds the source-specific value 99, the accessors
  -- `AsIntegerAt` and `AsLongAt` read the elements of the array's Go type, and the sibling is present and
  -- not null, neither safe nor forced removal changes the item.
  pub remove_enum_sibling_pair-other :
      (c : Context) (item : Map) (enum_name sibling_name : Bytes) (enum_value sibling : Value)
      (values : List Value) (force : Bool) (s : IssueSuppression)
      → attr.is_array ≡ true
      → lookup sibling_name item ≡ some sibling
      → sibling ≢ null
      → get_attribute item enum_name ≡ some enum_value
      → array_view enum_value ≡ some values
      → reads_elements enum_value ≡ true
      → AnyOther values
      → (remove_enum_sibling_pair lib c item enum_name attr sibling_name true force s).1 ≡ item
  unfolding remove_enum_sibling_pair
  remove_enum_sibling_pair-other c item enum_name sibling_name enum_value sibling values force s
        array there present enum viewed read other =
      simp (there, on_sibling-value c item enum_name sibling_name force s sibling present)
        (apply_verdict-kept item enum_name sibling_name s
          (verdict lib c item enum_name attr force sibling)
          (verdict-other c item enum_name force enum_value sibling values array enum viewed read
            other))
