-- ===== src/Processing/EnumLookup/Independence.antt =====
-- Trying the exact spelling first never changes what a numeric lookup finds.
use ocsf_toolkit.Common.{
  ◌≡◌, refl, sym, ap, ◌∙◌, List, true, ◌||◌, Option, none, some, arith, Bytes, bytes_eq, codes,
  same, lookup, if◌then◌else◌, Option-cases, inl, inr,
}
use ocsf_toolkit.EventValue.{Value, number}
use ocsf_toolkit.EventValue.Scalar.{NumberLibrary, as_string, as_integer, format_scalar}
use ocsf_toolkit.Schema.{AttributeDefinition, initialized_index, initialize_numeric_enums}
use ocsf_toolkit.Schema.NumericEnum.{
  EnumDefinition, NumericEnumIndex, build_index, numeric_enum_keys_canonical,
}
use ocsf_toolkit.Schema.NumericEnum.Lookup.{DistinctKeys}
use ocsf_toolkit.Schema.NumericEnum.Build.{canonical_entry}
use ocsf_toolkit.Processing.Context.{Context}
use ocsf_toolkit.Processing.EnumLookup.{
  EnumLookup, found, enum_entries, in_enum, in_index, learn_style, exact_spelling,
  lookup_numeric_enum_definition, lookup_enum_definition,
}

-- The attribute went through `initializeItemNumericEnums`, and the keys of its enum differ.
-- `json.Number.Int64` is `strconv.ParseInt` on the text, so one function of the library stands for
-- both.
pub record IsCompiled (lib : NumberLibrary) (attr : AttributeDefinition) : Type 0 where
  pub distinct : DistinctKeys (enum_entries attr.enum)
  pub initialized :
      attr.numeric_enums
      ≡ (initialize_numeric_enums lib.number_int64 lib.format_int
          (record attr { numeric_enums = none })).numeric_enums

-- an index with canonical keys was built from the enum
built :
    (lib : NumberLibrary) (a : AttributeDefinition) (enum : Option (List (Bytes × EnumDefinition)))
    (index : Option NumericEnumIndex)
    → index ≡ initialized_index lib.number_int64 lib.format_int a enum none
    → numeric_enum_keys_canonical index ≡ true
    → index ≡ some (build_index lib.number_int64 lib.format_int (enum_entries enum))
unfolding initialized_index
built lib a none index h canonical = ground arith
built lib a (some enum) index h canonical = ground arith

module _ (lib : NumberLibrary) (attr : AttributeDefinition) where
  -- the definition that a value has by its number alone
  abbrev pub by_value : Value → EnumLookup
  by_value value = in_index attr (as_integer lib value)

  exact_spelling-by_value :
      (c : Context) (text : Bytes) (d : EnumDefinition)
      → IsCompiled lib attr
      → exact_spelling c attr text ≡ some d
      → by_value (number text) ≡ found d
  unfolding as_integer initialize_numeric_enums
  exact_spelling-by_value c text d h e =
      let (listed, canonical) = parts in
      let indexed_by =
        built lib (record attr { numeric_enums = none }) attr.enum attr.numeric_enums h.initialized
          canonical in
      let (v, parsed, indexed) =
        canonical_entry lib.number_int64 lib.format_int (enum_entries attr.enum) text d h.distinct
          (ap numeric_enum_keys_canonical (sym indexed_by) ∙ canonical) listed in
      rw (parsed, indexed_by, indexed) refl
    where
      parts :
          (lookup text (enum_entries attr.enum) ≡ some d)
          × (numeric_enum_keys_canonical attr.numeric_enums ≡ true)
      parts = ground arith

  -- On a compiled attribute, a numeric enum lookup finds what the value's number finds, whatever number
  -- spellings the event had before.
  pub lookup_numeric-by_value :
      (c : Context) (value : Value)
      → IsCompiled lib attr
      → (lookup_numeric_enum_definition lib c attr value).1 ≡ by_value value
  unfolding lookup_numeric_enum_definition
  lookup_numeric-by_value c (number text) h =
      elim (Option-cases (exact_spelling (learn_style c text) attr text)) [
        | inl e ↦ rw e
        | inr (d, e) ↦ rw e (sym (exact_spelling-by_value (learn_style c text) text d h e))
      ]
  lookup_numeric-by_value c _ h = refl

  -- what a lookup finds, with no context
  unfoldable pub enum_meaning : Value → EnumLookup
  enum_meaning value =
      if same attr.primitive_type (codes "string_t")
      then in_enum attr (as_string value)
      else if same attr.primitive_type (codes "integer_t")
          || same attr.primitive_type (codes "long_t")
      then by_value value
      else in_enum attr (format_scalar lib value)

  pub lookup_enum_definition-enum_meaning :
      (c : Context) (value : Value)
      → IsCompiled lib attr
      → (lookup_enum_definition lib c attr value).1 ≡ enum_meaning value
  unfolding lookup_enum_definition enum_meaning
  lookup_enum_definition-enum_meaning c value h = ground (arith, lookup_numeric-by_value c value h)
