-- ===== src/Schema/NumericEnum/Build.antt =====
-- What the loop over the enum's map collects.
use ocsf_toolkit.Common.{
  ◌≡◌, refl, subst, sym, ap, ◌∙◌, List, [], ◌∷◌, ◌++◌, true, false, Option, none, some, arith,
  Bytes, bytes_eq, same, same_iff, lookup, if◌then◌else◌, Bool-cases, Option-cases, ◌⊎◌, inl, inr,
}
use ocsf_toolkit.Common.Int.{ℤ, pos, int_eq}
use ocsf_toolkit.Schema.NumericEnum.{
  EnumDefinition, numeric_enum_definition, sort, canonical_value, Collected, collect_one, collect,
  build_index,
}
use ocsf_toolkit.Schema.NumericEnum.Lookup.{
  DistinctKeys, DistinctValues, or_else, or_else-none, lookup-sort, DistinctValues-sort,
  lookup-layout_of,
}

-- `parse_int` reads back what `format_int` writes of `v`, as strconv documents for a 64-bit integer.
abbrev pub ReadsBack : (Bytes → Option ℤ) → (ℤ → Bytes) → ℤ → Type 0
ReadsBack parse_int format_int v = parse_int (format_int v) ≡ some v

lookup-concat :
    (v w : ℤ) (d : EnumDefinition) (l : List (ℤ × EnumDefinition))
    → lookup v (l ++ (w, d) ∷ []) ≡ or_else (lookup v l) (if same w v then some d else none)
lookup-concat v w d [] = refl
lookup-concat v w d ((u, e) ∷ l) = ground (arith, lookup-concat v w d l)

DistinctValues-concat :
    (w : ℤ) (d : EnumDefinition) (l : List (ℤ × EnumDefinition))
    → lookup w l ≡ none
    → DistinctValues l
    → DistinctValues (l ++ (w, d) ∷ [])
DistinctValues-concat w d [] h k = (refl, tt)
DistinctValues-concat w d ((u, e) ∷ l) h k =
    ground (arith, same_iff u w, same_iff w u, lookup-concat u w d l, DistinctValues-concat w d l)

module _ (parse_int : Bytes → Option ℤ) (format_int : ℤ → Bytes) where
  abbrev value_of : Bytes → Option ℤ
  value_of = canonical_value parse_int format_int

  -- A canonical key is the text of its value.
  key_of_value : (key : Bytes) (v : ℤ) → value_of key ≡ some v → key ≡ format_int v
  unfolding canonical_value
  key_of_value key v h = elim (Option-cases (parse_int key)) [
    | inl e ↦ absurd (cc)
    | inr (w, e) ↦ ground (arith, same_iff (format_int w) key)
  ]

  value_of-format : (v : ℤ) → ReadsBack parse_int format_int v → value_of (format_int v) ≡ some v
  unfolding canonical_value
  value_of-format v h = ground (arith, same_iff (format_int v) (format_int v))

  abbrev keep :
      Bytes × EnumDefinition → Collected parse_int format_int → Collected parse_int format_int
  keep (key, d) c = collect_one parse_int format_int (value_of key) d c

  found-keep :
      (v : ℤ) (key : Bytes) (d : EnumDefinition) (c : Collected parse_int format_int)
      → (same v (pos 99) ≡ false)
      → ReadsBack parse_int format_int v
      → lookup v (keep (key, d) c).found
        ≡ or_else (lookup v c.found) (if same key (format_int v) then some d else none)
  unfolding collect_one
  found-keep v key d c ne back = elim (Option-cases (value_of key)) [
    | inl e ↦ ground (
      arith,
      same_iff key (format_int v),
      value_of-format v back,
      or_else-none (lookup v c.found),
    )
    | inr (w, e) ↦ ground (
      arith,
      same_iff key (format_int v),
      same_iff w v,
      same_iff w (pos 99),
      same_iff v (pos 99),
      value_of-format v back,
      key_of_value key w e,
      lookup-concat v w d c.found,
      or_else-none (lookup v c.found),
    )
  ]

  or_else_assoc :
      (a b c : Option EnumDefinition) → or_else (or_else a b) c ≡ or_else a (or_else b c)
  or_else_assoc none b c = refl
  or_else_assoc (some d) b c = refl

  found-collect :
      (v : ℤ) (enum : List (Bytes × EnumDefinition)) (c : Collected parse_int format_int)
      → (same v (pos 99) ≡ false)
      → ReadsBack parse_int format_int v
      → lookup v (collect parse_int format_int enum c).found
        ≡ or_else (lookup v c.found) (lookup (format_int v) enum)
  unfolding collect
  found-collect v [] c ne back = sym (or_else-none (lookup v c.found))
  found-collect v ((key, d) ∷ rest) c ne back = ground (
    arith,
    found-collect v rest (keep (key, d) c) ne back,
    found-keep v key d c ne back,
    or_else_assoc (lookup v c.found) (if same key (format_int v) then some d else none)
        (lookup (format_int v) rest),
  )

  other-collect :
      (enum : List (Bytes × EnumDefinition)) (c : Collected parse_int format_int)
      → ReadsBack parse_int format_int (pos 99)
      → DistinctKeys enum
      → (collect parse_int format_int enum c).other
        ≡ or_else (lookup (format_int (pos 99)) enum) c.other
  unfolding collect collect_one
  other-collect [] c back h = refl
  other-collect ((key, d) ∷ rest) c back h = elim (Option-cases (value_of key)) [
    | inl e ↦ ground (
      arith,
      same_iff key (format_int (pos 99)),
      value_of-format (pos 99) back,
      other-collect rest (keep (key, d) c) back h.1,
    )
    | inr (w, e) ↦ ground (
      arith,
      same_iff key (format_int (pos 99)),
      same_iff w (pos 99),
      value_of-format (pos 99) back,
      key_of_value key w e,
      other-collect rest (keep (key, d) c) back h.1,
    )
  ]

  found_new :
      (w : ℤ) (d : EnumDefinition) (c : Collected parse_int format_int)
      → same w (pos 99) ≡ false
      → (collect_one parse_int format_int (some w) d c).found ≡ c.found ++ (w, d) ∷ []
  unfolding collect_one
  found_new w d c e = rw e

  found_99 :
      (w : ℤ) (d : EnumDefinition) (c : Collected parse_int format_int)
      → same w (pos 99) ≡ true
      → (collect_one parse_int format_int (some w) d c).found ≡ c.found
  unfolding collect_one
  found_99 w d c e = rw e

  -- An entry that is added has a value that no entry has, and whose text no later key is.
  abbrev Apart : List (ℤ × EnumDefinition) → List (Bytes × EnumDefinition) → Type 0
  Apart found enum = (w : ℤ) → (lookup w found ≡ none) ⊎ (lookup (format_int w) enum ≡ none)

  Apart-keep :
      (key : Bytes) (d : EnumDefinition) (rest : List (Bytes × EnumDefinition))
      (c : Collected parse_int format_int)
      → lookup key rest ≡ none
      → Apart c.found ((key, d) ∷ rest)
      → (o : Option ℤ) → value_of key ≡ o
      → Apart (collect_one parse_int format_int o d c).found rest
  unfolding collect_one
  Apart-keep key d rest c h apart none e u = ground (arith, apart u)
  Apart-keep key d rest c h apart (some w) e u = ground (
    arith,
    apart u,
    key_of_value key w e,
    same_iff key (format_int u),
    same_iff w u,
    lookup-concat u w d c.found,
  )

  DistinctValues-keep :
      (key : Bytes) (d : EnumDefinition) (rest : List (Bytes × EnumDefinition))
      (c : Collected parse_int format_int)
      → DistinctValues c.found
      → Apart c.found ((key, d) ∷ rest)
      → (o : Option ℤ) → value_of key ≡ o
      → DistinctValues (collect_one parse_int format_int o d c).found
  unfolding collect_one
  DistinctValues-keep key d rest c k apart none e = k
  DistinctValues-keep key d rest c k apart (some w) e = elim (Bool-cases (same w (pos 99))) [
    | inl is ↦ subst DistinctValues (sym (found_99 w d c is)) k
    | inr ne ↦ subst DistinctValues (sym (found_new w d c ne)) (
        DistinctValues-concat w d c.found
          (ground (arith, apart w, key_of_value key w e, same_iff key (format_int w))) k)
  ]

  DistinctValues-collect :
      (enum : List (Bytes × EnumDefinition)) (c : Collected parse_int format_int)
      → DistinctKeys enum
      → DistinctValues c.found
      → Apart c.found enum
      → DistinctValues (collect parse_int format_int enum c).found
  unfolding collect
  DistinctValues-collect [] c h k apart = k
  DistinctValues-collect ((key, d) ∷ rest) c h k apart =
      DistinctValues-collect rest (keep (key, d) c) h.1
        (DistinctValues-keep key d rest c k apart (value_of key) refl)
        (Apart-keep key d rest c h.0 apart (value_of key) refl)

  -- For an enum with distinct keys and a value whose decimal text parses back to it, the index built
  -- from the enum finds exactly the definition that the enum holds under that text, whether the values
  -- are laid out dense, scanned or in a map, and for 99 with its own field.
  pub numeric_enum_definition-build_index :
      (enum : List (Bytes × EnumDefinition)) (v : ℤ)
      → DistinctKeys enum
      → ReadsBack parse_int format_int v
      → numeric_enum_definition (some (build_index parse_int format_int enum)) v
        ≡ lookup (format_int v) enum
  unfolding numeric_enum_definition build_index
  numeric_enum_definition-build_index enum v h back =
      let c : Collected parse_int format_int =
        collect parse_int format_int enum
          (record { found = []; other = none; all_canonical = true }) in
      let distinct : DistinctValues c.found =
        DistinctValues-collect enum (record { found = []; other = none; all_canonical = true }) h tt
          (λ w. inl refl) in
      elim (Bool-cases (same v (pos 99))) [
        | inl e ↦
            let q = (same_iff v (pos 99)).0 e in
            rw e (
              other-collect enum (record { found = []; other = none; all_canonical = true })
                (subst (ReadsBack parse_int format_int) q back) h
              ∙ (or_else-none (lookup (format_int (pos 99)) enum)
                  ∙ ap (λ (u : ℤ). lookup (format_int u) enum) (sym q)))
        | inr e ↦ rw e (
            lookup-layout_of v (sort c.found) (DistinctValues-sort c.found distinct)
            ∙ (lookup-sort v c.found distinct
                ∙ found-collect v enum (record { found = []; other = none; all_canonical = true }) e
                    back))
      ]

  all_canonical-collect :
      (enum : List (Bytes × EnumDefinition)) (c : Collected parse_int format_int)
      → c.all_canonical ≡ false
      → (collect parse_int format_int enum c).all_canonical ≡ false
  unfolding collect collect_one
  all_canonical-collect [] c h = h
  all_canonical-collect ((key, d) ∷ rest) c h =
      all_canonical-collect rest (keep (key, d) c) (ground (arith, Option-cases (value_of key)))

  canonical-collect :
      (enum : List (Bytes × EnumDefinition)) (c : Collected parse_int format_int) (key : Bytes)
      (d : EnumDefinition)
      → (collect parse_int format_int enum c).all_canonical ≡ true
      → lookup key enum ≡ some d
      → (v : ℤ) × (value_of key ≡ some v)
  unfolding collect collect_one
  canonical-collect [] c key d h e = cc
  canonical-collect ((k, b) ∷ rest) c key d h e = elim (Bool-cases (same k key)) [
    | inl is ↦ elim (Option-cases (value_of key)) [
      | inr found ↦ found
      | inl bad ↦
          absurd
            (cc (h, all_canonical-collect rest (keep (k, b) c) (rw ((same_iff k key).0 is, bad))))
    ]
    | inr ne ↦ canonical-collect rest (keep (k, b) c) key d h (rw ne at e)
  ]

  canonical-build_index :
      (enum : List (Bytes × EnumDefinition)) (key : Bytes) (d : EnumDefinition)
      → (build_index parse_int format_int enum).keys_canonical ≡ true
      → lookup key enum ≡ some d
      → (v : ℤ) × (value_of key ≡ some v)
  unfolding build_index
  canonical-build_index enum =
      canonical-collect enum (record { found = []; other = none; all_canonical = true })

  value_of-some :
      (key : Bytes) (v : ℤ)
      → value_of key ≡ some v
      → (parse_int key ≡ some v) × (format_int v ≡ key)
  unfolding canonical_value
  value_of-some key v h = elim (Option-cases (parse_int key)) [
    | inl e ↦ absurd (cc)
    | inr (w, e) ↦ ground (arith, same_iff (format_int w) key)
  ]

  -- With distinct keys that are all canonical, an entry's key spells a value, and the index finds the
  -- entry under that value.
  pub canonical_entry :
      (enum : List (Bytes × EnumDefinition)) (key : Bytes) (d : EnumDefinition)
      → DistinctKeys enum
      → (build_index parse_int format_int enum).keys_canonical ≡ true
      → lookup key enum ≡ some d
      → (v : ℤ) × (parse_int key ≡ some v)
        × (numeric_enum_definition (some (build_index parse_int format_int enum)) v ≡ some d)
  canonical_entry enum key d h canonical e =
      let (v, is) = canonical-build_index enum key d canonical e in
      let (parsed, written) = value_of-some key v is in
      (
        v,
        parsed,
        numeric_enum_definition-build_index enum v h (ap parse_int written ∙ parsed)
            ∙ (ap (λ (k : Bytes). lookup k enum) written ∙ e),
      )
