-- ===== src/Processing/EnumAddition/RoundTrip.antt =====
-- The addition of an enum sibling and its safe removal.
use ocsf_toolkit.Common.{
  ◌≡◌, ◌≢◌, inl, inr, refl, ap, ◌∙◌, [], true, false, ◌&&◌, none, some, arith, Bytes, bytes_eq,
  same_iff, lookup, insert, erase, lookup-insert, lookup-erase,
}
use ocsf_toolkit.EventValue.{Value, Map, text}
use ocsf_toolkit.EventValue.Scalar.{NumberLibrary, is_other_enum_value}
use ocsf_toolkit.EventValue.Object.{get_attribute, present}
use ocsf_toolkit.Schema.{AttributeDefinition}
use ocsf_toolkit.Schema.NumericEnum.{EnumDefinition}
use ocsf_toolkit.Processing.Context.{Context, IssueSuppression}
use ocsf_toolkit.Processing.EnumLookup.{found}
use ocsf_toolkit.Processing.EnumLookup.Independence.{
  IsCompiled, enum_meaning, lookup_enum_definition-enum_meaning,
}
use ocsf_toolkit.Processing.EnumRemoval.{integral, remove_enum_sibling_pair}
use ocsf_toolkit.Processing.EnumRemoval.Safety.{IsRedundant, remove_enum_sibling_pair-scalar}
use ocsf_toolkit.Processing.EnumAddition.{add_enum_sibling, caption_of}

module _ (lib : NumberLibrary) (attr : AttributeDefinition) where
  pub caption_of-found :
      (d : EnumDefinition) → d.caption ≢ [] → caption_of (found d) ≡ some d.caption
  caption_of-found d h = ground (arith, same_iff d.caption [])

  -- Adding where the sibling is absent writes the caption of what the value means.
  pub add_enum_sibling-absent :
      (c : Context) (item : Map) (value : Value) (enum_name sibling_name : Bytes)
      (d : EnumDefinition) (s : IssueSuppression)
      → IsCompiled lib attr
      → attr.sibling ≡ some sibling_name
      → get_attribute item sibling_name ≡ none
      → enum_meaning lib attr value ≡ found d
      → d.caption ≢ []
      → (add_enum_sibling lib c item value enum_name attr true true false s).1
        ≡ insert sibling_name (text d.caption) item
  unfolding add_enum_sibling
  add_enum_sibling-absent c item value enum_name sibling_name d s h named absent meaning caption =
      simp (
        named,
        absent,
        lookup_enum_definition-enum_meaning lib attr c value h ∙ meaning,
        caption_of-found d caption,
      )

  pub get_attribute-insert :
      (item : Map) (k j : Bytes) (v : Value)
      → k ≢ j
      → get_attribute (insert k v item) j ≡ get_attribute item j
  unfolding get_attribute
  get_attribute-insert item k j v ne = ground (arith, lookup-insert k j v item, same_iff k j)

  pub erase-insert :
      (item : Map) (k j : Bytes) (v : Value)
      → lookup k item ≡ none
      → lookup j (erase k (insert k v item)) ≡ lookup j item
  erase-insert item k j v absent =
      ground (arith, lookup-erase k j (insert k v item), lookup-insert k j v item, same_iff k j)

  pub lookup_inserted : (item : Map) (k : Bytes) (v : Value) → lookup k (insert k v item) ≡ some v
  lookup_inserted item k v = ground (arith, lookup-insert k k v item, same_iff k k)

  remove-insert :
      (c : Context) (item : Map) (value : Value) (enum_name sibling_name : Bytes)
      (d : EnumDefinition) (s : IssueSuppression) (key : Bytes)
      → IsCompiled lib attr
      → attr.is_array ≡ false
      → get_attribute (insert sibling_name (text d.caption) item) enum_name ≡ some value
      → lookup sibling_name item ≡ none
      → IsRedundant lib attr value d.caption
      → lookup key
          (remove_enum_sibling_pair lib c
            (insert sibling_name (text d.caption) item)
            enum_name
            attr
            sibling_name
            true
            false
            s).1
        ≡ lookup key item
  remove-insert c item value enum_name sibling_name d s key h scalar there absent redundant =
      elim (remove_enum_sibling_pair-scalar lib attr c (insert sibling_name (text d.caption) item)
        enum_name sibling_name d.caption value s h scalar
        (lookup_inserted item sibling_name (text d.caption)) there) [
          | inl (erased, r) ↦
              ap (lookup key) erased ∙ erase-insert item sibling_name key (text d.caption) absent
          | inr (kept, n) ↦ absurd (n redundant)
        ]

  -- On a compiled scalar enum attribute with a present value that has a caption and is not the
  -- source-specific 99, adding the absent sibling writes the caption, and safe removal afterwards gives
  -- back an item with the lookups of the first one.
  pub remove-add_enum_sibling :
      (c c' : Context) (item : Map) (value : Value) (enum_name sibling_name : Bytes)
      (d : EnumDefinition) (s s' : IssueSuppression)
      → IsCompiled lib attr
      → attr.is_array ≡ false
      → attr.sibling ≡ some sibling_name
      → sibling_name ≢ enum_name
      → get_attribute item enum_name ≡ some value
      → lookup sibling_name item ≡ none
      → enum_meaning lib attr value ≡ found d
      → d.caption ≢ []
      → integral attr && is_other_enum_value lib value ≡ false
      → let added = (add_enum_sibling lib c item value enum_name attr true true false s).1 in
        let removed =
          (remove_enum_sibling_pair lib c' added enum_name attr sibling_name true false s').1 in
        (lookup sibling_name added ≡ some (text d.caption))
        × ((key : Bytes) → lookup key removed ≡ lookup key item)
  unfolding get_attribute
  remove-add_enum_sibling c c' item value enum_name sibling_name d s s' h scalar named ne there
        absent meaning caption specific =
      rw
        (add_enum_sibling-absent c item value enum_name sibling_name d s h named (ap present absent)
          meaning caption)
        (
          lookup_inserted item sibling_name (text d.caption),
          λ key.
              remove-insert c' item value enum_name sibling_name d s' key h scalar
                (get_attribute-insert item sibling_name enum_name (text d.caption) ne ∙ there)
                absent
                (record {
                  definition = d;
                  defined = meaning;
                  captioned = refl;
                  specific = specific;
                }),
        )
