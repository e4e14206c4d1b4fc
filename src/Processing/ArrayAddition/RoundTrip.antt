-- ===== src/Processing/ArrayAddition/RoundTrip.antt =====
-- The addition of an array of captions and its safe removal.
use ocsf_toolkit.Common.{
  suc, ◌≡◌, ◌≢◌, refl, ap, ◌∙◌, List, [], ◌∷◌, map, Bool, true, false, ◌&&◌, ◌||◌, none, some,
  arith, Bytes, bytes_eq, nat_eq, same_refl, lookup, insert, erase, length,
}
use ocsf_toolkit.EventValue.{Value, Map, text, array_view, reads_elements, elements-items_of}
use ocsf_toolkit.EventValue.Scalar.{NumberLibrary, is_99, as_integer, as_integer_at}
use ocsf_toolkit.EventValue.Object.{get_attribute, present}
use ocsf_toolkit.Schema.{AttributeDefinition}
use ocsf_toolkit.Schema.NumericEnum.{EnumDefinition}
use ocsf_toolkit.Processing.Context.{Context, IssueSuppression}
use ocsf_toolkit.Processing.EnumLookup.{found, lookup_enum_definition}
use ocsf_toolkit.Processing.EnumLookup.Independence.{
  IsCompiled, enum_meaning, lookup_enum_definition-enum_meaning,
}
use ocsf_toolkit.Processing.EnumRemoval.{
  delete, integral, array_verdict, verdict, remove_enum_sibling_pair,
}
use ocsf_toolkit.Processing.EnumRemoval.Safety.{apply_verdict-delete}
use ocsf_toolkit.Processing.EnumAddition.RoundTrip.{
  caption_of-found, get_attribute-insert, erase-insert, lookup_inserted,
}
use ocsf_toolkit.Processing.ArrayAddition.{
  string_slice, Collected, add_caption, enum_array_is_other, array_captions, add_enum_array_sibling,
  write_captions,
}

add_caption-some :
    (caption : Bytes) (other : Bool) (r : Context × Collected) (rest : List Bytes) (others : Bool)
    → r.1 ≡ some (rest, others)
    → (add_caption caption other r).1 ≡ some (caption ∷ rest, other || others)
add_caption-some caption other (c, none) rest others h = cc
add_caption-some caption other (c, some (captions, found_other)) rest others h = ground arith

module _ (lib : NumberLibrary) (attr : AttributeDefinition) where
  -- An enum value that has a caption and is not the source-specific 99.
  pub record IsCaptioned (value : Value) : Type 0 where
    pub definition : EnumDefinition
    pub defined : enum_meaning lib attr value ≡ found definition
    pub nonempty : definition.caption ≢ []
    pub specific : integral attr && is_99 (as_integer lib value) ≡ false

  abbrev pub AllCaptioned : List Value → Type 0
  AllCaptioned [] = Unit
  AllCaptioned (v ∷ vs) = IsCaptioned v × AllCaptioned vs

  -- the captions of the values
  pub captions : (values : List Value) → AllCaptioned values → List Bytes
  captions [] h = []
  captions (v ∷ vs) (h, hs) = h.definition.caption ∷ captions vs hs

  looked_up :
      (c : Context) (value : Value) (h : IsCaptioned value)
      → IsCompiled lib attr
      → (lookup_enum_definition lib c attr value).1 ≡ found h.definition
  looked_up c value h compiled =
      lookup_enum_definition-enum_meaning lib attr c value compiled ∙ h.defined

  array_captions-captions :
      (derived direct : Bool) (c : Context) (values : List Value) (h : AllCaptioned values)
      → IsCompiled lib attr
      → (other : Bool) × ((array_captions lib attr derived c direct values).1
          ≡ some (captions values h, other))
  unfolding array_captions captions
  array_captions-captions derived direct c [] h compiled = (false, refl)
  array_captions-captions derived direct c (v ∷ vs) (h, hs) compiled =
      let (other, e) =
        array_captions-captions derived direct (lookup_enum_definition lib c attr v).0 vs hs
          compiled in
      (
        enum_array_is_other lib attr derived direct v || other,
        rw (looked_up c v h compiled, caption_of-found lib attr h.definition h.nonempty)
            (add_caption-some h.definition.caption (enum_array_is_other lib attr derived direct v)
              (array_captions lib attr derived (lookup_enum_definition lib c attr v).0 direct vs)
              (captions vs hs) other e),
      )

  specific_at :
      (direct : Bool) (value : Value)
      → integral attr && is_99 (as_integer lib value) ≡ false
      → integral attr && is_99 (as_integer_at lib direct value) ≡ false
  specific_at true value h = h
  specific_at false value h = ground arith

  array_verdict-captions :
      (c : Context) (direct : Bool) (values : List Value) (h : AllCaptioned values)
      → IsCompiled lib attr
      → (array_verdict lib c attr false direct true values (map text (captions values h))).1
        ≡ delete
  unfolding array_verdict captions
  array_verdict-captions c direct [] h compiled = refl
  array_verdict-captions c direct (v ∷ vs) (h, hs) compiled =
      rw (looked_up c v h compiled, specific_at direct v h.specific, same_refl h.definition.caption)
        (array_verdict-captions (lookup_enum_definition lib c attr v).0 direct vs hs compiled)

  length-captions :
      (values : List Value) (h : AllCaptioned values)
      → length (map text (captions values h)) ≡ length values
  unfolding captions
  length-captions [] h = refl
  length-captions (v ∷ vs) (h, hs) = ap suc (length-captions vs hs)

  write_captions-some :
      (derived : Bool) (item : Map) (name sibling : Bytes) (s : IssueSuppression)
      (r : Context × Collected) (texts : List Bytes) (other : Bool)
      → r.1 ≡ some (texts, other)
      → (write_captions lib attr derived item name sibling s r).1
        ≡ insert sibling (string_slice texts) item
  write_captions-some derived item name sibling s (c, none) texts other h = cc
  write_captions-some derived item name sibling s (c, some (captions', other')) texts other h =
      ap (λ (o : Collected). (write_captions lib attr derived item name sibling s (c, o)).1) h

  add_enum_array_sibling-absent :
      (derived : Bool) (c : Context) (item : Map) (value : Value) (values : List Value)
      (name sibling : Bytes) (s : IssueSuppression) (h : AllCaptioned values)
      → IsCompiled lib attr
      → get_attribute item sibling ≡ none
      → array_view value ≡ some values
      → (add_enum_array_sibling lib attr derived c item value name sibling true s).1
        ≡ insert sibling (string_slice (captions values h)) item
  unfolding add_enum_array_sibling
  add_enum_array_sibling-absent derived c item value values name sibling s h compiled absent
        viewed =
      let (other, e) = array_captions-captions derived (reads_elements value) c values h compiled in
      simp (absent, viewed)
        (write_captions-some derived item name sibling s
          (array_captions lib attr derived c (reads_elements value) values) (captions values h)
          other e)

  remove_captions :
      (c : Context) (item : Map) (value : Value) (values : List Value) (name sibling : Bytes)
      (s : IssueSuppression) (h : AllCaptioned values)
      → IsCompiled lib attr
      → attr.is_array ≡ true
      → lookup sibling item ≡ some (string_slice (captions values h))
      → get_attribute item name ≡ some value
      → array_view value ≡ some values
      → (remove_enum_sibling_pair lib c item name attr sibling true false s).1 ≡ erase sibling item
  unfolding remove_enum_sibling_pair verdict array_view reads_elements
  remove_captions c item value values name sibling s h compiled is_array there enum viewed =
      simp
        (
          there,
          is_array,
          enum,
          viewed,
          elements-items_of,
          length-captions values h,
          same_refl (length values),
        )
        (apply_verdict-delete lib attr item name sibling s
          (array_verdict lib c attr false (reads_elements value) true values
            (map text (captions values h)))
          (array_verdict-captions c (reads_elements value) values h compiled))

  -- On a compiled enum array attribute whose values all have captions and hold no source-specific 99,
  -- adding the absent sibling writes the array of their captions, and safe removal afterwards gives back an
  -- item with the lookups of the first one.
  pub remove-add_enum_array_sibling :
      (derived : Bool) (c c' : Context) (item : Map) (value : Value) (values : List Value)
      (name sibling : Bytes) (s s' : IssueSuppression) (h : AllCaptioned values)
      → IsCompiled lib attr
      → attr.is_array ≡ true
      → sibling ≢ name
      → get_attribute item name ≡ some value
      → array_view value ≡ some values
      → lookup sibling item ≡ none
      → let added = (add_enum_array_sibling lib attr derived c item value name sibling true s).1 in
        let removed = (remove_enum_sibling_pair lib c' added name attr sibling true false s').1 in
        (lookup sibling added ≡ some (string_slice (captions values h)))
        × ((key : Bytes) → lookup key removed ≡ lookup key item)
  unfolding get_attribute
  remove-add_enum_array_sibling derived c c' item value values name sibling s s' h compiled is_array
        ne there viewed absent =
      let written = string_slice (captions values h) in
      rw
        (add_enum_array_sibling-absent derived c item value values name sibling s h compiled
          (ap present absent) viewed)
        (
          lookup_inserted lib attr item sibling written,
          λ key.
              ap (lookup key) (
                remove_captions c' (insert sibling written item) value values name sibling s' h
                  compiled is_array (lookup_inserted lib attr item sibling written)
                  (get_attribute-insert lib attr item sibling name written ne ∙ there) viewed)
              ∙ erase-insert lib attr item sibling key written absent,
        )
