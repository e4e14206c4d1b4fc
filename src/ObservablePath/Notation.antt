-- ===== src/ObservablePath/Notation.antt =====
-- The names that enrichment writes are defined by the schema, in the notation of their style.
use ocsf_toolkit.Common.{
  ℕ, ◌≡◌, refl, sym, ap, subst, ◌∙◌, List, [], ◌∷◌, ◌++◌, Bool, true, false, ◌||◌, some, Bytes,
  bytes_eq, bool_eq, nat_eq, codes, lookup, contains, Bool-cases, inl, inr, arith, length,
  if◌then◌else◌, append-nil,
}
use ocsf_toolkit.PathSeq.{Sequence}
use ocsf_toolkit.PathSeq.Refinement.{IsValid, view, items-view, length-view}
use ocsf_toolkit.PathStyle.{
  Style, simple, array_brackets, array_wildcard, array_indexed, json_path, unsupported,
  is_json_path, valid,
}
use ocsf_toolkit.EventPath.{
  Element, attribute, array_index, EventPath, to_string, root, push_attribute, has_prior_attribute,
}
use ocsf_toolkit.Schema.{AttributeDefinition, attribute_active}
use ocsf_toolkit.Schema.Items.{Attributes, ClassDefinition, Objects, object_attributes}
use ocsf_toolkit.ObservablePath.{Selector, Segment, ObservablePath, ok, parse}
use ocsf_toolkit.ObservablePath.RoundTrip.{no_marker}
use ocsf_toolkit.ObservablePath.Rendered.{
  selectors_of, grouped, all_readable, parse-event_path_text,
}
use ocsf_toolkit.ObservablePath.Definition.{
  defined, selectors_allowed, definition, selectors_use_notation, use_notation_at, use_notation_in,
  uses_notation_from, uses_notation,
}
use ocsf_toolkit.ObservablePath.Walk.{
  Walk, ends, goes, Shows, push_attribute-Shows, has_prior_attribute-Shows, root-Shows,
  definition-Walk,
}

-- the elements behind an attribute: one index where it is an array
abbrev pub behind : Bool → ℕ → List Element → List Element
behind false i rest = rest
behind true i rest = array_index i ∷ rest

-- An event path that a traversal of the schema comes to: active attributes, each array with one
-- index, each attribute but the last an object, and no name twice before the last.
pub data Follows (objects : Objects) (profiles : List Bytes)
    : List Bytes → Attributes → List Element → Type 0 where
  reaches :
      (visited : List Bytes) (attributes : Attributes) (name : Bytes) (a : AttributeDefinition)
      (i : ℕ)
      → lookup name attributes ≡ some a
      → attribute_active (some a) profiles ≡ true
      → Follows objects profiles visited attributes (attribute name ∷ behind a.is_array i [])
  passes :
      (visited : List Bytes) (attributes : Attributes) (name : Bytes) (a : AttributeDefinition)
      (i : ℕ) (inner : Attributes) (child : Bytes) (rest : List Element)
      → lookup name attributes ≡ some a
      → attribute_active (some a) profiles ≡ true
      → contains visited name ≡ false
      → a.type_name ≡ codes "object_t"
      → object_attributes objects a.object_type ≡ some inner
      → Follows objects profiles (visited ++ name ∷ []) inner (attribute child ∷ rest)
      → Follows objects profiles visited attributes
          (attribute name ∷ behind a.is_array i (attribute child ∷ rest))

abbrev shown : Style → Bool → ℕ → List Selector
shown style false i = []
shown style true i = selectors_of style i

grouped-behind :
    (style : Style) (is_array : Bool) (i : ℕ) (rest : List Element)
    → (grouped style rest).0 ≡ []
    → grouped style (behind is_array i rest) ≡ (shown style is_array i, (grouped style rest).1)
grouped-behind style false i rest e = ap (λ (l : List Selector). (l, (grouped style rest).1)) e
grouped-behind style true i rest e =
    ap (λ (l : List Selector). (l, (grouped style rest).1))
      (ap (λ (l : List Selector). selectors_of style i ++ l) e ∙ append-nil (selectors_of style i))

shown-allowed :
    (style : Style) (is_array : Bool) (i : ℕ)
    → selectors_allowed (shown style is_array i) is_array ≡ true
shown-allowed style false i = refl
shown-allowed simple true i = refl
shown-allowed array_brackets true i = refl
shown-allowed array_wildcard true i = refl
shown-allowed array_indexed true i = refl
shown-allowed json_path true i = refl
shown-allowed unsupported true i = refl

selectors_use_notation-shown :
    (style : Style) (i : ℕ)
    → valid style ≡ true
    → selectors_use_notation (selectors_of style i) style ≡ true
unfolding selectors_use_notation valid
selectors_use_notation-shown simple i h = refl
selectors_use_notation-shown array_brackets i h = refl
selectors_use_notation-shown array_wildcard i h = refl
selectors_use_notation-shown array_indexed i h = refl
selectors_use_notation-shown json_path i h = refl
selectors_use_notation-shown unsupported i h = h

use_notation_at-shown :
    (style : Style) (a : AttributeDefinition) (i : ℕ) (continue : AttributeDefinition → Bool)
    → valid style ≡ true
    → continue a ≡ true
    → use_notation_at style (shown style a.is_array i) (some a) continue ≡ true
use_notation_at-shown style a i continue h on = elim (Bool-cases a.is_array) [
  | inl e ↦ simp (e, selectors_use_notation-shown style i h) on
  | inr e ↦ simp e on
]

module _ (objects : Objects) (profiles : List Bytes) (style : Style) where
  Follows-Walk :
      (visited : List Bytes) (attributes : Attributes) (els : List Element)
      → Follows objects profiles visited attributes els
      → Walk objects profiles visited attributes (grouped style els).1
  Follows-Walk visited attributes els (reaches v at name a i found active) =
      rw (grouped-behind style a.is_array i [] refl) (
        ends visited attributes (record { attribute = name; selectors = shown style a.is_array i })
          a found active (shown-allowed style a.is_array i))
  Follows-Walk visited attributes els
        (passes v at name a i inner child rest found active new object entered more) =
      rw (grouped-behind style a.is_array i (attribute child ∷ rest) refl) (
        goes visited attributes (record { attribute = name; selectors = shown style a.is_array i })
          a inner (record { attribute = child; selectors = (grouped style rest).0 })
          (grouped style rest).1 found active (shown-allowed style a.is_array i) new object entered
          (Follows-Walk (visited ++ name ∷ []) inner (attribute child ∷ rest) more))

  uses_notation-Follows :
      (visited : List Bytes) (attributes : Attributes) (els : List Element) (path : EventPath)
      → valid style ≡ true
      → Shows path visited
      → Follows objects profiles visited attributes els
      → uses_notation_from objects style (grouped style els).1 path attributes ≡ true
  unfolding uses_notation_from
  uses_notation-Follows visited attributes els path ok_style h
        (reaches v at name a i found active) =
      rw (grouped-behind style a.is_array i [] refl, found)
        (use_notation_at-shown style a i (λ d. true) ok_style refl)
  uses_notation-Follows visited attributes els path ok_style h
        (passes v at name a i inner child rest found active new object entered more) =
      rw (grouped-behind style a.is_array i (attribute child ∷ rest) refl, found)
        (use_notation_at-shown style a i
          (λ d.
            if has_prior_attribute (push_attribute path name) name
            then false
            else use_notation_in (object_attributes objects d.object_type) (λ below.
              uses_notation_from objects style (grouped style (attribute child ∷ rest)).1
                (push_attribute path name) below))
          ok_style
          (rw (has_prior_attribute-Shows path visited name h ∙ new, entered)
            (uses_notation-Follows (visited ++ name ∷ []) inner (attribute child ∷ rest)
              (push_attribute path name) ok_style (push_attribute-Shows path visited name h) more)))

  uses_notation-view :
      (path : Sequence Segment) (class : ClassDefinition) (s : Segment) (rest : List Segment)
      → IsValid path
      → view path ≡ s ∷ rest
      → uses_notation_from objects style (s ∷ rest) root class.attributes ≡ true
      → uses_notation objects style
          (record { segments = path; rooted = is_json_path style })
          (some class)
        ≡ true
  unfolding uses_notation
  uses_notation-view path class s rest h shown_as e =
      rw (items-view path h, shown_as) (ground (arith, length-view path h, ap length shown_as, e))

  -- An event path that follows the schema from a class (and that is valid, begins with a name that
  -- does not look rooted, has plain names and indexes that fit in an int) is written by
  -- `EventPath.to_string`, in a valid style, as a text that `Parse` reads, that `Definition` says
  -- the class defines, and that `UsesNotation` says is in that style.
  pub written_names_are_defined :
      (p : EventPath) (class : ClassDefinition) (name : Bytes) (rest : List Element)
      → IsValid p.elements
      → view p.elements ≡ attribute name ∷ rest
      → all_readable (attribute name ∷ rest) ≡ true
      → no_marker name || is_json_path style ≡ true
      → valid style ≡ true
      → Follows objects profiles [] class.attributes (attribute name ∷ rest)
      → (path : ObservablePath) × (parse (to_string p style) ≡ ok path)
        × (definition objects profiles path (some class) ≡ defined)
        × (uses_notation objects style path (some class) ≡ true)
  written_names_are_defined p class name rest h shown_as readable marker ok_style follows =
      let (path, parsed, ok_path, segments) =
        parse-event_path_text p style name rest h shown_as readable marker in
      (
        record { segments = path; rooted = is_json_path style },
        parsed,
        (definition-Walk objects profiles (record { segments = path; rooted = is_json_path style })
              class ok_path).1
            (subst (Walk objects profiles [] class.attributes) (sym segments)
              (Follows-Walk [] class.attributes (attribute name ∷ rest) follows)),
        uses_notation-view path class
            (record { attribute = name; selectors = (grouped style rest).0 }) (grouped style rest).1
            ok_path segments
            (uses_notation-Follows [] class.attributes (attribute name ∷ rest) root ok_style
              root-Shows follows),
      )
