-- ===== src/ObservablePath/Rendered.antt =====
-- The names that enrichment writes for event paths are names that `Parse` reads.
use ocsf_toolkit.Common.{
  ℕ, ◌≡◌, refl, sym, ap, ◌∙◌, List, [], ◌∷◌, ◌++◌, Bool, true, ◌&&◌, ◌||◌, Bytes, codes, arith,
  append_assoc, append-nil, leb, Bool-cases, inl, inr,
}
use ocsf_toolkit.Common.Decimal.{max_int64}
use ocsf_toolkit.PathSeq.{Sequence}
use ocsf_toolkit.PathSeq.Refinement.{IsValid, view}
use ocsf_toolkit.PathStyle.{
  Style, array_brackets, array_wildcard, array_indexed, json_path, simple, unsupported,
  append_array_notation, is_json_path,
}
use ocsf_toolkit.EventPath.{Element, attribute, array_index, EventPath, to_string}
use ocsf_toolkit.EventPath.Reference.{notation, tail_text, body_text, root_marker, reference}
use ocsf_toolkit.EventPath.Rendering.{to_string-view}
use ocsf_toolkit.ObservablePath.{Selector, brackets, wildcard, index, Segment, ok, parse}
use ocsf_toolkit.ObservablePath.Print.{selector_text, selectors_text, segment_text, segments_text}
use ocsf_toolkit.ObservablePath.Selectors.{all_fit}
use ocsf_toolkit.ObservablePath.RoundTrip.{
  is_plain, all_printable, no_marker, path_text, parse-path_text,
}

-- how a style shows an array index
abbrev pub selectors_of : Style → ℕ → List Selector
selectors_of array_brackets i = brackets ∷ []
selectors_of array_wildcard i = wildcard ∷ []
selectors_of array_indexed i = index i ∷ []
selectors_of json_path i = index i ∷ []
selectors_of _ i = []

-- the selectors before the first attribute, and the segments from there on
abbrev pub grouped : Style → List Element → List Selector × List Segment
grouped style [] = ([], [])
grouped style (attribute name ∷ rest) =
    let (selectors, segments) = grouped style rest in
    ([], record { attribute = name; selectors = selectors } ∷ segments)
grouped style (array_index i ∷ rest) =
    let (selectors, segments) = grouped style rest in (selectors_of style i ++ selectors, segments)

abbrev dotted : List Segment → Bytes
dotted [] = []
dotted (s ∷ rest) = b'.' ∷ segments_text (s ∷ rest)

segments_text-dotted :
    (s : Segment) (rest : List Segment) → segments_text (s ∷ rest) ≡ segment_text s ++ dotted rest
unfolding segments_text
segments_text-dotted s [] = sym (append-nil (segment_text s))
segments_text-dotted s (t ∷ rest) = refl

notation-selectors :
    (style : Style) (i : ℕ) (more : List Selector)
    → notation style i ++ selectors_text more ≡ selectors_text (selectors_of style i ++ more)
unfolding notation append_array_notation selectors_text selector_text
notation-selectors array_brackets i more = refl
notation-selectors array_wildcard i more = refl
notation-selectors array_indexed i more = simp append_assoc
notation-selectors json_path i more = simp append_assoc
notation-selectors simple i more = refl
notation-selectors unsupported i more = refl

attribute_text-grouped :
    (style : Style) (name : Bytes) (rest : List Element)
    → tail_text style rest ≡ selectors_text (grouped style rest).0 ++ dotted (grouped style rest).1
    → name ++ tail_text style rest ≡ segments_text (grouped style (attribute name ∷ rest)).1
unfolding segment_text
attribute_text-grouped style name rest e =
    ap (λ (t : Bytes). name ++ t) e
    ∙ (sym (
          append_assoc name (selectors_text (grouped style rest).0) (dotted (grouped style rest).1))
        ∙ sym (
            segments_text-dotted (record { attribute = name; selectors = (grouped style rest).0 })
              (grouped style rest).1))

tail_text-grouped :
    (style : Style) (els : List Element)
    → tail_text style els ≡ selectors_text (grouped style els).0 ++ dotted (grouped style els).1
unfolding tail_text selectors_text
tail_text-grouped style [] = refl
tail_text-grouped style (attribute name ∷ rest) =
    ap (λ (t : Bytes). b'.' ∷ t)
      (attribute_text-grouped style name rest (tail_text-grouped style rest))
tail_text-grouped style (array_index i ∷ rest) =
    ap (λ (t : Bytes). notation style i ++ t) (tail_text-grouped style rest)
    ∙ (sym (
          append_assoc (notation style i) (selectors_text (grouped style rest).0)
            (dotted (grouped style rest).1))
        ∙ ap (λ (t : Bytes). t ++ dotted (grouped style rest).1)
            (notation-selectors style i (grouped style rest).0))

reference-grouped :
    (style : Style) (name : Bytes) (rest : List Element)
    → reference style (attribute name ∷ rest)
      ≡ path_text (is_json_path style) (grouped style (attribute name ∷ rest)).1
unfolding reference root_marker body_text
reference-grouped style name rest = elim (Bool-cases (is_json_path style)) [
  | inl e ↦ rw e (
      ap (λ (t : Bytes). codes "$." ++ t)
        (attribute_text-grouped style name rest (tail_text-grouped style rest)))
  | inr e ↦ rw e (attribute_text-grouped style name rest (tail_text-grouped style rest))
]

-- attribute names that the syntax does not cut, and array indexes that fit in an int
abbrev pub all_readable : List Element → Bool
all_readable [] = true
all_readable (attribute name ∷ rest) = is_plain name && all_readable rest
all_readable (array_index i ∷ rest) = leb i max_int64 && all_readable rest

all_fit-selectors_of :
    (style : Style) (i : ℕ) (more : List Selector)
    → leb i max_int64 ≡ true
    → all_fit more ≡ true
    → all_fit (selectors_of style i ++ more) ≡ true
all_fit-selectors_of array_brackets i more h k = k
all_fit-selectors_of array_wildcard i more h k = k
all_fit-selectors_of array_indexed i more h k = ground arith
all_fit-selectors_of json_path i more h k = ground arith
all_fit-selectors_of simple i more h k = k
all_fit-selectors_of unsupported i more h k = k

grouped-readable :
    (style : Style) (els : List Element)
    → all_readable els ≡ true
    → (all_fit (grouped style els).0 ≡ true) × (all_printable (grouped style els).1 ≡ true)
grouped-readable style [] h = (refl, refl)
grouped-readable style (attribute name ∷ rest) h =
    let (fit, printable) = grouped-readable style rest (ground arith) in (refl, ground arith)
grouped-readable style (array_index i ∷ rest) h =
    let (fit, printable) = grouped-readable style rest (ground arith) in
    (all_fit-selectors_of style i (grouped style rest).0 (ground arith) fit, printable)

-- `Parse` reads what `EventPath.to_string` writes, in every style: for a valid event path that
-- begins with an attribute, whose names are plain and whose indexes fit in an int (and whose text
-- does not look rooted when the style is not JSONPath), the text is read as a path that is rooted
-- exactly in JSONPath, with a segment for each attribute, whose selectors are the notation that the
-- style has for the indexes behind the attribute.
pub parse-event_path_text :
    (p : EventPath) (style : Style) (name : Bytes) (rest : List Element)
    → IsValid p.elements
    → view p.elements ≡ attribute name ∷ rest
    → all_readable (attribute name ∷ rest) ≡ true
    → no_marker name || is_json_path style ≡ true
    → (path : Sequence Segment) × (parse (to_string p style)
        ≡ ok (record { segments = path; rooted = is_json_path style }))
      × IsValid path
      × (view path ≡ (grouped style (attribute name ∷ rest)).1)
parse-event_path_text p style name rest h shown readable marker =
    let (fit, printable) = grouped-readable style (attribute name ∷ rest) readable in
    let (path, parsed, valid, segments) =
      parse-path_text (is_json_path style)
        (record { attribute = name; selectors = (grouped style rest).0 }) (grouped style rest).1
        printable marker in
    (
      path,
      ap parse (
            to_string-view p style h
            ∙ (ap (reference style) shown ∙ reference-grouped style name rest))
          ∙ parsed,
      valid,
      segments,
    )
