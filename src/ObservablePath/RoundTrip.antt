-- ===== src/ObservablePath/RoundTrip.antt =====
-- What `Parse` reads back of a path that is printed.
use ocsf_toolkit.Common.{
  ℕ, zero, suc, ◌<◌, ◌≡◌, refl, sym, ap, ◌∙◌, List, [], ◌∷◌, ◌++◌, Bool, true, false, not, ◌&&◌,
  ◌||◌, Bytes, bytes_eq, nat_eq, codes, same, contains, length, arith, append_assoc, append-nil,
  length-append,
}
use ocsf_toolkit.PathSeq
use ocsf_toolkit.PathSeq.{Sequence}
use ocsf_toolkit.PathSeq.Refinement.{IsValid, view, view-push, push-IsValid, empty-IsValid}
use ocsf_toolkit.ObservablePath.{
  Selector, Segment, ok, parse_segment, parse_segments, parse, with_selectors, zero_segment,
  as_path, parse_name, at_root,
}
use ocsf_toolkit.ObservablePath.Print.{selector_text, selectors_text, segment_text, segments_text}
use ocsf_toolkit.ObservablePath.Selectors.{
  cut-separator, cut-whole, contains-append, contains-selector, all_fit, parse_selectors-text,
}

-- a name that no syntax of the path cuts
abbrev pub is_plain : Bytes → Bool
is_plain name = not (same name []) && not (contains name b'.') && not (contains name b'[')

abbrev pub all_printable : List Segment → Bool
all_printable [] = true
all_printable (s ∷ rest) = (is_plain s.attribute && all_fit s.selectors) && all_printable rest

contains-selectors : (ss : List Selector) → contains (selectors_text ss) b'.' ≡ false
unfolding selectors_text
contains-selectors [] = refl
contains-selectors (s ∷ ss) =
    contains-append (selector_text s) (b']' ∷ selectors_text ss) b'.'
      (contains-selector s b'.' refl refl) (contains-selectors ss)

parse_parts-text :
    (name : Bytes) (ss : List Selector)
    → is_plain name ≡ true
    → all_fit ss ≡ true
    → parse_segment (name ++ selectors_text ss) ≡ ok (record { attribute = name; selectors = ss })
unfolding parse_segment selectors_text
parse_parts-text [] ss p h = absurd (ground arith)
parse_parts-text (c ∷ name) [] p h =
    ap parse_segment (append-nil (c ∷ name)) ∙ rw (cut-whole b'[' (c ∷ name) (ground arith)) refl
parse_parts-text (c ∷ name) (s ∷ ss) p h =
    rw (cut-separator b'[' (c ∷ name) (selector_text s ++ b']' ∷ selectors_text ss) (ground arith))
      (ap (with_selectors (c ∷ name)) (
        parse_selectors-text (s ∷ ss) []
          (suc (length (selector_text s ++ b']' ∷ selectors_text ss))) h (omega arith)))

parse_segment-text :
    (s : Segment)
    → is_plain s.attribute ≡ true
    → all_fit s.selectors ≡ true
    → parse_segment (segment_text s) ≡ ok s
unfolding segment_text
parse_segment-text s p h = parse_parts-text s.attribute s.selectors p h

contains-segment :
    (s : Segment) → is_plain s.attribute ≡ true → contains (segment_text s) b'.' ≡ false
unfolding segment_text
contains-segment s p =
    contains-append s.attribute (selectors_text s.selectors) b'.' (ground arith)
      (contains-selectors s.selectors)

push_all : Sequence Segment → List Segment → Sequence Segment
push_all path [] = path
push_all path (s ∷ rest) = push_all (PathSeq.push path s) rest

push_all-view :
    (path : Sequence Segment) (segments : List Segment)
    → IsValid path
    → IsValid (push_all path segments) × (view (push_all path segments) ≡ view path ++ segments)
unfolding push_all
push_all-view path [] h = (h, sym (append-nil _))
push_all-view path (s ∷ rest) h =
    let (valid, e) = push_all-view (PathSeq.push path s) rest (push-IsValid path s h) in
    (
      valid,
      e
          ∙ (ap (λ (l : List Segment). l ++ rest) (view-push path s h)
              ∙ append_assoc (view path) (s ∷ []) rest),
    )

parse_segments-text :
    (s : Segment) (rest : List Segment) (path : Sequence Segment) (fuel : ℕ)
    → all_printable (s ∷ rest) ≡ true
    → length rest < fuel
    → parse_segments fuel (segments_text (s ∷ rest)) path ≡ ok (push_all path (s ∷ rest))
unfolding parse_segments segments_text segment_text push_all
parse_segments-text s rest path zero h le = absurd (omega arith)
parse_segments-text s [] path (suc fuel) h le =
    rw
      (
        cut-whole b'.' (segment_text s) (contains-segment s (ground arith)),
        parse_segment-text s (ground arith) (ground arith),
      )
      refl
parse_segments-text s (t ∷ rest) path (suc fuel) h le =
    rw
      (
        cut-separator b'.' (segment_text s) (segments_text (t ∷ rest))
            (contains-segment s (ground arith)),
        parse_segment-text s (ground arith) (ground arith),
      )
      (parse_segments-text t rest (PathSeq.push path s) fuel (ground arith) (omega arith))

-- a name at which the text does not look like the root marker
abbrev pub no_marker : Bytes → Bool
no_marker [] = false
no_marker (c ∷ name) = not (same c b'$')

abbrev pub path_text : Bool → List Segment → Bytes
path_text true segments = codes "$." ++ segments_text segments
path_text false segments = segments_text segments

plain_length : (name : Bytes) → is_plain name ≡ true → 0 < length name
plain_length [] h = absurd (ground arith)
plain_length (c ∷ name) h = omega arith

longer-segments :
    (s : Segment) (rest : List Segment)
    → all_printable (s ∷ rest) ≡ true
    → length rest < length (segments_text (s ∷ rest))
unfolding segments_text segment_text
longer-segments s [] h = omega (
  arith,
  plain_length s.attribute (ground arith),
  length-append s.attribute (selectors_text s.selectors),
)
longer-segments s (t ∷ rest) h = omega (
  arith,
  longer-segments t rest (ground arith),
  length-append (segment_text s) (b'.' ∷ segments_text (t ∷ rest)),
)

no_marker-append : (s t : Bytes) → no_marker s ≡ true → no_marker (s ++ t) ≡ true
no_marker-append [] t h = absurd (ground arith)
no_marker-append (c ∷ s) t h = h

no_marker-segments :
    (s : Segment) (rest : List Segment)
    → no_marker s.attribute ≡ true
    → no_marker (segments_text (s ∷ rest)) ≡ true
unfolding segments_text segment_text
no_marker-segments s [] h = no_marker-append s.attribute (selectors_text s.selectors) h
no_marker-segments s (t ∷ rest) h =
    no_marker-append (segment_text s) (b'.' ∷ segments_text (t ∷ rest))
      (no_marker-append s.attribute (selectors_text s.selectors) h)

at_root-unrooted : (name : Bytes) → no_marker name ≡ true → at_root name ≡ parse_name false name
at_root-unrooted [] h = absurd (ground arith)
at_root-unrooted (c ∷ name) h = ground arith

parse_name-text :
    (rooted : Bool) (name : Bytes)
    → 0 < length name
    → parse_name rooted name
      ≡ as_path rooted (parse_segments (suc (length name)) name (PathSeq.empty zero_segment))
parse_name-text rooted [] h = absurd (omega arith)
parse_name-text rooted (c ∷ name) h = refl

abbrev path_of : List Segment → Sequence Segment
path_of segments = push_all (PathSeq.empty zero_segment) segments

parse_name-segments :
    (rooted : Bool) (s : Segment) (rest : List Segment)
    → all_printable (s ∷ rest) ≡ true
    → parse_name rooted (segments_text (s ∷ rest))
      ≡ ok (record { segments = path_of (s ∷ rest); rooted = rooted })
parse_name-segments rooted s rest h =
    let long = longer-segments s rest h in
    parse_name-text rooted (segments_text (s ∷ rest)) (omega arith)
    ∙ ap (as_path rooted) (
        parse_segments-text s rest (PathSeq.empty zero_segment)
          (suc (length (segments_text (s ∷ rest)))) h (omega arith))

parse-root :
    (rooted : Bool) (s : Segment) (rest : List Segment)
    → all_printable (s ∷ rest) ≡ true
    → no_marker s.attribute || rooted ≡ true
    → parse (path_text rooted (s ∷ rest)) ≡ parse_name rooted (segments_text (s ∷ rest))
unfolding parse
parse-root true s rest h m = refl
parse-root false s rest h m =
    at_root-unrooted (segments_text (s ∷ rest)) (no_marker-segments s rest (ground arith))

-- A path of one or more segments with plain attributes and indexes that fit in an int is read back
-- from its text, rooted as it was: the segments of the result are those that were printed. An
-- unrooted path must not begin with the root marker.
pub parse-path_text :
    (rooted : Bool) (s : Segment) (rest : List Segment)
    → all_printable (s ∷ rest) ≡ true
    → no_marker s.attribute || rooted ≡ true
    → (path : Sequence Segment) × (parse (path_text rooted (s ∷ rest))
        ≡ ok (record { segments = path; rooted = rooted }))
      × IsValid path
      × (view path ≡ s ∷ rest)
unfolding PathSeq.empty
parse-path_text rooted s rest h m =
    let (valid, shown) =
      push_all-view (PathSeq.empty zero_segment) (s ∷ rest) (empty-IsValid zero_segment) in
    (
      path_of (s ∷ rest),
      parse-root rooted s rest h m ∙ parse_name-segments rooted s rest h,
      valid,
      shown,
    )
