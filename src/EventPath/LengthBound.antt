-- ===== src/EventPath/LengthBound.antt =====
-- `estimatedRenderedLength` is an upper bound of what `render` writes.
use ocsf_toolkit.Common.{
  ℕ, ◌+◌, ◌≤◌, ◌≡◌, refl, ap, ◌∙◌, List, [], ◌∷◌, ◌++◌, Bytes, codes, arith, length, length-append,
  if◌then◌else◌, Bool-cases, inl, inr,
}
use ocsf_toolkit.Common.Decimal.{decimal, length-decimal, max_int64}
use ocsf_toolkit.PathSeq.Refinement.{IsValid, view, items-view}
use ocsf_toolkit.PathStyle.{
  Style, simple, array_brackets, array_wildcard, array_indexed, json_path, unsupported,
  append_array_notation,
}
use ocsf_toolkit.EventPath.{
  Element, attribute, array_index, EventPath, to_string, child_string, sibling_string, estimate,
  estimated_rendered_length,
}
use ocsf_toolkit.EventPath.Reference.{
  notation, tail_text, body_text, root_marker, reference, has_attribute, replace_last,
  body_text-append,
}
use ocsf_toolkit.EventPath.Rendering.{to_string-view, child_string-view}
use ocsf_toolkit.EventPath.LastAttribute.{sibling_string-view}

-- Every index is one of Go's `int`, of 64 bits.
abbrev pub IndexesFit : List Element → Type 0
IndexesFit [] = Unit
IndexesFit (attribute name ∷ rest) = IndexesFit rest
IndexesFit (array_index i ∷ rest) = (i ≤ max_int64) × IndexesFit rest

length-notation : (style : Style) (i : ℕ) → i ≤ max_int64 → length (notation style i) ≤ 22
unfolding notation append_array_notation
length-notation simple i h = omega arith
length-notation array_brackets i h = omega arith
length-notation array_wildcard i h = omega arith
length-notation array_indexed i h =
    omega (arith, length-decimal i h, length-append (decimal i) (codes "]"))
length-notation json_path i h =
    omega (arith, length-decimal i h, length-append (decimal i) (codes "]"))
length-notation unsupported i h = omega arith

length-tail_text :
    (style : Style) (els : List Element) (n : ℕ)
    → IndexesFit els
    → length (tail_text style els) + n ≤ estimate els n
unfolding tail_text estimate
length-tail_text style [] n h = omega arith
length-tail_text style (attribute name ∷ rest) n h = omega (
  arith,
  length-tail_text style rest (n + (length name + 1)) h,
  length-append name (tail_text style rest),
)
length-tail_text style (array_index i ∷ rest) n h = omega (
  arith,
  length-tail_text style rest (n + 22) h.1,
  length-notation style i h.0,
  length-append (notation style i) (tail_text style rest),
)

-- The first attribute follows no dot, so a text with an attribute stays one below its estimate.
length-body_text :
    (style : Style) (els : List Element) (n : ℕ)
    → IndexesFit els
    → length (body_text style els) + (if has_attribute els then 1 else 0) + n ≤ estimate els n
unfolding body_text estimate has_attribute
length-body_text style [] n h = omega arith
length-body_text style (attribute name ∷ rest) n h = omega (
  arith,
  length-tail_text style rest (n + (length name + 1)) h,
  length-append name (tail_text style rest),
)
length-body_text style (array_index i ∷ rest) n h = omega (
  arith,
  length-body_text style rest (n + 22) h.1,
  length-notation style i h.0,
  length-append (notation style i) (body_text style rest),
)

estimate_add : (els : List Element) (n k : ℕ) → estimate els (n + k) ≡ estimate els n + k
unfolding estimate
estimate_add [] n k = refl
estimate_add (attribute name ∷ rest) n k =
    ap (estimate rest) {x = n + k + (length name + 1)} {y = n + (length name + 1) + k} (omega arith)
    ∙ estimate_add rest (n + (length name + 1)) k
estimate_add (array_index i ∷ rest) n k =
    ap (estimate rest) {x = n + k + 22} {y = n + 22 + k} (omega arith)
    ∙ estimate_add rest (n + 22) k

length-root_marker : (style : Style) → length (root_marker style) ≤ 2
unfolding root_marker
length-root_marker style = ground arith

length-reference :
    (style : Style) (els : List Element)
    → IndexesFit els
    → length (reference style els) ≤ estimate els 2
unfolding reference estimate
length-reference style [] h = ground arith
length-reference style (e ∷ rest) h = omega (
  arith,
  length-body_text style (e ∷ rest) 2 h,
  length-root_marker style,
  length-append (root_marker style) (body_text style (e ∷ rest)),
)

-- the text with an attribute appended
length-reference_child :
    (style : Style) (els : List Element) (name : Bytes)
    → IndexesFit els
    → length (reference style (els ++ attribute name ∷ [])) ≤ estimate els (length name + 2)
unfolding reference estimate
length-reference_child style [] name h = omega (
  arith,
  length-append (root_marker style) (name ++ []),
  length-append name [],
  length-root_marker style,
)
length-reference_child style (e ∷ rest) name h = ground (
  arith,
  ap length (body_text-append style (e ∷ rest) name),
  length-body_text style (e ∷ rest) (length name + 2) h,
  length-root_marker style,
  length-append (root_marker style) (body_text style (e ∷ rest ++ attribute name ∷ [])),
  length-append (body_text style (e ∷ rest))
      ((if has_attribute (e ∷ rest) then codes "." else []) ++ name),
  length-append (if has_attribute (e ∷ rest) then codes "." else []) name,
)

estimate-replace_last :
    (new : Bytes) (els : List Element) (n : ℕ)
    → estimate (replace_last new els) n ≤ estimate els n + length new
unfolding estimate replace_last
estimate-replace_last new [] n = omega arith
estimate-replace_last new (array_index i ∷ rest) n = estimate-replace_last new rest (n + 22)
estimate-replace_last new (attribute name ∷ rest) n = elim (Bool-cases (has_attribute rest)) [
  | inl e ↦ rw e (estimate-replace_last new rest (n + (length name + 1)))
  | inr e ↦
      rw e
        (omega (arith, estimate_add rest n (length name + 1), estimate_add rest n (length new + 1)))
]

IndexesFit-replace_last :
    (new : Bytes) (els : List Element) → IndexesFit els → IndexesFit (replace_last new els)
unfolding replace_last
IndexesFit-replace_last new [] h = h
IndexesFit-replace_last new (array_index i ∷ rest) h = (h.0, IndexesFit-replace_last new rest h.1)
IndexesFit-replace_last new (attribute name ∷ rest) h = elim (Bool-cases (has_attribute rest)) [
  | inl e ↦ rw e (IndexesFit-replace_last new rest h)
  | inr e ↦ rw e h
]

-- On a valid path whose indexes are 64-bit integers, the estimate bounds the length of the path's text,
-- of a child's text and of a sibling's text, in every style.
pub estimated_rendered_length_lem :
    (p : EventPath) (name : Bytes) (style : Style)
    → IsValid p.elements
    → IndexesFit (view p.elements)
    → (length (to_string p style) ≤ estimated_rendered_length p [])
      × (length (child_string p name style) ≤ estimated_rendered_length p name)
      × (length (sibling_string p name style) ≤ estimated_rendered_length p name)
unfolding estimated_rendered_length
estimated_rendered_length_lem p name style v h =
    rw
      (
        items-view p.elements v,
        to_string-view p style v,
        child_string-view p name style v,
        sibling_string-view p name style v,
      )
      (
        length-reference style (view p.elements) h,
        length-reference_child style (view p.elements) name h,
        omega (
          arith,
          length-reference style (replace_last name (view p.elements))
              (IndexesFit-replace_last name (view p.elements) h),
          estimate-replace_last name (view p.elements) 2,
          estimate_add (view p.elements) 2 (length name),
          ap (estimate (view p.elements)) {x = 2 + length name} {y = length name + 2} (omega arith),
        ),
      )
