-- ===== src/EventPath/Rendering.antt =====
-- The loops of `render` write the reference text, and the short answer agrees with them.
use ocsf_toolkit.Common.{
  ℕ, ◌+◌, List, [], ◌∷◌, ◌++◌, Bool, true, false, ◌||◌, Option, none, some, Bytes, codes,
  if◌then◌else◌, ◌≡◌, refl, sym, ap, ◌∙◌, append-nil, append_assoc, arith, length, Bool-cases,
  Option-cases, ◌⊎◌, length-append, inl, inr,
}
use native.Mathlib.Decide.{ℕ_discrete}
use ocsf_toolkit.PathSeq.Refinement.{IsValid, view, items-view, length-view}
use ocsf_toolkit.PathStyle.{Style, append_array_notation, is_json_path, simple}
use ocsf_toolkit.EventPath.{
  Element, attribute, array_index, EventPath, replaced, write_elements, sole_attribute, render,
  render_all, shortcut, to_string, child_string, len,
}
use ocsf_toolkit.EventPath.Reference.{
  notation, tail_text, body_text, root_marker, reference, has_attribute, rename, rename-none,
  length-rename, append_array_notation-notation, body_text-append,
}

write_elements_lem :
    (style : Style) (replace : Option ℕ) (new : Bytes) (els : List Element) (index : ℕ)
    (written : Bool) (builder : Bytes)
    → write_elements style replace new els index written builder ≡ (
      written || has_attribute els,
      builder
          ++ (if written
              then tail_text style (rename replace index new els)
              else body_text style (rename replace index new els)),
    )
unfolding write_elements has_attribute tail_text body_text rename
write_elements_lem style replace new [] index true builder = simp append-nil
write_elements_lem style replace new [] index false builder = simp append-nil
write_elements_lem style replace new (attribute name ∷ rest) index true builder =
    simp (write_elements_lem style replace new rest, append_assoc)
write_elements_lem style replace new (attribute name ∷ rest) index false builder =
    simp (write_elements_lem style replace new rest, append_assoc)
write_elements_lem style replace new (array_index i ∷ rest) index true builder =
    simp (write_elements_lem style replace new rest, append_array_notation-notation, append_assoc)
write_elements_lem style replace new (array_index i ∷ rest) index false builder =
    simp (write_elements_lem style replace new rest, append_array_notation-notation, append_assoc)

-- the general loop of `render` on a valid path
render_all_lem :
    (p : EventPath) (style : Style) (replace : Option ℕ) (new : Bytes) (append : Bool)
    → IsValid p.elements
    → render_all p style replace new append
      ≡ root_marker style
        ++ (body_text style (rename replace 0 new (view p.elements))
            ++ (if append
                then (if has_attribute (view p.elements) then codes "." else []) ++ new
                else []))
unfolding render_all root_marker
render_all_lem p style replace new true h =
    simp (items-view p.elements h, write_elements_lem, append_assoc)
      (elim (Bool-cases (has_attribute (view p.elements))) [
        | inl e ↦ rw e (simp append_assoc)
        | inr e ↦ rw e (simp append_assoc)
      ])
render_all_lem p style replace new false h =
    simp (items-view p.elements h, write_elements_lem, append-nil) refl

sole_attribute-notation :
    (style : Style) (els : List Element) (index : ℕ) (found : Option (ℕ × Bytes))
    → sole_attribute style els index found true ≡ none
unfolding sole_attribute
sole_attribute-notation style [] index found = refl
sole_attribute-notation style (array_index i ∷ rest) index found =
    sole_attribute-notation style rest (index + 1) found
sole_attribute-notation style (attribute name ∷ rest) index none =
    sole_attribute-notation style rest (index + 1) (some (index, name))
sole_attribute-notation style (attribute name ∷ rest) index (some earlier) = refl

-- With an attribute found, a result says that only unwritten array indexes follow it.
sole_attribute-found :
    (style : Style) (els : List Element) (index j : ℕ) (replace : Option ℕ) (new : Bytes)
    (earlier r : ℕ × Bytes)
    → sole_attribute style els index (some earlier) false ≡ some r
    → (r ≡ earlier) × (tail_text style (rename replace j new els) ≡ [])
unfolding sole_attribute tail_text rename notation append_array_notation
sole_attribute-found style [] index j replace new earlier r e = ground arith
sole_attribute-found simple (array_index i ∷ rest) index j replace new earlier r e =
    sole_attribute-found simple rest (index + 1) (j + 1) replace new earlier r e
sole_attribute-found style (array_index i ∷ rest) index j replace new earlier r e =
    absurd (cc (sole_attribute-notation style rest (index + 1) (some earlier)))
sole_attribute-found style (attribute name ∷ rest) index j replace new earlier r e = cc

sole_attribute_lem :
    (style : Style) (els : List Element) (index : ℕ) (replace : Option ℕ) (new : Bytes) (k : ℕ)
    (name : Bytes)
    → sole_attribute style els index none false ≡ some (k, name)
    → replaced replace k new name ≡ body_text style (rename replace index new els)
unfolding sole_attribute body_text rename notation append_array_notation
sole_attribute_lem style [] index replace new k name e = cc
sole_attribute_lem simple (array_index i ∷ rest) index replace new k name e =
    sole_attribute_lem simple rest (index + 1) replace new k name e
sole_attribute_lem style (array_index i ∷ rest) index replace new k name e =
    absurd (cc (sole_attribute-notation style rest (index + 1) none))
sole_attribute_lem style (attribute n ∷ rest) index replace new k name e =
    let (same, empty) =
      sole_attribute-found style rest (index + 1) (index + 1) replace new (index, n) (k, name) e in
    ap (λ (x : ℕ × Bytes). replaced replace x.0 new x.1) same
    ∙ (sym (append-nil _) ∙ ap (λ (t : Bytes). replaced replace index new n ++ t) (sym empty))

-- The short answer, where `render` gives it, is the text of the general loop.
shortcut_lem :
    (p : EventPath) (style : Style) (replace : Option ℕ) (new : Bytes)
    → IsValid p.elements
    → is_json_path style ≡ false
    → shortcut replace new
        (sole_attribute style (view p.elements) 0 none false)
        (render_all p style replace new false)
      ≡ render_all p style replace new false
unfolding root_marker
shortcut_lem p style replace new h plain =
    elim (Option-cases (sole_attribute style (view p.elements) 0 none false)) [
      | inl e ↦ rw e
      | inr ((k, name), e) ↦ rw e (
          sole_attribute_lem style (view p.elements) 0 replace new k name e
          ∙ sym (render_all_lem p style replace new false h ∙ simp (plain, append-nil)))
    ]

list_cases :
    (els : List Element) → (els ≡ []) ⊎ ((e : Element) × (rest : List Element) × (els ≡ e ∷ rest))
list_cases [] = inl refl
list_cases (e ∷ rest) = inr (e, rest, refl)

render-nil :
    (p : EventPath) (style : Style) (replace : Option ℕ) (new : Bytes) (append : Bool)
    → len p ≡ 0
    → render p style replace new append
      ≡ reference style (if append then attribute new ∷ [] else [])
unfolding render reference root_marker body_text tail_text
render-nil p style replace new true e = rw append-nil (ground arith)
render-nil p style replace new false e = ground arith

render-cons :
    (p : EventPath) (style : Style) (replace : Option ℕ) (new : Bytes) (append : Bool)
    → IsValid p.elements
    → (len p ≡ 0 → ⊥)
    → render p style replace new append ≡ render_all p style replace new append
unfolding render
render-cons p style replace new append h ne =
    ground (arith, items-view p.elements h, shortcut_lem p style replace new h)

reference-cons :
    (style : Style) (els : List Element)
    → (length els ≡ 0 → ⊥)
    → reference style els ≡ root_marker style ++ body_text style els
unfolding reference
reference-cons style [] ne = absurd (ne refl)
reference-cons style (e ∷ rest) ne = refl

view-nil : (p : EventPath) → len p ≡ 0 → view p.elements ≡ []
view-nil p e = rw e

dec_len : (p : EventPath) → (len p ≡ 0) ⊎ (len p ≡ 0 → ⊥)
dec_len p = elim (ℕ_discrete (len p) 0) [ yes e ↦ inl e | no ne ↦ inr ne ]

-- The text of a valid path is the reference text of its elements, in every style: the shortcut for
-- a path with one attribute writes what the full rendering would.
pub to_string-view :
    (p : EventPath) (style : Style)
    → IsValid p.elements
    → to_string p style ≡ reference style (view p.elements)
unfolding to_string
to_string-view p style h = elim (dec_len p) [
  | inl e ↦ rw (view-nil p e) (render-nil p style none [] false e)
  | inr ne ↦
      render-cons p style none [] false h ne
      ∙ (render_all_lem p style none [] false h
          ∙ (simp (append-nil, rename-none)
              (sym (
                reference-cons style (view p.elements)
                  (λ e. ne (sym (length-view p.elements h) ∙ e))))))
]

-- The child text of a valid path is the reference text of its elements with the attribute appended.
pub child_string-view :
    (p : EventPath) (name : Bytes) (style : Style)
    → IsValid p.elements
    → child_string p name style ≡ reference style (view p.elements ++ attribute name ∷ [])
unfolding child_string
child_string-view p name style h = elim (dec_len p) [
  | inl e ↦ rw (view-nil p e) (render-nil p style none name true e)
  | inr ne ↦
      render-cons p style none name true h ne
      ∙ (render_all_lem p style none name true h
          ∙ simp (rename-none) (
              sym (
                reference-cons style (view p.elements ++ attribute name ∷ []) (λ e.
                  absurd (omega (arith, e, length-append (view p.elements) (attribute name ∷ []))))
                ∙ ap (λ (t : Bytes). root_marker style ++ t)
                    (body_text-append style (view p.elements) name))))
]

-- rendering with the attribute at one index replaced
pub render_replaced :
    (p : EventPath) (style : Style) (replace : Option ℕ) (new : Bytes)
    → IsValid p.elements
    → render p style replace new false ≡ reference style (rename replace 0 new (view p.elements))
unfolding rename
render_replaced p style replace new h = elim (dec_len p) [
  | inl e ↦ rw (view-nil p e) (render-nil p style replace new false e)
  | inr ne ↦
      render-cons p style replace new false h ne
      ∙ (render_all_lem p style replace new false h
          ∙ simp append-nil (
              sym (
                reference-cons style (rename replace 0 new (view p.elements)) (λ e. ne (
                  sym (length-view p.elements h)
                  ∙ (sym (length-rename replace 0 new (view p.elements)) ∙ e))))))
]
