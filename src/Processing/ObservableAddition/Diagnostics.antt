-- ===== src/Processing/ObservableAddition/Diagnostics.antt =====
-- Which path is reported for a generated observable.
use ocsf_toolkit.Common.{
  ℕ, zero, suc, List, [], ◌∷◌, ◌++◌, Bool, true, false, Option, none, some, Bytes, codes, length,
  replicate, length-replicate, get_elem?, if◌then◌else◌, ◌≡◌, refl, sym, ap, ◌∙◌, arith,
}
use ocsf_toolkit.PathSeq.Refinement.{IsValid, view, items-view}
use ocsf_toolkit.PathStyle.{
  Style, simple, array_brackets, array_wildcard, array_indexed, json_path, unsupported,
}
use ocsf_toolkit.EventValue.{Map}
use ocsf_toolkit.EventPath.{
  Element, attribute, array_index, EventPath, to_string, has_array_index, any_array_index,
}
use ocsf_toolkit.EventPath.Reference.{notation, tail_text, body_text, root_marker, reference}
use ocsf_toolkit.EventPath.Rendering.{to_string-view}
use ocsf_toolkit.Processing.Context.{Context}
use ocsf_toolkit.Processing.ObservableAddition.{
  add_generated_observable, observable_diagnostic_path, grow_paths, recorded, recorded_at,
  needs_diagnostic_path,
}

-- The diagnostic paths, where there are any, stand beside the observables one by one.
abbrev pub IsAlignedTo : Option (List Bytes) → ℕ → Type 0
IsAlignedTo none n = Unit
IsAlignedTo (some paths) n = length paths ≡ n

abbrev pub IsAligned : Context → Type 0
IsAligned c = IsAlignedTo c.observable_diagnostic_paths (length c.observables)

get_elem?-end :
    (paths : List Bytes) (n : ℕ) (path : Bytes)
    → length paths ≡ n
    → get_elem? (paths ++ path ∷ []) n ≡ some path
get_elem?-end [] zero path e = refl
get_elem?-end [] (suc n) path e = grind arith
get_elem?-end (p ∷ paths) zero path e = grind arith
get_elem?-end (p ∷ paths) (suc n) path e = get_elem?-end paths n path (omega arith)

pub recorded-empty :
    (style : Style) (name : Bytes) → recorded (some []) style name ≡ recorded none style name
recorded-empty simple name = refl
recorded-empty array_brackets name = refl
recorded-empty array_wildcard name = refl
recorded-empty array_indexed name = refl
recorded-empty json_path name = refl
recorded-empty unsupported name = refl

recorded-grow_paths :
    (paths : Option (List Bytes)) (n : ℕ) (needed : Bool) (rendered : Bytes) (style : Style)
    (name : Bytes)
    → IsAlignedTo paths n
    → recorded (recorded_at (grow_paths paths n needed rendered) n) style name
      ≡ recorded (if needed then some rendered else none) style name
recorded-grow_paths none n false rendered style name h = refl
recorded-grow_paths (some paths) n false rendered style name h =
    ap (λ (r : Option Bytes). recorded r style name) (get_elem?-end paths n [] h)
    ∙ recorded-empty style name
recorded-grow_paths none n true rendered style name h =
    ap (λ (r : Option Bytes). recorded r style name)
      (get_elem?-end (replicate n []) n rendered (length-replicate n []))
recorded-grow_paths (some paths) n true rendered style name h =
    ap (λ (r : Option Bytes). recorded r style name) (get_elem?-end paths n rendered h)

abbrev filled : Bytes → Bool
filled [] = false
filled (b ∷ s) = true

filled-append : (s t : Bytes) → filled t ≡ true → filled (s ++ t) ≡ true
filled-append [] t h = h
filled-append (b ∷ s) t h = refl

recorded-filled :
    (s : Bytes) (style : Style) (name : Bytes) → filled s ≡ true → recorded (some s) style name ≡ s
recorded-filled [] style name h = grind arith
recorded-filled (b ∷ s) style name h = refl

tail_text-filled :
    (els : List Element) → any_array_index els ≡ true → filled (tail_text array_indexed els) ≡ true
unfolding tail_text any_array_index notation
tail_text-filled [] h = grind arith
tail_text-filled (attribute name ∷ rest) h = refl
tail_text-filled (array_index i ∷ rest) h = refl

reference-filled :
    (els : List Element) → any_array_index els ≡ true → filled (reference array_indexed els) ≡ true
unfolding reference body_text root_marker any_array_index notation
reference-filled [] h = grind arith
reference-filled (attribute name ∷ rest) h =
    filled-append name (tail_text array_indexed rest) (tail_text-filled rest h)
reference-filled (array_index i ∷ rest) h = refl

-- Without an array index the styles but JSONPath write the same text.
tail_text-plain :
    (style : Style) (els : List Element)
    → any_array_index els ≡ false
    → tail_text style els ≡ tail_text array_indexed els
unfolding tail_text any_array_index
tail_text-plain style [] h = refl
tail_text-plain style (attribute name ∷ rest) h =
    ap (λ (r : Bytes). codes "." ++ (name ++ r)) (tail_text-plain style rest h)
tail_text-plain style (array_index i ∷ rest) h = grind arith

body_text-plain :
    (style : Style) (els : List Element)
    → any_array_index els ≡ false
    → body_text style els ≡ body_text array_indexed els
unfolding body_text any_array_index
body_text-plain style [] h = refl
body_text-plain style (attribute name ∷ rest) h =
    ap (λ (r : Bytes). name ++ r) (tail_text-plain style rest h)
body_text-plain style (array_index i ∷ rest) h = grind arith

tail_text-json : (els : List Element) → tail_text json_path els ≡ tail_text array_indexed els
unfolding tail_text notation
tail_text-json [] = refl
tail_text-json (attribute name ∷ rest) =
    ap (λ (r : Bytes). codes "." ++ (name ++ r)) (tail_text-json rest)
tail_text-json (array_index i ∷ rest) =
    ap (λ (r : Bytes). notation array_indexed i ++ r) (tail_text-json rest)

body_text-json : (els : List Element) → body_text json_path els ≡ body_text array_indexed els
unfolding body_text notation
body_text-json [] = refl
body_text-json (attribute name ∷ rest) = ap (λ (r : Bytes). name ++ r) (tail_text-json rest)
body_text-json (array_index i ∷ rest) =
    ap (λ (r : Bytes). notation array_indexed i ++ r) (body_text-json rest)

-- For a style that can omit an index: with one the text that was kept is reported, else the name.
chosen_lem :
    (needed : Bool) (style : Style) (els : List Element)
    → any_array_index els ≡ needed
    → recorded none style (reference style els) ≡ body_text style els
    → body_text array_indexed els ≡ reference array_indexed els
    → recorded
        (if needed then some (reference array_indexed els) else none)
        style
        (reference style els)
      ≡ reference array_indexed els
chosen_lem true style els h name text =
    recorded-filled (reference array_indexed els) style (reference style els)
      (reference-filled els h)
chosen_lem false style els h name text = name ∙ (body_text-plain style els h ∙ text)

-- what is reported for a path that is not the root, in each style
reported_text :
    (style : Style) (path : EventPath) (e : Element) (rest : List Element)
    → any_array_index (e ∷ rest) ≡ has_array_index path
    → recorded
        (if needs_diagnostic_path style path
          then some (reference array_indexed (e ∷ rest))
          else none)
        style
        (reference style (e ∷ rest))
      ≡ reference array_indexed (e ∷ rest)
unfolding reference root_marker
reported_text simple path e rest h = chosen_lem (has_array_index path) simple (e ∷ rest) h refl refl
reported_text array_brackets path e rest h =
    chosen_lem (has_array_index path) array_brackets (e ∷ rest) h refl refl
reported_text array_wildcard path e rest h =
    chosen_lem (has_array_index path) array_wildcard (e ∷ rest) h refl refl
reported_text array_indexed path e rest h = refl
reported_text json_path path e rest h = body_text-json (e ∷ rest)
reported_text unsupported path e rest h =
    chosen_lem (has_array_index path) unsupported (e ∷ rest) h refl refl

has_array_index-view :
    (path : EventPath)
    → IsValid path.elements
    → any_array_index (view path.elements) ≡ has_array_index path
unfolding has_array_index
has_array_index-view path valid = ap any_array_index (sym (items-view path.elements valid))

-- Right after an observable was generated for a valid path that is not the root, the path that is
-- reported for it is the text of the path with its array indexes, whatever the configured notation,
-- when the diagnostic paths stood beside the earlier observables.
pub observable_diagnostic_path_lem :
    (c : Context) (path : EventPath) (observable : Map) (style : Style) (e : Element)
    (rest : List Element)
    → IsValid path.elements
    → view path.elements ≡ e ∷ rest
    → IsAligned c
    → observable_diagnostic_path
        (add_generated_observable c path observable style)
        (length c.observables)
        (to_string path style)
        style
      ≡ to_string path array_indexed
unfolding observable_diagnostic_path add_generated_observable
observable_diagnostic_path_lem c path observable style e rest valid shown aligned =
    recorded-grow_paths c.observable_diagnostic_paths (length c.observables)
      (needs_diagnostic_path style path) (to_string path array_indexed) style (to_string path style)
      aligned
    ∙ rw (to_string-view path style valid, to_string-view path array_indexed valid, shown)
        (reported_text style path e rest
          (ap any_array_index (sym shown) ∙ has_array_index-view path valid))
