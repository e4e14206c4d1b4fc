-- ===== src/EventPath/Reference.antt =====
-- What the text of a path is, stated on its list of elements.
use ocsf_toolkit.Common.{
  ℕ, suc, ◌+◌, List, [], ◌∷◌, ◌++◌, Bool, true, false, Option, none, Bytes, codes, if◌then◌else◌,
  ◌≡◌, refl, sym, ap, append-nil, append_assoc, length,
}
use ocsf_toolkit.PathStyle.{
  Style, array_brackets, array_wildcard, array_indexed, json_path, append_array_notation,
  is_json_path,
}
use ocsf_toolkit.EventPath.{Element, attribute, array_index, replaced}

unfoldable pub notation : Style → ℕ → Bytes
unfolding append_array_notation
notation style index = append_array_notation style [] index

-- the text of the elements behind the first attribute: each attribute follows a dot
unfoldable pub tail_text : Style → List Element → Bytes
tail_text style [] = []
tail_text style (attribute name ∷ rest) = codes "." ++ (name ++ tail_text style rest)
tail_text style (array_index i ∷ rest) = notation style i ++ tail_text style rest

unfoldable pub body_text : Style → List Element → Bytes
unfolding tail_text
body_text style [] = []
body_text style (attribute name ∷ rest) = name ++ tail_text style rest
body_text style (array_index i ∷ rest) = notation style i ++ body_text style rest

unfoldable pub root_marker : Style → Bytes
root_marker style = if is_json_path style then codes "$." else []

-- The root alone is `$` in JSONPath, and nothing in the other styles.
unfoldable pub reference : Style → List Element → Bytes
unfolding body_text root_marker
reference style [] = if is_json_path style then codes "$" else []
reference style (e ∷ rest) = root_marker style ++ body_text style (e ∷ rest)

unfoldable pub has_attribute : List Element → Bool
has_attribute [] = false
has_attribute (attribute name ∷ rest) = true
has_attribute (array_index i ∷ rest) = has_attribute rest

-- the elements with the name of the last attribute replaced
unfoldable pub replace_last : Bytes → List Element → List Element
replace_last new [] = []
replace_last new (array_index i ∷ rest) = array_index i ∷ replace_last new rest
replace_last new (attribute name ∷ rest) =
    let deeper = attribute name ∷ replace_last new rest in
    if has_attribute rest then deeper else attribute new ∷ rest

-- the elements with the attribute at the index `replace` renamed, counted from `index`
unfoldable pub rename : Option ℕ → ℕ → Bytes → List Element → List Element
rename replace index new [] = []
rename replace index new (attribute name ∷ rest) =
    attribute (replaced replace index new name) ∷ rename replace (index + 1) new rest
rename replace index new (array_index i ∷ rest) =
    array_index i ∷ rename replace (index + 1) new rest

pub rename-none : (index : ℕ) (new : Bytes) (els : List Element) → rename none index new els ≡ els
unfolding rename
rename-none index new [] = refl
rename-none index new (attribute name ∷ rest) =
    ap (λ (r : List Element). attribute name ∷ r) (rename-none (index + 1) new rest)
rename-none index new (array_index i ∷ rest) =
    ap (λ (r : List Element). array_index i ∷ r) (rename-none (index + 1) new rest)

pub length-rename :
    (replace : Option ℕ) (index : ℕ) (new : Bytes) (els : List Element)
    → length (rename replace index new els) ≡ length els
unfolding rename
length-rename replace index new [] = refl
length-rename replace index new (attribute name ∷ rest) =
    ap suc (length-rename replace (index + 1) new rest)
length-rename replace index new (array_index i ∷ rest) =
    ap suc (length-rename replace (index + 1) new rest)

pub append_array_notation-notation :
    (style : Style) (b : Bytes) (i : ℕ) → append_array_notation style b i ≡ b ++ notation style i
unfolding append_array_notation notation
append_array_notation-notation array_brackets b i = refl
append_array_notation-notation array_wildcard b i = refl
append_array_notation-notation array_indexed b i = simp append_assoc
append_array_notation-notation json_path b i = simp append_assoc
append_array_notation-notation _ b i = sym (append-nil b)

pub has_attribute-append :
    (els : List Element) (name : Bytes) → has_attribute (els ++ attribute name ∷ []) ≡ true
unfolding has_attribute
has_attribute-append [] name = refl
has_attribute-append (attribute n ∷ els) name = refl
has_attribute-append (array_index i ∷ els) name = has_attribute-append els name

pub tail_text-append :
    (style : Style) (els : List Element) (name : Bytes)
    → tail_text style (els ++ attribute name ∷ []) ≡ tail_text style els ++ (codes "." ++ name)
unfolding tail_text
tail_text-append style [] name = rw append-nil
tail_text-append style (attribute n ∷ els) name =
    simp (tail_text-append style els name, append_assoc)
tail_text-append style (array_index i ∷ els) name =
    simp (tail_text-append style els name, append_assoc)

pub body_text-append :
    (style : Style) (els : List Element) (name : Bytes)
    → body_text style (els ++ attribute name ∷ [])
      ≡ body_text style els ++ ((if has_attribute els then codes "." else []) ++ name)
unfolding body_text has_attribute
body_text-append style [] name = rw append-nil
body_text-append style (attribute n ∷ els) name =
    simp (tail_text-append style els name, append_assoc)
body_text-append style (array_index i ∷ els) name =
    simp (body_text-append style els name, append_assoc)
