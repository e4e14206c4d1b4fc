-- ===== src/EventPath.antt =====
-- internal/eventpath/path.go: the path that a traversal keeps while it walks an event.
-- `index int` is a natural number: a traversal pushes the indexes of its loops only.
pub mod Reference
pub mod Rendering
pub mod LastAttribute
pub mod LengthBound
use ocsf_toolkit.Common.{
  ℕ, zero, suc, ◌+◌, List, [], ◌∷◌, ◌++◌, Bool, true, false, not, ◌&&◌, ◌||◌, Option, none, some,
  Bytes, bytes_eq, codes, ◌==◌, ltb, same, length, is_some, if◌then◌else◌,
}
use ocsf_toolkit.PathSeq
use ocsf_toolkit.PathSeq.{Sequence}
use ocsf_toolkit.PathStyle.{Style, append_array_notation, is_json_path, is_simple}

-- Go's `element` has a kind, and the field that its kind uses.
pub data Element : Type 0 where
  attribute : Bytes → Element
  array_index : ℕ → Element

abbrev pub zero_element : Element
zero_element = attribute []

pub record EventPath : Type 0 where
  pub elements : Sequence Element

unfoldable pub root : EventPath
unfolding PathSeq.empty
root = record { elements = PathSeq.empty zero_element }

unfoldable pub push_attribute : EventPath → Bytes → EventPath
push_attribute p name = record { elements = PathSeq.push p.elements (attribute name) }

unfoldable pub push_array_index : EventPath → ℕ → EventPath
push_array_index p index = record { elements = PathSeq.push p.elements (array_index index) }

unfoldable pub pop : EventPath → EventPath
pop p = record { elements = PathSeq.pop zero_element p.elements }

abbrev pub len : EventPath → ℕ
len p = p.elements.len

-- `none` is the false flag, of an index out of range or of an array index.
abbrev as_attribute : Option Element → Option Bytes
as_attribute (some (attribute name)) = some name
as_attribute _ = none

unfoldable pub attribute_at : EventPath → ℕ → Option Bytes
attribute_at p index =
    if ltb index (len p) then as_attribute (PathSeq.at p.elements index) else none

unfoldable pub any_array_index : List Element → Bool
any_array_index [] = false
any_array_index (attribute name ∷ rest) = any_array_index rest
any_array_index (array_index i ∷ rest) = true

unfoldable pub has_array_index : EventPath → Bool
unfolding any_array_index
has_array_index p = any_array_index (PathSeq.items p.elements)

-- the loop from the last index down to the first attribute that it meets
last_attribute_below : EventPath → ℕ → Option ℕ
last_attribute_below p zero = none
last_attribute_below p (suc index) =
    let rest = last_attribute_below p index in
    if is_some (as_attribute (PathSeq.at p.elements index)) then some index else rest

-- `element.kind == elementAttribute && element.name == name`
abbrev names : Option Element → Bytes → Bool
names (some (attribute n)) name = same n name
names _ name = false

-- the loop over the indexes below `index + rounds`, from `index` on
attribute_from : EventPath → Bytes → ℕ → ℕ → Bool
attribute_from p name index zero = false
attribute_from p name index (suc rounds) =
    let rest = attribute_from p name (index + 1) rounds in
    if names (PathSeq.at p.elements index) name then true else rest

abbrev attribute_before : EventPath → Bytes → Option ℕ → Bool
attribute_before p name none = false
attribute_before p name (some current) = attribute_from p name 0 current

unfoldable pub has_prior_attribute : EventPath → Bytes → Bool
unfolding last_attribute_below attribute_from
has_prior_attribute p name = attribute_before p name (last_attribute_below p (len p))

-- The first loop of `render`: the only attribute with its index, if there is one and no array
-- notation is due. `found` is `attributeIndex`, and a second attribute ends the loop.
sole_attribute : Style → List Element → ℕ → Option (ℕ × Bytes) → Bool → Option (ℕ × Bytes)
sole_attribute style [] index found notation = if notation then none else found
sole_attribute style (array_index i ∷ rest) index found notation =
    sole_attribute style rest (index + 1) found (notation || not (is_simple style))
sole_attribute style (attribute name ∷ rest) index (some earlier) notation = none
sole_attribute style (attribute name ∷ rest) index none notation =
    sole_attribute style rest (index + 1) (some (index, name)) notation

-- `replace` is none where Go has the index -1.
abbrev replaced : Option ℕ → ℕ → Bytes → Bytes → Bytes
replaced none index new name = name
replaced (some r) index new name = if index == r then new else name

-- The second loop of `render`; the pair is `attributeWritten` and the builder.
write_elements : Style → Option ℕ → Bytes → List Element → ℕ → Bool → Bytes → Bool × Bytes
write_elements style replace new [] index written builder = (written, builder)
write_elements style replace new (attribute name ∷ rest) index written builder =
    write_elements style replace new rest (index + 1) true
      ((if written then builder ++ codes "." else builder) ++ replaced replace index new name)
write_elements style replace new (array_index i ∷ rest) index written builder =
    write_elements style replace new rest (index + 1) written
      (append_array_notation style builder i)

-- what `render` writes when the first loop found no short answer
render_all : EventPath → Style → Option ℕ → Bytes → Bool → Bytes
unfolding write_elements
render_all p style replace new append =
    let (written, builder) =
      write_elements style replace new (PathSeq.items p.elements) 0 false
        (if is_json_path style then codes "$." else []) in
    if append then (if written then builder ++ codes "." else builder) ++ new else builder

abbrev shortcut : Option ℕ → Bytes → Option (ℕ × Bytes) → Bytes → Bytes
shortcut replace new none long = long
shortcut replace new (some (index, name)) long = replaced replace index new name

unfoldable pub render : EventPath → Style → Option ℕ → Bytes → Bool → Bytes
unfolding sole_attribute render_all
render p style replace new append =
    if len p == 0
    then (if append
        then (if is_json_path style then codes "$." ++ new else new)
        else (if is_json_path style then codes "$" else []))
    else if not append && not (is_json_path style)
    then shortcut replace new (sole_attribute style (PathSeq.items p.elements) 0 none false)
        (render_all p style replace new append)
    else render_all p style replace new append

unfoldable pub to_string : EventPath → Style → Bytes
to_string p style = render p style none [] false

unfoldable pub child_string : EventPath → Bytes → Style → Bytes
child_string p name style = render p style none name true

unfoldable pub sibling_string : EventPath → Bytes → Style → Bytes
unfolding last_attribute_below
sibling_string p name style = render p style (last_attribute_below p (len p)) name false

-- `estimatedRenderedLength`
abbrev max_array_notation_length : ℕ
max_array_notation_length = 22

estimate : List Element → ℕ → ℕ
estimate [] n = n
estimate (attribute name ∷ rest) n = estimate rest (n + (length name + 1))
estimate (array_index i ∷ rest) n = estimate rest (n + max_array_notation_length)

unfoldable pub estimated_rendered_length : EventPath → Bytes → ℕ
unfolding estimate
estimated_rendered_length p new = estimate (PathSeq.items p.elements) (length new + 2)
