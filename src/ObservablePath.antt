-- ===== src/ObservablePath.antt =====
-- internal/observablepath/path.go: the names of observables as paths, and their syntax.
pub mod Print
pub mod Selectors
pub mod RoundTrip
pub mod Termination
pub mod Rendered
pub mod Definition
pub mod Walk
pub mod Notation
pub mod Resolution
use ocsf_toolkit.Common.{
  ℕ, zero, suc, ◌+◌, List, [], ◌∷◌, ◌++◌, Bool, true, false, not, ◌&&◌, ◌||◌, Option, none, some,
  Bytes, bytes_eq, nat_eq, codes, same, length, cut, if◌then◌else◌,
}
use ocsf_toolkit.Common.Decimal.{all_digits, atoi}
use ocsf_toolkit.PathSeq
use ocsf_toolkit.PathSeq.{Sequence}

-- `arraySelector`: the two negative values, and an index
pub data Selector : Type 0 where
  brackets wildcard : Selector
  index : ℕ → Selector

pub record Segment : Type 0 where
  pub attribute : Bytes
  pub selectors : List Selector

abbrev pub zero_segment : Segment
zero_segment = record { attribute = []; selectors = [] }

pub record ObservablePath : Type 0 where
  pub segments : Sequence Segment
  pub rooted : Bool

-- The errors of `Parse` in the order of its texts; the last is no error of the code.
pub data ParseError : Type 0 where
  root_without_attribute root_without_dot empty_path empty_attribute : ParseError
  selector_without_attribute text_after_selector selector_not_closed : ParseError
  not_an_index index_too_large out_of_fuel : ParseError

pub data Result (A : Type 0) : Type 0 where
  ok : A → Result A
  err : ParseError → Result A

infixl 1 ◌>>=◌
abbrev pub ◌>>=◌ : {A B : Type 0} → Result A → (A → Result B) → Result B
ok a >>= f = f a
err e >>= f = err e

abbrev index_of : Option ℕ → Result Selector
index_of none = err index_too_large
index_of (some n) = ok (index n)

-- the selector that stands between two brackets
unfoldable pub parse_selector : Bytes → Result Selector
parse_selector text =
    if same text []
    then ok brackets
    else if same text (codes "*")
    then ok wildcard
    else if all_digits text
    then index_of (atoi text)
    else err not_an_index

abbrev pub closed : Bytes × Option Bytes → Result (Bytes × Bytes)
closed (text, none) = err selector_not_closed
closed (text, some rest) = ok (text, rest)

-- The loop over the selectors, which its fuel bounds by the length of the text.
unfoldable pub parse_selectors : ℕ → Bytes → List Selector → Result (List Selector)
unfolding parse_selector
parse_selectors fuel [] selectors = ok selectors
parse_selectors zero (c ∷ remainder) selectors = err out_of_fuel
parse_selectors (suc fuel) (c ∷ remainder) selectors =
    let found = closed (cut b']' remainder) >>= (λ (text, rest).
      parse_selector text
      >>= (λ selector. parse_selectors fuel rest (selectors ++ selector ∷ []))) in
    if not (same c b'[') then err text_after_selector else found

abbrev pub with_selectors : Bytes → Result (List Selector) → Result Segment
with_selectors attribute (err e) = err e
with_selectors attribute (ok selectors) =
    ok (record { attribute = attribute; selectors = selectors })

abbrev pub cut_segment : Bytes × Option Bytes → Result Segment
cut_segment (attribute, none) = ok (record { attribute = attribute; selectors = [] })
cut_segment (attribute, some selectors) =
    if same attribute []
    then err selector_without_attribute
    else with_selectors attribute (parse_selectors (suc (length selectors)) (b'[' ∷ selectors) [])

-- `parseSegment`
unfoldable pub parse_segment : Bytes → Result Segment
unfolding parse_selectors
parse_segment part = if same part [] then err empty_attribute else cut_segment (cut b'[' part)

-- The loop of `Parse`, whose rounds are fewer than the bytes of the name.
unfoldable pub parse_segments : ℕ → Bytes → Sequence Segment → Result (Sequence Segment)
unfolding parse_segment PathSeq.push
parse_segments zero name segments = err out_of_fuel
parse_segments (suc fuel) name segments =
    let (part, more) = cut b'.' name in
    parse_segment part >>= (λ segment. elim more [
      | none ↦ ok (PathSeq.push segments segment)
      | some remainder ↦ parse_segments fuel remainder (PathSeq.push segments segment)
    ])

abbrev as_path : Bool → Result (Sequence Segment) → Result ObservablePath
as_path rooted (err e) = err e
as_path rooted (ok segments) = ok (record { segments = segments; rooted = rooted })

abbrev parse_name : Bool → Bytes → Result ObservablePath
parse_name rooted [] = err empty_path
parse_name rooted (c ∷ name) =
    as_path rooted
      (parse_segments (suc (length (c ∷ name))) (c ∷ name) (PathSeq.empty zero_segment))

abbrev behind_root : Bytes → Result ObservablePath
behind_root [] = err root_without_attribute
behind_root (c ∷ name) = if same c b'.' then parse_name true name else err root_without_dot

abbrev at_root : Bytes → Result ObservablePath
at_root [] = parse_name false []
at_root (c ∷ name) = if same c b'$' then behind_root name else parse_name false (c ∷ name)

-- `Parse`
unfoldable pub parse : Bytes → Result ObservablePath
unfolding parse_segments PathSeq.empty
parse name = at_root name

abbrev attribute_of : Option Segment → Bytes
attribute_of none = []
attribute_of (some segment) = segment.attribute

-- `FirstAttribute`
unfoldable pub first_attribute : ObservablePath → Bytes
first_attribute p = if same p.segments.len 0 then [] else attribute_of (PathSeq.at p.segments 0)
