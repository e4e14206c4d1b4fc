-- ===== src/ObservablePath/Resolution.antt =====
-- internal/observablepath/path.go: the values that a path selects in an event.
-- Events are trees here. Graph has the same functions on events whose slices and maps can contain
-- themselves, with the sets of the arrays that a loop has seen.
pub mod Gathering
pub mod Agreement
pub mod Graph
use ocsf_toolkit.Common.{
  ℕ, zero, suc, ◌+◌, List, [], ◌∷◌, ◌++◌, Bool, true, false, not, ◌||◌, Option, none, some, Bytes,
  bytes_eq, nat_eq, same, lookup, ltb, length, get_elem?, is_some, if◌then◌else◌,
}
use ocsf_toolkit.EventValue.{
  Value, null, boolean, text, int, number, float32, float64, array, object, unsupported, Items, nil,
  cons, Map, array_view, entries, elements,
}
use ocsf_toolkit.EventValue.Scalar.{NumberLibrary, format_scalar}
use ocsf_toolkit.PathSeq
use ocsf_toolkit.ObservablePath.{Selector, brackets, wildcard, index, Segment, ObservablePath}

-- `Resolution`
pub record Resolution : Type 0 where
  pub found : Bool
  pub matched : Bool
  pub missing : Bool

abbrev pub nothing_selected : Resolution
nothing_selected = record { found = false; matched = false; missing = false }

abbrev pub branch_missing : Resolution
branch_missing = record { found = false; matched = false; missing = true }

abbrev pub value_found : Resolution
value_found = record { found = true; matched = false; missing = false }

abbrev pub or_missing :
    Option Value → (Value → Option (Value × Resolution)) → Option (Value × Resolution)
or_missing none continue = some (null, branch_missing)
or_missing (some inner) continue = continue inner

-- one step of `resolveSingle` into a value that is no array; none where the walk ends
abbrev pub single_attribute :
    Bytes → Value → (Value → Option (Value × Resolution)) → Option (Value × Resolution)
single_attribute name null continue = some (null, branch_missing)
single_attribute name (object fs) continue = or_missing (lookup name (entries fs)) continue
single_attribute name value continue = some (null, nothing_selected)

-- `resolveSingle` from a segment on; none where it is not handled
unfoldable pub single_from : List Segment → Value → Option (Value × Resolution)
unfolding array_view
single_from [] current = if is_some (array_view current) then none else some (current, value_found)
single_from (segment ∷ rest) current =
    if not (same (length segment.selectors) 0) || is_some (array_view current)
    then none
    else single_attribute segment.attribute current (λ inner. single_from rest inner)

-- the elements that a selector takes from an array, and whether it takes none
abbrev pub taken : {A : Type 0} → List A → Option A → List A × Bool
taken result none = (result, true)
taken result (some v) = (result ++ v ∷ [], false)

abbrev pub all_of : {A : Type 0} → List A → List A → List A × Bool
all_of result [] = (result, true)
all_of result (v ∷ vs) = (result ++ v ∷ vs, false)

abbrev pub select : {A : Type 0} → List A → List A → Selector → List A × Bool
select result vs (index i) = taken result (get_elem? vs i)
select result vs selector = all_of result vs

abbrev pub select_in : {A : Type 0} → List A → Option (List A) → Selector → List A × Bool
select_in result none selector = (result, false)
select_in result (some vs) selector = select result vs selector

-- `applySelectorToValue`
unfoldable pub apply_selector_to_value : List Value → Value → Selector → List Value × Bool
unfolding array_view
apply_selector_to_value result value selector = select_in result (array_view value) selector

-- the loop of `applySelector`
unfoldable pub apply_selector : List Value → Selector → List Value → Bool → List Value × Bool
unfolding array_view
apply_selector [] selector result missing = (result, missing)
apply_selector (value ∷ rest) selector result missing =
    let (selected, selection_missing) = select_in result (array_view value) selector in
    apply_selector rest selector selected (missing || selection_missing)

abbrev pub unless_empty :
    {A : Type 0} → List A × Bool → Bool → (List A → Bool → List A × Bool) → List A × Bool
unless_empty ([], selection_missing) missing continue = ([], missing || selection_missing)
unless_empty (v ∷ vs, selection_missing) missing continue =
    continue (v ∷ vs) (missing || selection_missing)

-- the loop over more than one selector
unfoldable pub apply_selectors : List Selector → List Value → Bool → List Value × Bool
unfolding apply_selector
apply_selectors [] selected missing = (selected, missing)
apply_selectors (selector ∷ rest) selected missing =
    unless_empty (apply_selector selected selector [] false) missing
      (λ vs m. apply_selectors rest vs m)

abbrev pub select_from : List Value → List Selector → Value → List Value × Bool
select_from result [] value = (result ++ value ∷ [], false)
select_from result (selector ∷ []) value = apply_selector_to_value result value selector
select_from result (selector ∷ (second ∷ more)) value =
    let (selected, missing) = apply_selectors (selector ∷ (second ∷ more)) (value ∷ []) false in
    (result ++ selected, missing)

abbrev pub attribute_candidates : List Value → List Selector → Option Value → List Value × Bool
attribute_candidates result selectors none = (result, true)
attribute_candidates result selectors (some value) = select_from result selectors value

-- the round of `resolveSegmentCandidates` for a value that is no array
abbrev pub candidates : List Value → Segment → Value → List Value × Bool
candidates result segment null = (result, true)
candidates result segment (object fs) =
    attribute_candidates result segment.selectors (lookup segment.attribute (entries fs))
candidates result segment value = (result, false)

-- The loop of `resolveSegmentCandidates`. The head of `stack` is the last value of Go's stack, so
-- that the elements of an array, pushed from the last to the first, stand in order before it.
unfoldable pub segment_candidates :
    ℕ → Segment → List Value → List Value → Bool → Option (List Value × Bool)
unfolding array_view apply_selectors apply_selector_to_value
segment_candidates fuel segment [] result missing = some (result, missing)
segment_candidates zero segment (value ∷ stack) result missing = none
segment_candidates (suc fuel) segment (value ∷ stack) result missing = elim (array_view value) [
  | none ↦
      let (more, selection_missing) = candidates result segment value in
      segment_candidates fuel segment stack more (missing || selection_missing)
  | some vs ↦ segment_candidates fuel segment (vs ++ stack) result (missing || same (length vs) 0)
]

-- the loop of `matchCandidates`
unfoldable pub match_candidates : ℕ → (Value → Bool) → List Value → Resolution → Option Resolution
unfolding array_view
match_candidates fuel matches [] resolution = some resolution
match_candidates zero matches (value ∷ stack) resolution = none
match_candidates (suc fuel) matches (value ∷ stack) resolution = elim (array_view value) [
  | some vs ↦ match_candidates fuel matches (vs ++ stack) resolution
  | none ↦
      let rest = match_candidates fuel matches stack (record resolution { found = true }) in
      if matches value then some (record resolution { found = true; matched = true }) else rest
]

-- the arrays and the other values that the loops meet in a value: the rounds that they take
unfoldable mutual
  pub rounds : Value → ℕ
  rounds (array container element vs) = suc (item_rounds vs)
  rounds _ = 1

  pub item_rounds : Items → ℕ
  item_rounds nil = 0
  item_rounds (cons v vs) = rounds v + item_rounds vs

unfoldable pub all_rounds : List Value → ℕ
unfolding rounds
all_rounds [] = 0
all_rounds (v ∷ vs) = rounds v + all_rounds vs

-- `stack := values`, whose last value is the first to be popped
abbrev pub reversed : {A : Type 0} → List A → List A
reversed [] = []
reversed (v ∷ vs) = reversed vs ++ v ∷ []

abbrev pub unless_none_left :
    {A : Type 0} → Option (List A × Bool) → (List A → Bool → Option Resolution) → Option Resolution
unless_none_left none continue = none
unless_none_left (some ([], missing)) continue =
    some (record { found = false; matched = false; missing = missing })
unless_none_left (some (v ∷ vs, missing)) continue = continue (v ∷ vs) missing

-- the loop of `resolve` over the segments, and the match behind it
unfoldable pub resolve_from : (Value → Bool) → List Segment → List Value → Bool → Option Resolution
unfolding segment_candidates match_candidates all_rounds
resolve_from matches [] current missing =
    match_candidates (all_rounds current) matches (reversed current)
      (record { found = false; matched = false; missing = missing })
resolve_from matches (segment ∷ rest) current missing =
    unless_none_left (segment_candidates (all_rounds current) segment (reversed current) [] missing)
      (λ vs m. resolve_from matches rest vs m)

abbrev pub with_match : (Value → Bool) → Value × Resolution → Resolution
with_match matches (value, resolution) =
    if resolution.found then record resolution { matched = matches value } else resolution

abbrev pub or_general :
    (Value → Bool) → Option (Value × Resolution) → Option Resolution → Option Resolution
or_general matches (some handled) general = some (with_match matches handled)
or_general matches none general = general

-- `resolve`; none would be a loop that does not end
unfoldable pub resolve : (Value → Bool) → ObservablePath → Value → Option Resolution
unfolding single_from resolve_from PathSeq.items
resolve matches p event =
    or_general matches (single_from (PathSeq.items p.segments) event)
      (resolve_from matches (PathSeq.items p.segments) (event ∷ []) false)

-- `objectValueMatches`, `nullValueMatches` and `scalarStringMatches`
abbrev pub is_object : Value → Bool
is_object (object fs) = true
is_object _ = false

abbrev pub is_null : Value → Bool
is_null null = true
is_null _ = false

abbrev pub is_text : Option Bytes → Bytes → Bool
is_text none expected = false
is_text (some actual) expected = same actual expected

module _ (lib : NumberLibrary) where
  unfoldable pub scalar_string_matches : Bytes → Value → Bool
  unfolding format_scalar
  scalar_string_matches expected (object fs) = false
  scalar_string_matches expected (array container element vs) = false
  scalar_string_matches expected null = false
  scalar_string_matches expected value = is_text (format_scalar lib value) expected

  unfoldable pub resolve_string : ObservablePath → Value → Bytes → Option Resolution
  unfolding resolve scalar_string_matches
  resolve_string p event expected = resolve (scalar_string_matches expected) p event

unfoldable pub resolve_object : ObservablePath → Value → Option Resolution
unfolding resolve
resolve_object p event = resolve is_object p event

unfoldable pub resolve_null : ObservablePath → Value → Option Resolution
unfolding resolve
resolve_null p event = resolve is_null p event
