-- ===== src/ObservablePath/Resolution/Graph.antt =====
-- internal/observablepath/path.go on events that can contain themselves: slices and maps are
-- references into a heap, as in Go, and each loop keeps the set of the arrays that it has seen.
-- Arrays of fixed size, which Go does not track and which hold their elements themselves, are left out.
pub mod Termination
use ocsf_toolkit.Common.{
  ℕ, zero, suc, ◌+◌, List, [], ◌∷◌, ◌++◌, Bool, true, false, not, ◌||◌, Option, none, some, Bytes,
  bytes_eq, nat_eq, same, lookup, length, get_elem?, is_some, contains, if◌then◌else◌,
}
use ocsf_toolkit.EventValue.{Value, null}
use ocsf_toolkit.PathSeq
use ocsf_toolkit.ObservablePath.{Selector, Segment, ObservablePath}
use ocsf_toolkit.ObservablePath.Resolution.{
  Resolution, nothing_selected, branch_missing, value_found, select_in, unless_empty, reversed,
  unless_none_left,
}

-- A value that is neither a slice nor a map, or the identity of a slice or of a map. The identity of a
-- slice is Go's `arrayIdentity`.
pub data GraphValue : Type 0 where
  plain : Value → GraphValue
  slice_at map_at : ℕ → GraphValue

-- the elements of the slices and the entries of the maps, by their identity
pub record Heap : Type 0 where
  pub slices : List (List GraphValue)
  pub maps : List (List (Bytes × GraphValue))

abbrev pub or_empty : {A : Type 0} → Option (List A) → List A
or_empty none = []
or_empty (some items) = items

abbrev pub slice_elements : Heap → ℕ → List GraphValue
slice_elements heap id = or_empty (get_elem? heap.slices id)

abbrev pub map_entries : Heap → ℕ → List (Bytes × GraphValue)
map_entries heap id = or_empty (get_elem? heap.maps id)

abbrev pub all_elements : List (List GraphValue) → ℕ
all_elements [] = 0
all_elements (vs ∷ rest) = length vs + all_elements rest

module _ (heap : Heap) where
  -- `NewArrayView`
  abbrev pub view_of : GraphValue → Option (List GraphValue)
  view_of (slice_at id) = some (slice_elements heap id)
  view_of _ = none

  -- the loop of `applySelector`
  unfoldable pub apply_selector :
      List GraphValue → Selector → List GraphValue → Bool → List GraphValue × Bool
  apply_selector [] selector result missing = (result, missing)
  apply_selector (value ∷ rest) selector result missing =
      let (selected, selection_missing) = select_in result (view_of value) selector in
      apply_selector rest selector selected (missing || selection_missing)

  -- the loop over more than one selector
  unfoldable pub apply_selectors : List Selector → List GraphValue → Bool → List GraphValue × Bool
  unfolding apply_selector
  apply_selectors [] selected missing = (selected, missing)
  apply_selectors (selector ∷ rest) selected missing =
      unless_empty (apply_selector selected selector [] false) missing
        (λ vs m. apply_selectors rest vs m)

  abbrev select_from : List GraphValue → List Selector → GraphValue → List GraphValue × Bool
  select_from result [] value = (result ++ value ∷ [], false)
  select_from result (selector ∷ []) value = select_in result (view_of value) selector
  select_from result (selector ∷ (second ∷ more)) value =
      let (selected, missing) = apply_selectors (selector ∷ (second ∷ more)) (value ∷ []) false in
      (result ++ selected, missing)

  abbrev attribute_candidates :
      List GraphValue → List Selector → Option GraphValue → List GraphValue × Bool
  attribute_candidates result selectors none = (result, true)
  attribute_candidates result selectors (some value) = select_from result selectors value

  -- the round of `resolveSegmentCandidates` for a value that is no array
  unfoldable pub candidates : List GraphValue → Segment → GraphValue → List GraphValue × Bool
  unfolding apply_selectors
  candidates result segment (plain null) = (result, true)
  candidates result segment (map_at id) =
      attribute_candidates result segment.selectors (lookup segment.attribute (map_entries heap id))
  candidates result segment _ = (result, false)

  -- The elements that a loop pushes for a slice, and the set of seen arrays behind it: an array that
  -- was seen pushes none, and an empty one is not tracked.
  abbrev pub expand : List ℕ → ℕ → List GraphValue → List GraphValue × List ℕ
  expand seen id [] = ([], seen)
  expand seen id (v ∷ vs) = if contains seen id then ([], seen) else (v ∷ vs, id ∷ seen)

  -- the loop of `resolveSegmentCandidates`; the head of `stack` is the last value of Go's stack
  unfoldable pub segment_candidates :
      ℕ
      → Segment
      → List GraphValue
      → List ℕ
      → List GraphValue
      → Bool
      → Option (List GraphValue × Bool)
  unfolding candidates
  segment_candidates fuel segment [] seen result missing = some (result, missing)
  segment_candidates zero segment (value ∷ stack) seen result missing = none
  segment_candidates (suc fuel) segment (slice_at id ∷ stack) seen result missing =
      let (pushed, seen') = expand seen id (slice_elements heap id) in
      segment_candidates fuel segment (pushed ++ stack) seen' result
        (missing || same (length (slice_elements heap id)) 0)
  segment_candidates (suc fuel) segment (value ∷ stack) seen result missing =
      let (more, selection_missing) = candidates result segment value in
      segment_candidates fuel segment stack seen more (missing || selection_missing)

  -- the loop of `matchCandidates`
  unfoldable pub match_candidates :
      ℕ → (GraphValue → Bool) → List GraphValue → List ℕ → Resolution → Option Resolution
  match_candidates fuel matches [] seen resolution = some resolution
  match_candidates zero matches (value ∷ stack) seen resolution = none
  match_candidates (suc fuel) matches (slice_at id ∷ stack) seen resolution =
      let (pushed, seen') = expand seen id (slice_elements heap id) in
      match_candidates fuel matches (pushed ++ stack) seen' resolution
  match_candidates (suc fuel) matches (value ∷ stack) seen resolution =
      let rest = match_candidates fuel matches stack seen (record resolution { found = true }) in
      if matches value then some (record resolution { found = true; matched = true }) else rest

  -- The rounds of a loop: its stack, and every element of every slice once.
  abbrev pub loop_rounds : List GraphValue → ℕ
  loop_rounds stack = length (reversed stack) + all_elements heap.slices

  -- the loop of `resolve` over the segments, and the match behind it
  unfoldable pub resolve_from :
      (GraphValue → Bool) → List Segment → List GraphValue → Bool → Option Resolution
  unfolding segment_candidates match_candidates
  resolve_from matches [] current missing =
      match_candidates (loop_rounds current) matches (reversed current) []
        (record { found = false; matched = false; missing = missing })
  resolve_from matches (segment ∷ rest) current missing =
      unless_none_left
        (segment_candidates (loop_rounds current) segment (reversed current) [] [] missing)
        (λ vs m. resolve_from matches rest vs m)

  abbrev pub or_missing :
      Option GraphValue
      → (GraphValue → Option (GraphValue × Resolution))
      → Option (GraphValue × Resolution)
  or_missing none continue = some (plain null, branch_missing)
  or_missing (some inner) continue = continue inner

  abbrev pub single_attribute :
      Bytes
      → GraphValue
      → (GraphValue → Option (GraphValue × Resolution))
      → Option (GraphValue × Resolution)
  single_attribute name (plain null) continue = some (plain null, branch_missing)
  single_attribute name (map_at id) continue =
      or_missing (lookup name (map_entries heap id)) continue
  single_attribute name value continue = some (plain null, nothing_selected)

  -- `resolveSingle` from a segment on; none where it is not handled
  unfoldable pub single_from : List Segment → GraphValue → Option (GraphValue × Resolution)
  single_from [] current = if is_some (view_of current) then none else some (current, value_found)
  single_from (segment ∷ rest) current =
      if not (same (length segment.selectors) 0) || is_some (view_of current)
      then none
      else single_attribute segment.attribute current (λ inner. single_from rest inner)

  abbrev pub or_general :
      (GraphValue → Bool) → Option (GraphValue × Resolution) → Option Resolution → Option Resolution
  or_general matches (some (value, resolution)) general =
      some (if resolution.found then record resolution { matched = matches value } else resolution)
  or_general matches none general = general

  -- `resolve`; none would be a loop that does not end
  unfoldable pub resolve : (GraphValue → Bool) → ObservablePath → GraphValue → Option Resolution
  unfolding single_from resolve_from PathSeq.items
  resolve matches p event =
      or_general matches (single_from (PathSeq.items p.segments) event)
        (resolve_from matches (PathSeq.items p.segments) (event ∷ []) false)
