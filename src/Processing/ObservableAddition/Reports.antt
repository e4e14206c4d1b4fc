-- ===== src/Processing/ObservableAddition/Reports.antt =====
-- The paths that are reported, at the end of an event, for the observables generated in it.
use ocsf_toolkit.Common.{
  ℕ, zero, suc, ◌+◌, ◌<◌, ◌≡◌, ◌≢◌, refl, sym, ap, ◌∙◌, List, [], ◌∷◌, ◌++◌, Bool, true, false,
  Option, none, some, Bytes, arith, length, length-append, replicate, get_elem?,
}
use ocsf_toolkit.PathSeq.Lists.{get_elem?-append_left}
use ocsf_toolkit.PathSeq.Refinement.{IsValid, view}
use ocsf_toolkit.PathStyle.{Style, array_indexed}
use ocsf_toolkit.EventValue.{Map}
use ocsf_toolkit.EventPath.{Element, EventPath, to_string}
use ocsf_toolkit.Processing.Context.{Context}
use ocsf_toolkit.Processing.ObservableAddition.{
  add_generated_observable, observable_diagnostic_path, grow_paths, recorded, recorded_at,
  needs_diagnostic_path,
}
use ocsf_toolkit.Processing.ObservableAddition.Diagnostics.{
  IsAligned, IsAlignedTo, recorded-empty, observable_diagnostic_path_lem,
}
use ocsf_toolkit.Processing.ObservableAddition.Alignment.{add_generated_observable-IsAligned}

get_elem?-replicate :
    (n i : ℕ) (last : Bytes) → i < n → get_elem? (replicate n [] ++ last ∷ []) i ≡ some []
get_elem?-replicate zero i last h = grind arith
get_elem?-replicate (suc n) zero last h = refl
get_elem?-replicate (suc n) (suc i) last h = get_elem?-replicate n i last (omega arith)

recorded_at-append :
    (paths : List Bytes) (n i : ℕ) (last : Bytes)
    → length paths ≡ n
    → i < n
    → get_elem? (paths ++ last ∷ []) i ≡ get_elem? paths i
recorded_at-append paths n i last h lt =
    sym (get_elem?-append_left paths (last ∷ []) i (omega (arith, h, lt)))

-- An addition leaves what is recorded for the earlier observables.
recorded_at-grow_paths :
    (paths : Option (List Bytes)) (n i : ℕ) (needed : Bool) (rendered : Bytes) (style : Style)
    (name : Bytes)
    → IsAlignedTo paths n
    → i < n
    → recorded (recorded_at (grow_paths paths n needed rendered) i) style name
      ≡ recorded (recorded_at paths i) style name
recorded_at-grow_paths none n i false rendered style name h lt = refl
recorded_at-grow_paths (some paths) n i false rendered style name h lt =
    ap (λ (r : Option Bytes). recorded r style name) (recorded_at-append paths n i [] h lt)
recorded_at-grow_paths none n i true rendered style name h lt =
    ap (λ (r : Option Bytes). recorded r style name) (get_elem?-replicate n i rendered lt)
    ∙ recorded-empty style name
recorded_at-grow_paths (some paths) n i true rendered style name h lt =
    ap (λ (r : Option Bytes). recorded r style name) (recorded_at-append paths n i rendered h lt)

-- the generated observables of an event, one after the other, each with its path
abbrev pub generate : List (EventPath × Map) → Style → Context → Context
generate [] style c = c
generate ((path, observable) ∷ rest) style c =
    generate rest style (add_generated_observable c path observable style)

-- a valid path that is not the root
pub record IsProper (path : EventPath) : Type 0 where
  pub valid : IsValid path.elements
  pub not_root : view path.elements ≢ []

abbrev pub AllProper : List (EventPath × Map) → Type 0
AllProper [] = Unit
AllProper ((path, observable) ∷ rest) = IsProper path × AllProper rest

module _ (style : Style) where
  kept_once :
      (c : Context) (path : EventPath) (observable : Map) (i : ℕ) (name : Bytes)
      → IsAligned c
      → i < length c.observables
      → observable_diagnostic_path (add_generated_observable c path observable style) i name style
        ≡ observable_diagnostic_path c i name style
  unfolding observable_diagnostic_path add_generated_observable
  kept_once c path observable i name h lt =
      recorded_at-grow_paths c.observable_diagnostic_paths (length c.observables) i
        (needs_diagnostic_path style path) (to_string path array_indexed) style name h lt

  one_more :
      (c : Context) (path : EventPath) (observable : Map)
      → length (add_generated_observable c path observable style).observables
        ≡ length c.observables + 1
  unfolding add_generated_observable
  one_more c path observable = length-append c.observables (observable ∷ [])

  kept :
      (adds : List (EventPath × Map)) (c : Context) (i : ℕ) (name : Bytes)
      → IsAligned c
      → i < length c.observables
      → observable_diagnostic_path (generate adds style c) i name style
        ≡ observable_diagnostic_path c i name style
  kept [] c i name h lt = refl
  kept ((path, observable) ∷ rest) c i name h lt =
      kept rest (add_generated_observable c path observable style) i name
        (add_generated_observable-IsAligned c path observable style h)
        (omega (arith, lt, one_more c path observable))
      ∙ kept_once c path observable i name h lt

  added_last :
      (els : List Element) (c : Context) (path : EventPath) (observable : Map)
      → view path.elements ≡ els
      → IsProper path
      → IsAligned c
      → observable_diagnostic_path
          (add_generated_observable c path observable style)
          (length c.observables)
          (to_string path style)
          style
        ≡ to_string path array_indexed
  added_last [] c path observable shown proper h = absurd (proper.not_root shown)
  added_last (e ∷ rest) c path observable shown proper h =
      observable_diagnostic_path_lem c path observable style e rest proper.valid shown h

  -- the observable that was added first, after the additions behind it
  first_reported :
      (rest : List (EventPath × Map)) (c : Context) (n : ℕ) (p path : EventPath) (observable : Map)
      → p ≡ path
      → n ≡ length c.observables
      → IsAligned c
      → IsProper p
      → observable_diagnostic_path
          (generate rest style (add_generated_observable c p observable style))
          n
          (to_string path style)
          style
        ≡ to_string path array_indexed
  first_reported rest c n p path observable same_path e h proper =
      kept rest (add_generated_observable c p observable style) n (to_string path style)
        (add_generated_observable-IsAligned c p observable style h)
        (omega (arith, e, one_more c p observable))
      ∙ rw (e, sym same_path) (added_last (view p.elements) c p observable refl proper h)

  reported_at :
      (adds : List (EventPath × Map)) (c : Context) (n i : ℕ) (path : EventPath) (observable : Map)
      → n ≡ length c.observables + i
      → IsAligned c
      → AllProper adds
      → get_elem? adds i ≡ some (path, observable)
      → observable_diagnostic_path (generate adds style c) n (to_string path style) style
        ≡ to_string path array_indexed
  reported_at [] c n i path observable e h proper there = absurd cc
  reported_at ((p, o) ∷ rest) c n zero path observable e h (proper, more) there =
      first_reported rest c n p path o (grind (arith, there)) (omega (arith, e)) h proper
  reported_at ((p, o) ∷ rest) c n (suc i) path observable e h (proper, more) there =
      reported_at rest (add_generated_observable c p o style) n i path observable
        (omega (arith, e, one_more c p o)) (add_generated_observable-IsAligned c p o style h) more
        there

  -- After the observables of any list of valid paths that are not the root were generated one after the
  -- other, the path that is reported for each of them is the text of its own path with the array
  -- indexes, whatever the configured notation, when the diagnostic paths stood beside the earlier
  -- observables or none were kept.
  pub generated_paths_are_reported :
      (adds : List (EventPath × Map)) (c : Context) (i : ℕ) (path : EventPath) (observable : Map)
      → IsAligned c
      → AllProper adds
      → get_elem? adds i ≡ some (path, observable)
      → observable_diagnostic_path
          (generate adds style c)
          (length c.observables + i)
          (to_string path style)
          style
        ≡ to_string path array_indexed
  generated_paths_are_reported adds c i path observable h proper there =
      reported_at adds c (length c.observables + i) i path observable refl h proper there
