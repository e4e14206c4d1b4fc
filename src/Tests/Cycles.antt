-- ===== src/Tests/Cycles.antt =====
-- A slice that contains itself, under a path that goes through it.
use ocsf_toolkit.Common.{◌≡◌, refl, [], ◌∷◌, Bool, true, false, some, bytes_eq, codes, nat_eq}
use ocsf_toolkit.EventValue.{text}
use ocsf_toolkit.ObservablePath.{ObservablePath, Segment, brackets}
use ocsf_toolkit.ObservablePath.Resolution.{Resolution}
use ocsf_toolkit.ObservablePath.Resolution.Graph.{
  GraphValue, plain, slice_at, map_at, Heap, resolve,
}

abbrev segment : Segment
segment = record { attribute = codes "names"; selectors = brackets ∷ [] }

abbrev names_path : ObservablePath
names_path = record {
  segments = record {
    inline = segment ∷ segment ∷ segment ∷ segment ∷ segment ∷ segment ∷ segment ∷ segment ∷ [];
    overflow = [];
    len = 1;
  };
  rooted = false;
}

-- The map 0 is the event, and the slice 0 holds itself and a text.
abbrev heap : Heap
heap = record {
  slices = (slice_at 0 ∷ plain (text (codes "a")) ∷ []) ∷ [];
  maps = ((codes "names", slice_at 0) ∷ []) ∷ [];
}

abbrev is_map : GraphValue → Bool
is_map (map_at id) = true
is_map _ = false

the_text_is_found :
    resolve heap is_map names_path (map_at 0)
    ≡ some (record { found = true; matched = false; missing = false })
unfolding resolve
the_text_is_found = refl
