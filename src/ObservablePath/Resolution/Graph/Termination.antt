-- ===== src/ObservablePath/Resolution/Graph/Termination.antt =====
-- The loops over an event that can contain itself end, because no slice is expanded twice.
use ocsf_toolkit.Common.{ℕ, suc, ◌+◌, List, [], ◌∷◌, nat_eq, length, contains, if◌then◌else◌}
use ocsf_toolkit.PathSeq
use ocsf_toolkit.ObservablePath.{ObservablePath}
use ocsf_toolkit.ObservablePath.Resolution.{Resolution}
use ocsf_toolkit.ObservablePath.Resolution.Graph.{GraphValue, Heap}

-- the elements of the slices from an identity on that were not seen
unseen : List (List GraphValue) → ℕ → List ℕ → ℕ
unseen [] first seen = 0
unseen (vs ∷ rest) first seen =
    (if contains seen first then 0 else length vs) + unseen rest (suc first) seen

-- what the loops still have to do
abbrev work : Heap → List GraphValue → List ℕ → ℕ
work heap stack seen = length stack + unseen heap.slices 0 seen
