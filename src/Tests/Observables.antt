-- ===== src/Tests/Observables.antt =====
-- Deduplication and filtering of small collections.
use ocsf_toolkit.Common.{◌≡◌, refl, inr, [], ◌∷◌, true, false, Bytes, codes, length}
use ocsf_toolkit.Common.Int.{pos}
use ocsf_toolkit.EventValue.{Map, text, int, object, slice, any_element, fields_of}
use ocsf_toolkit.Observable.Collection.{Collection, filter_removable, deduplicate_generated}
use ocsf_toolkit.Observable.Collection.Dedup.{
  IsDeduplication, deduplicate_generated-IsDeduplication,
}
use ocsf_toolkit.Observable.Collection.Filter.{Retained, removable_count, filter_removable_sound}
use ocsf_toolkit.Tests.Samples.{library}

abbrev observable : Bytes → Map
observable name =
    (codes "name", text name)
    ∷ (codes "type_id", int (pos 4))
    ∷ (codes "value", text (codes "ann"))
    ∷ []

abbrev user : Map
user = observable (codes "user.name")

abbrev actor : Map
actor = observable (codes "actor.user.name")

deduplicate_generated-IsDeduplication_example :
    IsDeduplication library
      (object (fields_of user) ∷ [])
      (actor ∷ user ∷ actor ∷ [])
      (deduplicate_generated library (object (fields_of user) ∷ []) (actor ∷ user ∷ actor ∷ []))
deduplicate_generated-IsDeduplication_example =
    deduplicate_generated-IsDeduplication library (object (fields_of user) ∷ [])
      (actor ∷ user ∷ actor ∷ [])

abbrev collection : Collection
collection = record {
  container = slice;
  element = any_element;
  values = object (fields_of user) ∷ object (fields_of actor) ∷ [];
}

abbrev filtered : Collection
filtered = record {
  container = slice;
  element = any_element;
  values = object (fields_of actor) ∷ [];
}

filters : filter_removable collection (true ∷ false ∷ []) 1 ≡ inr filtered
unfolding filter_removable
filters = refl

filter_removable_sound_example :
    (length (true ∷ false ∷ []) ≡ length collection.values)
    × (1 ≡ removable_count (true ∷ false ∷ []))
    × Retained collection.values (true ∷ false ∷ []) filtered.values
    × (filtered.container ≡ slice)
    × (filtered.element ≡ collection.element)
filter_removable_sound_example =
    filter_removable_sound collection filtered (true ∷ false ∷ []) 1 filters
