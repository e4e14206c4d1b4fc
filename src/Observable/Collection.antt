-- ===== src/Observable/Collection.antt =====
-- internal/observable/collection.go: the array of observables, kept with its Go type.
pub mod Dedup
pub mod Filter
use ocsf_toolkit.Common.{
  ℕ, zero, suc, ◌+◌, ◌-◌, ◌≡◌, ◌↔◌, ◌⊎◌, inl, inr, List, [], ◌∷◌, ◌++◌, map, Bool, true, false, not,
  ◌&&◌, ◌||◌, Option, none, some, Bytes, bytes_eq, codes, arith, Eq, nat_eq, same, same_iff, lookup,
  insert, contains, length, leb, ltb, if◌then◌else◌,
}
use ocsf_toolkit.Common.Int.{ℤ, int_eq}
use ocsf_toolkit.EventValue.{
  Value, Items, Map, Container, slice, fixed_array, ElementType, any_element, map_element,
  interface_element, other_element, null, text, array, object, elements, items_of, fields_of,
  as_map, array_view,
}
use ocsf_toolkit.EventValue.Scalar.{NumberLibrary, as_string, as_integer}

pub data ValueKind : Type 0 where
  object_value null_value string_value : ValueKind

-- The semantic identity of an observable, Go's comparable struct `identity`.
pub record Identity : Type 0 where
  pub name : Bytes
  pub type_id : ℤ
  pub value_kind : ValueKind
  pub value : Bytes

abbrev kind_code : ValueKind → ℕ
kind_code object_value = 0
kind_code null_value = 1
kind_code string_value = 2

abbrev identity_beq : Identity → Identity → Bool
identity_beq a b =
    same a.name b.name
    && same a.type_id b.type_id
    && (same (kind_code a.value_kind) (kind_code b.value_kind) && same a.value b.value)

pub identity_beq_iff : (a b : Identity) → (identity_beq a b ≡ true) ↔ (a ≡ b)
identity_beq_iff a b =
    ground (arith, same_iff a.name b.name, same_iff a.type_id b.type_id, same_iff a.value b.value)

instance abbrev pub identity_eq : Eq Identity
identity_eq = record { beq = identity_beq; beq_iff = identity_beq_iff }

-- A missing key reads as nil.
abbrev read : Map → Bytes → Value
read m key = elim (lookup key m) [ none ↦ null | some v ↦ v ]

-- the identity of an observable with a name and a type, by its value, if it has one
with_value : Bytes → ℤ → Option Value → Option Identity
with_value name type_id none =
    some (record { name = name; type_id = type_id; value_kind = object_value; value = [] })
with_value name type_id (some null) =
    some (record { name = name; type_id = type_id; value_kind = null_value; value = [] })
with_value name type_id (some (text s)) =
    some (record { name = name; type_id = type_id; value_kind = string_value; value = s })
with_value name type_id (some _) = none

with_type : Map → Bytes → Option ℤ → Option Identity
with_type m name none = none
with_type m name (some type_id) = with_value name type_id (lookup (codes "value") m)

module _ (lib : NumberLibrary) where
  with_name : Map → Option Bytes → Option Identity
  with_name m none = none
  with_name m (some name) = with_type m name (as_integer lib (read m (codes "type_id")))

  unfoldable pub identify_map : Map → Option Identity
  unfolding with_name with_type with_value
  identify_map m = with_name m (as_string (read m (codes "name")))

  abbrev identify_as : Option Map → Option Identity
  identify_as none = none
  identify_as (some m) = identify_map m

  unfoldable pub identify : Value → Option Identity
  identify v = identify_as (as_map v)

pub data DuplicateSource : Type 0 where
  existing_source generated_source : DuplicateSource

pub record Duplicate : Type 0 where
  pub observable : Map
  pub name : Bytes
  pub source : DuplicateSource
  pub generated_index : ℕ

pub record Deduplication : Type 0 where
  pub accepted : List Map
  pub duplicates : List Duplicate

abbrev pub Seen : Type 0
Seen = List (Identity × DuplicateSource)

abbrev mark : Option Identity → Seen → Seen
mark none seen = seen
mark (some key) seen = insert key existing_source seen

-- One round of the loop over the generated observables: what it leaves in `seen`, and the entry that
-- the observable duplicates, if any.
abbrev key_round :
    Identity → Option DuplicateSource → Seen → Seen × Option (Identity × DuplicateSource)
key_round key (some source) seen = (seen, some (key, source))
key_round key none seen = (insert key generated_source seen, none)

abbrev round : Option Identity → Seen → Seen × Option (Identity × DuplicateSource)
round none seen = (seen, none)
round (some key) seen = key_round key (lookup key seen) seen

abbrev record_round : Map → ℕ → Option (Identity × DuplicateSource) → Deduplication → Deduplication
record_round m index none r = record r { accepted = r.accepted ++ m ∷ [] }
record_round m index (some (key, source)) r = record r {
  duplicates =
      r.duplicates
      ++ record { observable = m; name = key.name; source = source; generated_index = index } ∷ [];
}

module _ (lib : NumberLibrary) where
  -- the loop over the existing entries
  unfoldable pub seen_existing : List Value → Seen → Seen
  seen_existing [] seen = seen
  seen_existing (v ∷ vs) seen = seen_existing vs (mark (identify lib v) seen)

  dedup_from : List Map → ℕ → Seen → Deduplication → Deduplication
  dedup_from [] index seen r = r
  dedup_from (m ∷ ms) index seen r =
      let (seen', duplicate) = round (identify_map lib m) seen in
      dedup_from ms (index + 1) seen' (record_round m index duplicate r)

  -- `DeduplicateGenerated`; a nil collection has no entries.
  unfoldable pub deduplicate_generated : List Value → List Map → Deduplication
  unfolding seen_existing dedup_from
  deduplicate_generated existing generated =
      dedup_from generated 0 (seen_existing existing []) (record { accepted = []; duplicates = [] })

-- the elements of a `Collection`, and its Go type
pub record Collection : Type 0 where
  pub container : Container
  pub element : ElementType
  pub values : List Value

unfoldable pub new_collection : Value → Option Collection
new_collection (array container element vs) =
    some (record { container = container; element = element; values = elements vs })
new_collection _ = none

abbrev pub to_value : Collection → Value
to_value c = array c.container c.element (items_of c.values)

abbrev boxed : List Map → List Value
boxed ms = map (λ m. object (fields_of m)) ms

-- `accepts` tells the element types that a `jsonish.Map` can be assigned or converted to, by the
-- reflect package.
abbrev holds : (ℕ → Bool) → ElementType → Bool
holds accepts (other_element t) = accepts t
holds accepts (interface_element t) = accepts t
holds accepts _ = true

-- An array becomes a slice of its element type.
abbrev pub as_slice : Container → Container
as_slice fixed_array = slice
as_slice container = container

unfoldable pub append : (ℕ → Bool) → Collection → List Map → Collection
append accepts c generated =
    if holds accepts c.element || leb (length generated) 0
    then record {
      container = as_slice c.container;
      element = c.element;
      values = c.values ++ boxed generated;
    }
    else record { container = slice; element = any_element; values = c.values ++ boxed generated }

pub data FilterError : Type 0 where
  wrong_entry_count remove_count_out_of_range wrong_remove_count : FilterError

-- `removable` holds the flag `Removable` of each entry.
kept : List Value → List Bool → List Value
kept [] flags = []
kept (v ∷ vs) [] = []
kept (v ∷ vs) (flag ∷ flags) = let rest = kept vs flags in if flag then rest else v ∷ rest

unfoldable pub filter_removable : Collection → List Bool → ℕ → FilterError ⊎ Collection
unfolding kept
filter_removable c removable remove_count =
    let filtered = kept c.values removable in
    if not (same (length removable) (length c.values))
    then inl wrong_entry_count
    else if ltb (length c.values) remove_count
    then inl remove_count_out_of_range
    else if not (same remove_count (length c.values - length filtered))
    then inl wrong_remove_count
    else inr (record { container = as_slice c.container; element = c.element; values = filtered })
