-- ===== src/Schema/NumericEnum.antt =====
-- internal/schema/numeric_enum.go: the index from integral enum values to their definitions.
pub mod Lookup
pub mod Build
use Prim.Native.Nat.{compare, Ordering}
use ocsf_toolkit.Common.{
  ℕ, zero, suc, ◌+◌, ◌-◌, List, [], ◌∷◌, ◌++◌, Bool, true, false, not, ◌&&◌, ◌||◌, Option, none,
  some, Bytes, bytes_eq, same, lookup, insert, leb, length, get_elem?, map, is_some, if◌then◌else◌,
}
use ocsf_toolkit.Common.Int.{ℤ, pos, negsuc, int_eq, ltb_ℤ, next, sub_ℤ}

pub record EnumDefinition : Type 0 where
  pub caption : Bytes

pub data Layout : Type 0 where
  vacant : Layout
  -- `minimum`, `maximum` and `dense`
  dense : ℤ → ℤ → List EnumDefinition → Layout
  scan : List (ℤ × EnumDefinition) → Layout
  sparse : List (ℤ × EnumDefinition) → Layout

-- Go keeps one of `dense`, `scan` and `sparse` and leaves the others nil; `vacant` is none of them.
pub record NumericEnumIndex : Type 0 where
  pub layout : Layout
  pub other : Option EnumDefinition
  pub keys_canonical : Bool

abbrev pub numeric_enum_scan_threshold : ℕ
numeric_enum_scan_threshold = 16

abbrev max_int64 : ℤ
max_int64 = pos 9223372036854775807

pub lookup_layout : ℤ → Layout → Option EnumDefinition
lookup_layout value vacant = none
lookup_layout value (dense minimum maximum definitions) =
    if ltb_ℤ value minimum || ltb_ℤ maximum value
    then none
    else get_elem? definitions (sub_ℤ value minimum)
lookup_layout value (scan entries) = lookup value entries
lookup_layout value (sparse entries) = lookup value entries

-- `NumericEnumDefinition`
unfoldable pub numeric_enum_definition : Option NumericEnumIndex → ℤ → Option EnumDefinition
unfolding lookup_layout
numeric_enum_definition none value = none
numeric_enum_definition (some index) value =
    if same value (pos 99) then index.other else lookup_layout value index.layout

-- `NumericEnumKeysCanonical`
abbrev pub numeric_enum_keys_canonical : Option NumericEnumIndex → Bool
numeric_enum_keys_canonical none = false
numeric_enum_keys_canonical (some index) = index.keys_canonical

-- `slices.SortFunc` by the value
insert_sorted : ℤ × EnumDefinition → List (ℤ × EnumDefinition) → List (ℤ × EnumDefinition)
insert_sorted (v, d) [] = (v, d) ∷ []
insert_sorted (v, d) ((w, e) ∷ rest) =
    if ltb_ℤ w v then (w, e) ∷ insert_sorted (v, d) rest else (v, d) ∷ (w, e) ∷ rest

pub sort : List (ℤ × EnumDefinition) → List (ℤ × EnumDefinition)
unfolding insert_sorted
sort [] = []
sort ((v, d) ∷ rest) = insert_sorted (v, d) (sort rest)

-- the loop that compares each entry with the one before it
contiguous_from : ℤ → List (ℤ × EnumDefinition) → Bool
contiguous_from previous [] = true
contiguous_from previous ((v, d) ∷ rest) =
    if same previous max_int64 || not (same v (next previous))
    then false
    else contiguous_from v rest

last_value : ℤ → List (ℤ × EnumDefinition) → ℤ
last_value v [] = v
last_value v ((w, d) ∷ rest) = last_value w rest

definitions : List (ℤ × EnumDefinition) → List EnumDefinition
definitions [] = []
definitions ((v, d) ∷ rest) = d ∷ definitions rest

-- `index.sparse[entry.value] = entry.definition` for each entry
fill : List (ℤ × EnumDefinition) → List (ℤ × EnumDefinition) → List (ℤ × EnumDefinition)
fill m [] = m
fill m ((v, d) ∷ rest) = fill (insert v d m) rest

pub layout_of : List (ℤ × EnumDefinition) → Layout
unfolding contiguous_from last_value definitions fill
layout_of [] = vacant
layout_of ((v, d) ∷ rest) =
    if contiguous_from v rest
    then dense v (last_value v rest) (d ∷ definitions rest)
    else if leb (length ((v, d) ∷ rest)) numeric_enum_scan_threshold
    then scan ((v, d) ∷ rest)
    else sparse (fill [] ((v, d) ∷ rest))

-- Package strconv at base 10: `ParseInt` to 64 bits, and `FormatInt`.
module _ (parse_int : Bytes → Option ℤ) (format_int : ℤ → Bytes) where
  abbrev if_written_so : Bytes → Option ℤ → Option ℤ
  if_written_so key none = none
  if_written_so key (some v) = if same (format_int v) key then some v else none

  -- the value of a canonical key
  canonical_value : Bytes → Option ℤ
  canonical_value key = if_written_so key (parse_int key)

  -- what the loop over the enum collects: the entries, `other` and `keysCanonical`
  record Collected : Type 0 where
    found : List (ℤ × EnumDefinition)
    other : Option EnumDefinition
    all_canonical : Bool

  collect_one : Option ℤ → EnumDefinition → Collected → Collected
  collect_one none d c = record c { all_canonical = false }
  collect_one (some v) d c =
      if same v (pos 99)
      then record c { other = some d }
      else record c { found = c.found ++ (v, d) ∷ [] }

  -- The map is walked in any order, which is that of the list.
  collect : List (Bytes × EnumDefinition) → Collected → Collected
  unfolding collect_one canonical_value
  collect [] c = c
  collect ((key, d) ∷ rest) c = collect rest (collect_one (canonical_value key) d c)

  unfoldable pub build_index : List (Bytes × EnumDefinition) → NumericEnumIndex
  unfolding collect sort layout_of
  build_index enum =
      let c = collect enum (record { found = []; other = none; all_canonical = true }) in
      record {
        layout = layout_of (sort c.found);
        other = c.other;
        keys_canonical = c.all_canonical;
      }
