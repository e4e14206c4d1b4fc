-- ===== src/EventValue.antt =====
-- internal/eventvalue: the dynamic values of an event, and how they are read as OCSF types.
pub mod Scalar
pub mod Object
use ocsf_toolkit.Common.{
  ℕ, List, [], ◌∷◌, Bool, true, false, Bytes, ◌≡◌, refl, ap, Option, none, some,
}
use ocsf_toolkit.Common.Int.{ℤ}

-- A Go slice of an unnamed type, an array of fixed size, or a slice of a defined type, by a number.
pub data Container : Type 0 where
  slice fixed_array : Container
  defined_slice : ℕ → Container

-- The element type of a slice or an array: `any`, `jsonish.Map`, or, by a number, another interface
-- type or another type that is no interface.
pub data ElementType : Type 0 where
  any_element map_element : ElementType
  interface_element other_element : ℕ → ElementType

-- The values that the toolkit supports, and one constructor for all others. A float is its bit
-- pattern, and signed integers of every width are their value.
mutual
  pub data Value : Type 0 where
    null : Value
    boolean : Bool → Value
    text : Bytes → Value
    int : ℤ → Value
    number : Bytes → Value
    float32 : ℕ → Value
    float64 : ℕ → Value
    array : Container → ElementType → Items → Value
    object : Fields → Value
    unsupported : Value

  pub data Items : Type 0 where
    nil : Items
    cons : Value → Items → Items

  pub data Fields : Type 0 where
    end : Fields
    field : Bytes → Value → Fields → Fields

-- `jsonish.Map`
abbrev pub Map : Type 0
Map = List (Bytes × Value)

abbrev pub elements : Items → List Value
elements nil = []
elements (cons v vs) = v ∷ elements vs

abbrev pub items_of : List Value → Items
items_of [] = nil
items_of (v ∷ vs) = cons v (items_of vs)

abbrev pub entries : Fields → Map
entries end = []
entries (field name v rest) = (name, v) ∷ entries rest

abbrev pub fields_of : Map → Fields
fields_of [] = end
fields_of ((name, v) ∷ rest) = field name v (fields_of rest)

pub elements-items_of : (vs : List Value) → elements (items_of vs) ≡ vs
elements-items_of [] = refl
elements-items_of (v ∷ vs) = ap (λ (r : List Value). v ∷ r) (elements-items_of vs)

pub entries-fields_of : (m : Map) → entries (fields_of m) ≡ m
entries-fields_of [] = refl
entries-fields_of ((name, v) ∷ rest) = ap (λ (r : Map). (name, v) ∷ r) (entries-fields_of rest)

-- `value.(jsonish.Map)`
abbrev pub as_map : Value → Option Map
as_map (object fs) = some (entries fs)
as_map _ = none

-- `NewArrayView` with the elements that `At` returns; `Len` is their number.
unfoldable pub array_view : Value → Option (List Value)
array_view (array container element vs) = some (elements vs)
array_view _ = none

-- Whether `AsStringAt`, `AsIntegerAt` and `AsLongAt` see the values of the elements: a `[]any` is read
-- directly, but by reflection an element of an interface type has that type, which is none of theirs.
abbrev reads : Container → ElementType → Bool
reads slice any_element = true
reads container any_element = false
reads container (interface_element t) = false
reads container element = true

unfoldable pub reads_elements : Value → Bool
reads_elements (array container element vs) = reads container element
reads_elements _ = false
