-- ===== src/Schema/NumericEnum/Lookup.antt =====
-- The index finds what the enum's own map holds under the decimal text of a value, whichever layout
-- the values lead to.
use ocsf_toolkit.Common.{
  ℕ, zero, suc, ◌+◌, ◌≤◌, ◌≡◌, ◌↔◌, refl, sym, ap, ◌∙◌, List, [], ◌∷◌, true, false, Option, none,
  some, arith, Bytes, bytes_eq, same, same_iff, lookup, insert, lookup-insert, get_elem?,
  if◌then◌else◌, Bool-cases, Option-cases, inl, inr,
}
use ocsf_toolkit.Common.Int.{ℤ, pos, negsuc, int_eq, ltb_ℤ, next, sub_ℤ, pos_part, neg_part}
use ocsf_toolkit.Schema.NumericEnum.{
  EnumDefinition, dense, lookup_layout, insert_sorted, sort, contiguous_from, last_value,
  definitions, fill, layout_of,
}

-- the keys of a Go map
abbrev pub DistinctKeys : List (Bytes × EnumDefinition) → Type 0
DistinctKeys [] = Unit
DistinctKeys ((k, d) ∷ m) = (lookup k m ≡ none) × DistinctKeys m

abbrev pub DistinctValues : List (ℤ × EnumDefinition) → Type 0
DistinctValues [] = Unit
DistinctValues ((v, d) ∷ m) = (lookup v m ≡ none) × DistinctValues m

abbrev pub or_else : Option EnumDefinition → Option EnumDefinition → Option EnumDefinition
or_else none o = o
or_else (some d) o = some d

ltb_ℤ_self : (a : ℤ) → ltb_ℤ a a ≡ false
ltb_ℤ_self a = ground arith

lookup-insert_sorted :
    (v w : ℤ) (d : EnumDefinition) (l : List (ℤ × EnumDefinition))
    → lookup w l ≡ none
    → lookup v (insert_sorted (w, d) l) ≡ (if same w v then some d else lookup v l)
unfolding insert_sorted
lookup-insert_sorted v w d [] h = refl
lookup-insert_sorted v w d ((u, e) ∷ l) h =
    ground (arith, same_iff w v, same_iff u v, same_iff u w, lookup-insert_sorted v w d l)

pub lookup-sort :
    (v : ℤ) (l : List (ℤ × EnumDefinition)) → DistinctValues l → lookup v (sort l) ≡ lookup v l
unfolding sort
lookup-sort v [] h = refl
lookup-sort v ((w, d) ∷ l) h =
    lookup-insert_sorted v w d (sort l) (lookup-sort w l h.1 ∙ h.0)
    ∙ ap (λ (r : Option EnumDefinition). if same w v then some d else r) (lookup-sort v l h.1)

DistinctValues-insert_sorted :
    (w : ℤ) (d : EnumDefinition) (l : List (ℤ × EnumDefinition))
    → lookup w l ≡ none
    → DistinctValues l
    → DistinctValues (insert_sorted (w, d) l)
unfolding insert_sorted
DistinctValues-insert_sorted w d [] h k = (refl, tt)
DistinctValues-insert_sorted w d ((u, e) ∷ l) h k = ground (
  arith,
  same_iff u w,
  same_iff w u,
  lookup-insert_sorted u w d l,
  DistinctValues-insert_sorted w d l,
)

pub DistinctValues-sort :
    (l : List (ℤ × EnumDefinition)) → DistinctValues l → DistinctValues (sort l)
unfolding sort
DistinctValues-sort [] h = tt
DistinctValues-sort ((w, d) ∷ l) h =
    DistinctValues-insert_sorted w d (sort l) (lookup-sort w l h.1 ∙ h.0)
      (DistinctValues-sort l h.1)

lookup-fill :
    (v : ℤ) (l m : List (ℤ × EnumDefinition))
    → DistinctValues l
    → lookup v (fill m l) ≡ or_else (lookup v l) (lookup v m)
unfolding fill
lookup-fill v [] m h = refl
lookup-fill v ((w, d) ∷ l) m h = ground (
  arith,
  lookup-fill v l (insert w d m),
  lookup-insert w v d m,
  same_iff w v,
  Option-cases (lookup v l),
)

pub or_else-none : (o : Option EnumDefinition) → or_else o none ≡ o
or_else-none none = refl
or_else-none (some d) = refl

abbrev InOrder : ℤ → ℤ → Type 0
InOrder a b = pos_part a + neg_part b ≤ pos_part b + neg_part a

next_parts : (a : ℤ) → pos_part (next a) + neg_part a ≡ suc (neg_part (next a) + pos_part a)
next_parts (pos n) = omega arith
next_parts (negsuc zero) = omega arith
next_parts (negsuc (suc n)) = omega arith

InOrder-last_value :
    (m : ℤ) (rest : List (ℤ × EnumDefinition))
    → contiguous_from m rest ≡ true
    → InOrder m (last_value m rest)
unfolding contiguous_from last_value
InOrder-last_value m [] h = omega arith
InOrder-last_value m ((w, e) ∷ rest) h =
    ground (arith, same_iff w (next m), InOrder-last_value w rest, next_parts m)

same_parts : (a b : ℤ) → (same a b ≡ true) ↔ (pos_part a + neg_part b ≡ pos_part b + neg_part a)
same_parts (pos a) (pos b) = ground arith
same_parts (pos a) (negsuc b) = ground arith
same_parts (negsuc a) (pos b) = ground arith
same_parts (negsuc a) (negsuc b) = ground arith

get_elem?-zero :
    (d : EnumDefinition) (ds : List EnumDefinition) (k : ℕ) → k ≡ 0 → get_elem? (d ∷ ds) k ≡ some d
get_elem?-zero d ds k h = rw h

get_elem?-suc :
    (d : EnumDefinition) (ds : List EnumDefinition) (k j : ℕ)
    → k ≡ suc j
    → get_elem? (d ∷ ds) k ≡ get_elem? ds j
get_elem?-suc d ds k j h = rw h

-- Reading a dense table, by the integer order instead of the tests.
lookup_layout-dense :
    (value m last : ℤ) (ds : List EnumDefinition)
    → InOrder m value
    → InOrder value last
    → lookup_layout value (dense m last ds) ≡ get_elem? ds (sub_ℤ value m)
unfolding lookup_layout
lookup_layout-dense value m last ds h k = ground arith

lookup_layout-outside :
    (value m last : ℤ) (ds : List EnumDefinition)
    → (InOrder m value × InOrder value last → ⊥)
    → lookup_layout value (dense m last ds) ≡ none
unfolding lookup_layout
lookup_layout-outside value m last ds h = ground arith

lookup-dense :
    (value m : ℤ) (d : EnumDefinition) (rest : List (ℤ × EnumDefinition))
    → contiguous_from m rest ≡ true
    → lookup value ((m, d) ∷ rest)
      ≡ lookup_layout value (dense m (last_value m rest) (d ∷ definitions rest))
unfolding contiguous_from last_value definitions
lookup-dense value m d [] h = ground (
  arith,
  same_parts m value,
  lookup_layout-dense value m m (d ∷ []),
  lookup_layout-outside value m m (d ∷ []),
  get_elem?-zero d [] (sub_ℤ value m),
)
lookup-dense value m d ((w, e) ∷ rest) h = ground (
  arith,
  same_parts m value,
  same_iff w (next m),
  next_parts m,
  InOrder-last_value w rest,
  lookup-dense value w e rest,
  lookup_layout-dense value m (last_value w rest) (d ∷ e ∷ definitions rest),
  lookup_layout-outside value m (last_value w rest) (d ∷ e ∷ definitions rest),
  lookup_layout-dense value w (last_value w rest) (e ∷ definitions rest),
  lookup_layout-outside value w (last_value w rest) (e ∷ definitions rest),
  get_elem?-zero d (e ∷ definitions rest) (sub_ℤ value m),
  get_elem?-suc d (e ∷ definitions rest) (sub_ℤ value m) (sub_ℤ value w),
)

pub lookup-layout_of :
    (value : ℤ) (l : List (ℤ × EnumDefinition))
    → DistinctValues l
    → lookup_layout value (layout_of l) ≡ lookup value l
unfolding layout_of lookup_layout
lookup-layout_of value [] h = refl
lookup-layout_of value ((v, d) ∷ rest) h = elim (Bool-cases (contiguous_from v rest)) [
  | inl e ↦ rw e (sym (lookup-dense value v d rest e))
  | inr e ↦ rw e (
      ground (
        arith,
        lookup-fill value ((v, d) ∷ rest) [] h,
        or_else-none (lookup value ((v, d) ∷ rest)),
      ))
]
