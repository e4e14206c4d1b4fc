-- ===== src/EventPath/LastAttribute.antt =====
-- The searches for the last attribute, and for an earlier attribute of the same name.
use ocsf_toolkit.Common.{
  ℕ, zero, suc, ◌+◌, ◌≤◌, ◌<◌, List, [], ◌∷◌, ◌++◌, true, false, Option, none, some, Bytes,
  bytes_eq, if◌then◌else◌, ◌≡◌, refl, sym, ap, ◌∙◌, arith, length, take, drop, ◌≢◌, get_elem?,
  contains, inl, inr, Option-cases, Bool-cases,
}
use ocsf_toolkit.PathSeq
use ocsf_toolkit.PathSeq.Lists.{get_elem?-lt, drop_last, take_all, drop_step}
use ocsf_toolkit.PathSeq.Refinement.{IsValid, view, at-view, length-view}
use ocsf_toolkit.PathStyle.{Style}
use ocsf_toolkit.EventPath.{
  Element, attribute, array_index, EventPath, sibling_string, last_attribute_below, len,
  has_prior_attribute, attribute_from, attribute_before, names,
}
use ocsf_toolkit.EventPath.Reference.{reference, has_attribute, replace_last, rename}
use ocsf_toolkit.EventPath.Rendering.{render_replaced}

abbrev shift : Option ℕ → Option ℕ
shift none = none
shift (some k) = some (suc k)

abbrev or_first : Element → Option ℕ → Option ℕ
or_first e (some k) = some (suc k)
or_first (attribute name) none = some 0
or_first (array_index i) none = none

-- the index of the last attribute
last_of : List Element → Option ℕ
last_of [] = none
last_of (e ∷ rest) = or_first e (last_of rest)

last_of-append_attribute :
    (els : List Element) (name : Bytes) → last_of (els ++ attribute name ∷ []) ≡ some (length els)
unfolding last_of
last_of-append_attribute [] name = refl
last_of-append_attribute (e ∷ els) name = rw (last_of-append_attribute els name)

last_of-append_index :
    (els : List Element) (i : ℕ) → last_of (els ++ array_index i ∷ []) ≡ last_of els
unfolding last_of
last_of-append_index [] i = refl
last_of-append_index (e ∷ els) i = rw (last_of-append_index els i)

module _ {A : Type 0} where
  take-suc :
      (xs : List A) (n : ℕ) (x : A)
      → get_elem? xs n ≡ some x
      → take (suc n) xs ≡ take n xs ++ x ∷ []
  take-suc [] n x e = cc
  take-suc (y ∷ xs) zero x e = cc
  take-suc (y ∷ xs) (suc n) x e = ap (λ (r : List A). y ∷ r) (take-suc xs n x e)

  length-take_of_get :
      (xs : List A) (n : ℕ) (x : A) → get_elem? xs n ≡ some x → length (take n xs) ≡ n
  length-take_of_get [] n x e = cc
  length-take_of_get (y ∷ xs) zero x e = refl
  length-take_of_get (y ∷ xs) (suc n) x e = ap suc (length-take_of_get xs n x e)

module _ (p : EventPath) (valid : IsValid p.elements) where
  last_attribute_below-take :
      (n : ℕ) → n ≤ len p → last_attribute_below p n ≡ last_of (take n (view p.elements))
  unfolding last_attribute_below last_of
  last_attribute_below-take zero h = refl
  last_attribute_below-take (suc n) h =
      let (x, found) =
        get_elem?-lt (view p.elements) n (omega (arith, length-view p.elements valid)) in
      go x found (at-view p.elements n valid (omega arith) ∙ found)
        (last_attribute_below-take n (omega arith))
    where
      go :
          (x : Element)
          → get_elem? (view p.elements) n ≡ some x
          → PathSeq.at p.elements n ≡ some x
          → last_attribute_below p n ≡ last_of (take n (view p.elements))
          → last_attribute_below p (suc n) ≡ last_of (take (suc n) (view p.elements))
      go (attribute name) found here ih =
          rw (here, take-suc (view p.elements) n (attribute name) found)
            (sym (
              last_of-append_attribute (take n (view p.elements)) name
              ∙ ap some (length-take_of_get (view p.elements) n (attribute name) found)))
      go (array_index i) found here ih =
          rw (here, take-suc (view p.elements) n (array_index i) found)
            (ih ∙ sym (last_of-append_index (take n (view p.elements)) i))

  last_attribute_below-view : last_attribute_below p (len p) ≡ last_of (view p.elements)
  last_attribute_below-view =
      last_attribute_below-take (len p) (omega arith)
      ∙ ap last_of
          (take_all (view p.elements) (len p) (omega (arith, length-view p.elements valid)))

abbrev add : ℕ → Option ℕ → Option ℕ
add n none = none
add n (some k) = some (k + n)

add-zero? : (o : Option ℕ) → add 0 o ≡ o
add-zero? none = refl
add-zero? (some k) = ap some (omega arith)

last_of-none : (els : List Element) → has_attribute els ≡ false → last_of els ≡ none
unfolding last_of has_attribute
last_of-none [] h = refl
last_of-none (attribute name ∷ rest) h = cc
last_of-none (array_index i ∷ rest) h = rw (last_of-none rest h)

last_of-some : (els : List Element) → has_attribute els ≡ true → (k : ℕ) × (last_of els ≡ some k)
unfolding last_of has_attribute
last_of-some [] h = cc
last_of-some (attribute name ∷ rest) h = elim (Bool-cases (has_attribute rest)) [
  | inl e ↦ let (k, found) = last_of-some rest e in (suc k, rw found)
  | inr e ↦ (0, rw (last_of-none rest e))
]
last_of-some (array_index i ∷ rest) h = let (k, found) = last_of-some rest h in (suc k, rw found)

rename_no_attribute :
    (replace : Option ℕ) (index : ℕ) (new : Bytes) (els : List Element)
    → has_attribute els ≡ false
    → rename replace index new els ≡ els
unfolding rename has_attribute
rename_no_attribute replace index new [] h = refl
rename_no_attribute replace index new (attribute name ∷ rest) h = cc
rename_no_attribute replace index new (array_index i ∷ rest) h =
    ap (λ (r : List Element). array_index i ∷ r)
      (rename_no_attribute replace (index + 1) new rest h)

rename-last_of :
    (index : ℕ) (new : Bytes) (els : List Element) (replace : Option ℕ)
    → replace ≡ add index (last_of els)
    → rename replace index new els ≡ replace_last new els
unfolding rename last_of replace_last
rename-last_of index new [] replace at = refl
rename-last_of index new (attribute name ∷ rest) replace at =
    elim (Bool-cases (has_attribute rest)) [
      | inl e ↦
          let (k, found) = last_of-some rest e in
          ground (arith, rename-last_of (index + 1) new rest replace)
      | inr e ↦
          ground (arith, last_of-none rest e, rename_no_attribute replace (index + 1) new rest e)
    ]
rename-last_of index new (array_index i ∷ rest) replace at =
    ground (arith, rename-last_of (index + 1) new rest replace, Option-cases (last_of rest))

-- The sibling text of a valid path is the reference text of its elements with the name of the last
-- attribute replaced.
pub sibling_string-view :
    (p : EventPath) (name : Bytes) (style : Style)
    → IsValid p.elements
    → sibling_string p name style ≡ reference style (replace_last name (view p.elements))
unfolding sibling_string
sibling_string-view p name style h =
    render_replaced p style (last_attribute_below p (len p)) name h
    ∙ ap (reference style) (
        rename-last_of 0 name (view p.elements) (last_attribute_below p (len p))
          (last_attribute_below-view p h ∙ sym (add-zero? (last_of (view p.elements)))))

-- the names of the attributes, in order
abbrev pub attribute_names : List Element → List Bytes
attribute_names [] = []
attribute_names (attribute name ∷ rest) = name ∷ attribute_names rest
attribute_names (array_index i ∷ rest) = attribute_names rest

module _ (p : EventPath) (valid : IsValid p.elements) where
  attribute_from-contains :
      (name : Bytes) (index rounds : ℕ)
      → index + rounds ≤ len p
      → attribute_from p name index rounds
        ≡ contains (attribute_names (take rounds (drop index (view p.elements)))) name
  unfolding attribute_from
  attribute_from-contains name index zero h = refl
  attribute_from-contains name index (suc rounds) h =
      let (x, found) =
        get_elem?-lt (view p.elements) index (omega (arith, length-view p.elements valid)) in
      rw
        (
          at-view p.elements index valid (omega arith) ∙ found,
          drop_step (view p.elements) index x found,
        )
        (go x (
          attribute_from-contains name (index + 1) rounds (omega arith)
          ∙ ap (λ (j : ℕ). contains (attribute_names (take rounds (drop j (view p.elements)))) name)
              {x = index + 1} {y = suc index} (omega arith)))
    where
      go :
          (x : Element)
          → attribute_from p name (index + 1) rounds
            ≡ contains (attribute_names (take rounds (drop (suc index) (view p.elements)))) name
          → (if names (some x) name then true else attribute_from p name (index + 1) rounds)
            ≡ contains (attribute_names (x ∷ take rounds (drop (suc index) (view p.elements)))) name
      go (attribute n) ih = ground arith
      go (array_index i) ih = ih

names_of_no_attribute : (els : List Element) → last_of els ≡ none → attribute_names els ≡ []
unfolding last_of
names_of_no_attribute [] h = refl
names_of_no_attribute (attribute name ∷ rest) h = ground (arith, Option-cases (last_of rest))
names_of_no_attribute (array_index i ∷ rest) h =
    ground (arith, names_of_no_attribute rest, Option-cases (last_of rest))

drop_last-cons :
    (name : Bytes) (rest : List Bytes) → rest ≢ [] → drop_last (name ∷ rest) ≡ name ∷ drop_last rest
drop_last-cons name [] h = absurd (h refl)
drop_last-cons name (x ∷ rest) h = refl

names_before_last :
    (els : List Element) (k : ℕ)
    → last_of els ≡ some k
    → (attribute_names (take k els) ≡ drop_last (attribute_names els))
      × (attribute_names els ≢ [])
      × (k < length els)
unfolding last_of
names_before_last [] k h = cc
names_before_last (attribute name ∷ rest) zero h =
    ground (arith, names_of_no_attribute rest, Option-cases (last_of rest))
names_before_last (attribute name ∷ rest) (suc k) h = ground (
  arith,
  names_before_last rest k,
  Option-cases (last_of rest),
  drop_last-cons name (attribute_names rest),
)
names_before_last (array_index i ∷ rest) zero h = ground (arith, Option-cases (last_of rest))
names_before_last (array_index i ∷ rest) (suc k) h =
    ground (arith, names_before_last rest k, Option-cases (last_of rest))

-- On a valid path, the test for a prior attribute tells whether the name is among the names of all
-- attributes but the last.
pub has_prior_attribute-view :
    (p : EventPath) (name : Bytes)
    → IsValid p.elements
    → has_prior_attribute p name ≡ contains (drop_last (attribute_names (view p.elements))) name
unfolding has_prior_attribute
has_prior_attribute-view p name h =
    rw (last_attribute_below-view p h) (go (last_of (view p.elements)) refl)
  where
    go :
        (o : Option ℕ)
        → last_of (view p.elements) ≡ o
        → attribute_before p name o ≡ contains (drop_last (attribute_names (view p.elements))) name
    go none e = rw (names_of_no_attribute (view p.elements) e)
    go (some k) e =
        let (before, _, inside) = names_before_last (view p.elements) k e in
        attribute_from-contains p h name 0 k (omega (arith, length-view p.elements h))
        ∙ ap (λ (l : List Bytes). contains l name) before
