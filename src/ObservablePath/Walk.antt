-- ===== src/ObservablePath/Walk.antt =====
-- The walks through a schema that define a path.
use ocsf_toolkit.Common.{
  ◌≡◌, ◌≢◌, ◌↔◌, inl, inr, refl, sym, ap, ◌∙◌, List, [], ◌∷◌, ◌++◌, Bool, true, false, Option, none,
  some, Bytes, bytes_eq, codes, same, same_iff, same_iff, lookup, contains, Bool-cases,
}
use ocsf_toolkit.PathSeq
use ocsf_toolkit.PathSeq.Lists.{drop_last, drop_last-concat}
use ocsf_toolkit.PathSeq.Refinement.{
  IsValid, view, items-view, view-push, push-IsValid, empty-IsValid,
}
use ocsf_toolkit.EventPath.{
  Element, attribute, array_index, EventPath, root, push_attribute, has_prior_attribute,
  zero_element,
}
use ocsf_toolkit.EventPath.LastAttribute.{attribute_names, has_prior_attribute-view}
use ocsf_toolkit.Schema.{AttributeDefinition, attribute_active}
use ocsf_toolkit.Schema.Items.{Attributes, ClassDefinition, Objects, object_attributes}
use ocsf_toolkit.ObservablePath.{Selector, Segment, ObservablePath}
use ocsf_toolkit.ObservablePath.Definition.{
  DefinitionStatus, undefined, defined, traversal_limited, selectors_allowed, enter, below,
  at_attribute, definition_from, definition,
}

-- A walk through the schema: the attribute of each segment is active where the walk has come to
-- and allows the selectors, and the segments but the last name objects, each attribute once.
-- `visited` are the names of the attributes on the way.
pub data Walk (objects : Objects) (profiles : List Bytes)
    : List Bytes → Attributes → List Segment → Type 0 where
  ends :
      (visited : List Bytes) (attributes : Attributes) (s : Segment) (a : AttributeDefinition)
      → lookup s.attribute attributes ≡ some a
      → attribute_active (some a) profiles ≡ true
      → selectors_allowed s.selectors a.is_array ≡ true
      → Walk objects profiles visited attributes (s ∷ [])
  goes :
      (visited : List Bytes) (attributes : Attributes) (s : Segment) (a : AttributeDefinition)
      (inner : Attributes) (t : Segment) (rest : List Segment)
      → lookup s.attribute attributes ≡ some a
      → attribute_active (some a) profiles ≡ true
      → selectors_allowed s.selectors a.is_array ≡ true
      → contains visited s.attribute ≡ false
      → a.type_name ≡ codes "object_t"
      → object_attributes objects a.object_type ≡ some inner
      → Walk objects profiles (visited ++ s.attribute ∷ []) inner (t ∷ rest)
      → Walk objects profiles visited attributes (s ∷ (t ∷ rest))

attribute_names-append :
    (els : List Element) (name : Bytes)
    → attribute_names (els ++ attribute name ∷ []) ≡ attribute_names els ++ name ∷ []
attribute_names-append [] name = refl
attribute_names-append (attribute n ∷ els) name =
    ap (λ (l : List Bytes). n ∷ l) (attribute_names-append els name)
attribute_names-append (array_index i ∷ els) name = attribute_names-append els name

-- a valid path on which these names are the attributes
pub record Shows (path : EventPath) (visited : List Bytes) : Type 0 where
  pub valid : IsValid path.elements
  pub names : attribute_names (view path.elements) ≡ visited

pub push_attribute-Shows :
    (path : EventPath) (visited : List Bytes) (name : Bytes)
    → Shows path visited
    → Shows (push_attribute path name) (visited ++ name ∷ [])
unfolding push_attribute
push_attribute-Shows path visited name h = record {
  valid = push-IsValid path.elements (attribute name) h.valid;
  names =
      ap attribute_names (view-push path.elements (attribute name) h.valid)
      ∙ (attribute_names-append (view path.elements) name
          ∙ ap (λ (l : List Bytes). l ++ name ∷ []) h.names);
}

pub has_prior_attribute-Shows :
    (path : EventPath) (visited : List Bytes) (name : Bytes)
    → Shows path visited
    → has_prior_attribute (push_attribute path name) name ≡ contains visited name
has_prior_attribute-Shows path visited name h =
    let pushed = push_attribute-Shows path visited name h in
    has_prior_attribute-view (push_attribute path name) name pushed.valid
    ∙ (ap (λ (l : List Bytes). contains (drop_last l) name) pushed.names
        ∙ ap (λ (l : List Bytes). contains l name) (drop_last-concat visited name))

pub root-Shows : Shows root []
unfolding root PathSeq.empty
root-Shows = record { valid = empty-IsValid zero_element; names = refl }

undefined-defined : undefined ≢ defined
undefined-defined e = absurd cc

limited-defined : traversal_limited ≢ defined
limited-defined e = absurd cc

enter-defined :
    (found : Option Attributes) (deeper : Attributes → DefinitionStatus)
    → enter found deeper ≡ defined
    → (inner : Attributes) × (found ≡ some inner) × (deeper inner ≡ defined)
enter-defined none deeper e = absurd (undefined-defined e)
enter-defined (some inner) deeper e = (inner, refl, e)

below-defined :
    (objects : Objects) (a : AttributeDefinition) (prior : Bool)
    (deeper : Attributes → DefinitionStatus)
    → below objects a false prior deeper ≡ defined
    → (prior ≡ false)
      × (a.type_name ≡ codes "object_t")
      × (inner : Attributes) × (object_attributes objects a.object_type ≡ some inner)
      × (deeper inner ≡ defined)
below-defined objects a true deeper e = absurd (limited-defined e)
below-defined objects a false deeper e = elim (Bool-cases (same a.type_name (codes "object_t"))) [
  | inr other ↦ absurd (undefined-defined (sym (rw other refl) ∙ e))
  | inl object ↦
      let (inner, entered, on) =
        enter-defined (object_attributes objects a.object_type) deeper (sym (rw object refl) ∙ e) in
      (refl, (same_iff a.type_name (codes "object_t")).0 object, inner, entered, on)
]

module _ (profiles : List Bytes) where
  at_attribute-defined :
      (found : Option AttributeDefinition) (selectors : List Selector)
      (continue : AttributeDefinition → DefinitionStatus)
      → at_attribute profiles found selectors continue ≡ defined
      → (a : AttributeDefinition) × (found ≡ some a)
        × (attribute_active (some a) profiles ≡ true)
        × (selectors_allowed selectors a.is_array ≡ true)
        × (continue a ≡ defined)
  at_attribute-defined none selectors continue e = absurd (undefined-defined e)
  at_attribute-defined (some a) selectors continue e =
      elim (Bool-cases (attribute_active (some a) profiles)) [
        | inr inactive ↦ absurd (undefined-defined (sym (rw inactive refl) ∙ e))
        | inl active ↦ elim (Bool-cases (selectors_allowed selectors a.is_array)) [
          | inr refused ↦ absurd (undefined-defined (sym (rw (active, refused) refl) ∙ e))
          | inl allowed ↦ (a, refl, active, allowed, sym (rw (active, allowed) refl) ∙ e)
        ]
      ]

module _ (objects : Objects) (profiles : List Bytes) where
  definition_from-Walk :
      (visited : List Bytes) (attributes : Attributes) (segments : List Segment) (path : EventPath)
      → Shows path visited
      → Walk objects profiles visited attributes segments
      → definition_from objects profiles segments path attributes ≡ defined
  unfolding definition_from
  definition_from-Walk visited attributes segments path h (ends v at s a found active allowed) =
      rw (found, active, allowed) refl
  definition_from-Walk visited attributes segments path h
        (goes v at s a inner t rest found active allowed new object entered walk) =
      rw
        (
          found,
          active,
          allowed,
          has_prior_attribute-Shows path visited s.attribute h ∙ new,
          (same_iff a.type_name (codes "object_t")).1 object,
          entered,
        )
        (definition_from-Walk (visited ++ s.attribute ∷ []) inner (t ∷ rest)
          (push_attribute path s.attribute) (push_attribute-Shows path visited s.attribute h) walk)

  definition_from-defined :
      (visited : List Bytes) (attributes : Attributes) (segments : List Segment) (path : EventPath)
      → Shows path visited
      → definition_from objects profiles segments path attributes ≡ defined
      → Walk objects profiles visited attributes segments
  unfolding definition_from
  definition_from-defined visited attributes [] path h e = absurd (undefined-defined e)
  definition_from-defined visited attributes (s ∷ []) path h e =
      let (a, found, active, allowed, last) =
        at_attribute-defined profiles (lookup s.attribute attributes) s.selectors _ e in
      ends visited attributes s a found active allowed
  definition_from-defined visited attributes (s ∷ (t ∷ rest)) path h e =
      let (a, found, active, allowed, on) =
        at_attribute-defined profiles (lookup s.attribute attributes) s.selectors _ e in
      let (new, object, inner, entered, deeper) =
        below-defined objects a (has_prior_attribute (push_attribute path s.attribute) s.attribute)
          _ on in
      goes visited attributes s a inner t rest found active allowed
        (sym (has_prior_attribute-Shows path visited s.attribute h) ∙ new) object entered
        (definition_from-defined (visited ++ s.attribute ∷ []) inner (t ∷ rest)
          (push_attribute path s.attribute) (push_attribute-Shows path visited s.attribute h)
          deeper)

  -- `Definition` says that a class defines a path exactly when a walk through the schema does: from
  -- the attributes of the class, over active attributes that allow the selectors of their segments,
  -- each but the last an object, no attribute name twice before the last.
  pub definition-Walk :
      (p : ObservablePath) (class : ClassDefinition)
      → IsValid p.segments
      → (definition objects profiles p (some class) ≡ defined)
        ↔ Walk objects profiles [] class.attributes (view p.segments)
  unfolding definition
  definition-Walk p class h = rw (items-view p.segments h) (
    definition_from-defined [] class.attributes (view p.segments) root root-Shows,
    definition_from-Walk [] class.attributes (view p.segments) root root-Shows,
  )
