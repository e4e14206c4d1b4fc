-- ===== src/Schema/Siblings/Links.antt =====
-- Each sibling of a loaded schema belongs to one enum.
use ocsf_toolkit.Common.{
  ◌≡◌, refl, subst, List, [], ◌∷◌, Bool, true, false, not, Option, none, some, Bytes, bytes_eq,
  bool_eq, same, same_refl, same_iff, lookup, insert, lookup-insert, contains, map, is_some, arith,
  Bool-cases, inl, inr, if◌then◌else◌,
}
use ocsf_toolkit.Schema.{AttributeDefinition}
use ocsf_toolkit.Schema.Items.{Attributes}
use ocsf_toolkit.Schema.Event.{enum_sibling_supported}
use ocsf_toolkit.Schema.Siblings.{
  SiblingIssue, SiblingLinks, SharedSibling, enum_sibling_initialization_issue, sibling_name,
  add_link, link, link_siblings, owned, shared_or, validate_siblings,
  validate_item_enum_sibling_relationships,
}

-- A sibling is linked exactly where the pair is supported.
pub issue_supported :
    (a : AttributeDefinition) (sibling : Option AttributeDefinition)
    → (is_some (enum_sibling_initialization_issue a sibling))
      ≡ not (enum_sibling_supported (some a) sibling)
unfolding enum_sibling_initialization_issue enum_sibling_supported
issue_supported a none = ground arith
issue_supported a (some sibling) = ground arith

abbrev pub siblings : List (Bytes × Bytes) → List Bytes
siblings links = map (λ (l : Bytes × Bytes). l.1) links

-- no two links share a sibling
abbrev pub AllDistinct : List (Bytes × Bytes) → Type 0
AllDistinct [] = Unit
AllDistinct ((name, sibling) ∷ links) =
    (contains (siblings links) sibling ≡ false) × AllDistinct links

-- what the validation of the attributes that are left shows
abbrev Shows : List (Bytes × Bytes) → List (Bytes × Bytes) → Type 0
Shows sibling_of links =
    AllDistinct links
    × ((s : Bytes) → contains (siblings links) s ≡ true → lookup s sibling_of ≡ none)

not_inserted :
    (s t name : Bytes) (sibling_of : List (Bytes × Bytes))
    → lookup t (insert s name sibling_of) ≡ none
    → (same s t ≡ false) × (lookup t sibling_of ≡ none)
not_inserted s t name sibling_of e = ground (arith, lookup-insert s t name sibling_of)

add_link-Shows :
    (name s : Bytes) (sibling_of links : List (Bytes × Bytes))
    → lookup s sibling_of ≡ none
    → Shows (insert s name sibling_of) links
    → Shows sibling_of ((name, s) ∷ links)
add_link-Shows name s sibling_of links free (distinct, others) = (
  (
    elim (Bool-cases (contains (siblings links) s)) [
      | inr fresh ↦ fresh
      | inl used ↦ absurd (cc ((not_inserted s s name sibling_of (others s used)).0, same_refl s))
    ],
    distinct,
  ),
  λ t e. elim (Bool-cases (same s t)) [
    | inl equal ↦ subst (λ (y : Bytes). lookup y sibling_of ≡ none) ((same_iff s t).0 equal) free
    | inr other ↦ (not_inserted s t name sibling_of (others t (rw other at e))).1
  ],
)

module _ (attributes : Attributes) where
  -- one attribute with its sibling, on top of what the others show
  owned-Shows :
      (name : Bytes) (a : AttributeDefinition) (sibling : Option Bytes)
      (sibling_of : List (Bytes × Bytes)) (continue : List (Bytes × Bytes) → Option SharedSibling)
      (found : SiblingLinks)
      → ((s : List (Bytes × Bytes)) → continue s ≡ none → Shows s found.links)
      → owned attributes name a sibling sibling_of continue ≡ none
      → Shows sibling_of (link attributes name a sibling found).links
  owned-Shows name a none sibling_of continue found h e = h sibling_of e
  owned-Shows name a (some s) sibling_of continue found h e =
      judge (enum_sibling_supported (some a) (lookup s attributes))
        (enum_sibling_initialization_issue a (lookup s attributes)) (lookup s sibling_of)
        (issue_supported a (lookup s attributes)) refl e
    where
      judge :
          (supported : Bool) (issue : Option SiblingIssue) (owner : Option Bytes)
          → is_some issue ≡ not supported
          → lookup s sibling_of ≡ owner
          → (if not supported
              then continue sibling_of
              else shared_or name s owner (continue (insert s name sibling_of)))
            ≡ none
          → Shows sibling_of (add_link name s issue found).links
      judge true none none i l f =
          add_link-Shows name s sibling_of found.links l (h (insert s name sibling_of) f)
      judge true none (some owner) i l f = absurd cc
      judge true (some code) owner i l f = absurd cc
      judge false none owner i l f = absurd cc
      judge false (some code) owner i l f = h sibling_of f

  validate_siblings-Shows :
      (rest : Attributes) (sibling_of : List (Bytes × Bytes))
      → validate_siblings attributes rest sibling_of ≡ none
      → Shows sibling_of (link_siblings attributes rest).links
  unfolding validate_siblings link_siblings
  validate_siblings-Shows [] sibling_of e = (tt, λ s impossible. absurd cc)
  validate_siblings-Shows ((name, a) ∷ rest) sibling_of e =
      owned-Shows name a (sibling_name a) sibling_of (λ s. validate_siblings attributes rest s)
        (link_siblings attributes rest) (λ s f. validate_siblings-Shows rest s f) e

-- In an item that `validateItemEnumSiblingRelationships` accepts, `setItemTraversalCache` links no
-- sibling to more than one enum.
pub link_siblings-AllDistinct :
    (attributes : Attributes)
    → validate_item_enum_sibling_relationships attributes ≡ none
    → AllDistinct (link_siblings attributes attributes).links
unfolding validate_item_enum_sibling_relationships
link_siblings-AllDistinct attributes accepted =
    (validate_siblings-Shows attributes attributes [] accepted).0
