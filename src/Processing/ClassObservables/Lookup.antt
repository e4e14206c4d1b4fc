-- ===== src/Processing/ClassObservables/Lookup.antt =====
-- The trie of a class finds what its declarations say.
use ocsf_toolkit.Common.{
  ℕ, ◌≡◌, refl, sym, ap, ◌∙◌, List, [], ◌∷◌, Bool, false, ◌&&◌, Option, none, some, Bytes, bytes_eq,
  list_eq, nat_eq, same, same_iff, arith, Bool-cases, Option-cases, inl, inr, if◌then◌else◌,
}
use ocsf_toolkit.Common.Int.{ℤ, int_eq}
use ocsf_toolkit.PathSeq.Refinement.{IsValid, view, items-view}
use ocsf_toolkit.EventPath.{Element, attribute, array_index, EventPath}
use ocsf_toolkit.EventPath.LastAttribute.{attribute_names}
use ocsf_toolkit.Processing.ClassObservables.{
  Node, node, Children, childless, child, empty_node, child_of, set_child, or_new, insert_path,
  split, prepend, Selector, allows, insert_all, trie_of, compile_class_observable_trie, descend,
  lookup_from, lookup_node, type_of, type_id,
}

-- the type that the declarations give to the attributes of a path: of those that are allowed, the one
-- whose dotted names are these (the last, if a list has several)
abbrev pub declared : Selector → List (Bytes × ℤ) → List Bytes → Option ℤ → Option ℤ
declared selector [] names earlier = earlier
declared selector ((path, id) ∷ rest) names earlier =
    declared selector rest names
      (if allows selector id && same (split path) names then some id else earlier)

abbrev find : List Bytes → Node → Option Node
find [] found = some found
find (name ∷ names) (node children defined) =
    descend (child_of name children) (λ inner. find names inner)

lookup_from-find :
    (els : List Element) (root : Node) → lookup_from els root ≡ find (attribute_names els) root
unfolding lookup_from
lookup_from-find [] root = refl
lookup_from-find (array_index i ∷ rest) root = lookup_from-find rest root
lookup_from-find (attribute name ∷ rest) (node children defined) =
    elim (Option-cases (child_of name children)) [
      | inl e ↦ rw e refl
      | inr (inner, e) ↦ rw e (lookup_from-find rest inner)
    ]

child_of-set_child :
    (name other : Bytes) (new : Node) (children : Children)
    → child_of other (set_child name new children)
      ≡ (if same name other then some new else child_of other children)
child_of-set_child name other new childless = refl
child_of-set_child name other new (child n old rest) = ground (
  arith,
  same_iff n name,
  same_iff n other,
  same_iff name other,
  child_of-set_child name other new rest,
)

find-empty_node : (names : List Bytes) → type_of (find names empty_node) ≡ none
find-empty_node [] = refl
find-empty_node (name ∷ names) = refl

find-or_new :
    (names : List Bytes) (name : Bytes) (children : Children) (defined : Option ℤ)
    → type_of (find names (or_new (child_of name children)))
      ≡ type_of (find (name ∷ names) (node children defined))
find-or_new names name children defined = elim (Option-cases (child_of name children)) [
  | inl e ↦ rw e (find-empty_node names)
  | inr (inner, e) ↦ rw e refl
]

find-insert_path :
    (path names : List Bytes) (id : ℤ) (root : Node)
    → type_of (find names (insert_path path id root))
      ≡ (if same path names then some id else type_of (find names root))
unfolding insert_path
find-insert_path [] [] id (node children defined) = refl
find-insert_path [] (name ∷ names) id (node children defined) = refl
find-insert_path (p ∷ path) [] id (node children defined) = refl
find-insert_path (p ∷ path) (name ∷ names) id (node children defined) =
    rw (child_of-set_child p name (insert_path path id (or_new (child_of p children))) children)
      (elim (Bool-cases (same p name)) [
        | inr other ↦ rw other refl
        | inl equal ↦ rw equal (
            find-insert_path path names id (or_new (child_of p children))
            ∙ ap (λ (o : Option ℤ). if same path names then some id else o)
                (find-or_new names p children defined
                  ∙ ap (λ (q : Bytes). type_of (find (q ∷ names) (node children defined)))
                      ((same_iff p name).0 equal)))
      ])

insert_one :
    (selector : Selector) (path : List Bytes) (id : ℤ) (names : List Bytes) (root : Node)
    → type_of (find names (if allows selector id then insert_path path id root else root))
      ≡ (if allows selector id && same path names then some id else type_of (find names root))
insert_one selector path id names root = elim (Bool-cases (allows selector id)) [
  | inl yes_it ↦ rw yes_it (find-insert_path path names id root)
  | inr no_it ↦ rw no_it refl
]

find-insert_all :
    (selector : Selector) (declarations : List (Bytes × ℤ)) (names : List Bytes) (root : Node)
    → type_of (find names (insert_all selector declarations root))
      ≡ declared selector declarations names (type_of (find names root))
unfolding insert_all
find-insert_all selector [] names root = refl
find-insert_all selector ((path, id) ∷ rest) names root =
    find-insert_all selector rest names
      (if allows selector id then insert_path (split path) id root else root)
    ∙ ap (declared selector rest names) (insert_one selector (split path) id names root)

prepend-cons : (c : ℕ) (parts : List Bytes) → same (prepend c parts) [] ≡ false
prepend-cons c [] = refl
prepend-cons c (part ∷ parts) = refl

split-cons : (path : Bytes) → same (split path) [] ≡ false
unfolding split
split-cons [] = refl
split-cons (c ∷ s) = elim (Bool-cases (same c b'.')) [
  | inl dot ↦ rw dot refl
  | inr other ↦ rw other (prepend-cons c (split s))
]

and_false : (b : Bool) → b && false ≡ false
and_false b = ground arith

declared-nil :
    (selector : Selector) (declarations : List (Bytes × ℤ))
    → declared selector declarations [] none ≡ none
declared-nil selector [] = refl
declared-nil selector ((path, id) ∷ rest) =
    ap (λ (b : Bool). declared selector rest [] (if allows selector id && b then some id else none))
      (split-cons path)
    ∙ (ap (λ (b : Bool). declared selector rest [] (if b then some id else none))
          (and_false (allows selector id))
        ∙ declared-nil selector rest)

type_of-trie_of :
    (els : List Element) (root : Node)
    → type_of (find [] root) ≡ none
    → type_of (descend (trie_of root) (λ r. lookup_from els r))
      ≡ type_of (find (attribute_names els) root)
type_of-trie_of els (node (child n found rest) defined) e =
    ap type_of (lookup_from-find els (node (child n found rest) defined))
type_of-trie_of els (node childless defined) e = no_child (attribute_names els)
  where
    no_child : (names : List Bytes) → none ≡ type_of (find names (node childless defined))
    no_child [] = sym e
    no_child (name ∷ names) = refl

type_id-descend :
    (trie : Option Node) (path : EventPath)
    → IsValid path.elements
    → type_id trie path ≡ type_of (descend trie (λ r. lookup_from (view path.elements) r))
unfolding type_id lookup_node
type_id-descend none path h = refl
type_id-descend (some root) path h =
    ap (λ (els : List Element). type_of (lookup_from els root)) (items-view path.elements h)

-- The trie of a class gives to a valid event path the type that the declarations give it: the type
-- of the allowed declaration whose dotted names are the names of the path's attributes, and none
-- where there is no such declaration. Array indexes do not matter.
pub type_id-declared :
    (declarations : List (Bytes × ℤ)) (selector : Selector) (path : EventPath)
    → IsValid path.elements
    → type_id (compile_class_observable_trie declarations selector) path
      ≡ declared selector declarations (attribute_names (view path.elements)) none
unfolding compile_class_observable_trie
type_id-declared [] selector path h = type_id-descend none path h
type_id-declared (d ∷ declarations) selector path h =
    let names = attribute_names (view path.elements) in
    let root = insert_all selector (d ∷ declarations) empty_node in
    type_id-descend (trie_of root) path h
    ∙ (type_of-trie_of (view path.elements) root (
          find-insert_all selector (d ∷ declarations) [] empty_node
          ∙ declared-nil selector (d ∷ declarations))
        ∙ (find-insert_all selector (d ∷ declarations) names empty_node
            ∙ ap (declared selector (d ∷ declarations) names) (find-empty_node names)))
