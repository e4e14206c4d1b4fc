-- ===== src/Processing/ClassObservables.antt =====
-- internal/processing/class_observables.go and observable_type_selector.go: the observables that a
-- class declares by the names of attributes, as a trie, and the selection of observable types.
pub mod Lookup
use ocsf_toolkit.Common.{
  ℕ, List, [], ◌∷◌, ◌++◌, Bool, true, false, ◌||◌, Option, none, some, Bytes, bytes_eq, nat_eq,
  same, lookup, insert, contains, is_some, if◌then◌else◌, ◌⊎◌, inl, inr,
}
use ocsf_toolkit.Common.Int.{ℤ, int_eq}
use ocsf_toolkit.PathSeq
use ocsf_toolkit.EventPath.{Element, attribute, array_index, EventPath}
use ocsf_toolkit.Schema.Items.{ClassDefinition}

-- `classObservableTrieNode`: the children by their attribute, and the type where it is defined
mutual
  pub data Node : Type 0 where
    node : Children → Option ℤ → Node

  pub data Children : Type 0 where
    childless : Children
    child : Bytes → Node → Children → Children

abbrev pub empty_node : Node
empty_node = node childless none

abbrev pub child_of : Bytes → Children → Option Node
child_of name childless = none
child_of name (child n found rest) = if same n name then some found else child_of name rest

abbrev pub set_child : Bytes → Node → Children → Children
set_child name new childless = child name new childless
set_child name new (child n old rest) =
    if same n name then child name new rest else child n old (set_child name new rest)

abbrev pub or_new : Option Node → Node
or_new none = empty_node
or_new (some found) = found

-- the inner loop of `compileClassObservableTrie`, over the attributes of one path
unfoldable pub insert_path : List Bytes → ℤ → Node → Node
insert_path [] type_id (node children defined) = node children (some type_id)
insert_path (name ∷ names) type_id (node children defined) =
    node (set_child name (insert_path names type_id (or_new (child_of name children))) children)
      defined

-- `strings.SplitSeq` at a dot
abbrev prepend : ℕ → List Bytes → List Bytes
prepend c [] = (c ∷ []) ∷ []
prepend c (part ∷ parts) = (c ∷ part) ∷ parts

unfoldable pub split : Bytes → List Bytes
split [] = [] ∷ []
split (c ∷ s) = if same c b'.' then [] ∷ split s else prepend c (split s)

-- `observableTypeSelector`, a nil set of type IDs being none
abbrev pub Selector : Type 0
Selector = Option (List ℤ)

-- `allows`
unfoldable pub allows : Selector → ℤ → Bool
allows none type_id = true
allows (some type_ids) type_id = contains type_ids type_id

-- the loop of `newObservableTypeSelector`: the selected type IDs, and the unknown ones
unfoldable pub select_types : List (ℤ × Bytes) → List ℤ → List ℤ × List ℤ
select_types observable_types [] = ([], [])
select_types observable_types (id ∷ ids) =
    let (selected, unknown) = select_types observable_types ids in
    if is_some (lookup id observable_types)
    then (id ∷ selected, unknown)
    else (selected, id ∷ unknown)

abbrev pub selector_of : List ℤ × List ℤ → List ℤ ⊎ Selector
selector_of (selected, []) = inr (some selected)
selector_of (selected, id ∷ unknown) = inl (id ∷ unknown)

-- `newObservableTypeSelector`, with the unknown type IDs as its error
unfoldable pub new_observable_type_selector : List (ℤ × Bytes) → List ℤ → List ℤ ⊎ Selector
unfolding select_types
new_observable_type_selector observable_types [] = inr none
new_observable_type_selector observable_types (id ∷ ids) =
    selector_of (select_types observable_types (id ∷ ids))

-- the loop of `compileClassObservableTrie` over the declarations
unfoldable pub insert_all : Selector → List (Bytes × ℤ) → Node → Node
unfolding allows split insert_path
insert_all selector [] root = root
insert_all selector ((path, type_id) ∷ rest) root =
    insert_all selector rest
      (if allows selector type_id then insert_path (split path) type_id root else root)

abbrev pub trie_of : Node → Option Node
trie_of (node childless defined) = none
trie_of (node (child n found rest) defined) = some (node (child n found rest) defined)

-- `compileClassObservableTrie`; none is a nil trie
unfoldable pub compile_class_observable_trie : List (Bytes × ℤ) → Selector → Option Node
unfolding insert_all
compile_class_observable_trie [] selector = none
compile_class_observable_trie (d ∷ declarations) selector =
    trie_of (insert_all selector (d ∷ declarations) empty_node)

abbrev add_trie : ℤ → Option Node → List (ℤ × Node) → List (ℤ × Node)
add_trie uid none tries = tries
add_trie uid (some trie) tries = insert uid trie tries

-- `compileClassObservableTries`
unfoldable pub compile_class_observable_tries :
    List (ℤ × ClassDefinition) → Selector → List (ℤ × Node)
unfolding compile_class_observable_trie
compile_class_observable_tries [] selector = []
compile_class_observable_tries ((uid, class) ∷ classes) selector =
    add_trie uid (compile_class_observable_trie class.observables selector)
      (compile_class_observable_tries classes selector)

abbrev pub descend : Option Node → (Node → Option Node) → Option Node
descend none continue = none
descend (some found) continue = continue found

-- the loop of `lookup`, which passes array indexes over
unfoldable pub lookup_from : List Element → Node → Option Node
lookup_from [] found = some found
lookup_from (array_index i ∷ rest) found = lookup_from rest found
lookup_from (attribute name ∷ rest) (node children defined) =
    descend (child_of name children) (λ inner. lookup_from rest inner)

-- `lookup`
unfoldable pub lookup_node : Option Node → EventPath → Option Node
unfolding lookup_from PathSeq.items
lookup_node none path = none
lookup_node (some root) path = lookup_from (PathSeq.items path.elements) root

abbrev pub type_of : Option Node → Option ℤ
type_of none = none
type_of (some (node children defined)) = defined

-- `TypeID`
unfoldable pub type_id : Option Node → EventPath → Option ℤ
unfolding lookup_node
type_id trie path = type_of (lookup_node trie path)

abbrev pub declares : Option Node → Bool
declares none = false
declares (some (node childless defined)) = is_some defined
declares (some (node (child n found rest) defined)) = true

-- `HasDeclarationAtOrBelow`
unfoldable pub has_declaration_at_or_below : Option Node → EventPath → Bool
unfolding lookup_node
has_declaration_at_or_below trie path = declares (lookup_node trie path)
