-- ===== src/Observable/Discovery.antt =====
-- internal/observable/discovery.go: the observable type of an attribute, and the object definitions
-- below which observables can be generated. A definition is known by its name in the schema, which
-- stands for the pointer to it.
pub mod Reachability
use ocsf_toolkit.Common.{
  ℕ, zero, suc, ◌+◌, List, [], ◌∷◌, ◌++◌, Bool, true, false, not, ◌&&◌, ◌||◌, Option, none, some,
  Bytes, bytes_eq, same, lookup, contains, length, codes, is_some, if◌then◌else◌,
}
use ocsf_toolkit.Common.Int.{ℤ}
use ocsf_toolkit.Schema.{AttributeDefinition}
use ocsf_toolkit.Schema.Items.{Attributes, ObjectDefinition, Objects}
use ocsf_toolkit.Schema.Types.{Types, TypeDefinition}

-- the parts of `Compiled` that are read here; the dictionary's attributes by their `Observable`
pub record Dictionary : Type 0 where
  pub attributes : List (Bytes × Option ℤ)
  pub types : Option Types

pub record Compiled : Type 0 where
  pub objects : Objects
  pub dictionary : Option Dictionary

abbrev observable_of : Option TypeDefinition → Option ℤ
observable_of none = none
observable_of (some d) = d.observable

abbrev joined : Option (Option ℤ) → Option ℤ
joined none = none
joined (some o) = o

abbrev by_types : Option Types → AttributeDefinition → Option ℤ
by_types none a = none
by_types (some types) a = observable_of (lookup a.type_name types)

abbrev pub by_type : Option Dictionary → Option AttributeDefinition → Option ℤ
by_type none a = none
by_type (some d) none = none
by_type (some d) (some a) = by_types d.types a

abbrev pub by_dictionary : Option Dictionary → Bytes → Option ℤ
by_dictionary none attribute = none
by_dictionary (some d) attribute = joined (lookup attribute d.attributes)

abbrev pub by_attribute : Option AttributeDefinition → Option ℤ
by_attribute none = none
by_attribute (some a) = a.observable

abbrev pub or_else : Option ℤ → Option ℤ → Option ℤ
or_else (some id) other = some id
or_else none other = other

-- `TypeID` of a schema that is not nil
unfoldable pub type_id : Compiled → Bytes → Option AttributeDefinition → Option ℤ
type_id compiled attribute a =
    or_else (by_type compiled.dictionary a)
      (or_else (by_dictionary compiled.dictionary attribute) (by_attribute a))

-- `observableTypeAllowed`, and the test that it is used in; a nil function is none
unfoldable pub observable_type_allowed : ℤ → Option (ℤ → Bool) → Bool
observable_type_allowed id none = true
observable_type_allowed id (some allowed) = allowed id

abbrev pub allowed_type : Option (ℤ → Bool) → Option ℤ → Bool
allowed_type allowed none = false
allowed_type allowed (some id) = observable_type_allowed id allowed

-- what an attribute of an object does for the object: it is observable itself, it refers to another
-- definition, or neither
pub data Role : Type 0 where
  direct unrelated : Role
  refers : Bytes → Role

module _ (compiled : Compiled) (allowed : Option (ℤ → Bool)) where
  abbrev by_object : Option ℤ → Option ℤ → Bool
  by_object (some id) own = observable_type_allowed id allowed
  by_object none own = allowed_type allowed own

  -- `directlyObservable`
  unfoldable pub directly_observable : Bytes → AttributeDefinition → ObjectDefinition → Bool
  unfolding type_id observable_type_allowed
  directly_observable attribute a object =
      by_object object.observable (type_id compiled attribute (some a))

  abbrev nested_role : Bytes → AttributeDefinition → Bytes → Option ObjectDefinition → Role
  nested_role attribute a name none = unrelated
  nested_role attribute a name (some nested) =
      if directly_observable attribute a nested then direct else refers name

  abbrev leaf_role : Bytes → AttributeDefinition → Role
  leaf_role attribute a =
      if allowed_type allowed (type_id compiled attribute (some a)) then direct else unrelated

  abbrev typed_role : Bytes → AttributeDefinition → Option Bytes → Role
  typed_role attribute a none = leaf_role attribute a
  typed_role attribute a (some name) =
      if not (same a.type_name (codes "object_t"))
      then leaf_role attribute a
      else nested_role attribute a name (lookup name compiled.objects)

  -- the body of the loops over the attributes, which `CompileObjectObservability` and
  -- `objectMayGenerate` share
  unfoldable pub role : Bytes → AttributeDefinition → Role
  unfolding directly_observable
  role attribute a = typed_role attribute a a.object_type

  abbrev pub is_direct : Role → Bool
  is_direct direct = true
  is_direct _ = false

  unfoldable pub any_direct : Attributes → Bool
  unfolding role
  any_direct [] = false
  any_direct ((name, a) ∷ rest) = is_direct (role name a) || any_direct rest

  abbrev pub edge : Bytes → Role → List (Bytes × Bytes) → List (Bytes × Bytes)
  edge object (refers nested) rest = (nested, object) ∷ rest
  edge object _ rest = rest

  -- the entries that the attributes of an object add to `referrers`, each a definition and its referrer
  unfoldable pub edges_of : Bytes → Attributes → List (Bytes × Bytes)
  unfolding role
  edges_of object [] = []
  edges_of object ((name, a) ∷ rest) = edge object (role name a) (edges_of object rest)

  unfoldable pub all_edges : Objects → List (Bytes × Bytes)
  unfolding edges_of
  all_edges [] = []
  all_edges ((name, object) ∷ rest) = edges_of name object.attributes ++ all_edges rest

  -- the definitions that are observable directly, the last first: `pending` before its loop
  unfoldable pub seeds : Objects → List Bytes → List Bytes
  unfolding any_direct
  seeds [] pending = pending
  seeds ((name, object) ∷ rest) pending =
      seeds rest (if any_direct object.attributes then name ∷ pending else pending)

-- the loop over the referrers of a definition; the head of `pending` is Go's last element
unfoldable pub mark :
    Bytes → List (Bytes × Bytes) → List Bytes → List Bytes → List Bytes × List Bytes
mark object [] result pending = (result, pending)
mark object ((nested, referrer) ∷ rest) result pending =
    if not (same nested object)
    then mark object rest result pending
    else if contains result referrer
    then mark object rest result pending
    else mark object rest (referrer ∷ result) (referrer ∷ pending)

-- the loop over `pending`, with none where the rounds are used up
unfoldable pub propagate : ℕ → List (Bytes × Bytes) → List Bytes → List Bytes → Option (List Bytes)
unfolding mark
propagate rounds edges result [] = some result
propagate zero edges result (object ∷ pending) = none
propagate (suc rounds) edges result (object ∷ pending) =
    let (result', pending') = mark object edges result pending in
    propagate rounds edges result' pending'

module _ (compiled : Compiled) (allowed : Option (ℤ → Bool)) where
  -- `CompileObjectObservability`: the names of the definitions that are true in the result. Every
  -- definition is pending at most once, directly or through one of its attributes.
  unfoldable pub compile_object_observability : Option (List Bytes)
  unfolding all_edges seeds propagate
  compile_object_observability =
      let direct_ones = seeds compiled allowed compiled.objects [] in
      let edges = all_edges compiled allowed compiled.objects in
      propagate (length direct_ones + length edges) edges direct_ones direct_ones

  abbrev may_generate_below :
      List Bytes → Bytes → AttributeDefinition → Bytes → Option ObjectDefinition → Bool
  may_generate_below observability attribute a name none = false
  may_generate_below observability attribute a name (some object) =
      if directly_observable compiled allowed attribute a object
      then true
      else contains observability name

  abbrev may_generate_typed : List Bytes → Bytes → AttributeDefinition → Option Bytes → Bool
  may_generate_typed observability attribute a none = false
  may_generate_typed observability attribute a (some name) =
      may_generate_below observability attribute a name (lookup name compiled.objects)

  abbrev may_generate : List Bytes → Bytes → Option AttributeDefinition → Bool
  may_generate observability attribute none = false
  may_generate observability attribute (some a) =
      may_generate_typed observability attribute a a.object_type

  -- `AttributeMayGenerate` with a cache
  unfoldable pub attribute_may_generate : List Bytes → Bytes → Option AttributeDefinition → Bool
  unfolding directly_observable
  attribute_may_generate observability attribute a = may_generate observability attribute a
