-- ===== src/Schema/Items.antt =====
-- internal/schema/schema.go: the classes and the objects of a schema.
use ocsf_toolkit.Common.{List, Option, none, some, Bytes, bytes_eq, lookup}
use ocsf_toolkit.Common.Int.{ℤ}
use ocsf_toolkit.Schema.{AttributeDefinition}

-- The attributes by name. A definition that is null is refused when a schema is loaded, so a name
-- with no entry stands for the nil that Go reads from the map.
abbrev pub Attributes : Type 0
Attributes = List (Bytes × AttributeDefinition)

-- `ClassDefinition` with the fields of its `ItemDefinition`
pub record ClassDefinition : Type 0 where
  pub name : Bytes
  pub uid : ℤ
  pub attributes : Attributes
  pub observables : List (Bytes × ℤ)

pub record ObjectDefinition : Type 0 where
  pub attributes : Attributes
  pub observable : Option ℤ

abbrev pub Objects : Type 0
Objects = List (Bytes × ObjectDefinition)

abbrev pub attributes_of : Option ObjectDefinition → Option Attributes
attributes_of none = none
attributes_of (some object) = some object.attributes

-- `objects[*attrDef.ObjectType]`, with none for both nil pointers
abbrev pub object_attributes : Objects → Option Bytes → Option Attributes
object_attributes objects none = none
object_attributes objects (some name) = attributes_of (lookup name objects)
