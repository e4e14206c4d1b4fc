-- ===== src/Tests/Schemas.antt =====
-- A dictionary of types.
use ocsf_toolkit.Common.{false, ◌≡◌, ◌↔◌, refl, [], ◌∷◌, none, some, Bytes, bytes_eq, codes}
use ocsf_toolkit.Common.Int.{pos}
use ocsf_toolkit.Schema.{AttributeDefinition}
use ocsf_toolkit.Schema.Items.{Attributes}
use ocsf_toolkit.Schema.Siblings.{link_siblings, validate_item_enum_sibling_relationships}
use ocsf_toolkit.Schema.Siblings.Links.{AllDistinct, link_siblings-AllDistinct}
use ocsf_toolkit.Schema.Types.{Types, resolved, resolve_primitive_type, validate_type_inheritance}
use ocsf_toolkit.Schema.Types.Termination.{
  Ends, Climbs, Upward, following, resolve_primitive_type-Ends,
}
use ocsf_toolkit.Schema.Types.Validation.{
  validate_type_inheritance-Climbs, resolve_primitive_type-valid,
}

abbrev types : Types
types =
    (codes "port_t", record { type_name = codes "integer_t"; observable = some (pos 11) })
    ∷ (codes "service_port_t", record { type_name = codes "port_t"; observable = none })
    ∷ []

abbrev cyclic_types : Types
cyclic_types =
    (codes "a_t", record { type_name = codes "b_t"; observable = none })
    ∷ (codes "b_t", record { type_name = codes "a_t"; observable = none })
    ∷ []

resolve_primitive_type-Ends_example :
    Ends cyclic_types (codes "a_t") (resolve_primitive_type (some cyclic_types) (codes "a_t"))
resolve_primitive_type-Ends_example = resolve_primitive_type-Ends cyclic_types (codes "a_t")

validate_type_inheritance-Climbs_example :
    (validate_type_inheritance cyclic_types ≡ none) ↔ ((x : Bytes) → Climbs cyclic_types x x → ⊥)
validate_type_inheritance-Climbs_example = validate_type_inheritance-Climbs cyclic_types

types-valid : validate_type_inheritance types ≡ none
unfolding validate_type_inheritance
types-valid = refl

resolve_primitive_type-valid_example :
    (top : Bytes) × (resolve_primitive_type (some types) (codes "service_port_t") ≡ resolved top)
    × Upward types (codes "service_port_t") top
    × (following types top ≡ none)
resolve_primitive_type-valid_example =
    resolve_primitive_type-valid types (codes "service_port_t") types-valid

abbrev severity_id : AttributeDefinition
severity_id = record {
  type_name = codes "integer_t";
  primitive_type = codes "integer_t";
  is_array = false;
  enum = some ((codes "1", record { caption = codes "Low" }) ∷ []);
  sibling = some (codes "severity");
  object_type = none;
  profiles = [];
  observable = none;
  numeric_enums = none;
}

abbrev severity : AttributeDefinition
severity = record severity_id { type_name = codes "string_t"; enum = none; sibling = none }

abbrev item : Attributes
item = (codes "severity", severity) ∷ (codes "severity_id", severity_id) ∷ []

item-accepted : validate_item_enum_sibling_relationships item ≡ none
unfolding validate_item_enum_sibling_relationships
item-accepted = refl

link_siblings-AllDistinct_example : AllDistinct (link_siblings item item).links
link_siblings-AllDistinct_example = link_siblings-AllDistinct item item-accepted
