-- ===== src/ObservablePath/Definition.antt =====
-- internal/observablepath/path.go: whether the schema defines a path, and in which notation.
use ocsf_toolkit.Common.{
  List, [], ◌∷◌, Bool, true, false, not, ◌&&◌, ◌||◌, Option, none, some, Bytes, bytes_eq, codes,
  same, lookup, nat_eq, bool_eq, ltb, length, if◌then◌else◌,
}
use ocsf_toolkit.PathSeq
use ocsf_toolkit.PathStyle.{
  Style, simple, array_brackets, array_wildcard, array_indexed, json_path, is_json_path,
}
use ocsf_toolkit.EventPath.{EventPath, root, push_attribute, has_prior_attribute}
use ocsf_toolkit.Schema.{AttributeDefinition, attribute_active}
use ocsf_toolkit.Schema.Items.{Attributes, ClassDefinition, Objects, object_attributes}
use ocsf_toolkit.ObservablePath.{Selector, brackets, wildcard, index, Segment, ObservablePath}

-- `DefinitionStatus`
pub data DefinitionStatus : Type 0 where
  undefined defined traversal_limited : DefinitionStatus

abbrev pub is_last : List Segment → Bool
is_last [] = true
is_last (s ∷ rest) = false

-- the selectors of a segment for an attribute that is an array or not
abbrev pub selectors_allowed : List Selector → Bool → Bool
selectors_allowed selectors is_array =
    if ltb 0 (length selectors) && not is_array then false else not (ltb 1 (length selectors))

abbrev pub enter : Option Attributes → (Attributes → DefinitionStatus) → DefinitionStatus
enter none deeper = undefined
enter (some attributes) deeper = deeper attributes

-- what follows the checks of a segment's attribute
abbrev pub below :
    Objects → AttributeDefinition → Bool → Bool → (Attributes → DefinitionStatus) → DefinitionStatus
below objects a last prior deeper =
    if last
    then defined
    else if prior
    then traversal_limited
    else if not (same a.type_name (codes "object_t"))
    then undefined
    else enter (object_attributes objects a.object_type) deeper

abbrev pub at_attribute :
    List Bytes
    → Option AttributeDefinition
    → List Selector
    → (AttributeDefinition → DefinitionStatus)
    → DefinitionStatus
at_attribute profiles none selectors continue = undefined
at_attribute profiles (some a) selectors continue =
    if not (attribute_active (some a) profiles)
    then undefined
    else if selectors_allowed selectors a.is_array
    then continue a
    else undefined

module _ (objects : Objects) (profiles : List Bytes) where
  -- the loop of `Definition`, from a segment on
  unfoldable pub definition_from : List Segment → EventPath → Attributes → DefinitionStatus
  unfolding push_attribute has_prior_attribute attribute_active
  definition_from [] definition_path attributes = undefined
  definition_from (segment ∷ rest) definition_path attributes =
      let pushed = push_attribute definition_path segment.attribute in
      at_attribute profiles (lookup segment.attribute attributes) segment.selectors (λ a.
        below objects a (is_last rest) (has_prior_attribute pushed segment.attribute)
          (λ inner. definition_from rest pushed inner))

  -- `Definition`; the class is none where the pointer is nil
  unfoldable pub definition : ObservablePath → Option ClassDefinition → DefinitionStatus
  unfolding definition_from root PathSeq.items
  definition p none = undefined
  definition p (some class) = definition_from (PathSeq.items p.segments) root class.attributes

-- `selectorsUseNotation`
unfoldable pub selectors_use_notation : List Selector → Style → Bool
selectors_use_notation [] simple = true
selectors_use_notation (brackets ∷ []) array_brackets = true
selectors_use_notation (wildcard ∷ []) array_wildcard = true
selectors_use_notation (index i ∷ []) array_indexed = true
selectors_use_notation (index i ∷ []) json_path = true
selectors_use_notation selectors style = false

abbrev pub use_notation_at :
    Style → List Selector → Option AttributeDefinition → (AttributeDefinition → Bool) → Bool
use_notation_at style selectors none continue = false
use_notation_at style selectors (some a) continue =
    if a.is_array
    then (if selectors_use_notation selectors style then continue a else false)
    else if same (length selectors) 0
    then continue a
    else false

abbrev pub use_notation_in : Option Attributes → (Attributes → Bool) → Bool
use_notation_in none deeper = false
use_notation_in (some attributes) deeper = deeper attributes

module _ (objects : Objects) (style : Style) where
  -- the loop of `UsesNotation`; without a segment it is not reached
  unfoldable pub uses_notation_from : List Segment → EventPath → Attributes → Bool
  unfolding push_attribute has_prior_attribute selectors_use_notation
  uses_notation_from [] definition_path attributes = true
  uses_notation_from (segment ∷ rest) definition_path attributes =
      let pushed = push_attribute definition_path segment.attribute in
      use_notation_at style segment.selectors (lookup segment.attribute attributes) (λ a.
        if is_last rest
        then true
        else if has_prior_attribute pushed segment.attribute
        then false
        else use_notation_in (object_attributes objects a.object_type)
            (λ inner. uses_notation_from rest pushed inner))

  -- `UsesNotation`
  unfoldable pub uses_notation : ObservablePath → Option ClassDefinition → Bool
  unfolding uses_notation_from root PathSeq.items
  uses_notation p none = false
  uses_notation p (some class) =
      if same p.segments.len 0 || not (same p.rooted (is_json_path style))
      then false
      else uses_notation_from (PathSeq.items p.segments) root class.attributes
