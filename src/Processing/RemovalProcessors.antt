-- ===== src/Processing/RemovalProcessors.antt =====
-- The processors that remove enrichment (internal/processing/enrichment_removal.go): what each does
-- for a class, for the end of a class, for an attribute and for an enum with its sibling.
use ocsf_toolkit.Common.{
  ◌+◌, ◌⊎◌, inr, List, Bool, true, false, not, ◌||◌, Option, none, some, Bytes, bytes_eq, lookup,
  erase, is_some, if◌then◌else◌,
}
use ocsf_toolkit.EventValue.{Value, null, Map}
use ocsf_toolkit.EventValue.Scalar.{NumberLibrary}
use ocsf_toolkit.Schema.{AttributeDefinition}
use ocsf_toolkit.Schema.Items.{ClassDefinition, Objects}
use ocsf_toolkit.Observable.Collection.{FilterError}
use ocsf_toolkit.Processing.Context.{Context, IssueSuppression}
use ocsf_toolkit.Processing.EnumRemoval.{remove_enum_sibling_pair}
use ocsf_toolkit.Processing.ObservableRemoval.{remove_observables_safely, force_remove_observables}

-- `attributeState`
pub data AttributeState : Type 0 where
  attribute_present attribute_missing attribute_array_wrong_type attribute_enum
        attribute_primitive :
      AttributeState

abbrev is_present : AttributeState → Bool
is_present attribute_present = true
is_present _ = false

abbrev retained_or_removed : Context → Map → Bytes → Option Value → Context × Map
retained_or_removed c item name none = (c, item)
retained_or_removed c item name (some null) =
    (record c { enum_siblings_removed = c.enum_siblings_removed + 1 }, erase name item)
retained_or_removed c item name (some value) =
    (record c { enum_siblings_retained = c.enum_siblings_retained + 1 }, item)

abbrev retain_named : Context → Map → AttributeDefinition → Option Bytes → Context × Map
retain_named c item a none = (c, item)
retain_named c item a (some name) = retained_or_removed c item name (lookup name item)

abbrev retain_of : Context → Map → Option AttributeDefinition → Bool → Context × Map
retain_of c item none linked = (c, item)
retain_of c item (some a) linked =
    if not (is_some a.enum) || linked then (c, item) else retain_named c item a a.sibling

-- `retainUnsupportedEnumSibling`; `linked` says that `ResolvedEnumSibling` is not nil
unfoldable pub retain_unsupported_enum_sibling :
    Context → Map → Option AttributeDefinition → Bool → AttributeState → Bool → Context × Map
retain_unsupported_enum_sibling c item a linked status enabled =
    if not enabled || not (is_present status) then (c, item) else retain_of c item a linked

-- `enrichmentSafeRemovalProcessor` and `enrichmentForceRemovalProcessor`, which have the same fields
pub record RemovalProcessor : Type 0 where
  pub force : Bool
  pub enum_siblings_enabled : Bool
  pub observables_enabled : Bool
  pub defer_observables_removal : Bool
  pub issue_suppression : IssueSuppression

module _ (lib : NumberLibrary) (objects : Objects) (class : Option ClassDefinition)
    (profiles : List Bytes) where
  unfoldable pub remove_observables :
      RemovalProcessor → Context → Map → FilterError ⊎ (Context × Map)
  unfolding remove_observables_safely force_remove_observables
  remove_observables p c event =
      if p.force
      then inr (force_remove_observables c event p.observables_enabled)
      else remove_observables_safely lib objects class profiles c event p.observables_enabled
          p.issue_suppression

  -- `onClass`
  unfoldable pub on_class : RemovalProcessor → Context → Map → FilterError ⊎ (Context × Map)
  unfolding remove_observables
  on_class p c event =
      if p.defer_observables_removal then inr (c, event) else remove_observables p c event

  -- `onClassDone`
  unfoldable pub on_class_done : RemovalProcessor → Context → Map → FilterError ⊎ (Context × Map)
  unfolding remove_observables
  on_class_done p c item =
      if p.defer_observables_removal then remove_observables p c item else inr (c, item)

-- `onAttribute`
unfoldable pub on_attribute :
    RemovalProcessor
    → Context
    → Map
    → Option AttributeDefinition
    → Bool
    → AttributeState
    → Context × Map
unfolding retain_unsupported_enum_sibling
on_attribute p c item a linked status =
    retain_unsupported_enum_sibling c item a linked status p.enum_siblings_enabled

module _ (lib : NumberLibrary) where
  -- `onEnumSiblingPairAttributes`
  unfoldable pub on_enum_sibling_pair_attributes :
      RemovalProcessor → Context → Map → Bytes → AttributeDefinition → Bytes → Context × Map
  unfolding remove_enum_sibling_pair
  on_enum_sibling_pair_attributes p c item enum_name attr sibling_name =
      remove_enum_sibling_pair lib c item enum_name attr sibling_name p.enum_siblings_enabled
        p.force p.issue_suppression
