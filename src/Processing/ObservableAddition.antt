-- ===== src/Processing/ObservableAddition.antt =====
-- The generation of observables (internal/processing/enrichment.go): the observables that the
-- attributes of an event yield, and their addition to the event.
pub mod Diagnostics
pub mod Alignment
pub mod Reports
pub mod Elements
use ocsf_toolkit.Common.{
  ℕ, zero, ◌+◌, List, [], ◌∷◌, ◌++◌, map, Bool, true, false, not, ◌&&◌, ◌||◌, Option, none, some,
  Bytes, bytes_eq, codes, same, lookup, insert, erase, is_some, length, replicate, nat_eq,
  get_elem?, if◌then◌else◌,
}
use ocsf_toolkit.Common.Decimal.{decimal}
use ocsf_toolkit.Common.Int.{ℤ, int_eq}
use ocsf_toolkit.PathStyle.{Style, array_indexed, json_path}
use ocsf_toolkit.EventPath.{
  EventPath, to_string, has_array_index, push_attribute, push_array_index, pop,
}
use ocsf_toolkit.EventValue.{
  Value, Map, null, text, int, array, slice, map_element, items_of, object, fields_of, array_view,
}
use ocsf_toolkit.EventValue.Scalar.{NumberLibrary, as_string, format_scalar}
use ocsf_toolkit.EventValue.Object.{get_attribute}
use ocsf_toolkit.IssueCode.{
  source_enrichment, enrichment_observable_not_added_wrong_type,
  enrichment_observable_not_added_json_type, enrichment_observables_not_added_wrong_type,
  enrichment_observable_duplicate_skipped,
}
use ocsf_toolkit.Schema.{AttributeDefinition}
use ocsf_toolkit.Schema.Items.{ObjectDefinition, ClassDefinition}
use ocsf_toolkit.Schema.Types.{Types, type_derived_from}
use ocsf_toolkit.Observable.Discovery
use ocsf_toolkit.Observable.Discovery.{Compiled, Dictionary}
use ocsf_toolkit.Observable.Collection.{
  Collection, DuplicateSource, existing_source, generated_source, Duplicate, Deduplication,
  deduplicate_generated, new_collection, append, to_value,
}
use ocsf_toolkit.Processing.Context.{Context, IssueSuppression, report}
use ocsf_toolkit.Processing.EnumAddition.{add_enum_sibling}
use ocsf_toolkit.Processing.ArrayAddition.{add_enum_array_sibling}
use ocsf_toolkit.Processing.ClassObservables
use ocsf_toolkit.Processing.ClassObservables.{Node, Selector, allows}
use ocsf_toolkit.Processing.RemovalProcessors.{
  AttributeState, attribute_enum, attribute_primitive, attribute_array_wrong_type,
}

-- `enrichmentProcessor`; a nil map of tries has no entries
pub record EnrichmentProcessor : Type 0 where
  pub enum_siblings_enabled : Bool
  pub observables_enabled : Bool
  pub path_notation : Style
  pub observable_types : Selector
  pub class_observable_tries : List (ℤ × Node)
  pub object_observability : List Bytes
  pub issue_suppression : IssueSuppression

-- `observableTypes`, the captions of the observable types, beside the parts that discovery reads
pub record ObservableSchema : Type 0 where
  pub compiled : Compiled
  pub captions : List (ℤ × Bytes)

-- `onClass`
unfoldable pub on_class : EnrichmentProcessor → Context → ClassDefinition → Context
on_class p c class = record c { class_observable_trie = lookup class.uid p.class_observable_tries }

-- `addGeneratedObservable`
abbrev pub needs_diagnostic_path : Style → EventPath → Bool
needs_diagnostic_path array_indexed path = false
needs_diagnostic_path json_path path = false
needs_diagnostic_path _ path = has_array_index path

abbrev pub grow_paths : Option (List Bytes) → ℕ → Bool → Bytes → Option (List Bytes)
grow_paths none index false rendered = none
grow_paths (some paths) index false rendered = some (paths ++ [] ∷ [])
grow_paths none index true rendered = some (replicate index [] ++ rendered ∷ [])
grow_paths (some paths) index true rendered = some (paths ++ rendered ∷ [])

unfoldable pub add_generated_observable : Context → EventPath → Map → Style → Context
add_generated_observable c path observable style = record c {
  observables = c.observables ++ observable ∷ [];
  observable_diagnostic_paths =
      grow_paths c.observable_diagnostic_paths (length c.observables)
        (needs_diagnostic_path style path) (to_string path array_indexed);
}

-- `strings.TrimPrefix` of "$."
abbrev pub trim_root : Bytes → Bytes
trim_root (a ∷ b ∷ rest) = if same a b'$' && same b b'.' then rest else a ∷ b ∷ rest
trim_root s = s

abbrev pub recorded : Option Bytes → Style → Bytes → Bytes
recorded (some (b ∷ path)) style name = b ∷ path
recorded _ json_path name = trim_root name
recorded _ _ name = name

abbrev pub recorded_at : Option (List Bytes) → ℕ → Option Bytes
recorded_at none index = none
recorded_at (some paths) index = get_elem? paths index

-- `observableDiagnosticPath`
unfoldable pub observable_diagnostic_path : Context → ℕ → Bytes → Style → Bytes
observable_diagnostic_path c index name style =
    recorded (recorded_at c.observable_diagnostic_paths index) style name

-- `terminalObservableAttribute`: what follows the last dot, up to the first bracket
unfoldable pub after_last_dot : Bytes → Bytes → Bytes
after_last_dot whole [] = whole
after_last_dot whole (b ∷ rest) =
    if same b b'.' then after_last_dot rest rest else after_last_dot whole rest

unfoldable pub before_bracket : Bytes → Bytes
before_bracket [] = []
before_bracket (b ∷ rest) = if same b b'[' then [] else b ∷ before_bracket rest

unfoldable pub terminal_observable_attribute : Bytes → Bytes
unfolding after_last_dot before_bracket
terminal_observable_attribute path = before_bracket (after_last_dot path path)

abbrev with_value : Option Bytes → Map → Map
with_value none m = m
with_value (some value) m = insert (codes "value") (text value) m

abbrev with_caption : Option Bytes → Map → Map
with_caption none m = m
with_caption (some caption) m = insert (codes "type") (text caption) m

-- The map that `addObservable` builds. `ObservableTypeIDValue` returns the type ID itself.
unfoldable pub observable_of : ObservableSchema → Bytes → ℤ → Option Bytes → Bool → Map
observable_of schema name type_id value enabled =
    with_caption (if enabled then lookup type_id schema.captions else none)
      (with_value value ((codes "name", text name) ∷ (codes "type_id", int type_id) ∷ []))

-- `addObservable`
unfoldable pub add_observable :
    ObservableSchema → Context → ℤ → Option Bytes → Style → Bool → Context
unfolding add_generated_observable observable_of
add_observable schema c type_id value notation enabled =
    add_generated_observable c c.path
      (observable_of schema (to_string c.path notation) type_id value enabled) notation

-- the report that an observable was not added for the attribute at the path of the traversal
abbrev pub report_wrong_type : Context → IssueSuppression → Bytes → Context
report_wrong_type c suppression name =
    report c suppression source_enrichment enrichment_observable_not_added_wrong_type
      ((codes "attribute_path", to_string c.path array_indexed) ∷ (codes "attribute", name) ∷ [])

abbrev pub types_of : Option Dictionary → Option Types
types_of none = none
types_of (some d) = d.types

module _ (schema : ObservableSchema) (p : EnrichmentProcessor) where
  abbrev allowed_or : Context → Option ℤ → Option ℤ
  allowed_or c (some id) = if allows p.observable_types id then some id else none
  allowed_or c none = ClassObservables.type_id c.class_observable_trie c.path

  -- `observableTypeID`
  unfoldable pub observable_type_id : Context → Bytes → AttributeDefinition → Option ℤ
  observable_type_id c name attr = allowed_or c (Discovery.type_id schema.compiled name (some attr))

  -- `attributeMayGenerate`
  unfoldable pub attribute_may_generate : Context → Bytes → AttributeDefinition → Bool
  attribute_may_generate c name attr =
      if ClassObservables.has_declaration_at_or_below c.class_observable_trie c.path
      then true
      else Discovery.attribute_may_generate schema.compiled
          (some (λ id. allows p.observable_types id)) p.object_observability name (some attr)

  abbrev add_found : Context → Option Bytes → Option ℤ → Context
  add_found c value none = c
  add_found c value (some id) =
      add_observable schema c id value p.path_notation p.enum_siblings_enabled

  abbrev at_object : Context → Bytes → AttributeDefinition → Option ℤ → Context
  at_object c name attr (some id) =
      if allows p.observable_types id then add_found c none (some id) else c
  at_object c name attr none = add_found c none (observable_type_id c name attr)

  -- `onObject`
  unfoldable pub on_object : Context → Bytes → AttributeDefinition → ObjectDefinition → Context
  unfolding observable_type_id add_observable
  on_object c name attr definition =
      if not p.observables_enabled then c else at_object c name attr definition.observable

  -- `onObjectWrongType`
  unfoldable pub on_object_wrong_type : Context → Bytes → AttributeDefinition → Context
  unfolding attribute_may_generate
  on_object_wrong_type c name attr =
      if not p.observables_enabled || not (attribute_may_generate c name attr)
      then c
      else report_wrong_type c p.issue_suppression name

abbrev pub at_index : Context → ℕ → Context
at_index c index = record c { path = push_array_index c.path index }

abbrev pub leave : Context → Context
leave c = record c { path = pop c.path }

module _ (lib : NumberLibrary) (schema : ObservableSchema) (p : EnrichmentProcessor) where
  abbrev pub add_formatted : Context → Bytes → ℤ → Bool → Option Bytes → Context
  add_formatted c name id is_text none = report_wrong_type c p.issue_suppression name
  add_formatted c name id is_text (some s) =
      if same s [] && not is_text
      then report_wrong_type c p.issue_suppression name
      else add_observable schema c id (some s) p.path_notation p.enum_siblings_enabled

  abbrev pub add_scalar : Context → Bytes → AttributeDefinition → Value → Option ℤ → Context
  add_scalar c name attr value none = c
  add_scalar c name attr value (some id) =
      if type_derived_from (types_of schema.compiled.dictionary) attr.type_name (codes "json_t")
      then report c p.issue_suppression source_enrichment enrichment_observable_not_added_json_type
          ((codes "attribute_path", to_string c.path array_indexed)
            ∷ (codes "attribute", name)
            ∷ (codes "type", attr.type_name)
            ∷ [])
      else add_formatted c name id (is_some (as_string value)) (format_scalar lib value)

  -- `addScalarValueObservable`
  unfoldable pub add_scalar_value_observable :
      Context → Bytes → AttributeDefinition → Value → Context
  unfolding observable_type_id add_observable
  add_scalar_value_observable c name attr value =
      add_scalar c name attr value (observable_type_id schema p c name attr)

  -- the loop of `addArrayValueObservables`
  unfoldable pub add_elements : Context → Bytes → AttributeDefinition → List Value → ℕ → Context
  unfolding add_scalar_value_observable
  add_elements c name attr [] index = c
  add_elements c name attr (value ∷ values) index =
      add_elements (leave (add_scalar_value_observable (at_index c index) name attr value)) name
        attr values (index + 1)

  abbrev pub add_values : Context → Bytes → AttributeDefinition → Option (List Value) → Context
  add_values c name attr (some values) = add_elements c name attr values 0
  add_values c name attr none =
      if is_some (observable_type_id schema p c name attr)
      then report_wrong_type c p.issue_suppression name
      else c

  -- `addArrayValueObservables`
  unfoldable pub add_array_value_observables :
      Context → Bytes → AttributeDefinition → Value → Context
  unfolding add_elements
  add_array_value_observables c name attr value = add_values c name attr (array_view value)

  abbrev add_attribute_observables : Context → Bytes → AttributeDefinition → Value → Context
  add_attribute_observables c name attr value =
      if attr.is_array
      then add_array_value_observables c name attr value
      else add_scalar_value_observable c name attr value

  abbrev wrong_type_array : Context → Bytes → AttributeDefinition → Context
  wrong_type_array c name attr =
      if is_some (observable_type_id schema p c name attr)
        || (same attr.type_name (codes "object_t") && attribute_may_generate schema p c name attr)
      then report_wrong_type c p.issue_suppression name
      else c

  abbrev if_enabled : Context → (Context → Context) → Context
  if_enabled c add = if p.observables_enabled then add c else c

  -- `onAttribute`; `sibling_active` says that the resolved sibling is active, and `array_element` that
  -- `arrayIndex` is not negative
  unfoldable pub on_attribute :
      Context
      → Map
      → Value
      → Bytes
      → AttributeDefinition
      → Bool
      → Bool
      → AttributeState
      → Context × Map
  unfolding add_scalar_value_observable observable_type_id attribute_may_generate
  on_attribute c item value name attr sibling_active array_element attribute_enum =
      add_enum_sibling lib c item value name attr p.enum_siblings_enabled sibling_active
        array_element p.issue_suppression
  on_attribute c item value name attr sibling_active array_element attribute_array_wrong_type =
      (if_enabled c (λ x. wrong_type_array x name attr), item)
  on_attribute c item value name attr sibling_active array_element attribute_primitive =
      if is_some attr.enum
      then (c, item)
      else (if_enabled c (λ x. add_scalar_value_observable x name attr value), item)
  on_attribute c item value name attr sibling_active array_element _ = (c, item)

  -- `onArrayElement`, of the element's value
  unfoldable pub on_array_element :
      Context → Value → Bytes → AttributeDefinition → AttributeState → Context
  unfolding add_scalar_value_observable
  on_array_element c value name attr attribute_primitive =
      if is_some attr.enum
      then c
      else if_enabled c (λ x. add_scalar_value_observable x name attr value)
  on_array_element c value name attr _ = c

  abbrev push : Context → Bytes → Context
  push c name = record c { path = push_attribute c.path name }

  abbrev sibling_of_present :
      Context → Map → Bytes → AttributeDefinition → Bytes → Bool → Option Value → Context × Map
  sibling_of_present c item name attr sibling active none = (c, item)
  sibling_of_present c item name attr sibling active (some value) =
      let (c', item') =
        (if attr.is_array
          then add_enum_array_sibling lib attr
              (type_derived_from (types_of schema.compiled.dictionary) attr.type_name
                (codes "string_t"))
              (push c name) item value name sibling p.enum_siblings_enabled p.issue_suppression
          else add_enum_sibling lib (push c name) item value name attr p.enum_siblings_enabled
              active false p.issue_suppression) in
      (leave c', item')

  abbrev observe_present : Context → Bytes → AttributeDefinition → Option Value → Context
  observe_present c name attr none = c
  observe_present c name attr (some value) =
      leave (add_attribute_observables (push c name) name attr value)

  -- `onEnumSiblingPairAttributes`
  unfoldable pub on_enum_sibling_pair_attributes :
      Context
      → Map
      → Bytes
      → AttributeDefinition
      → Bytes
      → AttributeDefinition
      → Bool
      → Context × Map
  unfolding add_array_value_observables add_scalar_value_observable
  on_enum_sibling_pair_attributes c item name attr sibling sibling_attr active =
      let (c', item') =
        sibling_of_present c item name attr sibling active (get_attribute item name) in
      (
        if_enabled c' (λ x. observe_present x sibling sibling_attr (get_attribute item' sibling)),
        item',
      )

abbrev source_name : DuplicateSource → Bytes
source_name existing_source = codes "existing"
source_name generated_source = codes "generated"

-- the loop over the duplicates
unfoldable pub report_duplicates : Context → IssueSuppression → Style → List Duplicate → Context
unfolding observable_diagnostic_path terminal_observable_attribute
report_duplicates c suppression notation [] = c
report_duplicates c suppression notation (d ∷ rest) =
    let path = observable_diagnostic_path c d.generated_index d.name notation in
    report_duplicates
      (report c suppression source_enrichment enrichment_observable_duplicate_skipped (
        (codes "attribute_path", path)
        ∷ (codes "attribute", terminal_observable_attribute path)
        ∷ (codes "duplicate_of", source_name d.source)
        ∷ []))
      suppression notation rest

abbrev pub observables_name : Bytes
observables_name = codes "observables"

-- `[]jsonish.Map`
abbrev pub generated_array : List Map → Value
generated_array ms = array slice map_element (items_of (map (λ m. object (fields_of m)) ms))

module _ (lib : NumberLibrary) (accepts : ℕ → Bool) (p : EnrichmentProcessor) where
  abbrev entries_of : Option Collection → List Value
  entries_of none = []
  entries_of (some existing) = existing.values

  abbrev write_accepted : Context → Map → Option Collection → List Map → Context × Map
  write_accepted c event existing [] = (c, event)
  write_accepted c event none (m ∷ ms) = (
    record c {
      observables_added = c.observables_added + length (m ∷ ms);
      generated_observables_path_notation = p.path_notation;
    },
    insert observables_name (generated_array (m ∷ ms)) event,
  )
  write_accepted c event (some existing) (m ∷ ms) = (
    record c {
      observables_added = c.observables_added + length (m ∷ ms);
      generated_observables_start = some (length existing.values);
      generated_observables_path_notation = p.path_notation;
    },
    insert observables_name (to_value (append accepts existing (m ∷ ms))) event,
  )

  abbrev write_deduplicated : Context → Map → Option Collection → Deduplication → Context × Map
  write_deduplicated c event existing d =
      write_accepted (report_duplicates c p.issue_suppression p.path_notation d.duplicates) event
        existing d.accepted

  abbrev add_all : Context → Map → Option Collection → List Map → Context × Map
  add_all c event existing [] = (c, event)
  add_all c event none (m ∷ []) = (
    record c {
      observables_added = 1;
      generated_observables_start = some 0;
      generated_observables_path_notation = p.path_notation;
    },
    insert observables_name (generated_array (m ∷ [])) event,
  )
  add_all c event existing ms =
      write_deduplicated c event existing (deduplicate_generated lib (entries_of existing) ms)

  -- `addGeneratedObservables`
  unfoldable pub add_generated_observables : Context → Map → Option Collection → Context × Map
  unfolding report_duplicates
  add_generated_observables c event existing = add_all c event existing c.observables

  abbrev add_to : Context → Map → Option Collection → Context × Map
  add_to c event none = if same (length c.observables) zero then (c, event) else (
    report c p.issue_suppression source_enrichment enrichment_observables_not_added_wrong_type (
        (codes "attribute_path", observables_name)
        ∷ (codes "attribute", observables_name)
        ∷ (codes "generated_observables", decimal (length c.observables))
        ∷ []),
    event,
  )
  add_to c event (some existing) =
      if same (length existing.values) zero
      then add_generated_observables c (erase observables_name event) none
      else add_generated_observables c event (some existing)

  abbrev add_beside : Context → Map → Option Value → Context × Map
  add_beside c event none = add_generated_observables c event none
  add_beside c event (some null) = add_generated_observables c (erase observables_name event) none
  add_beside c event (some existing) = add_to c event (new_collection existing)

  -- `onEventDone`
  unfoldable pub on_event_done : Context → Map → Context × Map
  unfolding add_generated_observables
  on_event_done c event =
      if not p.observables_enabled
      then (c, event)
      else add_beside c event (lookup observables_name event)
