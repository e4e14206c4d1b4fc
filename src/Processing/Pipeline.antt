-- ===== src/Processing/Pipeline.antt =====
-- internal/processing/pipeline.go: the processors that a pipeline runs, and their order.
pub mod Order
use ocsf_toolkit.Common.{
  ◌⊎◌, inl, inr, List, [], ◌∷◌, ◌++◌, Bool, true, false, not, ◌&&◌, ◌||◌, Option, none, some, Bytes,
  bytes_eq, nat_eq, ℕ, same, if◌then◌else◌,
}
use ocsf_toolkit.Common.Int.{ℤ}
use ocsf_toolkit.PathStyle.{Style}
use ocsf_toolkit.Schema.Items.{ClassDefinition}
use ocsf_toolkit.Observable.Discovery.{compile_object_observability}
use ocsf_toolkit.Processing.Context.{IssueSuppression}
use ocsf_toolkit.Processing.ClassObservables.{
  Selector, new_observable_type_selector, compile_class_observable_tries, allows,
}
use ocsf_toolkit.Processing.RemovalProcessors.{RemovalProcessor}
use ocsf_toolkit.Processing.ObservableAddition.{EnrichmentProcessor, ObservableSchema}

-- `enrichment.Action`, whose values are texts: the four constants, and any other text
pub data Action : Type 0 where
  no_action add_action remove_action force_remove_action other_action : Action

abbrev action_code : Action → ℕ
action_code no_action = 0
action_code add_action = 1
action_code remove_action = 2
action_code force_remove_action = 3
action_code other_action = 4

abbrev pub same_action : Action → Action → Bool
same_action a b = same (action_code a) (action_code b)

abbrev pub is_none_action : Action → Bool
is_none_action a = same_action a no_action

-- `mutationDispatcher`, of which exactly one processor is not nil. The removal processor tells by its
-- field `force` which of the two it is.
pub data MutationDispatcher : Type 0 where
  addition : EnrichmentProcessor → MutationDispatcher
  removal : RemovalProcessor → MutationDispatcher

pub data DispatcherError : Type 0 where
  unknown_observable_types : List ℤ → DispatcherError
  unsupported_action : DispatcherError

-- `ObservablesConfig`
pub record ObservablesConfig : Type 0 where
  pub path_notation : Style
  pub type_ids : List ℤ

-- the parts of the compiled schema that the processors are built from
pub record PipelineSchema : Type 0 where
  pub observables : ObservableSchema
  pub classes : List (ℤ × ClassDefinition)

-- The propagation never runs out of rounds, so the empty list never stands for a missing result.
abbrev reached : Option (List Bytes) → List Bytes
reached none = []
reached (some names) = names

module _ (schema : PipelineSchema) (config : ObservablesConfig)
    (suppression : IssueSuppression) where
  abbrev pub addition_of : Bool → Bool → List ℤ ⊎ Selector → DispatcherError ⊎ MutationDispatcher
  addition_of enums observables (inl unknown) = inl (unknown_observable_types unknown)
  addition_of enums observables (inr selector) = inr (
      addition (record {
        enum_siblings_enabled = enums;
        observables_enabled = observables;
        path_notation = config.path_notation;
        observable_types = selector;
        class_observable_tries =
            if observables then compile_class_observable_tries schema.classes selector else [];
        object_observability =
            if observables
            then reached (
                compile_object_observability schema.observables.compiled
                  (some (λ id. allows selector id)))
            else [];
        issue_suppression = suppression;
      }))

  abbrev removal_of : Bool → Bool → Bool → Bool → MutationDispatcher
  removal_of force enums observables defer = removal (record {
    force = force;
    enum_siblings_enabled = enums;
    observables_enabled = observables;
    defer_observables_removal = defer || (enums && observables);
    issue_suppression = suppression;
  })

  -- `newMutationDispatcher`
  unfoldable pub new_mutation_dispatcher :
      Action → Bool → Bool → Bool → DispatcherError ⊎ MutationDispatcher
  new_mutation_dispatcher add_action enums observables defer = addition_of enums observables (
      if observables
      then new_observable_type_selector schema.observables.captions config.type_ids
      else inr none)
  new_mutation_dispatcher remove_action enums observables defer =
      inr (removal_of false enums observables defer)
  new_mutation_dispatcher force_remove_action enums observables defer =
      inr (removal_of true enums observables defer)
  new_mutation_dispatcher _ enums observables defer = inl unsupported_action

  abbrev pub present :
      DispatcherError ⊎ MutationDispatcher → DispatcherError ⊎ (Option MutationDispatcher)
  present (inl e) = inl e
  present (inr d) = inr (some d)

  -- the test for `enrichment.None`, and the dispatcher behind it
  unfoldable pub dispatcher_unless_none :
      Action → Bool → Bool → Bool → DispatcherError ⊎ (Option MutationDispatcher)
  unfolding new_mutation_dispatcher
  dispatcher_unless_none work enums observables defer =
      if is_none_action work
      then inr none
      else present (new_mutation_dispatcher work enums observables defer)

abbrev listed : Option MutationDispatcher → List MutationDispatcher
listed none = []
listed (some d) = d ∷ []

-- `orderedMutationDispatchers`
unfoldable pub ordered_mutation_dispatchers :
    Option MutationDispatcher → Option MutationDispatcher → List MutationDispatcher
ordered_mutation_dispatchers enums observables = listed enums ++ listed observables

abbrev pub joined :
    DispatcherError ⊎ (Option MutationDispatcher)
    → DispatcherError ⊎ (Option MutationDispatcher)
    → DispatcherError ⊎ (List MutationDispatcher)
joined (inl e) observables = inl e
joined (inr enums) (inl e) = inl e
joined (inr enums) (inr observables) = inr (ordered_mutation_dispatchers enums observables)

module _ (schema : PipelineSchema) (config : ObservablesConfig)
    (suppression : IssueSuppression) where
  -- The mutations of `NewPipeline`, by the action on enum siblings and the one on observables. The
  -- configuration has been validated, so no action is another text.
  unfoldable pub new_mutations : Action → Action → DispatcherError ⊎ (List MutationDispatcher)
  unfolding dispatcher_unless_none ordered_mutation_dispatchers
  new_mutations enums observables =
      if same_action enums observables
      then joined (dispatcher_unless_none schema config suppression enums true true false)
          (inr none)
      else joined (dispatcher_unless_none schema config suppression enums true false false) (
          dispatcher_unless_none schema config suppression observables false true
            (not (is_none_action enums)))
