-- ===== src/Tests/Pipelines.antt =====
-- The mutations of a pipeline that adds enum siblings and removes observables.
use ocsf_toolkit.Common.{◌≡◌, refl, inr, List, [], ◌∷◌, true, false, none, bytes_eq}
use ocsf_toolkit.PathStyle.{simple}
use ocsf_toolkit.Processing.Pipeline.{
  MutationDispatcher, addition, removal, add_action, remove_action, PipelineSchema,
  ObservablesConfig, new_mutations,
}
use ocsf_toolkit.Processing.Pipeline.Order.{Runs, new_mutations-Runs}
use ocsf_toolkit.Tests.Samples.{nothing_suppressed}

abbrev schema : PipelineSchema
schema = record {
  observables = record { compiled = record { objects = []; dictionary = none }; captions = [] };
  classes = [];
}

abbrev config : ObservablesConfig
config = record { path_notation = simple; type_ids = [] }

abbrev mutations : List MutationDispatcher
mutations =
    addition (record {
      enum_siblings_enabled = true;
      observables_enabled = false;
      path_notation = simple;
      observable_types = none;
      class_observable_tries = [];
      object_observability = [];
      issue_suppression = nothing_suppressed;
    })
    ∷ removal (record {
      force = false;
      enum_siblings_enabled = false;
      observables_enabled = true;
      defer_observables_removal = true;
      issue_suppression = nothing_suppressed;
    })
    ∷ []

mutations_of :
    new_mutations schema config nothing_suppressed add_action remove_action ≡ inr mutations
unfolding new_mutations
mutations_of = refl

new_mutations-Runs_example : Runs add_action remove_action mutations
new_mutations-Runs_example =
    new_mutations-Runs schema config nothing_suppressed add_action remove_action mutations
      mutations_of
