-- ===== src/Processing/Pipeline/Order.antt =====
-- What the mutations of a pipeline do, and in which order.
use ocsf_toolkit.Common.{
  ℕ, ◌+◌, ◌⊎◌, inl, inr, List, [], ◌∷◌, Bool, true, false, not, ◌&&◌, ◌||◌, Option, none, some,
  if◌then◌else◌, ◌≡◌, refl, sym, ap, ◌∙◌, arith, Bool-cases, same, nat_eq,
}
use ocsf_toolkit.Common.Int.{ℤ}
use ocsf_toolkit.Processing.Context.{IssueSuppression}
use ocsf_toolkit.Processing.ClassObservables.{Selector}
use ocsf_toolkit.Processing.Pipeline.{
  Action, no_action, add_action, remove_action, force_remove_action, other_action, same_action,
  is_none_action, MutationDispatcher, addition, removal, DispatcherError, ObservablesConfig,
  PipelineSchema, new_mutation_dispatcher, dispatcher_unless_none, joined, new_mutations,
  ordered_mutation_dispatchers, addition_of, present,
}

abbrev pub handles_enums : MutationDispatcher → Bool
handles_enums (addition p) = p.enum_siblings_enabled
handles_enums (removal p) = p.enum_siblings_enabled

abbrev pub handles_observables : MutationDispatcher → Bool
handles_observables (addition p) = p.observables_enabled
handles_observables (removal p) = p.observables_enabled

abbrev number : Bool → ℕ
number b = if b then 1 else 0

abbrev pub count : (MutationDispatcher → Bool) → List MutationDispatcher → ℕ
count test [] = 0
count test (d ∷ ds) = number (test d) + count test ds

-- No dispatcher behind the first handles enum siblings.
abbrev pub enums_first : List MutationDispatcher → Bool
enums_first [] = true
enums_first (d ∷ ds) = same (count handles_enums ds) 0

-- A removal of observables is deferred exactly when enum siblings are handled too.
abbrev pub deferred_if : Bool → MutationDispatcher → Bool
deferred_if enums (addition p) = true
deferred_if enums (removal p) =
    not p.observables_enabled
    || (if enums then p.defer_observables_removal else not p.defer_observables_removal)

abbrev pub all_deferred_if : Bool → List MutationDispatcher → Bool
all_deferred_if enums [] = true
all_deferred_if enums (d ∷ ds) = deferred_if enums d && all_deferred_if enums ds

-- The processor is the one of an action.
abbrev pub performs : Action → MutationDispatcher → Bool
performs add_action (addition p) = true
performs remove_action (removal p) = not p.force
performs force_remove_action (removal p) = p.force
performs _ _ = false

-- Each dispatcher performs the action on the enrichment that it handles.
abbrev pub all_perform : Action → Action → List MutationDispatcher → Bool
all_perform enums observables [] = true
all_perform enums observables (d ∷ ds) =
    (not (handles_enums d) || performs enums d)
    && (not (handles_observables d) || performs observables d)
    && all_perform enums observables ds

performs-same_action :
    (a b : Action) (d : MutationDispatcher)
    → same_action a b ≡ true
    → performs a d ≡ true
    → performs b d ≡ true
performs-same_action a b d h = grind arith

pub record Runs (enums observables : Action) (ds : List MutationDispatcher) : Type 0 where
  pub enum_siblings : count handles_enums ds ≡ number (not (is_none_action enums))
  pub observables_once : count handles_observables ds ≡ number (not (is_none_action observables))
  pub order : enums_first ds ≡ true
  pub actions : all_perform enums observables ds ≡ true
  pub deferral : all_deferred_if (not (is_none_action enums)) ds ≡ true

record Built (work : Action) (enums observables defer : Bool) (d : MutationDispatcher)
    : Type 0 where
  performed : performs work d ≡ true
  enums_built : handles_enums d ≡ enums
  observables_built : handles_observables d ≡ observables
  defer_built : deferred_if (defer || enums && observables) d ≡ true

addition_of-Built :
    (schema : PipelineSchema) (config : ObservablesConfig) (suppression : IssueSuppression)
    (enums observables defer : Bool) (selection : List ℤ ⊎ Selector) (d : MutationDispatcher)
    → addition_of schema config suppression enums observables selection ≡ inr d
    → Built add_action enums observables defer d
addition_of-Built schema config suppression enums observables defer (inl unknown) d h = grind arith
addition_of-Built schema config suppression enums observables defer (inr selector) d h = grind arith

deferral_matches :
    (enums observables defer : Bool)
    → (not observables
        || (if defer || enums && observables
            then defer || enums && observables
            else not (defer || enums && observables)))
      ≡ true
deferral_matches enums observables defer = grind arith

module _ (schema : PipelineSchema) (config : ObservablesConfig)
    (suppression : IssueSuppression) where
  new_mutation_dispatcher-Built :
      (work : Action) (enums observables defer : Bool) (d : MutationDispatcher)
      → new_mutation_dispatcher schema config suppression work enums observables defer ≡ inr d
      → Built work enums observables defer d
  unfolding new_mutation_dispatcher
  new_mutation_dispatcher-Built no_action enums observables defer d h = grind arith
  new_mutation_dispatcher-Built add_action enums observables defer d h =
      addition_of-Built schema config suppression enums observables defer _ d h
  new_mutation_dispatcher-Built remove_action enums observables defer d h =
      grind (arith, deferral_matches enums observables defer)
  new_mutation_dispatcher-Built force_remove_action enums observables defer d h =
      grind (arith, deferral_matches enums observables defer)
  new_mutation_dispatcher-Built other_action enums observables defer d h = grind arith

  -- what `dispatcher_unless_none` gives: nothing for no action, and a dispatcher that was built else
  abbrev Given : Action → Bool → Bool → Bool → Option MutationDispatcher → Type 0
  Given work enums observables defer none = is_none_action work ≡ true
  Given work enums observables defer (some d) =
      (is_none_action work ≡ false) × Built work enums observables defer d

  present-Given :
      (work : Action) (enums observables defer : Bool)
      (built : DispatcherError ⊎ MutationDispatcher) (given : Option MutationDispatcher)
      → new_mutation_dispatcher schema config suppression work enums observables defer ≡ built
      → is_none_action work ≡ false
      → present schema config suppression built ≡ inr given
      → Given work enums observables defer given
  present-Given work enums observables defer (inl e) given h some_action result = grind arith
  present-Given work enums observables defer (inr d) none h some_action result = grind arith
  present-Given work enums observables defer (inr d) (some g) h some_action result = (
    some_action,
    new_mutation_dispatcher-Built work enums observables defer g (h ∙ grind (arith, result)),
  )

  absent-Given :
      (work : Action) (enums observables defer : Bool) (given : Option MutationDispatcher)
      (built : DispatcherError ⊎ (Option MutationDispatcher))
      → is_none_action work ≡ true
      → built ≡ inr none
      → built ≡ inr given
      → Given work enums observables defer given
  absent-Given work enums observables defer none built no_work absent h = no_work
  absent-Given work enums observables defer (some g) built no_work absent h = grind arith

  dispatcher_unless_none-Given :
      (work : Action) (enums observables defer : Bool) (given : Option MutationDispatcher)
      → dispatcher_unless_none schema config suppression work enums observables defer ≡ inr given
      → Given work enums observables defer given
  unfolding dispatcher_unless_none
  dispatcher_unless_none-Given work enums observables defer given h =
      elim (Bool-cases (is_none_action work)) [
        | inl e ↦
            absent-Given work enums observables defer given _ e
              (ap
                (λ (b : Bool).
                  if b
                  then inr none
                  else present schema config suppression (
                      new_mutation_dispatcher schema config suppression work enums observables
                        defer))
                e)
              h
        | inr e ↦ present-Given work enums observables defer _ given refl e (
            sym (
              ap
                (λ (b : Bool).
                  if b
                  then inr none
                  else present schema config suppression (
                      new_mutation_dispatcher schema config suppression work enums observables
                        defer))
                e)
            ∙ h)
      ]

  together-Runs :
      (enums observables : Action) (given : Option MutationDispatcher)
      (ds : List MutationDispatcher)
      → Given enums true true false given
      → same_action enums observables ≡ true
      → joined (inr given) (inr none) ≡ inr ds
      → Runs enums observables ds
  unfolding ordered_mutation_dispatchers
  together-Runs enums observables none ds h alike result = grind arith
  together-Runs enums observables (some d) ds h alike result =
      grind (arith, performs-same_action enums observables d alike)

  apart-Runs :
      (enums observables : Action) (first second : Option MutationDispatcher)
      (ds : List MutationDispatcher)
      → Given enums true false false first
      → Given observables false true (not (is_none_action enums)) second
      → joined (inr first) (inr second) ≡ inr ds
      → Runs enums observables ds
  unfolding ordered_mutation_dispatchers
  apart-Runs enums observables none none ds hf hs result = grind arith
  apart-Runs enums observables none (some d) ds hf hs result = grind arith
  apart-Runs enums observables (some d) none ds hf hs result = grind arith
  apart-Runs enums observables (some d) (some d') ds hf hs result = grind arith

  together :
      (enums observables : Action) (given : DispatcherError ⊎ (Option MutationDispatcher))
      (ds : List MutationDispatcher)
      → dispatcher_unless_none schema config suppression enums true true false ≡ given
      → same_action enums observables ≡ true
      → joined given (inr none) ≡ inr ds
      → Runs enums observables ds
  together enums observables (inl e) ds h alike result = grind arith
  together enums observables (inr given) ds h alike result =
      together-Runs enums observables given ds
        (dispatcher_unless_none-Given enums true true false given h) alike result

  apart :
      (enums observables : Action) (first second : DispatcherError ⊎ (Option MutationDispatcher))
      (ds : List MutationDispatcher)
      → dispatcher_unless_none schema config suppression enums true false false ≡ first
      → dispatcher_unless_none schema config suppression observables false true
          (not (is_none_action enums))
        ≡ second
      → joined first second ≡ inr ds
      → Runs enums observables ds
  apart enums observables (inl e) second ds hf hs result = grind arith
  apart enums observables (inr first) (inl e) ds hf hs result = grind arith
  apart enums observables (inr first) (inr second) ds hf hs result =
      apart-Runs enums observables first second ds
        (dispatcher_unless_none-Given enums true false false first hf)
        (dispatcher_unless_none-Given observables false true (not (is_none_action enums)) second hs)
        result

  chosen-Runs :
      (enums observables : Action) (alike : Bool) (ds : List MutationDispatcher)
      → same_action enums observables ≡ alike
      → (if alike
          then joined
              (dispatcher_unless_none schema config suppression enums true true false)
              (inr none)
          else joined (dispatcher_unless_none schema config suppression enums true false false) (
              dispatcher_unless_none schema config suppression observables false true
                (not (is_none_action enums))))
        ≡ inr ds
      → Runs enums observables ds
  chosen-Runs enums observables true ds alike h = together enums observables _ ds refl alike h
  chosen-Runs enums observables false ds alike h = apart enums observables _ _ ds refl refl h

  -- When the mutations of a pipeline could be built, enum siblings and observables are each handled by
  -- exactly one of them where an action was configured, and by none else; the one that handles them
  -- has the processor of that action (addition, safe removal or forced removal); no mutation behind
  -- the first handles enum siblings; and a removal of observables, safe or forced, waits for the end of
  -- the class exactly when enum siblings are handled too.
  pub new_mutations-Runs :
      (enums observables : Action) (ds : List MutationDispatcher)
      → new_mutations schema config suppression enums observables ≡ inr ds
      → Runs enums observables ds
  unfolding new_mutations
  new_mutations-Runs enums observables ds h =
      chosen-Runs enums observables (same_action enums observables) ds refl h
