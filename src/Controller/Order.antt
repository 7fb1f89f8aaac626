-- ===== src/Controller/Order.antt =====
-- The order of the calls of the first steps of the controller.
use k8sgpt_operator.Common.{
  not, ◌&&◌, is_empty, String, true, false, List, ◌∷◌, Option, none, some, is_some, contains, ok,
  Fault, ◌≡◌, ◌⊎◌, inl, inr, refl, ap, ◌∙◌,
}
use k8sgpt_operator.Api.K8sgpt.{AiSpec, K8sgpt}
use k8sgpt_operator.Effect.{Effect, pure, ◌>>=◌}
use k8sgpt_operator.Effect.After.{InOrder, after_if, after_outcome}
use k8sgpt_operator.Mutation.Steps.{IsWithout, remove_finalizer-IsWithout}
use k8sgpt_operator.Mutation.Reconcile.{remove_finalizer}
use k8sgpt_operator.Controller.Finish.{Reply}
use k8sgpt_operator.Controller.Lifecycle.{
  finalizer_name, is_nonzero, Deployment, no_deployment, StepCall, get_config, update_config,
  destroy_resources, sync_resources, get_deployment, close_client, pre_analysis, Manager,
  with_finalizer, without_finalizer, with_back_off, release_client_of, unless_error, delete_config,
  sync_and_check, deploy, configure_ai, configure_step, finalizer_step, reconcile_config,
}
use k8sgpt_operator.Controller.Guarded.{contains-append}

-- The resources of the configuration were destroyed without an error right before, and only the
-- finalizer is taken off.
abbrev IsFreed : Manager → K8sgpt → List StepCall → Type 0
IsFreed m c log =
    (config : K8sgpt) × (rest : List StepCall) × (gs : List String) × (log
      ≡ destroy_resources config ∷ rest)
    × (m.destroy rest config ≡ none)
    × IsWithout "k8sgpt.ai/finalizer" config.finalizers gs
    × (c ≡ record config { finalizers = gs })

-- The server stored an update of the configuration of that name right before, or answered the read
-- with it and it has no finalizer.
abbrev IsFinished : Manager → (namespace name : String) → List StepCall → Type 0
IsFinished m namespace name log =
    ((config stored : K8sgpt) × (rest : List StepCall) × (log ≡ update_config config ∷ rest)
      × (m.update rest config ≡ ok stored)
      × IsFreed m config rest
      × (namespace ≡ stored.namespace)
      × (name ≡ stored.name))
    ⊎ ((config : K8sgpt) × (asked_in asked : String) × (rest : List StepCall) × (log
          ≡ get_config asked_in asked ∷ rest)
        × (m.config rest asked_in asked ≡ ok config)
        × (contains "k8sgpt.ai/finalizer" config.finalizers ≡ false)
        × (namespace ≡ config.namespace)
        × (name ≡ config.name))

-- What each call requires of the calls before it.
abbrev pub IsDue : Manager → StepCall → List StepCall → Type 0
IsDue m (update_config c) log =
    (contains "k8sgpt.ai/finalizer" c.finalizers ≡ true) ⊎ IsFreed m c log
IsDue m (close_client namespace name) log = IsFinished m namespace name log
IsDue m (destroy_resources config) log = contains "k8sgpt.ai/finalizer" config.finalizers ≡ true
IsDue m (sync_resources config) log =
    (rest : List StepCall) × (log ≡ get_deployment config.namespace config.name ∷ rest)
IsDue m (pre_analysis config d ready) log =
    (rest : List StepCall) × (log ≡ sync_resources config ∷ rest) × (m.sync rest config ≡ none)
IsDue m (get_config namespace name) log = Unit
IsDue m (get_deployment namespace name) log = Unit

-- The server answers an update with the finalizers that were sent.
abbrev pub KeepsFinalizers : Manager → Type 0
KeepsFinalizers m =
    (log : List StepCall) (config stored : K8sgpt)
    → m.update log config ≡ ok stored
    → stored.finalizers ≡ config.finalizers

module _ (m : Manager) (local_mode : String) where
  abbrev Q : List StepCall → Type 0
  Q = InOrder (IsDue m)

  after_error :
      (o : Option Fault) (config : K8sgpt) (go : Effect StepCall Reply) (log : List StepCall)
      → Q log
      → (o ≡ none → Q (go log).1)
      → Q (unless_error m local_mode o config go log).1
  unfolding pure
  after_error none config go log h p = p refl
  after_error (some e) config go log h p = h

  released :
      (config : K8sgpt) (log : List StepCall)
      → IsFinished m config.namespace config.name log
      → Q log
      → Q (release_client_of m local_mode config log).1
  unfolding release_client_of ◌>>=◌
  released config log due h = (due, h)

  deleted :
      (config : K8sgpt) (namespace name : String) (log : List StepCall)
      → m.config log namespace name ≡ ok config
      → Q log
      → Q (delete_config m local_mode config (get_config namespace name ∷ log)).1
  unfolding delete_config ◌>>=◌
  deleted config namespace name log read h =
      let asked = get_config namespace name ∷ log in
      let destroyed = destroy_resources config ∷ asked in
      let freed = update_config (without_finalizer config) ∷ destroyed in
      let start : Q asked = (tt, h) in
      after_if Q asked (contains finalizer_name config.finalizers) _ _
        (λ held.
          let gone : Q destroyed = (held, start) in
          after_error (m.destroy asked config) config _ destroyed gone λ kept.
            let free : IsFreed m (without_finalizer config) destroyed = (
              config,
              asked,
              remove_finalizer config.finalizers finalizer_name,
              refl,
              kept,
              remove_finalizer-IsWithout config.finalizers finalizer_name,
              refl,
            ) in
            let updated : Q freed = (inr free, gone) in
            after_outcome Q freed (m.update destroyed (without_finalizer config)) _ _
              (λ e p. updated)
              (λ stored p.
                released stored freed
                  (inl (without_finalizer config, stored, destroyed, refl, p, free, refl, refl))
                  updated))
        (λ bare.
          released config asked (inr (config, namespace, name, log, refl, read, bare, refl, refl))
            start)

  checked :
      (config : K8sgpt) (d : Deployment) (log : List StepCall)
      → Q log
      → Q
          (sync_and_check m local_mode config d
            (get_deployment config.namespace config.name ∷ log)).1
  unfolding sync_and_check ◌>>=◌
  checked config d log h =
      let looked = get_deployment config.namespace config.name ∷ log in
      let synced = sync_resources config ∷ looked in
      let done : Q synced = ((log, refl), (tt, h)) in
      after_error (m.sync looked config) config _ synced done λ passed.
        after_if Q synced (not (is_nonzero d.available_replicas) && is_empty local_mode) _ _
          (λ waiting. done) (λ ready. ((looked, refl, passed), done))

  deployed : (config : K8sgpt) (log : List StepCall) → Q log → Q (deploy m local_mode config log).1
  unfolding deploy ◌>>=◌
  deployed config log h =
      let looked = get_deployment config.namespace config.name ∷ log in
      let found : Q looked = (tt, h) in
      after_outcome Q looked (m.deployment log config.namespace config.name) _ _
        (λ e p.
          after_if Q looked e.is_not_found _ _ (λ missing. checked config no_deployment log h)
            (λ other. found))
        (λ d p. checked config d log h)

  configured :
      (config : K8sgpt) (ai : Option AiSpec) (log : List StepCall)
      → contains finalizer_name config.finalizers ≡ true
      → Q log
      → Q (configure_ai m local_mode config ai log).1
  unfolding pure ◌>>=◌
  configured config none log held h = h
  configured config (some ai) log held h =
      let stored_first = update_config (with_back_off config ai) ∷ log in
      let sent : Q stored_first = (inl held, h) in
      after_if Q log (is_some ai.back_off) _ _ (λ set. deployed config log h)
        λ unset.
          after_outcome Q stored_first (m.update log (with_back_off config ai)) _ _ (λ e p. sent)
            (λ stored p. deployed stored stored_first sent)

  finalized :
      (config : K8sgpt) (namespace name : String) (log : List StepCall)
      → KeepsFinalizers m
      → m.config log namespace name ≡ ok config
      → Q log
      → Q (finalizer_step m local_mode config (get_config namespace name ∷ log)).1
  unfolding finalizer_step configure_step ◌>>=◌
  finalized config namespace name log keeps read h =
      let asked = get_config namespace name ∷ log in
      let added = update_config (with_finalizer config) ∷ asked in
      let start : Q asked = (tt, h) in
      let has = contains-append finalizer_name config.finalizers in
      let sent : Q added = (inl has, start) in
      after_if Q asked (is_some config.deletion_timestamp) _ _
        (λ ending. deleted config namespace name log read h)
        λ living.
          after_if Q asked (contains finalizer_name config.finalizers) _ _
            (λ held. configured config config.spec.ai asked held start)
            λ bare.
              after_outcome Q added (m.update asked (with_finalizer config)) _ _ (λ e p. sent)
                λ stored p.
                  configured stored stored.spec.ai added
                    (ap (contains finalizer_name) (keeps asked (with_finalizer config) stored p)
                      ∙ has)
                    sent

  -- Where the server answers an update with the finalizers that were sent, a reconciliation keeps
  -- the order: each update leaves a configuration with the finalizer, or takes only the finalizer
  -- off right after the resources of the configuration were destroyed without an error; resources
  -- are destroyed only for a configuration with the finalizer; the connection is released only
  -- right after the server stored the configuration without the finalizer, or where the
  -- configuration that was read has none; resources are synchronized right after the Deployment was
  -- looked up, and the later steps follow only a synchronization without an error.
  pub reconcile_config-InOrder :
      (namespace name : String) (log : List StepCall)
      → KeepsFinalizers m
      → InOrder (IsDue m) log
      → InOrder (IsDue m) (reconcile_config m local_mode namespace name log).1
  unfolding reconcile_config ◌>>=◌
  reconcile_config-InOrder namespace name log keeps h =
      let asked = get_config namespace name ∷ log in
      let start : Q asked = (tt, h) in
      after_outcome Q asked (m.config log namespace name) _ _ (λ e p. start)
        (λ config p. finalized config namespace name log keeps p h)
