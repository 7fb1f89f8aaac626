-- ===== src/Controller/Guarded.antt =====
-- Resources exist only under the finalizer.
use k8sgpt_operator.Common.{
  not, ◌&&◌, is_empty, String, true, false, List, [], ◌∷◌, ◌++◌, Option, none, some, is_some,
  contains, ok, Fault, ◌≡◌, refl, ap, ◌∙◌, arith, eq_iff,
}
use k8sgpt_operator.Api.K8sgpt.{AiSpec, K8sgpt}
use k8sgpt_operator.Effect.{Effect}
use k8sgpt_operator.Effect.Emits.{
  Emits, Emits-pure, Emits-call, Emits-asked, Emits-if, Emits-bind, Emits-outcome,
}
use k8sgpt_operator.Controller.Finish.{Reply}
use k8sgpt_operator.Controller.Lifecycle.{
  finalizer_name, is_nonzero, Deployment, StepCall, destroy_resources, sync_resources, pre_analysis,
  Manager, with_finalizer, with_back_off, release_client_of, unless_error, delete_config,
  sync_and_check, deploy, configure_ai, configure_step, finalizer_step, reconcile_config,
}

-- The configuration has the finalizer and is not being deleted.
abbrev pub IsHeld : K8sgpt → Type 0
IsHeld config =
    (contains finalizer_name config.finalizers ≡ true) × (config.deletion_timestamp ≡ none)

-- Resources are synchronized, and the later steps run, for a held configuration only; resources
-- are destroyed only for one that is being deleted.
abbrev pub IsGuarded : StepCall → Type 0
IsGuarded (sync_resources config) = IsHeld config
IsGuarded (pre_analysis config d ready) = IsHeld config
IsGuarded (destroy_resources config) = is_some config.deletion_timestamp ≡ true
IsGuarded _ = Unit

-- The server answers an update with the finalizers and the deletion time that were sent.
abbrev pub AnswersHeld : Manager → Type 0
AnswersHeld m =
    (log : List StepCall) (config stored : K8sgpt)
    → m.update log config ≡ ok stored
    → (stored.finalizers ≡ config.finalizers)
      × (stored.deletion_timestamp ≡ config.deletion_timestamp)

not_deleted : {A : Type 0} (o : Option A) → is_some o ≡ false → o ≡ none
not_deleted none h = refl
not_deleted (some a) h = cc

pub contains-append : (s : String) (xs : List String) → contains s (xs ++ s ∷ []) ≡ true
unfolding contains
contains-append s [] = ground (arith, eq_iff s s)
contains-append s (x ∷ xs) = ground (arith, contains-append s xs)

module _ (m : Manager) (local_mode : String) (answers : AnswersHeld m) where
  unless_error-IsGuarded :
      (o : Option Fault) (config : K8sgpt) (go : Effect StepCall Reply)
      → Emits IsGuarded go
      → Emits IsGuarded (unless_error m local_mode o config go)
  unless_error-IsGuarded none config go h = h
  unless_error-IsGuarded (some e) config go h = Emits-pure IsGuarded _

  release_client_of-IsGuarded :
      (config : K8sgpt) → Emits IsGuarded (release_client_of m local_mode config)
  unfolding release_client_of
  release_client_of-IsGuarded config =
      Emits-bind IsGuarded _ _ (Emits-call IsGuarded _ _ tt) (λ closed. Emits-pure IsGuarded _)

  delete_config-IsGuarded :
      (config : K8sgpt)
      → is_some config.deletion_timestamp ≡ true
      → Emits IsGuarded (delete_config m local_mode config)
  unfolding delete_config
  delete_config-IsGuarded config h =
      Emits-if IsGuarded (contains finalizer_name config.finalizers) _ _
        (λ held. Emits-bind IsGuarded _ _ (Emits-call IsGuarded _ _ h) λ kept.
          unless_error-IsGuarded kept config _ (
            Emits-bind IsGuarded _ _ (Emits-call IsGuarded _ _ tt) λ stored.
              Emits-outcome IsGuarded stored _ _ (λ e p. Emits-pure IsGuarded _)
                (λ config' p. release_client_of-IsGuarded config')))
        (λ free. release_client_of-IsGuarded config)

  sync_and_check-IsGuarded :
      (config : K8sgpt) (d : Deployment)
      → IsHeld config
      → Emits IsGuarded (sync_and_check m local_mode config d)
  unfolding sync_and_check
  sync_and_check-IsGuarded config d h =
      Emits-bind IsGuarded _ _ (Emits-call IsGuarded _ _ h) λ unsynced.
        unless_error-IsGuarded unsynced config _ (
          Emits-if IsGuarded (not (is_nonzero d.available_replicas) && is_empty local_mode) _ _
            (λ waiting. Emits-pure IsGuarded _) (λ ready. Emits-call IsGuarded _ _ h))

  deploy-IsGuarded :
      (config : K8sgpt) → IsHeld config → Emits IsGuarded (deploy m local_mode config)
  unfolding deploy
  deploy-IsGuarded config h = Emits-bind IsGuarded _ _ (Emits-call IsGuarded _ _ tt) λ found.
      Emits-outcome IsGuarded found _ _
        (λ e p.
          Emits-if IsGuarded e.is_not_found _ _ (λ missing. sync_and_check-IsGuarded config _ h)
            (λ other. Emits-pure IsGuarded _))
        (λ d p. sync_and_check-IsGuarded config d h)

  stays-IsHeld :
      (log : List StepCall) (config stored : K8sgpt)
      → IsHeld config
      → m.update log config ≡ ok stored
      → IsHeld stored
  stays-IsHeld log config stored (h, g) e =
      let (same, kept) = answers log config stored e in
      (ap (contains finalizer_name) same ∙ h, kept ∙ g)

  configure_ai-IsGuarded :
      (config : K8sgpt) (ai : Option AiSpec)
      → IsHeld config
      → Emits IsGuarded (configure_ai m local_mode config ai)
  configure_ai-IsGuarded config none h = Emits-pure IsGuarded _
  configure_ai-IsGuarded config (some ai) h =
      Emits-if IsGuarded (is_some ai.back_off) _ _ (λ set. deploy-IsGuarded config h)
        λ unset. Emits-asked IsGuarded _ _ _ tt λ log.
          Emits-outcome IsGuarded (m.update log (with_back_off config ai)) _ _
            (λ e p. Emits-pure IsGuarded _)
            (λ stored p.
              deploy-IsGuarded stored (stays-IsHeld log (with_back_off config ai) stored h p))

  configure_step-IsGuarded :
      (config : K8sgpt) → IsHeld config → Emits IsGuarded (configure_step m local_mode config)
  unfolding configure_step
  configure_step-IsGuarded config h = configure_ai-IsGuarded config config.spec.ai h

  finalizer_step-IsGuarded :
      (config : K8sgpt) → Emits IsGuarded (finalizer_step m local_mode config)
  unfolding finalizer_step
  finalizer_step-IsGuarded config =
      Emits-if IsGuarded (is_some config.deletion_timestamp) _ _ (delete_config-IsGuarded config)
        λ living.
          let alive = not_deleted config.deletion_timestamp living in
          Emits-if IsGuarded (contains finalizer_name config.finalizers) _ _
            (λ held. configure_step-IsGuarded config (held, alive))
            λ free. Emits-asked IsGuarded _ _ _ tt λ log.
              Emits-outcome IsGuarded (m.update log (with_finalizer config)) _ _
                (λ e p. Emits-pure IsGuarded _)
                (λ stored p. configure_step-IsGuarded stored (
                  stays-IsHeld log (with_finalizer config) stored
                    (contains-append finalizer_name config.finalizers, alive) p))

  -- Where the server answers an update with the finalizers and the deletion time that were sent,
  -- resources are created, and the later steps run, only for a configuration that has the finalizer
  -- and is not being deleted, and resources are destroyed only for one that is.
  pub reconcile_config-IsGuarded :
      (namespace name : String) → Emits IsGuarded (reconcile_config m local_mode namespace name)
  unfolding reconcile_config
  reconcile_config-IsGuarded namespace name =
      Emits-bind IsGuarded _ _ (Emits-call IsGuarded _ _ tt) λ fetched.
        Emits-outcome IsGuarded fetched _ _ (λ e p. Emits-pure IsGuarded _)
          (λ config p. finalizer_step-IsGuarded config)
