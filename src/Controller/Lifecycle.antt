-- ===== src/Controller/Lifecycle.antt =====
-- The first steps of K8sGPTReconciler.Reconcile: init_step.go, finalizer_step.go and
-- configure_step.go of internal/controller/k8sgpt. The steps behind them are one call.
use k8sgpt_operator.Common.{
  ℤ, pos, negsuc, String, Bool, true, false, not, ◌&&◌, List, [], ◌∷◌, ◌++◌, Option, none, some,
  is_some, contains, Outcome, Fault, is_empty, nat_eq, if◌then◌else◌,
}
use k8sgpt_operator.Api.K8sgpt.{AiSpec, K8sgpt}
use k8sgpt_operator.Effect.{Effect, pure, call, ◌>>=◌, on_outcome}
use k8sgpt_operator.Mutation.Reconcile.{remove_finalizer, ignore_not_found}
use k8sgpt_operator.Controller.Finish.{Reply, reply, panicked, finish_reconcile}

abbrev pub finalizer_name : String
finalizer_name = "k8sgpt.ai/finalizer"

-- The fields of the Deployment that the steps read, empty where none was found.
pub record Deployment : Type 0 where
  pub name : String
  pub namespace : String
  pub available_replicas : ℤ
  pub image : String

abbrev pub no_deployment : Deployment
no_deployment = record { name = ""; namespace = ""; available_replicas = pos 0; image = "" }

pub data StepCall : Type 0 where
  get_config : (namespace name : String) → StepCall
  update_config : K8sgpt → StepCall
  destroy_resources : K8sgpt → StepCall
  sync_resources : K8sgpt → StepCall
  get_deployment : (namespace name : String) → StepCall
  close_client : (namespace name : String) → StepCall
  pre_analysis : K8sgpt → Deployment → (ready : Bool) → StepCall

-- The API server, resources.Sync with either operation, and the reply of the later steps.
pub record Manager : Type 0 where
  pub config : List StepCall → String → String → Outcome K8sgpt
  pub update : List StepCall → K8sgpt → Outcome K8sgpt
  pub destroy : List StepCall → K8sgpt → Option Fault
  pub sync : List StepCall → K8sgpt → Option Fault
  pub deployment : List StepCall → String → String → Outcome Deployment
  pub later : List StepCall → K8sgpt → Deployment → Bool → Reply

-- a != 0
abbrev pub is_nonzero : ℤ → Bool
is_nonzero (pos n) = not (nat_eq n 0)
is_nonzero (negsuc n) = true

-- controllerutil.AddFinalizer where the finalizer is missing.
abbrev pub with_finalizer : K8sgpt → K8sgpt
with_finalizer config = record config { finalizers = config.finalizers ++ finalizer_name ∷ [] }

-- controllerutil.RemoveFinalizer
abbrev pub without_finalizer : K8sgpt → K8sgpt
without_finalizer config = record config {
  finalizers = remove_finalizer config.finalizers finalizer_name;
}

-- configureBackoff
abbrev pub with_back_off : K8sgpt → AiSpec → K8sgpt
with_back_off config ai = record config {
  spec = record config.spec {
    ai = some (record ai { back_off = some (record { enabled = false; max_retries = pos 5 }) });
  };
}

abbrev pub failed : Fault → K8sgpt → Effect StepCall Reply
failed e config = pure (finish_reconcile (some e) false config)

module _ (m : Manager) (local_mode : String) where
  abbrev pub store_config : K8sgpt → Effect StepCall (Outcome K8sgpt)
  store_config config = call (update_config config) (λ log. m.update log config)

  -- closeClientFor and the end of the reconciliation.
  unfoldable pub release_client_of : K8sgpt → Effect StepCall Reply
  release_client_of config = do
    closed ← call (close_client config.namespace config.name) (λ log. true)
    pure (finish_reconcile none false config)

  abbrev pub unless_error : Option Fault → K8sgpt → Effect StepCall Reply → Effect StepCall Reply
  unless_error none config go = go
  unless_error (some e) config go = failed e config

  -- The branch of the finalizer step for an object that is being deleted.
  unfoldable pub delete_config : K8sgpt → Effect StepCall Reply
  delete_config config =
      if contains finalizer_name config.finalizers
      then (do
        kept ← call (destroy_resources config) (λ log. m.destroy log config)
        unless_error kept config do
          stored ← store_config (without_finalizer config)
          on_outcome stored (λ e. failed e config) release_client_of)
      else release_client_of config

  -- The rest of the configure step, behind getDeployment's lookup.
  unfoldable pub sync_and_check : K8sgpt → Deployment → Effect StepCall Reply
  sync_and_check config d = do
    unsynced ← call (sync_resources config) (λ log. m.sync log config)
    unless_error unsynced config (
        if not (is_nonzero d.available_replicas) && is_empty local_mode
        then pure (finish_reconcile none false config)
        else call (pre_analysis config d (is_nonzero d.available_replicas))
            (λ log. m.later log config d (is_nonzero d.available_replicas)))

  unfoldable pub deploy : K8sgpt → Effect StepCall Reply
  deploy config = do
    found ←
        call (get_deployment config.namespace config.name)
          (λ log. m.deployment log config.namespace config.name)
    on_outcome found
        (λ e. if e.is_not_found then sync_and_check config no_deployment else failed e config)
        (sync_and_check config)

  abbrev pub configure_ai : K8sgpt → Option AiSpec → Effect StepCall Reply
  configure_ai config none = pure panicked
  configure_ai config (some ai) = if is_some ai.back_off then deploy config else do
    stored ← store_config (with_back_off config ai)
    on_outcome stored (λ e. failed e config) deploy

  -- ConfigureStep
  unfoldable pub configure_step : K8sgpt → Effect StepCall Reply
  configure_step config = configure_ai config config.spec.ai

  -- FinalizerStep
  unfoldable pub finalizer_step : K8sgpt → Effect StepCall Reply
  finalizer_step config =
      if is_some config.deletion_timestamp
      then delete_config config
      else if contains finalizer_name config.finalizers
      then configure_step config
      else do
        stored ← store_config (with_finalizer config)
        on_outcome stored (λ e. failed e config) configure_step

  -- InitStep and what follows.
  unfoldable pub reconcile_config : (namespace name : String) → Effect StepCall Reply
  reconcile_config namespace name = do
    fetched ← call (get_config namespace name) (λ log. m.config log namespace name)
    on_outcome fetched (λ e. pure (reply false 0 (ignore_not_found e))) finalizer_step
