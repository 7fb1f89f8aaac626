-- ===== src/Steps/Connect.antt =====
-- internal/controller/k8sgpt/preAnalysis_step.go: the step as a whole, with AddConfig and
-- AddIntegration of pkg/client.
use k8sgpt_operator.Common.{
  ℕ, String, Bool, true, false, ◌&&◌, ◌||◌, Option, none, some, is_some, Fault, failure,
  if◌then◌else◌,
}
use k8sgpt_operator.Built.{Built, built, refused, crashed}
use k8sgpt_operator.Text.{◌<>◌}
use k8sgpt_operator.Api.K8sgpt.{Trivy, AiSpec, K8sgpt, effective_backend}
use k8sgpt_operator.Shared.{Signal}
use k8sgpt_operator.Effect.{Effect, pure, call, ◌>>=◌, on_outcome}
use k8sgpt_operator.Client.Requests.{AddConfigRequest, add_config_request, integration_request}
use k8sgpt_operator.Controller.Connections.{client_for}
use k8sgpt_operator.Controller.Image.{image_differs, deployment_image}
use k8sgpt_operator.Controller.Lifecycle.{Deployment}
use k8sgpt_operator.Controller.Finish.{Reply, panicked}
use k8sgpt_operator.Steps.Events.{
  Event, update_image, connect, send_signal, add_config, forget_config, list_integrations,
  Environment, World,
}
use k8sgpt_operator.Steps.Address.{generate_address}
use k8sgpt_operator.Steps.Repair.{finished}
use k8sgpt_operator.Steps.Analyze.{analysis_step}

module _ (v : Environment) where
  abbrev pub added : Option Fault → Built (Unit {0})
  added none = built tt
  added (some e) = refused (failure ("failed to call AddConfig RPC: " <> e.message))

  abbrev pub send_config : ℕ → Built AddConfigRequest → Effect Event (Built (Unit {0}))
  send_config client (built request) = do
    failed ← call (add_config client request) (λ log. v.add_config log client request)
    pure (added failed)
  send_config client (refused e) = pure (refused e)
  send_config client crashed = pure crashed

  abbrev pub removed : Option Fault → Built (Unit {0})
  removed none = built tt
  removed (some e) = refused (failure ("failed to call RemoveConfig RPC: " <> e.message))

  -- RemoveConfig, which no step calls; its request is empty.
  unfoldable pub remove_config : ℕ → Effect Event (Built (Unit {0}))
  remove_config client = do
    failed ← call (forget_config client) (λ log. v.remove_config log client)
    pure (removed failed)

  -- addRemoteCache
  unfoldable pub add_remote_cache : ℕ → K8sgpt → Effect Event (Built (Unit {0}))
  add_remote_cache client config =
      if is_some config.spec.remote_cache || is_some config.spec.custom_analyzers
      then send_config client (add_config_request config.spec)
      else pure (built tt)

  -- a == b
  abbrev pub same : Bool → Bool → Bool
  same true b = b
  same false true = false
  same false false = true

  -- The comparison of AddIntegration follows the pointers of both sides.
  abbrev pub update_integration : ℕ → Option Bool → Option Trivy → Effect Event (Built (Unit {0}))
  update_integration client none trivy = pure crashed
  update_integration client (some enabled) none = pure crashed
  update_integration client (some enabled) (some trivy) =
      if same enabled trivy.enabled
      then pure (built tt)
      else send_config client (built (integration_request trivy))

  -- AddIntegration
  unfoldable pub add_integration : ℕ → Option Trivy → Effect Event (Built (Unit {0}))
  add_integration client trivy = do
    listed ← call (list_integrations client) (λ log. v.integrations log client)
    on_outcome listed (λ e. pure (refused e)) (λ enabled. update_integration client enabled trivy)

  -- addIntegrations
  abbrev pub add_integrations : ℕ → Option (Option Trivy) → Effect Event (Built (Unit {0}))
  add_integrations client none = pure (built tt)
  add_integrations client (some trivy) = add_integration client trivy

  module _ (local_mode request_namespace : String) (config : K8sgpt) (ai : AiSpec) where
    abbrev pub ended : World → Reply → Effect Event (Reply × World)
    ended w answer = pure (answer, w)

    -- An error ends the reconciliation, and so does a nil pointer.
    abbrev pub unless_refused :
        {A : Type 0}
        → World
        → Built A
        → (A → Effect Event (Reply × World))
        → Effect Event (Reply × World)
    unless_refused w (built a) go = go a
    unless_refused w (refused e) go = ended w (finished config (some e))
    unless_refused w crashed go = ended w panicked

    -- What the mutation controller is told.
    abbrev pub signal_of : ℕ → Signal
    signal_of client = record {
      k8sgpt_client = some client;
      backend = effective_backend ai.backend;
      k8sgpt = config;
    }

    abbrev pub signal_if : Bool → ℕ → Effect Event (Unit {0})
    signal_if enabled client =
        if enabled then call (send_signal (signal_of client)) (λ log. tt) else pure tt

    unfoldable pub analyze_with : Deployment → ℕ → World → Effect Event (Reply × World)
    analyze_with d client w = do
      outcome ← analysis_step v request_namespace ai d client config w.breaker
      ended (record w { breaker = outcome.1 }) outcome.0

    -- The part behind the connection.
    unfoldable pub prepare_server : Deployment → ℕ → World → Effect Event (Reply × World)
    prepare_server d client w = do
      signalled ← signal_if ai.auto_remediation.enabled client
      cached ← add_remote_cache client config
      unless_refused w cached λ x. do
        integrated ← add_integrations client config.spec.integrations
        unless_refused w integrated (λ y. analyze_with d client w)

    -- clientFor at the address that was found.
    unfoldable pub use_address : Deployment → World → String → Effect Event (Reply × World)
    use_address d w address = do
      found ← call (connect address) (λ log.
          client_for (v.dial log address) config.namespace config.name address w.connections)
      on_outcome found.0
          (λ e. ended (record w { connections = found.1 }) (finished config (some e)))
          (λ client. prepare_server d client (record w { connections = found.1 }))

    unfoldable pub connect_server : Deployment → World → Effect Event (Reply × World)
    connect_server d w = do
      address ← generate_address v local_mode config
      unless_refused w address (use_address d w)

    -- updateDeploymentImage
    unfoldable pub update_deployment_image : World → Effect Event (Reply × World)
    update_deployment_image w = do
      failed ←
          call (update_image config.namespace config.name (deployment_image config.spec))
            (λ log. v.update_image log config.namespace config.name (deployment_image config.spec))
      ended w (finished config failed)

    -- PreAnalysisStep.execute; `ready` is hasReadyReplicas.
    unfoldable pub pre_analysis_step :
        Deployment → (ready : Bool) → World → Effect Event (Reply × World)
    pre_analysis_step d ready w =
        if ready && image_differs config.spec d.image
        then update_deployment_image w
        else connect_server d w
