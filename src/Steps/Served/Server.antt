-- ===== src/Steps/Served/Server.antt =====
-- The calls of PreAnalysisStep behind the connection, and of the steps that follow it.
use k8sgpt_operator.Common.{ℕ, String, Bool, ◌||◌, Option, none, some, is_some, refl}
use k8sgpt_operator.Built.{Built, built, refused, crashed}
use k8sgpt_operator.Api.K8sgpt.{Trivy, AiSpec, K8sgpt}
use k8sgpt_operator.Effect.{Effect}
use k8sgpt_operator.Effect.Emits.{
  Emits, Emits-pure, Emits-call, Emits-if, Emits-bind, Emits-outcome,
}
use k8sgpt_operator.Client.Requests.{AddConfigRequest, add_config_request, integration_request}
use k8sgpt_operator.Controller.Finish.{Reply}
use k8sgpt_operator.Controller.Lifecycle.{Deployment}
use k8sgpt_operator.Steps.Events.{Event, Environment, World}
use k8sgpt_operator.Steps.Served.{IsServed}
use k8sgpt_operator.Steps.Served.Analysis.{analysis_step-IsServed}
use k8sgpt_operator.Steps.Connect.{
  send_config, add_remote_cache, same, update_integration, add_integration, add_integrations,
  unless_refused, signal_if, analyze_with, prepare_server,
}

module _ (v : Environment) (ai : AiSpec) (client : ℕ) (allowed : Bool) where
  abbrev P : Event → Type 0
  P = IsServed client ai allowed

  send_config-IsServed : (request : Built AddConfigRequest) → Emits P (send_config v client request)
  send_config-IsServed (built request) =
      Emits-bind P _ _ (Emits-call P _ _ refl) (λ failed. Emits-pure P _)
  send_config-IsServed (refused e) = Emits-pure P _
  send_config-IsServed crashed = Emits-pure P _

  add_remote_cache-IsServed : (config : K8sgpt) → Emits P (add_remote_cache v client config)
  unfolding add_remote_cache
  add_remote_cache-IsServed config =
      Emits-if P (is_some config.spec.remote_cache || is_some config.spec.custom_analyzers) _ _
        (λ h. send_config-IsServed (add_config_request config.spec)) (λ h. Emits-pure P _)

  update_integration-IsServed :
      (enabled : Option Bool) (trivy : Option Trivy)
      → Emits P (update_integration v client enabled trivy)
  update_integration-IsServed none trivy = Emits-pure P _
  update_integration-IsServed (some enabled) none = Emits-pure P _
  update_integration-IsServed (some enabled) (some trivy) =
      Emits-if P (same v enabled trivy.enabled) _ _ (λ h. Emits-pure P _)
        (λ h. send_config-IsServed (built (integration_request trivy)))

  add_integrations-IsServed :
      (integrations : Option (Option Trivy)) → Emits P (add_integrations v client integrations)
  unfolding add_integration
  add_integrations-IsServed none = Emits-pure P _
  add_integrations-IsServed (some trivy) = Emits-bind P _ _ (Emits-call P _ _ refl) λ listed.
      Emits-outcome P listed _ _ (λ e q. Emits-pure P _)
        (λ enabled q. update_integration-IsServed enabled trivy)

module _ (v : Environment) (local_mode request_namespace : String) (config : K8sgpt)
    (ai : AiSpec) where
  unless_refused-Emits :
      {A : Type 0} (Q : Event → Type 0) (w : World) (m : Built A)
      (go : A → Effect Event (Reply × World))
      → ((a : A) → Emits Q (go a))
      → Emits Q (unless_refused v local_mode request_namespace config ai w m go)
  unless_refused-Emits Q w (built a) go h = h a
  unless_refused-Emits Q w (refused e) go h = Emits-pure Q _
  unless_refused-Emits Q w crashed go h = Emits-pure Q _

  -- Behind the connection, every request to the server uses it and asks for an explanation exactly
  -- if AI is enabled and the breaker allows it; the mutation controller is told of this connection,
  -- and mutations are created, in their first phase and without a target, only if the remediation is
  -- switched on; objects are only read, a failed call is counted only if AI is enabled, the
  -- Deployment is not changed and no other connection is made.
  pub prepare_server-IsServed :
      (d : Deployment) (client : ℕ) (w : World)
      → Emits
          (IsServed client ai w.breaker.allow_backend_ai_request)
          (prepare_server v local_mode request_namespace config ai d client w)
  unfolding prepare_server analyze_with
  prepare_server-IsServed d client w =
      let allowed = w.breaker.allow_backend_ai_request in
      let Q : Event → Type 0 = IsServed client ai allowed in
      Emits-bind Q
        (signal_if v local_mode request_namespace config ai ai.auto_remediation.enabled client) _
        (Emits-if Q ai.auto_remediation.enabled _ _ (λ on. Emits-call Q _ _ (on, refl))
          (λ off. Emits-pure Q _))
        λ signalled.
          Emits-bind Q _ _ (add_remote_cache-IsServed v ai client allowed config) λ cached.
            unless_refused-Emits Q w cached _ λ x.
              Emits-bind Q _ _
                (add_integrations-IsServed v ai client allowed config.spec.integrations)
                λ integrated. unless_refused-Emits Q w integrated _ λ y.
                  Emits-bind Q _ _
                    (analysis_step-IsServed v ai client request_namespace config d w.breaker)
                    (λ outcome. Emits-pure Q _)
