-- ===== src/Steps/Analyze.antt =====
-- internal/controller/k8sgpt/analysis_step.go: the step as a whole, with ProcessAnalysis of
-- pkg/client/analysis.go.
use k8sgpt_operator.Common.{
  ℕ, String, Bool, true, ◌&&◌, List, [], ◌∷◌, Option, none, some, is_some, not, Outcome, Fault,
  failure, is_empty, ◌==◌, if◌then◌else◌,
}
use k8sgpt_operator.Built.{Built, built, refused, crashed}
use k8sgpt_operator.Text.{◌<>◌}
use k8sgpt_operator.Api.K8sgpt.{BackOff, AiSpec, K8sgpt}
use k8sgpt_operator.Api.Result.{ResultSpec}
use k8sgpt_operator.Effect.{Effect, pure, call, ◌>>=◌, on_outcome}
use k8sgpt_operator.Effect.Lift.{lift}
use k8sgpt_operator.Client.Requests.{AnalyzeRequest, analyze_request}
use k8sgpt_operator.Metrics.{get_counter_vec, get_gauge_vec, get_results_per_namespace}
use k8sgpt_operator.Controller.Results.{backstage_enabled}
use k8sgpt_operator.Controller.Analysis.{Breaker, after_analysis, store_results}
use k8sgpt_operator.Controller.Lifecycle.{Deployment}
use k8sgpt_operator.Controller.Finish.{Reply, panicked}
use k8sgpt_operator.Steps.Events.{
  Event, analyze, warn, read_clock, update_status, count_failed_call, set_results, Environment,
  on_results,
}
use k8sgpt_operator.Steps.Repair.{finished}
use k8sgpt_operator.Steps.Report.{result_status_step}

abbrev pub with_analysis_error : K8sgpt → String → Option ℕ → K8sgpt
with_analysis_error config message time = record config {
  status = record { last_analysis_error = message; last_analysis_error_time = time };
}

module _ (v : Environment) where
  abbrev pub decoded : Outcome (List ResultSpec) → Built (List ResultSpec)
  decoded (Outcome.ok specs) = built specs
  decoded (Outcome.err e) = refused e

  abbrev pub send_analysis : ℕ → Built AnalyzeRequest → Effect Event (Built (List ResultSpec))
  send_analysis client crashed = pure crashed
  send_analysis client (refused e) = pure (refused e)
  send_analysis client (built request) = do
    answer ← call (analyze client request) (λ log. v.analyze log client request)
    on_outcome answer (λ e. pure (refused (failure ("failed to call Analyze RPC: " <> e.message))))
        (λ json. pure (decoded (v.decode_results json)))

  -- ProcessAnalysis
  unfoldable pub process_analysis :
      ℕ → K8sgpt → AiSpec → (allow_ai_request : Bool) → Effect Event (Built (List ResultSpec))
  process_analysis client config ai allow_ai_request =
      send_analysis client (analyze_request config.spec ai allow_ai_request)

  -- setAnalysisErrorStatus; the update of the status may fail, which is only logged.
  unfoldable pub set_analysis_error_status : K8sgpt → Fault → Effect Event (Unit {0})
  set_analysis_error_status config e =
      if config.status.last_analysis_error == e.message then pure tt else (do
        time ← call read_clock (λ log. v.now log)
        failed ←
            call (update_status (with_analysis_error config e.message (some time)))
              (λ log. v.update_status log (with_analysis_error config e.message (some time)))
        pure tt)

  abbrev pub warn_if : Bool → String → Effect Event (Unit {0})
  warn_if recorder message = if recorder then call (warn message) (λ log. tt) else pure tt

  -- incK8sgptNumberOfFailedBackendAICalls
  unfoldable pub inc_failed_calls : Deployment → K8sgpt → AiSpec → Effect Event (Unit {0})
  inc_failed_calls d config ai =
      if is_some (get_counter_vec "k8sgpt_number_of_failed_backend_ai_calls" v.metrics)
      then call (count_failed_call (ai.backend ∷ d.name ∷ d.namespace ∷ config.name ∷ []))
          (λ log. tt)
      else pure tt

  abbrev pub count_failure : Deployment → K8sgpt → AiSpec → Effect Event (Unit {0})
  count_failure d config ai = if ai.enabled then inc_failed_calls d config ai else pure tt

  -- setk8sgptNumberOfResults
  unfoldable pub set_number_of_results : K8sgpt → List ResultSpec → Effect Event (Unit {0})
  set_number_of_results config specs =
      if is_some (get_gauge_vec "k8sgpt_number_of_results" v.metrics)
      then call (set_results (get_results_per_namespace specs []) config.name) (λ log. tt)
      else pure tt

  -- recordAnalysisError
  unfoldable pub record_analysis_error : K8sgpt → Fault → Effect Event (Unit {0})
  record_analysis_error config e = do
    warned ← warn_if v.has_recorder e.message
    set_analysis_error_status config e

  -- clearAnalysisError, and the configuration in memory afterwards.
  unfoldable pub clear_analysis_error : K8sgpt → Effect Event K8sgpt
  clear_analysis_error config =
      if is_empty config.status.last_analysis_error
        && not (is_some config.status.last_analysis_error_time)
      then pure config
      else (do
        failed ←
            call (update_status (with_analysis_error config "" none))
              (λ log. v.update_status log (with_analysis_error config "" none))
        pure (with_analysis_error config "" none))

  module _ (request_namespace : String) (ai : AiSpec) where
    abbrev pub after_storage : K8sgpt → Option Fault → Effect Event Reply
    after_storage config none = result_status_step v config request_namespace ai
    after_storage config (some e) = pure (finished config (some e))

    -- MapResults follows the pointer to the options of Backstage.
    abbrev pub store : K8sgpt → List ResultSpec → Option Bool → Effect Event Reply
    store config specs none = pure panicked
    store config specs (some backstage) = do
      failed ← lift on_results (store_results v.toolkit v.server config ai backstage specs)
      after_storage config failed

    abbrev pub with_breaker : Breaker → Reply → Effect Event (Reply × Breaker)
    with_breaker b answer = pure (answer, b)

    -- The part behind a successful analysis.
    unfoldable pub analysis_succeeded :
        K8sgpt → Breaker → List ResultSpec → Effect Event (Reply × Breaker)
    analysis_succeeded config b specs = do
      cleared ← clear_analysis_error config
      counted ← set_number_of_results cleared specs
      answer ← store cleared specs (backstage_enabled cleared.spec.extra_options)
      with_breaker (record b { analysis_retry_count = 0 }) answer

    -- The breaker after a failure; the pointer to the backoff is followed where AI is enabled.
    abbrev pub breaker_after : Option BackOff → Breaker → Option Breaker
    breaker_after none b = if ai.enabled then none else some b
    breaker_after (some back_off) b = some (after_analysis back_off ai.enabled true b)

    abbrev pub record_failure :
        K8sgpt → Fault → Breaker → Option Breaker → Effect Event (Reply × Breaker)
    record_failure config e b none = pure (panicked, b)
    record_failure config e b (some b') = do
      recorded ← record_analysis_error config e
      with_breaker b' (finished config (some e))

    abbrev pub after_analyze :
        Deployment → K8sgpt → Breaker → Built (List ResultSpec) → Effect Event (Reply × Breaker)
    after_analyze d config b (built specs) = analysis_succeeded config b specs
    after_analyze d config b (refused e) = do
      counted ← count_failure d config ai
      record_failure config e b (breaker_after ai.back_off b)
    after_analyze d config b crashed = pure (panicked, b)

    -- AnalysisStep.execute
    unfoldable pub analysis_step :
        Deployment → ℕ → K8sgpt → Breaker → Effect Event (Reply × Breaker)
    analysis_step d client config b = do
      answer ← process_analysis client config ai b.allow_backend_ai_request
      after_analyze d config b answer
