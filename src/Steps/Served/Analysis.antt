-- ===== src/Steps/Served/Analysis.antt =====
-- The calls of the steps AnalysisStep and ResultStatusStep.
use k8sgpt_operator.Common.{
  ℕ, String, Bool, not, ◌&&◌, List, [], ◌∷◌, Option, none, some, is_some, Fault, ◌≡◌, refl,
  is_empty, ◌==◌,
}
use k8sgpt_operator.Built.{Built, built, refused, crashed, Holds}
use k8sgpt_operator.Api.K8sgpt.{AiSpec, K8sgpt}
use k8sgpt_operator.Api.Result.{ResultSpec, Result}
use k8sgpt_operator.Effect.Emits.{
  Emits, Emits-pure, Emits-call, Emits-if, Emits-bind, Emits-outcome,
}
use k8sgpt_operator.Client.Requests.{AnalyzeRequest, analyze_request, analyze_request_with}
use k8sgpt_operator.Metrics.{get_counter_vec, get_gauge_vec}
use k8sgpt_operator.Controller.Results.{backstage_enabled}
use k8sgpt_operator.Controller.Analysis.{Breaker}
use k8sgpt_operator.Controller.Lifecycle.{Deployment}
use k8sgpt_operator.Steps.Events.{Event, Environment}
use k8sgpt_operator.Steps.Plain.{
  IsPlain, store_results-IsPlain, process_latest_results-IsPlain, init_sink_type-IsPlain,
}
use k8sgpt_operator.Steps.Report.{after_report, report_with, report_listed, result_status_step}
use k8sgpt_operator.Steps.Analyze.{
  send_analysis, process_analysis, set_analysis_error_status, warn_if, record_analysis_error,
  clear_analysis_error, inc_failed_calls, count_failure, set_number_of_results, after_storage,
  store, analysis_succeeded, record_failure, after_analyze, analysis_step,
}
use k8sgpt_operator.Steps.Served.{IsServed, plain, calculate_remediation_step-IsServed}

-- The flag of the explanation.
abbrev IsAllowed : AiSpec → Bool → AnalyzeRequest → Type 0
IsAllowed ai allowed request = request.explain ≡ (ai.enabled && allowed)

analyze_request_with-IsAllowed :
    (config : K8sgpt) (ai : AiSpec) (allowed : Bool) (anonymize : Option Bool)
    → Holds (IsAllowed ai allowed) (analyze_request_with config.spec ai allowed anonymize)
analyze_request_with-IsAllowed config ai allowed none = tt
analyze_request_with-IsAllowed config ai allowed (some a) = refl

module _ (v : Environment) (ai : AiSpec) (client : ℕ) (allowed : Bool) where
  abbrev P : Event → Type 0
  P = IsServed client ai allowed

  module _ (config : K8sgpt) (request_namespace : String) where
    after_report-IsServed :
        (o : Option Fault) → Emits P (after_report v config request_namespace ai o)
    after_report-IsServed none = calculate_remediation_step-IsServed v ai client allowed config
    after_report-IsServed (some e) = Emits-pure P _

    report_with-IsServed :
        (results : List Result) (sink : Option String)
        → Emits P (report_with v config request_namespace ai results sink)
    unfolding report_with
    report_with-IsServed results sink =
        Emits-bind P _ _
          (plain v ai client allowed _ (process_latest_results-IsPlain v.server _ _ results))
          after_report-IsServed

    report_listed-IsServed :
        (results : List Result) → Emits P (report_listed v config request_namespace ai results)
    report_listed-IsServed [] = Emits-pure P _
    report_listed-IsServed (r ∷ rs) =
        Emits-bind P _ _ (plain v ai client allowed _ (init_sink_type-IsPlain v.server _ _)) λ sink.
          Emits-outcome P sink _ _ (λ e q. Emits-pure P _)
            (λ value q. report_with-IsServed (r ∷ rs) value)

    result_status_step-IsServed : Emits P (result_status_step v config request_namespace ai)
    unfolding result_status_step
    result_status_step-IsServed =
        Emits-bind P _ _ (plain v ai client allowed _ (Emits-call IsPlain _ _ tt)) λ listed.
          Emits-outcome P listed _ _ (λ e q. Emits-pure P _) (λ rs q. report_listed-IsServed rs)

    after_storage-IsServed :
        (o : Option Fault) → Emits P (after_storage v request_namespace ai config o)
    after_storage-IsServed none = result_status_step-IsServed
    after_storage-IsServed (some e) = Emits-pure P _

    store-IsServed :
        (specs : List ResultSpec) (backstage : Option Bool)
        → Emits P (store v request_namespace ai config specs backstage)
    store-IsServed specs none = Emits-pure P _
    store-IsServed specs (some backstage) =
        Emits-bind P _ _
          (plain v ai client allowed _
            (store_results-IsPlain v.toolkit v.server config ai backstage specs))
          after_storage-IsServed

  clear_analysis_error-IsServed : (config : K8sgpt) → Emits P (clear_analysis_error v config)
  unfolding clear_analysis_error
  clear_analysis_error-IsServed config =
      Emits-if P
        (is_empty config.status.last_analysis_error
          && not (is_some config.status.last_analysis_error_time))
        _ _ (λ h. Emits-pure P _)
        (λ h. Emits-bind P _ _ (Emits-call P _ _ tt) (λ failed. Emits-pure P _))

  record_analysis_error-IsServed :
      (config : K8sgpt) (e : Fault) → Emits P (record_analysis_error v config e)
  unfolding record_analysis_error set_analysis_error_status
  record_analysis_error-IsServed config e =
      Emits-bind P (warn_if v v.has_recorder e.message) _
        (Emits-if P v.has_recorder _ _ (λ h. Emits-call P _ _ tt) (λ h. Emits-pure P _))
        λ warned.
          Emits-if P (config.status.last_analysis_error == e.message) _ _ (λ h. Emits-pure P _)
            (λ h.
              Emits-bind P _ _ (Emits-call P _ _ tt)
                λ time. Emits-bind P _ _ (Emits-call P _ _ tt) (λ failed. Emits-pure P _))

  count_failure-IsServed :
      (d : Deployment) (config : K8sgpt) → Emits P (count_failure v d config ai)
  unfolding inc_failed_calls
  count_failure-IsServed d config =
      Emits-if P ai.enabled _ _
        (λ enabled.
          Emits-if P
            (is_some (get_counter_vec "k8sgpt_number_of_failed_backend_ai_calls" v.metrics)) _ _
            (λ h. Emits-call P _ _ enabled) (λ h. Emits-pure P _))
        (λ off. Emits-pure P _)

  set_number_of_results-IsServed :
      (config : K8sgpt) (specs : List ResultSpec) → Emits P (set_number_of_results v config specs)
  unfolding set_number_of_results
  set_number_of_results-IsServed config specs =
      Emits-if P (is_some (get_gauge_vec "k8sgpt_number_of_results" v.metrics)) _ _
        (λ h. Emits-call P _ _ tt) (λ h. Emits-pure P _)

  module _ (request_namespace : String) (config : K8sgpt) where
    record_failure-IsServed :
        (e : Fault) (b : Breaker) (after : Option Breaker)
        → Emits P (record_failure v request_namespace ai config e b after)
    record_failure-IsServed e b none = Emits-pure P _
    record_failure-IsServed e b (some b') =
        Emits-bind P _ _ (record_analysis_error-IsServed config e) (λ recorded. Emits-pure P _)

    after_analyze-IsServed :
        (d : Deployment) (b : Breaker) (answer : Built (List ResultSpec))
        → Emits P (after_analyze v request_namespace ai d config b answer)
    unfolding analysis_succeeded
    after_analyze-IsServed d b (built specs) =
        Emits-bind P _ _ (clear_analysis_error-IsServed config) λ cleared.
          Emits-bind P _ _ (set_number_of_results-IsServed cleared specs) λ counted.
            Emits-bind P _ _
              (store-IsServed cleared request_namespace specs
                (backstage_enabled cleared.spec.extra_options))
              (λ answer. Emits-pure P _)
    after_analyze-IsServed d b (refused e) =
        Emits-bind P _ _ (count_failure-IsServed d config)
          (λ counted. record_failure-IsServed e b _)
    after_analyze-IsServed d b crashed = Emits-pure P _

    send_analysis-IsServed :
        (request : Built AnalyzeRequest)
        → Holds (IsAllowed ai allowed) request
        → Emits P (send_analysis v client request)
    send_analysis-IsServed crashed h = Emits-pure P _
    send_analysis-IsServed (refused e) h = Emits-pure P _
    send_analysis-IsServed (built request) h =
        Emits-bind P _ _ (Emits-call P _ _ (refl, h))
          λ answer. Emits-outcome P answer _ _ (λ e q. Emits-pure P _) (λ json q. Emits-pure P _)

    process_analysis-IsServed : Emits P (process_analysis v client config ai allowed)
    unfolding process_analysis analyze_request
    process_analysis-IsServed =
        send_analysis-IsServed (analyze_request config.spec ai allowed)
          (analyze_request_with-IsAllowed config ai allowed ai.anonymize)

-- The step with the flag of its breaker.
pub analysis_step-IsServed :
    (v : Environment) (ai : AiSpec) (client : ℕ) (request_namespace : String) (config : K8sgpt)
    (d : Deployment) (b : Breaker)
    → Emits
        (IsServed client ai b.allow_backend_ai_request)
        (analysis_step v request_namespace ai d client config b)
unfolding analysis_step
analysis_step-IsServed v ai client request_namespace config d b =
    Emits-bind (IsServed client ai b.allow_backend_ai_request) _ _
      (process_analysis-IsServed v ai client b.allow_backend_ai_request request_namespace config)
      (after_analyze-IsServed v ai client b.allow_backend_ai_request request_namespace config d b)
