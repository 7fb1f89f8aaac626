-- ===== src/Steps/Report.antt =====
-- internal/controller/k8sgpt/resultStatus_step.go: the step as a whole.
use k8sgpt_operator.Common.{String, List, [], ◌∷◌, Option, none, some, is_some, Fault}
use k8sgpt_operator.Api.K8sgpt.{AiSpec, K8sgpt}
use k8sgpt_operator.Api.Result.{Result}
use k8sgpt_operator.Effect.{Effect, pure, ◌>>=◌, on_outcome}
use k8sgpt_operator.Effect.Lift.{lift}
use k8sgpt_operator.Controller.Server.{find_results}
use k8sgpt_operator.Controller.Sinks.{endpoint_of, init_sink_type, process_latest_results}
use k8sgpt_operator.Controller.Finish.{Reply}
use k8sgpt_operator.Steps.Events.{Event, Environment, on_results}
use k8sgpt_operator.Steps.Repair.{finished, calculate_remediation_step}

-- `request_namespace` is instance.req.Namespace.
module _ (v : Environment) (config : K8sgpt) (request_namespace : String) (ai : AiSpec) where
  abbrev pub after_report : Option Fault → Effect Event Reply
  after_report none = calculate_remediation_step v config ai
  after_report (some e) = pure (finished config (some e))

  -- The notification, for a sink with its secret or for none.
  unfoldable pub report_with : List Result → Option String → Effect Event Reply
  report_with results sink = do
    failed ←
        lift on_results
          (process_latest_results v.server (is_some sink) (endpoint_of config.spec.sink) results)
    after_report failed

  abbrev pub report_listed : List Result → Effect Event Reply
  report_listed [] = pure (finished config none)
  report_listed (r ∷ rs) = do
    sink ← lift on_results (init_sink_type v.server request_namespace config.spec.sink)
    on_outcome sink (λ e. pure (finished config (some e))) (report_with (r ∷ rs))

  -- ResultStatusStep.execute
  unfoldable pub result_status_step : Effect Event Reply
  result_status_step = do
    listed ← lift on_results (find_results v.server config.name config.namespace)
    on_outcome listed (λ e. pure (finished config (some e))) report_listed
