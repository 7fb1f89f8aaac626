-- ===== src/Steps/Repair.antt =====
-- internal/controller/k8sgpt/calculate_remediation_step.go: the step as a whole.
use k8sgpt_operator.Common.{
  ℕ, length, is_some, false, not, List, [], ◌∷◌, Option, none, some, Fault, if◌then◌else◌,
}
use k8sgpt_operator.Api.K8sgpt.{AiSpec, K8sgpt}
use k8sgpt_operator.Api.Result.{Result}
use k8sgpt_operator.Effect.{Effect, pure, call, ◌>>=◌, on_outcome}
use k8sgpt_operator.Effect.Lift.{lift}
use k8sgpt_operator.Metrics.{get_gauge_vec}
use k8sgpt_operator.Remediation.Eligible.{results_to_eligible_resources}
use k8sgpt_operator.Remediation.Dedup.{deduplicate}
use k8sgpt_operator.Controller.Server.{Call, find_results, find_result}
use k8sgpt_operator.Controller.Remediate.{create_mutations}
use k8sgpt_operator.Controller.Finish.{Reply, finish_reconcile}
use k8sgpt_operator.Steps.Events.{Event, set_mutations, Environment, on_results, on_objects}

abbrev pub finished : K8sgpt → Option Fault → Reply
finished config e = finish_reconcile e false config

module _ (v : Environment) (config : K8sgpt) where
  -- The loop that reads each result again.
  unfoldable pub read_all : List Result → Effect Call (Option Fault)
  read_all [] = pure none
  read_all (r ∷ rs) = do
    found ← find_result v.server r.namespace r.name
    on_outcome found (λ e. pure (some e)) (λ now. read_all rs)

  -- The gauge k8sgpt_mutations_count.
  abbrev pub count_mutations : ℕ → Effect Event (Unit {0})
  count_mutations n =
      if is_some (get_gauge_vec "k8sgpt_mutations_count" v.metrics)
      then call (set_mutations n) (λ log. tt)
      else pure tt

  abbrev pub after_creation : ℕ → Option Fault → Effect Event Reply
  after_creation n (some e) = pure (finished config (some e))
  after_creation n none = do counted ← count_mutations n; pure (finished config none)

  -- The eligible resources of the results, and the creation of their mutations.
  unfoldable pub repair : List Result → Effect Event Reply
  repair results = do
    eligible ←
        lift on_objects
          (results_to_eligible_resources v.machinery (some config) v.cluster v.reference results)
    refused ←
        lift on_results
          (create_mutations v.toolkit v.server config (deduplicate v.machinery eligible))
    after_creation (length (deduplicate v.machinery eligible)) refused

  abbrev pub after_reads : List Result → Option Fault → Effect Event Reply
  after_reads results none = repair results
  after_reads results (some e) = pure (finished config (some e))

  abbrev pub repair_listed : List Result → Effect Event Reply
  repair_listed [] = pure (finished config none)
  repair_listed (r ∷ rs) = do
    failed ← lift on_results (read_all (r ∷ rs))
    after_reads (r ∷ rs) failed

  -- calculateRemediationStep.execute
  unfoldable pub calculate_remediation_step : AiSpec → Effect Event Reply
  calculate_remediation_step ai =
      if not ai.auto_remediation.enabled then pure (finished config none) else (do
        listed ← lift on_results (find_results v.server config.name config.namespace)
        on_outcome listed (λ e. pure (finished config (some e))) repair_listed)
