-- ===== src/Steps/Failed.antt =====
-- An analysis that fails.
use mathlib.Core.List.{append_assoc}
use k8sgpt_operator.Common.{
  ℕ, String, List, ◌++◌, some, Fault, All, is_some, All-append, ◌≡◌, refl, sym, ap, ◌∙◌, ◌==◌,
}
use k8sgpt_operator.Built.{refused}
use k8sgpt_operator.Api.K8sgpt.{AiSpec, K8sgpt}
use k8sgpt_operator.Effect.{◌>>=◌}
use k8sgpt_operator.Effect.Emits.{Emits, Emits-pure, Emits-call, Emits-if, Emits-bind}
use k8sgpt_operator.Metrics.{get_counter_vec}
use k8sgpt_operator.Controller.Analysis.{Breaker}
use k8sgpt_operator.Controller.Lifecycle.{Deployment}
use k8sgpt_operator.Steps.Events.{
  Event, warn, read_clock, update_status, count_failed_call, Environment,
}
use k8sgpt_operator.Steps.Repair.{finished}
use k8sgpt_operator.Steps.Analyze.{
  process_analysis, set_analysis_error_status, warn_if, record_analysis_error, record_failure,
  inc_failed_calls, count_failure, breaker_after, after_analyze, analysis_step,
}

-- The warning, the count, the clock, and the status with the message of the error on an unchanged
-- specification.
abbrev pub IsRecord : K8sgpt → Fault → Event → Type 0
IsRecord config e (warn message) = message ≡ e.message
IsRecord config e read_clock = Unit
IsRecord config e (count_failed_call labels) = Unit
IsRecord config e (update_status stored) =
    (stored.spec ≡ config.spec) × (stored.status.last_analysis_error ≡ e.message)
IsRecord config e _ = ⊥

module _ (v : Environment) (config : K8sgpt) (e : Fault) where
  record_analysis_error-IsRecord : Emits (IsRecord config e) (record_analysis_error v config e)
  unfolding record_analysis_error set_analysis_error_status
  record_analysis_error-IsRecord =
      let P : Event → Type 0 = IsRecord config e in
      Emits-bind P (warn_if v v.has_recorder e.message) _
        (Emits-if P v.has_recorder _ _ (λ h. Emits-call P _ _ refl) (λ h. Emits-pure P _))
        λ warned.
          Emits-if P (config.status.last_analysis_error == e.message) _ _ (λ h. Emits-pure P _)
            (λ h.
              Emits-bind P _ _ (Emits-call P _ _ tt)
                λ time. Emits-bind P _ _ (Emits-call P _ _ (refl, refl)) (λ failed. Emits-pure P _))

  count_failure-IsRecord :
      (d : Deployment) (ai : AiSpec) → Emits (IsRecord config e) (count_failure v d config ai)
  unfolding inc_failed_calls
  count_failure-IsRecord d ai =
      let P : Event → Type 0 = IsRecord config e in
      Emits-if P ai.enabled _ _
        (λ enabled.
          Emits-if P
            (is_some (get_counter_vec "k8sgpt_number_of_failed_backend_ai_calls" v.metrics)) _ _
            (λ h. Emits-call P _ _ tt) (λ h. Emits-pure P _))
        (λ off. Emits-pure P _)

-- Where the analysis fails, the reconciliation ends with its error, the breaker is the one that the
-- failure leaves, and nothing is called behind the analysis but the record of the error: no result
-- is stored, deleted or sent, and no mutation is created.
pub analysis_step-failed :
    (v : Environment) (request_namespace : String) (ai : AiSpec) (d : Deployment) (client : ℕ)
    (config : K8sgpt) (b b' : Breaker) (e : Fault) (log : List Event)
    → (process_analysis v client config ai b.allow_backend_ai_request log).0 ≡ refused e
    → breaker_after v request_namespace ai ai.back_off b ≡ some b'
    → (records : List Event) × (analysis_step v request_namespace ai d client config b log ≡ (
      (finished config (some e), b'),
      records ++ (process_analysis v client config ai b.allow_backend_ai_request log).1,
    ))
      × All (IsRecord config e) records
unfolding analysis_step ◌>>=◌
analysis_step-failed v request_namespace ai d client config b b' e log h k =
    let asked = (process_analysis v client config ai b.allow_backend_ai_request log).1 in
    let (counts, counted, all_counts) = (count_failure-IsRecord v config e d ai).at asked in
    let (records, recorded, all) =
      (record_analysis_error-IsRecord v config e).at (counts ++ asked) in
    (
      records ++ counts,
      ap (λ x. after_analyze v request_namespace ai d config b x asked) h
          ∙ ap
              (λ x.
                record_failure v request_namespace ai config e b x
                  (count_failure v d config ai asked).1)
              k
          ∙ ap
              (λ (l : List Event).
                ((finished config (some e), b'), (record_analysis_error v config e l).1))
              counted
          ∙ ap (λ (l : List Event). ((finished config (some e), b'), l))
              (recorded ∙ sym (append_assoc records counts asked)),
      All-append (IsRecord config e) records counts all all_counts,
    )
