-- ===== src/Steps/Served.antt =====
-- What the steps behind the connection call.
pub mod Analysis
pub mod Server
use k8sgpt_operator.Common.{
  ℕ, String, Bool, true, false, not, ◌&&◌, ◌||◌, List, [], ◌∷◌, Option, none, some, is_some,
  Outcome, Fault, Any, ◌≡◌, refl, inl, inr, ap, ◌∙◌, sym, subst, is_empty, ◌==◌, ok, err,
}
use k8sgpt_operator.Built.{Built, built, refused, crashed}
use k8sgpt_operator.Api.K8sgpt.{AiSpec, K8sgpt, BackOff, Trivy}
use k8sgpt_operator.Api.Result.{ResultSpec, Result, not_started}
use k8sgpt_operator.Api.Mutation.{Mutation}
use k8sgpt_operator.Shared.{Signal}
use k8sgpt_operator.Effect.{Effect, pure}
use k8sgpt_operator.Effect.Emits.{
  emits_rules, Emits, Emits-pure, Emits-call, Emits-if, Emits-bind, Emits-outcome,
}
use k8sgpt_operator.Effect.Lift.{lift, Emits-lift}
use k8sgpt_operator.Client.Requests.{
  AddConfigRequest, AnalyzeRequest, add_config_request, integration_request, analyze_request,
}
use k8sgpt_operator.Mutation.Cluster.{Call as ObjectCall, get_object}
use k8sgpt_operator.Metrics.{get_gauge_vec}
use k8sgpt_operator.Remediation.Eligible.{EligibleResource, results_to_eligible_resources}
use k8sgpt_operator.Remediation.Dedup.{deduplicate}
use k8sgpt_operator.Remediation.Reads.{IsRead, results_to_eligible_resources-IsRead}
use k8sgpt_operator.Controller.Server.{
  Call, create_mutation, get_mutation, list_results, get_result, create_result, update_result,
  update_result_status, delete_result, get_secret, emit,
}
use k8sgpt_operator.Controller.Server as Calls
use k8sgpt_operator.Controller.Remediate.{new_mutation, create_mutations}
use k8sgpt_operator.Controller.Created.{IsOfEligible, create_mutations-IsOfEligible}
use k8sgpt_operator.Controller.Results.{backstage_enabled}
use k8sgpt_operator.Controller.Analysis.{Breaker, store_results}
use k8sgpt_operator.Controller.Sinks.{init_sink_type, process_latest_results}
use k8sgpt_operator.Controller.Finish.{Reply}
use k8sgpt_operator.Steps.Events.{
  Event, update_image, get_service, probe, connect, send_signal, add_config, forget_config,
  list_integrations, analyze, warn, read_clock, update_status, count_failed_call, set_results,
  set_mutations, result_call, object_call, Environment, World, on_results, on_objects,
}
use k8sgpt_operator.Steps.Plain.{
  IsPlain, store_results-IsPlain, process_latest_results-IsPlain, init_sink_type-IsPlain,
}
use k8sgpt_operator.Steps.Repair.{
  read_all, count_mutations, after_creation, repair, after_reads, repair_listed,
  calculate_remediation_step,
}
use k8sgpt_operator.Steps.Report.{after_report, report_with, report_listed, result_status_step}
use k8sgpt_operator.Steps.Analyze.{
  send_analysis, process_analysis, set_analysis_error_status, warn_if, record_analysis_error,
  clear_analysis_error, after_storage, store, analysis_succeeded, record_failure, breaker_after,
  after_analyze, analysis_step,
}

-- A mutation that is created is one of the remediation that is switched on, and starts in the first
-- phase without a target.
abbrev pub IsFresh : AiSpec → Call → Type 0
IsFresh ai (create_mutation m) =
    (ai.auto_remediation.enabled ≡ true)
    × (m.status.phase ≡ not_started)
    × (m.spec.target_configuration ≡ "")
IsFresh ai _ = Unit

-- Every request to the server uses the connection of the configuration, and asks for an explanation
-- only if AI is enabled and the breaker allows it; the mutation controller is told of this
-- connection, and mutations are created, only if the remediation is switched on; objects are only
-- read; and no other connection is made.
abbrev pub IsServed : ℕ → AiSpec → (allowed : Bool) → Event → Type 0
IsServed client ai allowed (add_config c request) = c ≡ client
IsServed client ai allowed (forget_config c) = ⊥
IsServed client ai allowed (list_integrations c) = c ≡ client
IsServed client ai allowed (analyze c request) =
    (c ≡ client) × (request.explain ≡ (ai.enabled && allowed))
IsServed client ai allowed (send_signal signal) =
    (ai.auto_remediation.enabled ≡ true) × (signal.k8sgpt_client ≡ some client)
IsServed client ai allowed (result_call c) = IsFresh ai c
IsServed client ai allowed (object_call c) = IsRead c
IsServed client ai allowed (warn message) = Unit
IsServed client ai allowed read_clock = Unit
IsServed client ai allowed (update_status config) = Unit
IsServed client ai allowed (count_failed_call labels) = ai.enabled ≡ true
IsServed client ai allowed (set_results counts k8sgpt) = Unit
IsServed client ai allowed (set_mutations n) = ai.auto_remediation.enabled ≡ true
IsServed client ai allowed (update_image namespace name image) = ⊥
IsServed client ai allowed (get_service namespace name) = ⊥
IsServed client ai allowed (probe address) = ⊥
IsServed client ai allowed (connect address) = ⊥

not_off : (b : Bool) → not b ≡ false → b ≡ true
not_off true h = refl
not_off false h = cc

IsFresh-plain : (ai : AiSpec) (c : Call) → IsPlain c → IsFresh ai c
IsFresh-plain ai (create_mutation m) h = absurd h
IsFresh-plain ai (get_mutation namespace name) h = tt
IsFresh-plain ai (list_results name namespace) h = tt
IsFresh-plain ai (get_result namespace name) h = tt
IsFresh-plain ai (create_result r) h = tt
IsFresh-plain ai (update_result r) h = tt
IsFresh-plain ai (update_result_status r) h = tt
IsFresh-plain ai (delete_result r) h = tt
IsFresh-plain ai (Calls.get_object g namespace name) h = tt
IsFresh-plain ai (get_secret namespace name) h = tt
IsFresh-plain ai (emit spec) h = tt

module _ (v : Environment) (ai : AiSpec) (client : ℕ) (allowed : Bool) where
  abbrev P : Event → Type 0
  P = IsServed client ai allowed

  -- The mutations of eligible resources are fresh.
  new-IsFresh :
      (config : K8sgpt) (rs : List EligibleResource) (m : Mutation)
      → ai.auto_remediation.enabled ≡ true
      → Any (λ r. new_mutation v.toolkit config r ≡ m) rs
      → IsFresh ai (create_mutation m)
  unfolding new_mutation
  new-IsFresh config [] m on h = absurd h
  new-IsFresh config (r ∷ rs) m on (inl e) =
      subst (λ m'. IsFresh ai (create_mutation m')) e (on, refl, refl)
  new-IsFresh config (r ∷ rs) m on (inr h) = new-IsFresh config rs m on h

  IsFresh-created :
      (config : K8sgpt) (rs : List EligibleResource) (c : Call)
      → ai.auto_remediation.enabled ≡ true
      → IsOfEligible v.toolkit v.server config rs c
      → IsFresh ai c
  IsFresh-created config rs (create_mutation m) on h = new-IsFresh config rs m on h
  IsFresh-created config rs (get_mutation namespace name) on h = tt
  IsFresh-created config rs (list_results name namespace) on h = tt
  IsFresh-created config rs (get_result namespace name) on h = tt
  IsFresh-created config rs (create_result r) on h = tt
  IsFresh-created config rs (update_result r) on h = tt
  IsFresh-created config rs (update_result_status r) on h = tt
  IsFresh-created config rs (delete_result r) on h = tt
  IsFresh-created config rs (Calls.get_object g namespace name) on h = tt
  IsFresh-created config rs (get_secret namespace name) on h = tt
  IsFresh-created config rs (emit spec) on h = tt

  pub plain : {A : Type 0} (m : Effect Call A) → Emits IsPlain m → Emits P (lift on_results m)
  plain m h = Emits-lift on_results IsPlain P m (IsFresh-plain ai) h

  read_all-IsPlain : (config : K8sgpt) (rs : List Result) → Emits IsPlain (read_all v config rs)
  unfolding read_all
  read_all-IsPlain config [] = Emits-pure IsPlain _
  read_all-IsPlain config (r ∷ rs) = Emits-bind IsPlain _ _ (Emits-call IsPlain _ _ tt) λ found.
      Emits-outcome IsPlain found _ _ (λ e q. Emits-pure IsPlain _)
        (λ now q. read_all-IsPlain config rs)

  module _ (config : K8sgpt) where
    after_creation-IsServed :
        (n : ℕ) (refused : Option Fault)
        → ai.auto_remediation.enabled ≡ true
        → Emits P (after_creation v config n refused)
    after_creation-IsServed n (some e) on = Emits-pure P _
    after_creation-IsServed n none on =
        Emits-bind P (count_mutations v config n) _
          (Emits-if P (is_some (get_gauge_vec "k8sgpt_mutations_count" v.metrics)) _ _
            (λ h. Emits-call P _ _ on) (λ h. Emits-pure P _))
          (λ counted. Emits-pure P _)

    repair-IsServed :
        (results : List Result)
        → ai.auto_remediation.enabled ≡ true
        → Emits P (repair v config results)
    unfolding repair
    repair-IsServed results on =
        Emits-bind P _ _
          (Emits-lift on_objects IsRead P _ (λ c h. h)
            (results_to_eligible_resources-IsRead v.machinery (some config) v.cluster v.reference
              results))
          λ eligible.
            let rs = deduplicate v.machinery eligible in
            Emits-bind P _ _
              (Emits-lift on_results (IsOfEligible v.toolkit v.server config rs) P _
                (λ c. IsFresh-created config rs c on)
                (create_mutations-IsOfEligible v.toolkit v.server config rs))
              (λ refused. after_creation-IsServed _ refused on)

    after_reads-IsServed :
        (results : List Result) (o : Option Fault)
        → ai.auto_remediation.enabled ≡ true
        → Emits P (after_reads v config results o)
    after_reads-IsServed results none on = repair-IsServed results on
    after_reads-IsServed results (some e) on = Emits-pure P _

    repair_listed-IsServed :
        (results : List Result)
        → ai.auto_remediation.enabled ≡ true
        → Emits P (repair_listed v config results)
    repair_listed-IsServed [] on = Emits-pure P _
    repair_listed-IsServed (r ∷ rs) on =
        Emits-bind P _ _ (plain _ (read_all-IsPlain config (r ∷ rs)))
          (λ failed. after_reads-IsServed (r ∷ rs) failed on)

    pub calculate_remediation_step-IsServed : Emits P (calculate_remediation_step v config ai)
    unfolding calculate_remediation_step
    calculate_remediation_step-IsServed =
        Emits-if P (not ai.auto_remediation.enabled) _ _ (λ off. Emits-pure P _)
          λ on. Emits-bind P _ _ (plain _ (Emits-call IsPlain _ _ tt)) λ listed.
            Emits-outcome P listed _ _ (λ e q. Emits-pure P _)
              (λ rs q. repair_listed-IsServed rs (not_off ai.auto_remediation.enabled on))
