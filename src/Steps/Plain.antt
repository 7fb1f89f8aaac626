-- ===== src/Steps/Plain.antt =====
-- The storage and the notification of results create no mutation.
use k8sgpt_operator.Common.{String, Bool, List, [], ◌∷◌, Option, none, some, Fault}
use k8sgpt_operator.Api.K8sgpt.{AiSpec, K8sgpt, WebhookRef, SecretRef}
use k8sgpt_operator.Api.Result.{ResultSpec, Result}
use k8sgpt_operator.Effect.{Effect}
use k8sgpt_operator.Effect.Emits.{
  Emits, Emits-pure, Emits-call, Emits-if, Emits-bind, Emits-outcome, Emits-weaken,
}
use k8sgpt_operator.Controller.Server.{
  Toolkit, Call, Server, create_mutation, get_mutation, list_results, get_result, create_result,
  update_result, update_result_status, delete_result, get_object, get_secret, emit,
}
use k8sgpt_operator.Controller.Results.{
  backstage_label, extra_labels, map_results, hash_result_content,
}
use k8sgpt_operator.Controller.Upsert.{IsWriteUnder, create_or_update_result-IsWriteUnder}
use k8sgpt_operator.Controller.Cleanup.{IsCleanUp, clean_up_stale_results-IsCleanUp}
use k8sgpt_operator.Controller.Analysis.{unless_failed, process_raw_results, store_results}
use k8sgpt_operator.Controller.Sinks.{
  sink_enabled, needs_emission, store_status, unless_unsent, notify, handle_latest,
  process_latest_results, sink_secret, init_sink_type,
}

-- No mutation is created.
abbrev pub IsPlain : Call → Type 0
IsPlain (create_mutation m) = ⊥
IsPlain _ = Unit

IsPlain-write :
    (res : Result) (hash : String) (c : Call)
    → IsWriteUnder (λ namespace name. Unit) res hash c
    → IsPlain c
IsPlain-write res hash (create_mutation m) h = h
IsPlain-write res hash (get_mutation namespace name) h = tt
IsPlain-write res hash (list_results name namespace) h = tt
IsPlain-write res hash (get_result namespace name) h = tt
IsPlain-write res hash (create_result r) h = tt
IsPlain-write res hash (update_result r) h = tt
IsPlain-write res hash (update_result_status r) h = tt
IsPlain-write res hash (delete_result r) h = tt
IsPlain-write res hash (get_object g namespace name) h = tt
IsPlain-write res hash (get_secret namespace name) h = tt
IsPlain-write res hash (emit spec) h = tt

IsPlain-clean_up :
    (config : K8sgpt) (raw : List (String × Result)) (c : Call) → IsCleanUp config raw c → IsPlain c
IsPlain-clean_up config raw (create_mutation m) h = h
IsPlain-clean_up config raw (get_mutation namespace name) h = tt
IsPlain-clean_up config raw (list_results name namespace) h = tt
IsPlain-clean_up config raw (get_result namespace name) h = tt
IsPlain-clean_up config raw (create_result r) h = tt
IsPlain-clean_up config raw (update_result r) h = tt
IsPlain-clean_up config raw (update_result_status r) h = tt
IsPlain-clean_up config raw (delete_result r) h = tt
IsPlain-clean_up config raw (get_object g namespace name) h = tt
IsPlain-clean_up config raw (get_secret namespace name) h = tt
IsPlain-clean_up config raw (emit spec) h = tt

module _ (t : Toolkit) (s : Server) where
  extra_labels-IsPlain :
      (enabled : Bool) (spec : ResultSpec) → Emits IsPlain (extra_labels t s enabled spec)
  unfolding extra_labels backstage_label
  extra_labels-IsPlain enabled spec =
      Emits-if IsPlain enabled _ _
        (λ on.
          Emits-outcome IsPlain (t.resource_for spec.kind) _ _ (λ e q. Emits-pure IsPlain _)
            (λ gv q.
              Emits-bind IsPlain _ _ (Emits-call IsPlain _ _ tt) (λ found. Emits-pure IsPlain _)))
        (λ off. Emits-pure IsPlain _)

  map_results-IsPlain :
      (config : K8sgpt) (ai : AiSpec) (backstage : Bool) (specs : List ResultSpec)
      (raw : List (String × Result))
      → Emits IsPlain (map_results t s config ai backstage specs raw)
  unfolding map_results
  map_results-IsPlain config ai backstage [] raw = Emits-pure IsPlain _
  map_results-IsPlain config ai backstage (spec ∷ specs) raw =
      Emits-bind IsPlain _ _ (extra_labels-IsPlain backstage spec)
        (λ extra. map_results-IsPlain config ai backstage specs _)

  unless_failed-IsPlain :
      (o : Option Fault) (go : Effect Call (Option Fault))
      → Emits IsPlain go
      → Emits IsPlain (unless_failed t s o go)
  unless_failed-IsPlain none go h = h
  unless_failed-IsPlain (some e) go h = Emits-pure IsPlain _

  process_raw_results-IsPlain :
      (raw : List (String × Result)) → Emits IsPlain (process_raw_results t s raw)
  unfolding process_raw_results
  process_raw_results-IsPlain [] = Emits-pure IsPlain _
  process_raw_results-IsPlain ((name, r) ∷ raw) =
      Emits-bind IsPlain _ _
        (Emits-weaken (IsWriteUnder (λ namespace name. Unit) r (hash_result_content t r.spec))
          IsPlain _ (IsPlain-write r (hash_result_content t r.spec))
          (create_or_update_result-IsWriteUnder t s r))
        λ stored.
          Emits-outcome IsPlain stored _ _ (λ e q. Emits-pure IsPlain _)
            (λ now q. process_raw_results-IsPlain raw)

  pub store_results-IsPlain :
      (config : K8sgpt) (ai : AiSpec) (backstage : Bool) (specs : List ResultSpec)
      → Emits IsPlain (store_results t s config ai backstage specs)
  unfolding store_results
  store_results-IsPlain config ai backstage specs =
      Emits-bind IsPlain _ _ (map_results-IsPlain config ai backstage specs []) λ raw.
        Emits-bind IsPlain _ _
          (Emits-weaken (IsCleanUp config raw) IsPlain _ (IsPlain-clean_up config raw)
            (clean_up_stale_results-IsCleanUp t s config raw))
          (λ cleaned. unless_failed-IsPlain cleaned _ (process_raw_results-IsPlain raw))

module _ (s : Server) where
  unless_unsent-IsPlain :
      (o : Option Fault) (go : Effect Call (Option Fault))
      → Emits IsPlain go
      → Emits IsPlain (unless_unsent s o go)
  unless_unsent-IsPlain none go h = h
  unless_unsent-IsPlain (some e) go h = Emits-pure IsPlain _

  store_status-IsPlain : (r : Result) → Emits IsPlain (store_status s r)
  unfolding store_status
  store_status-IsPlain r =
      Emits-bind IsPlain _ _ (Emits-call IsPlain _ _ tt) (λ stored. Emits-pure IsPlain _)

  handle_latest-IsPlain :
      (enabled : Bool) (endpoint : String) (r : Result)
      → Emits IsPlain (handle_latest s enabled endpoint r)
  unfolding handle_latest notify
  handle_latest-IsPlain enabled endpoint r =
      Emits-if IsPlain enabled _ _
        (λ on.
          Emits-if IsPlain (needs_emission r) _ _
            (λ needed.
              Emits-bind IsPlain _ _ (Emits-call IsPlain _ _ tt)
                (λ refused. unless_unsent-IsPlain refused _ (store_status-IsPlain _)))
            (λ sent. store_status-IsPlain r))
        (λ off. store_status-IsPlain _)

  pub process_latest_results-IsPlain :
      (enabled : Bool) (endpoint : String) (rs : List Result)
      → Emits IsPlain (process_latest_results s enabled endpoint rs)
  unfolding process_latest_results
  process_latest_results-IsPlain enabled endpoint [] = Emits-pure IsPlain _
  process_latest_results-IsPlain enabled endpoint (r ∷ rs) =
      Emits-bind IsPlain _ _ (Emits-call IsPlain _ _ tt) λ found.
        Emits-outcome IsPlain found _ _ (λ e q. Emits-pure IsPlain _)
          λ latest q.
            Emits-bind IsPlain _ _ (handle_latest-IsPlain enabled endpoint latest) λ failed.
              unless_unsent-IsPlain failed _ (process_latest_results-IsPlain enabled endpoint rs)

  sink_secret-IsPlain :
      (namespace : String) (r : Option SecretRef) → Emits IsPlain (sink_secret s namespace r)
  unfolding sink_secret
  sink_secret-IsPlain namespace none = Emits-pure IsPlain _
  sink_secret-IsPlain namespace (some r) =
      Emits-bind IsPlain _ _ (Emits-call IsPlain _ _ tt) (λ found. Emits-pure IsPlain _)

  pub init_sink_type-IsPlain :
      (namespace : String) (sink : Option WebhookRef)
      → Emits IsPlain (init_sink_type s namespace sink)
  unfolding init_sink_type
  init_sink_type-IsPlain namespace none = Emits-pure IsPlain _
  init_sink_type-IsPlain namespace (some sink) =
      Emits-if IsPlain (sink_enabled (some sink)) _ _
        (λ on. Emits-bind IsPlain _ _ (sink_secret-IsPlain namespace sink.secret) λ found.
          Emits-outcome IsPlain found _ _ (λ e q. Emits-pure IsPlain _)
            (λ value q. Emits-pure IsPlain _))
        (λ off. Emits-pure IsPlain _)
