-- ===== src/Controller/Emission.antt =====
-- When a result is sent, and how often.
use k8sgpt_operator.Common.{
  String, true, false, List, [], ◌∷◌, Option, none, some, Fault, is_empty, ◌≡◌, refl,
}
use k8sgpt_operator.Api.Result.{Result}
use k8sgpt_operator.Effect.{Effect, ◌>>=◌}
use k8sgpt_operator.Effect.Emits.{
  emits_rules, Emits, Emits-bind, Emits-call, Emits-outcome, Emits-pure,
}
use k8sgpt_operator.Controller.Server.{Call, Server, emit, update_result_status}
use k8sgpt_operator.Controller.Results.{no_op_result, with_result_status}
use k8sgpt_operator.Controller.Sinks.{
  needs_emission, with_webhook, fault_of, store_status, unless_unsent, notify, handle_latest,
  process_latest_results,
}

-- With a sink, for each answer: a result that needs it is sent first; if that fails, its status is
-- not written, else the status records the endpoint. A result that does not is never sent.
pub notify_order :
    (s : Server) (endpoint : String) (r : Result) (log : List Call)
    → let sent = emit r.spec ∷ log in
      ((e : Fault)
        → needs_emission r ≡ true
        → s.emitted log r.spec ≡ some e
        → notify s endpoint r log ≡ (some e, sent))
      × (needs_emission r ≡ true
          → s.emitted log r.spec ≡ none
          → notify s endpoint r log ≡ (
            fault_of (s.update_status sent (with_webhook r endpoint)),
            update_result_status (with_webhook r endpoint) ∷ sent,
          ))
      × (needs_emission r ≡ false
          → notify s endpoint r log
            ≡ (fault_of (s.update_status log r), update_result_status r ∷ log))
unfolding notify store_status ◌>>=◌
notify_order s endpoint r log =
    ((λ e h g. rw (h, g) refl), (λ h g. rw (h, g) refl), (λ h. rw h refl))

-- A result that was sent, and that the next analysis found unchanged, is sent again exactly where
-- the sink has no endpoint of its own.
pub needs_emission-again :
    (r : Result) (endpoint hash : String)
    → needs_emission (with_result_status (with_webhook r endpoint) no_op_result hash)
      ≡ is_empty endpoint
unfolding needs_emission
needs_emission-again r endpoint hash = refl

-- No emission, and no status that keeps a webhook.
abbrev pub IsSilent : Call → Type 0
IsSilent (emit spec) = ⊥
IsSilent (update_result_status r) = r.status.webhook ≡ ""
IsSilent _ = Unit

module _ (s : Server) (endpoint : String) where
  handle_latest-IsSilent : (r : Result) → Emits IsSilent (handle_latest s false endpoint r)
  unfolding handle_latest store_status
  handle_latest-IsSilent r =
      Emits-bind IsSilent _ _ (Emits-call IsSilent _ _ refl) (λ stored. Emits-pure IsSilent _)

  unless_unsent-IsSilent :
      (o : Option Fault) (go : Effect Call (Option Fault))
      → Emits IsSilent go
      → Emits IsSilent (unless_unsent s o go)
  unless_unsent-IsSilent none go h = h
  unless_unsent-IsSilent (some e) go h = search emits_rules

  -- Without a sink, nothing is sent and every status that is written has its webhook removed.
  pub process_latest_results-IsSilent :
      (rs : List Result) → Emits IsSilent (process_latest_results s false endpoint rs)
  unfolding process_latest_results
  process_latest_results-IsSilent [] = search emits_rules
  process_latest_results-IsSilent (r ∷ rs) =
      Emits-bind IsSilent _ _ (Emits-call IsSilent _ _ tt) λ found.
        Emits-outcome IsSilent found _ _ (λ e p. Emits-pure IsSilent _)
          λ latest p. Emits-bind IsSilent _ _ (handle_latest-IsSilent latest) λ failed.
            unless_unsent-IsSilent failed (process_latest_results s false endpoint rs)
              (process_latest_results-IsSilent rs)
