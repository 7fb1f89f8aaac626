-- ===== src/Controller/Sinks.antt =====
-- internal/controller/k8sgpt/resultStatus_step.go: which results go to the sink.
use k8sgpt_operator.Common.{
  String, Bool, false, not, ◌&&◌, ◌||◌, List, [], ◌∷◌, Option, none, some, is_some, or_else, lookup,
  Outcome, ok, err, Fault, is_empty, ◌==◌, if◌then◌else◌,
}
use k8sgpt_operator.Api.K8sgpt.{WebhookRef, SecretRef}
use k8sgpt_operator.Api.Result.{Result}
use k8sgpt_operator.Effect.{Effect, pure, ◌>>=◌, on_outcome}
use k8sgpt_operator.Mutation.Proposal.{wrap}
use k8sgpt_operator.Controller.Server.{
  Call, Server, find_result, find_secret, emit_result, store_result_status,
}
use k8sgpt_operator.Controller.Results.{no_op_result}

-- sinkEnabled
unfoldable pub sink_enabled : Option WebhookRef → Bool
sink_enabled none = false
sink_enabled (some sink) =
    not (is_empty sink.type) && (not (is_empty sink.endpoint) || is_some sink.secret)

-- config.Spec.Sink.Endpoint, which is read where the sink is enabled.
abbrev pub endpoint_of : Option WebhookRef → String
endpoint_of none = ""
endpoint_of (some sink) = sink.endpoint

-- The test whether a result is sent.
unfoldable pub needs_emission : Result → Bool
needs_emission r = not (r.status.life_cycle == no_op_result) || is_empty r.status.webhook

abbrev pub with_webhook : Result → String → Result
with_webhook r webhook = record r {
  status = record {
    life_cycle = r.status.life_cycle;
    webhook = webhook;
    content_hash = r.status.content_hash;
  };
}

abbrev pub fault_of : {A : Type 0} → Outcome A → Option Fault
fault_of (ok a) = none
fault_of (err e) = some e

abbrev pub read_secret : SecretRef → Outcome (List (String × String)) → Outcome String
read_secret r (err e) = err (wrap "could not find sink secret: " e)
read_secret r (ok values) = ok (or_else "" (lookup r.key values))

module _ (s : Server) where
  -- The value that initSinkType gives to the sink; `namespace` is the one of the request.
  unfoldable pub sink_secret : String → Option SecretRef → Effect Call (Outcome String)
  sink_secret namespace none = pure (ok "")
  sink_secret namespace (some r) = do
    found ← find_secret s namespace r.name
    pure (read_secret r found)

  -- initSinkType: whether there is a sink, and the secret that it is configured with.
  unfoldable pub init_sink_type : String → Option WebhookRef → Effect Call (Outcome (Option String))
  init_sink_type namespace none = pure (ok none)
  init_sink_type namespace (some sink) =
      if sink_enabled (some sink)
      then (do
        found ← sink_secret namespace sink.secret
        on_outcome found (λ e. pure (err e)) (λ value. pure (ok (some value))))
      else pure (ok none)

  unfoldable pub store_status : Result → Effect Call (Option Fault)
  store_status r = do stored ← store_result_status s r; pure (fault_of stored)

  -- A sink that fails ends the loop.
  abbrev pub unless_unsent : Option Fault → Effect Call (Option Fault) → Effect Call (Option Fault)
  unless_unsent none go = go
  unless_unsent (some e) go = pure (some e)

  -- One round for a result as the server has it, where a sink is enabled.
  unfoldable pub notify : String → Result → Effect Call (Option Fault)
  notify endpoint r =
      if needs_emission r
      then (do
        refused ← emit_result s r.spec
        unless_unsent refused (store_status (with_webhook r endpoint)))
      else store_status r

  unfoldable pub handle_latest : Bool → String → Result → Effect Call (Option Fault)
  handle_latest enabled endpoint r =
      if enabled then notify endpoint r else store_status (with_webhook r "")

  -- processLatestResults
  unfoldable pub process_latest_results : Bool → String → List Result → Effect Call (Option Fault)
  process_latest_results enabled endpoint [] = pure none
  process_latest_results enabled endpoint (r ∷ rs) = do
    found ← find_result s r.namespace r.name
    on_outcome found (λ e. pure (some e))
        λ latest. do
          failed ← handle_latest enabled endpoint latest
          unless_unsent failed (process_latest_results enabled endpoint rs)
