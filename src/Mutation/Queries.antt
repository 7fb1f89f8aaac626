-- ===== src/Mutation/Queries.antt =====
-- Which connection a reconciliation of a mutation asks.
use k8sgpt_operator.Common.{ℕ, String, Option, none, some, Outcome, ok, err, Fault, ◌≡◌, refl}
use k8sgpt_operator.Json.{Members}
use k8sgpt_operator.Kube.{Machinery}
use k8sgpt_operator.Api.Result.{
  Phase, not_started, in_progress, completed, successful, pending, aborted, other, Result,
}
use k8sgpt_operator.Api.Mutation.{Mutation}
use k8sgpt_operator.Policy.Types.{Decision}
use k8sgpt_operator.Shared.{Shared}
use k8sgpt_operator.Effect.{Effect}
use k8sgpt_operator.Effect.Emits.{emits_rules, Emits}
use k8sgpt_operator.Mutation.Cluster.{Call, Cluster, query}
use k8sgpt_operator.Mutation.Execution.{
  Reply, Object, typed, unstructured, reject_mutation, record_success, unless_refused,
  apply_decision, carry_out, judge, resource_to_execution,
}
use k8sgpt_operator.Mutation.Reconcile.{
  target_ready, store_and_reply, result_looked_up, after_rollout, does_result_exist, no_known_fix,
  use_response, propose, propose_if_ready, execute_target, handle_phase, release, release_finalizer,
  reconcile_fetched, reconcile, client_of,
}

module _ (k : Machinery) (c : Cluster) (client : Option ℕ) (backend : String) where
  -- A query goes to the given client, with the given backend.
  abbrev pub IsFor : Call → Type 0
  IsFor (query to name prompt) = (client ≡ some to) × (name ≡ backend)
  IsFor _ = Unit

  reject_mutation-Emits :
      (m : Mutation) (reason : String) (d : Decision) → Emits IsFor (reject_mutation k c m reason d)
  unfolding reject_mutation
  reject_mutation-Emits m reason d = search emits_rules depth 9

  unless_refused-Emits :
      (o : Option Fault) (go : Effect Call Reply)
      → Emits IsFor go
      → Emits IsFor (unless_refused k c o go)
  unfolding unless_refused
  unless_refused-Emits none go h = h
  unless_refused-Emits (some e) go h = search emits_rules

  apply_decision-Emits :
      (m : Mutation) (live : Members) (d : Decision) → Emits IsFor (apply_decision k c m live d)
  unfolding apply_decision carry_out record_success
  apply_decision-Emits m live d =
      search (emits_rules, reject_mutation-Emits, unless_refused-Emits) depth 12

  judge-Emits :
      (m : Mutation) (original live : Members) (o : Object)
      → Emits IsFor (judge k c m original live o)
  unfolding judge
  judge-Emits m original live (typed g ns name) = reject_mutation-Emits m _ _
  judge-Emits m original live (unstructured proposed) = apply_decision-Emits m live _

  execute_target-Emits : (m : Mutation) → Emits IsFor (execute_target k c m)
  unfolding execute_target resource_to_execution
  execute_target-Emits m = search (emits_rules, judge-Emits, reject_mutation-Emits) depth 12

  store_and_reply-Emits : (m : Mutation) (r : Reply) → Emits IsFor (store_and_reply k c m r)
  unfolding store_and_reply
  store_and_reply-Emits m r = search emits_rules depth 9

  use_response-Emits :
      (m : Mutation) (response : String) → Emits IsFor (use_response k c m response)
  unfolding use_response no_known_fix
  use_response-Emits m response = search (emits_rules, store_and_reply-Emits) depth 9

  propose-Emits :
      (m : Mutation) (to : Option ℕ) → to ≡ client → Emits IsFor (propose_if_ready k c m backend to)
  unfolding propose_if_ready propose
  propose-Emits m none e = search emits_rules depth 9
  propose-Emits m (some to) e =
      let asked : (client ≡ some to) × (backend ≡ backend) = (cc, refl) in
      search (emits_rules, use_response-Emits, asked) depth 12

  result_looked_up-Emits :
      (m : Mutation) (r : Outcome Result) → Emits IsFor (result_looked_up k c m r)
  unfolding result_looked_up
  result_looked_up-Emits m (ok r) = search (emits_rules, store_and_reply-Emits)
  result_looked_up-Emits m (err e) = search (emits_rules, store_and_reply-Emits)

  does_result_exist-Emits : (m : Mutation) → Emits IsFor (does_result_exist k c m)
  unfolding does_result_exist after_rollout target_ready
  does_result_exist-Emits m =
      search (emits_rules, store_and_reply-Emits, result_looked_up-Emits) depth 12

  handle_phase-queries :
      (p : Phase) (m : Mutation) → Emits IsFor (handle_phase k c p m backend client)
  unfolding handle_phase
  handle_phase-queries not_started m = propose-Emits m client refl
  handle_phase-queries in_progress m = execute_target-Emits m
  handle_phase-queries completed m = does_result_exist-Emits m
  handle_phase-queries pending m = does_result_exist-Emits m
  handle_phase-queries successful m = search emits_rules
  handle_phase-queries aborted m = search emits_rules
  handle_phase-queries (other n) m = search emits_rules

  release-Emits : (m : Mutation) (r : Option Mutation) → Emits IsFor (release k c m r)
  unfolding release
  release-Emits m none = search emits_rules
  release-Emits m (some m') = search emits_rules

-- A reconciler that has a client asks no other one, whatever the shared client is; without one it
-- asks no client but the shared one, and none where that is not set. Each query names the shared
-- backend.
pub reconcile-IsFor :
    (k : Machinery) (c : Cluster) (shared : Shared) (namespace name : String)
    → ((client : ℕ)
        → Emits
            (IsFor k c (some client) shared.remote_backend)
            (reconcile k c shared (some client) namespace name))
      × Emits
          (IsFor k c shared.server_query_client shared.remote_backend)
          (reconcile k c shared none namespace name)
unfolding reconcile reconcile_fetched release_finalizer client_of
reconcile-IsFor k c shared namespace name = (
  λ client. search (emits_rules, release-Emits, handle_phase-queries) depth 12,
  search (emits_rules, release-Emits, handle_phase-queries) depth 12,
)
