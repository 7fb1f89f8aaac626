-- ===== src/Mutation/Phases.antt =====
-- The phases of a mutation, and what one reconciliation may write in each.
use k8sgpt_operator.Common.{ℕ, String, Bool, Option, none, some, Outcome, ok, err, Fault, ◌≡◌}
use k8sgpt_operator.Json.{Members}
use k8sgpt_operator.Kube.{Machinery}
use k8sgpt_operator.Api.Result.{
  Phase, not_started, in_progress, completed, successful, pending, aborted, other, Result,
}
use k8sgpt_operator.Api.Mutation.{Mutation}
use k8sgpt_operator.Policy.Types.{Decision}
use k8sgpt_operator.Effect.{Effect}
use k8sgpt_operator.Effect.Emits.{emits_rules, Emits}
use k8sgpt_operator.Mutation.Cluster.{
  Call, update_mutation, update_mutation_status, patch_dry_run, patch_object, Cluster,
}
use k8sgpt_operator.Mutation.Execution.{
  Reply, Object, typed, unstructured, rejected_mutation, approved_mutation, reject_mutation,
  record_success, unless_refused, apply_decision, carry_out, judge, resource_to_execution,
}
use k8sgpt_operator.Mutation.Reconcile.{
  with_status, with_invalid_proposal, with_proposal, target_ready, store_and_reply,
  result_looked_up, after_rollout, does_result_exist, no_known_fix, use_response, propose,
  propose_if_ready, execute_target, handle_phase,
}

-- The diagram of the phases.
pub data Edge : Phase → Phase → Type 0 where
  propose_target : Edge not_started in_progress
  refuse_proposal : Edge not_started aborted
  apply_target : Edge in_progress completed
  reject_target : Edge in_progress aborted
  keep_waiting : Edge completed pending
  succeed : Edge completed successful
  wait_again : Edge pending pending
  succeed_late : Edge pending successful

-- What may be called from a phase: the phase written follows the diagram, the status alone is
-- written with the phase kept, and objects are patched in progress only.
abbrev pub IsAllowedIn : Phase → Call → Type 0
IsAllowedIn p (update_mutation m) = Edge p m.status.phase
IsAllowedIn p (update_mutation_status m) = m.status.phase ≡ p
IsAllowedIn p (patch_dry_run o ops) = p ≡ in_progress
IsAllowedIn p (patch_object o ops) = p ≡ in_progress
IsAllowedIn p _ = Unit

module _ (k : Machinery) (c : Cluster) where
  reject_mutation-Emits :
      (m : Mutation) (reason : String) (d : Decision)
      → Emits (IsAllowedIn in_progress) (reject_mutation k c m reason d)
  unfolding reject_mutation rejected_mutation
  reject_mutation-Emits m reason d = search (emits_rules, reject_target)

  record_success-Emits :
      (m : Mutation) (d : Decision) → Emits (IsAllowedIn in_progress) (record_success k c m d)
  unfolding record_success approved_mutation
  record_success-Emits m d = search (emits_rules, apply_target)

  unless_refused-Emits :
      (o : Option Fault) (go : Effect Call Reply)
      → Emits (IsAllowedIn in_progress) go
      → Emits (IsAllowedIn in_progress) (unless_refused k c o go)
  unfolding unless_refused
  unless_refused-Emits none go h = h
  unless_refused-Emits (some e) go h = search emits_rules

  apply_decision-Emits :
      (m : Mutation) (live : Members) (d : Decision)
      → Emits (IsAllowedIn in_progress) (apply_decision k c m live d)
  unfolding apply_decision carry_out
  apply_decision-Emits m live d =
      search (emits_rules, reject_mutation-Emits, record_success-Emits, unless_refused-Emits) depth
        9

  judge-Emits :
      (m : Mutation) (original live : Members) (o : Object)
      → Emits (IsAllowedIn in_progress) (judge k c m original live o)
  unfolding judge
  judge-Emits m original live (typed g ns name) = reject_mutation-Emits m _ _
  judge-Emits m original live (unstructured proposed) = apply_decision-Emits m live _

  resource_to_execution-Emits :
      (m : Mutation) (o : Object) → Emits (IsAllowedIn in_progress) (resource_to_execution k c m o)
  unfolding resource_to_execution
  resource_to_execution-Emits m o = search (emits_rules, judge-Emits, reject_mutation-Emits) depth 9

  execute_target-Emits : (m : Mutation) → Emits (IsAllowedIn in_progress) (execute_target k c m)
  unfolding execute_target
  execute_target-Emits m = search (emits_rules, resource_to_execution-Emits) depth 9

  -- An update that takes an edge from the phase.
  store-Emits :
      (p : Phase) (m : Mutation) (r : Reply)
      → Edge p m.status.phase
      → Emits (IsAllowedIn p) (store_and_reply k c m r)
  unfolding store_and_reply
  store-Emits p m r e = search emits_rules depth 9

  target_ready-Emits : (p : Phase) (m : Mutation) → Emits (IsAllowedIn p) (target_ready k c m)
  unfolding target_ready
  target_ready-Emits p m = search emits_rules depth 9

  use_response-Emits :
      (m : Mutation) (response : String)
      → m.status.phase ≡ not_started
      → Emits (IsAllowedIn not_started) (use_response k c m response)
  unfolding use_response no_known_fix with_invalid_proposal with_proposal with_status
  use_response-Emits m response e =
      search (emits_rules, store-Emits, propose_target, refuse_proposal) depth 9

  propose-Emits :
      (m : Mutation) (backend : String) (client : Option ℕ)
      → m.status.phase ≡ not_started
      → Emits (IsAllowedIn not_started) (propose_if_ready k c m backend client)
  unfolding propose_if_ready propose
  propose-Emits m backend none e = search emits_rules depth 9
  propose-Emits m backend (some client) e = search (emits_rules, use_response-Emits) depth 9

  -- Both ends of the wait for the result.
  module _ (p : Phase) (waits : Edge p pending) (succeeds : Edge p successful) where
    result_looked_up-Emits :
        (m : Mutation) (r : Outcome Result) → Emits (IsAllowedIn p) (result_looked_up k c m r)
    unfolding result_looked_up with_status
    result_looked_up-Emits m (ok r) = search (emits_rules, store-Emits, waits)
    result_looked_up-Emits m (err e) = search (emits_rules, store-Emits, succeeds)

    after_rollout-Emits :
        (m : Mutation) (ready : Bool) → Emits (IsAllowedIn p) (after_rollout k c m ready)
    unfolding after_rollout with_status
    after_rollout-Emits m ready =
        search (emits_rules, store-Emits, waits, result_looked_up-Emits) depth 9

    does_result_exist-Emits : (m : Mutation) → Emits (IsAllowedIn p) (does_result_exist k c m)
    unfolding does_result_exist
    does_result_exist-Emits m =
        search (emits_rules, target_ready-Emits, after_rollout-Emits) depth 9

  -- What the switch calls for a mutation in the phase that it was given: updates that take an edge
  -- of the diagram from that phase, updates of the status that keep it, and patches only where
  -- the phase is in progress.
  pub handle_phase-Emits :
      (p : Phase) (m : Mutation) (backend : String) (client : Option ℕ)
      → m.status.phase ≡ p
      → Emits (IsAllowedIn p) (handle_phase k c p m backend client)
  unfolding handle_phase
  handle_phase-Emits not_started m backend client e = propose-Emits m backend client e
  handle_phase-Emits in_progress m backend client e = execute_target-Emits m
  handle_phase-Emits completed m backend client e =
      does_result_exist-Emits completed keep_waiting succeed m
  handle_phase-Emits pending m backend client e =
      does_result_exist-Emits pending wait_again succeed_late m
  handle_phase-Emits successful m backend client e = search emits_rules
  handle_phase-Emits aborted m backend client e = search emits_rules
  handle_phase-Emits (other n) m backend client e = search emits_rules
