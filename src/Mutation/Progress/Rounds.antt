-- ===== src/Mutation/Progress/Rounds.antt =====
-- What each reconciliation does on such a cluster.
use k8sgpt_operator.Common.{
  ℕ, String, true, false, List, ◌∷◌, Option, none, some, ok, Fault, ◌≡◌, refl, ap, ◌∙◌, inl, inr,
  Bool-cases,
}
use k8sgpt_operator.Json.{Members}
use k8sgpt_operator.Kube.{with_kind, Machinery}
use k8sgpt_operator.Api.Result.{successful, Result}
use k8sgpt_operator.Api.Mutation.{Mutation}
use k8sgpt_operator.Shared.{Shared}
use k8sgpt_operator.Policy.Types.{Decision}
use k8sgpt_operator.Effect.{◌>>=◌}
use k8sgpt_operator.Mutation.Cluster.{
  Call, get_mutation, update_mutation, get_result, get_object, patch_dry_run, patch_object, query,
  read_clock, Cluster,
}
use k8sgpt_operator.Mutation.Execution.{
  guarded_patch, approved_mutation, carry_out, unless_refused, record_success, apply_decision,
  judge, resource_to_execution,
}
use k8sgpt_operator.Mutation.Reconcile.{
  mutation_prompt, released, release, release_finalizer, client_of, with_status, with_proposal,
  target_ready, store_and_reply, result_looked_up, after_rollout, does_result_exist, use_response,
  propose, execute_target, handle_phase, reconcile_fetched, reconcile,
}
use k8sgpt_operator.Mutation.Rollout.{is_deployment}
use k8sgpt_operator.Mutation.Progress.{
  stored_after, is_patched, IsHeld, IsCured, IsProposed, decision_of, IsAdmitted, IsRolledOut,
}

-- A mutation that is not being deleted is reconciled as it was read.
kept : (m : Mutation) → m.deletion_timestamp ≡ none → released m ≡ none
unfolding released
kept m h = go m.finalizers
  where
    go : (f : Option (List String)) → released (record m { finalizers = f }) ≡ none
    go none = refl
    go (some fs) = rw h refl

module _ (k : Machinery) (c : Cluster) (shared : Shared) (own : Option ℕ) (m : Mutation)
    (held : IsHeld c m) where
  -- A reconciliation handles the phase of the mutation that the server holds.
  pub held_round :
      (log : List Call) (m' : Mutation)
      → stored_after m log ≡ m'
      → m'.deletion_timestamp ≡ none
      → reconcile k c shared own m.namespace m.name log
        ≡ handle_phase k c m'.status.phase m' shared.remote_backend
            (client_of own shared)
            (get_mutation m.namespace m.name ∷ log)
  unfolding reconcile reconcile_fetched release_finalizer release ◌>>=◌
  held_round log m' e h = rw (held.read log ∙ ap ok e, kept m' h) refl

  pub proposal_round :
      (log : List Call) (client : ℕ) (backend proposal : String) (proposed : Members)
      (result : Result) (gone : Fault)
      → IsCured c m result gone
      → IsProposed k c m proposal proposed
      → is_patched log ≡ false
      → (propose k c m backend client log).1
        ≡ update_mutation (with_proposal k m proposal)
          ∷ query client backend (mutation_prompt result.spec.details m.spec.origin_configuration)
          ∷ get_result m.spec.result_ref.namespace m.spec.result_ref.name
          ∷ log
  unfolding propose use_response store_and_reply ◌>>=◌
  proposal_round log client backend proposal proposed result gone cured proposes fresh =
      rw
        (
          cured.found log fresh,
          proposes.answered (get_result m.spec.result_ref.namespace m.spec.result_ref.name ∷ log)
              client backend (mutation_prompt result.spec.details m.spec.origin_configuration),
          proposes.known,
          proposes.selected,
        )
        refl

  -- The calls of a remediation, the latest first.
  abbrev pub executed : (live proposed : Members) (d : Decision) → Mutation → List Call → List Call
  executed live proposed d m' log =
      let read = get_object (k.gvk proposed) (k.namespace proposed) (k.name proposed) ∷ log in
      let tried = patch_dry_run live (guarded_patch k live d) ∷ read in
      let patched = patch_object live (guarded_patch k live d) ∷ tried in
      update_mutation (approved_mutation m' d (c.now patched)) ∷ read_clock ∷ patched

  pub execution_round :
      (log : List Call) (m' : Mutation) (proposal : String) (original live proposed : Members)
      → IsProposed k c m proposal proposed
      → IsAdmitted k c m original live proposed
      → m' ≡ with_proposal k m proposal
      → is_patched log ≡ false
      → (execute_target k c m' log).1
        ≡ executed live proposed (decision_of k original live proposed) m' log
  unfolding with_proposal execute_target resource_to_execution judge apply_decision carry_out
      unless_refused record_success ◌>>=◌
  execution_round log m' proposal original live proposed proposes admitted same fresh =
      let d = decision_of k original live proposed in
      let read = get_object (k.gvk proposed) (k.namespace proposed) (k.name proposed) ∷ log in
      let tried = patch_dry_run live (guarded_patch k live d) ∷ read in
      rw
        (
          same,
          proposes.given,
          proposes.decoded,
          admitted.read log fresh,
          admitted.parsed,
          admitted.allowed,
          admitted.dry read,
          admitted.taken tried,
        )
        refl

  -- The wait for the rollout only reads.
  pub rolled_out :
      (log : List Call) (m' : Mutation) (target : Members)
      → IsRolledOut k c m target
      → m'.spec.resource_gvk ≡ m.spec.resource_gvk
      → m'.spec.resource_ref ≡ m.spec.resource_ref
      → is_patched log ≡ true
      → (log' : List Call) × (target_ready k c m' log ≡ (ok true, log')) × (is_patched log' ≡ true)
  unfolding target_ready is_patched ◌>>=◌
  rolled_out log m' target rolled typed named patched =
      let g = with_kind rolled.version m.spec.resource_ref.kind in
      elim (Bool-cases (is_deployment g)) [
        | inl h ↦ (
          get_object g m.spec.resource_ref.namespace m.spec.resource_ref.name ∷ log,
          rw (typed, named, rolled.typed, h, rolled.read log patched, rolled.ready) refl,
          patched,
        )
        | inr h ↦ (log, rw (typed, named, rolled.typed, h) refl, patched)
      ]

  -- The last two lines of a reconciliation whose finding is gone.
  pub cured_after :
      (log log' : List Call) (m' : Mutation) (result : Result) (gone : Fault)
      → IsCured c m result gone
      → m'.spec.result_ref ≡ m.spec.result_ref
      → target_ready k c m' log ≡ (ok true, log')
      → is_patched log' ≡ true
      → (is_patched (does_result_exist k c m' log).1 ≡ true)
        × (stored_after m (does_result_exist k c m' log).1 ≡ with_status m' successful "Successful")
  unfolding does_result_exist after_rollout result_looked_up store_and_reply stored_after is_patched
      ◌>>=◌
  cured_after log log' m' result gone cured found ready patched =
      let missing = cured.missing log' patched in
      (
        rw (ready, found, missing, cured.is_missing) patched,
        rw (ready, found, missing, cured.is_missing) refl,
      )
