-- ===== src/Mutation/Progress/Cured.antt =====
-- Three reconciliations on such a cluster.
use k8sgpt_operator.Common.{
  ℕ, String, true, List, [], ◌∷◌, Option, none, some, Fault, ◌≡◌, refl, ap, ◌∙◌, sym, subst,
}
use k8sgpt_operator.Json.{Members}
use k8sgpt_operator.Kube.{Machinery}
use k8sgpt_operator.Api.Result.{not_started, successful, Result}
use k8sgpt_operator.Api.Mutation.{Mutation}
use k8sgpt_operator.Shared.{Shared}
use k8sgpt_operator.Mutation.Cluster.{
  Call, get_mutation, update_mutation, get_result, query, Cluster,
}
use k8sgpt_operator.Mutation.Execution.{approved_mutation, Reply}
use k8sgpt_operator.Mutation.Reconcile.{
  mutation_prompt, client_of, with_status, with_proposal, propose_if_ready, handle_phase, reconcile,
}
use k8sgpt_operator.Mutation.Progress.{
  stored_after, is_patched, IsHeld, IsCured, IsProposed, decision_of, IsAdmitted, IsRolledOut,
  calls_after,
}
use k8sgpt_operator.Mutation.Progress.Rounds.{
  held_round, proposal_round, executed, execution_round, rolled_out, cured_after,
}

module _ (k : Machinery) (c : Cluster) (shared : Shared) (own : Option ℕ) (m : Mutation)
    (held : IsHeld c m) (client : ℕ) (proposal : String) (original live proposed target : Members)
    (result : Result) (gone : Fault) (connected : client_of own shared ≡ some client)
    (fresh : m.status.phase ≡ not_started) (living : m.deletion_timestamp ≡ none)
    (proposes : IsProposed k c m proposal proposed)
    (admitted : IsAdmitted k c m original live proposed) (rolled : IsRolledOut k c m target)
    (cured : IsCured c m result gone) where
  abbrev run : List Call → List Call
  run log = (reconcile k c shared own m.namespace m.name log).1

  abbrev proposed_at : List Call
  proposed_at =
      update_mutation (with_proposal k m proposal)
      ∷ query client shared.remote_backend
          (mutation_prompt result.spec.details m.spec.origin_configuration)
      ∷ get_result m.spec.result_ref.namespace m.spec.result_ref.name
      ∷ get_mutation m.namespace m.name
      ∷ []

  handled :
      (log : List Call) (m' : Mutation)
      → stored_after m log ≡ m'
      → m'.deletion_timestamp ≡ none
      → run log
        ≡ (handle_phase k c m'.status.phase m' shared.remote_backend
            (client_of own shared)
            (get_mutation m.namespace m.name ∷ log)).1
  handled log m' e h =
      ap (λ (x : Reply × List Call). x.1) (held_round k c shared own m held log m' e h)

  first_round : run [] ≡ proposed_at
  unfolding handle_phase propose_if_ready stored_after is_patched
  first_round =
      let log = get_mutation m.namespace m.name ∷ [] in
      handled [] m refl living
      ∙ ap (λ phase. (handle_phase k c phase m shared.remote_backend (client_of own shared) log).1)
          fresh
      ∙ ap (λ o. (propose_if_ready k c m shared.remote_backend o log).1) connected
      ∙ proposal_round k c shared own m held log client shared.remote_backend proposal proposed
          result gone cured proposes refl

  abbrev executed_at : List Call
  executed_at =
      executed k c shared own m held live proposed (decision_of k original live proposed)
        (with_proposal k m proposal) (get_mutation m.namespace m.name ∷ proposed_at)

  second_round : run proposed_at ≡ executed_at
  unfolding handle_phase stored_after is_patched with_proposal with_status
  second_round =
      handled proposed_at (with_proposal k m proposal) refl living
      ∙ execution_round k c shared own m held (get_mutation m.namespace m.name ∷ proposed_at)
          (with_proposal k m proposal) proposal original live proposed proposes admitted refl refl

  third_round :
      (is_patched (run executed_at) ≡ true)
      × ((stored_after m (run executed_at)).status.phase ≡ successful)
  unfolding handle_phase stored_after is_patched with_proposal with_status approved_mutation
  third_round =
      let m' = stored_after m executed_at in
      let log = get_mutation m.namespace m.name ∷ executed_at in
      let (log', ready, patched) =
        rolled_out k c shared own m held log m' target rolled refl refl refl in
      let (still, stored) =
        cured_after k c shared own m held log log' m' result gone cured refl ready patched in
      let same = handled executed_at m' refl living in
      (
        ap is_patched same ∙ still,
        ap (λ (l : List Call). (stored_after m l).status.phase) same
            ∙ ap (λ (x : Mutation). x.status.phase) stored,
      )

  -- Three reconciliations of a fresh mutation that is not being deleted, with a connection to the
  -- K8sGPT server, repair its object: where the server holds the mutation and takes its updates, the
  -- K8sGPT server proposes an image that the gate admits, the patch is taken, the rollout completes,
  -- and the finding goes with the patch, the object is patched and the mutation is successful.
  pub calls_after-successful :
      let log = calls_after k c shared own m 3 [] in
      (is_patched log ≡ true) × ((stored_after m log).status.phase ≡ successful)
  unfolding calls_after
  calls_after-successful =
      subst (λ log. (is_patched log ≡ true) × ((stored_after m log).status.phase ≡ successful))
        (sym (ap run (ap run first_round ∙ second_round))) third_round
