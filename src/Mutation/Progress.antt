-- ===== src/Mutation/Progress.antt =====
-- The reconciliations of one mutation on a cluster whose calls succeed.
pub mod Rounds
pub mod Cured
use k8sgpt_operator.Common.{
  ℕ, zero, suc, String, Bool, true, false, not, List, [], ◌∷◌, Option, none, some, Outcome, ok, err,
  Fault, ◌≡◌, refl, ap, ◌∙◌, sym, inl, inr, Bool-cases, is_empty, pos, ◌==◌,
}
use k8sgpt_operator.Json.{Members}
use k8sgpt_operator.Kube.{GroupVersion, with_kind, Machinery}
use k8sgpt_operator.Api.Result.{not_started, in_progress, completed, successful, Result}
use k8sgpt_operator.Api.Mutation.{Mutation}
use k8sgpt_operator.Shared.{Shared}
use k8sgpt_operator.Policy.Types.{Decision}
use k8sgpt_operator.Policy.Gate.{evaluate}
use k8sgpt_operator.Effect.{◌>>=◌}
use k8sgpt_operator.Mutation.Cluster.{
  Call, get_mutation, update_mutation, update_mutation_status, get_result, get_object,
  patch_dry_run, patch_object, query, read_clock, Cluster,
}
use k8sgpt_operator.Mutation.Proposal.{parse_yaml_proposal, image_selection_proposal}
use k8sgpt_operator.Mutation.Execution.{
  Reply, unstructured, guarded_patch, approved_mutation, carry_out, unless_refused, record_success,
  apply_decision, judge, resource_to_execution,
}
use k8sgpt_operator.Mutation.Reconcile.{
  released, release, release_finalizer, client_of, with_status, with_proposal, target_ready,
  store_and_reply, result_looked_up, after_rollout, does_result_exist, use_response, propose,
  propose_if_ready, execute_target, handle_phase, reconcile_fetched, reconcile,
}
use k8sgpt_operator.Mutation.Rollout.{is_deployment, from_config, deployment_ready}

-- The mutation that the server holds after the calls, `m` before all of them.
unfoldable pub stored_after : Mutation → List Call → Mutation
stored_after m [] = m
stored_after m (update_mutation m' ∷ log) = m'
stored_after m (update_mutation_status m' ∷ log) = m'
stored_after m (_ ∷ log) = stored_after m log

-- Was an object patched for good?
unfoldable pub is_patched : List Call → Bool
is_patched [] = false
is_patched (patch_object o ops ∷ log) = true
is_patched (_ ∷ log) = is_patched log

-- The server holds the mutation and takes every update of it.
pub record IsHeld (c : Cluster) (m : Mutation) : Type 0 where
  pub read : (log : List Call) → c.mutation log m.namespace m.name ≡ ok (stored_after m log)
  pub taken : (log : List Call) (m' : Mutation) → c.update log m' ≡ ok m'

-- The finding is there until the object is patched, and gone afterwards.
pub record IsCured (c : Cluster) (m : Mutation) (result : Result) (gone : Fault) : Type 0 where
  pub found :
      (log : List Call)
      → is_patched log ≡ false
      → c.result log m.spec.result_ref.namespace m.spec.result_ref.name ≡ ok result
  pub missing :
      (log : List Call)
      → is_patched log ≡ true
      → c.result log m.spec.result_ref.namespace m.spec.result_ref.name ≡ err gone
  pub is_missing : gone.is_not_found ≡ true

-- The K8sGPT server answers with a selection that the manifest allows, and its manifest decodes.
pub record IsProposed (k : Machinery) (c : Cluster) (m : Mutation) (proposal : String)
    (proposed : Members) : Type 0 where
  pub response : String
  pub answered :
      (log : List Call) (client : ℕ) (backend prompt : String)
      → c.response log client backend prompt ≡ ok response
  pub known : (response == "{null}") ≡ false
  pub selected : image_selection_proposal k m.spec.origin_configuration response ≡ ok proposal
  pub given : is_empty proposal ≡ false
  pub decoded :
      from_config k m.spec.resource_ref.kind m.spec.resource_gvk proposal m.spec.resource_ref.name
        m.spec.resource_ref.namespace
      ≡ ok proposed

-- What the gate decides for the snapshot, the live object and the proposal.
abbrev pub decision_of : Machinery → (original live proposed : Members) → Decision
decision_of k original live proposed = evaluate k (record {
  original = some original;
  live = some live;
  proposed = some proposed;
  max_changed_paths = pos 0;
})

-- The gate admits the proposal, and the server takes the patch.
pub record IsAdmitted (k : Machinery) (c : Cluster) (m : Mutation)
    (original live proposed : Members) : Type 0 where
  pub parsed : parse_yaml_proposal k m.spec.origin_configuration ≡ ok original
  pub read :
      (log : List Call)
      → is_patched log ≡ false
      → c.object log (k.gvk proposed) (k.namespace proposed) (k.name proposed) ≡ ok live
  pub allowed : (decision_of k original live proposed).allowed ≡ true
  pub dry :
      (log : List Call)
      → c.dry_run log live (guarded_patch k live (decision_of k original live proposed)) ≡ none
  pub taken :
      (log : List Call)
      → c.patch log live (guarded_patch k live (decision_of k original live proposed)) ≡ none

-- After the patch the target, if it is a Deployment, is the same one and completely rolled out.
pub record IsRolledOut (k : Machinery) (c : Cluster) (m : Mutation) (target : Members)
    : Type 0 where
  pub version : GroupVersion
  pub typed : k.parse_group_version m.spec.resource_gvk ≡ ok version
  pub read :
      (log : List Call)
      → is_patched log ≡ true
      → c.object log
          (with_kind version m.spec.resource_ref.kind)
          m.spec.resource_ref.namespace
          m.spec.resource_ref.name
        ≡ ok target
  pub ready : deployment_ready k m.spec.resource_ref.uid target ≡ ok true

module _ (k : Machinery) (c : Cluster) (shared : Shared) (own : Option ℕ) (m : Mutation) where
  -- The calls after so many reconciliations of the mutation.
  unfoldable pub calls_after : ℕ → List Call → List Call
  calls_after zero log = log
  calls_after (suc n) log = calls_after n (reconcile k c shared own m.namespace m.name log).1
