-- ===== src/Mutation/Reconcile.antt =====
-- internal/controller/mutation/mutation_controller.go
use k8sgpt_operator.Common.{
  ℕ, ◌*◌, String, Bool, true, not, List, [], ◌∷◌, Option, none, some, is_some, Outcome, ok, err,
  Fault, is_empty, ◌==◌, if◌then◌else◌,
}
use k8sgpt_operator.Text.{◌<>◌}
use k8sgpt_operator.Kube.{with_kind, Machinery}
use k8sgpt_operator.Api.Result.{
  Phase, not_started, in_progress, completed, successful, pending, aborted, Result,
}
use k8sgpt_operator.Api.Mutation.{Mutation}
use k8sgpt_operator.Shared.{Shared}
use k8sgpt_operator.Effect.{Effect, pure, ◌>>=◌, on_outcome}
use k8sgpt_operator.Mutation.Cluster.{
  Call, Cluster, fetch_mutation, store_mutation, store_status, fetch_result, fetch_object, ask,
}
use k8sgpt_operator.Mutation.Proposal.{wrap, image_selection_proposal}
use k8sgpt_operator.Mutation.Execution.{
  Reply, unstructured, error_requeue_time, not_started_requeue_time, completed_requeue_time,
  successful_requeue_time, pending_requeue_time, again, retry, done, finish_update,
  resource_to_execution,
}
use k8sgpt_operator.Mutation.Rollout.{from_config, deployment_ready, is_deployment}

abbrev pub mutation_finalizer : String
mutation_finalizer = "mutation.finalizer.k8sgpt.ai"

-- removeFinalizer
unfoldable pub remove_finalizer : List String → String → List String
remove_finalizer [] target = []
remove_finalizer (f ∷ fs) target =
    let rest = remove_finalizer fs target in if not (f == target) then f ∷ rest else rest

-- prompts.Mutation_prompt with its two arguments
unfoldable pub mutation_prompt : String → String → String
mutation_prompt details manifest =
    "Choose a safe image-only repair for this Kubernetes finding: " <> details <> "\n\nManifest:\n"
    <> manifest
    <> "\n\nReturn exactly one JSON object and nothing else: {\"container\":\"the existing container or init-container name\",\"image\":\"the corrected image reference\"}. Do not use Markdown, prose, a YAML manifest, or additional keys. The container must already exist and only its image may change."

unfoldable pub with_status : Mutation → Phase → String → Mutation
with_status m phase message = record m {
  status = record {
    phase = phase;
    message = message;
    policy_decision = m.status.policy_decision;
    changed_paths = m.status.changed_paths;
    applied_at = m.status.applied_at;
  };
}

-- The branch of the phase not started where the response is no proposal.
unfoldable pub with_invalid_proposal : Mutation → Fault → Mutation
with_invalid_proposal m e = record m {
  status = record {
    phase = aborted;
    message = "Invalid image selection proposal: " <> e.message;
    policy_decision = "rejected";
    changed_paths = m.status.changed_paths;
    applied_at = m.status.applied_at;
  };
}

unfoldable pub with_proposal : Machinery → Mutation → String → Mutation
with_proposal k m proposal =
    let spec = m.spec in
    record (with_status m in_progress "In Progress") {
      spec = record {
        similarity_score = k.similarity_text spec.origin_configuration proposal;
        resource_gvk = spec.resource_gvk;
        resource_ref = spec.resource_ref;
        result_ref = spec.result_ref;
        origin_configuration = spec.origin_configuration;
        target_configuration = proposal;
      };
    }

-- The finalizer goes where the object is being deleted and its slice is not nil.
unfoldable pub released : Mutation → Option Mutation
released m = elim m.finalizers [
  | none ↦ none
  | some fs ↦
      if is_some m.deletion_timestamp
      then some (record m { finalizers = some (remove_finalizer fs mutation_finalizer) })
      else none
]

-- r.ServerQueryClient, which the phase not started sets from the shared variable if it is nil
unfoldable pub client_of : Option ℕ → Shared → Option ℕ
client_of none shared = shared.server_query_client
client_of (some client) shared = some client

-- client.IgnoreNotFound(err)
abbrev pub ignore_not_found : Fault → Option Fault
ignore_not_found e = if e.is_not_found then none else some e

module _ (k : Machinery) (c : Cluster) where
  unfoldable pub target_ready : Mutation → Effect Call (Outcome Bool)
  target_ready m =
      on_outcome (k.parse_group_version m.spec.resource_gvk)
        (λ e. pure (err (wrap "parse target GVK: " e)))
        λ gv.
          let g = with_kind gv m.spec.resource_ref.kind in
          if not (is_deployment g) then pure (ok true) else do
            fetched ← fetch_object c g m.spec.resource_ref.namespace m.spec.resource_ref.name
            on_outcome fetched (λ e. pure (err e))
                λ target. pure (deployment_ready k m.spec.resource_ref.uid target)

  -- An update, and the reply where it succeeds.
  unfoldable pub store_and_reply : Mutation → Reply → Effect Call Reply
  store_and_reply m r = do stored ← store_mutation c m; pure (finish_update stored r)

  -- The branch of doesResultExist on the lookup of the result.
  unfoldable pub result_looked_up : Mutation → Outcome Result → Effect Call Reply
  result_looked_up m (ok result) =
      store_and_reply (with_status m pending "Pending") (again pending_requeue_time)
  result_looked_up m (err e) =
      if not e.is_not_found
      then pure (retry e)
      else store_and_reply (with_status m successful "Successful") (again completed_requeue_time)

  unfoldable pub after_rollout : Mutation → Bool → Effect Call Reply
  after_rollout m ready =
      if not ready
      then store_and_reply (with_status m pending "Waiting for target rollout")
          (again pending_requeue_time)
      else do
        fetched ← fetch_result c m.spec.result_ref.namespace m.spec.result_ref.name
        result_looked_up m fetched

  unfoldable pub does_result_exist : Mutation → Effect Call Reply
  does_result_exist m = do
    ready ← target_ready m
    on_outcome ready (λ e. pure (retry e)) (after_rollout m)

  unfoldable pub no_known_fix : Mutation → Effect Call Reply
  no_known_fix m = do
    stored ← store_status c (with_status m m.status.phase "No known fix")
    pure (finish_update stored (again (error_requeue_time * 10)))

  -- The last lines of the phase not started.
  unfoldable pub use_response : Mutation → String → Effect Call Reply
  use_response m response =
      if response == "{null}"
      then no_known_fix m
      else on_outcome (image_selection_proposal k m.spec.origin_configuration response)
          (λ e. store_and_reply (with_invalid_proposal m e) done)
          (λ proposal.
            store_and_reply (with_proposal k m proposal) (again not_started_requeue_time))

  unfoldable pub propose : Mutation → String → ℕ → Effect Call Reply
  propose m backend client = do
    fetched ← fetch_result c m.spec.result_ref.namespace m.spec.result_ref.name
    on_outcome fetched (λ e. pure (record { requeue_after = 0; error = some e }))
        λ result. do
          answer ←
              ask c client backend (mutation_prompt result.spec.details m.spec.origin_configuration)
          on_outcome answer (λ e. pure (again error_requeue_time)) (use_response m)

  unfoldable pub propose_if_ready : Mutation → String → Option ℕ → Effect Call Reply
  propose_if_ready m backend none = pure (again error_requeue_time)
  propose_if_ready m backend (some client) = propose m backend client

  unfoldable pub execute_target : Mutation → Effect Call Reply
  execute_target m =
      if is_empty m.spec.target_configuration
      then pure (again error_requeue_time)
      else on_outcome
          (from_config k m.spec.resource_ref.kind m.spec.resource_gvk m.spec.target_configuration
            m.spec.resource_ref.name m.spec.resource_ref.namespace)
          (λ e. pure (retry e)) (λ o. resource_to_execution k c m (unstructured o))

  -- The switch over the phase.
  unfoldable pub handle_phase : Phase → Mutation → String → Option ℕ → Effect Call Reply
  handle_phase not_started m backend client = propose_if_ready m backend client
  handle_phase in_progress m backend client = execute_target m
  handle_phase completed m backend client = does_result_exist m
  handle_phase successful m backend client = pure (again successful_requeue_time)
  handle_phase pending m backend client = does_result_exist m
  handle_phase _ m backend client = pure done

  unfoldable pub release : Mutation → Option Mutation → Effect Call (Outcome Mutation)
  release m none = pure (ok m)
  release m (some m') = store_mutation c m'

  unfoldable pub release_finalizer : Mutation → Effect Call (Outcome Mutation)
  release_finalizer m = release m (released m)

  -- Reconcile after the mutation was read.
  unfoldable pub reconcile_fetched : Shared → Option ℕ → Mutation → Effect Call Reply
  reconcile_fetched shared own m = do
    kept ← release_finalizer m
    on_outcome kept (λ e. pure (retry e))
        λ m'. handle_phase m'.status.phase m' shared.remote_backend (client_of own shared)

  -- Reconcile, given the shared variables and the reconciler's own client.
  unfoldable pub reconcile : Shared → Option ℕ → (namespace name : String) → Effect Call Reply
  reconcile shared own namespace name = do
    fetched ← fetch_mutation c namespace name
    on_outcome fetched (λ e. pure (record { requeue_after = 0; error = ignore_not_found e }))
        (reconcile_fetched shared own)
