-- ===== src/Mutation/Tests.antt =====
-- Reconciliations of a mutation on a concrete server, and the theorems at these inputs.
use k8sgpt_operator.Common.{ℕ, String, List, [], ◌∷◌, ◌++◌, none, some, ok, pos, ◌≡◌, refl, All}
use k8sgpt_operator.Json.{Json, str, obj, end, member, get, find, put}
use k8sgpt_operator.Api.Result.{in_progress}
use k8sgpt_operator.Api.Mutation.{Mutation}
use k8sgpt_operator.Shared.{Shared, unset}
use k8sgpt_operator.Fixtures.{broken, repaired, machinery, mutation_in, cluster}
use k8sgpt_operator.Policy.Types.{Decision}
use k8sgpt_operator.Policy.Gate.{evaluate, gate_rules}
use k8sgpt_operator.Effect.{◌>>=◌}
use k8sgpt_operator.Effect.Emits.{Emits}
use k8sgpt_operator.Mutation.Cluster.{
  Call, Cluster, get_mutation, get_object, patch_dry_run, patch_object, read_clock, update_mutation,
}
use k8sgpt_operator.Mutation.Proposal.{with_image, set_first, parse_yaml_proposal}
use k8sgpt_operator.Mutation.Execution.{
  unstructured, guarded_patch, approved_mutation, unless_refused, record_success, carry_out,
  apply_decision, judge, resource_to_execution,
}
use k8sgpt_operator.Mutation.Reconcile.{
  released, release, release_finalizer, execute_target, handle_phase, reconcile_fetched, reconcile,
}
use k8sgpt_operator.Mutation.Rollout.{from_config}
use k8sgpt_operator.Mutation.Steps.{IsStepOf, AnswersPhase, reconcile-IsStepOf}
use k8sgpt_operator.Mutation.Authorized.{PatchesAuthorized, resource_to_execution-PatchesAuthorized}
use k8sgpt_operator.Effect.After.{InOrder}
use k8sgpt_operator.Mutation.Order.{IsDue, resource_to_execution-InOrder}
use k8sgpt_operator.Mutation.Queries.{IsFor, reconcile-IsFor}

abbrev waiting : Cluster
waiting = cluster in_progress

abbrev running : Mutation
running = mutation_in in_progress

-- A mutation that is being deleted while another controller holds it too.
abbrev leaving : Mutation
leaving = record running {
  finalizers = some ("mutation.finalizer.k8sgpt.ai" ∷ "example.com/audit" ∷ []);
  deletion_timestamp = some 5;
}

abbrev leaving_in : Cluster
leaving_in = record waiting { mutation = λ log namespace name. ok leaving }

answers : AnswersPhase leaving_in
answers log m m' e = cc

reconcile-IsStepOf_example :
    (new : List Call) × ((reconcile machinery leaving_in unset none "k8sgpt" "fix" []).1
      ≡ new ++ get_mutation "k8sgpt" "fix" ∷ [])
    × All (IsStepOf leaving) new
reconcile-IsStepOf_example =
    reconcile-IsStepOf machinery leaving_in unset none leaving "k8sgpt" "fix" [] answers refl

resource_to_execution-PatchesAuthorized_example :
    Emits
      (PatchesAuthorized machinery waiting running repaired)
      (resource_to_execution machinery waiting running (unstructured repaired))
resource_to_execution-PatchesAuthorized_example =
    resource_to_execution-PatchesAuthorized machinery waiting running repaired

resource_to_execution-InOrder_example :
    InOrder
      (IsDue waiting)
      (resource_to_execution machinery waiting running (unstructured repaired) []).1
resource_to_execution-InOrder_example =
    resource_to_execution-InOrder machinery waiting running (unstructured repaired) [] tt

-- The mutation controller after a K8sGPT has been reconciled.
abbrev shared : Shared
shared = record unset { server_query_client = some 5; remote_backend = "openai" }

reconcile-IsFor_example :
    ((client : ℕ)
      → Emits
          (IsFor machinery waiting (some client) shared.remote_backend)
          (reconcile machinery waiting shared (some client) "k8sgpt" "fix"))
    × Emits
        (IsFor machinery waiting shared.server_query_client shared.remote_backend)
        (reconcile machinery waiting shared none "k8sgpt" "fix")
reconcile-IsFor_example = reconcile-IsFor machinery waiting shared "k8sgpt" "fix"

abbrev containers_with : String → List Json
containers_with image =
    obj (member "name" (str "log") (member "image" (str "log:1") end))
    ∷ obj (member "name" (str "app") (member "image" (str image) end))
    ∷ []

app_image_set :
    set_first "app" "nginx:1" (containers_with "ngnix:1") ≡ some (containers_with "nginx:1")
unfolding set_first with_image get find put
app_image_set = refl

abbrev new_image : Decision
new_image = evaluate machinery (record {
  original = some broken;
  live = some broken;
  proposed = some repaired;
  max_changed_paths = pos 0;
})

-- A mutation in progress is read, its target is read and patched twice, the dry run first, and the
-- mutation is stored as completed.
reconcile_test :
    (reconcile machinery waiting unset none "k8sgpt" "fix" []).1
    ≡ update_mutation (approved_mutation running new_image 100)
      ∷ read_clock
      ∷ patch_object broken (guarded_patch machinery broken new_image)
      ∷ patch_dry_run broken (guarded_patch machinery broken new_image)
      ∷ get_object (record { group = "apps"; version = "v1"; kind = "Deployment" }) "shop" "web"
      ∷ get_mutation "k8sgpt" "fix"
      ∷ []
unfolding reconcile reconcile_fetched release_finalizer release released handle_phase execute_target
    from_config resource_to_execution judge apply_decision carry_out unless_refused record_success
    parse_yaml_proposal approved_mutation gate_rules ◌>>=◌
reconcile_test = refl
