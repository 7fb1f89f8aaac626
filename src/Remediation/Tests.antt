-- ===== src/Remediation/Tests.antt =====
-- Runs of the conversion of findings, and the theorems at these inputs.
use k8sgpt_operator.Common.{
  String, true, [], ◌∷◌, Option, some, Outcome, ok, lookup, ◌↔◌, ◌≡◌, refl, Any,
}
use k8sgpt_operator.Text.{trim_space}
use k8sgpt_operator.Kube.{ObjectReference, Machinery}
use k8sgpt_operator.Api.K8sgpt.{K8sgpt}
use k8sgpt_operator.Api.Result.{TargetReference, in_progress, Result}
use k8sgpt_operator.Fixtures.{deployment_gvk, machinery, owned_machinery, cluster, reference}
use k8sgpt_operator.Fixtures.Configs.{owner, k8sgpt_with, finding}
use k8sgpt_operator.Effect.Returns.{Returns}
use k8sgpt_operator.Effect.Calls.{CallsAtMost}
use k8sgpt_operator.Mutation.Rollout.{from_config}
use k8sgpt_operator.Remediation.Target.{Target, selectors_of, auto_remediation_resource_enabled}
use k8sgpt_operator.Remediation.Eligible.{
  EligibleResource, resolve_owning_workload, load_target, results_to_eligible_resources,
}
use k8sgpt_operator.Remediation.Dedup.{merge_all, add_owners, merge, deduplicate}
use k8sgpt_operator.Remediation.Enabled.{
  Spells, auto_remediation_resource_enabled_iff, AllOfEnabled,
  results_to_eligible_resources-IsOfEnabled,
}
use k8sgpt_operator.Remediation.Walk.{
  IsResolved, resolve_owning_workload-IsResolved, resolve_owning_workload-CallsAtMost,
}
use k8sgpt_operator.Remediation.Reads.{FoundExact, load_target-IsExact}

abbrev config : Option K8sgpt
config = some (k8sgpt_with (" apps/Deployment " ∷ []))

abbrev result_reference : Result → Outcome ObjectReference
result_reference r = ok (reference "Result")

auto_remediation_resource_enabled_iff_example :
    (auto_remediation_resource_enabled machinery config deployment_gvk ≡ true)
    ↔ Any (λ s. Spells machinery deployment_gvk (trim_space s)) (selectors_of config)
auto_remediation_resource_enabled_iff_example =
    auto_remediation_resource_enabled_iff machinery config deployment_gvk

results_to_eligible_resources-IsOfEnabled_example :
    Returns (AllOfEnabled machinery config (cluster in_progress)) (
      results_to_eligible_resources machinery config
        (cluster in_progress)
        result_reference
        (finding "Deployment" "shop/web" ∷ []))
results_to_eligible_resources-IsOfEnabled_example =
    results_to_eligible_resources-IsOfEnabled machinery config (cluster in_progress)
      result_reference (finding "Deployment" "shop/web" ∷ [])

abbrev pod_target : Target
pod_target = record {
  gvk = record { group = ""; version = "v1"; kind = "Pod" };
  namespace = "shop";
  name = "web-1";
}

-- Every object has a Deployment as its controller.
abbrev deployed_by : Machinery
deployed_by = owned_machinery (owner "Deployment" "web")

resolve_owning_workload-IsResolved_example :
    Returns
      (IsResolved deployed_by config (cluster in_progress) pod_target)
      (resolve_owning_workload deployed_by config (cluster in_progress) pod_target)
resolve_owning_workload-IsResolved_example =
    resolve_owning_workload-IsResolved deployed_by config (cluster in_progress) pod_target

-- An object that owns itself.
abbrev cyclic : Machinery
cyclic = owned_machinery (owner "ReplicaSet" "web")

resolve_owning_workload-CallsAtMost_example :
    CallsAtMost 8 (resolve_owning_workload cyclic config (cluster in_progress) pod_target)
resolve_owning_workload-CallsAtMost_example =
    resolve_owning_workload-CallsAtMost cyclic config (cluster in_progress) pod_target

abbrev deployment_target : Target
deployment_target = record { gvk = deployment_gvk; namespace = "shop"; name = "web" }

-- A finding that names the object and its version.
abbrev exact : TargetReference
exact = record {
  api_version = "apps/v1";
  kind = "Deployment";
  namespace = "shop";
  name = "web";
  uid = "u1";
  resource_version = "7";
}

abbrev exact_finding : Result
exact_finding = record (finding "Deployment" "shop/web") {
  spec = record (finding "Deployment" "shop/web").spec { target_ref = some exact };
}

load_target-IsExact_example : Returns (FoundExact machinery config (cluster in_progress) exact) (
    load_target machinery config
      (cluster in_progress)
      result_reference
      exact_finding
      deployment_gvk
      deployment_target)
load_target-IsExact_example =
    load_target-IsExact machinery config (cluster in_progress) result_reference exact_finding
      deployment_gvk deployment_target exact refl refl

abbrev resource : (kind : String) → (namespace : String) → EligibleResource
resource kind namespace = record {
  result_ref = reference "Result";
  object_ref = record (reference kind) { namespace = namespace };
  gvk = "v1";
  origin_configuration = "broken";
}

-- Pods of two namespaces whose owners have one name are taken for one.
namespaces_merged_test :
    deduplicate cyclic (resource "Pod" "shop" ∷ resource "Pod" "bank" ∷ [])
    ≡ resource "Pod" "shop" ∷ []
unfolding deduplicate merge_all merge add_owners from_config lookup
namespaces_merged_test = refl
