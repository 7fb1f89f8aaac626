-- ===== src/Policy/Tests.antt =====
-- Runs of the gate on a Deployment, and the theorems at these inputs.
use k8sgpt_operator.Common.{String, true, false, [], ◌∷◌, map, some, ◌≡◌, refl, ◌↔◌, pos, All, Any}
use k8sgpt_operator.Json.{Json, null, str, num, arr, obj, nil, cons, end, member}
use k8sgpt_operator.Fixtures.{deployment_gvk, broken, stale, repaired, machinery}
use k8sgpt_operator.Policy.Types.{Input, Change, PatchOperation, ResourcePolicy}
use k8sgpt_operator.Policy.Paths.{
  pod_template_image_path, image_path, pod_image_path, is_high_risk, path_rules,
}
use k8sgpt_operator.Policy.Paths.Shape.{IsImageOf, image_path_iff}
use k8sgpt_operator.Policy.Paths.Workload.{IsWorkloadImage}
use k8sgpt_operator.Policy.Diff.{normalized, equal, diff, diff_rules}
use k8sgpt_operator.Policy.Diff.Located.{key, index, value_at, IsReported, diff-All-IsReported}
use k8sgpt_operator.Policy.Diff.Complete.{is_leaf_pair, Covers, no_difference_missed}
use k8sgpt_operator.Policy.Gate.{
  registered_policies, find_policy, replace_operation, evaluate_objects, evaluate, gate_rules,
}
use k8sgpt_operator.Policy.Gate.Identity.{changes_of}
use k8sgpt_operator.Policy.Gate.Loop.{admitted}
use k8sgpt_operator.Policy.Gate.Admission.{
  IsAuthorized, evaluate_objects_iff, evaluate_objects_patch,
}
use k8sgpt_operator.Policy.Gate.Rejection.{IsRejection, evaluate-IsRejection}
use k8sgpt_operator.Policy.Gate.Scope.{patch-IsWorkloadImage}

image_path_tests :
    (pod_image_path "/spec/containers/10/image" ≡ true)
    × (pod_image_path "/spec/containers/image" ≡ false)
    × (pod_image_path "/spec/containers//image" ≡ false)
    × (pod_template_image_path "/spec/containers/1/image" ≡ false)
unfolding path_rules
image_path_tests = (refl, refl, refl, refl)

is_high_risk_tests :
    (is_high_risk "/spec/containers/0/image" ≡ false)
    × (is_high_risk "/spec/containers/0/command" ≡ true)
    × (is_high_risk "/metadata/labels/app" ≡ true)
    × (is_high_risk "/spec/replicas" ≡ false)
unfolding path_rules
is_high_risk_tests = (refl, refl, refl, refl)

abbrev two_containers : String → Json
two_containers image = obj (
    member "b/c" (arr (cons (num "1") (cons (obj (member "image" (str image) end)) nil)))
      (member "a" null end))

diff_test :
    diff (two_containers "x:1") "" (two_containers "x:2")
    ≡ record { path = "/b~1c/1/image"; old = str "x:1"; new = str "x:2" } ∷ []
unfolding diff_rules
diff_test = refl

abbrev image_at : String
image_at = "/spec/template/spec/containers/0/image"

abbrev new_image : Change
new_image = record { path = image_at; old = str "ngnix:1"; new = str "nginx:1" }

-- The repair is admitted for the fresh snapshot, with one replacement.
repair_test :
    evaluate_objects machinery broken broken repaired (pos 0)
    ≡ admitted (new_image ∷ []) (replace_operation new_image ∷ [])
unfolding gate_rules
repair_test = refl

repair_allowed : (evaluate_objects machinery broken broken repaired (pos 0)).allowed ≡ true
unfolding gate_rules
repair_allowed = refl

abbrev stale_input : Input
stale_input = record {
  original = some stale;
  live = some broken;
  proposed = some repaired;
  max_changed_paths = pos 0;
}

stale_refused : (evaluate machinery stale_input).allowed ≡ false
unfolding gate_rules
stale_refused = refl

abbrev deployment_policy : ResourcePolicy
deployment_policy = record { gvk = deployment_gvk; allowed_path = pod_template_image_path }

policy_found : find_policy deployment_gvk registered_policies ≡ some deployment_policy
unfolding gate_rules
policy_found = refl

image_path_iff_example :
    (image_path "/spec/containers/" "/spec/containers/12/image" ≡ true)
    ↔ IsImageOf "/spec/containers/" "/spec/containers/12/image"
image_path_iff_example = image_path_iff "/spec/containers/" "/spec/containers/12/image"

diff-All-IsReported_example :
    All
      (IsReported (normalized machinery broken) "" (normalized machinery repaired))
      (diff (normalized machinery broken) "" (normalized machinery repaired))
diff-All-IsReported_example =
    diff-All-IsReported (normalized machinery broken) "" (normalized machinery repaired)

abbrev list_in : String → Json
list_in v = obj (member "a/b" (arr (cons null (cons (num v) nil))) end)

leaf_there :
    is_leaf_pair
      (value_at (key "a/b" ∷ index 1 ∷ []) (list_in "1"))
      (value_at (key "a/b" ∷ index 1 ∷ []) (list_in "2"))
    ≡ true
unfolding diff_rules
leaf_there = refl

differ_there :
    equal
      (value_at (key "a/b" ∷ index 1 ∷ []) (list_in "1"))
      (value_at (key "a/b" ∷ index 1 ∷ []) (list_in "2"))
    ≡ false
unfolding diff_rules
differ_there = refl

no_difference_missed_example :
    Any (Covers "" (key "a/b" ∷ index 1 ∷ [])) (diff (list_in "1") "" (list_in "2"))
no_difference_missed_example =
    no_difference_missed (key "a/b" ∷ index 1 ∷ []) (list_in "1") "" (list_in "2") leaf_there
      differ_there

evaluate_objects_iff_example :
    ((evaluate_objects machinery broken broken repaired (pos 0)).allowed ≡ true)
    ↔ IsAuthorized machinery broken broken repaired (pos 0)
evaluate_objects_iff_example = evaluate_objects_iff machinery broken broken repaired (pos 0)

evaluate_objects_patch_example :
    evaluate_objects machinery broken broken repaired (pos 0)
    ≡ admitted
        (changes_of machinery broken repaired)
        (map replace_operation (changes_of machinery broken repaired))
evaluate_objects_patch_example =
    evaluate_objects_patch machinery broken broken repaired (pos 0) repair_allowed

evaluate-IsRejection_example : IsRejection (evaluate machinery stale_input)
evaluate-IsRejection_example = evaluate-IsRejection machinery stale_input stale_refused

patch-IsWorkloadImage_example :
    All
      (λ (op : PatchOperation). (op.op ≡ "replace") × IsWorkloadImage op.path)
      (evaluate_objects machinery broken broken repaired (pos 0)).patch
patch-IsWorkloadImage_example =
    patch-IsWorkloadImage machinery broken broken repaired (pos 0) deployment_policy policy_found
      repair_allowed
