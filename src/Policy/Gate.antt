-- ===== src/Policy/Gate.antt =====
-- The registry of policies and the decision.
pub mod Identity
pub mod Loop
pub mod Admission
pub mod Rejection
pub mod Scope
use k8sgpt_operator.Common.{
  ℕ, String, Bool, true, false, not, ◌&&◌, ◌||◌, List, [], ◌∷◌, ◌++◌, map, Option, none, some, ℤ,
  pos, negsuc, length, is_nil, is_empty, lookup, or_else, contains, ltb, nat_eq, ◌==◌,
  if◌then◌else◌,
}
use k8sgpt_operator.Text.{◌<>◌, has_prefix, split, trim_space, decimal}
use k8sgpt_operator.Json.{Json, Members, null}
use k8sgpt_operator.Kube.{Gvk, gvk_eq, Machinery}
use k8sgpt_operator.Policy.Types.{
  Input, Change, PatchOperation, Decision, ResourcePolicy, rejected_with_changes, rejected,
}
use k8sgpt_operator.Policy.Paths.{
  pod_image_path, pod_template_image_path, cron_job_image_path, is_high_risk,
}
use k8sgpt_operator.Policy.Diff.{normalized, diff, diff_rules}

abbrev pub allowed_paths_annotation : String
allowed_paths_annotation = "core.k8sgpt.ai/auto-remediation-allowed-paths"

abbrev policy : String → String → (String → Bool) → ResourcePolicy
policy group kind allowed_path = record {
  gvk = record { group = group; version = "v1"; kind = kind };
  allowed_path = allowed_path;
}

unfoldable pub registered_policies : List ResourcePolicy
registered_policies =
    policy "" "Pod" pod_image_path
    ∷ policy "apps" "Deployment" pod_template_image_path
    ∷ policy "apps" "DaemonSet" pod_template_image_path
    ∷ policy "apps" "StatefulSet" pod_template_image_path
    ∷ policy "apps" "ReplicaSet" pod_template_image_path
    ∷ policy "batch" "Job" pod_template_image_path
    ∷ policy "batch" "CronJob" cron_job_image_path
    ∷ []

-- registeredPolicies[gvk]
unfoldable pub find_policy : Gvk → List ResourcePolicy → Option ResourcePolicy
find_policy g [] = none
find_policy g (p ∷ ps) = if gvk_eq p.gvk g then some p else find_policy g ps

-- The loop of annotationAllowedPaths; the set of paths is a list.
unfoldable pub rooted_paths : List String → List String
rooted_paths [] = []
rooted_paths (p ∷ ps) =
    let path = trim_space p in
    let rest = rooted_paths ps in if has_prefix "/" path then path ∷ rest else rest

unfoldable pub annotation_allowed_paths : Machinery → Members → List String
annotation_allowed_paths k object =
    rooted_paths (split b',' (or_else "" (lookup allowed_paths_annotation (k.annotations object))))

unfoldable pub same_identity : Machinery → Members → Members → Bool
same_identity k a b =
    k.api_version a == k.api_version b
    && k.kind a == k.kind b
    && k.namespace a == k.namespace b
    && k.name a == k.name b

-- One of the two is not set, or they differ.
unfoldable pub is_unset_or_other : String → String → Bool
is_unset_or_other a b = is_empty a || is_empty b || not (a == b)

-- The first is set, and differs from the second.
unfoldable pub is_set_to_other : String → String → Bool
is_set_to_other a b = not (is_empty a) && not (a == b)

unfoldable pub live_matches_original : Machinery → Members → Members → String
live_matches_original k original live =
    if is_unset_or_other (k.uid original) (k.uid live)
    then "live object UID does not match the proposal snapshot"
    else if is_unset_or_other (k.resource_version original) (k.resource_version live)
    then "live object resourceVersion does not match the proposal snapshot"
    else if not (same_identity k original live)
    then "live object identity does not match the proposal snapshot"
    else ""

unfoldable pub proposed_matches_live : Machinery → Members → Members → String
proposed_matches_live k proposed live =
    if not (same_identity k proposed live)
    then "proposed object must exactly match target apiVersion, kind, namespace, and name"
    else if is_set_to_other (k.uid proposed) (k.uid live)
    then "proposed object UID does not match target"
    else if is_set_to_other (k.resource_version proposed) (k.resource_version live)
    then "proposed object resourceVersion does not match target"
    else if not (k.generate_name proposed == k.generate_name live)
    then "proposed object generateName does not match target"
    else ""

-- `value == nil` on an `any`
abbrev pub is_null : Json → Bool
is_null null = true
is_null _ = false

abbrev pub replace_operation : Change → PatchOperation
replace_operation c = record { op = "replace"; path = c.path; value = c.new }

-- The loop over the changes, with the patch so far.
unfoldable pub admit_changes :
    (String → Bool) → List Change → List Change → List PatchOperation → Decision
admit_changes allowed all [] patch = record {
  allowed = true;
  reasons = [];
  changes = all;
  patch = patch;
}
admit_changes allowed all (c ∷ cs) patch =
    let rest = admit_changes allowed all cs (patch ++ replace_operation c ∷ []) in
    if is_high_risk c.path
    then rejected_with_changes all ("high-risk path is forbidden: " <> c.path)
    else if not (allowed c.path)
    then rejected_with_changes all ("path is not allowlisted: " <> c.path)
    else if is_null c.old || is_null c.new
    then rejected_with_changes all ("add/remove operation is forbidden: " <> c.path)
    else rest

-- `limit` after the default of one path; `none` where it is negative.
abbrev pub limit_of : ℤ → Option ℕ
limit_of (pos n) = some (if nat_eq n 0 then 1 else n)
limit_of (negsuc n) = none

unfoldable pub check_changes : (String → Bool) → List Change → ℤ → Decision
check_changes allowed changes max_changed_paths =
    if is_nil changes
    then rejected_with_changes changes "proposal makes no semantic change"
    else elim (limit_of max_changed_paths) [
      | none ↦ rejected_with_changes changes "max changed paths must not be negative"
      | some limit ↦
          if ltb limit (length changes)
          then rejected_with_changes changes (
              "proposal changes "
              <> decimal (length changes)
              <> " paths; maximum is "
              <> decimal limit)
          else admit_changes allowed changes changes []
    ]

-- The registered policy, or the one that the object's own annotation gives.
unfoldable pub policy_for : Machinery → Members → Option (String → Bool)
policy_for k live = elim (find_policy (k.gvk live) registered_policies) [
  | some p ↦ some p.allowed_path
  | none ↦
      let paths = annotation_allowed_paths k live in
      if is_nil paths then none else some (λ path. contains path paths)
]

unfoldable pub is_owned_pod : Machinery → Members → Bool
is_owned_pod k live =
    gvk_eq (k.gvk live) (record { group = ""; version = "v1"; kind = "Pod" })
    && not (is_nil (k.owner_references live))

unfoldable pub evaluate_objects : Machinery → Members → Members → Members → ℤ → Decision
evaluate_objects k original live proposed max_changed_paths =
    if not (is_empty (live_matches_original k original live))
    then rejected (live_matches_original k original live)
    else if not (is_empty (proposed_matches_live k proposed live))
    then rejected (proposed_matches_live k proposed live)
    else elim (policy_for k live) [
      | none ↦ rejected (
          "no remediation policy registered for GVK "
          <> k.gvk_text (k.gvk live)
          <> "; set "
          <> allowed_paths_annotation
          <> " to explicit JSON Pointer paths")
      | some allowed ↦
          if is_owned_pod k live
          then rejected "owned Pods are not remediated directly; target the owning workload instead"
          else check_changes allowed (diff (normalized k live) "" (normalized k proposed))
              max_changed_paths
    ]

unfoldable pub evaluate_pointers :
    Machinery → Option Members → Option Members → Option Members → ℤ → Decision
evaluate_pointers k (some original) (some live) (some proposed) limit =
    evaluate_objects k original live proposed limit
evaluate_pointers k _ _ _ limit = rejected "original, live, and proposed objects are required"

-- Evaluate
unfoldable pub evaluate : Machinery → Input → Decision
evaluate k i = evaluate_pointers k i.original i.live i.proposed i.max_changed_paths

-- decisionPaths of conversions/object_to_execution.go
unfoldable pub decision_paths : Decision → List String
decision_paths d = map (λ c. c.path) d.changes

-- What a run of the gate opens.
unfoldable pub gate_rules : Unit {0}
unfolding diff_rules contains registered_policies find_policy rooted_paths annotation_allowed_paths
    same_identity is_unset_or_other is_set_to_other live_matches_original proposed_matches_live
    admit_changes check_changes policy_for is_owned_pod evaluate_objects evaluate_pointers evaluate
    decision_paths
gate_rules = tt
