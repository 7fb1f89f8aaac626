-- ===== src/Policy/Gate/Scope.antt =====
-- How far an admitted patch reaches.
use k8sgpt_operator.Common.{
  String, ◌≡◌, refl, sym, ap, inl, inr, ◌∙◌, Bool, true, false, some, ℤ, Bool-cases, All, All-map,
  All-weaken, or_else,
}
use k8sgpt_operator.Json.{Members}
use k8sgpt_operator.Kube.{Machinery}
use k8sgpt_operator.Policy.Types.{PatchOperation, ResourcePolicy}
use k8sgpt_operator.Policy.Paths.Workload.{IsWorkloadImage, registered-IsWorkloadImage}
use k8sgpt_operator.Policy.Diff.{normalized, diff}
use k8sgpt_operator.Policy.Diff.Refl.{diff_refl}
use k8sgpt_operator.Policy.Gate.{
  registered_policies, find_policy, policy_for, replace_operation, evaluate_objects,
}
use k8sgpt_operator.Policy.Gate.Identity.{changes_of}
use k8sgpt_operator.Policy.Gate.Loop.{IsAdmissible}
use k8sgpt_operator.Policy.Gate.Admission.{evaluate_objects_iff, evaluate_objects_patch}

module _ (k : Machinery) (original live proposed : Members) (m : ℤ) where
  registered_allowed :
      (p : ResourcePolicy) (allowed : String → Bool)
      → find_policy (k.gvk live) registered_policies ≡ some p
      → policy_for k live ≡ some allowed
      → p.allowed_path ≡ allowed
  unfolding policy_for
  registered_allowed p allowed found policy =
      ap (or_else allowed) (rw (found, policy_for) at policy)

  -- Where the live object has a registered type, an admitted patch consists of replacements of
  -- container images, whatever the object's annotations say.
  pub patch-IsWorkloadImage :
      (p : ResourcePolicy)
      → find_policy (k.gvk live) registered_policies ≡ some p
      → (evaluate_objects k original live proposed m).allowed ≡ true
      → All
          (λ (op : PatchOperation). (op.op ≡ "replace") × IsWorkloadImage op.path)
          (evaluate_objects k original live proposed m).patch
  patch-IsWorkloadImage p found h =
      let a = (evaluate_objects_iff k original live proposed m).0 h in
      let same = registered_allowed p a.allowed found a.policy in
      rw (evaluate_objects_patch k original live proposed m h) (
        All-map (λ (op : PatchOperation). (op.op ≡ "replace") × IsWorkloadImage op.path)
          replace_operation (changes_of k live proposed)
          (All-weaken (IsAdmissible a.allowed)
            (λ c. ("replace" ≡ "replace") × IsWorkloadImage c.path) (changes_of k live proposed)
            (λ c (risk, path, old, new). (
              refl,
              registered-IsWorkloadImage (k.gvk live) p c.path found
                  (ap (λ f. f c.path) same ∙ path),
            ))
            a.within.admissible))

  -- A proposal that differs from the live object in the status and the bookkeeping of the
  -- metadata alone is rejected.
  pub same_normalized_rejected :
      normalized k live ≡ normalized k proposed
      → (evaluate_objects k original live proposed m).allowed ≡ false
  same_normalized_rejected same =
      elim (Bool-cases (evaluate_objects k original live proposed m).allowed) [
        | inr h ↦ h
        | inl h ↦
            let a = (evaluate_objects_iff k original live proposed m).0 h in
            absurd (
              a.within.some_change (
                ap (λ v. diff (normalized k live) "" v) (sym same)
                ∙ diff_refl (normalized k live) ""))
      ]
