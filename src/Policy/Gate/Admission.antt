-- ===== src/Policy/Gate/Admission.antt =====
-- When the gate admits a proposal.
use k8sgpt_operator.Common.{
  String, ◌≡◌, ◌↔◌, inl, inr, ap, ◌∙◌, Bool, true, false, map, some, ℤ, is_empty, Bool-cases,
  Option-cases,
}
use k8sgpt_operator.Json.{Members}
use k8sgpt_operator.Kube.{Machinery}
use k8sgpt_operator.Policy.Gate.{
  live_matches_original, proposed_matches_live, replace_operation, check_changes, policy_for,
  is_owned_pod, evaluate_objects,
}
use k8sgpt_operator.Policy.Gate.Identity.{
  IsFresh, IsTargeted, changes_of, live_matches_iff, proposed_matches_iff,
}
use k8sgpt_operator.Policy.Gate.Loop.{
  IsWithin, admitted, check_changes_sound, check_changes_complete,
}

-- The reasons for which the gate admits a proposal.
pub record IsAuthorized (k : Machinery) (original live proposed : Members) (m : ℤ) : Type 0 where
  pub fresh : IsFresh k original live
  pub targeted : IsTargeted k proposed live
  pub allowed : String → Bool
  pub policy : policy_for k live ≡ some allowed
  pub unowned : is_owned_pod k live ≡ false
  pub within : IsWithin allowed (changes_of k live proposed) m

module _ (k : Machinery) (original live proposed : Members) (m : ℤ) where
  evaluate_passed :
      (allowed : String → Bool)
      → IsFresh k original live
      → IsTargeted k proposed live
      → policy_for k live ≡ some allowed
      → is_owned_pod k live ≡ false
      → evaluate_objects k original live proposed m
        ≡ check_changes allowed (changes_of k live proposed) m
  unfolding evaluate_objects
  evaluate_passed allowed fresh targeted policy unowned = rw (
    (live_matches_iff k original live).1 fresh,
    (proposed_matches_iff k proposed live).1 targeted,
    policy,
    unowned,
  )

  evaluate_sound :
      (evaluate_objects k original live proposed m).allowed ≡ true
      → IsAuthorized k original live proposed m
  unfolding evaluate_objects
  evaluate_sound h = elim (Bool-cases (is_empty (live_matches_original k original live))) [
    | inr stale ↦ cc (rw (stale, evaluate_objects) at h)
    | inl fresh ↦ elim (Bool-cases (is_empty (proposed_matches_live k proposed live))) [
      | inr other ↦ cc (rw (fresh, other) at h)
      | inl targeted ↦ elim (Option-cases (policy_for k live)) [
        | inl none_for ↦ cc (rw (fresh, targeted, none_for) at h)
        | inr (allowed, policy) ↦ elim (Bool-cases (is_owned_pod k live)) [
          | inl owned ↦ cc (rw (fresh, targeted, policy, owned) at h)
          | inr unowned ↦ record {
            fresh = (live_matches_iff k original live).0 fresh;
            targeted = (proposed_matches_iff k proposed live).0 targeted;
            allowed = allowed;
            policy = policy;
            unowned = unowned;
            within =
                check_changes_sound allowed (changes_of k live proposed) m
                  (rw (fresh, targeted, policy, unowned) at h);
          }
        ]
      ]
    ]
  ]

  evaluate_complete :
      IsAuthorized k original live proposed m
      → evaluate_objects k original live proposed m
        ≡ admitted (changes_of k live proposed) (map replace_operation (changes_of k live proposed))
  evaluate_complete a =
      evaluate_passed a.allowed a.fresh a.targeted a.policy a.unowned
      ∙ check_changes_complete a.allowed (changes_of k live proposed) m a.within

  -- The gate admits a proposal exactly when the snapshot is fresh, the proposal names the live
  -- object, a policy covers it, it is no owned Pod, and the changes are at least one, at most the
  -- limit, none of high risk, all on allowed paths and all replacements.
  pub evaluate_objects_iff :
      ((evaluate_objects k original live proposed m).allowed ≡ true)
      ↔ IsAuthorized k original live proposed m
  evaluate_objects_iff = (evaluate_sound, λ a. ap (λ d. d.allowed) (evaluate_complete a))

  -- An admitted decision reports every change and patches each of them by one replacement, in
  -- order.
  pub evaluate_objects_patch :
      (evaluate_objects k original live proposed m).allowed ≡ true
      → evaluate_objects k original live proposed m
        ≡ admitted (changes_of k live proposed) (map replace_operation (changes_of k live proposed))
  evaluate_objects_patch h = evaluate_complete (evaluate_sound h)
