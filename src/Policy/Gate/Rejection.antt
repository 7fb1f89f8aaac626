-- ===== src/Policy/Gate/Rejection.antt =====
-- What a rejection holds.
use k8sgpt_operator.Common.{
  String, ◌≡◌, ◌≢◌, inl, inr, refl, Bool, true, false, List, [], ◌∷◌, ◌++◌, Option, some, ℤ, length,
  ltb, if◌then◌else◌, is_empty, Bool-cases, Option-cases, arith,
}
use k8sgpt_operator.Json.{Members}
use k8sgpt_operator.Kube.{Machinery}
use k8sgpt_operator.Policy.Types.{Input, Change, PatchOperation, Decision, rejected_with_changes}
use k8sgpt_operator.Policy.Diff.{normalized, diff}
use k8sgpt_operator.Policy.Gate.{
  live_matches_original, proposed_matches_live, replace_operation, admit_changes, limit_of,
  check_changes, policy_for, is_owned_pod, evaluate_objects, evaluate_pointers, evaluate,
}
use k8sgpt_operator.Policy.Gate.Loop.{check_changes_negative, check_changes-some}

-- A rejection gives a reason and nothing to patch.
abbrev pub IsRejection : Decision → Type 0
IsRejection d = (d.reasons ≢ []) × (d.patch ≡ [])

admit_changes-IsRejection :
    (allowed : String → Bool) (all cs : List Change) (patch : List PatchOperation)
    → (admit_changes allowed all cs patch).allowed ≡ false
    → IsRejection (admit_changes allowed all cs patch)
unfolding admit_changes
admit_changes-IsRejection allowed all [] patch h = cc
admit_changes-IsRejection allowed all (c ∷ cs) patch h =
    ground (arith, admit_changes-IsRejection allowed all cs (patch ++ replace_operation c ∷ []))

-- The test `b` rejects, or leaves the decision to the rest.
reject_if :
    (b : Bool) (d e : Decision)
    → IsRejection d
    → (e.allowed ≡ false → IsRejection e)
    → (if b then d else e).allowed ≡ false
    → IsRejection (if b then d else e)
reject_if true d e r f h = r
reject_if false d e r f h = f h

IsRejection-rejected :
    (changes : List Change) (reason : String) → IsRejection (rejected_with_changes changes reason)
IsRejection-rejected changes reason = ((λ z. cc), refl)

check_changes-IsRejection :
    (allowed : String → Bool) (changes : List Change) (m : ℤ)
    → (check_changes allowed changes m).allowed ≡ false
    → IsRejection (check_changes allowed changes m)
check_changes-IsRejection allowed [] m h = (unfold check_changes in ((λ z. cc), refl))
check_changes-IsRejection allowed (c ∷ cs) m h = elim (Option-cases (limit_of m)) [
  | inl negative ↦
      rw (check_changes_negative allowed c cs m negative) (IsRejection-rejected (c ∷ cs) _)
  | inr (limit, e) ↦ rw (check_changes-some allowed c cs m limit e) (
      reject_if (ltb limit (length (c ∷ cs))) _ _ (IsRejection-rejected (c ∷ cs) _)
        (admit_changes-IsRejection allowed (c ∷ cs) (c ∷ cs) [])
        (rw (check_changes-some allowed c cs m limit e) at h))
]

evaluate_objects-IsRejection :
    (k : Machinery) (original live proposed : Members) (m : ℤ)
    → (evaluate_objects k original live proposed m).allowed ≡ false
    → IsRejection (evaluate_objects k original live proposed m)
unfolding evaluate_objects
evaluate_objects-IsRejection k original live proposed m =
    elim (Bool-cases (is_empty (live_matches_original k original live))) [
      | inr stale ↦ rw (stale, evaluate_objects) (λ h. IsRejection-rejected [] _)
      | inl fresh ↦ elim (Bool-cases (is_empty (proposed_matches_live k proposed live))) [
        | inr other ↦ rw (fresh, other) (λ h. IsRejection-rejected [] _)
        | inl targeted ↦ elim (Option-cases (policy_for k live)) [
          | inl none_for ↦ rw (fresh, targeted, none_for) (λ h. IsRejection-rejected [] _)
          | inr (allowed, policy) ↦ elim (Bool-cases (is_owned_pod k live)) [
            | inl owned ↦ rw (fresh, targeted, policy, owned) (λ h. IsRejection-rejected [] _)
            | inr unowned ↦
                rw (fresh, targeted, policy, unowned)
                  (check_changes-IsRejection allowed
                    (diff (normalized k live) "" (normalized k proposed)) m)
          ]
        ]
      ]
    ]

evaluate_pointers-IsRejection :
    (k : Machinery) (original live proposed : Option Members) (m : ℤ)
    → (evaluate_pointers k original live proposed m).allowed ≡ false
    → IsRejection (evaluate_pointers k original live proposed m)
unfolding evaluate_pointers
evaluate_pointers-IsRejection k (some original) (some live) (some proposed) m h =
    evaluate_objects-IsRejection k original live proposed m h
evaluate_pointers-IsRejection k _ _ _ m h = IsRejection-rejected [] _

-- Whatever the three pointers are, a proposal that is not admitted comes back with a reason and
-- an empty patch.
pub evaluate-IsRejection :
    (k : Machinery) (i : Input) → (evaluate k i).allowed ≡ false → IsRejection (evaluate k i)
unfolding evaluate
evaluate-IsRejection k i h =
    evaluate_pointers-IsRejection k i.original i.live i.proposed i.max_changed_paths h
