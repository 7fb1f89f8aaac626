-- ===== src/Remediation/Reads.antt =====
-- The conversion of findings only reads, and an exact reference is held to the object read.
use k8sgpt_operator.Common.{
  not, ℕ, zero, suc, String, true, false, List, [], ◌∷◌, Option, none, some, Outcome, ok, err, ◌≡◌,
  ◌⊎◌, inl, inr, arith, eq_iff, Bool-cases,
}
use k8sgpt_operator.Kube.{Gvk, gvk_eq, OwnerReference, ObjectReference, Machinery}
use k8sgpt_operator.Api.K8sgpt.{K8sgpt}
use k8sgpt_operator.Api.Result.{TargetReference, ResultSpec, Result}
use k8sgpt_operator.Effect.{Effect}
use k8sgpt_operator.Effect.Emits.{Emits, Emits-bind, Emits-pure, emits_rules}
use k8sgpt_operator.Effect.Returns.{
  Returns, Returns-pure, Returns-if, Returns-bind, Returns-outcome,
}
use k8sgpt_operator.Mutation.Cluster.{Call, Cluster, get_object}
use k8sgpt_operator.Remediation.Target.{auto_remediation_resource_enabled, Target}
use k8sgpt_operator.Remediation.Eligible.{
  EligibleResource, walk, climb_to, resolve_owning_workload, eligible_resource, is_stale,
  refers_elsewhere, unless_elsewhere, load_target, convert, results_to_eligible_resources,
}

-- A call that reads an object.
abbrev pub IsRead : Call → Type 0
IsRead (get_object g namespace name) = Unit
IsRead _ = ⊥

module _ (k : Machinery) (config : Option K8sgpt) (c : Cluster) where
  climb_to-IsRead :
      (climb : Target → Effect Call (Outcome Target)) (start current : Target)
      (o : Option OwnerReference)
      → ((t : Target) → Emits IsRead (climb t))
      → Emits IsRead (climb_to k config c climb start current o)
  unfolding climb_to
  climb_to-IsRead climb start current none h = search emits_rules
  climb_to-IsRead climb start current (some owner) h = search (emits_rules, h) depth 9

  walk-IsRead : (n : ℕ) (start current : Target) → Emits IsRead (walk k config c n start current)
  unfolding walk
  walk-IsRead zero start current = search emits_rules
  walk-IsRead (suc n) start current =
      let h = walk-IsRead n start in search (emits_rules, climb_to-IsRead, h) depth 9

  convert-IsRead :
      (reference : Result → Outcome ObjectReference) (item : Result)
      → Emits IsRead (convert k config c reference item)
  unfolding convert resolve_owning_workload load_target eligible_resource
  convert-IsRead reference item = search (emits_rules, walk-IsRead) depth 16

  -- The conversion of all findings calls nothing but reads of objects.
  pub results_to_eligible_resources-IsRead :
      (reference : Result → Outcome ObjectReference) (items : List Result)
      → Emits IsRead (results_to_eligible_resources k config c reference items)
  unfolding results_to_eligible_resources
  results_to_eligible_resources-IsRead reference [] = search emits_rules
  results_to_eligible_resources-IsRead reference (item ∷ items) =
      Emits-bind IsRead _ _ (convert-IsRead reference item) λ found.
        Emits-bind IsRead _ _ (results_to_eligible_resources-IsRead reference items)
          λ rest. Emits-pure IsRead _

  -- A field of the reference that is set is the one of the object.
  abbrev pub Agrees : String → String → Type 0
  Agrees expected actual = (expected ≡ "") ⊎ (expected ≡ actual)

  -- The resource is the object, and the version of it, that the reference names.
  abbrev IsExact : TargetReference → EligibleResource → Type 0
  IsExact t r =
      Agrees t.uid r.object_ref.uid × Agrees t.resource_version r.object_ref.resource_version

  abbrev pub FoundExact : TargetReference → Option EligibleResource → Type 0
  FoundExact t none = Unit
  FoundExact t (some r) = IsExact t r

  refers_elsewhere-IsExact :
      (spec : ResultSpec) (original g : Gvk) (t : TargetReference) (r : EligibleResource)
      → spec.target_ref ≡ some t
      → gvk_eq original g ≡ true
      → refers_elsewhere k config c spec original g r ≡ false
      → IsExact t r
  unfolding refers_elsewhere is_stale
  refers_elsewhere-IsExact spec original g t r e same h =
      let h' = rw (e, same) at h in
      ground (
        arith,
        eq_iff t.uid "",
        eq_iff t.uid r.object_ref.uid,
        eq_iff t.resource_version "",
        eq_iff t.resource_version r.object_ref.resource_version,
      )

  unless_elsewhere-IsExact :
      (spec : ResultSpec) (original g : Gvk) (t : TargetReference) (o : Outcome EligibleResource)
      → spec.target_ref ≡ some t
      → gvk_eq original g ≡ true
      → FoundExact t (unless_elsewhere k config c spec original g o)
  unless_elsewhere-IsExact spec original g t (err e) has same = tt
  unless_elsewhere-IsExact spec original g t (ok r) has same =
      elim (Bool-cases (refers_elsewhere k config c spec original g r)) [
        | inl e ↦ rw e tt
        | inr e ↦ rw e (refers_elsewhere-IsExact spec original g t r has same e)
      ]

  -- Where a result has an exact reference and the walk stayed at the type of the finding, the
  -- eligible resource that is loaded, if any, has the UID of the reference where that is set, and
  -- its resource version where that is set.
  pub load_target-IsExact :
      (reference : Result → Outcome ObjectReference) (item : Result) (original : Gvk) (t : Target)
      (exact : TargetReference)
      → item.spec.target_ref ≡ some exact
      → gvk_eq original t.gvk ≡ true
      → Returns (FoundExact exact) (load_target k config c reference item original t)
  unfolding load_target
  load_target-IsExact reference item original t exact has same =
      let P = FoundExact exact in
      Returns-if P (not (auto_remediation_resource_enabled k config t.gvk)) _ _
        (λ off. Returns-pure P none tt)
        λ on.
          Returns-outcome P (reference item) _ _ (λ e p. Returns-pure P none tt)
            λ result_ref p. Returns-bind P _ _ λ loaded.
              Returns-pure P _
                (unless_elsewhere-IsExact item.spec original t.gvk exact loaded has same)
