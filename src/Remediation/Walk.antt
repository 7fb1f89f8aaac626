-- ===== src/Remediation/Walk.antt =====
-- The walk over the owners: where it ends, and how long it is.
use k8sgpt_operator.Json.{Members}
use k8sgpt_operator.Common.{
  ℕ, zero, suc, Bool, true, false, List, [], ◌∷◌, or_else, All, not, subst, Bool-cases, Option,
  none, some, Outcome, ok, err, ◌≡◌, refl, ◌⊎◌, inl, inr,
}
use k8sgpt_operator.Kube.{GroupVersion, gvk_eq, OwnerReference, Machinery}
use k8sgpt_operator.Api.K8sgpt.{K8sgpt}
use k8sgpt_operator.Effect.{Effect}
use k8sgpt_operator.Effect.Returns.{
  Returns, Returns-pure, Returns-if, Returns-asked, Returns-outcome,
}
use k8sgpt_operator.Effect.Calls.{
  CallsAtMost, CallsAtMost-pure, CallsAtMost-call, CallsAtMost-if, CallsAtMost-outcome,
}
use k8sgpt_operator.Mutation.Cluster.{Call, Cluster}
use k8sgpt_operator.Remediation.Eligible.{controller_owner, pod_gvk, owner_target}
use k8sgpt_operator.Remediation.Target.{Target, auto_remediation_resource_enabled}
use k8sgpt_operator.Remediation.Eligible.{walk, climb_to, resolve_owning_workload}

-- The first owner that is marked as the controller.
pub data IsFirstController : List OwnerReference → OwnerReference → Type 0 where
  first :
      (o : OwnerReference) (os : List OwnerReference)
      → o.controller ≡ some true
      → IsFirstController (o ∷ os) o
  later :
      (o : OwnerReference) (os : List OwnerReference) (p : OwnerReference)
      → ¬ (o.controller ≡ some true)
      → IsFirstController os p
      → IsFirstController (o ∷ os) p

marked : (o : Option Bool) → or_else false o ≡ true → o ≡ some true
marked none h = cc
marked (some b) h = cc

unmarked : (o : Option Bool) → or_else false o ≡ false → ¬ (o ≡ some true)
unmarked none h e = cc
unmarked (some b) h e = cc

some_not_none : {o : OwnerReference} → ◌≡◌ {A = Option OwnerReference} (some o) none → ⊥
some_not_none e = cc

controller_owner-IsFirstController :
    (os : List OwnerReference) (p : OwnerReference)
    → controller_owner os ≡ some p
    → IsFirstController os p
unfolding controller_owner
controller_owner-IsFirstController [] p e = cc
controller_owner-IsFirstController (o ∷ os) p e = elim (Bool-cases (or_else false o.controller)) [
  | inl h ↦
      let e' = rw h at e in
      let same : o ≡ p = cc in
      subst (IsFirstController (o ∷ os)) same (first o os (marked o.controller h))
  | inr h ↦
      later o os p (unmarked o.controller h) (controller_owner-IsFirstController os p (rw h at e))
]

controller_owner-none :
    (os : List OwnerReference)
    → controller_owner os ≡ none
    → All (λ (o : OwnerReference). ¬ (o.controller ≡ some true)) os
unfolding controller_owner
controller_owner-none [] e = tt
controller_owner-none (o ∷ os) e = elim (Bool-cases (or_else false o.controller)) [
  | inl h ↦ let e' = rw h at e in absurd (some_not_none e')
  | inr h ↦ (unmarked o.controller h, controller_owner-none os (rw h at e))
]

module _ (k : Machinery) (config : Option K8sgpt) (c : Cluster) where
  -- The server answered the read of the first target with an object whose controller is the second
  -- one, in the same namespace.
  abbrev pub IsControlledBy : Target → Target → Type 0
  IsControlledBy t owner =
      (log : List Call) × (object : Members) × (o : OwnerReference) × (gv : GroupVersion)
      × (c.object log t.gvk t.namespace t.name ≡ ok object)
      × IsFirstController (k.owner_references object) o
      × (k.parse_group_version o.api_version ≡ ok gv)
      × (owner ≡ record {
        gvk = record { group = gv.group; version = gv.version; kind = o.kind };
        namespace = t.namespace;
        name = o.name;
      })

  -- From controller to controller, over types that are not enabled.
  pub data Climbs (start : Target) : Target → Type 0 where
    at_once : (t : Target) → IsControlledBy start t → Climbs start t
    further :
        (t u : Target)
        → Climbs start t
        → auto_remediation_resource_enabled k config t.gvk ≡ false
        → IsControlledBy t u
        → Climbs start u

  -- Where the walk stands.
  abbrev IsOnWay : Target → Target → Type 0
  IsOnWay start current =
      (current ≡ start)
      ⊎ ((auto_remediation_resource_enabled k config current.gvk ≡ false) × Climbs start current)

  -- The server answered the read of the target with an object that has no controller.
  abbrev IsUncontrolled : Target → Type 0
  IsUncontrolled t =
      (log : List Call) × (object : Members) × (c.object log t.gvk t.namespace t.name ≡ ok object)
      × All (λ (o : OwnerReference). ¬ (o.controller ≡ some true)) (k.owner_references object)

  -- The nearest controller of an enabled type above the object, in the same namespace; or the object
  -- itself, where it is no Pod or where no controller on the way up is of an enabled type.
  abbrev pub IsResolved : Target → Outcome Target → Type 0
  IsResolved start (err e) = Unit
  IsResolved start (ok t) =
      ((t ≡ start)
        × ((¬ (start.gvk ≡ record { group = ""; version = "v1"; kind = "Pod" }))
            ⊎ ((top : Target) × IsOnWay start top × IsUncontrolled top)))
      ⊎ ((auto_remediation_resource_enabled k config t.gvk ≡ true)
          × (t.namespace ≡ start.namespace)
          × Climbs start t)

  no_pod :
      (t : Target)
      → not (gvk_eq t.gvk pod_gvk) ≡ true
      → ¬ (t.gvk ≡ record { group = ""; version = "v1"; kind = "Pod" })
  no_pod t h e = let h' = rw e at h in cc

  climbed :
      (start current next : Target)
      → IsOnWay start current
      → IsControlledBy current next
      → Climbs start next
  climbed start current next (inl e) o = at_once next (subst (λ x. IsControlledBy x next) e o)
  climbed start current next (inr (off, w)) o = further current next w off o

  climb_to-IsResolved :
      (climb : Target → Effect Call (Outcome Target)) (start current : Target)
      (o : Option OwnerReference)
      → current.namespace ≡ start.namespace
      → IsOnWay start current
      → (o ≡ none → IsUncontrolled current)
      → ((owner : OwnerReference) (gv : GroupVersion)
          → o ≡ some owner
          → k.parse_group_version owner.api_version ≡ ok gv
          → IsControlledBy current (owner_target gv owner current.namespace))
      → ((t : Target)
          → t.namespace ≡ start.namespace
          → IsOnWay start t
          → Returns (IsResolved start) (climb t))
      → Returns (IsResolved start) (climb_to k config c climb start current o)
  unfolding climb_to
  climb_to-IsResolved climb start current none e way bare owned h =
      Returns-pure (IsResolved start) (ok start) (inl (refl, inr (current, way, bare refl)))
  climb_to-IsResolved climb start current (some owner) e way bare owned h =
      Returns-outcome (IsResolved start) (k.parse_group_version owner.api_version) _ _
        (λ f p. Returns-pure (IsResolved start) _ tt)
        λ gv p.
          let next = owner_target gv owner current.namespace in
          let up = climbed start current next way (owned owner gv refl p) in
          Returns-if (IsResolved start) (auto_remediation_resource_enabled k config next.gvk) _ _
            (λ on. Returns-pure (IsResolved start) (ok next) (inr (on, e, up)))
            (λ off. h next e (inr (off, up)))

  walk-IsResolved :
      (rounds : ℕ) (start current : Target)
      → current.namespace ≡ start.namespace
      → IsOnWay start current
      → Returns (IsResolved start) (walk k config c rounds start current)
  unfolding walk
  walk-IsResolved zero start current e way = Returns-pure (IsResolved start) _ tt
  walk-IsResolved (suc rounds) start current e way = Returns-asked (IsResolved start) _ _ _ λ log.
      Returns-outcome (IsResolved start) _ _ _ (λ f p. Returns-pure (IsResolved start) _ tt)
        λ object p.
          climb_to-IsResolved (walk k config c rounds start) start current _ e way
            (λ o. (log, object, p, controller_owner-none (k.owner_references object) o))
            (λ owner gv o q. (
              log,
              object,
              owner,
              gv,
              p,
              controller_owner-IsFirstController (k.owner_references object) owner o,
              q,
              refl,
            ))
            (λ t. walk-IsResolved rounds start t)

  -- Unless it fails, the walk ends at an owner of an enabled type in the namespace of the finding's
  -- object: the one that is reached by reading the object and then, as long as the type is not
  -- enabled, the first controller of what was read; or at the object itself, where it is no Pod or
  -- where the way up ends at an object without a controller before an enabled type is met.
  pub resolve_owning_workload-IsResolved :
      (t : Target) → Returns (IsResolved t) (resolve_owning_workload k config c t)
  unfolding resolve_owning_workload
  resolve_owning_workload-IsResolved t =
      Returns-if (IsResolved t) _ _ _
        (λ other. Returns-pure (IsResolved t) (ok t) (inl (refl, inl (no_pod t other))))
        (λ pod. walk-IsResolved 8 t t refl (inl refl))

  climb_to-CallsAtMost :
      (n : ℕ) (climb : Target → Effect Call (Outcome Target)) (start current : Target)
      (o : Option OwnerReference)
      → ((t : Target) → CallsAtMost n (climb t))
      → CallsAtMost n (climb_to k config c climb start current o)
  unfolding climb_to
  climb_to-CallsAtMost n climb start current none h = CallsAtMost-pure n _
  climb_to-CallsAtMost n climb start current (some owner) h =
      CallsAtMost-outcome n (k.parse_group_version owner.api_version) _ _
        (λ f. CallsAtMost-pure n _) λ gv. CallsAtMost-if n _ _ _ (CallsAtMost-pure n _) (h _)

  walk-CallsAtMost :
      (rounds : ℕ) (start current : Target)
      → CallsAtMost rounds (walk k config c rounds start current)
  unfolding walk
  walk-CallsAtMost zero start current = CallsAtMost-pure zero _
  walk-CallsAtMost (suc rounds) start current = CallsAtMost-call rounds _ _ _ λ fetched.
      CallsAtMost-outcome {A = Members} rounds fetched _ _ (λ f. CallsAtMost-pure rounds _)
        λ object.
          climb_to-CallsAtMost rounds (walk k config c rounds start) start current _
            (walk-CallsAtMost rounds start)

  -- Whatever the owners say, a cycle included, the walk reads at most eight objects.
  pub resolve_owning_workload-CallsAtMost :
      (t : Target) → CallsAtMost 8 (resolve_owning_workload k config c t)
  unfolding resolve_owning_workload
  resolve_owning_workload-CallsAtMost t =
      CallsAtMost-if 8 _ _ _ (CallsAtMost-pure 8 _) (walk-CallsAtMost 8 t t)
