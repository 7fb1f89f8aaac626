-- ===== src/Remediation/Eligible.antt =====
-- The walk from a Pod to its workload, and the conversion of the results.
use k8sgpt_operator.Common.{
  ℕ, zero, suc, String, Bool, false, not, ◌&&◌, ◌||◌, List, [], ◌∷◌, Option, none, some, or_else,
  Outcome, ok, err, Fault, failure, is_empty, ◌==◌, if◌then◌else◌,
}
use k8sgpt_operator.Text.{◌<>◌}
use k8sgpt_operator.Json.{Members}
use k8sgpt_operator.Kube.{
  Gvk, GroupVersion, gvk_eq, with_kind, OwnerReference, ObjectReference, Machinery,
}
use k8sgpt_operator.Api.K8sgpt.{K8sgpt}
use k8sgpt_operator.Api.Result.{TargetReference, ResultSpec, Result}
use k8sgpt_operator.Effect.{Effect, pure, ◌>>=◌, on_outcome}
use k8sgpt_operator.Mutation.Cluster.{Call, Cluster, fetch_object}
use k8sgpt_operator.Mutation.Proposal.{wrap}
use k8sgpt_operator.Remediation.Target.{Target, auto_remediation_resource_enabled, result_target}

-- types.EligibleResource
pub record EligibleResource : Type 0 where
  pub result_ref : ObjectReference
  pub object_ref : ObjectReference
  pub gvk : String
  pub origin_configuration : String

-- controllerOwner
unfoldable pub controller_owner : List OwnerReference → Option OwnerReference
controller_owner [] = none
controller_owner (o ∷ os) = if or_else false o.controller then some o else controller_owner os

abbrev pub pod_gvk : Gvk
pod_gvk = record { group = ""; version = "v1"; kind = "Pod" }

-- The owner is looked for in the namespace of what it owns.
abbrev pub owner_target : GroupVersion → OwnerReference → String → Target
owner_target gv owner namespace = record {
  gvk = with_kind gv owner.kind;
  namespace = namespace;
  name = owner.name;
}

module _ (k : Machinery) (config : Option K8sgpt) (c : Cluster) where
  abbrev depth_exceeded : Target → Fault
  depth_exceeded start = failure (
      "controller ownership depth exceeded while resolving Pod "
      <> (start.namespace <> ("/" <> start.name)))

  abbrev bad_owner : OwnerReference → Fault → Fault
  bad_owner owner e =
      wrap ("invalid controller owner apiVersion " <> (k.quote owner.api_version <> ": ")) e

  -- What follows the search for the controller; `climb` are the rounds that are left.
  unfoldable pub climb_to :
      (Target → Effect Call (Outcome Target))
      → Target
      → Target
      → Option OwnerReference
      → Effect Call (Outcome Target)
  climb_to climb start current none = pure (ok start)
  climb_to climb start current (some owner) =
      on_outcome (k.parse_group_version owner.api_version) (λ e. pure (err (bad_owner owner e)))
        λ gv.
          let next = owner_target gv owner current.namespace in
          if auto_remediation_resource_enabled k config next.gvk then pure (ok next) else climb next

  -- The rounds of the loop, from the current object; `start` is the Pod.
  unfoldable pub walk : ℕ → Target → Target → Effect Call (Outcome Target)
  walk zero start current = pure (err (depth_exceeded start))
  walk (suc rounds) start current = do
    fetched ← fetch_object c current.gvk current.namespace current.name
    on_outcome fetched (λ e. pure (err e))
        λ object.
          climb_to (walk rounds start) start current (controller_owner (k.owner_references object))

  -- resolveOwningWorkload
  unfoldable pub resolve_owning_workload : Target → Effect Call (Outcome Target)
  resolve_owning_workload t = if not (gvk_eq t.gvk pod_gvk) then pure (ok t) else walk 8 t t

  abbrev pub with_origin :
      ObjectReference → Gvk → Members → Outcome String → Outcome EligibleResource
  with_origin result_ref g object (err e) = err e
  with_origin result_ref g object (ok origin) = ok (record {
    result_ref = result_ref;
    object_ref = record {
      api_version = k.group_version_text g;
      kind = g.kind;
      namespace = k.namespace object;
      name = k.name object;
      uid = k.uid object;
      resource_version = k.resource_version object;
    };
    gvk = k.group_version_text g;
    origin_configuration = origin;
  })

  -- The last lines of eligibleResource.
  unfoldable pub described : ObjectReference → Gvk → Members → Outcome EligibleResource
  described result_ref g object = with_origin result_ref g object (k.object_to_yaml object)

  -- eligibleResource
  unfoldable pub eligible_resource :
      ObjectReference → Target → Effect Call (Outcome EligibleResource)
  eligible_resource result_ref t = do
    fetched ← fetch_object c t.gvk t.namespace t.name
    on_outcome fetched (λ e. pure (err e))
        λ object. pure (
          described result_ref t.gvk
            (k.remove_nested_field ("metadata" ∷ "managedFields" ∷ []) object))

  -- The reference of the result is set, and is not the one of the object.
  unfoldable pub is_stale : TargetReference → ObjectReference → Bool
  is_stale t o =
      (not (is_empty t.uid) && not (t.uid == o.uid))
      || (not (is_empty t.resource_version) && not (t.resource_version == o.resource_version))

  -- The last test of the loop: an exact target that the walk did not leave.
  unfoldable pub refers_elsewhere : ResultSpec → Gvk → Gvk → EligibleResource → Bool
  refers_elsewhere spec original g r = elim spec.target_ref [
    | none ↦ false
    | some t ↦ gvk_eq original g && is_stale t r.object_ref
  ]

  abbrev pub unless_elsewhere :
      ResultSpec → Gvk → Gvk → Outcome EligibleResource → Option EligibleResource
  unless_elsewhere spec original g (err e) = none
  unless_elsewhere spec original g (ok r) =
      if refers_elsewhere spec original g r then none else some r

  -- What one round appends; `none` where it continues without.
  module _ (reference : Result → Outcome ObjectReference) where
    unfoldable pub load_target : Result → Gvk → Target → Effect Call (Option EligibleResource)
    load_target item original t =
        if not (auto_remediation_resource_enabled k config t.gvk)
        then pure none
        else on_outcome (reference item) (λ e. pure none)
            λ result_ref. do
              loaded ← eligible_resource result_ref t
              pure (unless_elsewhere item.spec original t.gvk loaded)

    unfoldable pub convert : Result → Effect Call (Option EligibleResource)
    convert item =
        on_outcome (result_target k config item.spec) (λ e. pure none)
          λ exact. do
            resolved ← resolve_owning_workload exact
            on_outcome resolved (λ e. pure none) (load_target item exact.gvk)

    abbrev pub append_found :
        Option EligibleResource → List EligibleResource → List EligibleResource
    append_found none rs = rs
    append_found (some r) rs = r ∷ rs

    -- ResultsToEligibleResources
    unfoldable pub results_to_eligible_resources : List Result → Effect Call (List EligibleResource)
    results_to_eligible_resources [] = pure []
    results_to_eligible_resources (item ∷ items) = do
      found ← convert item
      rest ← results_to_eligible_resources items
      pure (append_found found rest)
