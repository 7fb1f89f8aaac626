-- ===== src/Mutation/Authorized.antt =====
-- What a remediation may patch.
use k8sgpt_operator.Common.{
  String, true, not, List, ◌∷◌, map, Option, none, some, ok, Fault, ◌≡◌, ap, pos, arith,
}
use k8sgpt_operator.Json.{Members, str}
use k8sgpt_operator.Kube.{Machinery}
use k8sgpt_operator.Api.Mutation.{Mutation}
use k8sgpt_operator.Policy.Types.{Input, Decision, PatchOperation}
use k8sgpt_operator.Policy.Gate.{replace_operation, evaluate, evaluate_pointers}
use k8sgpt_operator.Policy.Gate.Identity.{changes_of}
use k8sgpt_operator.Policy.Gate.Admission.{
  IsAuthorized, evaluate_objects_iff, evaluate_objects_patch,
}
use k8sgpt_operator.Effect.{Effect}
use k8sgpt_operator.Effect.Emits.{emits_rules, Emits, Emits-if, Emits-outcome, Emits-asked}
use k8sgpt_operator.Mutation.Cluster.{Call, Cluster, patch_dry_run, patch_object}
use k8sgpt_operator.Mutation.Proposal.{parse_yaml_proposal}
use k8sgpt_operator.Mutation.Execution.{
  Reply, unstructured, guarded_patch, reject_mutation, record_success, unless_refused, carry_out,
  apply_decision, judge, resource_to_execution,
}

module _ (k : Machinery) (c : Cluster) (m : Mutation) (proposed : Members) where
  -- The server answered a read of the proposed object's type, namespace and name with it.
  abbrev IsRead : Members → Type 0
  IsRead live =
      (log : List Call) × (c.object log (k.gvk proposed) (k.namespace proposed) (k.name proposed)
        ≡ ok live)

  -- The patch of an object that was read is the one that the gate admits for the mutation's
  -- snapshot, that object and the proposal, behind a test of the object's version.
  abbrev pub IsAuthorizedPatch : Members → List PatchOperation → Type 0
  IsAuthorizedPatch live ops =
      IsRead live
      × (original : Members) × (parse_yaml_proposal k m.spec.origin_configuration ≡ ok original)
      × IsAuthorized k original live proposed (pos 0)
      × (ops
          ≡ record {
            op = "test";
            path = "/metadata/resourceVersion";
            value = str (k.resource_version live);
          }
            ∷ map replace_operation (changes_of k live proposed))

  -- The calls that change the target are authorized; a dry run is held to the same.
  abbrev pub PatchesAuthorized : Call → Type 0
  PatchesAuthorized (patch_dry_run live ops) = IsAuthorizedPatch live ops
  PatchesAuthorized (patch_object live ops) = IsAuthorizedPatch live ops
  PatchesAuthorized _ = Unit

  reject_mutation-Emits :
      (reason : String) (d : Decision) → Emits PatchesAuthorized (reject_mutation k c m reason d)
  unfolding reject_mutation
  reject_mutation-Emits reason d = search emits_rules

  record_success-Emits : (d : Decision) → Emits PatchesAuthorized (record_success k c m d)
  unfolding record_success
  record_success-Emits d = search emits_rules depth 9

  unless_refused-Emits :
      (o : Option Fault) (go : Effect Call Reply)
      → Emits PatchesAuthorized go
      → Emits PatchesAuthorized (unless_refused k c o go)
  unfolding unless_refused
  unless_refused-Emits none go h = h
  unless_refused-Emits (some e) go h = search emits_rules

  carry_out-Emits :
      (live : Members) (d : Decision)
      → IsAuthorizedPatch live (guarded_patch k live d)
      → Emits PatchesAuthorized (carry_out k c m live d)
  unfolding carry_out
  carry_out-Emits live d h =
      search (emits_rules, unless_refused-Emits, record_success-Emits) depth 9

  apply_decision-Emits :
      (live : Members) (d : Decision)
      → (d.allowed ≡ true → IsAuthorizedPatch live (guarded_patch k live d))
      → Emits PatchesAuthorized (apply_decision k c m live d)
  unfolding apply_decision
  apply_decision-Emits live d h =
      Emits-if PatchesAuthorized (not d.allowed) _ _ (λ no_policy. reject_mutation-Emits _ d)
        (λ admitted. carry_out-Emits live d (h (ground arith)))

  abbrev gate_input : Members → Members → Input
  gate_input original live = record {
    original = some original;
    live = some live;
    proposed = some proposed;
    max_changed_paths = pos 0;
  }

  admitted_is_authorized :
      (original live : Members)
      → parse_yaml_proposal k m.spec.origin_configuration ≡ ok original
      → IsRead live
      → (evaluate k (gate_input original live)).allowed ≡ true
      → IsAuthorizedPatch live (guarded_patch k live (evaluate k (gate_input original live)))
  unfolding evaluate evaluate_pointers
  admitted_is_authorized original live parsed read h = (
    read,
    original,
    parsed,
    (evaluate_objects_iff k original live proposed (pos 0)).0 h,
    ap (λ d. guarded_patch k live d) (evaluate_objects_patch k original live proposed (pos 0) h),
  )

  -- Every patch that ResourceToExecution sends for an unstructured object, dry run or not, is a
  -- patch of an object with which the server answered the read of the target, and is authorized by
  -- the gate for the mutation's snapshot, the object read and the proposal.
  pub resource_to_execution-PatchesAuthorized :
      Emits PatchesAuthorized (resource_to_execution k c m (unstructured proposed))
  unfolding resource_to_execution judge
  resource_to_execution-PatchesAuthorized = Emits-asked PatchesAuthorized _ _ _ tt (λ log.
      Emits-outcome PatchesAuthorized _ _ _ (λ e p. search emits_rules)
        (λ live p.
          Emits-outcome PatchesAuthorized (parse_yaml_proposal k m.spec.origin_configuration) _ _
            (λ e q. reject_mutation-Emits _ _)
            (λ original parsed.
              apply_decision-Emits live _ (admitted_is_authorized original live parsed (log, p)))))
