-- ===== src/Mutation/Execution.antt =====
-- internal/controller/conversions/object_to_execution.go
use k8sgpt_operator.Common.{
  ℕ, String, false, not, List, [], ◌∷◌, Option, none, some, Outcome, ok, err, Fault, if◌then◌else◌,
  pos,
}
use k8sgpt_operator.Text.{◌<>◌}
use k8sgpt_operator.Json.{Members, str}
use k8sgpt_operator.Kube.{Gvk, Machinery}
use k8sgpt_operator.Api.Result.{completed, aborted}
use k8sgpt_operator.Api.Mutation.{Mutation}
use k8sgpt_operator.Policy.Types.{PatchOperation, Decision}
use k8sgpt_operator.Policy.Gate.{evaluate, decision_paths}
use k8sgpt_operator.Effect.{Effect, pure, ◌>>=◌, on_outcome}
use k8sgpt_operator.Mutation.Cluster.{
  Call, Cluster, store_mutation, fetch_object, try_patch, apply_patch, clock,
}
use k8sgpt_operator.Mutation.Proposal.{parse_yaml_proposal}

-- ctrl.Result with the error beside it; the time is in seconds.
pub record Reply : Type 0 where
  pub requeue_after : ℕ
  pub error : Option Fault

-- The constants of internal/controller/util/time.go
abbrev pub error_requeue_time : ℕ
error_requeue_time = 30

abbrev pub not_started_requeue_time : ℕ
not_started_requeue_time = 15

abbrev pub completed_requeue_time : ℕ
completed_requeue_time = 30

abbrev pub successful_requeue_time : ℕ
successful_requeue_time = 60

abbrev pub pending_requeue_time : ℕ
pending_requeue_time = 30

-- return ctrl.Result{RequeueAfter: t}, nil
abbrev pub again : ℕ → Reply
again t = record { requeue_after = t; error = none }

-- return ctrl.Result{RequeueAfter: util.ErrorRequeueTime}, err
abbrev pub retry : Fault → Reply
retry e = record { requeue_after = error_requeue_time; error = some e }

-- return ctrl.Result{}, nil
abbrev pub done : Reply
done = again 0

-- The client.Object of the configuration: an unstructured object, or one of another Go type.
pub data Object : Type 0 where
  unstructured : Members → Object
  typed : Gvk → (namespace name : String) → Object

abbrev pub object_gvk : Machinery → Object → Gvk
object_gvk k (unstructured o) = k.gvk o
object_gvk k (typed g ns name) = g

abbrev pub object_namespace : Machinery → Object → String
object_namespace k (unstructured o) = k.namespace o
object_namespace k (typed g ns name) = ns

abbrev pub object_name : Machinery → Object → String
object_name k (unstructured o) = k.name o
object_name k (typed g ns name) = name

abbrev pub no_decision : Decision
no_decision = record { allowed = false; reasons = []; changes = []; patch = [] }

-- decision.Reasons[0], which the code reads of rejections alone
abbrev pub first_reason : Decision → String
first_reason d = elim d.reasons [ [] ↦ "" | r ∷ rs ↦ r ]

unfoldable pub rejected_mutation : Mutation → String → Decision → Mutation
rejected_mutation m reason d = record m {
  status = record {
    phase = aborted;
    message = reason;
    policy_decision = "rejected";
    changed_paths = decision_paths d;
    applied_at = m.status.applied_at;
  };
}

unfoldable pub approved_mutation : Mutation → Decision → ℕ → Mutation
approved_mutation m d now = record m {
  status = record {
    phase = completed;
    message = "Completed: policy-approved patch applied";
    policy_decision = "approved";
    changed_paths = decision_paths d;
    applied_at = some now;
  };
}

-- The test operation in front of the patch.
abbrev pub guarded_patch : Machinery → Members → Decision → List PatchOperation
guarded_patch k live d =
    record {
      op = "test";
      path = "/metadata/resourceVersion";
      value = str (k.resource_version live);
    }
    ∷ d.patch

-- An update whose answer is not used again.
abbrev pub finish_update : Outcome Mutation → Reply → Reply
finish_update (ok m) r = r
finish_update (err e) r = retry e

module _ (k : Machinery) (c : Cluster) where
  unfoldable pub reject_mutation : Mutation → String → Decision → Effect Call Reply
  reject_mutation m reason d = do
    stored ← store_mutation c (rejected_mutation m reason d)
    pure (finish_update stored done)

  unfoldable pub record_success : Mutation → Decision → Effect Call Reply
  record_success m d = do
    now ← clock c
    stored ← store_mutation c (approved_mutation m d now)
    pure (finish_update stored (again successful_requeue_time))

  -- A patch that is refused ends the reconciliation.
  unfoldable pub unless_refused : Option Fault → Effect Call Reply → Effect Call Reply
  unless_refused none go = go
  unless_refused (some e) go = pure (retry e)

  -- The dry run, then the same patch for good.
  unfoldable pub carry_out : Mutation → Members → Decision → Effect Call Reply
  carry_out m live d = do
    tried ← try_patch c live (guarded_patch k live d)
    unless_refused tried do
      applied ← apply_patch c live (guarded_patch k live d)
      unless_refused applied (record_success m d)

  unfoldable pub apply_decision : Mutation → Members → Decision → Effect Call Reply
  apply_decision m live d =
      if not d.allowed
      then reject_mutation m ("Policy rejected remediation: " <> first_reason d) d
      else carry_out m live d

  unfoldable pub judge : Mutation → Members → Members → Object → Effect Call Reply
  judge m original live (typed g ns name) =
      reject_mutation m "Proposed remediation is not an unstructured Kubernetes object" no_decision
  judge m original live (unstructured proposed) = apply_decision m live (
      evaluate k (record {
        original = some original;
        live = some live;
        proposed = some proposed;
        max_changed_paths = pos 0;
      }))

  -- ResourceToExecution
  unfoldable pub resource_to_execution : Mutation → Object → Effect Call Reply
  resource_to_execution m o = do
    fetched ← fetch_object c (object_gvk k o) (object_namespace k o) (object_name k o)
    on_outcome fetched (λ e. pure (retry e))
        λ live.
          on_outcome (parse_yaml_proposal k m.spec.origin_configuration)
            (λ e. reject_mutation m ("Invalid origin snapshot: " <> e.message) no_decision)
            λ original. judge m original live o
