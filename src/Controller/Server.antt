-- ===== src/Controller/Server.antt =====
-- What the controller calls and what it computes with outside the repository.
use k8sgpt_operator.Common.{ℕ, String, List, Option, Outcome, Fault}
use k8sgpt_operator.Json.{Members}
use k8sgpt_operator.Kube.{Gvk, GroupVersion, OwnerReference}
use k8sgpt_operator.Api.K8sgpt.{K8sgpt}
use k8sgpt_operator.Api.Result.{TargetReference, ResultSpec, Result}
use k8sgpt_operator.Api.Mutation.{Mutation}
use k8sgpt_operator.Effect.{Effect, call}

-- hashableContent of hashResultContent
pub record HashableContent : Type 0 where
  pub kind : String
  pub name : String
  pub parent_object : String
  pub target_ref : Option TargetReference
  pub error_count : ℕ
  pub error_texts : List String

-- json.Marshal, sha256.Sum256 in hexadecimal digits and its first four bytes alone,
-- metav1.NewControllerRef, the REST mapper's ResourceFor and GetLabels.
pub record Toolkit : Type 0 where
  pub marshal : HashableContent → Outcome String
  pub sha256 : String → String
  pub sha256_start : String → String
  pub controller_ref : K8sgpt → OwnerReference
  pub resource_for : String → Outcome GroupVersion
  pub labels : Members → List (String × String)

pub data Call : Type 0 where
  list_results : (name namespace : String) → Call
  get_result : (namespace name : String) → Call
  create_result : Result → Call
  update_result : Result → Call
  update_result_status : Result → Call
  delete_result : Result → Call
  get_object : Gvk → (namespace name : String) → Call
  get_mutation : (namespace name : String) → Call
  create_mutation : Mutation → Call
  get_secret : (namespace name : String) → Call
  emit : ResultSpec → Call

-- An update answers with the object as the server has it then; an answer may depend on all calls
-- made so far.
pub record Server : Type 0 where
  pub results : List Call → String → String → Outcome (List Result)
  pub result : List Call → String → String → Outcome Result
  pub create : List Call → Result → Outcome Result
  pub update : List Call → Result → Outcome Result
  pub update_status : List Call → Result → Outcome Result
  pub delete : List Call → Result → Option Fault
  pub object : List Call → Gvk → String → String → Outcome Members
  pub mutation : List Call → String → String → Outcome Mutation
  pub create_mutation : List Call → Mutation → Option Fault
  pub secret : List Call → String → String → Outcome (List (String × String))
  pub emitted : List Call → ResultSpec → Option Fault

module _ (s : Server) where
  abbrev pub find_results : String → String → Effect Call (Outcome (List Result))
  find_results name namespace =
      call (list_results name namespace) (λ log. s.results log name namespace)

  abbrev pub find_result : String → String → Effect Call (Outcome Result)
  find_result namespace name = call (get_result namespace name) (λ log. s.result log namespace name)

  abbrev pub add_result : Result → Effect Call (Outcome Result)
  add_result r = call (create_result r) (λ log. s.create log r)

  abbrev pub store_result : Result → Effect Call (Outcome Result)
  store_result r = call (update_result r) (λ log. s.update log r)

  abbrev pub store_result_status : Result → Effect Call (Outcome Result)
  store_result_status r = call (update_result_status r) (λ log. s.update_status log r)

  abbrev pub drop_result : Result → Effect Call (Option Fault)
  drop_result r = call (delete_result r) (λ log. s.delete log r)

  abbrev pub find_object : Gvk → String → String → Effect Call (Outcome Members)
  find_object g namespace name =
      call (get_object g namespace name) (λ log. s.object log g namespace name)

  abbrev pub find_mutation : String → String → Effect Call (Outcome Mutation)
  find_mutation namespace name =
      call (get_mutation namespace name) (λ log. s.mutation log namespace name)

  abbrev pub add_mutation : Mutation → Effect Call (Option Fault)
  add_mutation m = call (create_mutation m) (λ log. s.create_mutation log m)

  abbrev pub find_secret : String → String → Effect Call (Outcome (List (String × String)))
  find_secret namespace name = call (get_secret namespace name) (λ log. s.secret log namespace name)

  -- ISink.Emit of the configured sink
  abbrev pub emit_result : ResultSpec → Effect Call (Option Fault)
  emit_result spec = call (emit spec) (λ log. s.emitted log spec)
