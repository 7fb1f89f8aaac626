-- ===== src/Mutation/Cluster.antt =====
-- What the controller calls: the API server, the K8sGPT server and the clock. None of these is
-- part of the repository, so their answers are parameters, functions of the calls made so far.
use k8sgpt_operator.Common.{ℕ, String, List, Option, Outcome, Fault}
use k8sgpt_operator.Json.{Members}
use k8sgpt_operator.Kube.{Gvk}
use k8sgpt_operator.Api.Result.{Result}
use k8sgpt_operator.Api.Mutation.{Mutation}
use k8sgpt_operator.Policy.Types.{PatchOperation}
use k8sgpt_operator.Effect.{Effect, call}

pub data Call : Type 0 where
  get_mutation : (namespace name : String) → Call
  update_mutation : Mutation → Call
  update_mutation_status : Mutation → Call
  get_result : (namespace name : String) → Call
  get_object : Gvk → (namespace name : String) → Call
  patch_dry_run : Members → List PatchOperation → Call
  patch_object : Members → List PatchOperation → Call
  query : (client : ℕ) (backend prompt : String) → Call
  read_clock : Call

-- An update answers with the object as the server has it then.
pub record Cluster : Type 0 where
  pub mutation : List Call → String → String → Outcome Mutation
  pub update : List Call → Mutation → Outcome Mutation
  pub update_status : List Call → Mutation → Outcome Mutation
  pub result : List Call → String → String → Outcome Result
  pub object : List Call → Gvk → String → String → Outcome Members
  pub dry_run : List Call → Members → List PatchOperation → Option Fault
  pub patch : List Call → Members → List PatchOperation → Option Fault
  pub response : List Call → ℕ → String → String → Outcome String
  pub now : List Call → ℕ

module _ (c : Cluster) where
  abbrev pub fetch_mutation : String → String → Effect Call (Outcome Mutation)
  fetch_mutation ns name = call (get_mutation ns name) (λ log. c.mutation log ns name)

  abbrev pub store_mutation : Mutation → Effect Call (Outcome Mutation)
  store_mutation m = call (update_mutation m) (λ log. c.update log m)

  abbrev pub store_status : Mutation → Effect Call (Outcome Mutation)
  store_status m = call (update_mutation_status m) (λ log. c.update_status log m)

  abbrev pub fetch_result : String → String → Effect Call (Outcome Result)
  fetch_result ns name = call (get_result ns name) (λ log. c.result log ns name)

  abbrev pub fetch_object : Gvk → String → String → Effect Call (Outcome Members)
  fetch_object g ns name = call (get_object g ns name) (λ log. c.object log g ns name)

  abbrev pub try_patch : Members → List PatchOperation → Effect Call (Option Fault)
  try_patch o ops = call (patch_dry_run o ops) (λ log. c.dry_run log o ops)

  abbrev pub apply_patch : Members → List PatchOperation → Effect Call (Option Fault)
  apply_patch o ops = call (patch_object o ops) (λ log. c.patch log o ops)

  abbrev pub ask : ℕ → String → String → Effect Call (Outcome String)
  ask client backend prompt =
      call (query client backend prompt) (λ log. c.response log client backend prompt)

  abbrev pub clock : Effect Call ℕ
  clock = call read_clock (λ log. c.now log)
