-- ===== src/Api/Mutation.antt =====
-- api/v1alpha1/mutation_types.go
use k8sgpt_operator.Common.{ℕ, String, Option, List}
use k8sgpt_operator.Kube.{ObjectReference, OwnerReference}
use k8sgpt_operator.Api.Result.{Phase}

pub record MutationSpec : Type 0 where
  pub similarity_score : String
  pub resource_gvk : String
  pub resource_ref : ObjectReference
  pub result_ref : ObjectReference
  pub origin_configuration : String
  pub target_configuration : String

-- A time is a number of seconds.
pub record MutationStatus : Type 0 where
  pub phase : Phase
  pub message : String
  pub policy_decision : String
  pub changed_paths : List String
  pub applied_at : Option ℕ

-- A nil slice of finalizers is `none`, the zero time is `none`.
pub record Mutation : Type 0 where
  pub name : String
  pub namespace : String
  pub finalizers : Option (List String)
  pub deletion_timestamp : Option ℕ
  pub owners : List OwnerReference
  pub spec : MutationSpec
  pub status : MutationStatus
