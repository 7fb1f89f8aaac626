-- ===== src/Api/Result.antt =====
-- api/v1alpha1/result_types.go
use k8sgpt_operator.Common.{ℕ, String, Option, List}
use k8sgpt_operator.Kube.{OwnerReference}

pub record Sensitive : Type 0 where
  pub unmasked : String
  pub masked : String

pub record Failure : Type 0 where
  pub text : String
  pub sensitive : List Sensitive

-- AutoRemediationPhase is an int; `other` is a value that no constant names.
pub data Phase : Type 0 where
  not_started : Phase
  in_progress : Phase
  completed : Phase
  successful : Phase
  pending : Phase
  aborted : Phase
  other : ℕ → Phase

pub record TargetReference : Type 0 where
  pub api_version : String
  pub kind : String
  pub namespace : String
  pub name : String
  pub uid : String
  pub resource_version : String

pub record ResultSpec : Type 0 where
  pub backend : String
  pub phase : Phase
  pub kind : String
  pub name : String
  pub error : List Failure
  pub details : String
  pub parent_object : String
  pub target_ref : Option TargetReference

pub record ResultStatus : Type 0 where
  pub life_cycle : String
  pub webhook : String
  pub content_hash : String

-- The type with its metadata, as far as the operator sets and reads it.
pub record Result : Type 0 where
  pub name : String
  pub namespace : String
  pub labels : List (String × String)
  pub owners : List OwnerReference
  pub spec : ResultSpec
  pub status : ResultStatus

abbrev pub no_status : ResultStatus
no_status = record { life_cycle = ""; webhook = ""; content_hash = "" }
