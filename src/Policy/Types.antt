-- ===== src/Policy/Types.antt =====
-- The data of the gate.
use k8sgpt_operator.Common.{String, Bool, false, Option, List, [], ◌∷◌, ℤ}
use k8sgpt_operator.Json.{Json, Members}
use k8sgpt_operator.Kube.{Gvk}

-- A pointer to an unstructured object is an `Option`; `max_changed_paths` is 0 if left out.
pub record Input : Type 0 where
  pub original : Option Members
  pub live : Option Members
  pub proposed : Option Members
  pub max_changed_paths : ℤ

-- One change, with `null` for a missing value as for a null.
pub record Change : Type 0 where
  pub path : String
  pub old : Json
  pub new : Json

pub record PatchOperation : Type 0 where
  pub op : String
  pub path : String
  pub value : Json

pub record Decision : Type 0 where
  pub allowed : Bool
  pub reasons : List String
  pub changes : List Change
  pub patch : List PatchOperation

pub record ResourcePolicy : Type 0 where
  pub gvk : Gvk
  pub allowed_path : String → Bool

abbrev pub rejected_with_changes : List Change → String → Decision
rejected_with_changes changes reason = record {
  allowed = false;
  reasons = reason ∷ [];
  changes = changes;
  patch = [];
}

abbrev pub rejected : String → Decision
rejected reason = rejected_with_changes [] reason
