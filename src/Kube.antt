-- ===== src/Kube.antt =====
-- What the operator uses of k8s.io/apimachinery, which is not part of the repository: names of
-- resource types, and the accessors of unstructured objects as a parameter.
use k8sgpt_operator.Common.{String, Bool, Option, List, ℤ, Outcome, ◌==◌, ◌&&◌}
use k8sgpt_operator.Json.{Json, Members}

-- schema.GroupVersionKind
pub record Gvk : Type 0 where
  pub group : String
  pub version : String
  pub kind : String

-- a == b on such keys
abbrev pub gvk_eq : Gvk → Gvk → Bool
gvk_eq a b = a.group == b.group && a.version == b.version && a.kind == b.kind

-- metav1.OwnerReference
pub record OwnerReference : Type 0 where
  pub api_version : String
  pub kind : String
  pub name : String
  pub uid : String
  pub controller : Option Bool
  pub block_owner_deletion : Option Bool

-- schema.GroupVersion
pub record GroupVersion : Type 0 where
  pub group : String
  pub version : String

-- gv.WithKind(kind)
abbrev pub with_kind : GroupVersion → String → Gvk
with_kind gv kind = record { group = gv.group; version = gv.version; kind = kind }

-- corev1.ObjectReference, the fields that the operator uses
pub record ObjectReference : Type 0 where
  pub api_version : String
  pub kind : String
  pub namespace : String
  pub name : String
  pub uid : String
  pub resource_version : String

-- The code outside the repository that computes: the methods of *unstructured.Unstructured on its
-- `Object`, the codecs for YAML and JSON, the text of a similarity score, and
-- the verb %q of fmt, `quote`. `float64` is what encoding/json makes of a number literal on its way
-- through a float64.
pub record Machinery : Type 0 where
  pub uid : Members → String
  pub resource_version : Members → String
  pub api_version : Members → String
  pub kind : Members → String
  pub namespace : Members → String
  pub name : Members → String
  pub generate_name : Members → String
  pub generation : Members → ℤ
  pub annotations : Members → List (String × String)
  pub owner_references : Members → List OwnerReference
  pub gvk : Members → Gvk
  pub gvk_text : Gvk → String
  pub group_version_text : Gvk → String
  pub float64 : String → String
  pub parse_group_version : String → Outcome GroupVersion
  pub nested_slice : List String → Members → Outcome (Option (List Json))
  pub set_nested_slice : List String → List Json → Members → Outcome Members
  pub nested_int64 : List String → Members → Outcome (Option ℤ)
  pub remove_nested_field : List String → Members → Members
  pub set_name : String → Members → Members
  pub set_namespace : String → Members → Members
  pub decode : Gvk → String → Outcome Members
  pub yaml_to_json : String → Outcome String
  pub json_to_object : String → Outcome Members
  pub json_to_selection : String → Outcome (String × String)
  pub object_to_yaml : Members → Outcome String
  pub similarity_text : String → String → String
  pub quote : String → String
