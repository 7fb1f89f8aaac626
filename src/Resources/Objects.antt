-- ===== src/Resources/Objects.antt =====
-- The Kubernetes objects that pkg/resources/k8sgpt.go writes, with the fields that it sets, and
-- what it calls and computes with outside the repository.
use k8sgpt_operator.Common.{ℕ, String, Bool, true, List, Option, some, Outcome, Fault}
use k8sgpt_operator.Json.{Json}
use k8sgpt_operator.Kube.{OwnerReference}
use k8sgpt_operator.Api.K8sgpt.{ResourceRequirements, K8sgpt}
use k8sgpt_operator.Effect.{Effect, call}

-- metav1.ObjectMeta
pub record Metadata : Type 0 where
  pub name : String
  pub namespace : String
  pub labels : List (String × String)
  pub annotations : List (String × String)
  pub owners : List OwnerReference

-- corev1.SecretKeySelector
pub record SecretKey : Type 0 where
  pub name : String
  pub key : String

pub data EnvSource : Type 0 where
  text : String → EnvSource
  from_secret : SecretKey → EnvSource

-- corev1.EnvVar
pub record EnvVar : Type 0 where
  pub name : String
  pub source : EnvSource

pub record VolumeMount : Type 0 where
  pub name : String
  pub read_only : Bool
  pub mount_path : String

-- A secret with the one key of it that is mounted, and the path of the file.
pub data VolumeSource : Type 0 where
  empty_dir : VolumeSource
  secret_file : (secret key path : String) → VolumeSource

pub record Volume : Type 0 where
  pub name : String
  pub source : VolumeSource

pub record Container : Type 0 where
  pub name : String
  pub image_pull_policy : String
  pub image : String
  pub args : List String
  pub env : List EnvVar
  pub ports : List ℕ
  pub resources : ResourceRequirements
  pub volume_mounts : List VolumeMount
  pub security_context : Option Json

-- corev1.PodTemplateSpec; `container` is the only item of its containers.
pub record PodTemplate : Type 0 where
  pub labels : List (String × String)
  pub annotations : List (String × String)
  pub service_account_name : String
  pub automount_service_account_token : Option Bool
  pub container : Container
  pub volumes : List Volume
  pub node_selector : List (String × String)
  pub tolerations : List Json
  pub security_context : Option Json

pub record DeploymentSpec : Type 0 where
  pub replicas : ℕ
  pub match_labels : List (String × String)
  pub template : PodTemplate

pub record ServiceSpec : Type 0 where
  pub selector : List (String × String)
  pub ports : List ℕ

-- rbac/v1 PolicyRule
pub record PolicyRule : Type 0 where
  pub api_groups : List String
  pub resources : List String
  pub verbs : List String

pub record Subject : Type 0 where
  pub kind : String
  pub name : String
  pub namespace : String

pub record RoleRef : Type 0 where
  pub kind : String
  pub name : String

-- client.Object; a Deployment has no spec where it only names what is to be deleted.
pub data Object : Type 0 where
  service_account : Metadata → Object
  service : Metadata → ServiceSpec → Object
  deployment : Metadata → Option DeploymentSpec → Object
  cluster_role : Metadata → List PolicyRule → Object
  cluster_role_binding : Metadata → List Subject → RoleRef → Object

pub data Kind : Type 0 where
  service_account_kind : Kind
  service_kind : Kind
  deployment_kind : Kind
  cluster_role_kind : Kind
  cluster_role_binding_kind : Kind

abbrev pub metadata_of : Object → Metadata
metadata_of (service_account m) = m
metadata_of (service m s) = m
metadata_of (deployment m s) = m
metadata_of (cluster_role m rules) = m
metadata_of (cluster_role_binding m subjects role) = m

abbrev pub kind_of : Object → Kind
kind_of (service_account m) = service_account_kind
kind_of (service m s) = service_kind
kind_of (deployment m s) = deployment_kind
kind_of (cluster_role m rules) = cluster_role_kind
kind_of (cluster_role_binding m subjects role) = cluster_role_binding_kind

-- What names an object at the server.
abbrev pub key_of : Object → Kind × String × String
key_of o = (kind_of o, (metadata_of o).namespace, (metadata_of o).name)

-- The owner reference that every object has.
abbrev pub owner_of : K8sgpt → OwnerReference
owner_of config = record {
  api_version = config.api_version;
  kind = config.kind;
  name = config.name;
  uid = config.uid;
  controller = some true;
  block_owner_deletion = some true;
}

-- A Secret's `Data`.
abbrev pub SecretValues : Type 0
SecretValues = List (String × String)

-- json.Marshal of that map, and sha256.Sum256 in hexadecimal digits.
pub record Digest : Type 0 where
  pub marshal : SecretValues → Outcome String
  pub sha256 : String → String

-- `create_or_patch o expected` is controllerutil.CreateOrPatch with a mutateFn that copies the spec
-- of `expected`, or with none.
pub data ResourceCall : Type 0 where
  get_secret : (namespace name : String) → ResourceCall
  get_existing : Kind → (namespace name : String) → ResourceCall
  create_or_patch : Object → Option Object → ResourceCall
  delete_object : Object → ResourceCall

pub record Store : Type 0 where
  pub secret : List ResourceCall → String → String → Outcome SecretValues
  pub existing : List ResourceCall → Kind → String → String → Outcome Object
  pub create_or_patch : List ResourceCall → Object → Option Object → Option Fault
  pub delete : List ResourceCall → Object → Option Fault

module _ (s : Store) where
  abbrev pub read_secret : String → String → Effect ResourceCall (Outcome SecretValues)
  read_secret namespace name = call (get_secret namespace name) (λ log. s.secret log namespace name)

  abbrev pub read_existing : Object → Effect ResourceCall (Outcome Object)
  read_existing o =
      call (get_existing (kind_of o) (metadata_of o).namespace (metadata_of o).name)
        (λ log. s.existing log (kind_of o) (metadata_of o).namespace (metadata_of o).name)

  abbrev pub write_object : Object → Option Object → Effect ResourceCall (Option Fault)
  write_object o expected =
      call (create_or_patch o expected) (λ log. s.create_or_patch log o expected)

  abbrev pub drop_object : Object → Effect ResourceCall (Option Fault)
  drop_object o = call (delete_object o) (λ log. s.delete log o)
