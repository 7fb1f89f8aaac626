-- ===== src/Resources/Start.antt =====
-- pkg/resources/k8sgpt.go: the literal that GetDeployment starts with, and the ways to change it.
use k8sgpt_operator.Common.{
  String, false, List, [], ◌∷◌, ◌++◌, Option, none, some, or_else, lookup, is_empty, if◌then◌else◌,
}
use k8sgpt_operator.Text.{◌<>◌}
use k8sgpt_operator.Maps.{set_entries}
use k8sgpt_operator.Api.K8sgpt.{ResourceRequirements, AiSpec, K8sgpt, effective_backend}
use k8sgpt_operator.Resources.Objects.{
  Metadata, EnvVar, text, from_secret, empty_dir, Container, PodTemplate, DeploymentSpec, owner_of,
}

-- The Deployment while it is put together.
pub record Draft : Type 0 where
  pub metadata : Metadata
  pub spec : DeploymentSpec

-- Changes of deployment.Spec.Template.Spec and of its first container.
abbrev pub in_template : (PodTemplate → PodTemplate) → Draft → Draft
in_template f d = record d { spec = record d.spec { template = f d.spec.template } }

abbrev pub in_container : (Container → Container) → Draft → Draft
in_container f = in_template λ t. record t { container = f t.container }

unfoldable pub append_env : List EnvVar → Draft → Draft
append_env vars = in_container λ c. record c { env = c.env ++ vars }

abbrev pub variable : String → String → EnvVar
variable name value = record { name = name; source = text value }

abbrev pub secret_variable : String → (secret key : String) → EnvVar
secret_variable name secret key = record {
  name = name;
  source = from_secret (record { name = secret; key = key });
}

-- A variable that is set where its value is not empty.
abbrev pub variable_if : String → String → List EnvVar
variable_if name value = if is_empty value then [] else variable name value ∷ []

unfoldable pub default_env : AiSpec → List EnvVar
default_env ai =
    variable "K8SGPT_MODEL" ai.model
    ∷ variable "K8SGPT_BACKEND" (effective_backend ai.backend)
    ∷ variable "K8SGPT_MAX_TOKENS" ai.max_tokens
    ∷ variable "K8SGPT_TOP_K" ai.topk
    ∷ variable "XDG_CONFIG_HOME" "/k8sgpt-data/.config"
    ∷ variable "XDG_CACHE_HOME" "/k8sgpt-data/.cache"
    ∷ variable "K8SGPT_TOP_P" "0"
    ∷ []

abbrev pub limits_of : Option ResourceRequirements → List (String × String)
limits_of none = []
limits_of (some r) = r.limits

abbrev pub requests_of : Option ResourceRequirements → List (String × String)
requests_of none = []
requests_of (some r) = r.requests

-- The resources of the literal, with the defaults for what is not given.
unfoldable pub default_resources : Option ResourceRequirements → ResourceRequirements
default_resources given = record {
  limits =
      ("cpu", or_else "1" (lookup "cpu" (limits_of given)))
      ∷ ("memory", or_else "512Mi" (lookup "memory" (limits_of given)))
      ∷ [];
  requests =
      ("cpu", or_else "0.2" (lookup "cpu" (requests_of given)))
      ∷ ("memory", or_else "256Mi" (lookup "memory" (requests_of given)))
      ∷ [];
}

-- buildK8sGPTArgs
abbrev pub build_k8sgpt_args : List String
build_k8sgpt_args = "serve" ∷ []

abbrev pub image_of : K8sgpt → String
image_of config =
    config.spec.repository
    <> (":" <> (if is_empty config.spec.version then "latest" else config.spec.version))

-- The labels "app" and the configured ones.
unfoldable pub labels_with : K8sgpt → List (String × String) → List (String × String)
labels_with config custom = set_entries custom (("app", config.name) ∷ [])

-- The literal that GetDeployment starts with.
unfoldable pub initial_draft : K8sgpt → AiSpec → (account : String) → List (String × String) → Draft
initial_draft config ai account pod_annotations = record {
  metadata = record {
    name = config.name;
    namespace = config.namespace;
    labels = labels_with config config.spec.deployment_labels;
    annotations = set_entries config.spec.deployment_annotations [];
    owners = owner_of config ∷ [];
  };
  spec = record {
    replicas = 1;
    match_labels = ("app", config.name) ∷ [];
    template = record {
      labels = labels_with config config.spec.pod_labels;
      annotations = pod_annotations;
      service_account_name = account;
      automount_service_account_token = none;
      container = record {
        name = "k8sgpt";
        image_pull_policy = config.spec.image_pull_policy;
        image = image_of config;
        args = build_k8sgpt_args;
        env = default_env ai;
        ports = 8080 ∷ [];
        resources = default_resources config.spec.resources;
        volume_mounts =
            record { name = "k8sgpt-vol"; read_only = false; mount_path = "/k8sgpt-data" } ∷ [];
        security_context = config.spec.container_security_context;
      };
      volumes = record { name = "k8sgpt-vol"; source = empty_dir } ∷ [];
      node_selector = config.spec.node_selector;
      tolerations = config.spec.tolerations;
      security_context = config.spec.security_context;
    };
  };
}
