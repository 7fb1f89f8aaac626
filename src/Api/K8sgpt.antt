-- ===== src/Api/K8sgpt.antt =====
-- api/v1alpha1/k8sgpt_types.go
use k8sgpt_operator.Common.{ℕ, ℤ, String, Bool, Option, List, ◌==◌, is_empty, not, if◌then◌else◌}
use k8sgpt_operator.Json.{Json}

pub record SecretRef : Type 0 where
  pub name : String
  pub key : String

-- `backstage` is a pointer to a record of one flag.
pub record ExtraOptionsRef : Type 0 where
  pub backstage : Option Bool
  pub service_account_irsa : String

pub record S3Backend : Type 0 where
  pub bucket_name : String
  pub region : String

pub record AzureBackend : Type 0 where
  pub storage_account : String
  pub container_name : String

pub record GcsBackend : Type 0 where
  pub bucket_name : String
  pub region : String
  pub project_id : String

pub record RemoteCacheRef : Type 0 where
  pub credentials : Option String
  pub gcs : Option GcsBackend
  pub s3 : Option S3Backend
  pub azure : Option AzureBackend
  pub interplex : Option String

pub record Connection : Type 0 where
  pub url : String
  pub port : ℕ

-- The connection is a pointer.
pub record CustomAnalyzer : Type 0 where
  pub name : String
  pub connection : Option Connection

pub record WebhookRef : Type 0 where
  pub type : String
  pub endpoint : String
  pub channel : String
  pub user_name : String
  pub icon_url : String
  pub secret : Option SecretRef

pub record BackOff : Type 0 where
  pub enabled : Bool
  pub max_retries : ℤ

pub record AutoRemediation : Type 0 where
  pub enabled : Bool
  pub similarity_requirement : String
  pub resources : List String

pub record AiSpec : Type 0 where
  pub auto_remediation : AutoRemediation
  pub backend : String
  pub back_off : Option BackOff
  pub base_url : String
  pub region : String
  pub azure_api_type : String
  pub model : String
  pub engine : String
  pub secret : Option SecretRef
  pub enabled : Bool
  pub anonymize : Option Bool
  pub language : String
  pub proxy_endpoint : String
  pub provider_id : String
  pub max_tokens : String
  pub topk : String
  pub custom_headers : String

pub record Trivy : Type 0 where
  pub enabled : Bool
  pub skip_install : Bool
  pub namespace : String

-- corev1.ResourceRequirements; a quantity is its text.
pub record ResourceRequirements : Type 0 where
  pub limits : List (String × String)
  pub requests : List (String × String)

-- `integrations` is a pointer to a record of one pointer, `analysis` one to a record of the
-- interval, an item of `image_pull_secrets` a record of the name. Tolerations and security contexts,
-- which are only copied into the Deployment, are JSON values.
pub record K8sgptSpec : Type 0 where
  pub version : String
  pub repository : String
  pub image_pull_policy : String
  pub image_pull_secrets : List String
  pub resources : Option ResourceRequirements
  pub no_cache : Bool
  pub custom_analyzers : Option (List CustomAnalyzer)
  pub filters : List String
  pub extra_options : Option ExtraOptionsRef
  pub sink : Option WebhookRef
  pub ai : Option AiSpec
  pub remote_cache : Option RemoteCacheRef
  pub integrations : Option (Option Trivy)
  pub node_selector : List (String × String)
  pub tolerations : List Json
  pub target_namespace : String
  pub analysis : Option String
  pub kubeconfig : Option SecretRef
  pub deployment_labels : List (String × String)
  pub deployment_annotations : List (String × String)
  pub pod_labels : List (String × String)
  pub pod_annotations : List (String × String)
  pub security_context : Option Json
  pub container_security_context : Option Json

pub record K8sgptStatus : Type 0 where
  pub last_analysis_error : String
  pub last_analysis_error_time : Option ℕ

pub record K8sgpt : Type 0 where
  pub api_version : String
  pub kind : String
  pub name : String
  pub namespace : String
  pub uid : String
  pub finalizers : List String
  pub deletion_timestamp : Option ℕ
  pub spec : K8sgptSpec
  pub status : K8sgptStatus

abbrev pub open_ai : String
open_ai = "openai"

abbrev pub deep_seek : String
deep_seek = "deepseek"

abbrev pub azure_open_ai : String
azure_open_ai = "azureopenai"

abbrev pub amazon_bedrock : String
amazon_bedrock = "amazonbedrock"

abbrev pub google_vertex_ai : String
google_vertex_ai = "googlevertexai"

abbrev pub ibm_watsonx_ai : String
ibm_watsonx_ai = "ibmwatsonxai"

abbrev pub deep_seek_base_url : String
deep_seek_base_url = "https://api.deepseek.com"

-- EffectiveBackend
unfoldable pub effective_backend : String → String
effective_backend backend = if backend == deep_seek then open_ai else backend

-- EffectiveBaseURL
unfoldable pub effective_base_url : AiSpec → String
effective_base_url ai =
    if not (is_empty ai.base_url)
    then ai.base_url
    else if ai.backend == deep_seek
    then deep_seek_base_url
    else ""
