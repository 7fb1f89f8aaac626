-- ===== src/Resources/Draft.antt =====
-- pkg/resources/k8sgpt.go: the parts of GetDeployment that read nothing but the configuration.
pub mod Invariant
pub mod Stages
pub mod Accepted
use k8sgpt_operator.Common.{
  String, Bool, true, false, not, ◌&&◌, List, [], ◌∷◌, ◌++◌, Option, none, some, failure, is_empty,
  ◌==◌, if◌then◌else◌,
}
use k8sgpt_operator.Built.{Built, built, refused, crashed, ◌>>=◌}
use k8sgpt_operator.Text.{◌<>◌}
use k8sgpt_operator.Api.K8sgpt.{
  SecretRef, S3Backend, AzureBackend, RemoteCacheRef, ResourceRequirements, AiSpec, K8sgpt,
  amazon_bedrock, azure_open_ai, effective_base_url,
}
use k8sgpt_operator.Resources.Objects.{EnvVar, secret_file, Container, PodTemplate}
use k8sgpt_operator.Resources.Rights.{irsa_of}
use k8sgpt_operator.Resources.Start.{
  Draft, in_template, in_container, append_env, variable, secret_variable, variable_if,
}

-- needsServiceAccount
unfoldable pub needs_service_account : K8sgpt → AiSpec → Bool
needs_service_account config ai =
    ai.backend == amazon_bedrock && not (is_empty (irsa_of config.spec.extra_options))

abbrev pub without_account : PodTemplate → PodTemplate
without_account t = record t {
  service_account_name = "";
  automount_service_account_token = some false;
}

abbrev pub kubeconfig_path : K8sgpt → String
kubeconfig_path config = "/tmp/" <> config.name

abbrev pub with_kubeconfig_container : K8sgpt → Container → Container
with_kubeconfig_container config c = record c {
  args = c.args ++ ("--kubeconfig=" <> (kubeconfig_path config <> "/kubeconfig")) ∷ [];
  volume_mounts =
      c.volume_mounts
      ++ record { name = "kubeconfig"; read_only = true; mount_path = kubeconfig_path config } ∷ [];
}

abbrev pub with_kubeconfig : K8sgpt → SecretRef → PodTemplate → PodTemplate
with_kubeconfig config r t = record t {
  container = with_kubeconfig_container config t.container;
  volumes =
      t.volumes
      ++ record { name = "kubeconfig"; source = secret_file r.name r.key "kubeconfig" } ∷ [];
}

-- The block of the mode outside of the cluster; the reference of the kubeconfig is followed.
unfoldable pub leave_cluster : K8sgpt → AiSpec → Option SecretRef → Draft → Built Draft
leave_cluster config ai none d = crashed
leave_cluster config ai (some r) d = built (
    in_template
      (λ t.
        with_kubeconfig config r (if needs_service_account config ai then t else without_account t))
      d)

abbrev pub place : K8sgpt → AiSpec → (out_of_cluster : Bool) → Draft → Built Draft
place config ai out_of_cluster d =
    if out_of_cluster then leave_cluster config ai config.spec.kubeconfig d else built d

-- The password of the simple backends.
unfoldable pub password_env : AiSpec → Option SecretRef → List EnvVar
password_env ai none = []
password_env ai (some r) =
    if ai.backend == amazon_bedrock then [] else secret_variable "K8SGPT_PASSWORD" r.name r.key ∷ []

-- addRemoteCacheEnvVar for each name and key.
unfoldable pub cache_variables : Option String → List (String × String) → Built (List EnvVar)
cache_variables credentials [] = built []
cache_variables none (v ∷ vars) = crashed
cache_variables (some credentials) ((name, key) ∷ vars) = do
  more ← cache_variables (some credentials) vars
  built (secret_variable name credentials key ∷ more)

abbrev pub azure_variables : List (String × String)
azure_variables =
    ("AZURE_CLIENT_ID", "azure_client_id")
    ∷ ("AZURE_TENANT_ID", "azure_tenant_id")
    ∷ ("AZURE_CLIENT_SECRET", "azure_client_secret")
    ∷ []

abbrev pub aws_variables : List (String × String)
aws_variables =
    ("AWS_ACCESS_KEY_ID", "aws_access_key_id")
    ∷ ("AWS_SECRET_ACCESS_KEY", "aws_secret_access_key")
    ∷ []

abbrev pub cache_variables_of :
    Option AzureBackend → Option S3Backend → Option String → Built (List EnvVar)
cache_variables_of (some azure) s3 credentials = cache_variables credentials azure_variables
cache_variables_of none (some s3) credentials = cache_variables credentials aws_variables
cache_variables_of none none credentials = built []

-- The credentials of the remote cache: Azure comes first.
unfoldable pub remote_cache_env : Option RemoteCacheRef → Built (List EnvVar)
remote_cache_env none = built []
remote_cache_env (some cache) = cache_variables_of cache.azure cache.s3 cache.credentials

-- The resources of the configuration replace the others as a whole.
abbrev pub configure_resources : Option ResourceRequirements → Draft → Draft
configure_resources none d = d
configure_resources (some r) d = in_container (λ c. record c { resources = r }) d

-- A setting that the backend azureopenai alone has.
unfoldable pub azure_env : (name value backend message : String) → Built (List EnvVar)
azure_env name value backend message =
    if not (is_empty value) && backend == azure_open_ai
    then built (variable name value ∷ [])
    else if not (is_empty value) && not (backend == azure_open_ai)
    then refused (failure message)
    else built []

unfoldable pub engine_env : AiSpec → Built (List EnvVar)
engine_env ai =
    azure_env "K8SGPT_ENGINE" ai.engine ai.backend
      "engine is supported only by azureopenai provider"

unfoldable pub api_type_env : AiSpec → Built (List EnvVar)
api_type_env ai =
    azure_env "K8SGPT_AZURE_API_TYPE" ai.azure_api_type ai.backend
      "azureAPIType is supported only by azureopenai provider"

-- GetDeployment from the mode outside of the cluster to the checks for amazonbedrock.
unfoldable pub configure : K8sgpt → AiSpec → (out_of_cluster : Bool) → Draft → Built Draft
configure config ai out_of_cluster d = do
  placed ← place config ai out_of_cluster d
  let with_password = append_env (password_env ai ai.secret) placed
  credentials ← remote_cache_env config.spec.remote_cache
  let with_url = append_env (variable_if "K8SGPT_BASEURL" (effective_base_url ai)) (
      append_env (variable_if "K8SGPT_PROVIDER_ID" ai.provider_id)
        (append_env credentials with_password))
  engine ← engine_env ai
  api_type ← api_type_env ai
  built (
      append_env (variable_if "K8SGPT_PROXY_ENDPOINT" ai.proxy_endpoint) (
        append_env (variable_if "K8SGPT_CUSTOM_HEADERS" ai.custom_headers) (
          append_env api_type
            (append_env engine (configure_resources config.spec.resources with_url)))))
