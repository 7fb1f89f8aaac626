-- ===== src/Client/Requests.antt =====
-- The requests that pkg/client builds from the configuration: config.go, integration.go and
-- analysis.go.
use k8sgpt_operator.Common.{
  String, Bool, ◌&&◌, List, [], ◌∷◌, Option, none, some, failure, is_empty, if◌then◌else◌,
}
use k8sgpt_operator.Built.{Built, built, refused, crashed, ◌>>=◌}
use k8sgpt_operator.Text.{decimal}
use k8sgpt_operator.Api.K8sgpt.{
  S3Backend, AzureBackend, GcsBackend, RemoteCacheRef, Connection, CustomAnalyzer, Trivy, AiSpec,
  K8sgptSpec, effective_backend,
}

-- schemav1.Cache; the messages of the schema are those of the configuration.
pub data Cache : Type 0 where
  s3_cache : S3Backend → Cache
  azure_cache : AzureBackend → Cache
  gcs_cache : GcsBackend → Cache
  interplex_cache : (endpoint : String) → Cache

pub record AnalyzerRequest : Type 0 where
  pub name : String
  pub url : String
  pub port : String

-- schemav1.AddConfigRequest
pub record AddConfigRequest : Type 0 where
  pub cache : Option Cache
  pub custom_analyzers : List AnalyzerRequest
  pub trivy : Option Trivy

-- schemav1.AnalyzeRequest
pub record AnalyzeRequest : Type 0 where
  pub explain : Bool
  pub no_cache : Bool
  pub backend : String
  pub namespace : String
  pub filters : List String
  pub anonymize : Bool
  pub language : String

-- The test of one input.
abbrev required : {A : Type 0} → String → String → Built A → Built A
required value message rest = if is_empty value then refused (failure message) else rest

unfoldable pub s3_request : S3Backend → Built (Option Cache)
s3_request b =
    required b.bucket_name "s3 bucket name is required"
      (required b.region "s3 region is required" (built (some (s3_cache b))))

unfoldable pub azure_request : AzureBackend → Built (Option Cache)
azure_request b =
    required b.storage_account "azure storage account is required"
      (required b.container_name "azure container name is required" (built (some (azure_cache b))))

unfoldable pub gcs_request : GcsBackend → Built (Option Cache)
gcs_request b = required b.bucket_name "gcs bucket name is required" (
    required b.region "gcs region is required"
      (required b.project_id "gcs project id is required" (built (some (gcs_cache b)))))

unfoldable pub interplex_request : String → Built (Option Cache)
interplex_request endpoint =
    required endpoint "interplex endpoint is required" (built (some (interplex_cache endpoint)))

-- The first of the four that is set.
abbrev pub cache_of :
    Option S3Backend
    → Option AzureBackend
    → Option GcsBackend
    → Option String
    → Built (Option Cache)
cache_of (some s3) azure gcs interplex = s3_request s3
cache_of none (some azure) gcs interplex = azure_request azure
cache_of none none (some gcs) interplex = gcs_request gcs
cache_of none none none (some endpoint) = interplex_request endpoint
cache_of none none none none = built none

unfoldable pub cache_request : Option RemoteCacheRef → Built (Option Cache)
cache_request none = built none
cache_request (some r) = cache_of r.s3 r.azure r.gcs r.interplex

-- The connection of a custom analyzer is followed.
abbrev pub analyzer_request : String → Option Connection → Built AnalyzerRequest
analyzer_request name none = crashed
analyzer_request name (some c) = built (record { name = name; url = c.url; port = decimal c.port })

unfoldable pub analyzer_requests : List CustomAnalyzer → Built (List AnalyzerRequest)
analyzer_requests [] = built []
analyzer_requests (a ∷ as') = do
  first ← analyzer_request a.name a.connection
  rest ← analyzer_requests as'
  built (first ∷ rest)

abbrev pub analyzers_of : Option (List CustomAnalyzer) → List CustomAnalyzer
analyzers_of none = []
analyzers_of (some analyzers) = analyzers

-- The request of AddConfig.
unfoldable pub add_config_request : K8sgptSpec → Built AddConfigRequest
add_config_request spec = do
  cache ← cache_request spec.remote_cache
  analyzers ← analyzer_requests (analyzers_of spec.custom_analyzers)
  built (record { cache = cache; custom_analyzers = analyzers; trivy = none })

-- The request of AddIntegration.
abbrev pub integration_request : Trivy → AddConfigRequest
integration_request trivy = record { cache = none; custom_analyzers = []; trivy = some trivy }

abbrev pub analyze_request_with : K8sgptSpec → AiSpec → Bool → Option Bool → Built AnalyzeRequest
analyze_request_with spec ai allow_ai_request none = crashed
analyze_request_with spec ai allow_ai_request (some anonymize) = built (record {
  explain = ai.enabled && allow_ai_request;
  no_cache = spec.no_cache;
  backend = effective_backend ai.backend;
  namespace = spec.target_namespace;
  filters = spec.filters;
  anonymize = anonymize;
  language = ai.language;
})

-- The request of ProcessAnalysis; the pointer to the flag of the anonymization is followed.
unfoldable pub analyze_request :
    K8sgptSpec → AiSpec → (allow_ai_request : Bool) → Built AnalyzeRequest
analyze_request spec ai allow_ai_request =
    analyze_request_with spec ai allow_ai_request ai.anonymize
