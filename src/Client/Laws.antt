-- ===== src/Client/Laws.antt =====
-- What AddConfig sends.
use k8sgpt_operator.Common.{
  String, false, List, [], ◌∷◌, Option, none, some, ◌≡◌, refl, sym, subst, ap, ◌∙◌, is_empty, arith,
}
use k8sgpt_operator.Built.{built, Holds, Holds-bind}
use k8sgpt_operator.Api.K8sgpt.{
  S3Backend, AzureBackend, GcsBackend, RemoteCacheRef, Connection, CustomAnalyzer, K8sgptSpec,
}
use k8sgpt_operator.Resources.Draft.{
  cache_variables, cache_variables_of, remote_cache_env, azure_variables,
}
use k8sgpt_operator.Resources.Start.{secret_variable}
use k8sgpt_operator.Client.Requests.{
  Cache, s3_cache, azure_cache, gcs_cache, interplex_cache, AnalyzerRequest, s3_request,
  azure_request, gcs_request, interplex_request, cache_of, cache_request, analyzer_request,
  analyzer_requests, analyzers_of, add_config_request,
}

abbrev IsGiven : String → Type 0
IsGiven value = is_empty value ≡ false

-- Every field of the cache is set.
abbrev pub IsComplete : Option Cache → Type 0
IsComplete none = Unit
IsComplete (some (s3_cache b)) = IsGiven b.bucket_name × IsGiven b.region
IsComplete (some (azure_cache b)) = IsGiven b.storage_account × IsGiven b.container_name
IsComplete (some (gcs_cache b)) = IsGiven b.bucket_name × IsGiven b.region × IsGiven b.project_id
IsComplete (some (interplex_cache endpoint)) = IsGiven endpoint

s3_request-IsComplete : (b : S3Backend) → Holds IsComplete (s3_request b)
unfolding s3_request
s3_request-IsComplete b = ground arith

azure_request-IsComplete : (b : AzureBackend) → Holds IsComplete (azure_request b)
unfolding azure_request
azure_request-IsComplete b = ground arith

gcs_request-IsComplete : (b : GcsBackend) → Holds IsComplete (gcs_request b)
unfolding gcs_request
gcs_request-IsComplete b = ground arith

interplex_request-IsComplete : (e : String) → Holds IsComplete (interplex_request e)
unfolding interplex_request
interplex_request-IsComplete e = ground arith

cache_of-IsComplete :
    (s3 : Option S3Backend) (azure : Option AzureBackend) (gcs : Option GcsBackend)
    (interplex : Option String)
    → Holds IsComplete (cache_of s3 azure gcs interplex)
cache_of-IsComplete (some b) azure gcs interplex = s3_request-IsComplete b
cache_of-IsComplete none (some b) gcs interplex = azure_request-IsComplete b
cache_of-IsComplete none none (some b) interplex = gcs_request-IsComplete b
cache_of-IsComplete none none none (some e) = interplex_request-IsComplete e
cache_of-IsComplete none none none none = tt

cache_request-IsComplete : (r : Option RemoteCacheRef) → Holds IsComplete (cache_request r)
unfolding cache_request
cache_request-IsComplete none = tt
cache_request-IsComplete (some r) = cache_of-IsComplete r.s3 r.azure r.gcs r.interplex

abbrev names_of : List CustomAnalyzer → List String
names_of [] = []
names_of (a ∷ rest) = a.name ∷ names_of rest

abbrev requested_names : List AnalyzerRequest → List String
requested_names [] = []
requested_names (a ∷ rest) = a.name ∷ requested_names rest

analyzer_request-name :
    (name : String) (c : Option Connection)
    → Holds (λ (r : AnalyzerRequest). r.name ≡ name) (analyzer_request name c)
analyzer_request-name name none = tt
analyzer_request-name name (some c) = refl

analyzer_requests-names :
    (analyzers : List CustomAnalyzer)
    → Holds (λ rs. requested_names rs ≡ names_of analyzers) (analyzer_requests analyzers)
unfolding analyzer_requests
analyzer_requests-names [] = refl
analyzer_requests-names (a ∷ rest) =
    let P : List AnalyzerRequest → Type 0 = λ rs. requested_names rs ≡ names_of (a ∷ rest) in
    Holds-bind (λ (r : AnalyzerRequest). r.name ≡ a.name) P (analyzer_request a.name a.connection) _
      (analyzer_request-name a.name a.connection)
      λ first h.
        Holds-bind (λ rs. requested_names rs ≡ names_of rest) P (analyzer_requests rest) _
          (analyzer_requests-names rest) (λ more g. cc)

-- The request of AddConfig, where one is built, has no cache with an empty field and exactly the
-- custom analyzers of the configuration, in their order.
pub add_config_request-IsComplete :
    (spec : K8sgptSpec)
    → Holds
        (λ r.
          IsComplete r.cache
          × (requested_names r.custom_analyzers ≡ names_of (analyzers_of spec.custom_analyzers)))
        (add_config_request spec)
unfolding add_config_request
add_config_request-IsComplete spec =
    Holds-bind IsComplete _ (cache_request spec.remote_cache) _
      (cache_request-IsComplete spec.remote_cache)
      λ cache c.
        Holds-bind (λ rs. requested_names rs ≡ names_of (analyzers_of spec.custom_analyzers)) _
          (analyzer_requests (analyzers_of spec.custom_analyzers)) _
          (analyzer_requests-names (analyzers_of spec.custom_analyzers)) (λ analyzers a. (c, a))

s3_request-preferred : (b : S3Backend) → Holds (λ cache. cache ≡ some (s3_cache b)) (s3_request b)
unfolding s3_request
s3_request-preferred b = ground arith

-- A remote cache with both S3 and Azure: the server is told to use S3, and its Deployment gets the
-- credentials of Azure and of nothing else.
pub mismatched_credentials :
    (r : RemoteCacheRef) (s3 : S3Backend) (azure : AzureBackend) (credentials : String)
    → r.s3 ≡ some s3
    → r.azure ≡ some azure
    → r.credentials ≡ some credentials
    → Holds (λ cache. cache ≡ some (s3_cache s3)) (cache_request (some r))
      × (remote_cache_env (some r)
          ≡ built (
              secret_variable "AZURE_CLIENT_ID" credentials "azure_client_id"
              ∷ secret_variable "AZURE_TENANT_ID" credentials "azure_tenant_id"
              ∷ secret_variable "AZURE_CLIENT_SECRET" credentials "azure_client_secret"
              ∷ []))
unfolding cache_request remote_cache_env cache_variables s3_request
mismatched_credentials r s3 azure credentials h k c = (
  subst (λ x. Holds (λ cache. cache ≡ some (s3_cache s3)) (cache_of x r.azure r.gcs r.interplex))
      (sym h) (s3_request-preferred s3),
  ap (λ x. cache_variables_of x r.s3 r.credentials) k
      ∙ ap (λ x. cache_variables x azure_variables) c,
)
