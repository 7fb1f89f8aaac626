-- ===== src/Resources/Draft/Accepted.antt =====
-- For which configurations the parts of GetDeployment that read nothing succeed.
use k8sgpt_operator.Common.{
  String, Bool, true, false, not, ◌&&◌, ◌||◌, Option, none, some, is_some, ◌≡◌, refl, is_empty,
  arith, ◌==◌,
}
use k8sgpt_operator.Built.{is_built, is_built-bind}
use k8sgpt_operator.Api.K8sgpt.{
  SecretRef, S3Backend, AzureBackend, RemoteCacheRef, AiSpec, K8sgpt, amazon_bedrock, azure_open_ai,
}
use k8sgpt_operator.Resources.Draft.{
  leave_cluster, place, cache_variables, cache_variables_of, remote_cache_env, azure_env,
  engine_env, api_type_env, configure,
}
use k8sgpt_operator.Resources.Start.{Draft}

-- The remote cache has the credentials that its variables need.
abbrev pub has_credentials : Option RemoteCacheRef → Bool
has_credentials none = true
has_credentials (some cache) =
    is_some cache.credentials || (not (is_some cache.azure) && not (is_some cache.s3))

-- Outside of the cluster there is a kubeconfig, the remote cache has credentials, settings of Azure
-- go with the backend azureopenai, and amazonbedrock has a region.
abbrev pub is_accepted : K8sgpt → AiSpec → (out_of_cluster : Bool) → Bool
is_accepted config ai out_of_cluster =
    (not out_of_cluster || is_some config.spec.kubeconfig)
    && has_credentials config.spec.remote_cache
    && (is_empty ai.engine || ai.backend == azure_open_ai)
    && (is_empty ai.azure_api_type || ai.backend == azure_open_ai)
    && (not (ai.backend == amazon_bedrock) || not (is_empty ai.region))

module _ (config : K8sgpt) (ai : AiSpec) where
  leave_cluster-is_built :
      (r : Option SecretRef) (d : Draft) → is_built (leave_cluster config ai r d) ≡ is_some r
  unfolding leave_cluster
  leave_cluster-is_built none d = refl
  leave_cluster-is_built (some r) d = refl

  place-is_built :
      (out : Bool) (d : Draft)
      → is_built (place config ai out d) ≡ (not out || is_some config.spec.kubeconfig)
  place-is_built true d = leave_cluster-is_built config.spec.kubeconfig d
  place-is_built false d = refl

  cache_variables_of-is_built :
      (azure : Option AzureBackend) (s3 : Option S3Backend) (credentials : Option String)
      → is_built (cache_variables_of azure s3 credentials)
        ≡ (is_some credentials || (not (is_some azure) && not (is_some s3)))
  unfolding cache_variables
  cache_variables_of-is_built (some a) s3 none = refl
  cache_variables_of-is_built (some a) s3 (some c) = refl
  cache_variables_of-is_built none (some b) none = refl
  cache_variables_of-is_built none (some b) (some c) = refl
  cache_variables_of-is_built none none none = refl
  cache_variables_of-is_built none none (some c) = refl

  remote_cache_env-is_built :
      (cache : Option RemoteCacheRef) → is_built (remote_cache_env cache) ≡ has_credentials cache
  unfolding remote_cache_env
  remote_cache_env-is_built none = refl
  remote_cache_env-is_built (some cache) =
      cache_variables_of-is_built cache.azure cache.s3 cache.credentials

  azure_env-is_built :
      (name value backend message : String)
      → is_built (azure_env name value backend message)
        ≡ (is_empty value || backend == azure_open_ai)
  unfolding azure_env
  azure_env-is_built name value backend message = ground arith

  pub configure-is_built :
      (out : Bool) (d : Draft)
      → is_built (configure config ai out d) ≡ (
          (not out || is_some config.spec.kubeconfig)
          && (has_credentials config.spec.remote_cache
              && ((is_empty ai.engine || ai.backend == azure_open_ai)
                  && ((is_empty ai.azure_api_type || ai.backend == azure_open_ai) && true))))
  unfolding configure engine_env api_type_env
  configure-is_built out d =
      is_built-bind _ _ (place config ai out d) _ (place-is_built out d) λ d'.
        is_built-bind _ _ (remote_cache_env config.spec.remote_cache) _
          (remote_cache_env-is_built config.spec.remote_cache)
          λ credentials. is_built-bind _ _ (engine_env ai) _ (azure_env-is_built _ _ _ _) λ engine.
            is_built-bind _ _ (api_type_env ai) _ (azure_env-is_built _ _ _ _) λ api_type. refl
