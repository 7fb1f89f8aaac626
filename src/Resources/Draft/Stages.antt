-- ===== src/Resources/Draft/Stages.antt =====
-- What the stages of GetDeployment keep.
use k8sgpt_operator.Common.{
  String, Bool, not, ◌&&◌, List, [], ◌∷◌, Option, none, some, All, ◌≡◌, refl, inl, inr, is_empty,
  if-rule, ◌==◌,
}
use k8sgpt_operator.Built.{Holds, Holds-bind, Holds-if}
use k8sgpt_operator.Api.K8sgpt.{
  SecretRef, S3Backend, AzureBackend, RemoteCacheRef, ResourceRequirements, AiSpec, K8sgpt,
  amazon_bedrock, azure_open_ai,
}
use k8sgpt_operator.Resources.Objects.{EnvVar}
use k8sgpt_operator.Resources.Draft.{
  place, password_env, cache_variables, azure_variables, aws_variables, cache_variables_of,
  remote_cache_env, configure_resources, azure_env, engine_env, api_type_env, configure,
}
use k8sgpt_operator.Resources.Start.{Draft, append_env, variable_if}
use k8sgpt_operator.Resources.Draft.Invariant.{
  IsAiSecret, IsCredentials, IsConfigured, pod_account, IsFor, append_env-IsFor, variable_if-All,
  place-IsFor,
}

module _ (config : K8sgpt) (ai : AiSpec) where
  password_env-All :
      (secret : Option SecretRef)
      → ((name : String) → IsAiSecret secret name → IsAiSecret ai.secret name)
      → All (IsConfigured config ai) (password_env ai secret)
  unfolding password_env
  password_env-All none h = tt
  password_env-All (some r) h =
      if-rule (All (IsConfigured config ai)) (ai.backend == amazon_bedrock) _ _ tt
        (inl (h r.name refl), tt)

  cache_variables-All :
      (credentials : Option String) (vars : List (String × String))
      → ((name : String) → credentials ≡ some name → IsCredentials config.spec.remote_cache name)
      → Holds (All (IsConfigured config ai)) (cache_variables credentials vars)
  unfolding cache_variables
  cache_variables-All none [] h = tt
  cache_variables-All (some name) [] h = tt
  cache_variables-All none (v ∷ vars) h = tt
  cache_variables-All (some name) ((x, key) ∷ vars) h =
      Holds-bind (All (IsConfigured config ai)) (All (IsConfigured config ai))
        (cache_variables (some name) vars) _ (cache_variables-All (some name) vars h)
        (λ more g. (inr (h name refl), g))

  cache_variables_of-All :
      (azure : Option AzureBackend) (s3 : Option S3Backend) (credentials : Option String)
      → ((name : String) → credentials ≡ some name → IsCredentials config.spec.remote_cache name)
      → Holds (All (IsConfigured config ai)) (cache_variables_of azure s3 credentials)
  cache_variables_of-All (some a) s3 credentials h =
      cache_variables-All credentials azure_variables h
  cache_variables_of-All none (some b) credentials h =
      cache_variables-All credentials aws_variables h
  cache_variables_of-All none none credentials h = tt

  remote_cache_env-All :
      (cache : Option RemoteCacheRef)
      → ((name : String) → IsCredentials cache name → IsCredentials config.spec.remote_cache name)
      → Holds (All (IsConfigured config ai)) (remote_cache_env cache)
  unfolding remote_cache_env
  remote_cache_env-All none h = tt
  remote_cache_env-All (some cache) h =
      cache_variables_of-All cache.azure cache.s3 cache.credentials h

  azure_env-All :
      (name value backend message : String)
      → Holds (All (IsConfigured config ai)) (azure_env name value backend message)
  unfolding azure_env
  azure_env-All name value backend message =
      Holds-if (All (IsConfigured config ai)) (not (is_empty value) && backend == azure_open_ai) _ _
        (tt, tt)
        (Holds-if (All (IsConfigured config ai))
          (not (is_empty value) && not (backend == azure_open_ai)) _ _ tt tt)

  module _ (account : String) (notes : List (String × String)) where
    configure_resources-IsFor :
        (given : Option ResourceRequirements) (d : Draft)
        → IsFor config ai account notes d
        → IsFor config ai account notes (configure_resources given d)
    configure_resources-IsFor none d i = i
    configure_resources-IsFor (some r) d i = record {
      named = i.named;
      owned = i.owned;
      marked = i.marked;
      noted = i.noted;
      placed = i.placed;
      selects = i.selects;
      labelled = i.labelled;
      annotated = i.annotated;
      runs_as = i.runs_as;
      env = i.env;
    }

    append_if :
        (name value : String) (d : Draft)
        → IsFor config ai account notes d
        → IsFor config ai account notes (append_env (variable_if name value) d)
    append_if name value d =
        append_env-IsFor config ai account notes (variable_if name value) d
          (variable_if-All config ai name value)

  pub configure-IsFor :
      (out_of_cluster : Bool) (account : String) (notes : List (String × String)) (d : Draft)
      → IsFor config ai account notes d
      → Holds
          (IsFor config ai (pod_account config ai out_of_cluster account) notes)
          (configure config ai out_of_cluster d)
  unfolding configure engine_env api_type_env
  configure-IsFor out_of_cluster account notes d i =
      let who : String = pod_account config ai out_of_cluster account in
      let P : Draft → Type 0 = IsFor config ai who notes in
      let Q : List EnvVar → Type 0 = All (IsConfigured config ai) in
      Holds-bind P P (place config ai out_of_cluster d) _
        (place-IsFor config ai out_of_cluster account notes d i)
        λ d1 i1.
          Holds-bind Q P (remote_cache_env config.spec.remote_cache) _
            (remote_cache_env-All config.spec.remote_cache (λ name h. h))
            λ credentials c. Holds-bind Q P (engine_env ai) _ (azure_env-All _ _ _ _) λ engine e.
              Holds-bind Q P (api_type_env ai) _ (azure_env-All _ _ _ _) λ api_type t.
                append_if who notes _ _ _ (
                  append_if who notes _ _ _ (
                    append_env-IsFor config ai who notes api_type _ t (
                      append_env-IsFor config ai who notes engine _ e (
                        configure_resources-IsFor who notes config.spec.resources _ (
                          append_if who notes _ _ _ (
                            append_if who notes _ _ _ (
                              append_env-IsFor config ai who notes credentials _ c (
                                append_env-IsFor config ai who notes _ d1
                                  (password_env-All ai.secret (λ name h. h)) i1))))))))
