-- ===== src/Resources/Build/Accepted.antt =====
-- For which configurations GetDeployment returns a Deployment.
use k8sgpt_operator.Common.{
  String, Bool, true, not, ◌&&◌, ◌||◌, List, [], ◌∷◌, Option, none, some, is_some, Outcome, ok, err,
  ◌≡◌, refl, sym, subst, is_empty, arith, ◌==◌,
}
use k8sgpt_operator.Built.{Built, built, refused, crashed, is_built}
use k8sgpt_operator.Api.K8sgpt.{
  SecretRef, AiSpec, K8sgpt, amazon_bedrock, azure_open_ai, ibm_watsonx_ai,
}
use k8sgpt_operator.Effect.{Effect, pure, ◌>>=◌, on_outcome}
use k8sgpt_operator.Effect.Returns.{Returns, Returns-pure, Returns-if, Returns-then}
use k8sgpt_operator.Resources.Objects.{SecretValues, Digest, ResourceCall, Store}
use k8sgpt_operator.Resources.Draft.{configure}
use k8sgpt_operator.Resources.Start.{Draft, initial_draft}
use k8sgpt_operator.Resources.Draft.Accepted.{is_accepted, has_credentials, configure-is_built}
use k8sgpt_operator.Resources.Build.{
  calculate_secret_checksum, annotate, checksum_annotations, pod_annotations_of, add_secret_as_env,
  unless_refused, bedrock_secret, bedrock_region, check_bedrock, check_vertex, watsonx_secret,
  check_watsonx, check_backend, deployment_for, deployment_if, get_deployment,
}

-- Every Secret can be read, and its values can be marshalled.
abbrev pub IsReadable : Digest → Store → Type 0
IsReadable g s =
    ((log : List ResourceCall) (namespace name : String)
      → (values : SecretValues) × (s.secret log namespace name ≡ ok values))
    × ((values : SecretValues) → (json : String) × (g.marshal values ≡ ok json))

regroup :
    (x y z w c : Bool) → ((x && (y && (z && (w && true)))) && (c && true)) ≡ (x && y && z && w && c)
regroup x y z w c = ground arith

abbrev Succeeds : {A : Type 0} → Bool → Effect ResourceCall (Built A) → Type 0
Succeeds b m = Returns (λ r. is_built r ≡ b) m

abbrev IsOk : {A : Type 0} → Outcome A → Type 0
IsOk (ok a) = Unit
IsOk (err e) = ⊥

module _ (g : Digest) (s : Store) (config : K8sgpt) where
  unless_refused-Succeeds :
      {B : Type 0} (b c : Bool) (m : Built Draft) (go : Draft → Effect ResourceCall (Built B))
      → is_built m ≡ b
      → ((d : Draft) → Succeeds c (go d))
      → Succeeds (b && c) (unless_refused g s config m go)
  unless_refused-Succeeds b c (built d) go p q = rw (← p) (q d)
  unless_refused-Succeeds b c (refused e) go p q = Returns-pure _ _ (rw (← p) refl)
  unless_refused-Succeeds b c crashed go p q = Returns-pure _ _ (rw (← p) refl)

  module _ (readable : IsReadable g s) where
    add_secret_as_env-Succeeds :
        (secret name : String) (d : Draft)
        → Succeeds true (add_secret_as_env g s config secret name d)
    unfolding add_secret_as_env ◌>>=◌
    add_secret_as_env-Succeeds secret name d = record {
      at = λ log. rw ((readable.0 log config.namespace secret).1) refl;
    }

    bedrock_secret-Succeeds :
        (secret : Option SecretRef) (d : Draft) → Succeeds true (bedrock_secret g s config secret d)
    unfolding bedrock_secret
    bedrock_secret-Succeeds none d = Returns-pure _ _ refl
    bedrock_secret-Succeeds (some r) d =
        Returns-then _ (λ m. is_built m ≡ true) _ _ (add_secret_as_env-Succeeds r.name _ d)
          λ added p.
            unless_refused-Succeeds true true added _ p
              (λ d'. add_secret_as_env-Succeeds r.name _ d')

    bedrock_region-Succeeds :
        (ai : AiSpec) (d : Draft)
        → is_built (bedrock_region g s config ai d) ≡ not (is_empty ai.region)
    bedrock_region-Succeeds ai d = ground arith

    check_bedrock-Succeeds :
        (ai : AiSpec) (d : Draft)
        → Succeeds
            (not (ai.backend == amazon_bedrock) || not (is_empty ai.region))
            (check_bedrock g s config ai d)
    unfolding check_bedrock
    check_bedrock-Succeeds ai d =
        Returns-if _ (ai.backend == amazon_bedrock) _ _
          (λ h. rw h (
            Returns-then _ (λ m. is_built m ≡ true) _ _ (bedrock_secret-Succeeds ai.secret d)
              λ added p.
                unless_refused-Succeeds true (not (is_empty ai.region)) added _ p
                  (λ d'. Returns-pure _ _ (bedrock_region-Succeeds ai d'))))
          (λ h. rw h (Returns-pure _ _ refl))

    watsonx_secret-Succeeds :
        (secret : Option SecretRef) (d : Draft) → Succeeds true (watsonx_secret g s config secret d)
    watsonx_secret-Succeeds none d = Returns-pure _ _ refl
    watsonx_secret-Succeeds (some r) d = add_secret_as_env-Succeeds r.name _ d

    check_watsonx-Succeeds :
        (ai : AiSpec) (d : Draft) → Succeeds true (check_watsonx g s config ai d)
    unfolding check_watsonx
    check_watsonx-Succeeds ai d =
        Returns-if _ (ai.backend == ibm_watsonx_ai) _ _ (λ h. watsonx_secret-Succeeds ai.secret d)
          (λ h. Returns-pure _ _ refl)

    check_backend-Succeeds :
        (ai : AiSpec) (d : Draft)
        → Succeeds
            ((not (ai.backend == amazon_bedrock) || not (is_empty ai.region)) && true)
            (check_backend g s config ai d)
    unfolding check_backend
    check_backend-Succeeds ai d =
        let b = not (ai.backend == amazon_bedrock) || not (is_empty ai.region) in
        Returns-then _ (λ m. is_built m ≡ b) _ _ (check_bedrock-Succeeds ai d)
          λ checked p. unless_refused-Succeeds b true checked _ p λ d'.
            Returns-then _ (λ m. is_built m ≡ true) _ _
              (check_watsonx-Succeeds ai (check_vertex g s config ai d'))
              λ last p'. unless_refused-Succeeds true true last _ p' (λ done. Returns-pure _ _ refl)

    annotate-IsOk :
        (checksum : Outcome String) → IsOk checksum → IsOk (annotate g s config checksum)
    annotate-IsOk (ok c) h = tt
    annotate-IsOk (err e) h = h

    checksum-IsOk : (values : SecretValues) → IsOk (calculate_secret_checksum g values)
    unfolding calculate_secret_checksum
    checksum-IsOk [] = tt
    checksum-IsOk (v ∷ values) = rw ((readable.1 (v ∷ values)).1) tt

    pod_annotations_of-IsOk :
        (secret : Option SecretRef) → Returns IsOk (pod_annotations_of g s config secret)
    unfolding pod_annotations_of checksum_annotations ◌>>=◌
    pod_annotations_of-IsOk none = Returns-pure IsOk _ tt
    pod_annotations_of-IsOk (some r) =
        Returns-if IsOk (is_empty r.name) _ _ (λ h. Returns-pure IsOk _ tt)
          (λ h. record {
            at = λ log.
                let (values, e) = readable.0 log config.namespace r.name in
                rw e (annotate-IsOk (calculate_secret_checksum g values) (checksum-IsOk values));
          })

    module _ (ai : AiSpec) (out_of_cluster : Bool) (account : String) where
      configured-Succeeds :
          (notes : List (String × String))
          → Succeeds (is_accepted config ai out_of_cluster) (
              unless_refused g s config
                (configure config ai out_of_cluster (initial_draft config ai account notes))
                (check_backend g s config ai))
      configured-Succeeds notes =
          let x = not out_of_cluster || is_some config.spec.kubeconfig in
          let y = has_credentials config.spec.remote_cache in
          let z = is_empty ai.engine || ai.backend == azure_open_ai in
          let w = is_empty ai.azure_api_type || ai.backend == azure_open_ai in
          let c = not (ai.backend == amazon_bedrock) || not (is_empty ai.region) in
          subst
            (λ b. Succeeds b (
              unless_refused g s config
                (configure config ai out_of_cluster (initial_draft config ai account notes))
                (check_backend g s config ai)))
            (regroup x y z w c)
            (unless_refused-Succeeds (x && (y && (z && (w && true)))) (c && true) _ _
              (configure-is_built config ai out_of_cluster _) (check_backend-Succeeds ai))

      after_annotations :
          (annotations : Outcome (List (String × String)))
          → IsOk annotations
          → Succeeds (is_accepted config ai out_of_cluster) (
              on_outcome annotations
                (λ e. pure (refused e))
                (λ notes.
                  unless_refused g s config
                    (configure config ai out_of_cluster (initial_draft config ai account notes))
                    (check_backend g s config ai)))
      unfolding on_outcome
      after_annotations (ok notes) h = configured-Succeeds notes
      after_annotations (err e) h = absurd h

      deployment_for-Succeeds :
          Succeeds
            (is_accepted config ai out_of_cluster)
            (deployment_for g s config ai out_of_cluster account)
      unfolding deployment_for
      deployment_for-Succeeds =
          Returns-then _ IsOk _ _ (pod_annotations_of-IsOk ai.secret)
            λ annotations h. after_annotations annotations h

-- Where every Secret can be read and marshalled, GetDeployment returns a Deployment exactly for the
-- accepted configurations: outside of the cluster there is a kubeconfig, a remote cache of Azure or
-- S3 has credentials, settings of Azure go with the backend azureopenai, and amazonbedrock has a
-- region.
pub get_deployment-is_accepted :
    (g : Digest) (s : Store) (config : K8sgpt) (ai : AiSpec) (out_of_cluster : Bool)
    (account : String)
    → IsReadable g s
    → config.spec.ai ≡ some ai
    → Returns
        (λ m. is_built m ≡ is_accepted config ai out_of_cluster)
        (get_deployment g s config out_of_cluster account)
unfolding get_deployment
get_deployment-is_accepted g s config ai out_of_cluster account readable has_ai =
    subst
      (λ x.
        Returns (λ m. is_built m ≡ is_accepted config ai out_of_cluster)
          (deployment_if g s config x out_of_cluster account))
      (sym has_ai) (deployment_for-Succeeds g s config readable ai out_of_cluster account)
