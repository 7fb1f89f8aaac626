-- ===== src/Resources/Build/Kept.antt =====
-- What the Deployment that GetDeployment returns is like.
use k8sgpt_operator.Common.{
  String, Bool, List, [], ◌∷◌, Option, none, some, All, refl, inl, if-rule, is_empty, ◌==◌,
}
use k8sgpt_operator.Built.{Built, built, refused, crashed, Holds}
use k8sgpt_operator.Api.K8sgpt.{
  SecretRef, AiSpec, K8sgpt, amazon_bedrock, google_vertex_ai, ibm_watsonx_ai,
}
use k8sgpt_operator.Effect.{Effect}
use k8sgpt_operator.Effect.Returns.{
  Returns, Returns-pure, Returns-if, Returns-bind, Returns-then, Returns-outcome,
}
use k8sgpt_operator.Resources.Objects.{
  Object, service_account, service, deployment, cluster_role, cluster_role_binding, Digest,
  ResourceCall, Store,
}
use k8sgpt_operator.Resources.Draft.{configure}
use k8sgpt_operator.Resources.Start.{Draft, secret_variable, initial_draft}
use k8sgpt_operator.Resources.Draft.Invariant.{
  IsAiSecret, IsConfigured, pod_account, IsFor, append_env-IsFor, variable_if-All,
  initial_draft-IsFor,
}
use k8sgpt_operator.Resources.Draft.Stages.{configure-IsFor}
use k8sgpt_operator.Resources.Build.{
  add_secret_as_env, unless_refused, bedrock_secret, bedrock_region, check_bedrock, check_vertex,
  watsonx_secret, check_watsonx, check_backend,
}

-- A Deployment of the configuration, with the account and the annotations of its pod.
abbrev pub IsDeploymentFor :
    K8sgpt → AiSpec → (account : String) → List (String × String) → Object → Type 0
IsDeploymentFor config ai account notes (deployment m (some spec)) =
    IsFor config ai account notes (record { metadata = m; spec = spec })
IsDeploymentFor config ai account notes (deployment m none) = ⊥
IsDeploymentFor config ai account notes (service_account m) = ⊥
IsDeploymentFor config ai account notes (service m spec) = ⊥
IsDeploymentFor config ai account notes (cluster_role m rules) = ⊥
IsDeploymentFor config ai account notes (cluster_role_binding m subjects role) = ⊥

module _ (g : Digest) (s : Store) (config : K8sgpt) where
  unless_refused-Returns :
      {B : Type 0} (P : Draft → Type 0) (Q : B → Type 0) (m : Built Draft)
      (go : Draft → Effect ResourceCall (Built B))
      → Holds P m
      → ((d : Draft) → P d → Returns (Holds Q) (go d))
      → Returns (Holds Q) (unless_refused g s config m go)
  unless_refused-Returns P Q (built d) go p q = q d p
  unless_refused-Returns P Q (refused e) go p q = Returns-pure (Holds Q) _ tt
  unless_refused-Returns P Q crashed go p q = Returns-pure (Holds Q) _ tt

  module _ (ai : AiSpec) (account : String) (notes : List (String × String)) where
    abbrev P : Draft → Type 0
    P = IsFor config ai account notes

    add_secret_as_env-IsFor :
        (secret name : String) (d : Draft)
        → IsAiSecret ai.secret secret
        → P d
        → Returns (Holds P) (add_secret_as_env g s config secret name d)
    unfolding add_secret_as_env
    add_secret_as_env-IsFor secret name d h i = Returns-bind (Holds P) _ _ λ found.
        Returns-outcome (Holds P) found _ _ (λ e q. Returns-pure (Holds P) _ tt)
          (λ values q. Returns-pure (Holds P) _ (
            append_env-IsFor config ai account notes (secret_variable name secret name ∷ []) d
              (inl h, tt) i))

    bedrock_secret-IsFor :
        (secret : Option SecretRef) (d : Draft)
        → ((name : String) → IsAiSecret secret name → IsAiSecret ai.secret name)
        → P d
        → Returns (Holds P) (bedrock_secret g s config secret d)
    unfolding bedrock_secret
    bedrock_secret-IsFor none d h i = Returns-pure (Holds P) _ i
    bedrock_secret-IsFor (some r) d h i =
        Returns-then (Holds P) (Holds P) _ _ (add_secret_as_env-IsFor r.name _ d (h r.name refl) i)
          λ added p.
            unless_refused-Returns P P added _ p
              (λ d' i'. add_secret_as_env-IsFor r.name _ d' (h r.name refl) i')

    bedrock_region-IsFor : (d : Draft) → P d → Holds P (bedrock_region g s config ai d)
    bedrock_region-IsFor d i =
        if-rule (Holds P) (is_empty ai.region) _ _ tt
          (append_env-IsFor config ai account notes _ d (tt, tt) i)

    check_bedrock-IsFor : (d : Draft) → P d → Returns (Holds P) (check_bedrock g s config ai d)
    unfolding check_bedrock
    check_bedrock-IsFor d i =
        Returns-if (Holds P) (ai.backend == amazon_bedrock) _ _
          (λ h.
            Returns-then (Holds P) (Holds P) _ _ (bedrock_secret-IsFor ai.secret d (λ n x. x) i)
              λ added p.
                unless_refused-Returns P P added _ p
                  (λ d' i'. Returns-pure (Holds P) _ (bedrock_region-IsFor d' i')))
          (λ h. Returns-pure (Holds P) _ i)

    check_vertex-IsFor : (d : Draft) → P d → P (check_vertex g s config ai d)
    check_vertex-IsFor d i =
        append_env-IsFor config ai account notes _ d
          (if-rule (All (IsConfigured config ai)) (ai.backend == google_vertex_ai) _ _
            (variable_if-All config ai "K8SGPT_PROVIDER_REGION" ai.region) tt)
          i

    watsonx_secret-IsFor :
        (secret : Option SecretRef) (d : Draft)
        → ((name : String) → IsAiSecret secret name → IsAiSecret ai.secret name)
        → P d
        → Returns (Holds P) (watsonx_secret g s config secret d)
    watsonx_secret-IsFor none d h i = Returns-pure (Holds P) _ i
    watsonx_secret-IsFor (some r) d h i = add_secret_as_env-IsFor r.name _ d (h r.name refl) i

    check_watsonx-IsFor : (d : Draft) → P d → Returns (Holds P) (check_watsonx g s config ai d)
    unfolding check_watsonx
    check_watsonx-IsFor d i =
        Returns-if (Holds P) (ai.backend == ibm_watsonx_ai) _ _
          (λ h. watsonx_secret-IsFor ai.secret d (λ n x. x) i) (λ h. Returns-pure (Holds P) _ i)

    pub check_backend-IsDeploymentFor :
        (d : Draft)
        → P d
        → Returns (Holds (IsDeploymentFor config ai account notes)) (check_backend g s config ai d)
    unfolding check_backend
    check_backend-IsDeploymentFor d i =
        let Q : Object → Type 0 = IsDeploymentFor config ai account notes in
        Returns-then (Holds Q) (Holds P) _ _ (check_bedrock-IsFor d i) λ checked p.
          unless_refused-Returns P Q checked _ p λ d' i'.
            Returns-then (Holds Q) (Holds P) _ _ (check_watsonx-IsFor _ (check_vertex-IsFor d' i'))
              λ last p'. unless_refused-Returns P Q last _ p' (λ done j. Returns-pure (Holds Q) _ j)

  module _ (ai : AiSpec) (out_of_cluster : Bool) (account : String) where
    abbrev pub IsBuiltFor : Object → Type 0
    IsBuiltFor o =
        (notes : List (String × String)) × IsDeploymentFor config ai
          (pod_account config ai out_of_cluster account) notes o

    -- What follows the reading of the annotations.
    pub configured-IsDeploymentFor :
        (notes : List (String × String))
        → Returns
            (Holds (IsDeploymentFor config ai (pod_account config ai out_of_cluster account) notes))
            (unless_refused g s config
              (configure config ai out_of_cluster (initial_draft config ai account notes))
              (check_backend g s config ai))
    configured-IsDeploymentFor notes =
        let who : String = pod_account config ai out_of_cluster account in
        unless_refused-Returns (IsFor config ai who notes) (IsDeploymentFor config ai who notes) _ _
          (configure-IsFor config ai out_of_cluster account notes _
            (initial_draft-IsFor config ai account notes))
          (check_backend-IsDeploymentFor ai who notes)
