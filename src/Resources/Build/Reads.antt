-- ===== src/Resources/Build/Reads.antt =====
-- Which calls GetDeployment makes.
use k8sgpt_operator.Common.{String, Bool, Option, none, some, ◌≡◌, refl, is_empty, ◌==◌}
use k8sgpt_operator.Built.{Built, built, refused, crashed}
use k8sgpt_operator.Api.K8sgpt.{SecretRef, AiSpec, K8sgpt, amazon_bedrock, ibm_watsonx_ai}
use k8sgpt_operator.Effect.{Effect}
use k8sgpt_operator.Effect.Emits.{
  Emits, Emits-pure, Emits-call, Emits-if, Emits-bind, Emits-outcome,
}
use k8sgpt_operator.Resources.Objects.{Digest, ResourceCall, get_secret, Store}
use k8sgpt_operator.Resources.Draft.{configure}
use k8sgpt_operator.Resources.Start.{Draft, initial_draft}
use k8sgpt_operator.Resources.Draft.Invariant.{IsAiSecret}
use k8sgpt_operator.Resources.Build.{
  checksum_annotations, pod_annotations_of, add_secret_as_env, unless_refused, bedrock_secret,
  check_bedrock, check_vertex, watsonx_secret, check_watsonx, check_backend, deployment_for,
  deployment_if, get_deployment,
}

abbrev IsSecretOf : Option AiSpec → String → Type 0
IsSecretOf none name = ⊥
IsSecretOf (some ai) name = IsAiSecret ai.secret name

-- A read of the Secret of the AI part, in the namespace of the configuration.
abbrev pub IsSecretRead : K8sgpt → ResourceCall → Type 0
IsSecretRead config (get_secret namespace name) =
    (namespace ≡ config.namespace) × IsSecretOf config.spec.ai name
IsSecretRead config _ = ⊥

module _ (g : Digest) (s : Store) (config : K8sgpt) (P : ResourceCall → Type 0) where
  unless_refused-Emits :
      {B : Type 0} (m : Built Draft) (go : Draft → Effect ResourceCall (Built B))
      → ((d : Draft) → Emits P (go d))
      → Emits P (unless_refused g s config m go)
  unless_refused-Emits (built d) go h = h d
  unless_refused-Emits (refused e) go h = Emits-pure P _
  unless_refused-Emits crashed go h = Emits-pure P _

  add_secret_as_env-Emits :
      (secret name : String) (d : Draft)
      → P (get_secret config.namespace secret)
      → Emits P (add_secret_as_env g s config secret name d)
  unfolding add_secret_as_env
  add_secret_as_env-Emits secret name d p =
      Emits-bind P _ _ (Emits-call P _ _ p)
        λ found. Emits-outcome P found _ _ (λ e q. Emits-pure P _) (λ values q. Emits-pure P _)

  checksum_annotations-Emits :
      (r : SecretRef)
      → P (get_secret config.namespace r.name)
      → Emits P (checksum_annotations g s config r)
  unfolding checksum_annotations
  checksum_annotations-Emits r p =
      Emits-bind P _ _ (Emits-call P _ _ p)
        λ found. Emits-outcome P found _ _ (λ e q. Emits-pure P _) (λ values q. Emits-pure P _)

  pod_annotations_of-Emits :
      (secret : Option SecretRef)
      → ((name : String) → IsAiSecret secret name → P (get_secret config.namespace name))
      → Emits P (pod_annotations_of g s config secret)
  unfolding pod_annotations_of
  pod_annotations_of-Emits none reads = Emits-pure P _
  pod_annotations_of-Emits (some r) reads =
      Emits-if P (is_empty r.name) _ _ (λ h. Emits-pure P _)
        (λ h. checksum_annotations-Emits r (reads r.name refl))

  bedrock_secret-Emits :
      (secret : Option SecretRef) (d : Draft)
      → ((name : String) → IsAiSecret secret name → P (get_secret config.namespace name))
      → Emits P (bedrock_secret g s config secret d)
  unfolding bedrock_secret
  bedrock_secret-Emits none d reads = Emits-pure P _
  bedrock_secret-Emits (some r) d reads =
      Emits-bind P _ _ (add_secret_as_env-Emits r.name _ d (reads r.name refl)) λ added.
        unless_refused-Emits added _ λ d'. add_secret_as_env-Emits r.name _ d' (reads r.name refl)

  watsonx_secret-Emits :
      (secret : Option SecretRef) (d : Draft)
      → ((name : String) → IsAiSecret secret name → P (get_secret config.namespace name))
      → Emits P (watsonx_secret g s config secret d)
  watsonx_secret-Emits none d reads = Emits-pure P _
  watsonx_secret-Emits (some r) d reads = add_secret_as_env-Emits r.name _ d (reads r.name refl)

  module _ (ai : AiSpec)
      (reads : (name : String)
        → IsAiSecret ai.secret name
        → P (get_secret config.namespace name)) where
    check_backend-Emits : (d : Draft) → Emits P (check_backend g s config ai d)
    unfolding check_backend check_bedrock check_watsonx
    check_backend-Emits d =
        Emits-bind P (check_bedrock g s config ai d) _
          (Emits-if P (ai.backend == amazon_bedrock) _ _
            (λ h.
              Emits-bind P _ _ (bedrock_secret-Emits ai.secret d reads)
                λ added. unless_refused-Emits added _ λ d'. Emits-pure P _)
            (λ h. Emits-pure P _))
          λ checked. unless_refused-Emits checked _ λ d'.
            Emits-bind P (check_watsonx g s config ai (check_vertex g s config ai d')) _
              (Emits-if P (ai.backend == ibm_watsonx_ai) _ _
                (λ h. watsonx_secret-Emits ai.secret _ reads) (λ h. Emits-pure P _))
              λ last. unless_refused-Emits last _ λ done. Emits-pure P _

    deployment_for-Emits :
        (out_of_cluster : Bool) (account : String)
        → Emits P (deployment_for g s config ai out_of_cluster account)
    unfolding deployment_for
    deployment_for-Emits out_of_cluster account =
        Emits-bind P _ _ (pod_annotations_of-Emits ai.secret reads) λ annotations.
          Emits-outcome P annotations _ _ (λ e q. Emits-pure P _)
            λ notes q.
              unless_refused-Emits
                (configure config ai out_of_cluster (initial_draft config ai account notes)) _
                check_backend-Emits

  deployment_if-Emits :
      (spec : Option AiSpec) (out_of_cluster : Bool) (account : String)
      → ((name : String) → IsSecretOf spec name → P (get_secret config.namespace name))
      → Emits P (deployment_if g s config spec out_of_cluster account)
  deployment_if-Emits none out_of_cluster account reads = Emits-pure P _
  deployment_if-Emits (some ai) out_of_cluster account reads =
      deployment_for-Emits ai reads out_of_cluster account

-- GetDeployment only reads the Secret of the AI part.
pub get_deployment-IsSecretRead :
    (g : Digest) (s : Store) (config : K8sgpt) (out_of_cluster : Bool) (account : String)
    → Emits (IsSecretRead config) (get_deployment g s config out_of_cluster account)
unfolding get_deployment
get_deployment-IsSecretRead g s config out_of_cluster account =
    deployment_if-Emits g s config (IsSecretRead config) config.spec.ai out_of_cluster account
      (λ name h. (refl, h))
