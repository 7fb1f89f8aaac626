-- ===== src/Resources/Build.antt =====
-- pkg/resources/k8sgpt.go: GetDeployment with the Secrets that it reads.
pub mod Reads
pub mod Kept
pub mod Checksum
pub mod Pods
pub mod Accepted
use k8sgpt_operator.Common.{
  String, Bool, List, [], ◌∷◌, Option, none, some, is_nil, Outcome, ok, err, failure, is_empty,
  ◌==◌, if◌then◌else◌,
}
use k8sgpt_operator.Built.{Built, built, refused, crashed}
use k8sgpt_operator.Text.{◌<>◌}
use k8sgpt_operator.Maps.{set_entry, set_entries}
use k8sgpt_operator.Api.K8sgpt.{
  SecretRef, AiSpec, K8sgpt, amazon_bedrock, google_vertex_ai, ibm_watsonx_ai,
}
use k8sgpt_operator.Effect.{Effect, pure, ◌>>=◌, on_outcome}
use k8sgpt_operator.Mutation.Proposal.{wrap}
use k8sgpt_operator.Resources.Objects.{
  Object, deployment, SecretValues, Digest, ResourceCall, Store, read_secret,
}
use k8sgpt_operator.Resources.Draft.{configure}
use k8sgpt_operator.Resources.Start.{
  Draft, append_env, variable, secret_variable, variable_if, initial_draft,
}

abbrev pub ai_secret_checksum_annotation : String
ai_secret_checksum_annotation = "core.k8sgpt.ai/ai-secret-checksum"

abbrev digest_of : Digest → Outcome String → Outcome String
digest_of g (err e) = err e
digest_of g (ok json) = ok (g.sha256 json)

-- calculateSecretChecksum of a Secret that was read.
unfoldable pub calculate_secret_checksum : Digest → SecretValues → Outcome String
calculate_secret_checksum g values = if is_nil values then ok "" else digest_of g (g.marshal values)

abbrev pub finish : Draft → Object
finish d = deployment d.metadata (some d.spec)

module _ (g : Digest) (s : Store) (config : K8sgpt) where
  abbrev pub custom_annotations : List (String × String)
  custom_annotations = set_entries config.spec.pod_annotations []

  -- A checksum that is not empty overwrites the annotation.
  abbrev pub with_checksum : String → List (String × String)
  with_checksum checksum =
      if is_empty checksum
      then custom_annotations
      else set_entry ai_secret_checksum_annotation checksum custom_annotations

  abbrev pub annotate : Outcome String → Outcome (List (String × String))
  annotate (err e) = err (wrap "failed to calculate Secret checksum: " e)
  annotate (ok checksum) = ok (with_checksum checksum)

  unfoldable pub checksum_annotations :
      SecretRef → Effect ResourceCall (Outcome (List (String × String)))
  checksum_annotations r = do
    found ← read_secret s config.namespace r.name
    on_outcome found
        (λ e. pure (
          err (
            wrap ("failed to get AI Secret " <> (config.namespace <> ("/" <> (r.name <> ": "))))
              e)))
        (λ values. pure (annotate (calculate_secret_checksum g values)))

  -- The annotations of the pod, with the checksum of the AI Secret where one is named.
  unfoldable pub pod_annotations_of :
      Option SecretRef → Effect ResourceCall (Outcome (List (String × String)))
  pod_annotations_of none = pure (ok custom_annotations)
  pod_annotations_of (some r) =
      if is_empty r.name then pure (ok custom_annotations) else checksum_annotations r

  -- addSecretAsEnvToDeployment
  unfoldable pub add_secret_as_env :
      (secret name : String) → Draft → Effect ResourceCall (Built Draft)
  add_secret_as_env secret name d = do
    found ← read_secret s config.namespace secret
    on_outcome found
        (λ e. pure (refused (failure "secret does not exist, cannot add to env of deployment")))
        (λ values. pure (built (append_env (secret_variable name secret name ∷ []) d)))

  -- The error of an earlier part is the result.
  abbrev pub unless_refused :
      {B : Type 0}
      → Built Draft
      → (Draft → Effect ResourceCall (Built B))
      → Effect ResourceCall (Built B)
  unless_refused (built d) go = go d
  unless_refused (refused e) go = pure (refused e)
  unless_refused crashed go = pure crashed

  unfoldable pub bedrock_secret : Option SecretRef → Draft → Effect ResourceCall (Built Draft)
  bedrock_secret none d = pure (built d)
  bedrock_secret (some r) d = do
    added ← add_secret_as_env r.name "AWS_ACCESS_KEY_ID" d
    unless_refused added (add_secret_as_env r.name "AWS_SECRET_ACCESS_KEY")

  abbrev pub bedrock_region : AiSpec → Draft → Built Draft
  bedrock_region ai d =
      if is_empty ai.region
      then refused (failure "default region is required for amazonbedrock backend")
      else built (append_env (variable "AWS_DEFAULT_REGION" ai.region ∷ []) d)

  -- The checks for amazonbedrock.
  unfoldable pub check_bedrock : AiSpec → Draft → Effect ResourceCall (Built Draft)
  check_bedrock ai d =
      if ai.backend == amazon_bedrock
      then (do
        added ← bedrock_secret ai.secret d
        unless_refused added (λ d'. pure (bedrock_region ai d')))
      else pure (built d)

  -- The check for googlevertexai.
  abbrev pub check_vertex : AiSpec → Draft → Draft
  check_vertex ai d =
      append_env
        (if ai.backend == google_vertex_ai
          then variable_if "K8SGPT_PROVIDER_REGION" ai.region
          else [])
        d

  abbrev pub watsonx_secret : Option SecretRef → Draft → Effect ResourceCall (Built Draft)
  watsonx_secret none d = pure (built d)
  watsonx_secret (some r) d = add_secret_as_env r.name "K8SGPT_PROVIDER_ID" d

  -- The checks for ibmwatsonxai.
  unfoldable pub check_watsonx : AiSpec → Draft → Effect ResourceCall (Built Draft)
  check_watsonx ai d =
      if ai.backend == ibm_watsonx_ai then watsonx_secret ai.secret d else pure (built d)

  -- The three checks, and the finished object.
  unfoldable pub check_backend : AiSpec → Draft → Effect ResourceCall (Built Object)
  check_backend ai d = do
    checked ← check_bedrock ai d
    unless_refused checked λ d'. do
      last ← check_watsonx ai (check_vertex ai d')
      unless_refused last (λ done. pure (built (finish done)))

  unfoldable pub deployment_for :
      AiSpec → (out_of_cluster : Bool) → (account : String) → Effect ResourceCall (Built Object)
  deployment_for ai out_of_cluster account = do
    annotations ← pod_annotations_of ai.secret
    on_outcome annotations (λ e. pure (refused e))
        (λ notes.
          unless_refused
            (configure config ai out_of_cluster (initial_draft config ai account notes))
            (check_backend ai))

  abbrev pub deployment_if : Option AiSpec → Bool → String → Effect ResourceCall (Built Object)
  deployment_if none out_of_cluster account = pure crashed
  deployment_if (some ai) out_of_cluster account = deployment_for ai out_of_cluster account

  -- GetDeployment
  unfoldable pub get_deployment :
      (out_of_cluster : Bool) → (account : String) → Effect ResourceCall (Built Object)
  get_deployment out_of_cluster account = deployment_if config.spec.ai out_of_cluster account
