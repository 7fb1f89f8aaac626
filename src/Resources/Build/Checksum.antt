-- ===== src/Resources/Build/Checksum.antt =====
-- The annotation of the pods with the checksum of the Secret.
use k8sgpt_operator.Common.{
  String, true, false, is_nil, ok, [], Option, none, some, lookup, ◌≡◌, refl, ap, ◌∙◌, inl, inr,
  is_empty, if◌then◌else◌, Bool-cases, lookup-nil,
}
use k8sgpt_operator.Maps.{first_of, lookup-set_entry, lookup-set_entries}
use k8sgpt_operator.Api.K8sgpt.{AiSpec, K8sgpt}
use k8sgpt_operator.Resources.Objects.{
  Object, service_account, service, deployment, cluster_role, cluster_role_binding, SecretValues,
  Digest, Store,
}
use k8sgpt_operator.Resources.Build.{
  ai_secret_checksum_annotation, calculate_secret_checksum, custom_annotations, with_checksum,
}
use k8sgpt_operator.Resources.Draft.Invariant.{first_of-none}
use k8sgpt_operator.Resources.Build.Kept.{IsDeploymentFor}

-- The annotation with the checksum of the Secret is the given one, if there is one, and else the
-- configured one.
abbrev pub IsAnnotated : K8sgpt → Option String → Object → Type 0
IsAnnotated config checksum (deployment m (some spec)) =
    lookup ai_secret_checksum_annotation spec.template.annotations
    ≡ first_of checksum (lookup ai_secret_checksum_annotation config.spec.pod_annotations)
IsAnnotated config checksum _ = Unit

abbrev checksum_of : String → Option String
checksum_of checksum = if is_empty checksum then none else some checksum

-- The digest of the marshalled values, and none where there are no values.
pub data IsChecksum (g : Digest) (values : SecretValues) : Option String → Type 0 where
  no_values : is_nil values ≡ true → IsChecksum g values none
  hashed :
      (json : String)
      → is_nil values ≡ false
      → g.marshal values ≡ ok json
      → is_empty (g.sha256 json) ≡ false
      → IsChecksum g values (some (g.sha256 json))

-- What calculateSecretChecksum returns then.
pub IsChecksum-calculated :
    (g : Digest) (values : SecretValues) (written : Option String)
    → IsChecksum g values written
    → (checksum : String) × (calculate_secret_checksum g values ≡ ok checksum)
      × (checksum_of checksum ≡ written)
unfolding calculate_secret_checksum
IsChecksum-calculated g values none (no_values h) = ("", rw h refl, refl)
IsChecksum-calculated g values (some c) (hashed json h m full) =
    (g.sha256 json, rw (h, m) refl, rw full refl)

pub lookup-checksum :
    (g : Digest) (s : Store) (config : K8sgpt) (checksum : String)
    → lookup ai_secret_checksum_annotation (with_checksum g s config checksum)
      ≡ first_of
          (checksum_of checksum)
          (lookup ai_secret_checksum_annotation config.spec.pod_annotations)
lookup-checksum g s config checksum =
    let key = ai_secret_checksum_annotation in
    let custom =
      lookup-set_entries key config.spec.pod_annotations []
      ∙ ap (first_of (lookup key config.spec.pod_annotations)) (lookup-nil key)
      ∙ first_of-none (lookup key config.spec.pod_annotations) in
    elim (Bool-cases (is_empty checksum)) [
      | inl h ↦ rw h custom
      | inr h ↦ rw h (lookup-set_entry key key checksum (custom_annotations g s config))
    ]

pub IsDeploymentFor-IsAnnotated :
    (g : Digest) (s : Store) (config : K8sgpt) (ai : AiSpec) (account checksum : String)
    (written : Option String) (o : Object)
    → checksum_of checksum ≡ written
    → IsDeploymentFor config ai account (with_checksum g s config checksum) o
    → IsAnnotated config written o
IsDeploymentFor-IsAnnotated g s config ai account checksum written (deployment m (some spec)) e i =
    ap (lookup ai_secret_checksum_annotation) i.annotated
    ∙ lookup-checksum g s config checksum
    ∙ ap (λ c. first_of c (lookup ai_secret_checksum_annotation config.spec.pod_annotations)) e
IsDeploymentFor-IsAnnotated g s config ai account checksum written (deployment m none) e b = tt
IsDeploymentFor-IsAnnotated g s config ai account checksum written (service_account m) e b = tt
IsDeploymentFor-IsAnnotated g s config ai account checksum written (service m spec) e b = tt
IsDeploymentFor-IsAnnotated g s config ai account checksum written (cluster_role m rules) e b = tt
IsDeploymentFor-IsAnnotated g s config ai account checksum written
      (cluster_role_binding m subjects r) e b =
    tt
