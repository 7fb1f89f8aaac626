-- ===== src/Resources/Build/Pods.antt =====
-- The pods of the Deployment that GetDeployment returns: their labels, accounts, Secrets and the
-- checksum that rolls them out.
use k8sgpt_operator.Common.{
  String, Bool, false, List, Option, none, some, lookup, All, ◌≡◌, refl, sym, subst, ap, ◌∙◌, ◌⊎◌,
  inl, inr, ◌↔◌, ok, is_empty,
}
use k8sgpt_operator.Built.{Built, Holds, Holds-weaken}
use k8sgpt_operator.Maps.{first_of}
use k8sgpt_operator.Api.K8sgpt.{SecretRef, AiSpec, K8sgpt}
use k8sgpt_operator.Effect.{◌>>=◌, >>=-ok}
use k8sgpt_operator.Effect.Returns.{
  Returns-weaken, Returns, Returns-outcome, Returns-bind, Returns-pure,
}
use k8sgpt_operator.Resources.Objects.{
  Object, service_account, service, deployment, cluster_role, cluster_role_binding, SecretValues,
  Digest, ResourceCall, Store,
}
use k8sgpt_operator.Resources.Draft.Invariant.{pod_account}
use k8sgpt_operator.Resources.Build.{
  calculate_secret_checksum, annotate, with_checksum, checksum_annotations, pod_annotations_of,
  deployment_for, deployment_if, get_deployment,
}
use k8sgpt_operator.Resources.Build.Kept.{IsDeploymentFor, IsBuiltFor, configured-IsDeploymentFor}
use k8sgpt_operator.Resources.Build.Checksum.{
  IsAnnotated, IsChecksum, IsChecksum-calculated, IsDeploymentFor-IsAnnotated,
}

-- Every label of the selector stands on the pod.
abbrev pub Selects : List (String × String) → List (String × String) → Type 0
Selects selector labels = All (λ (l : String × String). lookup l.0 labels ≡ some l.1) selector

-- The configuration has no pod label "app" of another value.
abbrev pub KeepsApp : K8sgpt → Type 0
KeepsApp config =
    (lookup "app" config.spec.pod_labels ≡ none)
    ⊎ (lookup "app" config.spec.pod_labels ≡ some config.name)

keeps_app :
    (custom : Option String) (name : String)
    → first_of custom (some name) ≡ some name
    → (custom ≡ none) ⊎ (custom ≡ some name)
keeps_app none name h = inl refl
keeps_app (some v) name h = inr h

app_kept :
    (custom : Option String) (name : String)
    → (custom ≡ none) ⊎ (custom ≡ some name)
    → first_of custom (some name) ≡ some name
app_kept custom name (inl h) = rw h refl
app_kept custom name (inr h) = rw h refl

-- The Deployment selects its own pods exactly when no configured pod label replaces "app".
abbrev pub IsSelecting : K8sgpt → Object → Type 0
IsSelecting config (deployment m (some spec)) =
    Selects spec.match_labels spec.template.labels ↔ KeepsApp config
IsSelecting config _ = Unit

module _ (config : K8sgpt) (ai : AiSpec) (account : String) where
  IsDeploymentFor-IsSelecting :
      (notes : List (String × String)) (o : Object)
      → IsDeploymentFor config ai account notes o
      → IsSelecting config o
  IsDeploymentFor-IsSelecting notes (deployment m (some spec)) i = (
    λ h.
        keeps_app (lookup "app" config.spec.pod_labels) config.name
          (sym (i.labelled "app") ∙ (subst (λ x. Selects x spec.template.labels) i.selects h).0),
    λ k.
        subst (λ x. Selects x spec.template.labels) (sym i.selects)
          (i.labelled "app" ∙ app_kept (lookup "app" config.spec.pod_labels) config.name k, tt),
  )
  IsDeploymentFor-IsSelecting notes (deployment m none) b = tt
  IsDeploymentFor-IsSelecting notes (service_account m) b = tt
  IsDeploymentFor-IsSelecting notes (service m spec) b = tt
  IsDeploymentFor-IsSelecting notes (cluster_role m rules) b = tt
  IsDeploymentFor-IsSelecting notes (cluster_role_binding m subjects role) b = tt

module _ (g : Digest) (s : Store) (config : K8sgpt) (ai : AiSpec) (out_of_cluster : Bool)
    (account : String) where
  deployment_for-IsBuiltFor :
      Returns
        (Holds (IsBuiltFor g s config ai out_of_cluster account))
        (deployment_for g s config ai out_of_cluster account)
  unfolding deployment_for
  deployment_for-IsBuiltFor =
      let P : Built Object → Type 0 = Holds (IsBuiltFor g s config ai out_of_cluster account) in
      Returns-bind P _ _ λ annotations.
        Returns-outcome P annotations _ _ (λ e q. Returns-pure P _ tt)
          λ notes q.
            Returns-weaken
              (Holds
                (IsDeploymentFor config ai (pod_account config ai out_of_cluster account) notes))
              P _
              (λ m h.
                Holds-weaken
                  (IsDeploymentFor config ai (pod_account config ai out_of_cluster account) notes)
                  (IsBuiltFor g s config ai out_of_cluster account) m (λ o i. (notes, i)) h)
              (configured-IsDeploymentFor g s config ai out_of_cluster account notes)

  after_annotations :
      (log : List ResourceCall) (notes : List (String × String))
      → (pod_annotations_of g s config ai.secret log).0 ≡ ok notes
      → Holds
          (IsDeploymentFor config ai (pod_account config ai out_of_cluster account) notes)
          (deployment_for g s config ai out_of_cluster account log).0
  unfolding deployment_for
  after_annotations log notes h =
      subst
        (λ (x : Built Object × List ResourceCall).
          Holds (IsDeploymentFor config ai (pod_account config ai out_of_cluster account) notes)
            x.0)
        (sym (>>=-ok (pod_annotations_of g s config ai.secret) _ _ log notes h))
        ((configured-IsDeploymentFor g s config ai out_of_cluster account notes).at
          (pod_annotations_of g s config ai.secret log).1)

  annotations_read :
      (log : List ResourceCall) (r : SecretRef) (values : SecretValues) (checksum : String)
      → is_empty r.name ≡ false
      → s.secret log config.namespace r.name ≡ ok values
      → calculate_secret_checksum g values ≡ ok checksum
      → (pod_annotations_of g s config (some r) log).0 ≡ annotate g s config (ok checksum)
  unfolding pod_annotations_of checksum_annotations ◌>>=◌
  annotations_read log r values checksum named found digest = rw (named, found, digest) refl

  module _ (has_ai : config.spec.ai ≡ some ai) where
    -- A Deployment that GetDeployment returns has the name and the namespace of the configuration,
    -- is owned by it alone, runs under the given account in the cluster, selects by the label "app",
    -- and takes variables from no Secret but those that the AI part and the remote cache name. On
    -- the Deployment as on its pods a label is the configured one where that is set, and else "app"
    -- with the name of the configuration; the annotations of the Deployment are the configured ones.
    pub get_deployment-IsBuiltFor :
        Returns
          (Holds (IsBuiltFor g s config ai out_of_cluster account))
          (get_deployment g s config out_of_cluster account)
    unfolding get_deployment
    get_deployment-IsBuiltFor =
        subst
          (λ x.
            Returns (Holds (IsBuiltFor g s config ai out_of_cluster account))
              (deployment_if g s config x out_of_cluster account))
          (sym has_ai) deployment_for-IsBuiltFor

    -- Where the Deployment is built, it selects its own pods exactly when no configured pod label
    -- gives "app" another value.
    pub get_deployment-IsSelecting :
        Returns (Holds (IsSelecting config)) (get_deployment g s config out_of_cluster account)
    get_deployment-IsSelecting =
        Returns-weaken (Holds (IsBuiltFor g s config ai out_of_cluster account))
          (Holds (IsSelecting config)) _
          (λ m h.
            Holds-weaken (IsBuiltFor g s config ai out_of_cluster account) (IsSelecting config) m
              (λ o b.
                IsDeploymentFor-IsSelecting config ai (pod_account config ai out_of_cluster account)
                  b.0 o b.1)
              h)
          get_deployment-IsBuiltFor

    -- Where the AI part names a Secret that can be read, a Deployment that is built carries on its
    -- pods, as the checksum annotation, the SHA-256 digest of the marshalled values that were read,
    -- in place of a configured annotation of that name, provided that there are values, that they
    -- can be marshalled and that the digest is not empty; where the Secret has no values, a
    -- configured annotation of that name stays.
    pub get_deployment-IsAnnotated :
        (log : List ResourceCall) (r : SecretRef) (values : SecretValues) (written : Option String)
        → ai.secret ≡ some r
        → is_empty r.name ≡ false
        → s.secret log config.namespace r.name ≡ ok values
        → IsChecksum g values written
        → Holds
            (IsAnnotated config written)
            (get_deployment g s config out_of_cluster account log).0
    unfolding get_deployment
    get_deployment-IsAnnotated log r values written named full found c =
        let (checksum, digest, same) = IsChecksum-calculated g values written c in
        let notes = with_checksum g s config checksum in
        let who = pod_account config ai out_of_cluster account in
        let read =
          ap (λ x. (pod_annotations_of g s config x log).0) named
          ∙ annotations_read log r values checksum full found digest in
        subst
          (λ x.
            Holds (IsAnnotated config written)
              (deployment_if g s config x out_of_cluster account log).0)
          (sym has_ai)
          (Holds-weaken (IsDeploymentFor config ai who notes) (IsAnnotated config written) _
            (λ o. IsDeploymentFor-IsAnnotated g s config ai who checksum written o same)
            (after_annotations log notes read))
