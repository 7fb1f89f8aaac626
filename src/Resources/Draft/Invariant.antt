-- ===== src/Resources/Draft/Invariant.antt =====
-- What holds of the Deployment while GetDeployment puts it together.
use k8sgpt_operator.Common.{
  String, Bool, true, false, not, ◌&&◌, List, [], ◌∷◌, Option, none, some, All, All-append, ◌≡◌,
  refl, ap, ◌∙◌, lookup, lookup-nil, ◌==◌, ◌⊎◌, is_empty, if◌then◌else◌,
}
use k8sgpt_operator.Built.{Holds}
use k8sgpt_operator.Maps.{first_of, lookup-set_entries}
use k8sgpt_operator.Api.K8sgpt.{SecretRef, RemoteCacheRef, AiSpec, K8sgpt}
use k8sgpt_operator.Resources.Objects.{EnvVar, EnvSource, text, from_secret, owner_of}
use k8sgpt_operator.Resources.Draft.{
  needs_service_account, leave_cluster, place, without_account, with_kubeconfig,
}
use k8sgpt_operator.Resources.Start.{
  Draft, append_env, variable, variable_if, default_env, labels_with, initial_draft, in_template,
}

-- The Secret that the AI part names, and the one of the remote cache.
abbrev pub IsAiSecret : Option SecretRef → String → Type 0
IsAiSecret none name = ⊥
IsAiSecret (some r) name = name ≡ r.name

abbrev pub IsCredentials : Option RemoteCacheRef → String → Type 0
IsCredentials none name = ⊥
IsCredentials (some cache) name = cache.credentials ≡ some name

abbrev IsConfiguredSource : K8sgpt → AiSpec → EnvSource → Type 0
IsConfiguredSource config ai (text value) = Unit
IsConfiguredSource config ai (from_secret k) =
    IsAiSecret ai.secret k.name ⊎ IsCredentials config.spec.remote_cache k.name

-- A variable has its value in the Deployment, or takes it from a Secret that the configuration
-- names.
abbrev pub IsConfigured : K8sgpt → AiSpec → EnvVar → Type 0
IsConfigured config ai v = IsConfiguredSource config ai v.source

-- The account of the pod: none outside of the cluster, unless Bedrock needs one.
abbrev pub pod_account : K8sgpt → AiSpec → (out_of_cluster : Bool) → String → String
pod_account config ai out_of_cluster account =
    if out_of_cluster && not (needs_service_account config ai) then "" else account

-- A label is the configured one, and else "app" with the name of the configuration.
abbrev pub IsLabelled : K8sgpt → (custom labels : List (String × String)) → Type 0
IsLabelled config custom labels =
    (key : String)
    → lookup key labels
      ≡ first_of (lookup key custom) (if "app" == key then some config.name else none)

pub record IsFor (config : K8sgpt) (ai : AiSpec) (account : String) (notes : List (String × String))
    (d : Draft) : Type 0 where
  pub named : d.metadata.name ≡ config.name
  pub owned : d.metadata.owners ≡ owner_of config ∷ []
  pub marked : IsLabelled config config.spec.deployment_labels d.metadata.labels
  pub noted :
      (key : String)
      → lookup key d.metadata.annotations ≡ lookup key config.spec.deployment_annotations
  pub placed : d.metadata.namespace ≡ config.namespace
  pub selects : d.spec.match_labels ≡ ("app", config.name) ∷ []
  pub labelled : IsLabelled config config.spec.pod_labels d.spec.template.labels
  pub annotated : d.spec.template.annotations ≡ notes
  pub runs_as : d.spec.template.service_account_name ≡ account
  pub env : All (IsConfigured config ai) d.spec.template.container.env

labels_with-IsLabelled :
    (config : K8sgpt) (custom : List (String × String))
    → IsLabelled config custom (labels_with config custom)
unfolding labels_with lookup
labels_with-IsLabelled config custom key = lookup-set_entries key custom (("app", config.name) ∷ [])

pub first_of-none : (o : Option String) → first_of o none ≡ o
first_of-none none = refl
first_of-none (some v) = refl

module _ (config : K8sgpt) (ai : AiSpec) where
  pub append_env-IsFor :
      (account : String) (notes : List (String × String)) (vars : List EnvVar) (d : Draft)
      → All (IsConfigured config ai) vars
      → IsFor config ai account notes d
      → IsFor config ai account notes (append_env vars d)
  unfolding append_env
  append_env-IsFor account notes vars d h i = record {
    named = i.named;
    owned = i.owned;
    marked = i.marked;
    noted = i.noted;
    placed = i.placed;
    selects = i.selects;
    labelled = i.labelled;
    annotated = i.annotated;
    runs_as = i.runs_as;
    env = All-append (IsConfigured config ai) d.spec.template.container.env vars i.env h;
  }

  pub variable_if-All :
      (name value : String) → All (IsConfigured config ai) (variable_if name value)
  variable_if-All name value =
      elim (is_empty value)
        as (λ b. All (IsConfigured config ai) (if b then [] else variable name value ∷ [])) [
          | true ↦ tt
          | false ↦ (tt, tt)
        ]

  pub initial_draft-IsFor :
      (account : String) (notes : List (String × String))
      → IsFor config ai account notes (initial_draft config ai account notes)
  unfolding initial_draft default_env
  initial_draft-IsFor account notes = record {
    named = refl;
    owned = refl;
    marked = labels_with-IsLabelled config config.spec.deployment_labels;
    noted = λ key.
        lookup-set_entries key config.spec.deployment_annotations []
        ∙ ap (first_of (lookup key config.spec.deployment_annotations)) (lookup-nil key)
        ∙ first_of-none (lookup key config.spec.deployment_annotations);
    placed = refl;
    selects = refl;
    labelled = labels_with-IsLabelled config config.spec.pod_labels;
    annotated = refl;
    runs_as = refl;
    env = (tt, (tt, (tt, (tt, (tt, (tt, (tt, tt)))))));
  }

  leave_cluster-IsFor :
      (account : String) (notes : List (String × String)) (r : Option SecretRef) (d : Draft)
      → IsFor config ai account notes d
      → Holds
          (IsFor config ai (pod_account config ai true account) notes)
          (leave_cluster config ai r d)
  unfolding leave_cluster
  leave_cluster-IsFor account notes none d i = tt
  leave_cluster-IsFor account notes (some r) d i =
      elim (needs_service_account config ai)
        as (λ needs. IsFor config ai (if not needs then "" else account) notes (
          in_template (λ t. with_kubeconfig config r (if needs then t else without_account t)) d)) [
            | true ↦ record {
              named = i.named;
              owned = i.owned;
              marked = i.marked;
              noted = i.noted;
              placed = i.placed;
              selects = i.selects;
              labelled = i.labelled;
              annotated = i.annotated;
              runs_as = i.runs_as;
              env = i.env;
            }
            | false ↦ record {
              named = i.named;
              owned = i.owned;
              marked = i.marked;
              noted = i.noted;
              placed = i.placed;
              selects = i.selects;
              labelled = i.labelled;
              annotated = i.annotated;
              runs_as = refl;
              env = i.env;
            }
          ]

  pub place-IsFor :
      (out_of_cluster : Bool) (account : String) (notes : List (String × String)) (d : Draft)
      → IsFor config ai account notes d
      → Holds
          (IsFor config ai (pod_account config ai out_of_cluster account) notes)
          (place config ai out_of_cluster d)
  place-IsFor true account notes d i = leave_cluster-IsFor account notes config.spec.kubeconfig d i
  place-IsFor false account notes d i = i
