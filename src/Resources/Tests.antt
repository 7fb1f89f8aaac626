-- ===== src/Resources/Tests.antt =====
-- Runs of pkg/resources/k8sgpt.go on concrete configurations, and the theorems at such inputs.
use k8sgpt_operator.Common.{
  true, false, List, [], ◌∷◌, ◌++◌, none, some, lookup, contains, Outcome, ok, err, failure, All,
  Any, ◌≡◌, refl, is_some,
}
use k8sgpt_operator.Built.{Built, built, refused, Holds, is_built}
use k8sgpt_operator.Text.{text_functions}
use k8sgpt_operator.Maps.{set_entry, set_entries}
use k8sgpt_operator.Api.K8sgpt.{AiSpec, K8sgpt, effective_backend, effective_base_url}
use k8sgpt_operator.Effect.{◌>>=◌}
use k8sgpt_operator.Effect.Returns.{Returns}
use k8sgpt_operator.Fixtures.{gone}
use k8sgpt_operator.Fixtures.Configs.{ai_with, k8sgpt_with}
use k8sgpt_operator.Resources.Objects.{
  Kind, service_account_kind, service_kind, deployment_kind, cluster_role_kind,
  cluster_role_binding_kind, Object, key_of, Digest, ResourceCall, Store,
}
use k8sgpt_operator.Resources.Rights.{
  parse_bool, dynamic_rbac_enabled, get_service_account, get_service, get_cluster_role,
  get_cluster_role_binding,
}
use k8sgpt_operator.Resources.Draft.{
  needs_service_account, leave_cluster, password_env, cache_variables, remote_cache_env, azure_env,
  engine_env, api_type_env, configure,
}
use k8sgpt_operator.Resources.Start.{
  append_env, default_env, default_resources, labels_with, initial_draft,
}
use k8sgpt_operator.Resources.Draft.Accepted.{is_accepted}
use k8sgpt_operator.Resources.Build.{
  calculate_secret_checksum, checksum_annotations, pod_annotations_of, add_secret_as_env,
  bedrock_secret, check_bedrock, check_watsonx, check_backend, deployment_for, get_deployment,
}
use k8sgpt_operator.Resources.Build.Reads.{IsSecretRead}
use k8sgpt_operator.Resources.Build.Kept.{IsBuiltFor}
use k8sgpt_operator.Resources.Build.Pods.{
  IsSelecting, get_deployment-IsBuiltFor, get_deployment-IsSelecting, get_deployment-IsAnnotated,
}
use k8sgpt_operator.Resources.Build.Checksum.{IsAnnotated, hashed}
use k8sgpt_operator.Resources.Build.Accepted.{IsReadable, get_deployment-is_accepted}
use k8sgpt_operator.Resources.Sync.{
  done, failed, sync_op, destroy_op, account_of, objects_with, deployment_stub, write_attempts,
  sync_spec, do_sync, sync_all, destroy_all, sync,
}
use k8sgpt_operator.Resources.Sync.Refused.{sync_refused}
use k8sgpt_operator.Resources.Sync.Removed.{
  Gone, rights_of, destroy-removes, destroy-removes_rights,
}
use k8sgpt_operator.Resources.Sync.Written.{Writes, ReadsPlainly, sync-Writes}

abbrev digest : Digest
digest = record { marshal = λ values. ok "json"; sha256 = λ json. "c0ffee" }

-- A server that has every Secret, no object, and takes every change.
abbrev store : Store
store = record {
  secret = λ log namespace name. ok (("key", "value") ∷ []);
  existing = λ log kind namespace name. err gone;
  create_or_patch = λ log o expected. none;
  delete = λ log o. some gone;
}

abbrev bedrock : AiSpec
bedrock = record (ai_with []) {
  backend = "amazonbedrock";
  region = "eu-west-1";
  secret = some (record { name = "cloud"; key = "key" });
}

abbrev config_of : AiSpec → K8sgpt
config_of ai = record (k8sgpt_with []) { spec = record (k8sgpt_with []).spec { ai = some ai } }

abbrev config : K8sgpt
config = config_of bedrock

-- An engine goes with Azure alone.
abbrev wrong_ai : AiSpec
wrong_ai = record (ai_with []) { engine = "gpt" }

abbrev wrong : K8sgpt
wrong = config_of wrong_ai

-- What a run of GetDeployment and Sync opens.
unfoldable resource_functions : Unit {0}
unfolding text_functions contains set_entry set_entries effective_backend effective_base_url
    parse_bool dynamic_rbac_enabled get_service_account get_service get_cluster_role
    get_cluster_role_binding append_env default_env default_resources labels_with initial_draft
    needs_service_account leave_cluster password_env cache_variables remote_cache_env azure_env
    engine_env api_type_env configure calculate_secret_checksum checksum_annotations
    pod_annotations_of add_secret_as_env bedrock_secret check_bedrock check_watsonx check_backend
    deployment_for get_deployment write_attempts sync_spec do_sync sync_all destroy_all sync ◌>>=◌
resource_functions = tt

abbrev deployment_in : Built Object → Object
deployment_in (built d) = d
deployment_in _ = deployment_stub config

abbrev made : Object
made = deployment_in (get_deployment digest store config false "k8sgpt" []).0

made_lem : (get_deployment digest store config false "k8sgpt" []).0 ≡ built made
unfolding resource_functions lookup
made_lem = refl

get_deployment-IsBuiltFor_example :
    Returns
      (Holds (IsBuiltFor digest store config bedrock false "k8sgpt"))
      (get_deployment digest store config false "k8sgpt")
get_deployment-IsBuiltFor_example =
    get_deployment-IsBuiltFor digest store config bedrock false "k8sgpt" refl

get_deployment-IsSelecting_example :
    Returns (Holds (IsSelecting config)) (get_deployment digest store config false "k8sgpt")
get_deployment-IsSelecting_example =
    get_deployment-IsSelecting digest store config bedrock false "k8sgpt" refl

get_deployment-IsAnnotated_example :
    Holds
      (IsAnnotated config (some "c0ffee"))
      (get_deployment digest store config false "k8sgpt" []).0
get_deployment-IsAnnotated_example =
    get_deployment-IsAnnotated digest store config bedrock false "k8sgpt" refl []
      (record { name = "cloud"; key = "key" }) (("key", "value") ∷ []) (some "c0ffee") refl refl
      refl (hashed "json" refl refl refl)

digest-IsReadable : IsReadable digest store
digest-IsReadable = (λ log namespace name. (("key", "value") ∷ [], refl), λ values. ("json", refl))

get_deployment-is_accepted_example :
    Returns
      (λ m. is_built m ≡ is_accepted wrong wrong_ai false)
      (get_deployment digest store wrong false "k8sgpt")
get_deployment-is_accepted_example =
    get_deployment-is_accepted digest store wrong wrong_ai false "k8sgpt" digest-IsReadable refl

refused_wrong :
    (get_deployment digest store wrong
      (is_some wrong.spec.kubeconfig)
      (account_of (dynamic_rbac_enabled none) wrong)
      []).0
    ≡ refused (failure "engine is supported only by azureopenai provider")
unfolding resource_functions lookup
refused_wrong = refl

sync_refused_example :
    (reads : List ResourceCall) × (sync digest store none wrong sync_op []
      ≡ (failed (failure "engine is supported only by azureopenai provider"), reads ++ []))
    × All (IsSecretRead wrong) reads
sync_refused_example =
    sync_refused digest store none wrong []
      (failure "engine is supported only by azureopenai provider") refused_wrong

-- Objects that are gone already are no failure.
destroyed : (sync digest store none config destroy_op []).0 ≡ done
unfolding resource_functions
destroyed = refl

destroy-removes_example :
    All
      (λ o. Gone store (sync digest store none config destroy_op []).1 (key_of o))
      (objects_with (dynamic_rbac_enabled none) config made)
destroy-removes_example =
    destroy-removes digest store none config [] bedrock false "k8sgpt" [] made refl made_lem
      destroyed

-- A second configuration of the same namespace.
abbrev neighbour : K8sgpt
neighbour = record config { name = "second" }

destroy-removes_rights_example :
    All
      (λ o. Gone store (sync digest store none config destroy_op []).1 (key_of o))
      (rights_of neighbour)
unfolding dynamic_rbac_enabled
destroy-removes_rights_example =
    destroy-removes_rights digest store none config [] neighbour refl refl destroyed

-- A store in which the Deployment stands already.
abbrev existing_in : Kind → Outcome Object
existing_in deployment_kind = ok (deployment_stub config)
existing_in _ = err gone

abbrev holding : Store
holding = record store { existing = λ log kind namespace name. existing_in kind }

reads_plainly : ReadsPlainly holding
reads_plainly log deployment_kind namespace name e h = cc
reads_plainly log service_account_kind namespace name e h = cc
reads_plainly log service_kind namespace name e h = cc
reads_plainly log cluster_role_kind namespace name e h = cc
reads_plainly log cluster_role_binding_kind namespace name e h = cc

synced : (sync digest holding none config sync_op []).0 ≡ done
unfolding resource_functions lookup
synced = refl

sync-Writes_example :
    (d : Object) × ((get_deployment digest holding config
        (is_some config.spec.kubeconfig)
        (account_of (dynamic_rbac_enabled none) config)
        []).0
      ≡ built d)
    × All
        (λ o. Any (Writes holding o) (sync digest holding none config sync_op []).1)
        (objects_with (dynamic_rbac_enabled none) config d)
sync-Writes_example = sync-Writes digest holding none config [] reads_plainly synced

switch_tests :
    (dynamic_rbac_enabled (some "False") ≡ false)
    × (dynamic_rbac_enabled (some "0") ≡ false)
    × (dynamic_rbac_enabled (some "maybe") ≡ true)
unfolding dynamic_rbac_enabled parse_bool contains
switch_tests = (refl, refl, refl)
