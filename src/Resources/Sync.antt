-- ===== src/Resources/Sync.antt =====
-- pkg/resources/k8sgpt.go: Sync and doSync.
pub mod Written
pub mod Loop
pub mod Refused
pub mod Removed
use k8sgpt_operator.Common.{
  ℕ, zero, suc, String, Bool, true, false, not, List, [], ◌∷◌, ◌++◌, Option, none, some, is_some,
  Outcome, ok, err, Fault, if◌then◌else◌,
}
use k8sgpt_operator.Built.{Built, built, refused, crashed}
use k8sgpt_operator.Api.K8sgpt.{K8sgpt}
use k8sgpt_operator.Effect.{Effect, pure, ◌>>=◌, on_outcome}
use k8sgpt_operator.Resources.Objects.{
  Object, service_account, service, deployment, cluster_role, cluster_role_binding, Digest,
  ResourceCall, Store, read_existing, write_object, drop_object,
}
use k8sgpt_operator.Resources.Rights.{
  default_service_account_name, dynamic_rbac_enabled, service_account_name_of, cluster_role_name_of,
  cluster_role_binding_name_of, get_service_account, get_service, get_cluster_role,
  get_cluster_role_binding,
}
use k8sgpt_operator.Resources.Build.{get_deployment}

-- SyncOrDestroy
pub data Operation : Type 0 where
  sync_op : Operation
  destroy_op : Operation

-- What Sync returns: an error or none, or the end of the process.
pub data Synced : Type 0 where
  done : Synced
  failed : Fault → Synced
  panic : Synced

-- serviceAccountName; `dynamic` is useDynamicRBAC.
abbrev pub account_of : (dynamic : Bool) → K8sgpt → String
account_of dynamic config =
    if dynamic then service_account_name_of config else default_service_account_name

-- What stands before the Deployment, and what behind it.
abbrev pub first_objects : (dynamic : Bool) → K8sgpt → List Object
first_objects dynamic config =
    (if dynamic then get_service_account config (service_account_name_of config) ∷ [] else [])
    ++ get_service config ∷ []

abbrev pub last_objects : (dynamic : Bool) → K8sgpt → List Object
last_objects dynamic config =
    if dynamic
    then get_cluster_role config (service_account_name_of config)
      ∷ get_cluster_role_binding config (service_account_name_of config)
          (cluster_role_binding_name_of config) (cluster_role_name_of config)
      ∷ []
    else []

-- objs
abbrev pub objects_with : (dynamic : Bool) → K8sgpt → Object → List Object
objects_with dynamic config d = first_objects dynamic config ++ (d ∷ last_objects dynamic config)

-- The Deployment of the destruction, which has no more than its names.
abbrev pub deployment_stub : K8sgpt → Object
deployment_stub config =
    deployment
      (record {
        name = config.name;
        namespace = config.namespace;
        labels = [];
        annotations = [];
        owners = [];
      })
      none

module _ (s : Store) where
  -- retry.RetryOnConflict: another attempt after a conflict, as long as there are rounds.
  abbrev pub again_on_conflict :
      Effect ResourceCall (Option Fault) → Option Fault → Effect ResourceCall (Option Fault)
  again_on_conflict next none = pure none
  again_on_conflict next (some e) = if e.is_conflict then next else pure (some e)

  unfoldable pub write_attempts : ℕ → Object → Option Object → Effect ResourceCall (Option Fault)
  write_attempts zero o expected = write_object s o expected
  write_attempts (suc more) o expected = do
    answer ← write_object s o expected
    again_on_conflict (write_attempts more o expected) answer

  -- The five steps of retry.DefaultRetry.
  abbrev pub write_on_conflict : Object → Option Object → Effect ResourceCall (Option Fault)
  write_on_conflict = write_attempts 4

  -- An object whose spec is copied into the one that exists, if one does.
  abbrev pub write_found : Object → Outcome Object → Effect ResourceCall (Option Fault)
  write_found o (ok exist) = write_on_conflict exist (some o)
  write_found o (err e) = if not e.is_not_found then pure (some e) else write_on_conflict o none

  unfoldable pub sync_spec : Object → Effect ResourceCall (Option Fault)
  sync_spec o = do found ← read_existing s o; write_found o found

  -- doSync
  unfoldable pub do_sync : Object → Effect ResourceCall (Option Fault)
  do_sync (deployment m spec) = sync_spec (deployment m spec)
  do_sync (service m spec) = sync_spec (service m spec)
  do_sync (service_account m) = write_on_conflict (service_account m) none
  do_sync (cluster_role m rules) = write_on_conflict (cluster_role m rules) none
  do_sync (cluster_role_binding m subjects role) =
      write_on_conflict (cluster_role_binding m subjects role) none

  -- An error ends the loop, unless it is the one that is ignored.
  abbrev pub next_unless : Bool → Fault → Effect ResourceCall Synced → Effect ResourceCall Synced
  next_unless true e go = go
  next_unless false e go = pure (failed e)

  abbrev pub after_sync : Option Fault → Effect ResourceCall Synced → Effect ResourceCall Synced
  after_sync none go = go
  after_sync (some e) go = next_unless e.is_already_exists e go

  abbrev pub after_delete : Option Fault → Effect ResourceCall Synced → Effect ResourceCall Synced
  after_delete none go = go
  after_delete (some e) go = next_unless e.is_not_found e go

  -- The loop over the objects, for either operation.
  unfoldable pub sync_all : List Object → Effect ResourceCall Synced
  sync_all [] = pure done
  sync_all (o ∷ os) = do answer ← do_sync o; after_sync answer (sync_all os)

  unfoldable pub destroy_all : List Object → Effect ResourceCall Synced
  destroy_all [] = pure done
  destroy_all (o ∷ os) = do answer ← drop_object s o; after_delete answer (destroy_all os)

module _ (g : Digest) (s : Store) (rbac_variable : Option String) (config : K8sgpt) where
  abbrev pub sync_built : Built Object → Effect ResourceCall Synced
  sync_built (built d) = sync_all s (objects_with (dynamic_rbac_enabled rbac_variable) config d)
  sync_built (refused e) = pure (failed e)
  sync_built crashed = pure panic

  -- Sync; `rbac_variable` is the value of K8SGPT_ENABLE_DYNAMIC_RBAC.
  unfoldable pub sync : Operation → Effect ResourceCall Synced
  sync sync_op = do
    found ←
        get_deployment g s config (is_some config.spec.kubeconfig)
          (account_of (dynamic_rbac_enabled rbac_variable) config)
    sync_built found
  sync destroy_op =
      destroy_all s
        (objects_with (dynamic_rbac_enabled rbac_variable) config (deployment_stub config))
