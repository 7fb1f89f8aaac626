-- ===== src/Resources/Sync/Removed.antt =====
-- What Sync deletes.
use k8sgpt_operator.Common.{
  String, Bool, true, false, List, [], ◌∷◌, ◌++◌, Option, none, some, Fault, All, ◌≡◌, ◌⊎◌, refl,
  sym, subst, inl, inr, ap, ◌∙◌,
}
use k8sgpt_operator.Built.{built, Holds}
use k8sgpt_operator.Text.{◌<>◌}
use k8sgpt_operator.Api.K8sgpt.{AiSpec, K8sgpt}
use k8sgpt_operator.Effect.{Effect, pure, ◌>>=◌}
use k8sgpt_operator.Effect.Emits.{Emits, Emits-pure, Emits-call, Emits-bind}
use k8sgpt_operator.Resources.Objects.{
  Kind, service_account_kind, deployment_kind, cluster_role_kind, cluster_role_binding_kind, Object,
  service_account, service, deployment, cluster_role, cluster_role_binding, key_of, Digest,
  ResourceCall, delete_object, Store,
}
use k8sgpt_operator.Resources.Rights.{
  dynamic_rbac_enabled, service_account_name_of, cluster_role_name_of, cluster_role_binding_name_of,
  get_service_account, get_cluster_role, get_cluster_role_binding,
}
use k8sgpt_operator.Resources.Build.{get_deployment}
use k8sgpt_operator.Resources.Build.Kept.{IsBuiltFor}
use k8sgpt_operator.Resources.Build.Pods.{get_deployment-IsBuiltFor}
use k8sgpt_operator.Resources.Sync.Loop.{next_unless-Emits}
use k8sgpt_operator.Resources.Sync.{
  Synced, done, destroy_op, objects_with, deployment_stub, after_delete, next_unless, destroy_all,
  sync,
}

-- The answer to a deletion after which the object is gone.
abbrev IsMissing : Option Fault → Type 0
IsMissing none = Unit
IsMissing (some e) = e.is_not_found ≡ true

module _ (s : Store) where
  -- The deletion of an object with this kind, namespace and name, which succeeded or found none.
  abbrev pub Deletes : Kind × String × String → ResourceCall → List ResourceCall → Type 0
  Deletes key (delete_object o) earlier = (key_of o ≡ key) × IsMissing (s.delete earlier o)
  Deletes key _ earlier = ⊥

  -- The log, the latest call first, has such a deletion.
  abbrev pub Gone : List ResourceCall → Kind × String × String → Type 0
  Gone [] key = ⊥
  Gone (c ∷ earlier) key = Deletes key c earlier ⊎ Gone earlier key

  Gone-append :
      (new log : List ResourceCall) (key : Kind × String × String)
      → Gone log key
      → Gone (new ++ log) key
  Gone-append [] log key h = h
  Gone-append (c ∷ new) log key h = inr (Gone-append new log key h)

  after_delete-Emits :
      (P : ResourceCall → Type 0) (answer : Option Fault) (go : Effect ResourceCall Synced)
      → Emits P go
      → Emits P (after_delete s answer go)
  after_delete-Emits P none go h = h
  after_delete-Emits P (some e) go h = next_unless-Emits s P e.is_not_found e go h

  destroy_all-Emits : (os : List Object) → Emits (λ c. Unit {0}) (destroy_all s os)
  unfolding destroy_all
  destroy_all-Emits [] = Emits-pure (λ c. Unit {0}) _
  destroy_all-Emits (o ∷ os) =
      Emits-bind (λ c. Unit {0}) _ _ (Emits-call (λ c. Unit {0}) _ _ tt)
        (λ answer. after_delete-Emits (λ c. Unit {0}) answer _ (destroy_all-Emits os))

  -- Where the loop comes to its end, the object of the round is gone.
  goes_on :
      (answer : Option Fault) (go : Effect ResourceCall Synced) (log : List ResourceCall)
      → (after_delete s answer go log).0 ≡ done
      → (after_delete s answer go log ≡ go log) × IsMissing answer
  unfolding pure
  goes_on none go log h = (refl, tt)
  goes_on (some e) go log h =
      elim e.is_not_found
          as (λ b.
            (next_unless s b e go log).0 ≡ done
            → (next_unless s b e go log ≡ go log) × (b ≡ true)) [
              | true ↦ λ k. (refl, refl)
              | false ↦ λ k. cc
            ]
        h

  destroy_all-Gone :
      (os : List Object) (log : List ResourceCall)
      → (destroy_all s os log).0 ≡ done
      → All (λ o. Gone (destroy_all s os log).1 (key_of o)) os
  unfolding destroy_all ◌>>=◌
  destroy_all-Gone [] log h = tt
  destroy_all-Gone (o ∷ os) log h =
      let (same, missing) = goes_on (s.delete log o) (destroy_all s os) (delete_object o ∷ log) h in
      let (new, e, all) = (destroy_all-Emits os).at (delete_object o ∷ log) in
      subst (λ (x : Synced × List ResourceCall). All (λ q. Gone x.1 (key_of q)) (o ∷ os)) (sym same)
        (
          subst (λ l. Gone l (key_of o)) (sym e)
              (Gone-append new (delete_object o ∷ log) (key_of o) (inl (refl, missing))),
          destroy_all-Gone os (delete_object o ∷ log) (ap (λ x. x.0) (sym same) ∙ h),
        )

-- The access rights of a configuration.
abbrev pub rights_of : K8sgpt → List Object
rights_of config =
    get_service_account config (service_account_name_of config)
    ∷ get_cluster_role config (service_account_name_of config)
    ∷ get_cluster_role_binding config (service_account_name_of config)
        (cluster_role_binding_name_of config) (cluster_role_name_of config)
    ∷ []

stub_key :
    (g : Digest) (s : Store) (config : K8sgpt) (ai : AiSpec) (out_of_cluster : Bool)
    (account : String) (d : Object)
    → IsBuiltFor g s config ai out_of_cluster account d
    → key_of (deployment_stub config) ≡ key_of d
stub_key g s config ai out account (deployment m (some spec)) (notes, i) =
    ap (λ n. (deployment_kind, n, config.name)) (sym i.placed)
    ∙ ap (λ n. (deployment_kind, m.namespace, n)) (sym i.named)
stub_key g s config ai out account (deployment m none) (notes, i) = absurd i
stub_key g s config ai out account (service_account m) (notes, i) = absurd i
stub_key g s config ai out account (service m spec) (notes, i) = absurd i
stub_key g s config ai out account (cluster_role m rules) (notes, i) = absurd i
stub_key g s config ai out account (cluster_role_binding m subjects r) (notes, i) = absurd i

-- The list of objects counts by the keys alone.
by_key :
    (P : Kind × String × String → Type 0) (dynamic : Bool) (config : K8sgpt) (d d' : Object)
    → key_of d ≡ key_of d'
    → All (λ o. P (key_of o)) (objects_with dynamic config d)
    → All (λ o. P (key_of o)) (objects_with dynamic config d')
by_key P true config d d' e (a, (b, (c, rest))) = (a, (b, (subst P e c, rest)))
by_key P false config d d' e (b, (c, rest)) = (b, (subst P e c, rest))

module _ (g : Digest) (s : Store) (rbac_variable : Option String) (config : K8sgpt)
    (log : List ResourceCall) where
  -- Where the destruction ends without an error, an object with the kind, the namespace and the name
  -- of each object that the synchronization writes was deleted or found missing: with the same
  -- switch of the access rights nothing is left behind.
  pub destroy-removes :
      (ai : AiSpec) (out_of_cluster : Bool) (account : String) (before : List ResourceCall)
      (d : Object)
      → config.spec.ai ≡ some ai
      → (get_deployment g s config out_of_cluster account before).0 ≡ built d
      → (sync g s rbac_variable config destroy_op log).0 ≡ done
      → All
          (λ o. Gone s (sync g s rbac_variable config destroy_op log).1 (key_of o))
          (objects_with (dynamic_rbac_enabled rbac_variable) config d)
  unfolding sync
  destroy-removes ai out_of_cluster account before d has_ai made h =
      let b =
        subst (Holds (IsBuiltFor g s config ai out_of_cluster account)) made
          ((get_deployment-IsBuiltFor g s config ai out_of_cluster account has_ai).at before) in
      by_key (Gone s (sync g s rbac_variable config destroy_op log).1)
        (dynamic_rbac_enabled rbac_variable) config (deployment_stub config) d
        (stub_key g s config ai out_of_cluster account d b) (destroy_all-Gone s _ log h)

  -- The access rights belong to the namespace: with dynamic access rights on, a destruction for one
  -- configuration that ends without an error has removed those of every other configuration in its
  -- namespace.
  pub destroy-removes_rights :
      (other : K8sgpt)
      → dynamic_rbac_enabled rbac_variable ≡ true
      → other.namespace ≡ config.namespace
      → (sync g s rbac_variable config destroy_op log).0 ≡ done
      → All
          (λ o. Gone s (sync g s rbac_variable config destroy_op log).1 (key_of o))
          (rights_of other)
  unfolding sync get_service_account get_cluster_role get_cluster_role_binding
  destroy-removes_rights other on same h =
      let end = (sync g s rbac_variable config destroy_op log).1 in
      let (a, (b, (c, (d, (e, rest))))) =
        subst
          (λ dynamic.
            All (λ o. Gone s end (key_of o)) (objects_with dynamic config (deployment_stub config)))
          on (destroy_all-Gone s _ log h) in
      let moved =
        λ (kind : Kind) (namespace : String → String) (name : String → String)
            (k : Gone s end (kind, namespace config.namespace, name config.namespace)).
          subst (λ n. Gone s end (kind, namespace n, name n)) (sym same) k in
      (
        moved service_account_kind (λ n. n) (λ n. "k8sgpt-" <> n) a,
        (
          moved cluster_role_kind (λ n. "") (λ n. ("k8sgpt-" <> n) <> "-clusterrole") d,
          (
            moved cluster_role_binding_kind (λ n. "")
                (λ n. (("k8sgpt-" <> n) <> "-clusterrole") <> "-binding") e,
            tt,
          ),
        ),
      )
