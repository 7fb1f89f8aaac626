-- ===== src/Resources/Sync/Written.antt =====
-- What Sync writes.
use k8sgpt_operator.Common.{
  ℕ, zero, suc, String, Bool, true, false, not, List, [], ◌∷◌, Option, none, some, Outcome, ok, err,
  Fault, All, Any, ◌≡◌, refl, sym, subst, ◌⊎◌, inl, inr, ap, ◌∙◌, is_some, if◌then◌else◌,
}
use k8sgpt_operator.Built.{Built, built, refused, crashed}
use k8sgpt_operator.Api.K8sgpt.{K8sgpt}
use k8sgpt_operator.Effect.{Effect, pure, ◌>>=◌}
use k8sgpt_operator.Effect.Emits.{Emits, Emits-pure, Emits-call, Emits-if, Emits-bind}
use k8sgpt_operator.Resources.Objects.{
  Kind, kind_of, metadata_of, Object, service_account, service, deployment, cluster_role,
  cluster_role_binding, Digest, ResourceCall, create_or_patch, Store,
}
use k8sgpt_operator.Resources.Rights.{dynamic_rbac_enabled}
use k8sgpt_operator.Resources.Build.{get_deployment}
use k8sgpt_operator.Resources.Sync.Loop.{next_unless-Emits, log_grows}
use k8sgpt_operator.Resources.Sync.{
  Synced, done, sync_op, account_of, objects_with, again_on_conflict, write_attempts, write_found,
  sync_spec, do_sync, next_unless, after_sync, sync_all, sync_built, sync,
}

-- A read of the object's kind, namespace and name was answered: by the one that exists, into which
-- the spec of the object is to be copied, or by NotFound, so that the object is given as it is.
abbrev IsGivenAfterRead : Store → Object → Object → Option Object → Type 0
IsGivenAfterRead s o given expected =
    ((log : List ResourceCall) × (s.existing log (kind_of o) (metadata_of o).namespace
          (metadata_of o).name
        ≡ ok given)
      × (expected ≡ some o))
    ⊎ ((log : List ResourceCall) × (e : Fault) × (s.existing log (kind_of o)
            (metadata_of o).namespace (metadata_of o).name
          ≡ err e)
        × (e.is_not_found ≡ true)
        × (given ≡ o)
        × (expected ≡ none))

-- A Deployment and a Service are given after a read, the other objects as they are.
abbrev IsGiven : Store → Object → Object → Option Object → Type 0
IsGiven s (deployment m spec) given expected = IsGivenAfterRead s (deployment m spec) given expected
IsGiven s (service m spec) given expected = IsGivenAfterRead s (service m spec) given expected
IsGiven s o given expected = (given ≡ o) × (expected ≡ none)

-- The object is given to CreateOrPatch.
abbrev pub Writes : Store → Object → ResourceCall → Type 0
Writes s o (create_or_patch given expected) = IsGiven s o given expected
Writes s o _ = ⊥

-- The API server never answers a read by AlreadyExists.
abbrev pub ReadsPlainly : Store → Type 0
ReadsPlainly s =
    (log : List ResourceCall) (kind : Kind) (namespace name : String) (e : Fault)
    → s.existing log kind namespace name ≡ err e
    → e.is_already_exists ≡ false

-- An answer after which the loop goes on.
abbrev IsPassed : Option Fault → Type 0
IsPassed none = Unit
IsPassed (some e) = e.is_already_exists ≡ true

not_both : (b : Bool) → b ≡ false → b ≡ true → ⊥
not_both true h k = cc
not_both false h k = cc

module _ (s : Store) where
  again_on_conflict-Emits :
      (P : ResourceCall → Type 0) (answer : Option Fault)
      (next : Effect ResourceCall (Option Fault))
      → Emits P next
      → Emits P (again_on_conflict s next answer)
  again_on_conflict-Emits P none next h = Emits-pure P _
  again_on_conflict-Emits P (some e) next h =
      Emits-if P e.is_conflict _ _ (λ c. h) (λ c. Emits-pure P _)

  write_attempts-Emits :
      (n : ℕ) (o : Object) (expected : Option Object)
      → Emits (λ c. Unit {0}) (write_attempts s n o expected)
  unfolding write_attempts
  write_attempts-Emits zero o expected = Emits-call (λ c. Unit {0}) _ _ tt
  write_attempts-Emits (suc n) o expected =
      Emits-bind (λ c. Unit {0}) _ _ (Emits-call (λ c. Unit {0}) _ _ tt)
        (λ answer. again_on_conflict-Emits _ answer _ (write_attempts-Emits n o expected))

  -- The first attempt writes.
  write_attempts-Writes :
      (n : ℕ) (o given : Object) (expected : Option Object) (log : List ResourceCall)
      → Writes s o (create_or_patch given expected)
      → Any (Writes s o) (write_attempts s n given expected log).1
  unfolding write_attempts ◌>>=◌
  write_attempts-Writes zero o given expected log w = inl w
  write_attempts-Writes (suc n) o given expected log w =
      log_grows (Writes s o)
        (again_on_conflict s (write_attempts s n given expected)
          (s.create_or_patch log given expected))
        (again_on_conflict-Emits _ (s.create_or_patch log given expected) _
          (write_attempts-Emits n given expected))
        (create_or_patch given expected ∷ log) (inl w)

  module _ (plain : ReadsPlainly s) where
    write_found-Writes :
        (o : Object) (found : Outcome Object) (log : List ResourceCall)
        → ((exist : Object) → found ≡ ok exist → Writes s o (create_or_patch exist (some o)))
        → ((e : Fault)
            → found ≡ err e
            → e.is_not_found ≡ true
            → Writes s o (create_or_patch o none))
        → ((e : Fault) → found ≡ err e → e.is_already_exists ≡ false)
        → IsPassed (write_found s o found log).0
        → Any (Writes s o) (write_found s o found log).1
    unfolding pure
    write_found-Writes o (ok exist) log old new p h =
        write_attempts-Writes 4 o exist (some o) log (old exist refl)
    write_found-Writes o (err e) log old new p h =
        elim e.is_not_found
            as (λ b.
              e.is_not_found ≡ b
              → IsPassed ((if not b then pure (some e) else write_attempts s 4 o none) log).0
              → Any (Writes s o)
                  ((if not b then pure (some e) else write_attempts s 4 o none) log).1) [
                    | true ↦ λ b k. write_attempts-Writes 4 o o none log (new e refl b)
                    | false ↦ λ b k. absurd (not_both e.is_already_exists (p e refl) k)
                  ]
          refl h

    sync_spec-Writes :
        (o : Object) (log : List ResourceCall)
        → ((given : Object) (expected : Option Object)
            → IsGivenAfterRead s o given expected
            → Writes s o (create_or_patch given expected))
        → IsPassed (sync_spec s o log).0
        → Any (Writes s o) (sync_spec s o log).1
    unfolding sync_spec ◌>>=◌
    sync_spec-Writes o log after h =
        write_found-Writes o _ _ (λ exist q. after exist (some o) (inl (log, q, refl)))
          (λ e q b. after o none (inr (log, e, q, b, refl, refl))) (λ e q. plain log _ _ _ e q) h

    do_sync-Writes :
        (o : Object) (log : List ResourceCall)
        → IsPassed (do_sync s o log).0
        → Any (Writes s o) (do_sync s o log).1
    unfolding do_sync
    do_sync-Writes (deployment m spec) log h = sync_spec-Writes _ log (λ given expected x. x) h
    do_sync-Writes (service m spec) log h = sync_spec-Writes _ log (λ given expected x. x) h
    do_sync-Writes (service_account m) log h =
        write_attempts-Writes 4 (service_account m) _ none log (refl, refl)
    do_sync-Writes (cluster_role m rules) log h =
        write_attempts-Writes 4 (cluster_role m rules) _ none log (refl, refl)
    do_sync-Writes (cluster_role_binding m subjects r) log h =
        write_attempts-Writes 4 (cluster_role_binding m subjects r) _ none log (refl, refl)

    after_sync-Emits :
        (P : ResourceCall → Type 0) (answer : Option Fault) (go : Effect ResourceCall Synced)
        → Emits P go
        → Emits P (after_sync s answer go)
    after_sync-Emits P none go h = h
    after_sync-Emits P (some e) go h = next_unless-Emits s P e.is_already_exists e go h

    write_found-Emits :
        (o : Object) (found : Outcome Object) → Emits (λ c. Unit {0}) (write_found s o found)
    write_found-Emits o (ok exist) = write_attempts-Emits 4 exist (some o)
    write_found-Emits o (err e) =
        Emits-if (λ c. Unit {0}) (not e.is_not_found) _ _ (λ h. Emits-pure _ _)
          (λ h. write_attempts-Emits 4 o none)

    sync_spec-Emits : (o : Object) → Emits (λ c. Unit {0}) (sync_spec s o)
    unfolding sync_spec
    sync_spec-Emits o =
        Emits-bind (λ c. Unit {0}) _ _ (Emits-call (λ c. Unit {0}) _ _ tt) (write_found-Emits o)

    do_sync-Emits : (o : Object) → Emits (λ c. Unit {0}) (do_sync s o)
    unfolding do_sync
    do_sync-Emits (deployment m spec) = sync_spec-Emits _
    do_sync-Emits (service m spec) = sync_spec-Emits _
    do_sync-Emits (service_account m) = write_attempts-Emits 4 _ _
    do_sync-Emits (cluster_role m rules) = write_attempts-Emits 4 _ _
    do_sync-Emits (cluster_role_binding m subjects r) = write_attempts-Emits 4 _ _

    sync_all-Emits : (os : List Object) → Emits (λ c. Unit {0}) (sync_all s os)
    unfolding sync_all
    sync_all-Emits [] = Emits-pure (λ c. Unit {0}) _
    sync_all-Emits (o ∷ os) =
        Emits-bind (λ c. Unit {0}) _ _ (do_sync-Emits o)
          (λ answer. after_sync-Emits _ answer _ (sync_all-Emits os))

    -- Where the loop comes to its end, the round was passed.
    passed :
        (answer : Option Fault) (go : Effect ResourceCall Synced) (log : List ResourceCall)
        → (after_sync s answer go log).0 ≡ done
        → (after_sync s answer go log ≡ go log) × IsPassed answer
    unfolding pure
    passed none go log h = (refl, tt)
    passed (some e) go log h =
        elim e.is_already_exists
            as (λ b.
              (next_unless s b e go log).0 ≡ done
              → (next_unless s b e go log ≡ go log) × (b ≡ true)) [
                | true ↦ λ k. (refl, refl)
                | false ↦ λ k. cc
              ]
          h

    sync_all-Writes :
        (os : List Object) (log : List ResourceCall)
        → (sync_all s os log).0 ≡ done
        → All (λ o. Any (Writes s o) (sync_all s os log).1) os
    unfolding sync_all ◌>>=◌
    sync_all-Writes [] log h = tt
    sync_all-Writes (o ∷ os) log h =
        let (same, p) = passed (do_sync s o log).0 (sync_all s os) (do_sync s o log).1 h in
        subst (λ (x : Synced × List ResourceCall). All (λ o. Any (Writes s o) x.1) (o ∷ os))
          (sym same)
          (
            log_grows (Writes s o) (sync_all s os) (sync_all-Emits os) (do_sync s o log).1
                (do_sync-Writes o log p),
            sync_all-Writes os (do_sync s o log).1 (ap (λ x. x.0) (sym same) ∙ h),
          )

module _ (g : Digest) (s : Store) (rbac_variable : Option String) (config : K8sgpt) where
  of_built :
      (plain : ReadsPlainly s) (m : Built Object) (log : List ResourceCall)
      → (sync_built g s rbac_variable config m log).0 ≡ done
      → (d : Object) × (m ≡ built d)
        × All
            (λ o. Any (Writes s o) (sync_built g s rbac_variable config m log).1)
            (objects_with (dynamic_rbac_enabled rbac_variable) config d)
  unfolding pure
  of_built plain (built d) log h = (d, refl, sync_all-Writes s plain _ log h)
  of_built plain (refused e) log h = cc
  of_built plain crashed log h = cc

  -- Where no read is answered by AlreadyExists and the synchronization ends without an error, a
  -- Deployment was built, and each object of the configuration, this Deployment among them, was
  -- given to CreateOrPatch: the Deployment and the Service for their spec to be copied into the
  -- object that a read of their kind, namespace and name answered, or as they are where such a read
  -- was answered by NotFound; the other objects as they are.
  pub sync-Writes :
      (log : List ResourceCall)
      → ReadsPlainly s
      → (sync g s rbac_variable config sync_op log).0 ≡ done
      → (d : Object) × ((get_deployment g s config
            (is_some config.spec.kubeconfig)
            (account_of (dynamic_rbac_enabled rbac_variable) config)
            log).0
          ≡ built d)
        × All
            (λ o. Any (Writes s o) (sync g s rbac_variable config sync_op log).1)
            (objects_with (dynamic_rbac_enabled rbac_variable) config d)
  unfolding sync ◌>>=◌
  sync-Writes log plain h = of_built plain _ _ h
