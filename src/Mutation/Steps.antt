-- ===== src/Mutation/Steps.antt =====
-- What one reconciliation of a mutation may call.
use k8sgpt_operator.Common.{
  ℕ, String, List, [], ◌∷◌, ◌++◌, Option, none, some, Outcome, ok, err, ◌≡◌, refl, sym, ap, ◌∙◌,
  All, ◌⊎◌, inl, inr, subst, Bool-cases, eq_iff, differs, is_some, ◌==◌, if◌then◌else◌, All-weaken,
  All-append,
}
use mathlib.Core.List.{append_assoc}
use k8sgpt_operator.Kube.{Machinery}
use k8sgpt_operator.Api.Mutation.{Mutation}
use k8sgpt_operator.Shared.{Shared}
use k8sgpt_operator.Effect.{Effect, pure, call, ◌>>=◌, on_outcome}
use k8sgpt_operator.Mutation.Cluster.{Call, get_mutation, update_mutation, Cluster}
use k8sgpt_operator.Mutation.Execution.{Reply, retry}
use k8sgpt_operator.Mutation.Reconcile.{
  mutation_finalizer, remove_finalizer, handle_phase, released, release, release_finalizer,
  reconcile, client_of, reconcile_fetched,
}
use k8sgpt_operator.Mutation.Phases.{IsAllowedIn, handle_phase-Emits}

-- The second list is the first without the target, in the same order.
pub data IsWithout (target : String) : List String → List String → Type 0 where
  at_end : IsWithout target [] []
  kept :
      (f : String) (fs gs : List String)
      → ¬ (f ≡ target)
      → IsWithout target fs gs
      → IsWithout target (f ∷ fs) (f ∷ gs)
  dropped :
      (f : String) (fs gs : List String)
      → f ≡ target
      → IsWithout target fs gs
      → IsWithout target (f ∷ fs) gs

-- The mutation is being deleted, and the other one is the same but for the finalizer of this
-- controller.
abbrev pub IsReleased : Mutation → Mutation → Type 0
IsReleased m m' =
    (fs gs : List String) × (t : ℕ) × (m.finalizers ≡ some fs)
    × (m.deletion_timestamp ≡ some t)
    × IsWithout "mutation.finalizer.k8sgpt.ai" fs gs
    × (m' ≡ record m { finalizers = some gs })

pub remove_finalizer-IsWithout :
    (fs : List String) (target : String) → IsWithout target fs (remove_finalizer fs target)
unfolding remove_finalizer
remove_finalizer-IsWithout [] target = at_end
remove_finalizer-IsWithout (f ∷ fs) target =
    let rest = remove_finalizer-IsWithout fs target in
    elim (Bool-cases (f == target)) [
      | inl h ↦ rw h (dropped f fs (remove_finalizer fs target) ((eq_iff f target).0 h) rest)
      | inr h ↦ rw h (kept f fs (remove_finalizer fs target) (differs h) rest)
    ]

-- What the phase allows, and the update that takes the finalizer off.
abbrev pub IsStepOf : Mutation → Call → Type 0
IsStepOf m call =
    IsAllowedIn m.status.phase call
    ⊎ ((m' : Mutation) × (call ≡ update_mutation m') × IsReleased m m')

-- A list of calls behind the log, each of them a step of the mutation.
abbrev pub StepsFrom : Mutation → Effect Call Reply → List Call → Type 0
StepsFrom m e log = (new : List Call) × ((e log).1 ≡ new ++ log) × All (IsStepOf m) new

IsReleased-from :
    (m m' : Mutation) (o : Option (List String)) (t : Option ℕ)
    → m.finalizers ≡ o
    → m.deletion_timestamp ≡ t
    → (elim o [
      | none ↦ none
      | some fs ↦
          if is_some t
          then some (record m { finalizers = some (remove_finalizer fs mutation_finalizer) })
          else none
    ])
      ≡ some m'
    → IsReleased m m'
IsReleased-from m m' none t p q e = cc
IsReleased-from m m' (some fs) none p q e = cc
IsReleased-from m m' (some fs) (some t) p q e = (
  fs,
  remove_finalizer fs mutation_finalizer,
  t,
  p,
  q,
  remove_finalizer-IsWithout fs mutation_finalizer,
  cc,
)

released-IsReleased : (m m' : Mutation) → released m ≡ some m' → IsReleased m m'
unfolding released
released-IsReleased m m' e = IsReleased-from m m' m.finalizers m.deletion_timestamp refl refl e

-- The server answers an update with the phase that was sent.
abbrev pub AnswersPhase : Cluster → Type 0
AnswersPhase c =
    (log : List Call) (m m' : Mutation) → c.update log m ≡ ok m' → m'.status.phase ≡ m.status.phase

module _ (k : Machinery) (c : Cluster) (shared : Shared) (own : Option ℕ) (m : Mutation) where
  handled :
      (m' : Mutation) (log : List Call)
      → m'.status.phase ≡ m.status.phase
      → StepsFrom m
          (handle_phase k c m'.status.phase m' shared.remote_backend (client_of own shared))
          log
  handled m' log e =
      let (new, added, h) =
        (handle_phase-Emits k c m'.status.phase m' shared.remote_backend (client_of own shared)
            refl).at
          log in
      (
        new,
        added,
        All-weaken (IsAllowedIn m'.status.phase) (IsStepOf m) new
            (λ x p. inl (subst (λ q. IsAllowedIn q x) e p)) h,
      )

  abbrev go_on : Mutation → Effect Call Reply
  go_on m' = handle_phase k c m'.status.phase m' shared.remote_backend (client_of own shared)

  after_update :
      (m' : Mutation) (log : List Call) (o : Outcome Mutation)
      → IsStepOf m (update_mutation m')
      → ((m'' : Mutation) → o ≡ ok m'' → m''.status.phase ≡ m.status.phase)
      → (new : List Call) × ((on_outcome o (λ e. pure (retry e)) go_on (update_mutation m' ∷ log)).1
          ≡ new ++ log)
        × All (IsStepOf m) new
  unfolding on_outcome pure
  after_update m' log (err e) step same = (update_mutation m' ∷ [], refl, (step, tt))
  after_update m' log (ok m'') step same =
      let (new, added, h) = handled m'' (update_mutation m' ∷ log) (same m'' refl) in
      (
        new ++ update_mutation m' ∷ [],
        added ∙ sym (append_assoc new (update_mutation m' ∷ []) log),
        All-append (IsStepOf m) new _ h (step, tt),
      )

  after_release :
      (r : Option Mutation) (log : List Call)
      → AnswersPhase c
      → ((m' : Mutation) → r ≡ some m' → IsReleased m m')
      → StepsFrom m (release k c m r >>= λ kept. on_outcome kept (λ e. pure (retry e)) go_on) log
  unfolding release ◌>>=◌
  after_release none log answers keeps = handled m log refl
  after_release (some m') log answers keeps =
      let released_m = keeps m' refl in
      let (fs, gs, t, p, q, w, same) = released_m in
      after_update m' log (c.update log m') (inr (m', refl, released_m))
        (λ m'' e. answers log m' m'' e ∙ ap (λ (x : Mutation). x.status.phase) same)

  fetched_steps :
      (log : List Call) → AnswersPhase c → StepsFrom m (reconcile_fetched k c shared own m) log
  unfolding reconcile_fetched release_finalizer
  fetched_steps log answers = after_release (released m) log answers (released-IsReleased m)

  -- Where the server answers an update with the phase that was sent and the mutation can be read,
  -- one reconciliation of a mutation in a phase calls, after it has read the mutation: updates
  -- that take an edge of the diagram from that phase, updates of the status that keep it, patches
  -- only if the phase is in progress, and, where the mutation is being deleted, an update that
  -- takes the finalizer of this controller off and leaves everything else as it is.
  pub reconcile-IsStepOf :
      (namespace name : String) (log : List Call)
      → AnswersPhase c
      → c.mutation log namespace name ≡ ok m
      → (new : List Call) × ((reconcile k c shared own namespace name log).1
          ≡ new ++ get_mutation namespace name ∷ log)
        × All (IsStepOf m) new
  unfolding reconcile ◌>>=◌
  reconcile-IsStepOf namespace name log answers e =
      rw e (fetched_steps (get_mutation namespace name ∷ log) answers)
