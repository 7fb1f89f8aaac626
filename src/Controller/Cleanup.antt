-- ===== src/Controller/Cleanup.antt =====
-- Which results are deleted.
use k8sgpt_operator.Common.{
  String, false, List, [], ◌∷◌, Option, none, some, is_some, lookup, Fault, ◌≡◌, refl, sym, inl,
  inr, Option-cases, All, Any, Any-append_right, subst,
}
use k8sgpt_operator.Api.K8sgpt.{K8sgpt}
use k8sgpt_operator.Api.Result.{Result}
use k8sgpt_operator.Effect.{Effect, ◌>>=◌}
use k8sgpt_operator.Effect.Emits.{
  emits_rules, Emits, Emits-pure, Emits-call, Emits-if, Emits-bind, Emits-outcome,
}
use k8sgpt_operator.Controller.Server.{Toolkit, Call, Server, list_results, delete_result}
use k8sgpt_operator.Controller.Analysis.{unless_failed, delete_stale, clean_up_stale_results}

-- The list of the configuration's results, and deletions of results that are not in the map.
abbrev pub IsCleanUp : K8sgpt → List (String × Result) → Call → Type 0
IsCleanUp config raw (list_results name namespace) =
    (name ≡ config.name) × (namespace ≡ config.namespace)
IsCleanUp config raw (delete_result r) = lookup r.name raw ≡ none
IsCleanUp config raw _ = ⊥

module _ (t : Toolkit) (s : Server) (config : K8sgpt) (raw : List (String × Result)) where
  unless_failed-IsCleanUp :
      (o : Option Fault) (go : Effect Call (Option Fault))
      → Emits (IsCleanUp config raw) go
      → Emits (IsCleanUp config raw) (unless_failed t s o go)
  unless_failed-IsCleanUp none go h = h
  unless_failed-IsCleanUp (some e) go h = search emits_rules

  not_in_raw : (o : Option Result) → is_some o ≡ false → o ≡ none
  not_in_raw none h = refl
  not_in_raw (some r) h = cc

  delete_stale-IsCleanUp :
      (rs : List Result) → Emits (IsCleanUp config raw) (delete_stale t s raw rs)
  unfolding delete_stale
  delete_stale-IsCleanUp [] = search emits_rules
  delete_stale-IsCleanUp (r ∷ rs) =
      Emits-if (IsCleanUp config raw) (is_some (lookup r.name raw)) _ _
        (λ fresh. delete_stale-IsCleanUp rs)
        λ stale.
          Emits-bind (IsCleanUp config raw) _ _
            (Emits-call (IsCleanUp config raw) _ _ (not_in_raw (lookup r.name raw) stale))
            λ o. unless_failed-IsCleanUp o (delete_stale t s raw rs) (delete_stale-IsCleanUp rs)

  -- cleanUpStaleResults lists the results of the configuration, and deletes none whose name is in
  -- the map of the latest analysis.
  pub clean_up_stale_results-IsCleanUp :
      Emits (IsCleanUp config raw) (clean_up_stale_results t s raw config)
  unfolding clean_up_stale_results
  clean_up_stale_results-IsCleanUp =
      Emits-bind (IsCleanUp config raw) _ _ (Emits-call (IsCleanUp config raw) _ _ (refl, refl))
        λ listed.
          Emits-outcome (IsCleanUp config raw) listed _ _
            (λ e p. Emits-pure (IsCleanUp config raw) _) (λ rs p. delete_stale-IsCleanUp rs)

  -- The deletion of each result that is stale is among the calls.
  abbrev pub AllDeleted : List Result → List Call → Type 0
  AllDeleted rs log =
      All (λ (r : Result). lookup r.name raw ≡ none → Any (λ c. c ≡ delete_result r) log) rs

  -- What was called stays in the log.
  log_grows :
      (rs : List Result) (log : List Call) (P : Call → Type 0)
      → Any P log
      → Any P (delete_stale t s raw rs log).1
  log_grows rs log P h =
      let (new, e, g) = (delete_stale-IsCleanUp rs).at log in
      subst (Any P) (sym e) (Any-append_right P new log h)

  module _ (r : Result) (rs : List Result) (log : List Call) where
    delete_stale_kept :
        (kept : Result)
        → lookup r.name raw ≡ some kept
        → delete_stale t s raw (r ∷ rs) log ≡ delete_stale t s raw rs log
    unfolding delete_stale
    delete_stale_kept kept e = rw e refl

    delete_stale_dropped :
        lookup r.name raw ≡ none
        → s.delete log r ≡ none
        → delete_stale t s raw (r ∷ rs) log ≡ delete_stale t s raw rs (delete_result r ∷ log)
    unfolding delete_stale ◌>>=◌
    delete_stale_dropped e f = rw (e, f) refl

    delete_stale_failed :
        (fault : Fault)
        → lookup r.name raw ≡ none
        → s.delete log r ≡ some fault
        → delete_stale t s raw (r ∷ rs) log ≡ (some fault, delete_result r ∷ log)
    unfolding delete_stale ◌>>=◌
    delete_stale_failed fault e f = rw (e, f) refl

  abbrev EndsComplete : List Result → Option Fault × List Call → Type 0
  EndsComplete rs end = end.0 ≡ none → AllDeleted rs end.1

  -- Where the loop ends without an error, every stale result of the list was deleted.
  pub delete_stale-AllDeleted :
      (rs : List Result) (log : List Call)
      → (delete_stale t s raw rs log).0 ≡ none
      → AllDeleted rs (delete_stale t s raw rs log).1
  delete_stale-AllDeleted [] log = λ h. tt
  delete_stale-AllDeleted (r ∷ rs) log = elim (Option-cases (lookup r.name raw)) [
    | inr (kept, e) ↦
        subst (EndsComplete (r ∷ rs)) (sym (delete_stale_kept r rs log kept e))
          (λ h. ((λ absent. cc), delete_stale-AllDeleted rs log h))
    | inl e ↦ elim (Option-cases (s.delete log r)) [
      | inr (fault, f) ↦
          subst (EndsComplete (r ∷ rs)) (sym (delete_stale_failed r rs log fault e f)) (λ h. cc)
      | inl f ↦ subst (EndsComplete (r ∷ rs)) (sym (delete_stale_dropped r rs log e f)) λ h. (
        (λ absent. log_grows rs (delete_result r ∷ log) (λ c. c ≡ delete_result r) (inl refl)),
        delete_stale-AllDeleted rs (delete_result r ∷ log) h,
      )
    ]
  ]
