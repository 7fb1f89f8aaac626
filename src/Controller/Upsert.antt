-- ===== src/Controller/Upsert.antt =====
-- What CreateOrUpdateResult writes.
use k8sgpt_operator.Common.{
  ℕ, zero, suc, String, true, List, Outcome, ◌∙◌, ok, err, ◌≡◌, refl, ◌⊎◌, inl, inr, arith, eq_iff,
}
use k8sgpt_operator.Api.Result.{Result}
use k8sgpt_operator.Effect.{Effect}
use k8sgpt_operator.Effect.Emits.{
  emits_rules, Emits, Emits-pure, Emits-call, Emits-if, Emits-bind, Emits-outcome, Emits-asked,
}
use k8sgpt_operator.Controller.Server.{
  Toolkit, Call, Server, get_result, create_result, update_result, update_result_status,
}
use k8sgpt_operator.Controller.Results.{
  created_result, updated_result, no_op_result, hash_result_content, create_new, mark_historical,
  replace_content, is_unchanged, attempt, attempts, again_on_conflict, create_or_update_result,
}

-- The same custom resource.
abbrev pub IsNamed : Result → Result → Type 0
IsNamed res r = (r.namespace ≡ res.namespace) × (r.name ≡ res.name)

-- The server answers a read with the result of that name, and an update with the result that was
-- updated.
abbrev pub AnswersNamed : Server → Type 0
AnswersNamed s =
    ((log : List Call) (namespace name : String) (r : Result)
      → s.result log namespace name ≡ ok r
      → (r.namespace ≡ namespace) × (r.name ≡ name))
    × ((log : List Call) (r stored : Result) → s.update log r ≡ ok stored → IsNamed r stored)

-- What may be called to store a result with a hash: whatever is written has a name that is allowed
-- and carries the new content, its labels and the hash of the content, under the life cycle of the
-- branch.
abbrev pub IsWriteUnder : ((namespace name : String) → Type 0) → Result → String → Call → Type 0
IsWriteUnder Named res hash (get_result namespace name) =
    (namespace ≡ res.namespace) × (name ≡ res.name)
IsWriteUnder Named res hash (create_result r) =
    Named r.namespace r.name
    × (r.spec ≡ res.spec)
    × (r.labels ≡ res.labels)
    × (r.status.content_hash ≡ hash)
    × (r.status.life_cycle ≡ created_result)
IsWriteUnder Named res hash (update_result r) =
    Named r.namespace r.name × (r.spec ≡ res.spec) × (r.labels ≡ res.labels)
IsWriteUnder Named res hash (update_result_status r) =
    Named r.namespace r.name
    × (r.status.content_hash ≡ hash)
    × ((r.status.life_cycle ≡ no_op_result) ⊎ (r.status.life_cycle ≡ updated_result))
IsWriteUnder Named res hash _ = ⊥

-- The writes of the named result itself.
abbrev pub IsWriteOf : Result → String → Call → Type 0
IsWriteOf res = IsWriteUnder (λ namespace name. (namespace ≡ res.namespace) × (name ≡ res.name)) res

-- The name of the result is allowed, and so is that of what the server answers for it.
abbrev IsClosed : Server → Result → ((namespace name : String) → Type 0) → Type 0
IsClosed s res Named =
    Named res.namespace res.name
    × ((log : List Call) (r : Result)
        → s.result log res.namespace res.name ≡ ok r
        → Named r.namespace r.name)
    × ((log : List Call) (r stored : Result)
        → Named r.namespace r.name
        → s.update log r ≡ ok stored
        → Named stored.namespace stored.name)

module _ (t : Toolkit) (s : Server) (res : Result) (hash : String)
    (Named : (namespace name : String) → Type 0) (closed : IsClosed s res Named) where
  abbrev W : Call → Type 0
  W = IsWriteUnder Named res hash

  create_new-IsWriteOf : Emits W (create_new t s res hash)
  unfolding create_new
  create_new-IsWriteOf = Emits-call W _ _ (closed.0, refl, refl, refl, refl)

  mark_historical-IsWriteOf :
      (existing : Result)
      → Named existing.namespace existing.name
      → is_unchanged t s res existing hash ≡ true
      → Emits W (mark_historical t s existing)
  unfolding mark_historical is_unchanged
  mark_historical-IsWriteOf existing named h =
      Emits-call W _ _ (named, (ground (arith, eq_iff existing.status.content_hash hash)), inl refl)

  replace_content-IsWriteOf :
      (existing : Result)
      → Named existing.namespace existing.name
      → Emits W (replace_content t s res existing hash)
  unfolding replace_content
  replace_content-IsWriteOf existing named =
      Emits-asked W _ _ _ (named, refl, refl)
        λ log.
          Emits-outcome W _ _ _ (λ e p. Emits-pure W _)
            λ now p.
              let still = closed.2 log _ now named p in Emits-call W _ _ (still, refl, inr refl)

  attempt-IsWriteOf : Emits W (attempt t s res hash)
  unfolding attempt
  attempt-IsWriteOf =
      Emits-asked W _ _ _ (refl, refl)
        λ log.
          Emits-outcome W _ _ _ (λ e p. search (emits_rules, create_new-IsWriteOf))
            λ existing p.
              let named = closed.1 log existing p in
              Emits-if W (is_unchanged t s res existing hash) _ _
                (mark_historical-IsWriteOf existing named)
                (λ changed. replace_content-IsWriteOf existing named)

  again-IsWriteOf :
      (next : Effect Call (Outcome Result)) (o : Outcome Result)
      → Emits W next
      → Emits W (again_on_conflict t s next o)
  again-IsWriteOf next (ok r) h = search emits_rules
  again-IsWriteOf next (err e) h = search emits_rules

  attempts-IsWriteOf : (n : ℕ) → Emits W (attempts t s n res hash)
  unfolding attempts
  attempts-IsWriteOf zero = attempt-IsWriteOf
  attempts-IsWriteOf (suc n) =
      Emits-bind W _ _ attempt-IsWriteOf
        λ o. again-IsWriteOf (attempts t s n res hash) o (attempts-IsWriteOf n)

-- However the server answers, whatever is written carries the new content.
pub create_or_update_result-IsWriteUnder :
    (t : Toolkit) (s : Server) (res : Result)
    → Emits
        (IsWriteUnder (λ namespace name. Unit) res (hash_result_content t res.spec))
        (create_or_update_result t s res)
unfolding create_or_update_result
create_or_update_result-IsWriteUnder t s res =
    attempts-IsWriteOf t s res (hash_result_content t res.spec) (λ namespace name. Unit)
      (tt, (λ log r p. tt), λ log r stored h p. tt) 4

-- Where the server answers a read with the result of that name and an update with the result that
-- was updated: however often the attempt is repeated, only the named result is read and written,
-- and each write carries the new content and labels or the hash of the new content.
pub create_or_update_result-IsWriteOf :
    (t : Toolkit) (s : Server) (res : Result)
    → AnswersNamed s
    → Emits (IsWriteOf res (hash_result_content t res.spec)) (create_or_update_result t s res)
unfolding create_or_update_result
create_or_update_result-IsWriteOf t s res answers =
    attempts-IsWriteOf t s res (hash_result_content t res.spec)
      (λ namespace name. (namespace ≡ res.namespace) × (name ≡ res.name))
      (
        (refl, refl),
        (λ log r p. answers.0 log res.namespace res.name r p),
        λ log r stored h p.
            let (namespace, name) = answers.1 log r stored p in (namespace ∙ h.0, name ∙ h.1),
      )
      4
