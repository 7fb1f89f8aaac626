-- ===== src/Mutation/Order.antt =====
-- The order of the calls of ResourceToExecution.
use k8sgpt_operator.Common.{
  String, not, List, ◌∷◌, Option, none, some, ok, Fault, ◌≡◌, ◌⊎◌, inl, inr, refl,
}
use k8sgpt_operator.Json.{Members}
use k8sgpt_operator.Kube.{Gvk, Machinery}
use k8sgpt_operator.Api.Result.{aborted, completed}
use k8sgpt_operator.Api.Mutation.{Mutation}
use k8sgpt_operator.Policy.Types.{Decision, PatchOperation}
use k8sgpt_operator.Effect.{Effect, pure, ◌>>=◌}
use k8sgpt_operator.Effect.After.{InOrder, after_if, after_outcome}
use k8sgpt_operator.Mutation.Cluster.{
  Call, Cluster, get_object, update_mutation, patch_dry_run, patch_object, read_clock,
}
use k8sgpt_operator.Mutation.Proposal.{parse_yaml_proposal}
use k8sgpt_operator.Mutation.Execution.{
  Reply, Object, typed, unstructured, object_gvk, object_namespace, object_name, guarded_patch,
  rejected_mutation, approved_mutation, reject_mutation, record_success, unless_refused, carry_out,
  apply_decision, judge, resource_to_execution,
}

-- A dry run comes right after the read that answered its object, a patch right after the same patch
-- as a dry run that the server accepted, and a mutation is completed right after a patch that the
-- server accepted and the reading of the time that is written; else it is aborted.
abbrev pub IsDue : Cluster → Call → List Call → Type 0
IsDue c (patch_dry_run live ops) log =
    (g : Gvk) × (namespace name : String) × (rest : List Call) × (log
      ≡ get_object g namespace name ∷ rest)
    × (c.object rest g namespace name ≡ ok live)
IsDue c (patch_object live ops) log =
    (rest : List Call) × (log ≡ patch_dry_run live ops ∷ rest) × (c.dry_run rest live ops ≡ none)
IsDue c (update_mutation m) log =
    (m.status.phase ≡ aborted)
    ⊎ ((live : Members) × (ops : List PatchOperation) × (rest : List Call) × (m.status.phase
          ≡ completed)
        × (log ≡ read_clock ∷ patch_object live ops ∷ rest)
        × (c.patch rest live ops ≡ none)
        × (m.status.applied_at ≡ some (c.now (patch_object live ops ∷ rest))))
IsDue c _ log = Unit

module _ (k : Machinery) (c : Cluster) where
  abbrev Q : List Call → Type 0
  Q = InOrder (IsDue c)

  rejected :
      (m : Mutation) (reason : String) (d : Decision) (log : List Call)
      → Q log
      → Q (reject_mutation k c m reason d log).1
  unfolding reject_mutation rejected_mutation ◌>>=◌
  rejected m reason d log h = (inl refl, h)

  -- The answer is none where the next call is made.
  after_refusal :
      (o : Option Fault) (go : Effect Call Reply) (log : List Call)
      → Q log
      → (o ≡ none → Q (go log).1)
      → Q (unless_refused k c o go log).1
  unfolding unless_refused pure
  after_refusal none go log h p = p refl
  after_refusal (some e) go log h p = h

  carried_out :
      (m : Mutation) (live : Members) (d : Decision) (g : Gvk) (namespace name : String)
      (log : List Call)
      → c.object log g namespace name ≡ ok live
      → Q log
      → Q (carry_out k c m live d (get_object g namespace name ∷ log)).1
  unfolding carry_out record_success approved_mutation ◌>>=◌
  carried_out m live d g namespace name log p h =
      let ops = guarded_patch k live d in
      let read = get_object g namespace name ∷ log in
      let tried = patch_dry_run live ops ∷ read in
      let patched = patch_object live ops ∷ tried in
      let dry : Q tried = ((g, namespace, name, log, refl, p), (tt, h)) in
      after_refusal (c.dry_run read live ops) _ tried dry λ passed.
        let done : Q patched = ((read, refl, passed), dry) in
        after_refusal (c.patch tried live ops) _ patched done
          λ applied. (inr (live, ops, tried, refl, refl, applied, refl), (tt, done))

  decided :
      (m : Mutation) (live : Members) (d : Decision) (g : Gvk) (namespace name : String)
      (log : List Call)
      → c.object log g namespace name ≡ ok live
      → Q log
      → Q (apply_decision k c m live d (get_object g namespace name ∷ log)).1
  unfolding apply_decision
  decided m live d g namespace name log p h =
      let read = get_object g namespace name ∷ log in
      let start : Q read = (tt, h) in
      after_if Q read (not d.allowed) (reject_mutation k c m _ d) (carry_out k c m live d)
        (λ no_policy. rejected m _ d read start)
        (λ admitted. carried_out m live d g namespace name log p h)

  judged :
      (m : Mutation) (original live : Members) (o : Object) (g : Gvk) (namespace name : String)
      (log : List Call)
      → c.object log g namespace name ≡ ok live
      → Q log
      → Q (judge k c m original live o (get_object g namespace name ∷ log)).1
  unfolding judge
  judged m original live (typed t ns n) g namespace name log p h =
      let start : Q (get_object g namespace name ∷ log) = (tt, h) in
      rejected m _ _ (get_object g namespace name ∷ log) start
  judged m original live (unstructured proposed) g namespace name log p h =
      decided m live _ g namespace name log p h

  -- Whatever the server answers, ResourceToExecution keeps the order: an object is read, the patch
  -- is sent as a dry run, then, where the server accepts it, for good, and the mutation is completed
  -- with the time only behind an accepted patch; otherwise a mutation is only aborted.
  pub resource_to_execution-InOrder :
      (m : Mutation) (o : Object) (log : List Call)
      → InOrder (IsDue c) log
      → InOrder (IsDue c) (resource_to_execution k c m o log).1
  unfolding resource_to_execution ◌>>=◌
  resource_to_execution-InOrder m o log h =
      let g = object_gvk k o in
      let namespace = object_namespace k o in
      let name = object_name k o in
      let read = get_object g namespace name ∷ log in
      let start : Q read = (tt, h) in
      after_outcome Q read (c.object log g namespace name) _ _ (λ e p. start)
        λ live p.
          after_outcome Q read (parse_yaml_proposal k m.spec.origin_configuration) _ _
            (λ e q. rejected m _ _ read start)
            λ original q. judged m original live o g namespace name log p h
