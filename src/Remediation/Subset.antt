-- ===== src/Remediation/Subset.antt =====
-- What Deduplicate keeps.
use k8sgpt_operator.Common.{
  String, List, [], ◌∷◌, Option, none, some, Outcome, ok, err, All, All-append, All-map, lookup,
  ◌==◌, if-rule,
}
use k8sgpt_operator.Json.{Members}
use k8sgpt_operator.Kube.{OwnerReference, Machinery}
use k8sgpt_operator.Remediation.Eligible.{EligibleResource}
use k8sgpt_operator.Remediation.Dedup.{
  Merged, keep, add_if_new, add_owners, merge_pod, merge_read, merge, merge_all, deduplicate,
}

abbrev Owned : Type 0
Owned = List (String × EligibleResource)

module _ (P : EligibleResource → Type 0) where
  abbrev AllMerged : Merged → Type 0
  AllMerged m = All P m.eligible × All (λ e. P e.1) m.owned

  add_if_new-All :
      (o : Option EligibleResource) (name : String) (r : EligibleResource) (owned : Owned)
      → P r
      → All (λ e. P e.1) owned
      → All (λ e. P e.1) (add_if_new o name r owned)
  add_if_new-All (some first) name r owned p h = h
  add_if_new-All none name r owned p h = All-append (λ e. P e.1) owned _ h (p, tt)

  add_owners-All :
      (r : EligibleResource) (os : List OwnerReference) (owned : Owned)
      → P r
      → All (λ e. P e.1) owned
      → All (λ e. P e.1) (add_owners r os owned)
  unfolding add_owners
  add_owners-All r [] owned p h = h
  add_owners-All r (o ∷ os) owned p h =
      add_owners-All r os _ p (add_if_new-All (lookup o.name owned) o.name r owned p h)

  keep-All : (r : EligibleResource) (m : Merged) → P r → AllMerged m → AllMerged (keep r m)
  keep-All r m p (h, g) = (All-append P m.eligible _ h (p, tt), g)

  merge_read-All :
      (k : Machinery) (r : EligibleResource) (o : Outcome Members) (m : Merged)
      → P r
      → AllMerged m
      → AllMerged (merge_read k r o m)
  merge_read-All k r (err e) m p h = h
  merge_read-All k r (ok object) m p h = merge_pod-All (k.owner_references object)
    where
      merge_pod-All : (os : List OwnerReference) → AllMerged (merge_pod r os m)
      merge_pod-All [] = keep-All r m p h
      merge_pod-All (o ∷ os) = (h.0, add_owners-All r (o ∷ os) m.owned p h.1)

  merge_all-All :
      (k : Machinery) (rs : List EligibleResource) (m : Merged)
      → All P rs
      → AllMerged m
      → AllMerged (merge_all k rs m)
  unfolding merge_all merge
  merge_all-All k [] m ps h = h
  merge_all-All k (r ∷ rs) m (p, ps) h = merge_all-All k rs _ ps (
      if-rule AllMerged (r.object_ref.kind == "Pod") _ _ (merge_read-All k r _ m p h)
        (keep-All r m p h))

  -- What holds of every resource holds of every resource after the deduplication.
  pub deduplicate-All :
      (k : Machinery) (input : List EligibleResource) → All P input → All P (deduplicate k input)
  unfolding deduplicate
  deduplicate-All k input h =
      let (eligible, owned) =
        merge_all-All k input (record { eligible = []; owned = [] }) h (tt, tt) in
      All-append P _ _ eligible (All-map P (λ e. e.1) _ owned)
