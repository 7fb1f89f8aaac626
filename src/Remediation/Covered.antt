-- ===== src/Remediation/Covered.antt =====
-- What Deduplicate does not lose.
use k8sgpt_operator.Common.{
  String, List, [], ◌∷◌, ◌++◌, none, some, Outcome, ok, err, ◌≡◌, ◌≢◌, refl, sym, inl, inr,
  Bool-cases, Option-cases, Any, Any-append_left, Any-append_right, lookup, ◌==◌, eq_iff, if-rule,
  subst,
}
use k8sgpt_operator.Json.{Members}
use k8sgpt_operator.Kube.{OwnerReference, Machinery}
use k8sgpt_operator.Mutation.Rollout.{from_config}
use k8sgpt_operator.Remediation.Eligible.{EligibleResource}
use k8sgpt_operator.Remediation.Dedup.{
  Merged, add_owned, add_owners, merge_pod, merge_read, merge, merge_all, deduplicate,
}

abbrev Owned : Type 0
Owned = List (String × EligibleResource)

-- The owner's entry, as the map gives it.
abbrev pub IsOwnerOf : String → EligibleResource → Owned → Type 0
IsOwnerOf name r owned = lookup name owned ≡ some r

lookup-snoc :
    (name key : String) (a b : EligibleResource) (owned : Owned)
    → lookup name owned ≡ some a
    → lookup name (owned ++ (key, b) ∷ []) ≡ some a
unfolding lookup
lookup-snoc name key a b [] h = cc
lookup-snoc name key a b ((j, v) ∷ owned) h = elim (Bool-cases (j == name)) [
  | inl e ↦ rw e (rw e at h)
  | inr e ↦ rw e (lookup-snoc name key a b owned (rw e at h))
]

lookup-snoc_new :
    (name : String) (r : EligibleResource) (owned : Owned)
    → lookup name owned ≡ none
    → lookup name (owned ++ (name, r) ∷ []) ≡ some r
unfolding lookup
lookup-snoc_new name r [] h = rw ((eq_iff name name).1 refl) refl
lookup-snoc_new name r ((j, v) ∷ owned) h = elim (Bool-cases (j == name)) [
  | inl e ↦ cc (rw e at h)
  | inr e ↦ rw e (lookup-snoc_new name r owned (rw e at h))
]

-- An entry stays as it is.
add_owned_keeps :
    (name key : String) (a r : EligibleResource) (owned : Owned)
    → IsOwnerOf name a owned
    → IsOwnerOf name a (add_owned key r owned)
add_owned_keeps name key a r owned h = elim (Option-cases (lookup key owned)) [
  | inl e ↦ rw e (lookup-snoc name key a r owned h)
  | inr (first, e) ↦ rw e h
]

add_owners_keeps :
    (name : String) (a r : EligibleResource) (os : List OwnerReference) (owned : Owned)
    → IsOwnerOf name a owned
    → IsOwnerOf name a (add_owners r os owned)
unfolding add_owners
add_owners_keeps name a r [] owned h = h
add_owners_keeps name a r (o ∷ os) owned h =
    add_owners_keeps name a r os _ (add_owned_keeps name o.name a r owned h)

merge_read_keeps :
    (k : Machinery) (name : String) (a r : EligibleResource) (o : Outcome Members) (m : Merged)
    → IsOwnerOf name a m.owned
    → IsOwnerOf name a (merge_read k r o m).owned
merge_read_keeps k name a r (err e) m h = h
merge_read_keeps k name a r (ok object) m h = pod (k.owner_references object)
  where
    pod : (os : List OwnerReference) → IsOwnerOf name a (merge_pod r os m).owned
    pod [] = h
    pod (o ∷ os) = add_owners_keeps name a r (o ∷ os) m.owned h

merge_keeps :
    (k : Machinery) (name : String) (a r : EligibleResource) (m : Merged)
    → IsOwnerOf name a m.owned
    → IsOwnerOf name a (merge k r m).owned
unfolding merge
merge_keeps k name a r m h =
    if-rule (λ (m' : Merged). IsOwnerOf name a m'.owned) (r.object_ref.kind == "Pod") _ _
      (merge_read_keeps k name a r _ m h) h

-- The first Pod of an owner stays, whatever comes after it.
pub merge_all_keeps :
    (k : Machinery) (name : String) (a : EligibleResource) (rs : List EligibleResource) (m : Merged)
    → IsOwnerOf name a m.owned
    → IsOwnerOf name a (merge_all k rs m).owned
unfolding merge_all
merge_all_keeps k name a [] m h = h
merge_all_keeps k name a (r ∷ rs) m h =
    merge_all_keeps k name a rs (merge k r m) (merge_keeps k name a r m h)

-- The owner has an entry after its Pod was read.
add_owned_covers :
    (name : String) (r : EligibleResource) (owned : Owned)
    → (a : EligibleResource) × IsOwnerOf name a (add_owned name r owned)
add_owned_covers name r owned = elim (Option-cases (lookup name owned)) [
  | inl e ↦ (r, rw e (lookup-snoc_new name r owned e))
  | inr (first, e) ↦ (first, rw e e)
]

add_owners_covers :
    (o : OwnerReference) (r : EligibleResource) (os : List OwnerReference) (owned : Owned)
    → Any (λ p. p ≡ o) os
    → (a : EligibleResource) × IsOwnerOf o.name a (add_owners r os owned)
unfolding add_owners
add_owners_covers o r [] owned h = absurd h
add_owners_covers o r (p ∷ os) owned (inl e) =
    let (a, h) = add_owned_covers o.name r owned in
    (
      a,
      add_owners_keeps o.name a r os _
          (subst (λ (q : OwnerReference). IsOwnerOf o.name a (add_owned q.name r owned)) (sym e) h),
    )
add_owners_covers o r (p ∷ os) owned (inr h) = add_owners_covers o r os _ h

-- A Pod that could be read, and one of its owners.
pub record IsOwnedPod (k : Machinery) (r : EligibleResource) (o : OwnerReference) : Type 0 where
  pub object : Members
  pub is_pod : r.object_ref.kind ≡ "Pod"
  pub read :
      from_config k r.object_ref.kind r.gvk r.origin_configuration r.object_ref.name
        r.object_ref.namespace
      ≡ ok object
  pub owns : Any (λ p. p ≡ o) (k.owner_references object)

module _ (k : Machinery) (r : EligibleResource) (o : OwnerReference) (p : IsOwnedPod k r o) where
  merge_pod_covers :
      (os : List OwnerReference) (m : Merged)
      → Any (λ p. p ≡ o) os
      → (a : EligibleResource) × IsOwnerOf o.name a (merge_pod r os m).owned
  merge_pod_covers [] m h = absurd h
  merge_pod_covers (q ∷ os) m h = add_owners_covers o r (q ∷ os) m.owned h

  merge_covers : (m : Merged) → (a : EligibleResource) × IsOwnerOf o.name a (merge k r m).owned
  unfolding merge
  merge_covers m =
      rw ((eq_iff r.object_ref.kind "Pod").1 p.is_pod, p.read)
        (merge_pod_covers (k.owner_references p.object) m p.owns)

  -- Each owner of each Pod that could be read has one Pod in the map after the loop, wherever the
  -- Pod stands in the input.
  pub merge_all_covers :
      (rs : List EligibleResource) (m : Merged)
      → Any (λ x. x ≡ r) rs
      → (a : EligibleResource) × IsOwnerOf o.name a (merge_all k rs m).owned
  unfolding merge_all
  merge_all_covers [] m h = absurd h
  merge_all_covers (x ∷ rs) m (inl e) =
      let (a, h) = merge_covers m in
      (
        a,
        merge_all_keeps k o.name a rs (merge k x m)
            (subst (λ (y : EligibleResource). IsOwnerOf o.name a (merge k y m).owned) (sym e) h),
      )
  merge_all_covers (x ∷ rs) m (inr h) = merge_all_covers rs (merge k x m) h

module _ (k : Machinery) (r : EligibleResource) where
  abbrev IsIn : List EligibleResource → Type 0
  IsIn rs = Any (λ x. x ≡ r) rs

  merge_read_eligible :
      (x : EligibleResource) (o : Outcome Members) (m : Merged)
      → IsIn m.eligible
      → IsIn (merge_read k x o m).eligible
  merge_read_eligible x (err e) m h = h
  merge_read_eligible x (ok object) m h = pod (k.owner_references object)
    where
      pod : (os : List OwnerReference) → IsIn (merge_pod x os m).eligible
      pod [] = Any-append_left (λ y. y ≡ r) m.eligible _ h
      pod (o ∷ os) = h

  merge_eligible :
      (x : EligibleResource) (m : Merged) → IsIn m.eligible → IsIn (merge k x m).eligible
  unfolding merge
  merge_eligible x m h =
      if-rule (λ (m' : Merged). IsIn m'.eligible) (x.object_ref.kind == "Pod") _ _
        (merge_read_eligible x _ m h) (Any-append_left (λ y. y ≡ r) m.eligible _ h)

  merge_all_eligible :
      (rs : List EligibleResource) (m : Merged) → IsIn m.eligible → IsIn (merge_all k rs m).eligible
  unfolding merge_all
  merge_all_eligible [] m h = h
  merge_all_eligible (x ∷ rs) m h = merge_all_eligible rs (merge k x m) (merge_eligible x m h)

  merge_here : (m : Merged) → r.object_ref.kind ≢ "Pod" → IsIn (merge k r m).eligible
  unfolding merge
  merge_here m n = elim (Bool-cases (r.object_ref.kind == "Pod")) [
    | inl e ↦ absurd (n ((eq_iff r.object_ref.kind "Pod").0 e))
    | inr e ↦ rw e (Any-append_right (λ y. y ≡ r) m.eligible _ (inl refl))
  ]

  merge_all_here :
      (rs : List EligibleResource) (m : Merged)
      → r.object_ref.kind ≢ "Pod"
      → IsIn rs
      → IsIn (merge_all k rs m).eligible
  unfolding merge_all
  merge_all_here [] m n h = absurd h
  merge_all_here (x ∷ rs) m n (inl e) =
      merge_all_eligible rs (merge k x m)
        (subst (λ (y : EligibleResource). IsIn (merge k y m).eligible) (sym e) (merge_here m n))
  merge_all_here (x ∷ rs) m n (inr h) = merge_all_here rs (merge k x m) n h

  -- A resource that is no Pod is still there after the deduplication.
  pub deduplicate-other :
      (input : List EligibleResource)
      → r.object_ref.kind ≢ "Pod"
      → IsIn input
      → IsIn (deduplicate k input)
  unfolding deduplicate
  deduplicate-other input n h =
      Any-append_left (λ y. y ≡ r) _ _
        (merge_all_here input (record { eligible = []; owned = [] }) n h)
