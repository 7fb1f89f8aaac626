-- ===== src/Remediation/Dedup.antt =====
-- Deduplicate: one resource for all Pods of an owner.
use k8sgpt_operator.Common.{
  Option, String, List, [], ◌∷◌, ◌++◌, map, none, some, Outcome, ok, err, lookup, ◌==◌,
  if◌then◌else◌,
}
use k8sgpt_operator.Json.{Members}
use k8sgpt_operator.Kube.{OwnerReference, Machinery}
use k8sgpt_operator.Mutation.Rollout.{from_config}
use k8sgpt_operator.Remediation.Eligible.{EligibleResource}

-- The two variables of the loop. The map is a list of its entries, the oldest first; Go goes
-- through it in any order.
pub record Merged : Type 0 where
  pub eligible : List EligibleResource
  pub owned : List (String × EligibleResource)

abbrev pub keep : EligibleResource → Merged → Merged
keep r m = record m { eligible = m.eligible ++ r ∷ [] }

-- The test whether the owner has an entry, and the branch.
abbrev pub add_if_new :
    Option EligibleResource
    → String
    → EligibleResource
    → List (String × EligibleResource)
    → List (String × EligibleResource)
add_if_new (some first) name r owned = owned
add_if_new none name r owned = owned ++ (name, r) ∷ []

-- The first resource of an owner stays.
abbrev pub add_owned :
    String → EligibleResource → List (String × EligibleResource) → List (String × EligibleResource)
add_owned name r owned = add_if_new (lookup name owned) name r owned

-- The loop over the owners of a Pod.
unfoldable pub add_owners :
    EligibleResource
    → List OwnerReference
    → List (String × EligibleResource)
    → List (String × EligibleResource)
add_owners r [] owned = owned
add_owners r (o ∷ os) owned = add_owners r os (add_owned o.name r owned)

abbrev pub merge_pod : EligibleResource → List OwnerReference → Merged → Merged
merge_pod r [] m = keep r m
merge_pod r (o ∷ os) m = record m { owned = add_owners r (o ∷ os) m.owned }

module _ (k : Machinery) where
  abbrev pub merge_read : EligibleResource → Outcome Members → Merged → Merged
  merge_read r (err e) m = m
  merge_read r (ok object) m = merge_pod r (k.owner_references object) m

  -- One round of the loop.
  unfoldable pub merge : EligibleResource → Merged → Merged
  merge r m =
      if r.object_ref.kind == "Pod"
      then merge_read r
          (from_config k r.object_ref.kind r.gvk r.origin_configuration r.object_ref.name
            r.object_ref.namespace)
          m
      else keep r m

  unfoldable pub merge_all : List EligibleResource → Merged → Merged
  merge_all [] m = m
  merge_all (r ∷ rs) m = merge_all rs (merge r m)

  -- Deduplicate
  unfoldable pub deduplicate : List EligibleResource → List EligibleResource
  deduplicate input =
      let m = merge_all input (record { eligible = []; owned = [] }) in
      m.eligible ++ map (λ e. e.1) m.owned
