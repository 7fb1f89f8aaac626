-- ===== src/Controller/Created.antt =====
-- The mutations that the controller creates.
use k8sgpt_operator.Common.{
  List, [], ◌∷◌, Option, none, some, Outcome, ok, err, Fault, ◌≡◌, refl, Any, All, All-weaken, inl,
  inr,
}
use k8sgpt_operator.Api.K8sgpt.{K8sgpt}
use k8sgpt_operator.Api.Mutation.{Mutation}
use k8sgpt_operator.Effect.{Effect}
use k8sgpt_operator.Effect.Emits.{emits_rules, Emits, Emits-if, Emits-bind, Emits-call}
use k8sgpt_operator.Remediation.Eligible.{EligibleResource}
use k8sgpt_operator.Controller.Server.{Toolkit, Call, Server, get_mutation, create_mutation}
use k8sgpt_operator.Controller.Remediate.{
  new_mutation, unless_create_failed, create_if_missing, create_mutations,
}

module _ (t : Toolkit) (s : Server) (config : K8sgpt) (all : List EligibleResource) where
  -- A lookup in the namespace of the configuration, or the creation of the mutation of one of the
  -- resources.
  abbrev pub IsOfEligible : Call → Type 0
  IsOfEligible (get_mutation namespace name) = namespace ≡ config.namespace
  IsOfEligible (create_mutation m) = Any (λ r. new_mutation t config r ≡ m) all
  IsOfEligible _ = ⊥

  unless_create_failed-IsOfEligible :
      (o : Option Fault) (rest : Effect Call (Option Fault))
      → Emits IsOfEligible rest
      → Emits IsOfEligible (unless_create_failed t s config o rest)
  unless_create_failed-IsOfEligible none rest g = g
  unless_create_failed-IsOfEligible (some fault) rest g = search emits_rules

  create_if_missing-IsOfEligible :
      (m : Mutation) (rest : Effect Call (Option Fault)) (o : Outcome Mutation)
      → Any (λ r. new_mutation t config r ≡ m) all
      → Emits IsOfEligible rest
      → Emits IsOfEligible (create_if_missing t s config m rest o)
  unfolding create_if_missing
  create_if_missing-IsOfEligible m rest (ok existing) h g = g
  create_if_missing-IsOfEligible m rest (err e) h g =
      Emits-if IsOfEligible e.is_not_found _ _
        (λ missing.
          Emits-bind IsOfEligible _ _ (Emits-call IsOfEligible _ _ h)
            λ o. unless_create_failed-IsOfEligible o rest g)
        (λ other. search emits_rules)

  create_each-IsOfEligible :
      (rs : List EligibleResource)
      → All (λ r. Any (λ q. new_mutation t config q ≡ new_mutation t config r) all) rs
      → Emits IsOfEligible (create_mutations t s config rs)
  unfolding create_mutations
  create_each-IsOfEligible [] h = search emits_rules
  create_each-IsOfEligible (r ∷ rs) (h, hs) =
      Emits-bind IsOfEligible _ _ (Emits-call IsOfEligible _ _ refl) λ found.
        create_if_missing-IsOfEligible (new_mutation t config r) (create_mutations t s config rs)
          found h (create_each-IsOfEligible rs hs)

-- The mutations of all resources of a list.
All-in : {A : Type 0} (f : A → Mutation) (rs : List A) → All (λ r. Any (λ q. f q ≡ f r) rs) rs
All-in f [] = tt
All-in f (r ∷ rs) =
    (inl refl, All-weaken _ (λ x. Any (λ q. f q ≡ f x) (r ∷ rs)) rs (λ x h. inr h) (All-in f rs))

-- The loop creates no mutation but those of the eligible resources, and otherwise only looks
-- mutations up, in the namespace of the configuration.
pub create_mutations-IsOfEligible :
    (t : Toolkit) (s : Server) (config : K8sgpt) (rs : List EligibleResource)
    → Emits (IsOfEligible t s config rs) (create_mutations t s config rs)
create_mutations-IsOfEligible t s config rs =
    create_each-IsOfEligible t s config rs rs (All-in (new_mutation t config) rs)
