-- ===== src/Remediation/Enabled.antt =====
-- What selects a type, and that nothing else becomes eligible.
use k8sgpt_operator.Common.{
  not, String, true, List, [], ◌∷◌, Option, none, some, Outcome, ok, err, ◌≡◌, refl, ◌↔◌, ◌⊎◌, inl,
  inr, Bool-cases, All, Any, arith, eq_iff, if-rule,
}
use k8sgpt_operator.Text.{◌<>◌, trim_space}
use k8sgpt_operator.Json.{Members}
use k8sgpt_operator.Kube.{Gvk, ObjectReference, Machinery}
use k8sgpt_operator.Api.K8sgpt.{K8sgpt}
use k8sgpt_operator.Api.Result.{ResultSpec, Result}
use k8sgpt_operator.Effect.Returns.{
  Returns, Returns-pure, Returns-if, Returns-outcome, Returns-then, returns_rules,
}
use k8sgpt_operator.Mutation.Cluster.{Cluster}
use k8sgpt_operator.Remediation.Target.{
  Target, selectors_of, selects, any_selects, auto_remediation_resource_enabled,
}
use k8sgpt_operator.Remediation.Eligible.{
  EligibleResource, described, with_origin, unless_elsewhere, refers_elsewhere, eligible_resource,
  load_target, convert, append_found, results_to_eligible_resources,
}

module _ (k : Machinery) where
  -- The spellings of a type: its kind, group/kind and group/version/kind.
  abbrev pub Spells : Gvk → String → Type 0
  Spells g text =
      (text ≡ g.kind)
      ⊎ (text ≡ g.group <> ("/" <> g.kind))
      ⊎ (text ≡ k.group_version_text g <> ("/" <> g.kind))

  selects_iff : (g : Gvk) (s : String) → (selects k g s ≡ true) ↔ Spells g (trim_space s)
  unfolding selects
  selects_iff g s = ground (
    arith,
    eq_iff (trim_space s) g.kind,
    eq_iff (trim_space s) (g.group <> ("/" <> g.kind)),
    eq_iff (trim_space s) (k.group_version_text g <> ("/" <> g.kind)),
  )

  any_selects_iff :
      (g : Gvk) (ss : List String)
      → (any_selects k g ss ≡ true) ↔ Any (λ s. Spells g (trim_space s)) ss
  unfolding any_selects
  any_selects_iff g [] = ground arith
  any_selects_iff g (s ∷ ss) = elim (Bool-cases (selects k g s)) [
    | inl e ↦ rw e (λ h. inl ((selects_iff g s).0 e), λ h. refl)
    | inr e ↦ rw e (
      (λ h. inr ((any_selects_iff g ss).0 h)),
      λ h. elim h [ inl p ↦ cc ((selects_iff g s).1 p) | inr p ↦ (any_selects_iff g ss).1 p ],
    )
  ]

  -- A type is enabled exactly when some selector, without the space around it, is its kind, its
  -- group and kind, or its group, version and kind.
  pub auto_remediation_resource_enabled_iff :
      (config : Option K8sgpt) (g : Gvk)
      → (auto_remediation_resource_enabled k config g ≡ true)
        ↔ Any (λ s. Spells g (trim_space s)) (selectors_of config)
  unfolding auto_remediation_resource_enabled
  auto_remediation_resource_enabled_iff config g = any_selects_iff g (selectors_of config)

module _ (k : Machinery) (config : Option K8sgpt) (c : Cluster) where
  -- The resource is of a type that the configuration enables.
  abbrev pub IsOfEnabled : EligibleResource → Type 0
  IsOfEnabled r =
      (g : Gvk) × (auto_remediation_resource_enabled k config g ≡ true)
      × (r.object_ref.kind ≡ g.kind)
      × (r.object_ref.api_version ≡ k.group_version_text g)
      × (r.gvk ≡ k.group_version_text g)

  abbrev pub AllOfEnabled : List EligibleResource → Type 0
  AllOfEnabled rs = All IsOfEnabled rs

  abbrev FoundOfEnabled : Option EligibleResource → Type 0
  FoundOfEnabled none = Unit
  FoundOfEnabled (some r) = IsOfEnabled r

  abbrev LoadedOfEnabled : Outcome EligibleResource → Type 0
  LoadedOfEnabled (err e) = Unit
  LoadedOfEnabled (ok r) = IsOfEnabled r

  with_origin-IsOfEnabled :
      (result_ref : ObjectReference) (g : Gvk) (object : Members) (o : Outcome String)
      → auto_remediation_resource_enabled k config g ≡ true
      → LoadedOfEnabled (with_origin k config c result_ref g object o)
  with_origin-IsOfEnabled result_ref g object (err e) h = tt
  with_origin-IsOfEnabled result_ref g object (ok origin) h = (g, h, refl, refl, refl)

  unless_elsewhere-IsOfEnabled :
      (spec : ResultSpec) (original g : Gvk) (o : Outcome EligibleResource)
      → LoadedOfEnabled o
      → FoundOfEnabled (unless_elsewhere k config c spec original g o)
  unless_elsewhere-IsOfEnabled spec original g (err e) h = tt
  unless_elsewhere-IsOfEnabled spec original g (ok r) h =
      if-rule FoundOfEnabled (refers_elsewhere k config c spec original g r) none (some r) tt h

  append_found-IsOfEnabled :
      (reference : Result → Outcome ObjectReference) (o : Option EligibleResource)
      (rs : List EligibleResource)
      → FoundOfEnabled o
      → AllOfEnabled rs
      → AllOfEnabled (append_found k config c reference o rs)
  append_found-IsOfEnabled reference none rs h hs = hs
  append_found-IsOfEnabled reference (some r) rs h hs = (h, hs)

  eligible_resource-IsOfEnabled :
      (result_ref : ObjectReference) (t : Target)
      → auto_remediation_resource_enabled k config t.gvk ≡ true
      → Returns LoadedOfEnabled (eligible_resource k config c result_ref t)
  unfolding eligible_resource described
  eligible_resource-IsOfEnabled result_ref t h =
      search (returns_rules, with_origin-IsOfEnabled, tt) depth 9

  module _ (reference : Result → Outcome ObjectReference) where
    load_target-IsOfEnabled :
        (item : Result) (original : Gvk) (t : Target)
        → Returns FoundOfEnabled (load_target k config c reference item original t)
    unfolding load_target
    load_target-IsOfEnabled item original t =
        Returns-if FoundOfEnabled (not (auto_remediation_resource_enabled k config t.gvk)) _ _
          (λ off. search (returns_rules, tt))
          λ on.
            Returns-outcome FoundOfEnabled (reference item) _ _ (λ e p. search (returns_rules, tt))
              λ result_ref p.
                Returns-then FoundOfEnabled LoadedOfEnabled _ _
                  (eligible_resource-IsOfEnabled result_ref t (ground arith))
                  λ o h.
                    Returns-pure FoundOfEnabled _
                      (unless_elsewhere-IsOfEnabled item.spec original t.gvk o h)

    convert-IsOfEnabled :
        (item : Result) → Returns FoundOfEnabled (convert k config c reference item)
    unfolding convert
    convert-IsOfEnabled item = search (returns_rules, load_target-IsOfEnabled, tt) depth 9

    -- Every eligible resource is of a type that the configuration enables, and names that type.
    pub results_to_eligible_resources-IsOfEnabled :
        (items : List Result)
        → Returns AllOfEnabled (results_to_eligible_resources k config c reference items)
    unfolding results_to_eligible_resources
    results_to_eligible_resources-IsOfEnabled [] = Returns-pure AllOfEnabled [] tt
    results_to_eligible_resources-IsOfEnabled (item ∷ items) =
        Returns-then AllOfEnabled FoundOfEnabled _ _ (convert-IsOfEnabled item) λ o h.
          Returns-then AllOfEnabled AllOfEnabled _ _
            (results_to_eligible_resources-IsOfEnabled items)
            λ rs hs. Returns-pure AllOfEnabled _ (append_found-IsOfEnabled reference o rs h hs)
