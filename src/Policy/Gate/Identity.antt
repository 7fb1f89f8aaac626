-- ===== src/Policy/Gate/Identity.antt =====
-- The tests of the gate on the three objects.
use k8sgpt_operator.Common.{
  String, ◌≡◌, ◌≢◌, ◌↔◌, ◌⊎◌, inl, inr, true, false, List, is_empty, eq_iff, Bool-cases, arith,
  ◌==◌,
}
use k8sgpt_operator.Json.{Members}
use k8sgpt_operator.Kube.{Machinery}
use k8sgpt_operator.Policy.Types.{Change}
use k8sgpt_operator.Policy.Diff.{normalized, diff}
use k8sgpt_operator.Policy.Gate.{
  is_unset_or_other, is_set_to_other, same_identity, live_matches_original, proposed_matches_live,
}

is_unset_or_other_iff : (a b : String) → (is_unset_or_other a b ≡ false) ↔ ((b ≢ "") × (a ≡ b))
unfolding is_unset_or_other
is_unset_or_other_iff a b = ground (arith, eq_iff a "", eq_iff b "", eq_iff a b)

is_set_to_other_iff : (a b : String) → (is_set_to_other a b ≡ false) ↔ ((a ≡ "") ⊎ (a ≡ b))
unfolding is_set_to_other
is_set_to_other_iff a b = ground (arith, eq_iff a "", eq_iff a b)

module _ (k : Machinery) where
  abbrev pub SameIdentity : Members → Members → Type 0
  SameIdentity a b =
      (k.api_version a ≡ k.api_version b)
      × (k.kind a ≡ k.kind b)
      × (k.namespace a ≡ k.namespace b)
      × (k.name a ≡ k.name b)

  -- The live object is the one, in the version, from which the proposal was made.
  abbrev pub IsFresh : Members → Members → Type 0
  IsFresh original live =
      (k.uid live ≢ "")
      × (k.uid original ≡ k.uid live)
      × (k.resource_version live ≢ "")
      × (k.resource_version original ≡ k.resource_version live)
      × SameIdentity original live

  -- The proposal names no other object.
  abbrev pub IsTargeted : Members → Members → Type 0
  IsTargeted proposed live =
      SameIdentity proposed live
      × ((k.uid proposed ≡ "") ⊎ (k.uid proposed ≡ k.uid live))
      × ((k.resource_version proposed ≡ "")
          ⊎ (k.resource_version proposed ≡ k.resource_version live))
      × (k.generate_name proposed ≡ k.generate_name live)

  abbrev pub changes_of : Members → Members → List Change
  changes_of live proposed = diff (normalized k live) "" (normalized k proposed)

  pub same_identity_iff : (a b : Members) → (same_identity k a b ≡ true) ↔ SameIdentity a b
  unfolding same_identity
  same_identity_iff a b = ground (
    arith,
    eq_iff (k.api_version a) (k.api_version b),
    eq_iff (k.kind a) (k.kind b),
    eq_iff (k.namespace a) (k.namespace b),
    eq_iff (k.name a) (k.name b),
  )

  pub live_matches_iff :
      (original live : Members)
      → (is_empty (live_matches_original k original live) ≡ true) ↔ IsFresh original live
  unfolding live_matches_original
  live_matches_iff original live =
      let uid = is_unset_or_other_iff (k.uid original) (k.uid live) in
      let version = is_unset_or_other_iff (k.resource_version original) (k.resource_version live) in
      let same = same_identity_iff original live in
      elim (Bool-cases (is_unset_or_other (k.uid original) (k.uid live))) [
        | inl e ↦ rw e (ground (arith, uid))
        | inr e ↦
            rw e
              (elim (Bool-cases
                (is_unset_or_other (k.resource_version original) (k.resource_version live))) [
                  | inl f ↦ rw f (ground (arith, version))
                  | inr f ↦ rw f (elim (Bool-cases (same_identity k original live)) [
                    | inl g ↦ rw g (ground (arith, uid, version, same))
                    | inr g ↦ rw g (ground (arith, same))
                  ])
                ])
      ]

  pub proposed_matches_iff :
      (proposed live : Members)
      → (is_empty (proposed_matches_live k proposed live) ≡ true) ↔ IsTargeted proposed live
  unfolding proposed_matches_live
  proposed_matches_iff proposed live =
      let uid = is_set_to_other_iff (k.uid proposed) (k.uid live) in
      let version = is_set_to_other_iff (k.resource_version proposed) (k.resource_version live) in
      let same = same_identity_iff proposed live in
      let name = eq_iff (k.generate_name proposed) (k.generate_name live) in
      elim (Bool-cases (same_identity k proposed live)) [
        | inr e ↦ rw e (ground (arith, same))
        | inl e ↦ rw e (elim (Bool-cases (is_set_to_other (k.uid proposed) (k.uid live))) [
          | inl f ↦ rw f (ground (arith, uid))
          | inr f ↦
              rw f
                (elim (Bool-cases
                  (is_set_to_other (k.resource_version proposed) (k.resource_version live))) [
                    | inl g ↦ rw g (ground (arith, version))
                    | inr g ↦
                        rw g (elim (Bool-cases (k.generate_name proposed == k.generate_name live)) [
                          | inl n ↦ rw n (ground (arith, uid, version, same, name))
                          | inr n ↦ rw n (ground (arith, name))
                        ])
                  ])
        ])
      ]
