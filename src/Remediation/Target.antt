-- ===== src/Remediation/Target.antt =====
-- The selectors of auto-remediation, and the object that a Result is about.
use k8sgpt_operator.Common.{
  String, Bool, true, false, not, ◌||◌, List, [], ◌∷◌, Option, none, some, Outcome, ok, err,
  failure, is_empty, ◌==◌, if◌then◌else◌,
}
use k8sgpt_operator.Text.{◌<>◌, split, trim_space, has_prefix}
use k8sgpt_operator.Kube.{Gvk, GroupVersion, with_kind, Machinery}
use k8sgpt_operator.Api.K8sgpt.{K8sgpt}
use k8sgpt_operator.Api.Result.{TargetReference, ResultSpec}
use k8sgpt_operator.Mutation.Proposal.{wrap}

-- config.Spec.AI.AutoRemediation.Resources; no selector where the configuration or its AI part is
-- nil, with which both callers return false.
abbrev pub selectors_of : Option K8sgpt → List String
selectors_of none = []
selectors_of (some config) = elim config.spec.ai [
  | none ↦ []
  | some ai ↦ ai.auto_remediation.resources
]

-- The tests of one selector.
unfoldable pub selects : Machinery → Gvk → String → Bool
selects k g selector =
    trim_space selector == g.kind
    || (trim_space selector == g.group <> ("/" <> g.kind)
        || trim_space selector == k.group_version_text g <> ("/" <> g.kind))

unfoldable pub any_selects : Machinery → Gvk → List String → Bool
any_selects k g [] = false
any_selects k g (s ∷ ss) = if selects k g s then true else any_selects k g ss

-- AutoRemediationResourceEnabled
unfoldable pub auto_remediation_resource_enabled : Machinery → Option K8sgpt → Gvk → Bool
auto_remediation_resource_enabled k config g = any_selects k g (selectors_of config)

-- An object's type with its namespace and name, which the code returns as three values.
pub record Target : Type 0 where
  pub gvk : Gvk
  pub namespace : String
  pub name : String

abbrev typed : Outcome GroupVersion → String → Option Gvk
typed (err e) kind = none
typed (ok gv) kind = some (with_kind gv kind)

abbrev qualified : Machinery → String → String → Option Gvk
qualified k group_version kind =
    if is_empty kind then none else typed (k.parse_group_version group_version) kind

abbrev qualified_parts : Machinery → List String → Option Gvk
qualified_parts k (a ∷ b ∷ c ∷ []) = qualified k (a <> ("/" <> b)) c
qualified_parts k (a ∷ b ∷ []) =
    if not (has_prefix "v" a) || a == "v" then none else qualified k a b
qualified_parts k _ = none

-- fullyQualifiedSelector
unfoldable pub fully_qualified_selector : Machinery → String → Option Gvk
fully_qualified_selector k selector = qualified_parts k (split b'/' selector)

abbrev add_match : Option Gvk → String → List Gvk → List Gvk
add_match none kind gs = gs
add_match (some g) kind gs = if g.kind == kind then g ∷ gs else gs

-- The loop of configuredLegacyGVK.
unfoldable pub legacy_matches : Machinery → String → List String → List Gvk
legacy_matches k kind [] = []
legacy_matches k kind (s ∷ ss) =
    add_match (fully_qualified_selector k (trim_space s)) kind (legacy_matches k kind ss)

abbrev only : List Gvk → Option Gvk
only (g ∷ []) = some g
only _ = none

-- configuredLegacyGVK
unfoldable pub configured_legacy_gvk : Machinery → Option K8sgpt → String → Option Gvk
configured_legacy_gvk k config kind = only (legacy_matches k kind (selectors_of config))

abbrev builtin : String → String → String → String → String → Outcome Target
builtin group kind namespace name text =
    if is_empty namespace
    then err (failure text)
    else ok (record {
      gvk = record { group = group; version = "v1"; kind = kind };
      namespace = namespace;
      name = name;
    })

-- The switch over the kind of a legacy result.
unfoldable pub builtin_target : Machinery → (kind namespace name : String) → Outcome Target
builtin_target k kind namespace name =
    if kind == "Pod"
    then builtin "" "Pod" namespace name "legacy Pod result must include namespace/name"
    else if kind == "Deployment"
    then builtin "apps" "Deployment" namespace name
        "legacy Deployment result must include namespace/name"
    else err (
        failure (
          "legacy Result lacks targetRef or a unique fully qualified resource selector for kind "
          <> k.quote kind))

unfoldable pub legacy_target :
    Machinery → Option K8sgpt → (kind namespace name : String) → Outcome Target
legacy_target k config kind namespace name = elim (configured_legacy_gvk k config kind) [
  | some g ↦ ok (record { gvk = g; namespace = namespace; name = name })
  | none ↦ builtin_target k kind namespace name
]

abbrev bad_name : Outcome Target
bad_name = err (failure "legacy resource name must be namespace/name or a cluster-scoped name")

-- The parts of the name of a legacy result.
unfoldable pub legacy_parts : Machinery → Option K8sgpt → String → List String → Outcome Target
legacy_parts k config kind (name ∷ []) =
    if is_empty name then bad_name else legacy_target k config kind "" name
legacy_parts k config kind (namespace ∷ name ∷ []) =
    if is_empty name
    then bad_name
    else if is_empty namespace
    then err (failure "legacy resource namespace must not be empty")
    else legacy_target k config kind namespace name
legacy_parts k config kind _ = bad_name

abbrev parsed_target : Outcome GroupVersion → TargetReference → Outcome Target
parsed_target (err e) t = err (wrap "invalid targetRef apiVersion: " e)
parsed_target (ok gv) t =
    ok (record { gvk = with_kind gv t.kind; namespace = t.namespace; name = t.name })

unfoldable pub exact_target : Machinery → TargetReference → Outcome Target
exact_target k t =
    if is_empty t.api_version || is_empty t.kind || is_empty t.name
    then err (failure "targetRef must include apiVersion, kind, and name")
    else parsed_target (k.parse_group_version t.api_version) t

-- resultTarget
unfoldable pub result_target : Machinery → Option K8sgpt → ResultSpec → Outcome Target
result_target k config spec = elim spec.target_ref [
  | some t ↦ exact_target k t
  | none ↦ legacy_parts k config spec.kind (split b'/' spec.name)
]
