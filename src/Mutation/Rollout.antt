-- ===== src/Mutation/Rollout.antt =====
-- internal/controller/util/from_config.go, and targetReady of
-- internal/controller/mutation/mutation_controller.go without its call.
use k8sgpt_operator.Common.{
  ℤ, pos, negsuc, String, Bool, true, false, not, ◌&&◌, [], ◌∷◌, or_else, Outcome, ok, err, failure,
  is_empty, leb, ◌==◌, if◌then◌else◌,
}
use k8sgpt_operator.Json.{Members}
use k8sgpt_operator.Kube.{Gvk, GroupVersion, with_kind, Machinery}

-- util.FromConfig of internal/controller/util/from_config.go
abbrev pub named : Machinery → Outcome Members → String → String → Outcome Members
named k (err e) name namespace = err e
named k (ok o) name namespace = ok (k.set_namespace namespace (k.set_name name o))

abbrev pub decoded : Machinery → Outcome GroupVersion → String → String → Outcome Members
decoded k (err e) kind config = err e
decoded k (ok gv) kind config = k.decode (with_kind gv kind) config

unfoldable pub from_config :
    Machinery → (kind gvk_text config name namespace : String) → Outcome Members
from_config k kind gvk_text config name namespace =
    named k (decoded k (k.parse_group_version gvk_text) kind config) name namespace

-- a >= b
unfoldable pub int_ge : ℤ → ℤ → Bool
int_ge (pos a) (pos b) = leb b a
int_ge (pos a) (negsuc b) = true
int_ge (negsuc a) (pos b) = false
int_ge (negsuc a) (negsuc b) = leb a b

-- The fields of a Deployment that tell whether its rollout is complete.
abbrev pub rolled_out : Machinery → Members → ℤ → ℤ → ℤ → Bool
rolled_out k target expected observed available =
    int_ge observed (k.generation target) && int_ge available expected

-- The rest of targetReady, after the target was read.
unfoldable pub deployment_ready : Machinery → String → Members → Outcome Bool
deployment_ready k expected_uid target =
    if not (is_empty expected_uid) && not (k.uid target == expected_uid)
    then err (failure "target Deployment UID changed since proposal")
    else elim (k.nested_int64 ("spec" ∷ "replicas" ∷ []) target) [
      | err e ↦ err e
      | ok replicas ↦ elim (k.nested_int64 ("status" ∷ "observedGeneration" ∷ []) target) [
        | err e ↦ err e
        | ok observed ↦ elim (k.nested_int64 ("status" ∷ "availableReplicas" ∷ []) target) [
          | err e ↦ err e
          | ok available ↦ ok (
              rolled_out k target (or_else (pos 1) replicas) (or_else (pos 0) observed)
                (or_else (pos 0) available))
        ]
      ]
    ]

abbrev pub is_deployment : Gvk → Bool
is_deployment g = g.group == "apps" && g.version == "v1" && g.kind == "Deployment"
