-- ===== src/Controller/StepTests.antt =====
-- Runs of the first steps of the controller, and the theorems at concrete inputs.
use k8sgpt_operator.Common.{[], ap, contains, none, ok, pos, refl, some, sym, true, ◌∷◌, ◌≡◌}
use k8sgpt_operator.Api.K8sgpt.{K8sgpt}
use k8sgpt_operator.Fixtures.Configs.{k8sgpt_with}
use k8sgpt_operator.Effect.Emits.{Emits}
use k8sgpt_operator.Effect.{◌>>=◌}
use k8sgpt_operator.Controller.Finish.{reply, interval_of, parse_duration, parse_rest}
use k8sgpt_operator.Controller.Lifecycle.{
  Manager, configure_step, deploy, finalizer_step, reconcile_config, sync_and_check, with_finalizer,
}
use k8sgpt_operator.Effect.After.{InOrder}
use k8sgpt_operator.Controller.Order.{IsDue, KeepsFinalizers, reconcile_config-InOrder}
use k8sgpt_operator.Controller.Guarded.{IsGuarded, AnswersHeld, reconcile_config-IsGuarded}

abbrev config : K8sgpt
config = k8sgpt_with ("Deployment" ∷ [])

abbrev manager : Manager
manager = record {
  config = λ log namespace name. ok config;
  update = λ log c. ok c;
  destroy = λ log c. none;
  sync = λ log c. none;
  deployment = λ log namespace name. ok (record {
    name = "k8sgpt";
    namespace = "k8sgpt";
    available_replicas = pos 1;
    image = "ghcr.io/k8sgpt:v0.4";
  });
  later = λ log c d ready. reply true 30 none;
}

manager_answers : AnswersHeld manager
manager_answers log c stored e =
    let same : c ≡ stored = cc in
    (
      ap (λ (x : K8sgpt). x.finalizers) (sym same),
      ap (λ (x : K8sgpt). x.deletion_timestamp) (sym same),
    )

reconcile_config-IsGuarded_example : Emits IsGuarded (reconcile_config manager "" "k8sgpt" "k8sgpt")
reconcile_config-IsGuarded_example =
    reconcile_config-IsGuarded manager "" manager_answers "k8sgpt" "k8sgpt"

-- A configuration that is being deleted, and the server that answers it.
abbrev deleted : K8sgpt
deleted = record (with_finalizer config) { deletion_timestamp = some 5 }

abbrev ending : Manager
ending = record manager { config = λ log namespace name. ok deleted }

keeps_finalizers : KeepsFinalizers ending
keeps_finalizers log c stored e =
    let same : c ≡ stored = cc in ap (λ (x : K8sgpt). x.finalizers) (sym same)

reconcile_config-InOrder_example :
    InOrder (IsDue ending) (reconcile_config ending "" "k8sgpt" "k8sgpt" []).1
reconcile_config-InOrder_example =
    reconcile_config-InOrder ending "" "k8sgpt" "k8sgpt" [] keeps_finalizers tt

interval_tests :
    (interval_of (some "90s") ≡ 90)
    × (interval_of (some "5m") ≡ 300)
    × (interval_of (some "m") ≡ 30)
unfolding interval_of parse_duration parse_rest
interval_tests = (refl, refl, refl)

-- A new configuration gets the finalizer and the backoff before its resources are created.
reconcile_config_test : (reconcile_config manager "" "k8sgpt" "k8sgpt" []).0 ≡ reply true 30 none
unfolding reconcile_config finalizer_step configure_step deploy sync_and_check contains ◌>>=◌
reconcile_config_test = refl
