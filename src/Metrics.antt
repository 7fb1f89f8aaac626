-- ===== src/Metrics.antt =====
-- pkg/metrics/metrics.go, and the counts of results in internal/controller/k8sgpt/analysis_step.go.
pub mod Gauge
pub mod Tests
use k8sgpt_operator.Common.{
  ℕ, suc, String, List, [], ◌∷◌, Option, none, some, lookup, or_else, ◌≡◌, refl, ◌==◌,
  if◌then◌else◌, Bool-cases, inl, inr,
}
use k8sgpt_operator.Text.{has_code, before}
use k8sgpt_operator.Maps.{set_entry, set_entries, lookup-set_entry}
use k8sgpt_operator.Api.Result.{ResultSpec}

-- MetricType
pub data MetricType : Type 0 where
  counter : MetricType
  gauge : MetricType

pub record MetricConfig : Type 0 where
  pub name : String
  pub help : String
  pub labels : List String
  pub type : MetricType

-- *prometheus.CounterVec and *prometheus.GaugeVec, which are what they were made of.
pub data Metric : Type 0 where
  counter_vec : MetricConfig → Metric
  gauge_vec : MetricConfig → Metric

-- MetricBuilder
abbrev pub MetricBuilder : Type 0
MetricBuilder = List (String × Metric)

abbrev pub metric_of : MetricType → MetricConfig → Metric
metric_of counter c = counter_vec c
metric_of gauge c = gauge_vec c

-- AddMetric
unfoldable pub add_metric : MetricConfig → MetricBuilder → MetricBuilder
add_metric c b = set_entry c.name (metric_of c.type c) b

abbrev pub as_counter : Option Metric → Option MetricConfig
as_counter none = none
as_counter (some (counter_vec c)) = some c
as_counter (some (gauge_vec c)) = none

abbrev pub as_gauge : Option Metric → Option MetricConfig
as_gauge none = none
as_gauge (some (counter_vec c)) = none
as_gauge (some (gauge_vec c)) = some c

-- GetCounterVec and GetGaugeVec; `none` where the name is unknown or of the other type.
unfoldable pub get_counter_vec : String → MetricBuilder → Option MetricConfig
get_counter_vec name b = as_counter (lookup name b)

unfoldable pub get_gauge_vec : String → MetricBuilder → Option MetricConfig
get_gauge_vec name b = as_gauge (lookup name b)

abbrev metric : String → String → List String → MetricType → MetricConfig
metric name help labels type = record { name = name; help = help; labels = labels; type = type }

abbrev backend_labels : List String
backend_labels = "backend" ∷ "deployment" ∷ "namespace" ∷ "k8sgpt" ∷ []

-- InitializeMetrics; the registration at Prometheus is left out.
unfoldable pub initialize_metrics : MetricBuilder
initialize_metrics =
    add_metric
      (metric "k8sgpt_mutations_count" "The total number of mutations" ("mutations" ∷ "k8sgpt" ∷ [])
        gauge)
      (add_metric
        (metric "k8sgpt_number_of_failed_backend_ai_calls"
          "The total number of failed backend AI calls" backend_labels counter)
        (add_metric
          (metric "k8sgpt_number_of_backend_ai_calls" "The total number of backend AI calls"
            backend_labels counter)
          (add_metric
            (metric "k8sgpt_number_of_results_by_type" "The total number of results by type"
              ("object_namespace" ∷ "kind" ∷ "name" ∷ "k8sgpt" ∷ []) gauge)
            (add_metric
              (metric "k8sgpt_number_of_results" "The total number of results"
                ("object_namespace" ∷ "k8sgpt" ∷ []) gauge)
              (add_metric
                (metric "k8sgpt_reconcile_error_count" "The total number of errors during reconcile"
                  ("k8sgpt" ∷ []) counter)
                [])))))

-- getResultObjectNamespace
unfoldable pub get_result_object_namespace : ResultSpec → String
get_result_object_namespace r = if has_code b'/' r.name then before b'/' r.name else ""

-- One round of getResultsPerNamespace.
abbrev pub count_in : String → List (String × ℕ) → List (String × ℕ)
count_in namespace counts = set_entry namespace (suc (or_else 0 (lookup namespace counts))) counts

-- getResultsPerNamespace, with the counts so far.
unfoldable pub get_results_per_namespace : List ResultSpec → List (String × ℕ) → List (String × ℕ)
get_results_per_namespace [] counts = counts
get_results_per_namespace (r ∷ rs) counts =
    get_results_per_namespace rs (count_in (get_result_object_namespace r) counts)

-- setk8sgptNumberOfResults, on the values of the gauge for one configuration.
unfoldable pub set_k8sgpt_number_of_results :
    List ResultSpec → List (String × ℕ) → List (String × ℕ)
set_k8sgpt_number_of_results rs values = set_entries (get_results_per_namespace rs []) values

-- How many results are of the namespace.
abbrev pub occurrences : String → List ResultSpec → ℕ
occurrences namespace [] = 0
occurrences namespace (r ∷ rs) =
    let rest = occurrences namespace rs in
    if get_result_object_namespace r == namespace then suc rest else rest

-- A metric that is added is found under its name by the function of its type alone, and the others
-- are found as before.
pub get_vec-add_metric :
    (c : MetricConfig) (b : MetricBuilder) (name : String)
    → (get_counter_vec name (add_metric c b) ≡ (
        if c.name == name then as_counter (some (metric_of c.type c)) else get_counter_vec name b))
      × (get_gauge_vec name (add_metric c b)
          ≡ (if c.name == name then as_gauge (some (metric_of c.type c)) else get_gauge_vec name b))
unfolding get_counter_vec get_gauge_vec add_metric
get_vec-add_metric c b name =
    let found = lookup-set_entry c.name name (metric_of c.type c) b in
    elim (Bool-cases (c.name == name)) [
      | inl h ↦ (rw (found, h) refl, rw (found, h) refl)
      | inr h ↦ (rw (found, h) refl, rw (found, h) refl)
    ]
