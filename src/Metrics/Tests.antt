-- ===== src/Metrics/Tests.antt =====
-- The theorem on the gauge at concrete results.
use k8sgpt_operator.Common.{ℕ, String, List, [], ◌∷◌, some, lookup, ◌<◌, ◌≡◌}
use k8sgpt_operator.Api.Result.{ResultSpec}
use k8sgpt_operator.Fixtures.Configs.{finding}
use k8sgpt_operator.Metrics.{set_k8sgpt_number_of_results, occurrences}
use k8sgpt_operator.Metrics.Gauge.{lookup-set_k8sgpt_number_of_results}

abbrev results : List ResultSpec
results = (finding "Pod" "shop/web").spec ∷ (finding "Pod" "shop/db").spec ∷ []

-- What an earlier analysis left.
abbrev values : List (String × ℕ)
values = ("bank", 4) ∷ []

lookup-set_k8sgpt_number_of_results_example :
    (0 < occurrences "bank" results
      → lookup "bank" (set_k8sgpt_number_of_results results values)
        ≡ some (occurrences "bank" results))
    × (occurrences "bank" results ≡ 0
        → lookup "bank" (set_k8sgpt_number_of_results results values) ≡ lookup "bank" values)
lookup-set_k8sgpt_number_of_results_example =
    lookup-set_k8sgpt_number_of_results results values "bank"
