-- ===== src/Controller/Breaker.antt =====
-- When the circuit breaker opens, and that it stays open.
use k8sgpt_operator.Common.{
  ℕ, zero, suc, ◌≤◌, pos, Bool, true, false, List, [], ◌∷◌, ◌≡◌, refl, ap, ◌∙◌, ltb, arith,
}
use k8sgpt_operator.Api.K8sgpt.{BackOff}
use k8sgpt_operator.Controller.Analysis.{
  Breaker, initial_breaker, handle_ai_failure_backoff, after_analysis,
}

abbrev pub back_off_of : ℕ → BackOff
back_off_of max = record { enabled = true; max_retries = pos max }

-- Failures in a row, of configurations with one limit.
abbrev pub failures : ℕ → ℕ → Breaker → Breaker
failures max zero b = b
failures max (suc n) b = after_analysis (back_off_of max) true true (failures max n b)

-- A failure up to the limit is only counted.
counted :
    (max n : ℕ)
    → n ≤ max
    → after_analysis
        (back_off_of max)
        true
        true
        (record { allow_backend_ai_request = true; analysis_retry_count = n })
      ≡ record { allow_backend_ai_request = true; analysis_retry_count = suc n }
unfolding after_analysis handle_ai_failure_backoff
counted max n h = let below : ltb max n ≡ false = ground arith in rw below refl

failures_counted :
    (max n : ℕ)
    → n ≤ suc max
    → failures max n initial_breaker
      ≡ record { allow_backend_ai_request = true; analysis_retry_count = n }
failures_counted max zero h = refl
failures_counted max (suc n) h =
    ap (after_analysis (back_off_of max) true true) (failures_counted max n (omega arith))
    ∙ counted max n (omega arith)

tripped :
    (max : ℕ)
    → after_analysis
        (back_off_of max)
        true
        true
        (record { allow_backend_ai_request = true; analysis_retry_count = suc max })
      ≡ record { allow_backend_ai_request = false; analysis_retry_count = 1 }
unfolding after_analysis handle_ai_failure_backoff
tripped max = let above : ltb max (suc max) ≡ true = ground arith in rw above refl

-- The backend is still asked after up to `max + 1` failures in a row, and no longer after the next
-- one: with a limit of `max` retries the breaker opens one failure later than the retries are used
-- up.
pub failures-opens :
    (max : ℕ)
    → ((n : ℕ) → n ≤ suc max → (failures max n initial_breaker).allow_backend_ai_request ≡ true)
      × ((failures max (suc (suc max)) initial_breaker).allow_backend_ai_request ≡ false)
failures-opens max = (
  (λ n h. ap (λ (b : Breaker). b.allow_backend_ai_request) (failures_counted max n h)),
  ap (λ (b : Breaker). (after_analysis (back_off_of max) true true b).allow_backend_ai_request)
        (failures_counted max (suc max) (omega arith))
      ∙ ap (λ (b : Breaker). b.allow_backend_ai_request) (tripped max),
)

-- Analyses of any configurations, the latest first, each with whether it failed.
abbrev pub analyses : List (BackOff × Bool × Bool) → Breaker → Breaker
analyses [] b = b
analyses ((back_off, ai_enabled, failed) ∷ rest) b =
    after_analysis back_off ai_enabled failed (analyses rest b)

stays_open :
    (back_off : BackOff) (ai_enabled failed : Bool) (b : Breaker)
    → b.allow_backend_ai_request ≡ false
    → (after_analysis back_off ai_enabled failed b).allow_backend_ai_request ≡ false
unfolding after_analysis handle_ai_failure_backoff
stays_open back_off ai_enabled false b h = h
stays_open back_off ai_enabled true b h = ground arith

-- Once the breaker is open, no analysis closes it, whether it succeeds or fails.
pub analyses-stay_open :
    (steps : List (BackOff × Bool × Bool)) (b : Breaker)
    → b.allow_backend_ai_request ≡ false
    → (analyses steps b).allow_backend_ai_request ≡ false
analyses-stay_open [] b h = h
analyses-stay_open ((back_off, ai_enabled, failed) ∷ steps) b h =
    stays_open back_off ai_enabled failed (analyses steps b) (analyses-stay_open steps b h)
