-- ===== src/Controller/Analysis.antt =====
-- internal/controller/k8sgpt/analysis_step.go: the circuit breaker, the removal of stale results
-- and the storage of the new ones.
use k8sgpt_operator.Common.{
  ℕ, suc, ℤ, pos, negsuc, String, Bool, true, false, List, [], ◌∷◌, Option, none, some, is_some,
  lookup, Fault, ltb, if◌then◌else◌,
}
use k8sgpt_operator.Api.K8sgpt.{BackOff, AiSpec, K8sgpt}
use k8sgpt_operator.Api.Result.{ResultSpec, Result}
use k8sgpt_operator.Effect.{Effect, pure, ◌>>=◌, on_outcome}
use k8sgpt_operator.Controller.Server.{Toolkit, Call, Server, find_results, drop_result}
use k8sgpt_operator.Controller.Results.{map_results, create_or_update_result}

-- allowBackendAIRequest and analysisRetryCount, which all K8sGPT resources share.
pub record Breaker : Type 0 where
  pub allow_backend_ai_request : Bool
  pub analysis_retry_count : ℕ

abbrev pub initial_breaker : Breaker
initial_breaker = record { allow_backend_ai_request = true; analysis_retry_count = 0 }

-- count > max
abbrev pub exceeds : ℕ → ℤ → Bool
exceeds count (pos max) = ltb max count
exceeds count (negsuc max) = true

abbrev trip : Breaker → Breaker
trip b = record { allow_backend_ai_request = false; analysis_retry_count = 0 }

abbrev count_failure : Breaker → Breaker
count_failure b = record b { analysis_retry_count = suc b.analysis_retry_count }

-- handleAIFailureBackoff
unfoldable pub handle_ai_failure_backoff : BackOff → Breaker → Breaker
handle_ai_failure_backoff back_off b =
    if back_off.enabled
    then count_failure (if exceeds b.analysis_retry_count back_off.max_retries then trip b else b)
    else b

-- What an analysis does with it: `ai_enabled` is config.Spec.AI.Enabled, which a failure asks.
unfoldable pub after_analysis : BackOff → (ai_enabled : Bool) → (failed : Bool) → Breaker → Breaker
after_analysis back_off ai_enabled true b =
    if ai_enabled then handle_ai_failure_backoff back_off b else b
after_analysis back_off ai_enabled false b = record b { analysis_retry_count = 0 }

-- Explain of the request of ProcessAnalysis in pkg/client/analysis.go
abbrev pub explain : AiSpec → Breaker → Bool
explain ai b = if ai.enabled then b.allow_backend_ai_request else false

module _ (t : Toolkit) (s : Server) where
  -- One deletion, and what follows where it succeeds.
  abbrev pub unless_failed : Option Fault → Effect Call (Option Fault) → Effect Call (Option Fault)
  unless_failed none go = go
  unless_failed (some e) go = pure (some e)

  -- The loop of cleanUpStaleResults.
  unfoldable pub delete_stale : List (String × Result) → List Result → Effect Call (Option Fault)
  delete_stale raw [] = pure none
  delete_stale raw (r ∷ rs) =
      let rest = delete_stale raw rs in
      if is_some (lookup r.name raw)
      then rest
      else do failed ← drop_result s r; unless_failed failed rest

  -- cleanUpStaleResults
  unfoldable pub clean_up_stale_results :
      List (String × Result) → K8sgpt → Effect Call (Option Fault)
  clean_up_stale_results raw config = do
    listed ← find_results s config.name config.namespace
    on_outcome listed (λ e. pure (some e)) (delete_stale raw)

  -- processRawResults; Go goes through the map in any order.
  unfoldable pub process_raw_results : List (String × Result) → Effect Call (Option Fault)
  process_raw_results [] = pure none
  process_raw_results ((name, r) ∷ raw) = do
    stored ← create_or_update_result t s r
    on_outcome stored (λ e. pure (some e)) (λ now. process_raw_results raw)

  -- The part of the step behind a successful analysis.
  unfoldable pub store_results :
      K8sgpt → AiSpec → Bool → List ResultSpec → Effect Call (Option Fault)
  store_results config ai backstage specs = do
    raw ← map_results t s config ai backstage specs []
    cleaned ← clean_up_stale_results raw config
    unless_failed cleaned (process_raw_results raw)
