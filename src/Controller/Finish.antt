-- ===== src/Controller/Finish.antt =====
-- FinishReconcile of internal/controller/k8sgpt/k8sgpt_controller.go and time.ParseDuration on the
-- intervals that the resource definition admits: digits and one of the units s, m and h.
use Prim.Native.Char.{code}
use Prim.Native.String.{[], ◌∷◌}
use k8sgpt_operator.Common.{
  ℕ, ◌+◌, ◌-◌, ◌*◌, String, Bool, true, Option, none, some, or_else, Fault, is_empty, leb, nat_eq,
  ◌==◌, if◌then◌else◌,
}
use k8sgpt_operator.Text.{is_digit}
use k8sgpt_operator.Api.K8sgpt.{K8sgpt}

-- ctrl.Result with the error beside it; `panicked` where a nil pointer is followed. The times are
-- in seconds.
pub data Reply : Type 0 where
  reply : (requeue : Bool) → (requeue_after : ℕ) → Option Fault → Reply
  panicked : Reply

abbrev pub reconcile_error_interval : ℕ
reconcile_error_interval = 10

abbrev pub reconcile_success_interval : ℕ
reconcile_success_interval = 30

-- A number of seconds that is a time.Duration: its nanoseconds are below 2 ^ 63.
abbrev pub in_range : ℕ → Option ℕ
in_range n = if leb n 9223372036 then some n else none

abbrev pub scaled : ℕ → ℕ → Option ℕ
scaled n unit =
    if nat_eq unit b's'
    then in_range n
    else if nat_eq unit b'm'
    then in_range (n * 60)
    else if nat_eq unit b'h'
    then in_range (n * 3600)
    else none

-- The digits behind the first one, and the unit.
unfoldable pub parse_rest : ℕ → String → Option ℕ
parse_rest n [] = none
parse_rest n (c ∷ s) =
    let more = parse_rest (n * 10 + (code c - b'0')) s in
    if is_digit (code c) then more else if s == "" then scaled n (code c) else none

unfoldable pub parse_duration : String → Option ℕ
parse_duration [] = none
parse_duration (c ∷ s) = if is_digit (code c) then parse_rest (code c - b'0') s else none

-- parseInterval, and the default where it fails.
unfoldable pub interval_of : Option String → ℕ
interval_of none = reconcile_success_interval
interval_of (some interval) =
    if is_empty interval
    then reconcile_success_interval
    else or_else reconcile_success_interval (parse_duration interval)

-- FinishReconcile; the error comes first, as in the code.
unfoldable pub finish_reconcile : Option Fault → (requeue_immediate : Bool) → K8sgpt → Reply
finish_reconcile (some e) immediate config =
    reply true (if immediate then 0 else reconcile_error_interval) (some e)
finish_reconcile none immediate config =
    reply true (if immediate then 0 else interval_of config.spec.analysis) none
