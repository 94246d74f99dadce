-- ===== src/Metrics.antt =====
-- internal/metrics/metrics.go: the registry as the list of what was recorded, the newest last. The
-- value of a counter is the sum of its samples.
pub mod Registry
use opencost_ai.Prelude.{ℕ}
use opencost_ai.Prelude.Int.{ℤ}
use opencost_ai.Text.{Bytes}

-- A call of Inc, Dec, Add or Observe with its labels. Durations are in milliseconds.
pub data Sample : Type 0 where
  in_flight_inc in_flight_dec rate_limited : Sample
  request_duration : (endpoint method : Bytes) → Sample
  requests : (endpoint method : Bytes) (status : ℕ) → Sample
  tool_calls : (tool : Bytes) → Sample
  tool_duration : (tool : Bytes) (millis : ℤ) → Sample
  model_tokens : (model kind : Bytes) (count : ℤ) → Sample
  upstream_errors : (op kind : Bytes) → Sample
