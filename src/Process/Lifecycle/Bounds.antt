-- ===== src/Process/Lifecycle/Bounds.antt =====
-- The room in the channel of `run`, and the steps that are left.
use opencost_ai.Prelude.{ℕ, ◌+◌, ◌≤◌, ◌<◌, ◌≡◌, [], ◌∷◌, Option, length, length-append, arith}
use opencost_ai.Text.{Bytes}
use opencost_ai.Process.Lifecycle.{
  Name, api, metrics, Listener, serving, returned, gone, Main, selecting, fail_api, fail_metrics,
  fail_wait, drain_api, drain_metrics, drain_wait, drain_results, finished, Process, capacity, Step,
  crash, close, send, receive_error, receive_clean, signal, fail_shut_api, fail_shut_metrics,
  fail_return, drain_shut_api, drain_shut_metrics, drain_waited, drain_return, Reach, here, next,
}

-- How many sends a listener has in front of it, and how many steps.
abbrev pub sends_of : Listener → ℕ
sends_of serving = 1
sends_of (returned e) = 1
sends_of gone = 0

abbrev pub steps_of : Listener → ℕ
steps_of serving = 2
steps_of (returned e) = 1
steps_of gone = 0

abbrev pub main_steps : Main → ℕ
main_steps selecting = 5
main_steps (fail_api n e) = 3
main_steps (fail_metrics n e) = 2
main_steps (fail_wait n e) = 1
main_steps drain_api = 4
main_steps (drain_metrics e) = 3
main_steps (drain_wait e) = 2
main_steps (drain_results e) = 1
main_steps (finished e) = 0

-- The results that are in the channel or will be sent.
abbrev pub pending : Process → ℕ
pending s = sends_of (s.listener api) + sends_of (s.listener metrics) + length s.results

-- A bound on the steps that are left.
abbrev pub steps_left : Process → ℕ
steps_left s = main_steps s.main + (steps_of (s.listener api) + steps_of (s.listener metrics))

Step-pending : {s s' : Process} → Step s s' → pending s' ≤ pending s
Step-pending (crash api e h) = ground arith
Step-pending (crash metrics e h) = ground arith
Step-pending (close api h k) = ground arith
Step-pending (close metrics h k) = ground arith
Step-pending {s} (send api {e} h k) =
    ground (arith, length-append s.results (record { name = api; error = e } ∷ []))
Step-pending {s} (send metrics {e} h k) =
    ground (arith, length-append s.results (record { name = metrics; error = e } ∷ []))
Step-pending (receive_error h k) = ground arith
Step-pending (receive_clean h k) = ground arith
Step-pending (signal h) = ground arith
Step-pending (fail_shut_api h) = ground arith
Step-pending (fail_shut_metrics h) = ground arith
Step-pending (fail_return h k) = ground arith
Step-pending (drain_shut_api e h) = ground arith
Step-pending (drain_shut_metrics e h) = ground arith
Step-pending (drain_waited h k) = ground arith
Step-pending (drain_return h) = ground arith

pub Step-steps_left : {s s' : Process} → Step s s' → steps_left s' < steps_left s
Step-steps_left (crash api e h) = ground arith
Step-steps_left (crash metrics e h) = ground arith
Step-steps_left (close api h k) = ground arith
Step-steps_left (close metrics h k) = ground arith
Step-steps_left (send api h k) = ground arith
Step-steps_left (send metrics h k) = ground arith
Step-steps_left (receive_error h k) = ground arith
Step-steps_left (receive_clean h k) = ground arith
Step-steps_left (signal h) = ground arith
Step-steps_left (fail_shut_api h) = ground arith
Step-steps_left (fail_shut_metrics h) = ground arith
Step-steps_left (fail_return h k) = ground arith
Step-steps_left (drain_shut_api e h) = ground arith
Step-steps_left (drain_shut_metrics e h) = ground arith
Step-steps_left (drain_waited h k) = ground arith
Step-steps_left (drain_return h) = ground arith

-- In every reachable state the channel has room for each send that is still to come: what is
-- in it and what will be sent are at most its capacity.
pub Reach-pending : {s : Process} → Reach s → pending s ≤ capacity
Reach-pending here = omega arith
Reach-pending (next r st) = omega (arith, Reach-pending r, Step-pending st)

-- In every reachable state in which a listener is in front of its send, the channel has room for it.
pub Reach-send :
    {s : Process}
    → Reach s
    → (n : Name) {e : Option Bytes} → s.listener n ≡ returned e
    → length s.results < capacity
Reach-send {s} r api h = ground (arith, Reach-pending r)
Reach-send {s} r metrics h = ground (arith, Reach-pending r)
