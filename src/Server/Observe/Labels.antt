-- ===== src/Server/Observe/Labels.antt =====
-- The labels that a model's output can put on a metric.
use opencost_ai.Prelude.{
  ◌≡◌, ◌≢◌, ◌≤◌, ◌⊎◌, refl, Bool, true, false, List, [], ◌∷◌, arith, All, All-append, length, all,
  if◌then◌else◌, inl,
}
use opencost_ai.Prelude.Int.{is_positive}
use opencost_ai.Text.{Bytes}
use opencost_ai.RateLimit.{RateLibrary}
use opencost_ai.Api
use opencost_ai.Metrics.{
  Sample, in_flight_inc, in_flight_dec, rate_limited, request_duration, requests, tool_calls,
  tool_duration, model_tokens, upstream_errors,
}
use opencost_ai.Server.World.{World, observe}
use opencost_ai.Server.Observe.{
  is_label_byte, invalid_label, sanitize_tool_name_label, observe_tool_calls,
}

-- The sentinel, or 1 to 64 bytes of the accepted set.
abbrev pub IsLabel : Bytes → Type 0
IsLabel s = (s ≡ invalid_label) ⊎ ((s ≢ []) × (length s ≤ 64) × (all is_label_byte s ≡ true))

pub sanitize_tool_name_label-IsLabel : (name : Bytes) → IsLabel (sanitize_tool_name_label name)
unfolding sanitize_tool_name_label
sanitize_tool_name_label-IsLabel [] = inl refl
sanitize_tool_name_label-IsLabel (c ∷ s) = ground arith

-- The tool label of a sample is such a label.
abbrev pub HasLabel : Sample → Type 0
HasLabel (tool_calls tool) = IsLabel tool
HasLabel (tool_duration tool millis) = IsLabel tool
HasLabel in_flight_inc = Unit
HasLabel in_flight_dec = Unit
HasLabel rate_limited = Unit
HasLabel (request_duration endpoint method) = Unit
HasLabel (requests endpoint method status) = Unit
HasLabel (model_tokens model kind count) = Unit
HasLabel (upstream_errors op kind) = Unit

module _ {lib : RateLibrary} where
  observe-HasLabel :
      (s : Sample) (w : World lib)
      → HasLabel s
      → All HasLabel w.metrics
      → All HasLabel (observe s w).metrics
  observe-HasLabel s w k h = All-append HasLabel w.metrics (s ∷ []) h (k, tt)

  observe_if-HasLabel :
      (b : Bool) (s : Sample) (w : World lib)
      → HasLabel s
      → All HasLabel w.metrics
      → All HasLabel (if b then observe s w else w).metrics
  observe_if-HasLabel true s w k h = observe-HasLabel s w k h
  observe_if-HasLabel false s w k h = h

  -- Whatever names the model gives to its tool calls, every tool label that is recorded is the
  -- sentinel or 1 to 64 bytes of the accepted set.
  pub observe_tool_calls-HasLabel :
      (tcs : List Api.ToolCall) (w : World lib)
      → All HasLabel w.metrics
      → All HasLabel (observe_tool_calls tcs w).metrics
  unfolding observe_tool_calls
  observe_tool_calls-HasLabel [] w h = h
  observe_tool_calls-HasLabel (tc ∷ tcs) w h =
      let name = sanitize_tool_name_label tc.name in
      let label = sanitize_tool_name_label-IsLabel tc.name in
      let w' = observe (tool_calls name) w in
      observe_tool_calls-HasLabel tcs
        (if is_positive tc.duration_ms then observe (tool_duration name tc.duration_ms) w' else w')
        (observe_if-HasLabel (is_positive tc.duration_ms) (tool_duration name tc.duration_ms) w'
          label (observe-HasLabel (tool_calls name) w label h))
