-- ===== src/Server/Observe/Recorded.antt =====
-- What the handlers record.
use opencost_ai.Prelude.{
  ◌≡◌, refl, sym, ap, ◌∙◌, Bool, true, false, List, [], ◌∷◌, ◌++◌, append-nil, append_assoc, ◌⊎◌,
  inl, inr, All, All-append, if◌then◌else◌, arith,
}
use opencost_ai.Prelude.Int.{ℤ, is_positive}
use opencost_ai.Text.{Bytes, text}
use opencost_ai.Text.Utf8.{valid_string}
use opencost_ai.RateLimit.{RateLibrary}
use opencost_ai.Api
use opencost_ai.Metrics.{
  Sample, in_flight_inc, in_flight_dec, rate_limited, request_duration, requests, tool_calls,
  tool_duration, model_tokens, upstream_errors,
}
use opencost_ai.Server.World.{World, UpstreamError, bridge_error, other_error, observe}
use opencost_ai.Server.Observe.{
  observe_tokens, observe_tool_calls, record_upstream_error, sanitize_tool_name_label, error_kind,
}
use opencost_ai.Server.Observe.Labels.{IsLabel, sanitize_tool_name_label-IsLabel}

abbrev pub IsUtf8 : Bytes → Type 0
IsUtf8 s = valid_string s ≡ true

-- The calls of the bridge that can fail, and the ways.
abbrev pub IsOp : Bytes → Type 0
IsOp op = (op ≡ text "chat") ⊎ (op ≡ text "chat_stream")

abbrev pub IsKind : Bytes → Type 0
IsKind kind =
    (kind ≡ text "transport")
    ⊎ (kind ≡ text "http_5xx")
    ⊎ (kind ≡ text "http_4xx")
    ⊎ (kind ≡ text "http_other")
    ⊎ (kind ≡ text "unknown")

-- A sample of a handler: its labels are of fixed sets, or a model's name, and its count is positive.
abbrev pub IsHandled : Sample → Type 0
IsHandled rate_limited = Unit
IsHandled (tool_calls tool) = IsLabel tool
IsHandled (tool_duration tool millis) = IsLabel tool × (is_positive millis ≡ true)
IsHandled (model_tokens model kind count) =
    IsUtf8 model
    × ((kind ≡ text "prompt") ⊎ (kind ≡ text "completion"))
    × (is_positive count ≡ true)
IsHandled (upstream_errors op kind) = IsOp op × IsKind kind
IsHandled in_flight_inc = ⊥
IsHandled in_flight_dec = ⊥
IsHandled (request_duration endpoint method) = ⊥
IsHandled (requests endpoint method status) = ⊥

error_kind-IsKind : (e : UpstreamError) → IsKind (error_kind e)
unfolding error_kind
error_kind-IsKind (bridge_error e) = ground arith
error_kind-IsKind (other_error e) = inr (inr (inr (inr refl)))

-- Only such samples were recorded in between.
pub record Recorded (xs ys : List Sample) : Type 0 where
  pub samples : List Sample
  pub appended : ys ≡ xs ++ samples
  pub handled : All IsHandled samples

pub nil-Recorded : {xs : List Sample} → Recorded xs xs
nil-Recorded {xs} = record { samples = []; appended = sym (append-nil xs); handled = tt }

pub Recorded-trans : {xs ys zs : List Sample} → Recorded xs ys → Recorded ys zs → Recorded xs zs
Recorded-trans {xs} h k = record {
  samples = h.samples ++ k.samples;
  appended = k.appended ∙ ap (λ l. l ++ k.samples) h.appended ∙ append_assoc xs h.samples k.samples;
  handled = All-append IsHandled h.samples k.samples h.handled k.handled;
}

pub one-Recorded : {xs : List Sample} (s : Sample) → IsHandled s → Recorded xs (xs ++ s ∷ [])
one-Recorded s h = record { samples = s ∷ []; appended = refl; handled = (h, tt) }

module _ {lib : RateLibrary} where
  observe_if-Recorded :
      (b : Bool) (s : Sample) (w : World lib)
      → (b ≡ true → IsHandled s)
      → Recorded w.metrics (if b then observe s w else w).metrics
  observe_if-Recorded true s w h = one-Recorded s (h refl)
  observe_if-Recorded false s w h = nil-Recorded

  pub observe_tokens-Recorded :
      (model : Bytes) (prompt completion : ℤ) (w : World lib)
      → IsUtf8 model
      → Recorded w.metrics (observe_tokens model prompt completion w).metrics
  unfolding observe_tokens
  observe_tokens-Recorded model prompt completion w valid =
      Recorded-trans (observe_if-Recorded (is_positive prompt) _ w (λ h. (valid, inl refl, h)))
        (observe_if-Recorded (is_positive completion) _ _ (λ h. (valid, inr refl, h)))

  pub observe_tool_calls-Recorded :
      (tcs : List Api.ToolCall) (w : World lib)
      → Recorded w.metrics (observe_tool_calls tcs w).metrics
  unfolding observe_tool_calls
  observe_tool_calls-Recorded [] w = nil-Recorded
  observe_tool_calls-Recorded (tc ∷ tcs) w =
      let name = sanitize_tool_name_label tc.name in
      let label = sanitize_tool_name_label-IsLabel tc.name in
      let w' = observe (tool_calls name) w in
      let w'' =
        if is_positive tc.duration_ms then observe (tool_duration name tc.duration_ms) w' else w' in
      Recorded-trans
        (Recorded-trans (one-Recorded (tool_calls name) label) (
          observe_if-Recorded (is_positive tc.duration_ms) (tool_duration name tc.duration_ms) w'
            (λ h. (label, h))))
        (observe_tool_calls-Recorded tcs w'')

  pub record_upstream_error-Recorded :
      (op : Bytes) (e : UpstreamError) (w : World lib)
      → IsOp op
      → Recorded w.metrics (record_upstream_error op e w).metrics
  unfolding record_upstream_error
  record_upstream_error-Recorded op e w h =
      one-Recorded (upstream_errors op (error_kind e)) (h, error_kind-IsKind e)
