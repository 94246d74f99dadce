-- ===== src/Server/Observe.antt =====
-- The metrics and the reshaping of tool calls in internal/server/handlers.go.
pub mod Labels
pub mod Effects
pub mod Recorded
use opencost_ai.Prelude.{
  ℕ, Bool, not, ◌||◌, List, [], ◌∷◌, map, ltb, leb, ◌==◌, if◌then◌else◌, is_nil, length, all,
}
use opencost_ai.Prelude.Int.{ℤ, pos, negsuc, is_positive}
use opencost_ai.Text.{Bytes, text, within}
use opencost_ai.RateLimit.{RateLibrary}
use opencost_ai.Bridge.Types
use opencost_ai.Api
use opencost_ai.Audit
use opencost_ai.Metrics.{Sample, tool_calls, tool_duration, model_tokens, upstream_errors}
use opencost_ai.Server.World.{World, UpstreamError, bridge_error, other_error, observe}

abbrev pub max_tool_name_label_len : ℕ
max_tool_name_label_len = 64

-- A byte of `toolNameLabelRe`, ^[A-Za-z0-9_.-]+$
abbrev pub is_label_byte : ℕ → Bool
is_label_byte c =
    within b'A' b'Z' c
    || within b'a' b'z' c
    || within b'0' b'9' c
    || (c == b'_' || c == b'.' || c == b'-')

abbrev pub invalid_label : Bytes
invalid_label = text "_invalid"

-- `sanitizeToolNameLabel`
unfoldable pub sanitize_tool_name_label : Bytes → Bytes
sanitize_tool_name_label name =
    if is_nil name || ltb max_tool_name_label_len (length name) || not (all is_label_byte name)
    then invalid_label
    else name

-- at least `n`
abbrev reaches : ℕ → ℤ → Bool
reaches n (pos m) = leb n m
reaches n (negsuc m) = leb n 0

abbrev is_zero : ℤ → Bool
is_zero (pos m) = m == 0
is_zero (negsuc m) = leb 1 0

-- The label of `recordUpstreamError`
unfoldable pub error_kind : UpstreamError → Bytes
error_kind (bridge_error e) =
    if is_zero e.status
    then text "transport"
    else if reaches 500 e.status
    then text "http_5xx"
    else if reaches 400 e.status
    then text "http_4xx"
    else text "http_other"
error_kind (other_error e) = text "unknown"

-- `toAPIToolCalls`
unfoldable pub to_api_tool_calls : List Types.ToolCall → List Api.ToolCall
to_api_tool_calls = map (λ tc. record { name = tc.name; args = tc.arguments; duration_ms = pos 0 })

-- `toAuditToolCalls`
unfoldable pub to_audit_tool_calls : List Api.ToolCall → List Audit.ToolCall
to_audit_tool_calls = map (λ tc. record { name = tc.name; duration_ms = tc.duration_ms })

module _ {lib : RateLibrary} where
  -- `observeTokens`
  unfoldable pub observe_tokens : Bytes → ℤ → ℤ → World lib → World lib
  observe_tokens model prompt completion w =
      let w' =
        if is_positive prompt then observe (model_tokens model (text "prompt") prompt) w else w in
      if is_positive completion
      then observe (model_tokens model (text "completion") completion) w'
      else w'

  -- `observeToolCalls`
  unfoldable pub observe_tool_calls : List Api.ToolCall → World lib → World lib
  observe_tool_calls [] w = w
  observe_tool_calls (tc ∷ tcs) w =
      let name = sanitize_tool_name_label tc.name in
      let w' = observe (tool_calls name) w in
      observe_tool_calls tcs
        (if is_positive tc.duration_ms then observe (tool_duration name tc.duration_ms) w' else w')

  -- `recordUpstreamError`
  unfoldable pub record_upstream_error : Bytes → UpstreamError → World lib → World lib
  record_upstream_error op e = observe (upstream_errors op (error_kind e))
