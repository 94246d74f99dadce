-- ===== src/Server/Ask.antt =====
-- `ask` of internal/server/handlers.go.
pub mod Cases
pub mod Effects
pub mod Recorded
pub mod Safety
pub mod Prompt
use opencost_ai.Prelude.{
  ℕ, Bool, true, false, not, List, [], ◌∷◌, ◌++◌, Option, none, some, Result, ok, err,
  if◌then◌else◌,
}
use opencost_ai.Prelude.Int.{pos}
use opencost_ai.Text.{Bytes, text, format_d}
use opencost_ai.RateLimit.{RateLibrary, allow}
use opencost_ai.Bridge.Types.{ChatRequest, ChatResponse}
use opencost_ai.Api.{AskRequest, AskResponse}
use opencost_ai.Audit.{Event, caller_identity}
use opencost_ai.Metrics.{rate_limited}
use opencost_ai.Server.Writer.{Item}
use opencost_ai.Server.World.{
  Config, Request, World, Upstream, Decoded, DecodeError, DecodeKind, max_bytes, chat_call, respond,
  observe, call, log_audit,
}
use opencost_ai.Server.Problem.{write_problem, problem_title_for, map_bridge_error, write_json}
use opencost_ai.Server.Validation.{
  require_json, validate_ask_request, decode_error_detail, parse_bearer_token, model_or_default,
}
use opencost_ai.Server.Observe.{
  to_api_tool_calls, to_audit_tool_calls, observe_tokens, observe_tool_calls, record_upstream_error,
}
use opencost_ai.Server.Streaming.{ask_stream}

-- `errors.As(err, &mbe)`
abbrev pub is_too_large : DecodeError → Bool
is_too_large e = elim e.kind [ max_bytes ↦ true | _ ↦ false ]

-- `bridgeReq`; the message is the query alone.
unfoldable pub bridge_request : Config → AskRequest → ChatRequest
bridge_request cfg req = record {
  model = model_or_default req.model cfg.default_model;
  messages = record { role = text "user"; content = req.query; tool_calls = [] } ∷ [];
  stream = false;
}

unfoldable pub limited_event : Config → Request → AskRequest → (caller : Bytes) → Event
limited_event cfg r req caller = record {
  timestamp = none;
  request_id = r.request_id;
  caller_identity = caller;
  model = model_or_default req.model cfg.default_model;
  prompt_tokens = pos 0;
  completion_tokens = pos 0;
  tool_calls = [];
  latency_ms = pos 0;
  status = 429;
  outcome = text "rate_limited";
  query = req.query;
  answer = [];
}

unfoldable pub response_of : Request → AskRequest → ChatResponse → AskResponse
response_of r req resp = record {
  request_id = r.request_id;
  model = resp.model;
  query = req.query;
  answer = resp.message.content;
  tool_calls = to_api_tool_calls resp.message.tool_calls;
  usage = record { prompt_tokens = resp.prompt_eval_count; completion_tokens = resp.eval_count };
  latency_ms = r.latency_ms;
}

unfoldable pub answered_event : Request → AskRequest → (caller : Bytes) → ChatResponse → Event
answered_event r req caller resp = record {
  timestamp = none;
  request_id = r.request_id;
  caller_identity = caller;
  model = resp.model;
  prompt_tokens = resp.prompt_eval_count;
  completion_tokens = resp.eval_count;
  tool_calls = to_audit_tool_calls (to_api_tool_calls resp.message.tool_calls);
  latency_ms = r.latency_ms;
  status = 200;
  outcome = text "ok";
  query = req.query;
  answer = resp.message.content;
}

module _ {lib : RateLibrary} (cfg : Config) (up : Upstream) (r : Request) where
  abbrev pub reject : ℕ → Bytes → World lib → World lib
  reject status detail = respond (write_problem cfg r status (problem_title_for status) detail)

  -- The part without streaming.
  unfoldable pub ask_once : AskRequest → (caller : Bytes) → World lib → World lib
  ask_once req caller w =
      let bridge_req = bridge_request cfg req in
      let w' = call (chat_call bridge_req) w in
      elim (up.chat bridge_req) [
        | err e ↦ respond (map_bridge_error cfg r e) (record_upstream_error (text "chat") e w')
        | ok resp ↦ respond (write_json cfg r 200 (Item.answer (response_of r req resp))) (
            log_audit r (answered_event r req caller resp) (
              observe_tool_calls (to_api_tool_calls resp.message.tool_calls)
                (observe_tokens resp.model resp.prompt_eval_count resp.eval_count w')))
      ]

  -- Behind the rate limiter.
  unfoldable pub ask_granted : AskRequest → (caller : Bytes) → World lib → World lib
  ask_granted req caller w =
      if req.stream
      then ask_stream cfg r req caller up (bridge_request cfg req) w
      else ask_once req caller w

  -- `PerMinute` is read behind `Allow`, which does not change it.
  unfoldable pub ask_limited : AskRequest → (caller : Bytes) → World lib → World lib
  ask_limited req caller w =
      reject 429
        (text "rate limit of "
          ++ format_d w.limiter.per_minute
          ++ text " requests per minute exceeded")
        (log_audit r (limited_event cfg r req caller) (observe rate_limited w))

  -- Behind the validation: the caller's identity and the limiter.
  unfoldable pub ask_valid : AskRequest → World lib → World lib
  ask_valid req w =
      let caller = caller_identity cfg.sha256 (parse_bearer_token r.authorization).0 in
      let (granted, limiter) = allow lib r.now caller w.limiter in
      let w' = record w { limiter = limiter } in
      if not granted then ask_limited req caller w' else ask_granted req caller w'

  -- Behind the decoder's two calls.
  unfoldable pub ask_decoded : Decoded → World lib → World lib
  ask_decoded d w = elim d.first [
    | err e ↦
        if is_too_large e
        then reject 413 (text "request body exceeds configured limit") w
        else reject 400 (decode_error_detail e) w
    | ok req ↦
        if not d.at_end
        then reject 400 (text "request body must contain exactly one JSON object") w
        else elim (validate_ask_request req) [
          | some detail ↦ reject 400 detail w
          | none ↦ ask_valid req w
        ]
  ]

  unfoldable pub ask : World lib → World lib
  ask w = elim (require_json r.content_type) [
    | some detail ↦ reject 415 detail w
    | none ↦ ask_decoded (cfg.decode cfg.max_request_bytes r.body) w
  ]
