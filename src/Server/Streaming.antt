-- ===== src/Server/Streaming.antt =====
-- `askStream` of internal/server/stream.go.
pub mod Frames
pub mod Transcript
pub mod Collected
pub mod Answer
pub mod Rendered
pub mod Wire
use opencost_ai.Prelude.{
  ℕ, Bool, not, ◌&&◌, List, [], ◌∷◌, ◌++◌, ◌/◌, ◌*◌, zero, suc, Option, none, some, Result, ok, err,
  map, if◌then◌else◌, is_nil,
}
use opencost_ai.Prelude.Int.{ℤ, pos, negsuc}
use opencost_ai.Text.{Bytes, text, beq}
use opencost_ai.RateLimit.{RateLibrary}
use opencost_ai.Bridge.Types
use opencost_ai.Bridge.Types.{ChatRequest, ChatStreamChunk}
use opencost_ai.Api
use opencost_ai.Api.{
  AskRequest, SseEvent, DoneEvent, thinking, tool_call, tool_result, token, done, error,
}
use opencost_ai.Audit.{Event}
use opencost_ai.Server.Writer.{Item, StatusWriter, set_header, write_header, write, flush}
use opencost_ai.Server.World.{
  Config, Request, World, Upstream, UpstreamError, chat_stream_call, respond, call, log_audit,
}
use opencost_ai.Server.Problem.{
  write_problem, problem_title_for, bridge_error_status, map_bridge_error,
}
use opencost_ai.Server.Observe.{
  to_audit_tool_calls, observe_tokens, observe_tool_calls, record_upstream_error,
}

-- The constants `eventThinking` to `eventError`
unfoldable pub event_type : SseEvent → Bytes
event_type (thinking t) = text "thinking"
event_type (tool_call n a) = text "tool_call"
event_type (tool_result t) = text "tool_result"
event_type (token t) = text "token"
event_type (done d) = text "done"
event_type (error e) = text "error"

-- `writeSSE`. Where the data cannot be encoded, the frame is broken off behind "data: ". Errors of
-- the connection are left out: the handler does not see them.
unfoldable pub write_sse : Config → SseEvent → StatusWriter → StatusWriter
write_sse cfg e s =
    if cfg.encodes (Item.frame e)
    then flush (write (Item.frame e) s)
    else write (Item.plain (text "event: " ++ event_type e ++ b'\n' ∷ text "data: ")) s

unfoldable pub write_frames : Config → List SseEvent → StatusWriter → StatusWriter
write_frames cfg [] s = s
write_frames cfg (e ∷ es) s = write_frames cfg es (write_sse cfg e s)

-- The headers and the first flush
unfoldable pub open_stream : StatusWriter → StatusWriter
open_stream s = flush (
    write_header 200 (
      set_header (text "X-Accel-Buffering") (text "no") (
        set_header (text "Connection") (text "keep-alive") (
          set_header (text "Cache-Control") (text "no-cache")
            (set_header (text "Content-Type") (text "text/event-stream") s)))))

-- The variables of the loop.
pub record Progress : Type 0 where
  pub final_model : Bytes
  pub final_reason : Bytes
  pub prompt_tokens : ℤ
  pub completion_tokens : ℤ
  pub total_duration : ℤ
  pub tools : List Api.ToolCall
  pub answer : Bytes

abbrev pub is_tool : ChatStreamChunk → Bool
unfolding beq text
is_tool chunk = beq chunk.message.role (text "tool")

-- A list of one event under a test.
abbrev event_if : Bool → SseEvent → List SseEvent
event_if b e = if b then e ∷ [] else []

-- What one round of the loop writes for a chunk, in order
unfoldable pub events_of : ChatStreamChunk → List SseEvent
unfolding beq text
events_of chunk =
    let has_content = not (is_nil chunk.message.content) in
    event_if (not (is_nil chunk.thinking)) (thinking chunk.thinking)
    ++ (map (λ tc. tool_call tc.name tc.arguments) chunk.message.tool_calls
        ++ (event_if (is_tool chunk && has_content) (tool_result chunk.message.content)
            ++ event_if (not (is_tool chunk) && has_content) (token chunk.message.content)))

abbrev called : Types.ToolCall → Api.ToolCall
called tc = record { name = tc.name; args = tc.arguments; duration_ms = pos 0 }

-- What one round of the loop leaves in the variables; `capture` is `captureAnswer`.
unfoldable pub progress : Bool → ChatStreamChunk → Progress → Progress
unfolding beq text
progress capture chunk p =
    let named = record p {
      final_model = if not (is_nil chunk.model) then chunk.model else p.final_model;
      tools = p.tools ++ map called chunk.message.tool_calls;
      answer =
          if not (is_tool chunk) && not (is_nil chunk.message.content) && capture
          then p.answer ++ chunk.message.content
          else p.answer;
    } in
    if chunk.is_done
    then record named {
      final_reason = chunk.done_reason;
      prompt_tokens = chunk.prompt_eval_count;
      completion_tokens = chunk.eval_count;
      total_duration = chunk.total_duration;
    }
    else named

abbrev negated : ℕ → ℤ
negated zero = pos zero
negated (suc n) = negsuc n

-- `/ int64(time.Millisecond)`, which truncates towards 0
abbrev pub millis : ℤ → ℤ
millis (pos n) = pos (n / 1000000)
millis (negsuc n) = negated (suc n / 1000000)

unfoldable pub done_of : Request → Progress → DoneEvent
done_of r p = record {
  request_id = r.request_id;
  model = p.final_model;
  done_reason = p.final_reason;
  usage = record { prompt_tokens = p.prompt_tokens; completion_tokens = p.completion_tokens };
  tool_calls = p.tools;
  total_duration_ms = millis p.total_duration;
  latency_ms = r.latency_ms;
}

-- The audit events of a failure and of the end of the stream.
unfoldable pub failure_event : Request → AskRequest → (caller model : Bytes) → UpstreamError → Event
failure_event r req caller model e = record {
  timestamp = none;
  request_id = r.request_id;
  caller_identity = caller;
  model = model;
  prompt_tokens = pos 0;
  completion_tokens = pos 0;
  tool_calls = [];
  latency_ms = r.latency_ms;
  status = bridge_error_status e;
  outcome = text "error";
  query = req.query;
  answer = [];
}

unfoldable pub success_event : Request → AskRequest → (caller : Bytes) → Progress → Event
success_event r req caller p = record {
  timestamp = none;
  request_id = r.request_id;
  caller_identity = caller;
  model = p.final_model;
  prompt_tokens = p.prompt_tokens;
  completion_tokens = p.completion_tokens;
  tool_calls = to_audit_tool_calls p.tools;
  latency_ms = r.latency_ms;
  status = 200;
  outcome = text "ok";
  query = req.query;
  answer = p.answer;
}

unfoldable pub error_of : Request → UpstreamError → SseEvent
error_of r e =
    let status = bridge_error_status e in
    error (record {
      request_id = r.request_id;
      status = status;
      title = problem_title_for status;
      detail = text "upstream bridge stream failed";
    })

-- The values of the variables in front of the loop.
abbrev pub no_progress : ChatRequest → Progress
no_progress bridge_req = record {
  final_model = bridge_req.model;
  final_reason = [];
  prompt_tokens = pos 0;
  completion_tokens = pos 0;
  total_duration = pos 0;
  tools = [];
  answer = [];
}

module _ {lib : RateLibrary} (cfg : Config) (r : Request) (req : AskRequest) (caller : Bytes) where
  -- The branch of the loop that returns on an error.
  unfoldable pub fail_stream : UpstreamError → Progress → World lib → World lib
  fail_stream e p w =
      log_audit r (failure_event r req caller p.final_model e)
        (respond (write_sse cfg (error_of r e)) (record_upstream_error (text "chat_stream") e w))

  -- The code behind the loop.
  unfoldable pub finish_stream : Progress → World lib → World lib
  finish_stream p w = log_audit r (success_event r req caller p) (
      observe_tool_calls p.tools (
        observe_tokens p.final_model p.prompt_tokens p.completion_tokens
          (respond (write_sse cfg (done (done_of r p))) w)))

  -- The loop, over what `stream.Next` returns.
  unfoldable pub serve_chunks :
      Bool → List ChatStreamChunk → Option UpstreamError → Progress → World lib → World lib
  serve_chunks capture [] none p w = finish_stream p w
  serve_chunks capture [] (some e) p w = fail_stream e p w
  serve_chunks capture (chunk ∷ chunks) end p w =
      serve_chunks capture chunks end (progress capture chunk p)
        (respond (write_frames cfg (events_of chunk)) w)

  unfoldable pub ask_stream : Upstream → ChatRequest → World lib → World lib
  ask_stream up bridge_req w =
      if not r.can_flush
      then respond
          (write_problem cfg r 500 (problem_title_for 500)
            (text "streaming is not supported by the response writer"))
          w
      else let w' = call (chat_stream_call bridge_req) w in
        elim (up.chat_stream bridge_req) [
          | err e ↦
              log_audit r (failure_event r req caller bridge_req.model e) (
                respond (map_bridge_error cfg r e)
                  (record_upstream_error (text "chat_stream") e w'))
          | ok (chunks, end) ↦
              serve_chunks w.audit.log_query chunks end (no_progress bridge_req)
                (respond open_stream w')
        ]
