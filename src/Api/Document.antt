-- ===== src/Api/Document.antt =====
-- The JSON documents of pkg/apiv1 and of the events of internal/server/stream.go, by their tags.
pub mod Text
use opencost_ai.Prelude.{Bool, true, false, not, List, is_nil, ◌==◌}
use opencost_ai.Prelude.Int.{ℤ, pos, negsuc}
use opencost_ai.Text.{Bytes, text}
use opencost_ai.Json.{Json, Fields, bool, str, array, object, no_fields, field}
use opencost_ai.Json.Build.{int, optional, omitted_if, items_of, is_empty}
use opencost_ai.Api
use opencost_ai.Api.{
  Usage, AskResponse, HealthResponse, Problem, Model, ModelsResponse, Tool, ToolsResponse,
  DoneEvent, ErrorEvent, SseEvent, thinking, tool_call, tool_result, token, done, error,
}

abbrev pub is_zero : ℤ → Bool
is_zero (pos n) = n == 0
is_zero (negsuc n) = false

unfoldable pub usage_json : Usage → Json
usage_json u = object (
    field (text "prompt_tokens") (int u.prompt_tokens)
      (field (text "completion_tokens") (int u.completion_tokens) no_fields))

unfoldable pub problem_json : Problem → Json
problem_json p = object (
    field (text "title") (str p.title) (
      field (text "status") (int (pos p.status)) (
        optional (text "detail") p.detail (
          optional (text "instance") p.instance_uri
            (optional (text "request_id") p.request_id no_fields)))))

unfoldable pub health_response_json : HealthResponse → Json
health_response_json h =
    object (field (text "status") (str h.status) (optional (text "version") h.version no_fields))

-- ModifiedAt is a struct, which omitempty never leaves out.
unfoldable pub model_json : Model → Json
model_json m = object (
    field (text "name") (str m.name) (
      optional (text "digest") m.digest (
        omitted_if (is_zero m.size) (text "size") (int m.size) (
          field (text "modified_at") (str m.modified_at) (
            optional (text "family") m.family (
              optional (text "parameter_size") m.parameter_size
                (optional (text "quantization") m.quantization no_fields)))))))

unfoldable pub models_response_json : ModelsResponse → Json
models_response_json m = object (
    field (text "models") (array (items_of model_json m.models))
      (optional (text "default") m.default_model no_fields))

unfoldable pub tool_json : Tool → Json
tool_json t = object (
    field (text "name") (str t.name)
      (optional (text "description") t.description (optional (text "server") t.server no_fields)))

unfoldable pub tools_response_json : ToolsResponse → Json
tools_response_json t = object (
    field (text "tools") (array (items_of tool_json t.tools)) (
      omitted_if (not t.discovery_deferred) (text "discovery_deferred") (bool t.discovery_deferred)
        no_fields))

-- `args` is the map that encoding/json makes of a JSON object, as it writes it.
module _ (args : Bytes → Fields) where
  unfoldable pub tool_call_json : Api.ToolCall → Json
  tool_call_json c = object (
      field (text "name") (str c.name) (
        omitted_if (is_empty (args c.args)) (text "args") (object (args c.args))
          (field (text "duration_ms") (int c.duration_ms) no_fields)))

  abbrev pub tool_calls_json : List Api.ToolCall → Fields → Fields
  tool_calls_json cs =
      omitted_if (is_nil cs) (text "tool_calls") (array (items_of tool_call_json cs))

  unfoldable pub ask_response_json : AskResponse → Json
  ask_response_json a = object (
      field (text "request_id") (str a.request_id) (
        field (text "model") (str a.model) (
          field (text "query") (str a.query) (
            field (text "answer") (str a.answer) (
              tool_calls_json a.tool_calls (
                field (text "usage") (usage_json a.usage)
                  (field (text "latency_ms") (int a.latency_ms) no_fields)))))))

  unfoldable pub done_event_json : DoneEvent → Json
  done_event_json d = object (
      field (text "request_id") (str d.request_id) (
        field (text "model") (str d.model) (
          optional (text "done_reason") d.done_reason (
            field (text "usage") (usage_json d.usage) (
              tool_calls_json d.tool_calls (
                omitted_if (is_zero d.total_duration_ms) (text "total_duration_ms")
                  (int d.total_duration_ms)
                  (field (text "latency_ms") (int d.latency_ms) no_fields)))))))

  unfoldable pub error_event_json : ErrorEvent → Json
  error_event_json e = object (
      field (text "request_id") (str e.request_id) (
        field (text "status") (int (pos e.status))
          (field (text "title") (str e.title) (field (text "detail") (str e.detail) no_fields))))

  -- The data of an event
  unfoldable pub sse_event_json : SseEvent → Json
  unfolding done_event_json error_event_json
  sse_event_json (thinking t) = object (field (text "text") (str t) no_fields)
  sse_event_json (tool_call n a) = object (
      field (text "name") (str n)
        (omitted_if (is_empty (args a)) (text "args") (object (args a)) no_fields))
  sse_event_json (tool_result t) = object (field (text "content") (str t) no_fields)
  sse_event_json (token t) = object (field (text "text") (str t) no_fields)
  sse_event_json (done d) = done_event_json d
  sse_event_json (error e) = error_event_json e
