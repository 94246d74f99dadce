-- ===== src/Audit/Document.antt =====
-- The JSON of an event, by the tags of internal/audit/audit.go, and the bytes of the log.
use opencost_ai.Prelude.{ℕ, List, [], ◌∷◌, ◌++◌, Option, is_nil}
use opencost_ai.Prelude.Int.{pos}
use opencost_ai.Text.{Bytes, text}
use opencost_ai.Json.{Json, str, array, object, no_fields, field, encode}
use opencost_ai.Json.Build.{int, optional, omitted_if, items_of}
use opencost_ai.Audit
use opencost_ai.Audit.{Event}

unfoldable pub tool_call_json : Audit.ToolCall → Json
tool_call_json c =
    object
      (field (text "name") (str c.name) (field (text "duration_ms") (int c.duration_ms) no_fields))

-- `time` writes a time.Time as MarshalJSON does.
unfoldable pub event_json : (time : Option ℕ → Bytes) → Event → Json
event_json time e = object (
    field (text "timestamp") (str (time e.timestamp)) (
      field (text "request_id") (str e.request_id) (
        field (text "caller_identity") (str e.caller_identity) (
          field (text "model") (str e.model) (
            field (text "prompt_tokens") (int e.prompt_tokens) (
              field (text "completion_tokens") (int e.completion_tokens) (
                omitted_if (is_nil e.tool_calls) (text "tool_calls")
                  (array (items_of tool_call_json e.tool_calls))
                  (field (text "latency_ms") (int e.latency_ms) (
                    field (text "status") (int (pos e.status)) (
                      field (text "outcome") (str e.outcome) (
                        optional (text "query") e.query
                          (optional (text "answer") e.answer no_fields))))))))))))

-- `append(buf, '\n')` and the write of `Log`
unfoldable pub line_of : (time : Option ℕ → Bytes) → Event → Bytes
line_of time e = encode (event_json time e) ++ b'\n' ∷ []

-- What the sink holds: the lines, one behind another.
unfoldable pub log_bytes : (time : Option ℕ → Bytes) → List Event → Bytes
log_bytes time [] = []
log_bytes time (e ∷ es) = line_of time e ++ log_bytes time es
