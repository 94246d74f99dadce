-- ===== src/Bridge/Document.antt =====
-- The JSON of a request to the bridge, by the tags of internal/bridge/types.go.
use opencost_ai.Prelude.{is_nil}
use opencost_ai.Text.{Bytes, text}
use opencost_ai.Json.{Json, Fields, bool, str, array, object, no_fields, field}
use opencost_ai.Json.Build.{omitted_if, items_of, is_empty}
use opencost_ai.Bridge.Types
use opencost_ai.Bridge.Types.{Message, ChatRequest}

-- `args` is the map that encoding/json makes of a JSON object, as it writes it.
module _ (args : Bytes → Fields) where
  unfoldable pub tool_call_json : Types.ToolCall → Json
  tool_call_json c = object (
      field (text "function")
        (object (
          field (text "name") (str c.name) (
            omitted_if (is_empty (args c.arguments)) (text "arguments") (object (args c.arguments))
              no_fields)))
        no_fields)

  unfoldable pub message_json : Message → Json
  message_json m = object (
      field (text "role") (str m.role) (
        field (text "content") (str m.content) (
          omitted_if (is_nil m.tool_calls) (text "tool_calls")
            (array (items_of tool_call_json m.tool_calls)) no_fields)))

  unfoldable pub chat_request_json : ChatRequest → Json
  chat_request_json q = object (
      field (text "model") (str q.model) (
        field (text "messages") (array (items_of message_json q.messages))
          (field (text "stream") (bool q.stream) no_fields)))
