-- ===== src/Server/Body.antt =====
-- The bytes of a response's body: what encoding/json and `writeSSE` of internal/server/stream.go make
-- of the values that are written.
pub mod Client
mod Tests
use opencost_ai.Prelude.{List, [], ◌∷◌, ◌++◌}
use opencost_ai.Text.{Bytes}
use opencost_ai.Json.{Json, Fields, encode}
use opencost_ai.Api.Document.{
  problem_json, ask_response_json, models_response_json, tools_response_json, health_response_json,
  sse_event_json,
}
use opencost_ai.Server.Writer.{Item}
use opencost_ai.Server.Streaming.Wire.{frame_bytes}

module _ (args : Bytes → Fields) where
  unfoldable pub item_bytes : Item → Bytes
  item_bytes (Item.problem p) = encode (problem_json p)
  item_bytes (Item.answer a) = encode (ask_response_json args a)
  item_bytes (Item.models m) = encode (models_response_json m)
  item_bytes (Item.tools t) = encode (tools_response_json t)
  item_bytes (Item.health h) = encode (health_response_json h)
  item_bytes (Item.plain s) = s
  item_bytes (Item.frame e) = frame_bytes (λ x. encode (sse_event_json args x)) e

  unfoldable pub body_bytes : List Item → Bytes
  unfolding item_bytes
  body_bytes [] = []
  body_bytes (i ∷ is) = item_bytes i ++ body_bytes is
