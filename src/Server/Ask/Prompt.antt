-- ===== src/Server/Ask/Prompt.antt =====
-- The query on its way to the bridge.
use opencost_ai.Prelude.{◌≡◌, refl, true, Bool, some}
use opencost_ai.Text.{Bytes, text}
use opencost_ai.Text.Utf8.{valid_string}
use opencost_ai.Json.{
  Json, Fields, HasNumbers, IsUtf8, bool, str, array, object, no_fields, field, no_items, item,
  encode,
}
use opencost_ai.Json.Build.{omitted_if, items_of}
use opencost_ai.Json.Parse.{parse}
use opencost_ai.Json.Parse.RoundTrip.{parse-encode}
use opencost_ai.Api.{AskRequest}
use opencost_ai.Bridge.Document.{message_json, chat_request_json}
use opencost_ai.Server.World.{Config}
use opencost_ai.Server.Validation.{model_or_default}
use opencost_ai.Server.Validation.Laws.{IsAskable}
use opencost_ai.Server.Ask.{bridge_request}

-- One user message with this text
abbrev pub prompt : (model query : Bytes) → Bool → Json
prompt model query stream = object (
    field (text "model") (str model) (
      field (text "messages")
        (array (
          item
            (object (
              field (text "role") (str (text "user"))
                (field (text "content") (str query) no_fields)))
            no_items))
        (field (text "stream") (bool stream) no_fields)))

prompt-HasNumbers : (model query : Bytes) (stream : Bool) → HasNumbers (prompt model query stream)
unfolding HasNumbers
prompt-HasNumbers model query stream = (tt, (((tt, (tt, tt)), tt), (tt, tt)))

prompt-IsUtf8 :
    (model query : Bytes) (stream : Bool)
    → valid_string model ≡ true
    → valid_string query ≡ true
    → IsUtf8 (prompt model query stream)
unfolding IsUtf8 valid_string text
prompt-IsUtf8 model query stream h k =
    (refl, h, (refl, ((refl, refl, (refl, k, tt)), tt), (refl, tt, tt)))

chat_request_json-prompt :
    (args : Bytes → Fields) (cfg : Config) (req : AskRequest) (stream : Bool)
    → chat_request_json args (record (bridge_request cfg req) { stream = stream })
      ≡ prompt (model_or_default req.model cfg.default_model) req.query stream
unfolding chat_request_json message_json bridge_request items_of omitted_if
chat_request_json-prompt args cfg req stream = refl

-- What the bridge parses of the body that the gateway sends it, for an answer or for a stream: the
-- model that was asked for or the default, and the caller's query, byte for byte, as the one message of
-- the user, whatever it holds. The query passed validateAskRequest, and the model's name is UTF-8.
pub parse-prompt :
    (args : Bytes → Fields) (cfg : Config) (req : AskRequest) (stream : Bool)
    → IsAskable req
    → valid_string (model_or_default req.model cfg.default_model) ≡ true
    → parse (encode (chat_request_json args (record (bridge_request cfg req) { stream = stream })))
      ≡ some (prompt (model_or_default req.model cfg.default_model) req.query stream)
parse-prompt args cfg req stream askable h = rw (chat_request_json-prompt args cfg req stream) (
    parse-encode _ (prompt-HasNumbers _ req.query stream)
      (prompt-IsUtf8 _ req.query stream h askable.is_utf8))
