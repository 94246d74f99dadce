-- ===== src/Server/Upstream.antt =====
-- The client of internal/bridge/client.go and stream.go as the Bridge interface of
-- internal/server/server.go.
mod Tests
pub mod Once
pub mod Streamed
use opencost_ai.Prelude.{ℕ, suc, List, [], ◌∷◌, ◌++◌, Option, none, some, Result, ok, err, length}
use opencost_ai.Prelude.Int.{pos}
use opencost_ai.Text.{Bytes, text, format_d}
use opencost_ai.Bridge.Types.{Error, ChatRequest, ChatResponse, ChatStreamChunk, TagModel}
use opencost_ai.Bridge.Client.{Client, Http, failure, chat, models, chat_stream}
use opencost_ai.Bridge.Stream.{
  Body, ChatStream, StreamError, line_too_long, transport, decode_failed, reader_size,
  max_stream_line_bytes,
}
use opencost_ai.Bridge.Stream.Frames.{read_all}
use opencost_ai.Server.World.{Upstream, UpstreamError, bridge_error}

-- What a client calls: net/http for documents and for streams, and encoding/json.
pub record Link : Type 0 where
  pub http : Http Bytes
  pub stream_http : Http Body
  pub encode : ChatRequest → Result Bytes Bytes
  pub decode_chat : Bytes → Result Bytes ChatResponse
  pub decode_tags : Bytes → Result Bytes (List TagModel)
  pub decode_chunk : Bytes → Result Bytes ChatStreamChunk

-- The errors of `Next`
unfoldable pub stream_error : StreamError → Error
stream_error line_too_long =
    failure (text "chat_stream")
      (text "stream line exceeded " ++ (format_d (pos max_stream_line_bytes) ++ text " bytes"))
stream_error (transport cause) = failure (text "chat_stream") cause
stream_error (decode_failed cause) = failure (text "chat_stream") (text "decode chunk: " ++ cause)

abbrev pub wrapped : {A : Type 0} → Result Error A → Result UpstreamError A
wrapped (ok a) = ok a
wrapped (err e) = err (bridge_error e)

abbrev pub ended : Option StreamError → Option UpstreamError
ended none = none
ended (some e) = some (bridge_error (stream_error e))

-- The chunks in front of the error; the first case does not occur.
abbrev pub collected :
    Option (List ChatStreamChunk × Option StreamError) → List ChatStreamChunk × Option UpstreamError
collected none = ([], none)
collected (some (chunks, e)) = (chunks, ended e)

-- What `Next` returns in turn, with a round more than there are bytes.
abbrev pub drained : Link → Body → List ChatStreamChunk × Option UpstreamError
drained link b = collected (read_all link.decode_chunk reader_size (suc (length b.remaining)) b)

abbrev pub drained_stream :
    (link : Link)
    → Result Error (ChatStream link.decode_chunk)
    → Result UpstreamError (List ChatStreamChunk × Option UpstreamError)
drained_stream link (ok s) = ok (drained link s.body)
drained_stream link (err e) = err (bridge_error e)

unfoldable pub upstream_of : Client → Link → Upstream
upstream_of c link = record {
  chat = λ req. wrapped (chat c link.http link.encode link.decode_chat req);
  chat_stream =
      λ req. drained_stream link (chat_stream link.decode_chunk c link.stream_http link.encode req);
  models = wrapped (models c link.http link.decode_tags);
}
