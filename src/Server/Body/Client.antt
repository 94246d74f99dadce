-- ===== src/Server/Body/Client.antt =====
-- What a client reads off a stream.
use opencost_ai.Prelude.{◌≡◌, refl, ap, ◌∙◌, true, List, [], ◌∷◌, ◌++◌, map, Option, some, ok, All}
use opencost_ai.Text.{Bytes}
use opencost_ai.RateLimit.{RateLibrary}
use opencost_ai.Bridge.Types.{ChatRequest, ChatStreamChunk}
use opencost_ai.Bridge.Stream.Lines.{lines}
use opencost_ai.Json.{Json, Fields, encode}
use opencost_ai.Json.OneLine.{encode-IsPrinted, printed-one_line}
use opencost_ai.Json.Parse.{parse}
use opencost_ai.Json.Parse.RoundTrip.{parse-encode}
use opencost_ai.Api.{AskRequest, SseEvent}
use opencost_ai.Api.Document.{sse_event_json}
use opencost_ai.Api.Document.Text.{Maps, IsText, sse_event_json-HasNumbers, sse_event_json-IsUtf8}
use opencost_ai.Server.Writer.{Item}
use opencost_ai.Server.World.{Config, Request, World, Upstream, UpstreamError}
use opencost_ai.Server.Problem.Laws.{IsFresh}
use opencost_ai.Server.Streaming.{event_type, no_progress, ask_stream}
use opencost_ai.Server.Streaming.Transcript.{
  events_of_all, progress_all, last_event, ask_stream-Served,
}
use opencost_ai.Server.Streaming.Wire.{
  frame_bytes, stream_bytes, nothing, read_events, IsOneLine, read_events-stream_bytes,
}
use opencost_ai.Server.Body.{body_bytes}

-- A client that splits the body into events and parses their data
abbrev pub read_body : Bytes → List (Bytes × Option Json)
read_body body = map (λ (t, j). (t, parse j)) (read_events nothing (lines body))

module _ (args : Bytes → Fields) (maps : Maps args) where
  abbrev json : SseEvent → Bytes
  json e = encode (sse_event_json args e)

  body_bytes-stream_bytes :
      (es : List SseEvent) → body_bytes args (map Item.frame es) ≡ stream_bytes json es
  unfolding body_bytes stream_bytes
  body_bytes-stream_bytes [] = refl
  body_bytes-stream_bytes (e ∷ es) = ap (λ s. frame_bytes json e ++ s) (body_bytes-stream_bytes es)

  events-OneLine : (es : List SseEvent) → All (λ e. IsOneLine (json e)) es
  events-OneLine [] = tt
  events-OneLine (e ∷ es) = (
    printed-one_line (json e)
        (encode-IsPrinted (sse_event_json args e) (sse_event_json-HasNumbers args maps e)),
    events-OneLine es,
  )

  abbrev pub event_read : SseEvent → Bytes × Option Json
  event_read e = (event_type e, some (sse_event_json args e))

  parse_events :
      (es : List SseEvent)
      → All IsText es
      → map (λ (t, j). (t, parse j)) (map (λ e. (event_type e, json e)) es) ≡ map event_read es
  parse_events [] h = refl
  parse_events (e ∷ es) (h, hs) =
      ap
        (λ v.
          (event_type e, v) ∷ map (λ (t, j). (t, parse j)) (map (λ x. (event_type x, json x)) es))
        (parse-encode (sse_event_json args e) (sse_event_json-HasNumbers args maps e)
          (sse_event_json-IsUtf8 args maps e h))
      ∙ ap (λ vs. event_read e ∷ vs) (parse_events es hs)

  read_body-frames :
      (es : List SseEvent)
      → All IsText es
      → read_body (body_bytes args (map Item.frame es)) ≡ map event_read es
  read_body-frames es h =
      ap read_body (body_bytes-stream_bytes es)
      ∙ ap (map (λ (t, j). (t, parse j))) (read_events-stream_bytes json es (events-OneLine es))
      ∙ parse_events es h

  -- A client that reads the stream to its end gets the events of the bridge's chunks, in order, and one
  -- last event, which is done if the stream ended and error if it broke, each with its type and its
  -- document: no text of the model breaks a frame. The strings of the events are UTF-8, the response
  -- can be flushed, nothing was written or sent before, and every frame can be encoded.
  pub ask_stream-read_body :
      {lib : RateLibrary} (cfg : Config) (r : Request) (req : AskRequest) (caller : Bytes)
      (up : Upstream) (bridge_req : ChatRequest) (chunks : List ChatStreamChunk)
      (end : Option UpstreamError) (w : World lib)
      → ((e : SseEvent) → cfg.encodes (Item.frame e) ≡ true)
      → r.can_flush ≡ true
      → up.chat_stream bridge_req ≡ ok (chunks, end)
      → IsFresh w.writer
      → w.writer.inner.items ≡ []
      → let p = progress_all w.audit.log_query chunks (no_progress bridge_req) in
        let events = events_of_all chunks ++ last_event r end p ∷ [] in
        All IsText events
        → read_body
            (body_bytes args (ask_stream cfg r req caller up bridge_req w).writer.inner.items)
          ≡ map event_read events
  ask_stream-read_body cfg r req caller up bridge_req chunks end w encodes flushes opens fresh empty
        valid =
      let p = progress_all w.audit.log_query chunks (no_progress bridge_req) in
      let events = events_of_all chunks ++ last_event r end p ∷ [] in
      let served =
        ask_stream-Served cfg encodes r req caller up bridge_req chunks end w flushes opens fresh in
      ap (λ is. read_body (body_bytes args is))
        (served.1 ∙ ap (λ is. is ++ map Item.frame events) empty)
      ∙ read_body-frames events valid
