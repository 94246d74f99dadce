-- ===== src/Server/Upstream/Streamed.antt =====
-- From the bytes that the bridge streams to the frames that the client is sent.
use opencost_ai.Prelude.{
  ℕ, suc, ◌≡◌, ap, true, List, [], ◌∷◌, ◌++◌, map, Option, none, some, ok, length, arith,
}
use opencost_ai.Text.{Bytes}
use opencost_ai.RateLimit.{RateLibrary}
use opencost_ai.Api.{AskRequest}
use opencost_ai.Audit.{log}
use opencost_ai.Bridge.Types.{ChatRequest, ChatStreamChunk}
use opencost_ai.Bridge.Client.{Client, response, is_success, stream_request, chat_stream}
use opencost_ai.Bridge.Stream.{Body, StreamError, reader_size, new_chat_stream}
use opencost_ai.Bridge.Stream.Lines.{lines, frames}
use opencost_ai.Bridge.Stream.Frames.{decode_all, Fits, read_all-frames}
use opencost_ai.Server.Writer.{Item}
use opencost_ai.Server.Writer.Sync.{sent_status}
use opencost_ai.Server.World.{Config, Request, World, chat_stream_call}
use opencost_ai.Server.Problem.Laws.{IsFresh}
use opencost_ai.Server.Streaming.{no_progress, ask_stream}
use opencost_ai.Server.Streaming.Frames.{Encodes}
use opencost_ai.Server.Streaming.Transcript.{
  events_of_all, progress_all, last_event, audited, ask_stream-Served,
}
use opencost_ai.Server.Upstream.{Link, ended, collected, upstream_of}

-- The bridge takes the request and answers with a stream that ends and whose lines all fit.
pub record Streams (c : Client) (link : Link) (req : ChatRequest) (body : Body) : Type 0 where
  pub buf : Bytes
  pub encoded : link.encode (record req { stream = true }) ≡ ok buf
  pub built : link.stream_http.build_error (stream_request c buf) ≡ none
  pub status : ℕ
  pub replied : link.stream_http.send (stream_request c buf) ≡ response status body
  pub success : is_success status ≡ true
  pub quiet : body.failure ≡ none
  pub fits : Fits link.decode_chunk reader_size body.remaining

-- The chunks of the frames of the body, and the error of the first that cannot be decoded.
abbrev pub chunks_of : Link → Body → List ChatStreamChunk × Option StreamError
chunks_of link body = decode_all link.decode_chunk reader_size (frames (lines body.remaining))

upstream_of-chat_stream :
    (c : Client) (link : Link) (req : ChatRequest) (body : Body)
    → Streams c link req body
    → (upstream_of c link).chat_stream req
      ≡ ok ((chunks_of link body).0, ended (chunks_of link body).1)
unfolding upstream_of chat_stream new_chat_stream
upstream_of-chat_stream c link req body h =
    let all =
      read_all-frames link.decode_chunk reader_size (suc (length body.remaining)) body (omega arith)
        h.quiet h.fits in
    rw (chat_stream, h.encoded, h.built, h.replied, h.success) (ap (λ r. ok (collected r)) all)

-- A streamed answer from end to end: where the bridge takes the request and streams a body that ends
-- and whose lines all fit, the client is sent status 200 and the frames of the chunks that the body's
-- lines hold, in order, up to the first that cannot be decoded, and one last frame, which is `done` if
-- all can and `error` if not. The audit log gets the event of that end. The response can be flushed,
-- nothing was sent before, and every frame can be encoded.
pub ask_stream-chunks_of :
    {lib : RateLibrary} (cfg : Config) (r : Request) (req : AskRequest) (caller : Bytes)
    (c : Client) (link : Link) (bridge_req : ChatRequest) (body : Body) (w : World lib)
    → Encodes cfg
    → r.can_flush ≡ true
    → Streams c link bridge_req body
    → IsFresh w.writer
    → let w' = ask_stream cfg r req caller (upstream_of c link) bridge_req w in
      let chunks = (chunks_of link body).0 in
      let end = ended (chunks_of link body).1 in
      let p = progress_all w.audit.log_query chunks (no_progress bridge_req) in
      (sent_status w'.writer.inner ≡ some 200)
      × (w'.writer.inner.items
          ≡ w.writer.inner.items
            ++ map Item.frame (events_of_all chunks ++ last_event r end p ∷ []))
      × (w'.audit ≡ (log r.now r.sink_works (audited r req caller end p) w.audit).1)
      × (w'.calls ≡ w.calls ++ chat_stream_call bridge_req ∷ [])
ask_stream-chunks_of cfg r req caller c link bridge_req body w encodes can_flush streams fresh =
    ask_stream-Served cfg encodes r req caller (upstream_of c link) bridge_req
      (chunks_of link body).0 (ended (chunks_of link body).1) w can_flush
      (upstream_of-chat_stream c link bridge_req body streams) fresh
