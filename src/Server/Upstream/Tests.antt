-- ===== src/Server/Upstream/Tests.antt =====
-- Tests of the client behind the handlers: a stream of two lines, and a redirect.
use opencost_ai.Prelude.{◌≡◌, refl, true, false, [], ◌∷◌, ◌++◌, map, none, some, ok, err, arith}
use opencost_ai.Prelude.Int.{pos}
use opencost_ai.Text.{text}
use opencost_ai.Audit.{log}
use opencost_ai.Bridge.Client.{Client, response}
use opencost_ai.Bridge.Stream.{Body, reader_size}
use opencost_ai.Bridge.Stream.Lines.{lines}
use opencost_ai.Server.Writer.{Item}
use opencost_ai.Server.Writer.Sync.{sent_status}
use opencost_ai.Server.World.{chat_stream_call}
use opencost_ai.Server.Fixtures.{config, request, request_of, chunk_of, world}
use opencost_ai.Server.Streaming.{no_progress, ask_stream}
use opencost_ai.Server.Streaming.Transcript.{events_of_all, progress_all, last_event, audited}
use opencost_ai.Server.Ask.{ask_once, bridge_request}
use opencost_ai.Server.Upstream.{Link, ended, upstream_of}
use opencost_ai.Server.Upstream.Streamed.{Streams, chunks_of, ask_stream-chunks_of}
use opencost_ai.Server.Upstream.Once.{Asks, status_of, ask_once-status_of}

abbrev client : Client
client = record {
  base_url = record { scheme = text "http"; host = text "bridge"; path = [] };
  hc = record { timeout = pos 5; transport = none; refuses_redirects = true };
  stream_hc = record { timeout = pos 0; transport = none; refuses_redirects = true };
  ua = [];
}

abbrev body : Body
body = record { remaining = b'a' ∷ b'\n' ∷ b'b' ∷ []; failure = none; at_once = true }

abbrev link : Link
link = record {
  http = record { build_error = λ q. none; send = λ q. response 307 [] };
  stream_http = record { build_error = λ q. none; send = λ q. response 200 body };
  encode = λ req. ok [];
  decode_chat = λ s. err [];
  decode_tags = λ s. ok [];
  decode_chunk = λ s. ok (chunk_of s [] false);
}

streams : Streams client link (bridge_request config (request_of [])) body
unfolding lines reader_size
streams = record {
  buf = [];
  encoded = refl;
  built = refl;
  status = 200;
  replied = refl;
  success = refl;
  quiet = refl;
  fits = omega arith;
}

ask_stream-chunks_of_example :
    let bridge_req = bridge_request config (request_of []) in
    let w' =
      ask_stream config request (request_of []) [] (upstream_of client link) bridge_req world in
    let chunks = (chunks_of link body).0 in
    let end = ended (chunks_of link body).1 in
    let p = progress_all false chunks (no_progress bridge_req) in
    (sent_status w'.writer.inner ≡ some 200)
    × (w'.writer.inner.items
        ≡ map Item.frame (events_of_all chunks ++ last_event request end p ∷ []))
    × (w'.audit ≡ (log 5 true (audited request (request_of []) [] end p) world.audit).1)
    × (w'.calls ≡ chat_stream_call bridge_req ∷ [])
ask_stream-chunks_of_example =
    ask_stream-chunks_of config request (request_of []) [] client link
      (bridge_request config (request_of [])) body world (λ e. refl) refl streams (refl, refl)

asks : Asks client link (bridge_request config (request_of [])) (response 307 [])
asks = record { buf = []; encoded = refl; built = refl; replied = refl }

ask_once-status_of_example :
    sent_status
      (ask_once config (upstream_of client link) request (request_of []) [] world).writer.inner
    ≡ some (status_of link.decode_chat (response 307 []))
ask_once-status_of_example =
    ask_once-status_of config request (request_of []) [] client link (response 307 []) world
      (λ i. refl) asks (refl, refl)
