-- ===== src/Server/Streaming/Transcript.antt =====
-- What a streamed answer puts on the wire and in the audit log.
use opencost_ai.Prelude.{
  ◌≡◌, refl, ap, ◌∙◌, Bool, true, List, [], ◌∷◌, ◌++◌, append_assoc, map, Option, none, some, ok,
}
use opencost_ai.Text.{Bytes}
use opencost_ai.RateLimit.{RateLibrary}
use opencost_ai.Bridge.Types.{ChatRequest, ChatStreamChunk}
use opencost_ai.Api.{AskRequest, SseEvent, done}
use opencost_ai.Audit.{Event, log}
use opencost_ai.Server.Writer.{Item}
use opencost_ai.Server.Writer.Sync.{sent_status}
use opencost_ai.Server.World.{
  Config, Request, World, Upstream, UpstreamError, chat_stream_call, respond, call, log_audit,
}
use opencost_ai.Server.Problem.Laws.{IsFresh}
use opencost_ai.Server.Observe.{observe_tokens, observe_tool_calls, record_upstream_error}
use opencost_ai.Server.Observe.Effects.{
  Observed-trans, observe_tokens-Observed, observe_tool_calls-Observed,
}
use opencost_ai.Server.Streaming.{
  Progress, events_of, progress, no_progress, done_of, error_of, success_event, failure_event,
  write_sse, write_frames, open_stream, finish_stream, fail_stream, serve_chunks, ask_stream,
}
use opencost_ai.Server.Streaming.Frames.{
  IsOpen, Encodes, Wrote, open_stream-IsOpen, write_sse-Wrote, write_frames-Wrote, Wrote-join,
}

-- The frames of all chunks, and the variables behind them.
abbrev pub events_of_all : List ChatStreamChunk → List SseEvent
events_of_all [] = []
events_of_all (c ∷ cs) = events_of c ++ events_of_all cs

abbrev pub progress_all : Bool → List ChatStreamChunk → Progress → Progress
progress_all capture [] p = p
progress_all capture (c ∷ cs) p = progress_all capture cs (progress capture c p)

-- The last frame, and the audit event.
abbrev pub last_event : Request → Option UpstreamError → Progress → SseEvent
last_event r none p = done (done_of r p)
last_event r (some e) p = error_of r e

abbrev pub audited :
    Request → AskRequest → (caller : Bytes) → Option UpstreamError → Progress → Event
audited r req caller none p = success_event r req caller p
audited r req caller (some e) p = failure_event r req caller p.final_model e

-- What a stream has done, from the start of its loop.
module _ {lib : RateLibrary} (r : Request) (req : AskRequest) (caller : Bytes) where
  pub record Served (events : List SseEvent) (end : Option UpstreamError) (p : Progress)
      (w w' : World lib) : Type 0 where
    pub wrote : Wrote (map Item.frame (events ++ last_event r end p ∷ [])) w.writer w'.writer
    pub logged : w'.audit ≡ (log r.now r.sink_works (audited r req caller end p) w.audit).1
    pub calls : w'.calls ≡ w.calls
    pub limiter : w'.limiter ≡ w.limiter

module _ {lib : RateLibrary} (cfg : Config) (encodes : Encodes cfg) (r : Request) (req : AskRequest)
    (caller : Bytes) where
  finish_stream-Served :
      (p : Progress) (w : World lib)
      → IsOpen w.writer
      → Served r req caller [] none p w (finish_stream cfg r req caller p w)
  unfolding finish_stream log_audit
  finish_stream-Served p w h =
      let w1 = respond (write_sse cfg (done (done_of r p))) w in
      let w2 = observe_tokens p.final_model p.prompt_tokens p.completion_tokens w1 in
      let seen =
        Observed-trans w1 w2 (observe_tool_calls p.tools w2)
          (observe_tokens-Observed p.final_model p.prompt_tokens p.completion_tokens w1)
          (observe_tool_calls-Observed p.tools w2) in
      record {
        wrote = rw seen.writer (write_sse-Wrote cfg (done (done_of r p)) w.writer encodes h);
        logged = ap (λ a. (log r.now r.sink_works (success_event r req caller p) a).1) seen.audit;
        calls = seen.calls;
        limiter = seen.limiter;
      }

  fail_stream-Served :
      (e : UpstreamError) (p : Progress) (w : World lib)
      → IsOpen w.writer
      → Served r req caller [] (some e) p w (fail_stream cfg r req caller e p w)
  unfolding fail_stream log_audit record_upstream_error
  fail_stream-Served e p w h = record {
    wrote = write_sse-Wrote cfg (error_of r e) w.writer encodes h;
    logged = refl;
    calls = refl;
    limiter = refl;
  }

  serve_chunks-Served :
      (capture : Bool) (chunks : List ChatStreamChunk) (end : Option UpstreamError) (p : Progress)
      (w : World lib)
      → IsOpen w.writer
      → Served r req caller
          (events_of_all chunks)
          end
          (progress_all capture chunks p)
          w
          (serve_chunks cfg r req caller capture chunks end p w)
  unfolding serve_chunks
  serve_chunks-Served capture [] none p w h = finish_stream-Served p w h
  serve_chunks-Served capture [] (some e) p w h = fail_stream-Served e p w h
  serve_chunks-Served capture (c ∷ cs) end p w h =
      let es = events_of c in
      let wrote = write_frames-Wrote cfg es w.writer encodes h in
      let rest =
        serve_chunks-Served capture cs end (progress capture c p) (respond (write_frames cfg es) w)
          wrote.0 in
      record {
        wrote =
            rw
              (append_assoc es (events_of_all cs)
                (last_event r end (progress_all capture cs (progress capture c p)) ∷ []))
              (Wrote-join es
                (events_of_all cs
                  ++ last_event r end (progress_all capture cs (progress capture c p)) ∷ [])
                w.writer (write_frames cfg es w.writer) _ wrote rest.wrote);
        logged = rest.logged;
        calls = rest.calls;
        limiter = rest.limiter;
      }

  -- A stream that the bridge opens: the response is sent with status 200, its frames are those of
  -- the chunks, in order, and one last frame, which is `done` if the stream ends and `error` if it
  -- breaks; one audit event is logged, and the bridge was called once. The response can be flushed,
  -- nothing was sent before, and every frame can be encoded.
  pub ask_stream-Served :
      (up : Upstream) (bridge_req : ChatRequest) (chunks : List ChatStreamChunk)
      (end : Option UpstreamError) (w : World lib)
      → r.can_flush ≡ true
      → up.chat_stream bridge_req ≡ ok (chunks, end)
      → IsFresh w.writer
      → let w' = ask_stream cfg r req caller up bridge_req w in
        let p = progress_all w.audit.log_query chunks (no_progress bridge_req) in
        (sent_status w'.writer.inner ≡ some 200)
        × (w'.writer.inner.items
            ≡ w.writer.inner.items
              ++ map Item.frame (events_of_all chunks ++ last_event r end p ∷ []))
        × (w'.audit ≡ (log r.now r.sink_works (audited r req caller end p) w.audit).1)
        × (w'.calls ≡ w.calls ++ chat_stream_call bridge_req ∷ [])
  unfolding ask_stream done_of error_of success_event failure_event
  ask_stream-Served up bridge_req chunks end w can_flush opens fresh =
      let w1 = respond open_stream (call (chat_stream_call bridge_req) w) in
      let (opened, same) = open_stream-IsOpen w.writer fresh in
      let served =
        serve_chunks-Served w.audit.log_query chunks end (no_progress bridge_req) w1 opened in
      rw can_flush (
        rw opens (
          served.wrote.0.on_wire,
          served.wrote.1
              ∙ ap
                  (λ i.
                    i
                    ++ map Item.frame (
                        events_of_all chunks
                        ++ last_event r end
                            (progress_all w.audit.log_query chunks (no_progress bridge_req))
                          ∷ []))
                  same,
          served.logged,
          served.calls,
        ))
