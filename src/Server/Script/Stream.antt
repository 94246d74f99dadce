-- ===== src/Server/Script/Stream.antt =====
-- The handler of a stream, internal/server/stream.go, as steps.
use opencost_ai.Prelude.{
  refl, ap, Bool, not, List, [], ◌∷◌, Option, none, some, ok, err, Result-cases, inl, inr,
}
use opencost_ai.Prelude.Int.{ℤ}
use opencost_ai.Text.{Bytes, text}
use opencost_ai.RateLimit.{RateLibrary}
use opencost_ai.Bridge.Types.{ChatRequest, ChatStreamChunk}
use opencost_ai.Api.{AskRequest, done}
use opencost_ai.Server.World.{
  Config, Request, World, Upstream, UpstreamError, chat_stream_call, call, respond, log_audit,
}
use opencost_ai.Server.Problem.{write_problem, map_bridge_error, problem_title_for}
use opencost_ai.Server.Observe.{observe_tool_calls, record_upstream_error}
use opencost_ai.Server.Streaming.{
  Progress, events_of, progress, no_progress, done_of, error_of, success_event, failure_event,
  write_sse, write_frames, open_stream, finish_stream, fail_stream, serve_chunks, ask_stream,
}
use opencost_ai.Server.Script.Plain.{
  Plain, respond-Plain, call-Plain, log_audit-Plain, then-Plain, branch-Plain, same-Plain,
  observe_tokens-Plain, observe_tool_calls-Plain, record_upstream_error-Plain,
}

module _ {lib : RateLibrary} where
  -- The branch of a stream whose response can be flushed
  abbrev opened :
      Config → Request → AskRequest → Bytes → Upstream → ChatRequest → World lib → World lib
  opened cfg r req caller up b w =
      let w' = call (chat_stream_call b) w in
      elim (up.chat_stream b) [
        | err e ↦
            log_audit r (failure_event r req caller b.model e)
              (respond (map_bridge_error cfg r e) (record_upstream_error (text "chat_stream") e w'))
        | ok (chunks, end) ↦
            serve_chunks cfg r req caller w.audit.log_query chunks end (no_progress b)
              (respond open_stream w')
      ]

module _ {lib : RateLibrary} {flag : Bool} {limit : ℤ} (cfg : Config) (r : Request) where
  module _ (req : AskRequest) (caller : Bytes) where
    fail_stream-Plain :
        (e : UpstreamError) (p : Progress)
        → Plain {lib = lib} flag limit (fail_stream cfg r req caller e p)
    unfolding fail_stream log_audit-Plain record_upstream_error-Plain respond-Plain then-Plain
    fail_stream-Plain e p =
        then-Plain _ (log_audit r (failure_event r req caller p.final_model e))
          (then-Plain (record_upstream_error (text "chat_stream") e) _
            (record_upstream_error-Plain (text "chat_stream") e)
            (respond-Plain (write_sse cfg (error_of r e))))
          (log_audit-Plain r (failure_event r req caller p.final_model e))

    finish_stream-Plain :
        (p : Progress) → Plain {lib = lib} flag limit (finish_stream cfg r req caller p)
    unfolding finish_stream log_audit-Plain observe_tokens-Plain observe_tool_calls-Plain
        respond-Plain then-Plain
    finish_stream-Plain p =
        then-Plain _ (log_audit r (success_event r req caller p))
          (then-Plain _ (observe_tool_calls p.tools)
            (then-Plain (respond (write_sse cfg (done (done_of r p)))) _
              (respond-Plain (write_sse cfg (done (done_of r p))))
              (observe_tokens-Plain p.final_model p.prompt_tokens p.completion_tokens))
            (observe_tool_calls-Plain p.tools))
          (log_audit-Plain r (success_event r req caller p))

    serve_chunks-Plain :
        (capture : Bool) (chunks : List ChatStreamChunk) (end : Option UpstreamError) (p : Progress)
        → Plain {lib = lib} flag limit (serve_chunks cfg r req caller capture chunks end p)
    unfolding serve_chunks fail_stream-Plain finish_stream-Plain respond-Plain then-Plain
    serve_chunks-Plain capture [] none p = finish_stream-Plain p
    serve_chunks-Plain capture [] (some e) p = fail_stream-Plain e p
    serve_chunks-Plain capture (c ∷ cs) end p =
        then-Plain (respond (write_frames cfg (events_of c))) _
          (respond-Plain (write_frames cfg (events_of c)))
          (serve_chunks-Plain capture cs end (progress capture c p))

    opened-Plain :
        (up : Upstream) (b : ChatRequest)
        → Plain {lib = lib} flag limit (opened cfg r req caller up b)
    unfolding Result-cases call-Plain log_audit-Plain record_upstream_error-Plain respond-Plain
        same-Plain serve_chunks-Plain then-Plain
    opened-Plain up b = elim (Result-cases (up.chat_stream b)) [
      | inr (e, g) ↦
          same-Plain (opened cfg r req caller up b) _ (λ w h. rw (opened, g) refl)
            (then-Plain (call (chat_stream_call b)) _ (call-Plain (chat_stream_call b)) (
              then-Plain (record_upstream_error (text "chat_stream") e) _
                (record_upstream_error-Plain (text "chat_stream") e)
                (then-Plain (respond (map_bridge_error cfg r e)) _
                  (respond-Plain (map_bridge_error cfg r e))
                  (log_audit-Plain r (failure_event r req caller b.model e)))))
      | inl ((chunks, end), g) ↦
          same-Plain (opened cfg r req caller up b) _
            (λ w h.
              rw (opened, g)
                (ap
                  (λ capture.
                    serve_chunks cfg r req caller capture chunks end (no_progress b)
                      (respond open_stream (call (chat_stream_call b) w)))
                  h.log_query))
            (then-Plain (call (chat_stream_call b)) _ (call-Plain (chat_stream_call b)) (
              then-Plain (respond open_stream) _ (respond-Plain open_stream)
                (serve_chunks-Plain flag chunks end (no_progress b))))
    ]

    unfoldable pub ask_stream-Plain :
        (up : Upstream) (b : ChatRequest)
        → Plain {lib = lib} flag limit (ask_stream cfg r req caller up b)
    unfolding ask_stream branch-Plain opened-Plain respond-Plain
    ask_stream-Plain up b =
        branch-Plain (not r.can_flush) _ (opened cfg r req caller up b)
          (respond-Plain (
            write_problem cfg r 500 (problem_title_for 500)
              (text "streaming is not supported by the response writer")))
          (opened-Plain up b)
