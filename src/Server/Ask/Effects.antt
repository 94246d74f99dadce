-- ===== src/Server/Ask/Effects.antt =====
-- What a request to /v1/ask does besides its response: the calls of the bridge and the audit log.
use opencost_ai.Prelude.{
  ◌≡◌, refl, sym, ap, ◌∙◌, Bool, true, false, not, List, [], ◌∷◌, ◌++◌, append-nil, Option, none,
  some, Result-cases, ◌⊎◌, inl, inr, if◌then◌else◌,
}
use opencost_ai.Text.{Bytes}
use opencost_ai.RateLimit.{RateLibrary}
use opencost_ai.Bridge.Types.{ChatRequest, ChatStreamChunk}
use opencost_ai.Api.{AskRequest, done}
use opencost_ai.Audit.{Event, log}
use opencost_ai.Server.World.{
  Config, Request, World, Upstream, UpstreamError, Call, chat_call, chat_stream_call, respond, call,
  log_audit,
}
use opencost_ai.Server.Observe.{observe_tokens, record_upstream_error, to_api_tool_calls}
use opencost_ai.Server.Observe.Effects.{observe_tokens-Observed, observe_tool_calls-Observed}
use opencost_ai.Server.Streaming.{
  Progress, events_of, progress, no_progress, done_of, success_event, failure_event, write_sse,
  write_frames, open_stream, finish_stream, fail_stream, serve_chunks, ask_stream,
}
use opencost_ai.Server.Ask.{bridge_request, answered_event, ask_once}

module _ {lib : RateLibrary} (cfg : Config) (r : Request) where
  -- At most one event was logged, with the request's ID and the caller's identity.
  abbrev pub LogsAtMost : Bytes → World lib → World lib → Type 0
  LogsAtMost caller w w' =
      (w'.audit ≡ w.audit)
      ⊎ ((e : Event) × (e.request_id ≡ r.request_id)
          × (e.caller_identity ≡ caller)
          × (w'.audit ≡ (log r.now r.sink_works e w.audit).1))

  -- These calls were made, and at most one audit event was logged.
  pub record Effect (caller : Bytes) (calls : List Call) (w w' : World lib) : Type 0 where
    pub called : w'.calls ≡ w.calls ++ calls
    pub logged : LogsAtMost caller w w'

  serve_chunks-Effect :
      (req : AskRequest) (caller : Bytes) (capture : Bool) (chunks : List ChatStreamChunk)
      (end : Option UpstreamError) (p : Progress) (w : World lib)
      → Effect caller [] w (serve_chunks cfg r req caller capture chunks end p w)
  unfolding success_event failure_event serve_chunks finish_stream fail_stream log_audit
      record_upstream_error
  serve_chunks-Effect req caller capture [] none p w =
      let w1 = respond (write_sse cfg (done (done_of r p))) w in
      let w2 = observe_tokens p.final_model p.prompt_tokens p.completion_tokens w1 in
      let tokens = observe_tokens-Observed p.final_model p.prompt_tokens p.completion_tokens w1 in
      let calls = observe_tool_calls-Observed p.tools w2 in
      record {
        called = calls.calls ∙ tokens.calls ∙ sym (append-nil w.calls);
        logged = inr (
          success_event r req caller p,
          refl,
          refl,
          ap (λ a. (log r.now r.sink_works (success_event r req caller p) a).1)
              (calls.audit ∙ tokens.audit),
        );
      }
  serve_chunks-Effect req caller capture [] (some e) p w = record {
    called = sym (append-nil w.calls);
    logged = inr (failure_event r req caller p.final_model e, refl, refl, refl);
  }
  serve_chunks-Effect req caller capture (c ∷ cs) end p w =
      let rest =
        serve_chunks-Effect req caller capture cs end (progress capture c p)
          (respond (write_frames cfg (events_of c)) w) in
      record { called = rest.called; logged = rest.logged }

  -- A call of the bridge, unless there is none.
  abbrev pub CallsAtMost : Bytes → Call → World lib → World lib → Type 0
  CallsAtMost caller c w w' = Effect caller [] w w' ⊎ Effect caller (c ∷ []) w w'

  branch-CallsAtMost :
      (caller : Bytes) (c : Call) (b : Bool) (w u v : World lib)
      → Effect caller [] w u
      → Effect caller (c ∷ []) w v
      → CallsAtMost caller c w (if b then u else v)
  branch-CallsAtMost caller c true w u v h k = inl h
  branch-CallsAtMost caller c false w u v h k = inr k

  pub ask_stream-CallsAtMost :
      (req : AskRequest) (caller : Bytes) (up : Upstream) (b : ChatRequest) (w : World lib)
      → CallsAtMost caller (chat_stream_call b) w (ask_stream cfg r req caller up b w)
  unfolding failure_event ask_stream log_audit record_upstream_error
  ask_stream-CallsAtMost req caller up b w =
      branch-CallsAtMost caller (chat_stream_call b) (not r.can_flush) w _ _
        (record { called = sym (append-nil w.calls); logged = inl refl })
        (elim (Result-cases (up.chat_stream b)) [
          | inl ((chunks, end), e) ↦
              let h =
                serve_chunks-Effect req caller w.audit.log_query chunks end (no_progress b)
                  (respond open_stream (call (chat_stream_call b) w)) in
              rw e (record {
                called = h.called ∙ append-nil (w.calls ++ chat_stream_call b ∷ []);
                logged = h.logged;
              })
          | inr (failure, e) ↦ rw e (record {
            called = refl;
            logged = inr (failure_event r req caller b.model failure, refl, refl, refl);
          })
        ])

  pub ask_once-Effect :
      (up : Upstream) (req : AskRequest) (caller : Bytes) (w : World lib)
      → Effect caller (chat_call (bridge_request cfg req) ∷ []) w (ask_once cfg up r req caller w)
  unfolding answered_event ask_once log_audit record_upstream_error
  ask_once-Effect up req caller w = elim (Result-cases (up.chat (bridge_request cfg req))) [
    | inl (resp, e) ↦
        let w1 = call (chat_call (bridge_request cfg req)) w in
        let w2 = observe_tokens resp.model resp.prompt_eval_count resp.eval_count w1 in
        let tokens = observe_tokens-Observed resp.model resp.prompt_eval_count resp.eval_count w1 in
        let calls = observe_tool_calls-Observed (to_api_tool_calls resp.message.tool_calls) w2 in
        rw (ask_once, e)
          (record {
            called = calls.calls ∙ tokens.calls;
            logged = inr (
              answered_event r req caller resp,
              refl,
              refl,
              ap (λ a. (log r.now r.sink_works (answered_event r req caller resp) a).1)
                  (calls.audit ∙ tokens.audit),
            );
          })
    | inr (failure, e) ↦ rw (ask_once, e) (record { called = refl; logged = inl refl })
  ]
