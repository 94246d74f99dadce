-- ===== src/Server/Correlated/Ask.antt =====
-- The X-Request-ID header of the answers to /v1/ask.
use opencost_ai.Prelude.{
  ◌∙◌, Bool, true, false, not, List, [], ◌∷◌, Option, none, some, inl, inr, Result-cases,
  if◌then◌else◌,
}
use opencost_ai.Text.{Bytes}
use opencost_ai.RateLimit.{RateLibrary}
use opencost_ai.Bridge.Types.{ChatRequest, ChatStreamChunk}
use opencost_ai.Api.{AskRequest, done}
use opencost_ai.Server.Writer.{Item}
use opencost_ai.Server.World.{
  Config, Request, World, Upstream, UpstreamError, respond, call, log_audit, chat_stream_call,
  chat_call,
}
use opencost_ai.Server.Problem.{problem_title_for}
use opencost_ai.Server.Observe.{observe_tokens, record_upstream_error, to_api_tool_calls}
use opencost_ai.Server.Observe.Effects.{observe_tokens-Observed, observe_tool_calls-Observed}
use opencost_ai.Server.Streaming.{
  Progress, events_of, progress, no_progress, done_of, error_of, write_sse, write_frames,
  open_stream, finish_stream, fail_stream, serve_chunks, ask_stream,
}
use opencost_ai.Server.Ask.{bridge_request, response_of, ask_once, ask_granted, ask_limited, ask}
use opencost_ai.Server.Ask.Cases.{
  caller_of, asked, Outcome, rejected, limited, granted, ask-Outcome,
}
use opencost_ai.Server.Correlated.{
  IsEchoed, write_problem-IsEchoed, map_bridge_error-IsEchoed, write_json-IsEchoed,
  write_sse-IsEchoed, write_frames-IsEchoed, open_stream-IsEchoed,
}

module _ {lib : RateLibrary} (cfg : Config) (r : Request) where
  serve_chunks-IsEchoed :
      (req : AskRequest) (caller : Bytes) (capture : Bool) (chunks : List ChatStreamChunk)
      (end : Option UpstreamError) (p : Progress) (w : World lib)
      → IsEchoed r.request_id w.writer
      → IsEchoed r.request_id (serve_chunks cfg r req caller capture chunks end p w).writer
  unfolding serve_chunks finish_stream fail_stream log_audit record_upstream_error
  serve_chunks-IsEchoed req caller capture [] none p w h =
      let w1 = respond (write_sse cfg (done (done_of r p))) w in
      let w2 = observe_tokens p.final_model p.prompt_tokens p.completion_tokens w1 in
      rw
        ((observe_tool_calls-Observed p.tools w2).writer
          ∙ (observe_tokens-Observed p.final_model p.prompt_tokens p.completion_tokens w1).writer)
        (write_sse-IsEchoed cfg r.request_id (done (done_of r p)) w.writer h)
  serve_chunks-IsEchoed req caller capture [] (some e) p w h =
      write_sse-IsEchoed cfg r.request_id (error_of r e) w.writer h
  serve_chunks-IsEchoed req caller capture (c ∷ cs) end p w h =
      serve_chunks-IsEchoed req caller capture cs end (progress capture c p)
        (respond (write_frames cfg (events_of c)) w)
        (write_frames-IsEchoed cfg r.request_id (events_of c) w.writer h)

  branch_world-IsEchoed :
      (b : Bool) (w w' : World lib)
      → IsEchoed r.request_id w.writer
      → IsEchoed r.request_id w'.writer
      → IsEchoed r.request_id (if b then w else w').writer
  branch_world-IsEchoed true w w' h k = h
  branch_world-IsEchoed false w w' h k = k

  ask_stream-IsEchoed :
      (req : AskRequest) (caller : Bytes) (up : Upstream) (bridge_req : ChatRequest) (w : World lib)
      → IsEchoed r.request_id w.writer
      → IsEchoed r.request_id (ask_stream cfg r req caller up bridge_req w).writer
  unfolding ask_stream log_audit record_upstream_error
  ask_stream-IsEchoed req caller up bridge_req w h =
      branch_world-IsEchoed (not r.can_flush) _ _ (write_problem-IsEchoed cfg r 500 _ _ w.writer h)
        (elim (Result-cases (up.chat_stream bridge_req)) [
          | inl ((chunks, end), e) ↦ rw e (
              serve_chunks-IsEchoed req caller w.audit.log_query chunks end (no_progress bridge_req)
                (respond open_stream (call (chat_stream_call bridge_req) w))
                (open_stream-IsEchoed r.request_id w.writer h))
          | inr (failure, e) ↦ rw e (map_bridge_error-IsEchoed cfg r failure w.writer h)
        ])

  ask_once-IsEchoed :
      (up : Upstream) (req : AskRequest) (caller : Bytes) (w : World lib)
      → IsEchoed r.request_id w.writer
      → IsEchoed r.request_id (ask_once cfg up r req caller w).writer
  unfolding ask_once log_audit record_upstream_error
  ask_once-IsEchoed up req caller w h = elim (Result-cases (up.chat (bridge_request cfg req))) [
    | inl (resp, e) ↦
        let w1 = call (chat_call (bridge_request cfg req)) w in
        let w2 = observe_tokens resp.model resp.prompt_eval_count resp.eval_count w1 in
        rw (ask_once, e)
          (write_json-IsEchoed cfg r 200 (Item.answer (response_of r req resp)) _ (
            rw
              ((observe_tool_calls-Observed (to_api_tool_calls resp.message.tool_calls) w2).writer
                ∙ (observe_tokens-Observed resp.model resp.prompt_eval_count resp.eval_count
                    w1).writer)
              h))
    | inr (failure, e) ↦ rw (ask_once, e) (map_bridge_error-IsEchoed cfg r failure w.writer h)
  ]

  outcome-IsEchoed :
      (up : Upstream) (w w' : World lib)
      → IsEchoed r.request_id w.writer
      → Outcome cfg up r w w'
      → IsEchoed r.request_id w'.writer
  unfolding ask_limited ask_granted log_audit
  outcome-IsEchoed up w w' h (rejected status detail _) =
      write_problem-IsEchoed cfg r status (problem_title_for status) detail w.writer h
  outcome-IsEchoed up w w' h (limited req _ _) =
      write_problem-IsEchoed cfg r 429 (problem_title_for 429) _ w.writer h
  outcome-IsEchoed up w w' h (granted req _ _) =
      branch_world-IsEchoed req.stream _ _
        (ask_stream-IsEchoed req (caller_of cfg r) up (bridge_request cfg req) (asked cfg up r w) h)
        (ask_once-IsEchoed up req (caller_of cfg r) (asked cfg up r w) h)

  pub ask-IsEchoed :
      (up : Upstream) (w : World lib)
      → IsEchoed r.request_id w.writer
      → IsEchoed r.request_id (ask cfg up r w).writer
  ask-IsEchoed up w h = outcome-IsEchoed up w (ask cfg up r w) h (ask-Outcome cfg up r w)
