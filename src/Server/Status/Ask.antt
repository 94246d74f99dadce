-- ===== src/Server/Status/Ask.antt =====
-- Every request to /v1/ask that the handler serves is answered.
use opencost_ai.Prelude.{
  ◌∙◌, Bool, true, false, not, List, [], ◌∷◌, Option, none, some, inl, inr, Result-cases,
  if◌then◌else◌,
}
use opencost_ai.Text.{Bytes}
use opencost_ai.RateLimit.{RateLibrary}
use opencost_ai.Bridge.Types.{ChatRequest, ChatStreamChunk}
use opencost_ai.Api.{AskRequest, done}
use opencost_ai.Server.Writer.{Item}
use opencost_ai.Server.World.{
  Config, Request, World, Upstream, UpstreamError, respond, call, log_audit, chat_stream_call,
  chat_call,
}
use opencost_ai.Server.Problem.{problem_title_for}
use opencost_ai.Server.Problem.Laws.{IsFresh}
use opencost_ai.Server.Observe.{observe_tokens, record_upstream_error, to_api_tool_calls}
use opencost_ai.Server.Observe.Effects.{observe_tokens-Observed, observe_tool_calls-Observed}
use opencost_ai.Server.Streaming.{
  Progress, events_of, progress, no_progress, done_of, error_of, write_sse, write_frames,
  open_stream, finish_stream, fail_stream, serve_chunks, ask_stream,
}
use opencost_ai.Server.Ask.{bridge_request, response_of, ask_once, ask_granted, ask_limited, ask}
use opencost_ai.Server.Ask.Cases.{
  caller_of, asked, Outcome, rejected, limited, granted, ask-Outcome,
}
use opencost_ai.Server.Status.{
  IsAnswered, write_problem-IsAnswered, map_bridge_error-IsAnswered, write_json-IsAnswered,
  write_sse-IsAnswered, write_frames-IsAnswered, open_stream-IsAnswered,
}

module _ {lib : RateLibrary} (cfg : Config) (r : Request) where
  serve_chunks-IsAnswered :
      (req : AskRequest) (caller : Bytes) (capture : Bool) (chunks : List ChatStreamChunk)
      (end : Option UpstreamError) (p : Progress) (w : World lib)
      → IsAnswered w.writer
      → IsAnswered (serve_chunks cfg r req caller capture chunks end p w).writer
  unfolding serve_chunks finish_stream fail_stream log_audit record_upstream_error
  serve_chunks-IsAnswered req caller capture [] none p w h =
      let w1 = respond (write_sse cfg (done (done_of r p))) w in
      let w2 = observe_tokens p.final_model p.prompt_tokens p.completion_tokens w1 in
      rw
        ((observe_tool_calls-Observed p.tools w2).writer
          ∙ (observe_tokens-Observed p.final_model p.prompt_tokens p.completion_tokens w1).writer)
        (write_sse-IsAnswered cfg (done (done_of r p)) w.writer h)
  serve_chunks-IsAnswered req caller capture [] (some e) p w h =
      write_sse-IsAnswered cfg (error_of r e) w.writer h
  serve_chunks-IsAnswered req caller capture (c ∷ cs) end p w h =
      serve_chunks-IsAnswered req caller capture cs end (progress capture c p)
        (respond (write_frames cfg (events_of c)) w)
        (write_frames-IsAnswered cfg (events_of c) w.writer h)

  branch_world-IsAnswered :
      (b : Bool) (w w' : World lib)
      → IsAnswered w.writer
      → IsAnswered w'.writer
      → IsAnswered (if b then w else w').writer
  branch_world-IsAnswered true w w' h k = h
  branch_world-IsAnswered false w w' h k = k

  ask_stream-IsAnswered :
      (req : AskRequest) (caller : Bytes) (up : Upstream) (bridge_req : ChatRequest) (w : World lib)
      → IsFresh w.writer
      → IsAnswered (ask_stream cfg r req caller up bridge_req w).writer
  unfolding ask_stream log_audit record_upstream_error
  ask_stream-IsAnswered req caller up bridge_req w fresh =
      branch_world-IsAnswered (not r.can_flush) _ _
        (write_problem-IsAnswered cfg r 500 _ _ w.writer fresh)
        (elim (Result-cases (up.chat_stream bridge_req)) [
          | inl ((chunks, end), e) ↦ rw e (
              serve_chunks-IsAnswered req caller w.audit.log_query chunks end
                (no_progress bridge_req)
                (respond open_stream (call (chat_stream_call bridge_req) w))
                (open_stream-IsAnswered w.writer fresh))
          | inr (failure, e) ↦ rw e (map_bridge_error-IsAnswered cfg r failure w.writer fresh)
        ])

  ask_once-IsAnswered :
      (up : Upstream) (req : AskRequest) (caller : Bytes) (w : World lib)
      → IsFresh w.writer
      → IsAnswered (ask_once cfg up r req caller w).writer
  unfolding ask_once log_audit record_upstream_error
  ask_once-IsAnswered up req caller w fresh =
      elim (Result-cases (up.chat (bridge_request cfg req))) [
        | inl (resp, e) ↦
            let w1 = call (chat_call (bridge_request cfg req)) w in
            let w2 = observe_tokens resp.model resp.prompt_eval_count resp.eval_count w1 in
            rw (ask_once, e)
              (write_json-IsAnswered cfg r 200 (Item.answer (response_of r req resp)) _ (
                rw
                  ((observe_tool_calls-Observed (to_api_tool_calls resp.message.tool_calls)
                      w2).writer
                    ∙ (observe_tokens-Observed resp.model resp.prompt_eval_count resp.eval_count
                        w1).writer)
                  fresh))
        | inr (failure, e) ↦
            rw (ask_once, e) (map_bridge_error-IsAnswered cfg r failure w.writer fresh)
      ]

  outcome-IsAnswered :
      (up : Upstream) (w w' : World lib)
      → IsFresh w.writer
      → Outcome cfg up r w w'
      → IsAnswered w'.writer
  unfolding ask_limited ask_granted log_audit
  outcome-IsAnswered up w w' fresh (rejected status detail _) =
      write_problem-IsAnswered cfg r status (problem_title_for status) detail w.writer fresh
  outcome-IsAnswered up w w' fresh (limited req _ _) =
      write_problem-IsAnswered cfg r 429 (problem_title_for 429) _ w.writer fresh
  outcome-IsAnswered up w w' fresh (granted req _ _) =
      branch_world-IsAnswered req.stream _ _
        (ask_stream-IsAnswered req (caller_of cfg r) up (bridge_request cfg req) (asked cfg up r w)
          fresh)
        (ask_once-IsAnswered up req (caller_of cfg r) (asked cfg up r w) fresh)

  pub ask-IsAnswered :
      (up : Upstream) (w : World lib) → IsFresh w.writer → IsAnswered (ask cfg up r w).writer
  ask-IsAnswered up w fresh =
      outcome-IsAnswered up w (ask cfg up r w) fresh (ask-Outcome cfg up r w)
