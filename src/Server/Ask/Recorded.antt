-- ===== src/Server/Ask/Recorded.antt =====
-- What a request to /v1/ask records.
use opencost_ai.Prelude.{
  ◌≡◌, refl, Bool, true, false, not, List, [], ◌∷◌, Option, none, some, ok, Result-cases, inl, inr,
  All, if◌then◌else◌, is_nil, Bool-cases,
}
use opencost_ai.Text.{Bytes, text}
use opencost_ai.RateLimit.{RateLibrary}
use opencost_ai.Bridge.Types.{ChatRequest, ChatResponse, ChatStreamChunk}
use opencost_ai.Api.{AskRequest, done}
use opencost_ai.Metrics.{rate_limited}
use opencost_ai.Server.World.{
  Config, Request, World, Upstream, UpstreamError, call, chat_call, chat_stream_call, respond,
  log_audit,
}
use opencost_ai.Server.Validation.{model_or_default}
use opencost_ai.Server.Observe.{to_api_tool_calls}
use opencost_ai.Server.Observe.Recorded.{
  IsUtf8, Recorded, nil-Recorded, Recorded-trans, one-Recorded, observe_tokens-Recorded,
  observe_tool_calls-Recorded, record_upstream_error-Recorded,
}
use opencost_ai.Server.Streaming.{
  Progress, events_of, progress, done_of, write_sse, no_progress, write_frames, open_stream,
  finish_stream, fail_stream, serve_chunks, ask_stream,
}
use opencost_ai.Server.Ask.{bridge_request, ask_once, ask_granted, ask_limited, ask}
use opencost_ai.Server.Ask.Cases.{
  Outcome, rejected, limited, granted, Accepted, caller_of, asked, ask-Outcome,
}

-- The names of models in what encoding/json decodes, and the configured one, are UTF-8.
pub record IsUtf8Traffic (cfg : Config) (up : Upstream) : Type 0 where
  pub default_model : IsUtf8 cfg.default_model
  pub requested :
      (body : Bytes) (req : AskRequest)
      → (cfg.decode cfg.max_request_bytes body).first ≡ ok req
      → IsUtf8 req.model
  pub answered : (b : ChatRequest) (resp : ChatResponse) → up.chat b ≡ ok resp → IsUtf8 resp.model
  pub streamed :
      (b : ChatRequest) (chunks : List ChatStreamChunk) (end : Option UpstreamError)
      → up.chat_stream b ≡ ok (chunks, end)
      → All (λ chunk. IsUtf8 chunk.model) chunks

branch-IsUtf8 : (b : Bool) (s t : Bytes) → IsUtf8 s → IsUtf8 t → IsUtf8 (if b then s else t)
branch-IsUtf8 true s t h k = h
branch-IsUtf8 false s t h k = k

progress-IsUtf8 :
    (capture : Bool) (chunk : ChatStreamChunk) (p : Progress)
    → IsUtf8 chunk.model
    → IsUtf8 p.final_model
    → IsUtf8 (progress capture chunk p).final_model
unfolding progress
progress-IsUtf8 capture chunk p h k =
    let named = branch-IsUtf8 (not (is_nil chunk.model)) chunk.model p.final_model h k in
    elim (Bool-cases chunk.is_done) [
      | inl d ↦ rw (progress, d) named
      | inr d ↦ rw (progress, d) named
    ]

bridge_request-IsUtf8 :
    (cfg : Config) (r : Request) (up : Upstream)
    → IsUtf8Traffic cfg up
    → (req : AskRequest) → Accepted cfg r req
    → IsUtf8 (bridge_request cfg req).model
unfolding bridge_request model_or_default
bridge_request-IsUtf8 cfg r up traffic req accepted =
    branch-IsUtf8 (is_nil req.model) cfg.default_model req.model traffic.default_model
      (traffic.requested r.body req accepted.decoded)

module _ {lib : RateLibrary} (cfg : Config) (r : Request) where
  branch-Recorded :
      (b : Bool) (w u v : World lib)
      → Recorded w.metrics u.metrics
      → Recorded w.metrics v.metrics
      → Recorded w.metrics (if b then u else v).metrics
  branch-Recorded true w u v h k = h
  branch-Recorded false w u v h k = k

  serve_chunks-Recorded :
      (req : AskRequest) (caller : Bytes) (capture : Bool) (chunks : List ChatStreamChunk)
      (end : Option UpstreamError) (p : Progress) (w : World lib)
      → IsUtf8 p.final_model
      → All (λ chunk. IsUtf8 chunk.model) chunks
      → Recorded w.metrics (serve_chunks cfg r req caller capture chunks end p w).metrics
  unfolding serve_chunks finish_stream fail_stream log_audit
  serve_chunks-Recorded req caller capture [] none p w valid h =
      Recorded-trans
        (observe_tokens-Recorded p.final_model p.prompt_tokens p.completion_tokens
          (respond (write_sse cfg (done (done_of r p))) w) valid)
        (observe_tool_calls-Recorded p.tools _)
  serve_chunks-Recorded req caller capture [] (some e) p w valid h =
      record_upstream_error-Recorded (text "chat_stream") e w (inr refl)
  serve_chunks-Recorded req caller capture (chunk ∷ chunks) end p w valid (h, hs) =
      serve_chunks-Recorded req caller capture chunks end (progress capture chunk p)
        (respond (write_frames cfg (events_of chunk)) w) (progress-IsUtf8 capture chunk p h valid)
        hs

  module _ (up : Upstream) (traffic : IsUtf8Traffic cfg up) where
    ask_stream-Recorded :
        (req : AskRequest) (caller : Bytes) (bridge_req : ChatRequest) (w : World lib)
        → IsUtf8 bridge_req.model
        → Recorded w.metrics (ask_stream cfg r req caller up bridge_req w).metrics
    unfolding ask_stream log_audit
    ask_stream-Recorded req caller bridge_req w valid =
        branch-Recorded (not r.can_flush) w _ _ (nil-Recorded)
          (elim (Result-cases (up.chat_stream bridge_req)) [
            | inl ((chunks, end), e) ↦ rw e (
                serve_chunks-Recorded req caller w.audit.log_query chunks end
                  (no_progress bridge_req)
                  (respond open_stream (call (chat_stream_call bridge_req) w)) valid
                  (traffic.streamed bridge_req chunks end e))
            | inr (failure, e) ↦ rw e (
                record_upstream_error-Recorded (text "chat_stream") failure
                  (call (chat_stream_call bridge_req) w) (inr refl))
          ])

    ask_once-Recorded :
        (req : AskRequest) (caller : Bytes) (w : World lib)
        → Recorded w.metrics (ask_once cfg up r req caller w).metrics
    unfolding ask_once log_audit
    ask_once-Recorded req caller w = elim (Result-cases (up.chat (bridge_request cfg req))) [
      | inl (resp, e) ↦
          let w' = call (chat_call (bridge_request cfg req)) w in
          rw (ask_once, e)
            (Recorded-trans
              (observe_tokens-Recorded resp.model resp.prompt_eval_count resp.eval_count w'
                (traffic.answered (bridge_request cfg req) resp e))
              (observe_tool_calls-Recorded (to_api_tool_calls resp.message.tool_calls) _))
      | inr (failure, e) ↦
          rw (ask_once, e)
            (record_upstream_error-Recorded (text "chat") failure
              (call (chat_call (bridge_request cfg req)) w) (inl refl))
    ]

    outcome-Recorded : (w w' : World lib) → Outcome cfg up r w w' → Recorded w.metrics w'.metrics
    unfolding ask_limited ask_granted log_audit
    outcome-Recorded w w' (rejected status detail _) = nil-Recorded
    outcome-Recorded w w' (limited req _ _) = one-Recorded rate_limited tt
    outcome-Recorded w w' (granted req accepted _) =
        branch-Recorded req.stream (asked cfg up r w) _ _
          (ask_stream-Recorded req (caller_of cfg r) (bridge_request cfg req) (asked cfg up r w)
            (bridge_request-IsUtf8 cfg r up traffic req accepted))
          (ask_once-Recorded req (caller_of cfg r) (asked cfg up r w))

    pub ask-Recorded : (w : World lib) → Recorded w.metrics (ask cfg up r w).metrics
    ask-Recorded w = outcome-Recorded w (ask cfg up r w) (ask-Outcome cfg up r w)
