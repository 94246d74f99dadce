-- ===== src/Server/Status/Answer.antt =====
-- The status of an answer to /v1/ask.
pub mod Exact
use opencost_ai.Prelude.{
  ℕ, ◌≡◌, ◌↔◌, refl, sym, ap, ◌∙◌, Bool, true, false, not, List, [], ◌∷◌, ◌++◌, Option, none, some,
  Result, ok, err, Result-cases, Bool-cases, inl, inr, ◌⊎◌, arith, if◌then◌else◌,
}
use opencost_ai.Prelude.Int.{pos}
use opencost_ai.Text.{Bytes, text}
use opencost_ai.RateLimit.{RateLibrary, allow}
use opencost_ai.Api.{AskRequest}
use opencost_ai.Bridge.Types.{ChatRequest, ChatResponse, ChatStreamChunk}
use opencost_ai.Server.Writer.{Item, StatusWriter, set_header}
use opencost_ai.Server.Writer.Sync.{sent_status}
use opencost_ai.Server.World.{
  Config, Request, World, Upstream, UpstreamError, call, chat_call, log_audit, respond,
}
use opencost_ai.Server.Problem.{
  map_bridge_error, bridge_problem, bridge_error_status, write_json, write_problem,
  problem_title_for,
}
use opencost_ai.Server.Problem.Laws.{
  IsFresh, set_header-IsFresh, write-Sent, bridge_problem-status, write_problem-Sent,
}
use opencost_ai.Server.Observe.{
  observe_tokens, observe_tool_calls, record_upstream_error, to_api_tool_calls,
}
use opencost_ai.Server.Observe.Effects.{observe_tokens-Observed, observe_tool_calls-Observed}
use opencost_ai.Server.Streaming.{ask_stream}
use opencost_ai.Server.Streaming.Transcript.{ask_stream-Served}
use opencost_ai.Server.Validation.{require_json, validate_ask_request}
use opencost_ai.Server.Validation.Laws.{validate_ask_request_iff}
use opencost_ai.Server.Ask.{
  bridge_request, ask_once, ask_granted, ask_limited, ask_valid, ask_decoded, ask, response_of,
}
use opencost_ai.Server.Ask.Cases.{
  Accepted, Outcome, rejected, limited, granted, caller_of, asked, ask-Outcome,
}

-- The status for a result of the bridge.
abbrev pub result_status : {A : Type 0} → Result UpstreamError A → ℕ
result_status (ok a) = 200
result_status (err e) = bridge_error_status e

-- Every document can be encoded.
abbrev pub EncodesAll : Config → Type 0
EncodesAll cfg = (i : Item) → cfg.encodes i ≡ true

map_bridge_error-status :
    (cfg : Config) (r : Request) (e : UpstreamError) (s : StatusWriter)
    → EncodesAll cfg
    → IsFresh s
    → sent_status (map_bridge_error cfg r e s).inner ≡ some (bridge_error_status e)
unfolding map_bridge_error
map_bridge_error-status cfg r e s encodes fresh =
    (write_problem-Sent cfg r (bridge_problem e).0 _ _ s (encodes _) fresh).on_wire
    ∙ ap some (bridge_problem-status e).0

write_json-status :
    (cfg : Config) (r : Request) (status : ℕ) (i : Item) (s : StatusWriter)
    → cfg.encodes i ≡ true
    → IsFresh s
    → sent_status (write_json cfg r status i s).inner ≡ some status
unfolding write_json
write_json-status cfg r status i s encodes fresh =
    rw (write_json, encodes)
      (write-Sent status i _
        (set_header-IsFresh (text "Content-Type") (text "application/json") s fresh).0).on_wire

-- The status of a request that the limiter grants.
abbrev stream_status : Config → Request → Upstream → AskRequest → ℕ
stream_status cfg r up req =
    if not r.can_flush then 500 else result_status (up.chat_stream (bridge_request cfg req))

abbrev pub granted_status : Config → Request → Upstream → AskRequest → ℕ
granted_status cfg r up req =
    if req.stream
    then stream_status cfg r up req
    else result_status (up.chat (bridge_request cfg req))

abbrev pub status_sent : {lib : RateLibrary} → World lib → Option ℕ
status_sent w = sent_status w.writer.inner

branch-status :
    {lib : RateLibrary} (b : Bool) (u v : World lib) (m n : ℕ)
    → status_sent u ≡ some m
    → status_sent v ≡ some n
    → status_sent (if b then u else v) ≡ some (if b then m else n)
branch-status true u v m n h k = h
branch-status false u v m n h k = k

module _ {lib : RateLibrary} (cfg : Config) (r : Request) (up : Upstream)
    (encodes : EncodesAll cfg) where
  pub ask_once-result :
      (req : AskRequest) (caller : Bytes) (w : World lib)
      → IsFresh w.writer
      → sent_status (ask_once cfg up r req caller w).writer.inner
        ≡ some (result_status (up.chat (bridge_request cfg req)))
  unfolding ask_once log_audit record_upstream_error
  ask_once-result req caller w fresh = elim (Result-cases (up.chat (bridge_request cfg req))) [
    | inl (resp, e) ↦
        let w' = call (chat_call (bridge_request cfg req)) w in
        let seen = observe_tokens-Observed resp.model resp.prompt_eval_count resp.eval_count w' in
        let seen' =
          observe_tool_calls-Observed (to_api_tool_calls resp.message.tool_calls)
            (observe_tokens resp.model resp.prompt_eval_count resp.eval_count w') in
        rw (ask_once, e)
          (write_json-status cfg r 200 (Item.answer (response_of r req resp)) _ (encodes _)
            (rw (seen'.writer ∙ seen.writer) fresh))
    | inr (failure, e) ↦
        rw (ask_once, e) (map_bridge_error-status cfg r failure w.writer encodes fresh)
  ]

  opened-result :
      (req : AskRequest) (caller : Bytes) (w : World lib)
      → r.can_flush ≡ true
      → IsFresh w.writer
      → status_sent (ask_stream cfg r req caller up (bridge_request cfg req) w)
        ≡ some (result_status (up.chat_stream (bridge_request cfg req)))
  unfolding ask_stream log_audit record_upstream_error
  opened-result req caller w f fresh =
      elim (Result-cases (up.chat_stream (bridge_request cfg req))) [
        | inl ((chunks, end), e) ↦
            (ask_stream-Served cfg (λ ev. encodes _) r req caller up (bridge_request cfg req) chunks
              end w f e fresh).0
            ∙ sym (ap (λ x. some (result_status x)) e)
        | inr (failure, e) ↦
            rw (ask_stream, f, e) (map_bridge_error-status cfg r failure w.writer encodes fresh)
      ]

  ask_stream-result :
      (req : AskRequest) (caller : Bytes) (w : World lib)
      → IsFresh w.writer
      → status_sent (ask_stream cfg r req caller up (bridge_request cfg req) w)
        ≡ some (stream_status cfg r up req)
  unfolding ask_stream
  ask_stream-result req caller w fresh = elim (Bool-cases r.can_flush) [
    | inr f ↦ simp (
      ask_stream,
      f,
      (write_problem-Sent cfg r 500 (problem_title_for 500)
          (text "streaming is not supported by the response writer") w.writer (encodes _)
          fresh).on_wire,
    )
    | inl f ↦
        opened-result req caller w f fresh
        ∙ sym (
            ap
              (λ b.
                some
                  (if not b then 500 else result_status (up.chat_stream (bridge_request cfg req))))
              f)
  ]

  ask_granted-result :
      (req : AskRequest) (caller : Bytes) (w : World lib)
      → IsFresh w.writer
      → status_sent (ask_granted cfg up r req caller w) ≡ some (granted_status cfg r up req)
  unfolding ask_granted
  ask_granted-result req caller w fresh =
      branch-status req.stream _ _ (stream_status cfg r up req)
        (result_status (up.chat (bridge_request cfg req))) (ask_stream-result req caller w fresh)
        (ask_once-result req caller w fresh)
