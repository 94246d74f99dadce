-- ===== src/Server/Script/Ask.antt =====
-- The handler of /v1/ask, internal/server/handlers.go, as steps.
use opencost_ai.Prelude.{ℕ, refl, Bool, ◌++◌, Result-cases, Option-cases, Bool-cases, inl, inr}
use opencost_ai.Prelude.Int.{ℤ}
use opencost_ai.Text.{Bytes, text, format_d}
use opencost_ai.RateLimit.{RateLibrary}
use opencost_ai.Api.{AskRequest}
use opencost_ai.Metrics.{rate_limited}
use opencost_ai.Server.Writer.{Item}
use opencost_ai.Server.World.{
  Config, Request, Upstream, Decoded, chat_call, call, observe, respond, log_audit,
}
use opencost_ai.Server.Problem.{write_problem, write_json, map_bridge_error, problem_title_for}
use opencost_ai.Server.Validation.{require_json, validate_ask_request, decode_error_detail}
use opencost_ai.Server.Observe.{
  observe_tokens, observe_tool_calls, record_upstream_error, to_api_tool_calls,
}
use opencost_ai.Server.Ask.{
  bridge_request, limited_event, response_of, answered_event, ask_once, ask_granted, ask_limited,
  ask_valid, ask_decoded, ask, is_too_large,
}
use opencost_ai.Server.Ask.Cases.{caller_of}
use opencost_ai.Server.Script.Plain.{
  Plain, respond-Plain, call-Plain, observe-Plain, log_audit-Plain, then-Plain, branch-Plain,
  same-Plain, observe_tokens-Plain, observe_tool_calls-Plain, record_upstream_error-Plain,
}
use opencost_ai.Server.Script.Compose.{
  Scripted, plain-Scripted, same-Scripted, branch-Scripted, asks-Scripted,
}
use opencost_ai.Server.Script.Stream.{ask_stream-Plain}

module _ {lib : RateLibrary} {flag : Bool} {limit : ℤ} (cfg : Config) (r : Request) where
  module _ (req : AskRequest) (caller : Bytes) where
    ask_once-Plain : (up : Upstream) → Plain {lib = lib} flag limit (ask_once cfg up r req caller)
    unfolding ask_once Result-cases call-Plain log_audit-Plain observe_tokens-Plain
        observe_tool_calls-Plain record_upstream_error-Plain respond-Plain same-Plain then-Plain
    ask_once-Plain up =
        let b = bridge_request cfg req in
        elim (Result-cases (up.chat b)) [
          | inr (e, g) ↦
              same-Plain _ _ (λ w h. rw (ask_once, g) refl)
                (then-Plain (call (chat_call b)) _ (call-Plain (chat_call b)) (
                  then-Plain (record_upstream_error (text "chat") e) _
                    (record_upstream_error-Plain (text "chat") e)
                    (respond-Plain (map_bridge_error cfg r e))))
          | inl (resp, g) ↦
              same-Plain _ _ (λ w h. rw (ask_once, g) refl)
                (then-Plain (call (chat_call b)) _ (call-Plain (chat_call b)) (
                  then-Plain (observe_tokens resp.model resp.prompt_eval_count resp.eval_count) _
                    (observe_tokens-Plain resp.model resp.prompt_eval_count resp.eval_count)
                    (then-Plain (observe_tool_calls (to_api_tool_calls resp.message.tool_calls)) _
                      (observe_tool_calls-Plain (to_api_tool_calls resp.message.tool_calls))
                      (then-Plain (log_audit r (answered_event r req caller resp)) _
                        (log_audit-Plain r (answered_event r req caller resp))
                        (respond-Plain
                          (write_json cfg r 200 (Item.answer (response_of r req resp))))))))
        ]

    ask_granted-Plain :
        (up : Upstream) → Plain {lib = lib} flag limit (ask_granted cfg up r req caller)
    unfolding ask_granted ask_once-Plain ask_stream-Plain branch-Plain
    ask_granted-Plain up =
        branch-Plain req.stream _ _ (ask_stream-Plain cfg r req caller up (bridge_request cfg req))
          (ask_once-Plain up)

    ask_limited-Plain :
        (up : Upstream) → Plain {lib = lib} flag limit (ask_limited cfg up r req caller)
    unfolding ask_limited log_audit-Plain observe-Plain respond-Plain same-Plain then-Plain
    ask_limited-Plain up =
        same-Plain _ _ (λ w h. rw h.per_minute refl)
          (then-Plain (observe rate_limited) _ (observe-Plain rate_limited) (
            then-Plain (log_audit r (limited_event cfg r req caller)) _
              (log_audit-Plain r (limited_event cfg r req caller))
              (respond-Plain (
                write_problem cfg r 429 (problem_title_for 429) (
                  text "rate limit of "
                  ++ format_d limit
                  ++ text " requests per minute exceeded")))))

  ask_valid-Scripted :
      (up : Upstream) (req : AskRequest) → Scripted {lib = lib} flag limit (ask_valid cfg up r req)
  unfolding ask_valid ask_granted-Plain ask_limited-Plain asks-Scripted
  ask_valid-Scripted up req =
      asks-Scripted r.now (caller_of cfg r) (ask_limited cfg up r req (caller_of cfg r))
        (ask_granted cfg up r req (caller_of cfg r)) (ask_limited-Plain req (caller_of cfg r) up)
        (ask_granted-Plain req (caller_of cfg r) up)

  reject-Scripted :
      (status : ℕ) (detail : Bytes)
      → Scripted {lib = lib} flag limit
          (respond (write_problem cfg r status (problem_title_for status) detail))
  unfolding plain-Scripted respond-Plain
  reject-Scripted status detail =
      plain-Scripted _
        (respond-Plain (write_problem cfg r status (problem_title_for status) detail))

  ask_decoded-Scripted :
      (up : Upstream) (d : Decoded) → Scripted {lib = lib} flag limit (ask_decoded cfg up r d)
  unfolding ask_decoded Bool-cases Option-cases Result-cases ask_valid-Scripted branch-Scripted
      reject-Scripted same-Scripted
  ask_decoded-Scripted up d = elim (Result-cases d.first) [
    | inr (e, f) ↦
        same-Scripted _ _ (λ w h. rw (ask_decoded, f) refl)
          (branch-Scripted (is_too_large e) _ _
            (reject-Scripted 413 (text "request body exceeds configured limit"))
            (reject-Scripted 400 (decode_error_detail e)))
    | inl (req, f) ↦ elim (Bool-cases d.at_end) [
      | inr g ↦
          same-Scripted _ _ (λ w h. rw (ask_decoded, f, g) refl)
            (reject-Scripted 400 (text "request body must contain exactly one JSON object"))
      | inl g ↦ elim (Option-cases (validate_ask_request req)) [
        | inr (detail, v) ↦
            same-Scripted _ _ (λ w h. rw (ask_decoded, f, g, v) refl) (reject-Scripted 400 detail)
        | inl v ↦
            same-Scripted _ _ (λ w h. rw (ask_decoded, f, g, v) refl) (ask_valid-Scripted up req)
      ]
    ]
  ]

  unfoldable pub ask-Scripted : (up : Upstream) → Scripted {lib = lib} flag limit (ask cfg up r)
  unfolding ask Option-cases ask_decoded-Scripted reject-Scripted same-Scripted
  ask-Scripted up = elim (Option-cases (require_json r.content_type)) [
    | inr (detail, e) ↦ same-Scripted _ _ (λ w h. rw (ask, e) refl) (reject-Scripted 415 detail)
    | inl e ↦
        same-Scripted _ _ (λ w h. rw (ask, e) refl)
          (ask_decoded-Scripted up (cfg.decode cfg.max_request_bytes r.body))
  ]
