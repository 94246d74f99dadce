-- ===== src/Server/Status/Answer/Exact.antt =====
-- When a request to /v1/ask is answered, and when it is refused for its rate.
use opencost_ai.Prelude.{
  ℕ, ◌≡◌, ◌↔◌, refl, sym, ap, ◌∙◌, Bool, true, false, not, List, Option, some, Result, ok, err, inl,
  inr, ◌⊎◌, arith, if◌then◌else◌,
}
use opencost_ai.Text.{Bytes}
use opencost_ai.RateLimit.{RateLibrary, allow}
use opencost_ai.Api.{AskRequest}
use opencost_ai.Bridge.Types.{ChatResponse, ChatStreamChunk}
use opencost_ai.Server.World.{Config, Request, World, Upstream, UpstreamError, log_audit, respond}
use opencost_ai.Server.Problem.{bridge_error_status, write_problem, problem_title_for}
use opencost_ai.Server.Problem.Laws.{IsFresh, bridge_problem-status, write_problem-Sent}
use opencost_ai.Server.Validation.Laws.{validate_ask_request_iff}
use opencost_ai.Server.Ask.{bridge_request, ask_granted, ask_limited, ask_valid, ask_decoded, ask}
use opencost_ai.Server.Ask.Cases.{
  Accepted, Outcome, rejected, limited, granted, caller_of, asked, ask-Outcome,
}
use opencost_ai.Server.Status.Answer.{
  result_status, EncodesAll, granted_status, status_sent, ask_granted-result,
}

-- The bridge answers the request.
pub data Answers (cfg : Config) (r : Request) (up : Upstream) (req : AskRequest) : Type 0 where
  streamed :
      (chunks : List ChatStreamChunk) (end : Option UpstreamError)
      → req.stream ≡ true
      → r.can_flush ≡ true
      → up.chat_stream (bridge_request cfg req) ≡ ok (chunks, end)
      → Answers cfg r up req
  once :
      (resp : ChatResponse)
      → req.stream ≡ false
      → up.chat (bridge_request cfg req) ≡ ok resp
      → Answers cfg r up req

-- A status of the bridge's failures is not one of the gateway's own.
failure_status :
    (e : UpstreamError) → (bridge_error_status e ≡ 200) ⊎ (bridge_error_status e ≡ 429) → ⊥
failure_status e h = ground (arith, (bridge_problem-status e).1, h)

result_status-ok :
    {A : Type 0} (x : Result UpstreamError A) → result_status x ≡ 200 → (a : A) × (x ≡ ok a)
result_status-ok (ok a) h = (a, refl)
result_status-ok (err e) h = absurd (failure_status e (inl h))

result_status-unlimited : {A : Type 0} (x : Result UpstreamError A) → result_status x ≡ 429 → ⊥
result_status-unlimited (ok a) h = omega (arith, h)
result_status-unlimited (err e) h = failure_status e (inr h)

-- The two tests of a granted request
choose-cases :
    (b f : Bool) (x y n : ℕ)
    → (if b then (if not f then 500 else x) else y) ≡ n
    → ((b ≡ true) × (f ≡ true) × (x ≡ n)) ⊎ (500 ≡ n) ⊎ ((b ≡ false) × (y ≡ n))
choose-cases true true x y n h = inl (refl, refl, h)
choose-cases true false x y n h = inr (inl h)
choose-cases false f x y n h = inr (inr (refl, h))

choose-stream :
    (b f : Bool) (x y n : ℕ)
    → b ≡ true
    → f ≡ true
    → x ≡ n
    → (if b then (if not f then 500 else x) else y) ≡ n
choose-stream true true x y n e g h = h
choose-stream true false x y n e g h = cc
choose-stream false f x y n e g h = cc

choose-once :
    (b f : Bool) (x y n : ℕ) → b ≡ false → y ≡ n → (if b then (if not f then 500 else x) else y) ≡ n
choose-once false f x y n e h = h
choose-once true f x y n e h = cc

module _ (cfg : Config) (r : Request) (up : Upstream) (req : AskRequest) where
  granted_status-Answers : granted_status cfg r up req ≡ 200 → Answers cfg r up req
  granted_status-Answers h = elim (choose-cases req.stream r.can_flush _ _ 200 h) [
    | inr (inr (s, k)) ↦
        let (resp, e) = result_status-ok (up.chat (bridge_request cfg req)) k in once resp s e
    | inr (inl k) ↦ absurd (omega (arith, k))
    | inl (s, f, k) ↦
        let ((chunks, end), e) = result_status-ok (up.chat_stream (bridge_request cfg req)) k in
        streamed chunks end s f e
  ]

  Answers-granted_status : Answers cfg r up req → granted_status cfg r up req ≡ 200
  Answers-granted_status (streamed chunks end s f e) =
      choose-stream req.stream r.can_flush _ _ 200 s f (ap result_status e)
  Answers-granted_status (once resp s e) =
      choose-once req.stream r.can_flush _ _ 200 s (ap result_status e)

  granted_status-unlimited : granted_status cfg r up req ≡ 429 → ⊥
  granted_status-unlimited h = elim (choose-cases req.stream r.can_flush _ _ 429 h) [
    | inr (inr (s, k)) ↦ result_status-unlimited (up.chat (bridge_request cfg req)) k
    | inr (inl k) ↦ absurd (omega (arith, k))
    | inl (s, f, k) ↦ result_status-unlimited (up.chat_stream (bridge_request cfg req)) k
  ]

abbrev IsStatus : Option ℕ → Option ℕ → Type 0
IsStatus x y = x ≡ y

same_status : {m n : ℕ} → IsStatus (some m) (some n) → m ≡ n
same_status h = cc

module _ {lib : RateLibrary} (cfg : Config) (r : Request) (up : Upstream)
    (encodes : EncodesAll cfg) where
  limited-status :
      (req : AskRequest) (caller : Bytes) (w : World lib)
      → IsFresh w.writer
      → status_sent (ask_limited cfg up r req caller w) ≡ some 429
  unfolding ask_limited log_audit
  limited-status req caller w fresh =
      (write_problem-Sent cfg r 429 _ _ w.writer (encodes _) fresh).on_wire

  rejected-status :
      (status : ℕ) (detail : Bytes) (w : World lib)
      → IsFresh w.writer
      → status_sent (respond (write_problem cfg r status (problem_title_for status) detail) w)
        ≡ some status
  rejected-status status detail w fresh =
      (write_problem-Sent cfg r status _ _ w.writer (encodes _) fresh).on_wire

  outcome-answered :
      (w w' : World lib)
      → IsFresh w.writer
      → Outcome cfg up r w w'
      → status_sent w' ≡ some 200
      → (req : AskRequest) × Accepted cfg r req
        × ((allow lib r.now (caller_of cfg r) w.limiter).0 ≡ true)
        × Answers cfg r up req
  outcome-answered w w' fresh (rejected status detail k) h =
      absurd (ground (arith, k, same_status (sym (rejected-status status detail w fresh) ∙ h)))
  outcome-answered w w' fresh (limited req accepted refused) h = absurd (
      omega (
        arith,
        same_status (sym (limited-status req (caller_of cfg r) (asked cfg up r w) fresh) ∙ h),
      ))
  outcome-answered w w' fresh (granted req accepted allowed) h = (
    req,
    accepted,
    allowed,
    granted_status-Answers cfg r up req (
        same_status (
          sym (ask_granted-result cfg r up encodes req (caller_of cfg r) (asked cfg up r w) fresh)
          ∙ h)),
  )

  outcome-limited :
      (w w' : World lib)
      → IsFresh w.writer
      → Outcome cfg up r w w'
      → status_sent w' ≡ some 429
      → (req : AskRequest) × Accepted cfg r req
        × ((allow lib r.now (caller_of cfg r) w.limiter).0 ≡ false)
  outcome-limited w w' fresh (rejected status detail k) h =
      absurd (ground (arith, k, same_status (sym (rejected-status status detail w fresh) ∙ h)))
  outcome-limited w w' fresh (limited req accepted refused) h = (req, accepted, refused)
  outcome-limited w w' fresh (granted req accepted allowed) h = absurd (
      granted_status-unlimited cfg r up req (
        same_status (
          sym (ask_granted-result cfg r up encodes req (caller_of cfg r) (asked cfg up r w) fresh)
          ∙ h)))

  ask-granted :
      (req : AskRequest) (w : World lib)
      → Accepted cfg r req
      → (allow lib r.now (caller_of cfg r) w.limiter).0 ≡ true
      → ask cfg up r w ≡ ask_granted cfg up r req (caller_of cfg r) (asked cfg up r w)
  unfolding ask ask_decoded ask_valid
  ask-granted req w h allowed =
      rw
        (
          ask,
          h.is_json,
          ask_decoded,
          h.decoded,
          h.whole,
          (validate_ask_request_iff req).1 h.askable,
          ask_valid,
          allowed,
        )
        refl

  ask-limited :
      (req : AskRequest) (w : World lib)
      → Accepted cfg r req
      → (allow lib r.now (caller_of cfg r) w.limiter).0 ≡ false
      → ask cfg up r w ≡ ask_limited cfg up r req (caller_of cfg r) (asked cfg up r w)
  unfolding ask ask_decoded ask_valid
  ask-limited req w h refused =
      rw
        (
          ask,
          h.is_json,
          ask_decoded,
          h.decoded,
          h.whole,
          (validate_ask_request_iff req).1 h.askable,
          ask_valid,
          refused,
        )
        refl

  -- A request to /v1/ask is answered with status 200 exactly if it is accepted (its media type is JSON
  -- and its body is one object that passes the checks), the caller's bucket grants it and the bridge
  -- answers; a stream needs a response that can be flushed too. It is answered with status 429 exactly
  -- if it is accepted and the bucket does not grant it. Nothing was sent before, and every document can
  -- be encoded.
  pub ask-status_iff :
      (w : World lib)
      → IsFresh w.writer
      → ((status_sent (ask cfg up r w) ≡ some 200) ↔ (
          (req : AskRequest) × Accepted cfg r req
          × ((allow lib r.now (caller_of cfg r) w.limiter).0 ≡ true)
          × Answers cfg r up req))
        × ((status_sent (ask cfg up r w) ≡ some 429) ↔ (
            (req : AskRequest) × Accepted cfg r req
            × ((allow lib r.now (caller_of cfg r) w.limiter).0 ≡ false)))
  ask-status_iff w fresh = (
    (
      outcome-answered w (ask cfg up r w) fresh (ask-Outcome cfg up r w),
      λ (req, accepted, allowed, answers).
          ap status_sent (ask-granted req w accepted allowed)
          ∙ ask_granted-result cfg r up encodes req (caller_of cfg r) (asked cfg up r w) fresh
          ∙ ap some (Answers-granted_status cfg r up req answers),
    ),
    (
      outcome-limited w (ask cfg up r w) fresh (ask-Outcome cfg up r w),
      λ (req, accepted, refused).
          ap status_sent (ask-limited req w accepted refused)
          ∙ limited-status req (caller_of cfg r) (asked cfg up r w) fresh,
    ),
  )
