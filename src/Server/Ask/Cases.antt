-- ===== src/Server/Ask/Cases.antt =====
-- The ways that a request to /v1/ask goes.
use opencost_ai.Prelude.{
  ℕ, ◌≡◌, refl, Bool, true, false, none, ok, ◌⊎◌, inl, inr, Bool-cases, Option-cases, Result-cases,
  if◌then◌else◌,
}
use opencost_ai.Text.{Bytes}
use opencost_ai.RateLimit.{RateLibrary, allow}
use opencost_ai.Api.{AskRequest}
use opencost_ai.Audit.{caller_identity}
use opencost_ai.Server.World.{Config, Request, World, Upstream, respond}
use opencost_ai.Server.Problem.{write_problem, problem_title_for}
use opencost_ai.Server.Validation.{require_json, validate_ask_request, parse_bearer_token}
use opencost_ai.Server.Validation.Laws.{IsAskable, validate_ask_request_iff}
use opencost_ai.Server.Ask.{
  ask_granted, ask_limited, ask_valid, ask_decoded, is_too_large, reject, ask,
}

-- The request that a body holds, if it passes the checks.
pub record Accepted (cfg : Config) (r : Request) (req : AskRequest) : Type 0 where
  pub is_json : require_json r.content_type ≡ none
  pub decoded : (cfg.decode cfg.max_request_bytes r.body).first ≡ ok req
  pub whole : (cfg.decode cfg.max_request_bytes r.body).at_end ≡ true
  pub askable : IsAskable req

-- The caller, and the world behind the limiter's answer.
abbrev pub caller_of : Config → Request → Bytes
caller_of cfg r = caller_identity cfg.sha256 (parse_bearer_token r.authorization).0

module _ {lib : RateLibrary} (cfg : Config) (up : Upstream) (r : Request) where
  abbrev pub asked : World lib → World lib
  asked w = record w { limiter = (allow lib r.now (caller_of cfg r) w.limiter).1 }

  -- A request is rejected with a problem, refused by the limiter, or sent on.
  pub data Outcome (w : World lib) : World lib → Type 0 where
    rejected :
        (status : ℕ) (detail : Bytes)
        → (status ≡ 400) ⊎ (status ≡ 413) ⊎ (status ≡ 415)
        → Outcome w (respond (write_problem cfg r status (problem_title_for status) detail) w)
    limited :
        (req : AskRequest)
        → Accepted cfg r req
        → (allow lib r.now (caller_of cfg r) w.limiter).0 ≡ false
        → Outcome w (ask_limited cfg up r req (caller_of cfg r) (asked w))
    granted :
        (req : AskRequest)
        → Accepted cfg r req
        → (allow lib r.now (caller_of cfg r) w.limiter).0 ≡ true
        → Outcome w (ask_granted cfg up r req (caller_of cfg r) (asked w))

  ask_valid-Outcome :
      (req : AskRequest) (w : World lib) → Accepted cfg r req → Outcome w (ask_valid cfg up r req w)
  unfolding ask_valid
  ask_valid-Outcome req w h = elim (Bool-cases (allow lib r.now (caller_of cfg r) w.limiter).0) [
    | inl e ↦ rw (ask_valid, e) (granted req h e)
    | inr e ↦ rw (ask_valid, e) (limited req h e)
  ]

  too_large-Outcome :
      (b : Bool) (detail other : Bytes) (w : World lib)
      → Outcome w (if b then reject cfg up r 413 detail w else reject cfg up r 400 other w)
  too_large-Outcome true detail other w = rejected 413 detail (inr (inl refl))
  too_large-Outcome false detail other w = rejected 400 other (inl refl)

  -- The outcome of `ask`.
  pub ask-Outcome : (w : World lib) → Outcome w (ask cfg up r w)
  unfolding ask ask_decoded
  ask-Outcome w = elim (Option-cases (require_json r.content_type)) [
    | inr (detail, e) ↦ rw (ask, e) (rejected 415 detail (inr (inr refl)))
    | inl e ↦
        let d = cfg.decode cfg.max_request_bytes r.body in
        rw (ask, e)
          (elim (Result-cases d.first) [
            | inr (failure, f) ↦
                rw (ask_decoded, f) (too_large-Outcome (is_too_large failure) _ _ w)
            | inl (req, f) ↦ elim (Bool-cases d.at_end) [
              | inr g ↦ rw (ask_decoded, f, g) (rejected 400 _ (inl refl))
              | inl g ↦ elim (Option-cases (validate_ask_request req)) [
                | inr (detail, v) ↦ rw (ask_decoded, f, g, v) (rejected 400 detail (inl refl))
                | inl v ↦
                    rw (ask_decoded, f, g, v)
                      (ask_valid-Outcome req w (record {
                        is_json = e;
                        decoded = f;
                        whole = g;
                        askable = (validate_ask_request_iff req).0 v;
                      }))
              ]
            ]
          ])
  ]
