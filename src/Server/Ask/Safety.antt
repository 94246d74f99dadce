-- ===== src/Server/Ask/Safety.antt =====
-- When the bridge is called and what is logged.
use opencost_ai.Prelude.{
  arith, ap, is_nil, is_nil-eq, Bool-cases, ◌≢◌, none, ok, ◌≡◌, refl, ◌∙◌, Bool, true, false, [],
  ◌∷◌, ◌++◌, append-nil, ◌⊎◌, inl, inr, All, if◌then◌else◌,
}
use opencost_ai.Text.{Bytes, text, to_lower, before_byte}
use opencost_ai.Text.Trim.{trim_space}
use opencost_ai.Text.Laws.{beq_sound}
use opencost_ai.Bridge.Types.{ChatRequest}
use opencost_ai.Server.Validation.{require_json, model_or_default}
use opencost_ai.Server.Validation.Laws.{IsAskable}
use opencost_ai.RateLimit.{RateLibrary, allow}
use opencost_ai.Api.{AskRequest}
use opencost_ai.Audit.Laws.{IsRedacted, log-IsRedacted}
use opencost_ai.Server.World.{
  Config, Request, World, Upstream, Call, chat_call, chat_stream_call, log_audit,
}
use opencost_ai.Server.Ask.{bridge_request, limited_event, ask_granted, ask_limited, ask}
use opencost_ai.Server.Ask.Cases.{
  Accepted, caller_of, asked, Outcome, rejected, limited, granted, ask-Outcome,
}
use opencost_ai.Server.Ask.Effects.{
  CallsAtMost, LogsAtMost, ask_stream-CallsAtMost, ask_once-Effect,
}

-- The call of the bridge that the code makes for a request.
abbrev call_of : Config → AskRequest → Call
call_of cfg req =
    if req.stream
    then chat_stream_call (bridge_request cfg req)
    else chat_call (bridge_request cfg req)

-- The media type in front of the parameters is application/json, in any mixture of cases.
abbrev pub IsJson : Request → Type 0
IsJson r = trim_space (to_lower (before_byte b';' r.content_type)) ≡ text "application/json"

-- The model is the one that the request names, and the default if it names none.
abbrev pub IsModel : Config → AskRequest → (model : Bytes) → Type 0
IsModel cfg req model =
    ((req.model ≢ []) × (model ≡ req.model)) ⊎ ((req.model ≡ []) × (model ≡ cfg.default_model))

-- One message of the user with this text; for a stream the client sets the flag itself.
abbrev pub question : (model query : Bytes) → ChatRequest
question model query = record {
  model = model;
  messages = record { role = text "user"; content = query; tool_calls = [] } ∷ [];
  stream = false;
}

-- A call for this request, as a stream if it asks for one.
abbrev pub IsCallFor : Config → AskRequest → Call → Type 0
IsCallFor cfg req c =
    (model : Bytes) × IsModel cfg req model
    × (((req.stream ≡ true) × (c ≡ chat_stream_call (question model req.query)))
        ⊎ ((req.stream ≡ false) × (c ≡ chat_call (question model req.query))))

model_or_default-IsModel :
    (cfg : Config) (req : AskRequest)
    → IsModel cfg req (model_or_default req.model cfg.default_model)
unfolding model_or_default
model_or_default-IsModel cfg req = elim (Bool-cases (is_nil req.model)) [
  | inl e ↦ inr (is_nil-eq req.model e, rw e refl)
  | inr e ↦
      inl (
        (λ h. absurd (let empty : is_nil req.model ≡ true = ap is_nil h in ground arith)),
        rw e refl,
      )
]

call_of-IsCallFor : (cfg : Config) (req : AskRequest) → IsCallFor cfg req (call_of cfg req)
unfolding bridge_request
call_of-IsCallFor cfg req = elim (Bool-cases req.stream) [
  | inl e ↦ (_, model_or_default-IsModel cfg req, inl (e, rw e refl))
  | inr e ↦ (_, model_or_default-IsModel cfg req, inr (e, rw e refl))
]

require_json-IsJson : (r : Request) → require_json r.content_type ≡ none → IsJson r
unfolding require_json
require_json-IsJson r h = beq_sound _ _ (ground (arith, h))

module _ {lib : RateLibrary} (cfg : Config) (r : Request) where
  branch_call-CallsAtMost :
      (caller : Bytes) (b : Bool) (c d : Call) (w u v : World lib)
      → CallsAtMost cfg r caller c w u
      → CallsAtMost cfg r caller d w v
      → CallsAtMost cfg r caller (if b then c else d) w (if b then u else v)
  branch_call-CallsAtMost caller true c d w u v h k = h
  branch_call-CallsAtMost caller false c d w u v h k = k

  ask_granted-CallsAtMost :
      (up : Upstream) (req : AskRequest) (caller : Bytes) (w : World lib)
      → CallsAtMost cfg r caller (call_of cfg req) w (ask_granted cfg up r req caller w)
  unfolding ask_granted
  ask_granted-CallsAtMost up req caller w =
      branch_call-CallsAtMost caller req.stream _ _ w _ _
        (ask_stream-CallsAtMost cfg r req caller up (bridge_request cfg req) w)
        (inr (ask_once-Effect cfg r up req caller w))

  -- No call, or one for the request that the body holds, which passes the checks and which the limiter
  -- granted.
  abbrev pub IsWarranted : World lib → World lib → Type 0
  IsWarranted w w' =
      (w'.calls ≡ w.calls)
      ⊎ ((req : AskRequest) × (c : Call) × IsJson r
          × ((cfg.decode cfg.max_request_bytes r.body).first ≡ ok req)
          × ((cfg.decode cfg.max_request_bytes r.body).at_end ≡ true)
          × IsAskable req
          × ((allow lib r.now (caller_of cfg r) w.limiter).0 ≡ true)
          × IsCallFor cfg req c
          × (w'.calls ≡ w.calls ++ c ∷ []))

  warranted :
      (up : Upstream) (req : AskRequest) (w w' : World lib)
      → Accepted cfg r req
      → (allow lib r.now (caller_of cfg r) w.limiter).0 ≡ true
      → CallsAtMost cfg r (caller_of cfg r) (call_of cfg req) (asked cfg up r w) w'
      → IsWarranted w w'
  warranted up req w w' accepted ok_ (inl h) = inl (h.called ∙ append-nil w.calls)
  warranted up req w w' accepted ok_ (inr h) = inr (
    req,
    call_of cfg req,
    require_json-IsJson r accepted.is_json,
    accepted.decoded,
    accepted.whole,
    accepted.askable,
    ok_,
    call_of-IsCallFor cfg req,
    h.called,
  )

  outcome-IsWarranted :
      (up : Upstream) (w w' : World lib) → Outcome cfg up r w w' → IsWarranted w w'
  unfolding ask_limited log_audit
  outcome-IsWarranted up w w' (rejected status detail _) = inl refl
  outcome-IsWarranted up w w' (limited req _ _) = inl refl
  outcome-IsWarranted up w w' (granted req accepted allowed) =
      warranted up req w w' accepted allowed
        (ask_granted-CallsAtMost up req (caller_of cfg r) (asked cfg up r w))

  -- A request to /v1/ask calls the bridge at most once. It calls it only if its media type is JSON,
  -- its body is one object whose query is not blank, at most 4096 bytes and UTF-8, and the caller's
  -- bucket grants it; and what it sends is the query, byte for byte, as a single user message, with the
  -- requested model or the default, as a stream if the request asks for one.
  pub ask-IsWarranted : (up : Upstream) (w : World lib) → IsWarranted w (ask cfg up r w)
  ask-IsWarranted up w = outcome-IsWarranted up w (ask cfg up r w) (ask-Outcome cfg up r w)

  logs :
      (up : Upstream) (c : Call) (w w' : World lib)
      → CallsAtMost cfg r (caller_of cfg r) c (asked cfg up r w) w'
      → LogsAtMost cfg r (caller_of cfg r) w w'
  logs up c w w' (inl h) = h.logged
  logs up c w w' (inr h) = h.logged

  outcome-LogsAtMost :
      (up : Upstream) (w w' : World lib)
      → Outcome cfg up r w w'
      → LogsAtMost cfg r (caller_of cfg r) w w'
  unfolding limited_event ask_limited log_audit
  outcome-LogsAtMost up w w' (rejected status detail _) = inl refl
  outcome-LogsAtMost up w w' (limited req _ _) =
      inr (limited_event cfg r req (caller_of cfg r), refl, refl, refl)
  outcome-LogsAtMost up w w' (granted req _ _) =
      logs up (call_of cfg req) w w'
        (ask_granted-CallsAtMost up req (caller_of cfg r) (asked cfg up r w))

  logged-IsRedacted :
      (w w' : World lib)
      → w.audit.log_query ≡ false
      → All IsRedacted w.audit.written
      → LogsAtMost cfg r (caller_of cfg r) w w'
      → All IsRedacted w'.audit.written × (w'.audit.log_query ≡ false)
  logged-IsRedacted w w' off h (inl e) = rw e (h, off)
  logged-IsRedacted w w' off h (inr (event, _, _, e)) =
      rw e (log-IsRedacted r.now r.sink_works event w.audit off h)

  pub ask-LogsAtMost :
      (up : Upstream) (w : World lib) → LogsAtMost cfg r (caller_of cfg r) w (ask cfg up r w)
  ask-LogsAtMost up w = outcome-LogsAtMost up w (ask cfg up r w) (ask-Outcome cfg up r w)

  -- With the opt-in flag off, an audit log that shows no query and no answer still shows none behind
  -- any request to /v1/ask, streamed or not, and the flag is still off.
  pub ask-IsRedacted :
      (up : Upstream) (w : World lib)
      → w.audit.log_query ≡ false
      → All IsRedacted w.audit.written
      → All IsRedacted (ask cfg up r w).audit.written × ((ask cfg up r w).audit.log_query ≡ false)
  ask-IsRedacted up w off h = logged-IsRedacted w (ask cfg up r w) off h (ask-LogsAtMost up w)
