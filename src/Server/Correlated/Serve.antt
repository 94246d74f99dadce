-- ===== src/Server/Correlated/Serve.antt =====
-- One ID for a request: on its answer and on its line of the audit log.
use opencost_ai.Prelude.{
  ℕ, ◌≡◌, refl, List, Option, none, some, ◌⊎◌, inl, inr, Result-cases, Option-cases,
}
use opencost_ai.Text.{Bytes}
use opencost_ai.Text.Dict.{Dict, lookup}
use opencost_ai.RateLimit.{RateLibrary}
use opencost_ai.RequestId
use opencost_ai.RequestId.{Entropy, assign_id}
use opencost_ai.RequestId.Validity.{IsCallerId, assign_id-IsCallerId}
use opencost_ai.RequestId.Hex.{IsInRange}
use opencost_ai.Auth.Source.{ValidateError}
use opencost_ai.Auth.Header.{extract_bearer}
use opencost_ai.Audit.{Event, log}
use opencost_ai.Metrics.{in_flight_inc}
use opencost_ai.Server.Writer.{Item, set_header, new_status_writer}
use opencost_ai.Server.World.{Config, Request, World, Upstream, respond, observe}
use opencost_ai.Server.Problem.{header_name}
use opencost_ai.Server.Routes.{
  auth_problem, denial, tools, models, require_token, measured, Route, ask_route, tools_route,
  models_route, handler_of, serve,
}
use opencost_ai.Server.Ask.Cases.{caller_of}
use opencost_ai.Server.Ask.Effects.{LogsAtMost}
use opencost_ai.Server.Ask.Safety.{ask-LogsAtMost}
use opencost_ai.Server.Writer.Sync.{sent_status}
use opencost_ai.Server.Status.Serve.{serve-status}
use opencost_ai.Server.Correlated.{
  HasId, SentWithId, IsEchoed, set_id-IsEchoed, write_json-IsEchoed, map_bridge_error-IsEchoed,
  auth_problem-IsEchoed,
}
use opencost_ai.Server.Correlated.Ask.{ask-IsEchoed}

module _ {lib : RateLibrary} (cfg : Config) (r : Request) where
  -- The answer has the request's ID, and at most one audit event has it.
  record IsCorrelated (w w' : World lib) : Type 0 where
    echoed : IsEchoed r.request_id w'.writer
    logged : LogsAtMost cfg r (caller_of cfg r) w w'

  models-IsCorrelated :
      (up : Upstream) (w : World lib)
      → IsEchoed r.request_id w.writer
      → IsCorrelated w (models cfg up r w)
  unfolding models
  models-IsCorrelated up w h = elim (Result-cases up.models) [
    | inl (tags, e) ↦
        rw (models, e)
          (record { echoed = write_json-IsEchoed cfg r 200 _ w.writer h; logged = inl refl })
    | inr (failure, e) ↦
        rw (models, e)
          (record {
            echoed = map_bridge_error-IsEchoed cfg r failure w.writer h;
            logged = inl refl;
          })
  ]

  handler_of-IsCorrelated :
      (up : Upstream) (route : Route) (w : World lib)
      → IsEchoed r.request_id w.writer
      → IsCorrelated w (handler_of cfg up route r w)
  unfolding handler_of tools
  handler_of-IsCorrelated up ask_route w h = record {
    echoed = ask-IsEchoed cfg r up w h;
    logged = ask-LogsAtMost cfg r up w;
  }
  handler_of-IsCorrelated up tools_route w h = record {
    echoed = write_json-IsEchoed cfg r 200 _ w.writer h;
    logged = inl refl;
  }
  handler_of-IsCorrelated up models_route w h = models-IsCorrelated up w h

  refused-IsCorrelated :
      (status : ℕ) (title detail : Bytes) (w : World lib)
      → IsEchoed r.request_id w.writer
      → IsCorrelated w (respond (auth_problem r status title detail) w)
  refused-IsCorrelated status title detail w h = record {
    echoed = auth_problem-IsEchoed r status title detail w.writer h;
    logged = inl refl;
  }

  require_token-IsCorrelated :
      (validate : Bytes → Option ValidateError) (next : World lib → World lib) (w : World lib)
      → IsEchoed r.request_id w.writer
      → IsCorrelated w (next w)
      → IsCorrelated w (require_token r validate next w)
  unfolding require_token
  require_token-IsCorrelated validate next w h k =
      elim (Result-cases (extract_bearer r.authorization)) [
        | inr (e, f) ↦ rw (require_token, f) (refused-IsCorrelated 401 _ _ w h)
        | inl (token, f) ↦ elim (Option-cases (validate token)) [
          | inl g ↦ rw (require_token, f, g) k
          | inr (e, g) ↦ rw (require_token, f, g) (refused-IsCorrelated (denial e).0 _ _ w h)
        ]
      ]

-- A status that was sent, with its headers
sent-headers :
    (id : Bytes) (header : Dict Bytes) (sent : Option (ℕ × Dict Bytes)) (items : List Item)
    (status : ℕ)
    → sent_status (record { header = header; sent = sent; items = items }) ≡ some status
    → SentWithId id sent
    → (headers : Dict Bytes) × (sent ≡ some (status, headers)) × HasId id headers
sent-headers id header none items status h k = cc
sent-headers id header (some (c, headers)) items status h k = (headers, cc, k)

-- Every request on every route gets one valid ID, the caller's own if that is valid and else a fresh
-- one. It is answered with this ID in the header X-Request-ID, whether it succeeds, fails or is
-- refused; and what it adds to the audit log is at most one line, with the same ID and the identity
-- of the caller. Nothing was sent on the connection's response before, and what the random source or
-- the clock yields is in range.
pub serve-IsCorrelated :
    {lib : RateLibrary} (cfg : Config) (up : Upstream) (validate : Bytes → Option ValidateError)
    (caller_id : Bytes) (entropy : Entropy) (route : Route) (r : Request) (w : World lib)
    → IsInRange entropy
    → w.writer.inner.sent ≡ none
    → let w' = serve cfg up validate caller_id entropy route r w in
      (id : Bytes) × IsCallerId id
      × ((IsCallerId caller_id × (id ≡ caller_id))
          ⊎ ((¬ IsCallerId caller_id) × (id ≡ RequestId.new entropy)))
      × ((status : ℕ) × (headers : Dict Bytes) × (w'.writer.inner.sent ≡ some (status, headers))
          × (lookup header_name headers ≡ some id))
      × ((w'.audit ≡ w.audit)
          ⊎ ((e : Event) × (e.request_id ≡ id)
              × (e.caller_identity ≡ caller_of cfg r)
              × (w'.audit ≡ (log r.now r.sink_works e w.audit).1)))
unfolding serve measured new_status_writer
serve-IsCorrelated cfg up validate caller_id entropy route r w range unsent =
    let id = assign_id caller_id entropy in
    let r' = record r { request_id = id } in
    let w1 = respond (set_header header_name id) w in
    let u = respond (λ s. new_status_writer s.inner) (observe in_flight_inc w1) in
    let set = set_id-IsEchoed id w.writer (rw unsent tt) in
    let start : IsEchoed id u.writer = record { set = set.set; sent = set.sent } in
    let c =
      require_token-IsCorrelated cfg r' validate (handler_of cfg up route r') u start
        (handler_of-IsCorrelated cfg r' up route u start) in
    let (status, _, on_wire, _) = serve-status cfg up validate caller_id entropy route r w unsent in
    let v = (require_token r' validate (handler_of cfg up route r') u).writer.inner in
    let (headers, sent, has_id) =
      sent-headers id v.header v.sent v.items status on_wire c.echoed.sent in
    let (valid, origin) = assign_id-IsCallerId caller_id entropy range in
    (id, valid, origin, (status, headers, sent, has_id), c.logged)
