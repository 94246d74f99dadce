-- ===== src/Server/Status/Serve.antt =====
-- Every request on every route is answered.
use opencost_ai.Prelude.{
  ℕ, ◌≡◌, refl, not, List, [], ◌∷◌, ◌++◌, Option, none, some, inl, inr, Result-cases, Option-cases,
  is_nil, ◌==◌,
}
use opencost_ai.Text.{Bytes}
use opencost_ai.RateLimit.{RateLibrary}
use opencost_ai.RequestId.{Entropy, assign_id}
use opencost_ai.Auth.Source.{ValidateError}
use opencost_ai.Auth.Header.{extract_bearer}
use opencost_ai.Server.Writer.{StatusWriter, set_header, new_status_writer}
use opencost_ai.Server.Writer.Sync.{sent_status}
use opencost_ai.Server.World.{Config, Request, World, Upstream, respond, observe}
use opencost_ai.Server.Problem.Laws.{IsFresh, branch-IsFresh}
use opencost_ai.Metrics.{Sample, in_flight_inc, requests}
use opencost_ai.Server.Problem.{header_name}
use opencost_ai.Server.Routes.{
  auth_problem, tools, models, require_token, measured, Route, ask_route, tools_route, models_route,
  endpoint_of, handler_of, serve,
}
use opencost_ai.Server.Status.{
  IsAnswered, put-IsAnswered, map_bridge_error-IsAnswered, write_json-IsAnswered,
}
use opencost_ai.Server.Status.Ask.{ask-IsAnswered}

module _ {lib : RateLibrary} (cfg : Config) (r : Request) where
  models-IsAnswered :
      (up : Upstream) (w : World lib) → IsFresh w.writer → IsAnswered (models cfg up r w).writer
  unfolding models
  models-IsAnswered up w fresh = elim (Result-cases up.models) [
    | inl (tags, e) ↦ rw (models, e) (write_json-IsAnswered cfg r 200 _ w.writer fresh)
    | inr (failure, e) ↦ rw (models, e) (map_bridge_error-IsAnswered cfg r failure w.writer fresh)
  ]

  handler_of-IsAnswered :
      (up : Upstream) (route : Route) (w : World lib)
      → IsFresh w.writer
      → IsAnswered (handler_of cfg up route r w).writer
  unfolding handler_of tools
  handler_of-IsAnswered up ask_route w fresh = ask-IsAnswered cfg r up w fresh
  handler_of-IsAnswered up tools_route w fresh = write_json-IsAnswered cfg r 200 _ w.writer fresh
  handler_of-IsAnswered up models_route w fresh = models-IsAnswered up w fresh

auth_problem-IsAnswered :
    (r : Request) (status : ℕ) (title detail : Bytes) (s : StatusWriter)
    → IsFresh s
    → IsAnswered (auth_problem r status title detail s)
unfolding auth_problem set_header
auth_problem-IsAnswered r status title detail s fresh =
    let echoed = branch-IsFresh (not (is_nil r.request_id)) _ _ fresh fresh in
    put-IsAnswered status _ _ (branch-IsFresh (status == 401) _ _ echoed echoed)

module _ {lib : RateLibrary} (r : Request) where
  require_token-IsAnswered :
      (validate : Bytes → Option ValidateError) (next : World lib → World lib) (w : World lib)
      → IsFresh w.writer
      → ((u : World lib) → IsFresh u.writer → IsAnswered (next u).writer)
      → IsAnswered (require_token r validate next w).writer
  unfolding require_token
  require_token-IsAnswered validate next w fresh h =
      elim (Result-cases (extract_bearer r.authorization)) [
        | inr (e, f) ↦ rw (require_token, f) (auth_problem-IsAnswered r 401 _ _ w.writer fresh)
        | inl (token, f) ↦ elim (Option-cases (validate token)) [
          | inl g ↦ rw (require_token, f, g) (h w fresh)
          | inr (e, g) ↦ rw (require_token, f, g) (auth_problem-IsAnswered r _ _ _ w.writer fresh)
        ]
      ]

-- Every request on every route is answered, whatever the caller, the token check, the limiter and
-- the bridge do, and the status that requests_total counts it under, by endpoint and method, is the
-- one on the wire. Nothing was sent on the connection's response before.
pub serve-status :
    {lib : RateLibrary} (cfg : Config) (up : Upstream) (validate : Bytes → Option ValidateError)
    (caller_id : Bytes) (entropy : Entropy) (route : Route) (r : Request) (w : World lib)
    → w.writer.inner.sent ≡ none
    → let w' = serve cfg up validate caller_id entropy route r w in
      (status : ℕ) × (rest : List Sample) × (sent_status w'.writer.inner ≡ some status)
      × (w'.metrics ≡ rest ++ requests (endpoint_of route) r.method status ∷ [])
unfolding serve measured new_status_writer set_header
serve-status cfg up validate caller_id entropy route r w unsent =
    let r' = record r { request_id = assign_id caller_id entropy } in
    let w1 = respond (set_header header_name (assign_id caller_id entropy)) w in
    let u = respond (λ s. new_status_writer s.inner) (observe in_flight_inc w1) in
    let answered =
      require_token-IsAnswered r' validate (handler_of cfg up route r') u (refl, unsent)
        (handler_of-IsAnswered cfg r' up route) in
    (_, _, answered.on_wire, refl)
