-- ===== src/Server/Recorded.antt =====
-- What a request on a route records, from the middleware to the handler.
pub mod Accepted
use opencost_ai.Prelude.{
  ℕ, ◌≡◌, refl, sym, ap, ◌∙◌, List, [], ◌∷◌, ◌++◌, append_assoc, Option, none, some, inl, inr, All,
  Result-cases, Option-cases,
}
use opencost_ai.Text.{Bytes}
use opencost_ai.RateLimit.{RateLibrary}
use opencost_ai.RequestId.{Entropy, assign_id}
use opencost_ai.Auth.Source.{ValidateError}
use opencost_ai.Auth.Header.{extract_bearer}
use opencost_ai.Metrics.{Sample, in_flight_inc, in_flight_dec, request_duration, requests}
use opencost_ai.Server.Writer.{set_header, new_status_writer}
use opencost_ai.Server.World.{Config, Request, World, Upstream, respond, observe}
use opencost_ai.Server.Problem.{header_name}
use opencost_ai.Server.Routes.{
  tools, models, require_token, measured, Route, ask_route, tools_route, models_route, endpoint_of,
  handler_of, serve,
}
use opencost_ai.Server.Observe.Recorded.{IsHandled, Recorded, nil-Recorded}
use opencost_ai.Server.Ask.Recorded.{IsUtf8Traffic, ask-Recorded}

module _ {lib : RateLibrary} where
  handler_of-Recorded :
      (cfg : Config) (up : Upstream)
      → IsUtf8Traffic cfg up
      → (route : Route) (r : Request) (w : World lib)
      → Recorded w.metrics (handler_of cfg up route r w).metrics
  unfolding handler_of tools models
  handler_of-Recorded cfg up traffic ask_route r w = ask-Recorded cfg r up traffic w
  handler_of-Recorded cfg up traffic tools_route r w = nil-Recorded
  handler_of-Recorded cfg up traffic models_route r w = elim (Result-cases up.models) [
    | inl (tags, e) ↦ rw (models, e) nil-Recorded
    | inr (failure, e) ↦ rw (models, e) nil-Recorded
  ]

  require_token-Recorded :
      (r : Request) (validate : Bytes → Option ValidateError) (next : World lib → World lib)
      (w : World lib)
      → Recorded w.metrics (next w).metrics
      → Recorded w.metrics (require_token r validate next w).metrics
  unfolding require_token
  require_token-Recorded r validate next w h =
      elim (Result-cases (extract_bearer r.authorization)) [
        | inr (e, f) ↦ rw (require_token, f) nil-Recorded
        | inl (token, f) ↦ elim (Option-cases (validate token)) [
          | inl g ↦ rw (require_token, f, g) h
          | inr (e, g) ↦ rw (require_token, f, g) nil-Recorded
        ]
      ]

-- Samples of the middleware around those of the handler
abbrev pub framed : Bytes → Bytes → ℕ → List Sample → List Sample
framed endpoint method status samples =
    in_flight_inc
    ∷ (samples
        ++ in_flight_dec ∷ request_duration endpoint method ∷ requests endpoint method status ∷ [])

regroup :
    (xs ys samples : List Sample) (a b c d : Sample)
    → ys ≡ (xs ++ a ∷ []) ++ samples
    → ((ys ++ b ∷ []) ++ c ∷ []) ++ d ∷ [] ≡ xs ++ (a ∷ (samples ++ b ∷ c ∷ d ∷ []))
regroup xs ys samples a b c d e = simp (e, append_assoc)

-- A request on a route adds to the metrics one request in flight, what its handler records, the
-- request's end, its duration, and one request counted with the status that was recorded for it. What
-- the handler records has labels of fixed sets, a sanitised tool name or the name of a model in UTF-8,
-- and positive counts. The names of models in what encoding/json decodes, and the configured one, are UTF-8.
pub serve-Recorded :
    {lib : RateLibrary} (cfg : Config) (up : Upstream) (validate : Bytes → Option ValidateError)
    (caller_id : Bytes) (entropy : Entropy) (route : Route) (r : Request) (w : World lib)
    → IsUtf8Traffic cfg up
    → let w' = serve cfg up validate caller_id entropy route r w in
      (samples : List Sample) × All IsHandled samples
      × (w'.metrics ≡ w.metrics ++ framed (endpoint_of route) r.method w'.writer.status samples)
unfolding serve measured new_status_writer set_header
serve-Recorded cfg up validate caller_id entropy route r w traffic =
    let r' = record r { request_id = assign_id caller_id entropy } in
    let w1 = respond (set_header header_name (assign_id caller_id entropy)) w in
    let u = respond (λ s. new_status_writer s.inner) (observe in_flight_inc w1) in
    let h =
      require_token-Recorded r' validate (handler_of cfg up route r') u
        (handler_of-Recorded cfg up traffic route r' u) in
    (h.samples, h.handled, regroup w.metrics _ h.samples _ _ _ _ h.appended)
