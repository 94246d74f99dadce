-- ===== src/Server/Script/Serve.antt =====
-- The other handlers, the middleware and the routes of internal/server/server.go, as steps.
use opencost_ai.Prelude.{
  ℕ, refl, map, Bool, true, [], ◌∷◌, Option, Result-cases, Option-cases, inl, inr,
}
use opencost_ai.Prelude.Int.{ℤ}
use opencost_ai.Text.{Bytes, text}
use opencost_ai.RateLimit.{RateLibrary}
use opencost_ai.RequestId.{Entropy, assign_id}
use opencost_ai.Auth.Header.{extract_bearer, header_error_text}
use opencost_ai.Auth.Source.{ValidateError}
use opencost_ai.Metrics.{in_flight_inc, in_flight_dec, request_duration, requests}
use opencost_ai.Server.Writer.{Item, set_header, new_status_writer}
use opencost_ai.Server.World.{Config, Request, World, Upstream, models_call, call, observe, respond}
use opencost_ai.Server.Problem.{header_name, write_json, map_bridge_error}
use opencost_ai.Server.Routes.{
  model_of, auth_problem, denial, tools, models, require_token, measured, Route, ask_route,
  tools_route, models_route, endpoint_of, handler_of, serve,
}
use opencost_ai.Server.Script.{sample, act, perform}
use opencost_ai.Server.Script.Plain.{Plain, respond-Plain, call-Plain, observe-Plain, then-Plain}
use opencost_ai.Server.Script.Compose.{
  Scripted, plain-Scripted, before-Scripted, after-Scripted, same-Scripted,
}
use opencost_ai.Server.Script.Ask.{ask-Scripted}

module _ {lib : RateLibrary} where
  -- The metrics behind the handler, with the status of the response
  abbrev counted : Request → Bytes → World lib → World lib
  counted r endpoint w' =
      observe (requests endpoint r.method w'.writer.status)
        (observe (request_duration endpoint r.method) (observe in_flight_dec w'))

module _ {lib : RateLibrary} {flag : Bool} {limit : ℤ} (cfg : Config) (r : Request) where
  models-Scripted : (up : Upstream) → Scripted {lib = lib} flag limit (models cfg up r)
  unfolding models Result-cases call-Plain plain-Scripted respond-Plain same-Scripted then-Plain
  models-Scripted up = elim (Result-cases up.models) [
    | inr (e, f) ↦
        same-Scripted _ _ (λ w h. rw (models, f) refl)
          (plain-Scripted _ (
            then-Plain (call models_call) _ (call-Plain models_call)
              (respond-Plain (map_bridge_error cfg r e))))
    | inl (tags, f) ↦
        same-Scripted _ _ (λ w h. rw (models, f) refl)
          (plain-Scripted _ (
            then-Plain (call models_call) _ (call-Plain models_call) (
              respond-Plain (
                write_json cfg r 200 (
                  Item.models
                    (record { models = map model_of tags; default_model = cfg.default_model }))))))
  ]

  handler_of-Scripted :
      (up : Upstream) (route : Route) → Scripted {lib = lib} flag limit (handler_of cfg up route r)
  unfolding handler_of tools ask-Scripted models-Scripted plain-Scripted respond-Plain
  handler_of-Scripted up ask_route = ask-Scripted cfg r up
  handler_of-Scripted up models_route = models-Scripted up
  handler_of-Scripted up tools_route = plain-Scripted _ (
      respond-Plain
        (write_json cfg r 200 (Item.tools (record { tools = []; discovery_deferred = true }))))

  denied-Scripted :
      (status : ℕ) (title detail : Bytes)
      → Scripted {lib = lib} flag limit (respond (auth_problem r status title detail))
  unfolding plain-Scripted respond-Plain
  denied-Scripted status title detail =
      plain-Scripted _ (respond-Plain (auth_problem r status title detail))

  require_token-Scripted :
      (validate : Bytes → Option ValidateError) (next : World lib → World lib)
      → Scripted flag limit next
      → Scripted flag limit (require_token r validate next)
  unfolding require_token Option-cases Result-cases denied-Scripted same-Scripted
  require_token-Scripted validate next p = elim (Result-cases (extract_bearer r.authorization)) [
    | inr (e, f) ↦
        same-Scripted _ _ (λ w h. rw (require_token, f) refl)
          (denied-Scripted 401 (text "Unauthorized") (header_error_text e))
    | inl (token, f) ↦ elim (Option-cases (validate token)) [
      | inl g ↦ same-Scripted _ next (λ w h. rw (require_token, f, g) refl) p
      | inr (e, g) ↦
          same-Scripted _ _ (λ w h. rw (require_token, f, g) refl)
            (denied-Scripted (denial e).0 (denial e).1 (denial e).2)
    ]
  ]

  counted-Plain : (endpoint : Bytes) → Plain {lib = lib} flag limit (counted r endpoint)
  unfolding act perform
  counted-Plain endpoint = record {
    acts = λ s.
        sample in_flight_dec
        ∷ sample (request_duration endpoint r.method)
        ∷ sample (requests endpoint r.method s.status)
        ∷ [];
    writer = λ s. s;
    runs = λ w h. refl;
  }

  measured-Scripted :
      (endpoint : Bytes) (next : World lib → World lib)
      → Scripted flag limit next
      → Scripted flag limit (measured r endpoint next)
  unfolding measured after-Scripted before-Scripted counted-Plain observe-Plain respond-Plain
  measured-Scripted endpoint next p =
      after-Scripted _ (counted r endpoint)
        (before-Scripted (observe in_flight_inc) _ (observe-Plain in_flight_inc) (
          before-Scripted (respond (λ s. new_status_writer s.inner)) next
            (respond-Plain (λ s. new_status_writer s.inner)) p))
        (counted-Plain endpoint)

-- A request on a route is a script.
unfoldable pub serve-Scripted :
    {lib : RateLibrary} {flag : Bool} {limit : ℤ} (cfg : Config) (up : Upstream)
    (validate : Bytes → Option ValidateError) (caller_id : Bytes) (entropy : Entropy)
    (route : Route) (r : Request)
    → Scripted {lib = lib} flag limit (serve cfg up validate caller_id entropy route r)
unfolding serve before-Scripted handler_of-Scripted measured-Scripted require_token-Scripted
    respond-Plain
serve-Scripted cfg up validate caller_id entropy route r =
    let id = assign_id caller_id entropy in
    let r' = record r { request_id = id } in
    before-Scripted (respond (set_header header_name id)) _
      (respond-Plain (set_header header_name id))
      (measured-Scripted cfg r' (endpoint_of route) _
        (require_token-Scripted cfg r' validate _ (handler_of-Scripted cfg r' up route)))
