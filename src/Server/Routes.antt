-- ===== src/Server/Routes.antt =====
-- The other handlers of internal/server/handlers.go, the middleware of internal/auth/middleware.go,
-- internal/requestid/requestid.go and internal/server/middleware.go around them, and the routes of
-- internal/server/server.go.
pub mod Guard
use opencost_ai.Prelude.{
  ℕ, Bool, true, false, not, List, [], ◌∷◌, ◌++◌, Option, none, some, Result, ok, err, map,
  if◌then◌else◌, is_nil, ◌==◌, ◌||◌,
}
use opencost_ai.Text.{Bytes, text, beq}
use opencost_ai.RequestId.{Entropy, assign_id}
use opencost_ai.RateLimit.{RateLibrary}
use opencost_ai.Bridge.Types.{TagModel}
use opencost_ai.Api.{Model, Problem}
use opencost_ai.Auth.Header.{extract_bearer, header_error_text}
use opencost_ai.Auth.Source.{ValidateError, no_token, invalid_token, other}
use opencost_ai.Metrics.{in_flight_inc, in_flight_dec, request_duration, requests}
use opencost_ai.Server.Writer.{
  Item, ResponseWriter, StatusWriter, set_header, write_header, write, new_status_writer,
}
use opencost_ai.Server.World.{Config, Request, World, Upstream, models_call, respond, observe, call}
use opencost_ai.Server.Problem.{
  header_name, problem_content_type, problem_of, map_bridge_error, write_json,
}
use opencost_ai.Server.Ask.{ask}

-- A route's handler behind the middleware.
abbrev pub Handler : RateLibrary → Type 0
Handler lib = World lib → World lib

-- `apiv1.Model` of a `TagModel`
abbrev pub model_of : TagModel → Model
model_of m = record {
  name = m.name;
  digest = m.digest;
  size = m.size;
  modified_at = m.modified_at;
  family = m.details.family;
  parameter_size = m.details.parameter_size;
  quantization = m.details.quantization_level;
}

-- `writeProblem` of internal/auth/middleware.go, which encodes a value of strings and numbers and
-- ignores an error.
unfoldable pub auth_problem : Request → ℕ → Bytes → Bytes → StatusWriter → StatusWriter
auth_problem r status title detail s =
    let typed = set_header (text "Content-Type") problem_content_type s in
    let echoed =
      if not (is_nil r.request_id) then set_header header_name r.request_id typed else typed in
    let challenged =
      if status == 401
      then set_header (text "WWW-Authenticate") (text "Bearer realm=\"opencost-ai\"") echoed
      else echoed in
    write (Item.problem (problem_of r status title detail)) (write_header status challenged)

module _ {lib : RateLibrary} (cfg : Config) where
  -- `tools`
  unfoldable pub tools : Request → Handler lib
  tools r =
      respond (write_json cfg r 200 (Item.tools (record { tools = []; discovery_deferred = true })))

  -- `models`
  unfoldable pub models : Upstream → Request → Handler lib
  models up r w =
      let w' = call models_call w in
      elim up.models [
        | err e ↦ respond (map_bridge_error cfg r e) w'
        | ok tags ↦
            respond
              (write_json cfg r 200 (
                Item.models
                  (record { models = map model_of tags; default_model = cfg.default_model })))
              w'
      ]

-- What `Middleware` of internal/auth writes for an error of the validator: status, title, detail.
abbrev pub denial : ValidateError → ℕ × Bytes × Bytes
denial no_token =
    (503, text "Service Unavailable", text "authentication is not configured on this gateway")
denial invalid_token = (401, text "Unauthorized", text "invalid bearer token")
denial other = (500, text "Internal Server Error", text "authentication check failed")

module _ {lib : RateLibrary} (r : Request) where
  -- `Middleware` of internal/auth, with the result of `Validate` for a token.
  unfoldable pub require_token :
      (validate : Bytes → Option ValidateError) → Handler lib → Handler lib
  require_token validate next w = elim (extract_bearer r.authorization) [
    | err e ↦ respond (auth_problem r 401 (text "Unauthorized") (header_error_text e)) w
    | ok token ↦ elim (validate token) [
      | none ↦ next w
      | some e ↦
          let (status, title, detail) = denial e in respond (auth_problem r status title detail) w
    ]
  ]

  -- `metricsMiddleware`, on the response writer of the server
  unfoldable pub measured : (endpoint : Bytes) → Handler lib → Handler lib
  measured endpoint next w =
      let w' = next (respond (λ s. new_status_writer s.inner) (observe in_flight_inc w)) in
      observe (requests endpoint r.method w'.writer.status)
        (observe (request_duration endpoint r.method) (observe in_flight_dec w'))

-- The patterns of `New`.
pub data Route : Type 0 where
  ask_route tools_route models_route : Route

unfoldable pub endpoint_of : Route → Bytes
endpoint_of ask_route = text "/v1/ask"
endpoint_of tools_route = text "/v1/tools"
endpoint_of models_route = text "/v1/models"

module _ {lib : RateLibrary} (cfg : Config) (up : Upstream) where
  unfoldable pub handler_of : Route → Request → Handler lib
  handler_of ask_route r = ask cfg up r
  handler_of tools_route r = tools cfg r
  handler_of models_route r = models cfg up r

  -- `ridMW(metricsMW(endpoint, authMW(handler)))`, with the X-Request-ID header of the request and
  -- what `requestid.New` reads if it is called.
  unfoldable pub serve :
      (validate : Bytes → Option ValidateError) (caller_id : Bytes)
      → Entropy
      → Route
      → Request
      → Handler lib
  serve validate caller_id entropy route r w =
      let id = assign_id caller_id entropy in
      let r' = record r { request_id = id } in
      measured r' (endpoint_of route) (require_token r' validate (handler_of route r'))
        (respond (set_header header_name id) w)
