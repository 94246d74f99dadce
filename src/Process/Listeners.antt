-- ===== src/Process/Listeners.antt =====
-- The handlers of the two listeners: `newMux`, `newMetricsMux` and `healthHandler` of
-- cmd/gateway/main.go.
pub mod Public
use opencost_ai.Prelude.{ℕ, List, [], ◌∷◌, ◌++◌, Option, none, some}
use opencost_ai.Text.{Bytes, text}
use opencost_ai.Text.Dict.{insert}
use opencost_ai.RequestId.{Entropy}
use opencost_ai.RateLimit.{RateLibrary}
use opencost_ai.Auth.Source.{ValidateError}
use opencost_ai.Api.{HealthResponse}
use opencost_ai.Server.Writer.{Item, StatusWriter, ResponseWriter, commit}
use opencost_ai.Server.World.{Config, Request, World, Upstream, respond}
use opencost_ai.Server.Mux.{Target, Pattern, exact, subtree, serve_mux}
use opencost_ai.Server.New.{api_handler}

-- `version`, which the linker sets, is an argument.
abbrev pub health_of : Bytes → HealthResponse
health_of version = record { status = text "ok"; version = version }

-- The response of the handler that `healthHandler` returns; it encodes two texts, which succeeds.
unfoldable pub health : Bytes → ResponseWriter → ResponseWriter
health version w =
    let typed = record w {
      header = insert (text "Content-Type") (text "application/json") w.header;
    } in
    let sent = commit 200 typed in
    record sent { items = sent.items ++ Item.health (health_of version) ∷ [] }

-- The patterns of `newMux`, and their handlers by name.
pub data PublicHandler : Type 0 where
  health_handler gateway_handler : PublicHandler

unfoldable pub public_patterns : List (Pattern × PublicHandler)
public_patterns =
    (exact (text "GET") (text "v1" ∷ text "health" ∷ []), health_handler)
    ∷ (subtree (text "v1" ∷ []), gateway_handler)
    ∷ []

pub data MetricsHandler : Type 0 where
  registry_handler : MetricsHandler

-- The one pattern of `newMetricsMux`
unfoldable pub metrics_patterns : List (Pattern × MetricsHandler)
metrics_patterns = (exact (text "GET") (text "metrics" ∷ []), registry_handler) ∷ []

-- The handler that `newMetricsMux` returns, on `reg.Handler()` of the Prometheus client.
unfoldable pub metrics_handler :
    {lib : RateLibrary}
    → (registry : Request → World lib → World lib) → Request
    → Target
    → World lib
    → World lib
unfolding metrics_patterns
metrics_handler registry r t = serve_mux (λ h. registry r) r.method t metrics_patterns

module _ {lib : RateLibrary} (version : Bytes) (cfg : Config) (up : Upstream) where
  abbrev pub run_public :
      (validate : Bytes → Option ValidateError) (caller_id : Bytes)
      → Entropy
      → Request
      → Target
      → PublicHandler
      → World lib
      → World lib
  run_public validate caller_id entropy r t health_handler =
      respond (λ s. record s { inner = health version s.inner })
  run_public validate caller_id entropy r t gateway_handler =
      api_handler cfg up validate caller_id entropy r t

  -- The handler that `newMux` returns.
  unfoldable pub public_handler :
      (validate : Bytes → Option ValidateError) (caller_id : Bytes)
      → Entropy
      → Request
      → Target
      → World lib
      → World lib
  unfolding public_patterns health
  public_handler validate caller_id entropy r t =
      serve_mux (run_public validate caller_id entropy r t) r.method t public_patterns
