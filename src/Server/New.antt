-- ===== src/Server/New.antt =====
-- `New` of internal/server/server.go: the checks of the options, and the mux of the three routes.
pub mod Complete
pub mod Routing
pub mod Guarded
use opencost_ai.Prelude.{
  ℕ, Bool, true, false, not, List, [], ◌∷◌, Option, none, some, Result, ok, err, ◌>>=◌, is_nil, map,
  if◌then◌else◌,
}
use opencost_ai.Prelude.Int.{ℤ, is_positive, pos_part}
use opencost_ai.Text.{Bytes, text}
use opencost_ai.RequestId.{Entropy}
use opencost_ai.RateLimit.{RateLibrary, Limiter}
use opencost_ai.Audit.{Logger}
use opencost_ai.Auth.Source.{ValidateError}
use opencost_ai.Metrics.{Sample}
use opencost_ai.Server.Writer.{Item}
use opencost_ai.Server.World.{Config, Decoded, Request, World, Upstream}
use opencost_ai.Server.Mux.{Target, Pattern, exact, serve_mux}
use opencost_ai.Server.Routes.{Handler, Route, ask_route, tools_route, models_route, serve}

-- A nil field is `none`. `B`, `V` and `L` are the types of the bridge, the validator and the logger.
pub record Options (lib : RateLibrary) (B V L : Type 0) : Type 0 where
  pub bridge : Option B
  pub auth_validator : Option V
  pub default_model : Bytes
  pub max_request_bytes : ℤ
  pub logger : Option L
  pub audit : Option Logger
  pub rate_limiter : Option (Limiter lib)
  pub metrics : Option (List Sample)
  pub request_timeout : ℤ

-- The struct `handlers`, with the validator that `New` hands to the middleware.
pub record Handlers (lib : RateLibrary) (B V L : Type 0) : Type 0 where
  pub bridge : B
  pub auth_validator : V
  pub logger : L
  pub default_model : Bytes
  pub max_request_bytes : ℤ
  pub audit : Logger
  pub limiter : Limiter lib
  pub metrics : List Sample
  pub request_timeout : ℤ

pub data OptionError : Type 0 where
  no_bridge no_auth_validator no_default_model bad_max_request_bytes no_audit no_rate_limiter
        no_metrics bad_request_timeout :
      OptionError

-- `if opts.Bridge == nil`, behind which the field is used.
abbrev pub required : {A : Type 0} → OptionError → Option A → Result OptionError A
required e none = err e
required e (some a) = ok a

-- `if opts.MaxRequestBytes <= 0`, with the value that is used behind it.
abbrev pub checked : {A : Type 0} → OptionError → Bool → A → Result OptionError A
checked e b a = if b then ok a else err e

abbrev pub logger_or : {L : Type 0} → L → Option L → L
logger_or d none = d
logger_or d (some l) = l

module _ {lib : RateLibrary} {B V L : Type 0} where
  -- `New` in front of the mux, with `slog.Default()`
  unfoldable pub new :
      (slog_default : L) → Options lib B V L → Result OptionError (Handlers lib B V L)
  new slog_default o = required no_bridge o.bridge >>= λ bridge.
      required no_auth_validator o.auth_validator >>= λ auth_validator.
      checked no_default_model (not (is_nil o.default_model)) o.default_model >>= λ default_model.
      checked bad_max_request_bytes (is_positive o.max_request_bytes) o.max_request_bytes
      >>= λ max_request_bytes. required no_audit o.audit >>= λ audit.
          required no_rate_limiter o.rate_limiter >>= λ limiter.
          required no_metrics o.metrics >>= λ metrics.
          checked bad_request_timeout (is_positive o.request_timeout) o.request_timeout
          >>= λ request_timeout. ok (record {
            bridge = bridge;
            auth_validator = auth_validator;
            logger = logger_or slog_default o.logger;
            default_model = default_model;
            max_request_bytes = max_request_bytes;
            audit = audit;
            limiter = limiter;
            metrics = metrics;
            request_timeout = request_timeout;
          })

-- The patterns that `New` registers.
unfoldable pub api_patterns : List (Pattern × Route)
api_patterns =
    (exact (text "POST") (text "v1" ∷ text "ask" ∷ []), ask_route)
    ∷ (exact (text "GET") (text "v1" ∷ text "tools" ∷ []), tools_route)
    ∷ (exact (text "GET") (text "v1" ∷ text "models" ∷ []), models_route)
    ∷ []

module _ {lib : RateLibrary} (cfg : Config) (up : Upstream) where
  -- The handler that `New` returns.
  unfoldable pub api_handler :
      (validate : Bytes → Option ValidateError) (caller_id : Bytes)
      → Entropy
      → Request
      → Target
      → Handler lib
  unfolding api_patterns
  api_handler validate caller_id entropy r t =
      serve_mux (λ route. serve cfg up validate caller_id entropy route r) r.method t api_patterns
