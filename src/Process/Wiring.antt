-- ===== src/Process/Wiring.antt =====
-- `run` of cmd/gateway/main.go in front of the listeners: the configuration, the parts and the two
-- servers.
pub mod Wired
use opencost_ai.Prelude.{
  false, ◌*◌, ◌^◌, ℕ, List, [], ◌∷◌, Option, none, some, Result, ok, err, ◌>>=◌,
}
use opencost_ai.Prelude.Int.{ℤ, pos}
use opencost_ai.Text.{Bytes}
use opencost_ai.RateLimit.{RateLibrary}
use opencost_ai.RateLimit
use opencost_ai.Auth.Source.{Source, new_source}
use opencost_ai.Audit.{new_logger}
use opencost_ai.Config.{Config, Parsers, LoadError, load, ConfigError, validate}
use opencost_ai.Bridge.Client.{Client, HttpClient, NewError, with_http_client}
use opencost_ai.Bridge.Client
use opencost_ai.Server.New.{Options, Handlers, OptionError}
use opencost_ai.Server.New

-- The errors of `run`, by the call that failed.
pub data StartError : Type 0 where
  load_config : LoadError → StartError
  validate_config : ConfigError → List ConfigError → StartError
  bridge_client : NewError → StartError
  server_new : OptionError → StartError

-- What `run` sets of an `http.Server`, in nanoseconds
pub record HttpServer : Type 0 where
  pub addr : Bytes
  pub read_header_timeout : ℤ
  pub read_timeout : ℤ
  pub write_timeout : ℤ
  pub idle_timeout : ℤ

abbrev pub seconds : ℕ → ℤ
seconds n = pos (n * 10 ^ 9)

-- `srv` and `metricsSrv`
unfoldable pub api_server : Config → HttpServer
api_server c = record {
  addr = c.listen_addr;
  read_header_timeout = seconds 10;
  read_timeout = c.request_timeout;
  write_timeout = seconds 0;
  idle_timeout = seconds 120;
}

unfoldable pub metrics_server : Config → HttpServer
metrics_server c = record {
  addr = c.metrics_listen_addr;
  read_header_timeout = seconds 10;
  read_timeout = seconds 10;
  write_timeout = seconds 30;
  idle_timeout = seconds 120;
}

pub record Gateway (lib : RateLibrary) (L : Type 0) : Type 0 where
  pub config : Config
  pub handlers : Handlers lib Client Source L
  pub api : HttpServer
  pub metrics : HttpServer

abbrev pub mapped_err {ℓ κ μ} :
    {E : Type ℓ} {F : Type κ} {A : Type μ} → (E → F) → Result E A → Result F A
mapped_err f (ok a) = ok a
mapped_err f (err e) = err (f e)

-- The check of the errors of Validate, behind which the configuration is used.
abbrev pub validated : List ConfigError → Config → Result StartError Config
validated [] c = ok c
validated (e ∷ es) c = err (validate_config e es)

abbrev pub client_of : Parsers → Config → Result NewError Client
client_of p c =
    Client.new
      (with_http_client (
          some
            (record { timeout = c.request_timeout; transport = none; refuses_redirects = false }))
        ∷ [])
      (p.parse_url c.bridge_url)

module _ (lib : RateLibrary) {L : Type 0} where
  -- The options of `server.New`
  abbrev pub options_of : L → Config → Client → Options lib Client Source L
  options_of logger c client = record {
    bridge = some client;
    auth_validator = some (new_source c.auth_token_file);
    default_model = c.default_model;
    max_request_bytes = c.max_request_bytes;
    logger = some logger;
    audit = some (new_logger c.audit_log_query);
    rate_limiter = some (RateLimit.new lib c.rate_limit_per_min);
    metrics = some [];
    request_timeout = c.request_timeout;
  }

  -- `run` up to the two servers, with `slog.Default()` and the environment
  unfoldable pub start :
      (slog_default logger : L)
      → Parsers
      → (get : Bytes → Option Bytes) → Result StartError (Gateway lib L)
  unfolding api_server metrics_server
  start slog_default logger p get = mapped_err load_config (load p get) >>= λ loaded.
      validated (validate p loaded) loaded >>= λ c.
      mapped_err bridge_client (client_of p c) >>= λ client.
      mapped_err server_new (New.new slog_default (options_of logger c client)) >>= λ handlers.
      ok
        (record { config = c; handlers = handlers; api = api_server c; metrics = metrics_server c })
