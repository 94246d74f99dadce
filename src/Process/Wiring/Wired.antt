-- ===== src/Process/Wiring/Wired.antt =====
-- When `run` gets to its listeners, and with what.
use opencost_ai.Prelude.{
  ◌≡◌, refl, sym, ap, ◌∙◌, true, false, List, [], ◌∷◌, Option, none, some, Result, ok, err, bind-ok,
  value_of, is_nil-ne,
}
use opencost_ai.Prelude.Int.{pos}
use opencost_ai.Text.{Bytes}
use opencost_ai.RateLimit.{RateLibrary}
use opencost_ai.RateLimit
use opencost_ai.Auth.Source.{Source, new_source}
use opencost_ai.Audit.{new_logger}
use opencost_ai.Bridge.Client.{
  Client, ClientOption, new, Url, apply_options, apply_option, with_http_client,
}
use opencost_ai.Bridge.Client.Urls.{new-built, new-IsGoodUrl}
use opencost_ai.Config.{Config, Parsers, load, ConfigError, validate}
use opencost_ai.Config.Valid.{IsReady, validate-IsReady}
use opencost_ai.Server.New.{Handlers, logger_or}
use opencost_ai.Server.New
use opencost_ai.Server.New.Complete.{new_iff}
use opencost_ai.Process.Wiring.{
  api_server, metrics_server, Gateway, mapped_err, validated, client_of, options_of, start,
  load_config,
}

mapped-ok : {E F A : Type 0} (f : E → F) (x : Result E A) (a : A) → mapped_err f x ≡ ok a → x ≡ ok a
mapped-ok f (ok b) a h = ap ok (sym (value_of h))
mapped-ok f (err e) a h = cc

validated-ok : (es : List ConfigError) (c d : Config) → validated es c ≡ ok d → (es ≡ []) × (d ≡ c)
validated-ok [] c d h = (refl, value_of h)
validated-ok (e ∷ es) c d h = cc

-- What the parts are made of.
pub record IsWired {lib : RateLibrary} {L : Type 0} (c : Config) (g : Gateway lib L) : Type 0 where
  pub config : g.config ≡ c
  pub client_timeout : g.handlers.bridge.hc.timeout ≡ c.request_timeout
  pub stream_timeout : g.handlers.bridge.stream_hc.timeout ≡ pos 0
  pub write_timeout : g.api.write_timeout ≡ pos 0
  pub no_redirects :
      (g.handlers.bridge.hc.refuses_redirects ≡ true)
      × (g.handlers.bridge.stream_hc.refuses_redirects ≡ true)
  pub source : g.handlers.auth_validator ≡ new_source c.auth_token_file
  pub model : g.handlers.default_model ≡ c.default_model
  pub size : g.handlers.max_request_bytes ≡ c.max_request_bytes
  pub audit : g.handlers.audit ≡ new_logger c.audit_log_query
  pub limiter : g.handlers.limiter ≡ RateLimit.new lib c.rate_limit_per_min
  pub frame_timeout : g.handlers.request_timeout ≡ c.request_timeout
  pub listen : (g.api.addr ≡ c.listen_addr) × (g.metrics.addr ≡ c.metrics_listen_addr)

abbrev options : Config → List ClientOption
options c =
    with_http_client
      (some (record { timeout = c.request_timeout; transport = none; refuses_redirects = false }))
    ∷ []

-- The client of a URL that parses has the timeout for a request and none for a stream.
client-timeouts :
    (c : Config) (u : Result Bytes Url) (client : Client)
    → new (options c) u ≡ ok client
    → (client.hc.timeout ≡ c.request_timeout)
      × (client.stream_hc.timeout ≡ pos 0)
      × (client.hc.refuses_redirects ≡ true)
      × (client.stream_hc.refuses_redirects ≡ true)
unfolding new apply_options apply_option
client-timeouts c (err e) client h = cc
client-timeouts c (ok u) client h =
    let same =
      value_of (sym (new-built (options c) u (new-IsGoodUrl (options c) u client h)) ∙ h) in
    rw same (refl, refl, refl, refl)

module _ {lib : RateLibrary} {L : Type 0} (logger : L) where
  -- The handlers that are made of a configuration and a client.
  abbrev made : Config → Client → Handlers lib Client Source L
  made c client = record {
    bridge = client;
    auth_validator = new_source c.auth_token_file;
    logger = logger;
    default_model = c.default_model;
    max_request_bytes = c.max_request_bytes;
    audit = new_logger c.audit_log_query;
    limiter = RateLimit.new lib c.rate_limit_per_min;
    metrics = [];
    request_timeout = c.request_timeout;
  }

  abbrev gateway_of : Config → Client → Gateway lib L
  gateway_of c client = record {
    config = c;
    handlers = made c client;
    api = api_server c;
    metrics = metrics_server c;
  }

  made-new :
      (d : L) (p : Parsers) (c : Config) (client : Client) (opts : List ClientOption)
      → IsReady p c opts
      → New.new d (options_of lib logger c client) ≡ ok (made c client)
  made-new d p c client opts ready =
      (new_iff d (options_of lib logger c client) (made c client)).1 (record {
        bridge = refl;
        auth_validator = refl;
        audit = refl;
        limiter = refl;
        metrics = refl;
        model = refl;
        filled = is_nil-ne c.default_model ready.model;
        size = refl;
        positive = ready.size;
        timeout = refl;
        timeout_positive = ready.timeout;
        logger = refl;
      })

  gateway_of-IsWired :
      (p : Parsers) (c : Config) (client : Client)
      → client_of p c ≡ ok client
      → IsWired c (gateway_of c client)
  unfolding api_server metrics_server
  gateway_of-IsWired p c client h =
      let (timeout, stream, once, streamed) =
        client-timeouts c (p.parse_url c.bridge_url) client h in
      record {
        config = refl;
        client_timeout = timeout;
        stream_timeout = stream;
        write_timeout = refl;
        no_redirects = (once, streamed);
        source = refl;
        model = refl;
        size = refl;
        audit = refl;
        limiter = refl;
        frame_timeout = refl;
        listen = (refl, refl);
      }

  -- With a configuration that Load returns and Validate accepts nothing in front of the listeners
  -- fails, and the parts are made of its values: requests to the bridge are bounded by its timeout,
  -- streams and their responses are not, and no redirect of the bridge is followed.
  pub start-IsWired :
      (d : L) (p : Parsers) (get : Bytes → Option Bytes) (c : Config)
      → load p get ≡ ok c
      → validate p c ≡ []
      → (g : Gateway lib L) × (start lib d logger p get ≡ ok g) × IsWired c g
  unfolding start
  start-IsWired d p get c loaded valid =
      let ready = validate-IsReady p c (options c) valid in
      (
        gateway_of c ready.client,
        rw (start, loaded, valid, ready.bridge, made-new d p c ready.client (options c) ready) refl,
        gateway_of-IsWired p c ready.client ready.bridge,
      )

  -- The listeners start only with a configuration that Load returns and Validate accepts, and the
  -- parts are then made of its values.
  pub start-valid :
      (d : L) (p : Parsers) (get : Bytes → Option Bytes) (g : Gateway lib L)
      → start lib d logger p get ≡ ok g
      → (c : Config) × (load p get ≡ ok c) × (validate p c ≡ []) × IsWired c g
  unfolding start
  start-valid d p get g h =
      let (c, loading, rest) = bind-ok (mapped_err load_config (load p get)) _ _ h in
      let (c', validating, rest') = bind-ok (validated (validate p c) c) _ _ rest in
      let (valid, same) = validated-ok _ c c' validating in
      let loaded = mapped-ok load_config (load p get) c loading in
      let (g', started, wired) = start-IsWired d p get c loaded valid in
      let same_gateway = value_of (sym started ∙ h) in (c, loaded, valid, rw same_gateway wired)
