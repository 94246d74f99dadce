-- ===== src/Config.antt =====
-- internal/config/config.go: the configuration from the environment and its checks.
pub mod Valid
pub mod Loaded
mod Tests
use opencost_ai.Prelude.{
  ℕ, Bool, true, false, not, ◌&&◌, List, [], ◌∷◌, ◌++◌, ◌*◌, ◌^◌, Option, none, some, Result, ok,
  err, ◌>>=◌, if◌then◌else◌, is_nil,
}
use opencost_ai.Prelude.Int.{ℤ, pos, is_positive}
use opencost_ai.Text.{Bytes, text, beq, to_lower}
use opencost_ai.Text.Trim.{trim_space}
use opencost_ai.Bridge.Client.{Url}

-- Durations are in nanoseconds.
pub record Config : Type 0 where
  pub bridge_url : Bytes
  pub listen_addr : Bytes
  pub default_model : Bytes
  pub request_timeout : ℤ
  pub max_request_bytes : ℤ
  pub audit_log_query : Bool
  pub auth_token_file : Bytes
  pub rate_limit_per_min : ℤ
  pub metrics_listen_addr : Bytes

unfoldable pub default_config : Config
default_config = record {
  bridge_url = text "http://ollama-mcp-bridge:8000";
  listen_addr = text ":8080";
  default_model = text "granite4.2:8b";
  request_timeout = pos (120 * 10 ^ 9);
  max_request_bytes = pos 8192;
  audit_log_query = false;
  auth_token_file = text "/var/run/secrets/opencost-ai/token";
  rate_limit_per_min = pos 60;
  metrics_listen_addr = text "127.0.0.1:9090";
}

-- The parsers that the package calls: time.ParseDuration, strconv.ParseInt in base 10 for int64
-- (and Atoi, which is the same), url.Parse, net.SplitHostPort and net.LookupPort for tcp.
pub record Parsers : Type 0 where
  pub parse_duration : Bytes → Option ℤ
  pub parse_int : Bytes → Option ℤ
  pub parse_url : Bytes → Result Bytes Url
  pub split_host_port : Bytes → Option (Bytes × Bytes)
  pub lookup_port : Bytes → Option ℕ

-- An error of `Load`, by the variable that it names.
pub data LoadError : Type 0 where
  empty bad_duration bad_int bad_bool : (variable : Bytes) → LoadError

abbrev pub is_one_of : Bytes → List Bytes → Bool
unfolding beq
is_one_of s [] = false
is_one_of s (t ∷ ts) = if beq s t then true else is_one_of s ts

abbrev pub true_words : List Bytes
true_words = text "1" ∷ text "t" ∷ text "true" ∷ text "y" ∷ text "yes" ∷ text "on" ∷ []

abbrev pub false_words : List Bytes
false_words = text "0" ∷ text "f" ∷ text "false" ∷ text "n" ∷ text "no" ∷ text "off" ∷ []

-- `parseBool`; `none` is its error
unfoldable pub parse_bool : Bytes → Option Bool
unfolding beq
parse_bool v =
    let w = to_lower (trim_space v) in
    if is_one_of w true_words
    then some true
    else if is_one_of w false_words
    then some false
    else none

-- The constants `EnvBridgeURL` to `EnvMetricsListenAddr`
abbrev pub env_bridge_url : Bytes
env_bridge_url = text "OPENCOST_AI_BRIDGE_URL"

abbrev pub env_listen_addr : Bytes
env_listen_addr = text "OPENCOST_AI_LISTEN_ADDR"

abbrev pub env_default_model : Bytes
env_default_model = text "OPENCOST_AI_DEFAULT_MODEL"

abbrev pub env_request_timeout : Bytes
env_request_timeout = text "OPENCOST_AI_REQUEST_TIMEOUT"

abbrev pub env_max_request_bytes : Bytes
env_max_request_bytes = text "OPENCOST_AI_MAX_REQUEST_BYTES"

abbrev pub env_audit_log_query : Bytes
env_audit_log_query = text "OPENCOST_AI_AUDIT_LOG_QUERY"

abbrev pub env_auth_token_file : Bytes
env_auth_token_file = text "OPENCOST_AI_AUTH_TOKEN_FILE"

abbrev pub env_rate_limit_per_min : Bytes
env_rate_limit_per_min = text "OPENCOST_AI_RATE_LIMIT_PER_MIN"

abbrev pub env_metrics_listen_addr : Bytes
env_metrics_listen_addr = text "OPENCOST_AI_METRICS_LISTEN_ADDR"

-- The steps of `Load`, by kind of value, on what `get` returns for a variable; a variable that is not
-- set leaves the default.
abbrev pub string_or : Bytes → Bytes → Option Bytes → Result LoadError Bytes
string_or variable fallback none = ok fallback
string_or variable fallback (some v) = if is_nil v then err (empty variable) else ok v

abbrev pub read_as {ℓ} : {A : Type ℓ} → LoadError → Option A → Result LoadError A
read_as e none = err e
read_as e (some a) = ok a

abbrev pub set_or {ℓ} :
    {A : Type ℓ} → LoadError → (Bytes → Option A) → A → Option Bytes → Result LoadError A
set_or e parse fallback none = ok fallback
set_or e parse fallback (some v) = read_as e (parse v)

-- For the two variables that may be set to the empty text.
abbrev pub filled_or {ℓ} :
    {A : Type ℓ} → LoadError → (Bytes → Option A) → A → Option Bytes → Result LoadError A
filled_or e parse fallback none = ok fallback
filled_or e parse fallback (some v) = if is_nil v then ok fallback else read_as e (parse v)

-- `Load`; the configuration that it returns beside an error is not used.
unfoldable pub load : Parsers → (get : Bytes → Option Bytes) → Result LoadError Config
unfolding parse_bool default_config
load p get =
    let d = default_config in
    string_or env_bridge_url d.bridge_url (get env_bridge_url) >>= λ bridge_url.
    string_or env_listen_addr d.listen_addr (get env_listen_addr) >>= λ listen_addr.
    string_or env_default_model d.default_model (get env_default_model) >>= λ default_model.
    set_or (bad_duration env_request_timeout) p.parse_duration d.request_timeout
      (get env_request_timeout)
    >>= λ request_timeout.
        set_or (bad_int env_max_request_bytes) p.parse_int d.max_request_bytes
          (get env_max_request_bytes)
        >>= λ max_request_bytes.
            filled_or (bad_bool env_audit_log_query) parse_bool d.audit_log_query
              (get env_audit_log_query)
            >>= λ audit_log_query.
                string_or env_auth_token_file d.auth_token_file (get env_auth_token_file)
                >>= λ auth_token_file.
                    filled_or (bad_int env_rate_limit_per_min) p.parse_int d.rate_limit_per_min
                      (get env_rate_limit_per_min)
                    >>= λ rate_limit_per_min.
                        string_or env_metrics_listen_addr d.metrics_listen_addr
                          (get env_metrics_listen_addr)
                        >>= λ metrics_listen_addr. ok (record {
                          bridge_url = bridge_url;
                          listen_addr = listen_addr;
                          default_model = default_model;
                          request_timeout = request_timeout;
                          max_request_bytes = max_request_bytes;
                          audit_log_query = audit_log_query;
                          auth_token_file = auth_token_file;
                          rate_limit_per_min = rate_limit_per_min;
                          metrics_listen_addr = metrics_listen_addr;
                        })

-- `validateListenAddr`: whether it returns nil
unfoldable pub validate_listen_addr : Parsers → Bytes → Bool
validate_listen_addr p addr = elim (p.split_host_port addr) [
  | none ↦ false
  | some (host, port) ↦
      if is_nil port then false else elim (p.lookup_port port) [ none ↦ false | some _ ↦ true ]
]

-- The errors that `Validate` joins.
pub data ConfigError : Type 0 where
  url_error scheme_error host_error listen_addr_error model_error timeout_error size_error
        token_file_error metrics_addr_error :
      ConfigError

abbrev pub error_if : Bool → ConfigError → List ConfigError
error_if b e = if b then e ∷ [] else []

unfoldable pub url_errors : Result Bytes Url → List ConfigError
url_errors (err e) = url_error ∷ []
url_errors (ok u) =
    if not (beq u.scheme (text "http")) && not (beq u.scheme (text "https"))
    then scheme_error ∷ []
    else if is_nil u.host
    then host_error ∷ []
    else []

abbrev pub addr_errors : Parsers → Bytes → ConfigError → List ConfigError
addr_errors p addr e =
    if is_nil addr then e ∷ [] else if not (validate_listen_addr p addr) then e ∷ [] else []

-- `Validate`; no error is the empty list.
unfoldable pub validate : Parsers → Config → List ConfigError
unfolding url_errors validate_listen_addr
validate p c =
    url_errors (p.parse_url c.bridge_url)
    ++ (addr_errors p c.listen_addr listen_addr_error
        ++ (error_if (is_nil c.default_model) model_error
            ++ (error_if (not (is_positive c.request_timeout)) timeout_error
                ++ (error_if (not (is_positive c.max_request_bytes)) size_error
                    ++ (error_if (is_nil c.auth_token_file) token_file_error
                        ++ addr_errors p c.metrics_listen_addr metrics_addr_error)))))
