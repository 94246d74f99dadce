-- ===== src/Config/Loaded.antt =====
-- Where the fields of a loaded configuration come from.
use opencost_ai.Prelude.{
  ◌≡◌, refl, [], ◌∷◌, Option, none, some, ok, bind-ok, value_of, ap, sym, ◌⊎◌, inl, inr,
  if◌then◌else◌, is_nil,
}
use opencost_ai.Text.{Bytes}
use opencost_ai.Config.{
  Config, Parsers, LoadError, string_or, set_or, filled_or, read_as, parse_bool, load,
  default_config, env_bridge_url, env_listen_addr, env_default_model, env_request_timeout,
  env_max_request_bytes, env_audit_log_query, env_auth_token_file, env_rate_limit_per_min,
  env_metrics_listen_addr,
}

-- The default where the variable is not set, and what its text is read as where it is.
abbrev pub IsFrom {ℓ} : {A : Type ℓ} → (Bytes → Option A) → A → Option Bytes → A → Type ℓ
IsFrom parse fallback o a =
    ((o ≡ none) × (a ≡ fallback)) ⊎ ((v : Bytes) × (o ≡ some v) × (parse v ≡ some a))

-- A text that is not empty, as it stands.
abbrev pub as_text : Bytes → Option Bytes
as_text v = if is_nil v then none else some v

-- The empty text stands for the default.
abbrev pub unless_empty {ℓ} : {A : Type ℓ} → A → (Bytes → Option A) → Bytes → Option A
unless_empty fallback parse v = if is_nil v then some fallback else parse v

string_or-IsFrom :
    (variable fallback a : Bytes) (o : Option Bytes)
    → string_or variable fallback o ≡ ok a
    → IsFrom as_text fallback o a
string_or-IsFrom variable fallback a none h = inl (refl, value_of h)
string_or-IsFrom variable fallback a (some []) h = cc
string_or-IsFrom variable fallback a (some (c ∷ v)) h =
    inr (c ∷ v, refl, ap some (sym (value_of h)))

read_as-some {ℓ} :
    {A : Type ℓ} (e : LoadError) (o : Option A) (a : A) → read_as e o ≡ ok a → o ≡ some a
read_as-some e none a h = cc
read_as-some e (some b) a h = ap some (sym (value_of h))

set_or-IsFrom {ℓ} :
    {A : Type ℓ} (e : LoadError) (parse : Bytes → Option A) (fallback a : A) (o : Option Bytes)
    → set_or e parse fallback o ≡ ok a
    → IsFrom parse fallback o a
set_or-IsFrom e parse fallback a none h = inl (refl, value_of h)
set_or-IsFrom e parse fallback a (some v) h = inr (v, refl, read_as-some e (parse v) a h)

filled_or-IsFrom {ℓ} :
    {A : Type ℓ} (e : LoadError) (parse : Bytes → Option A) (fallback a : A) (o : Option Bytes)
    → filled_or e parse fallback o ≡ ok a
    → IsFrom (unless_empty fallback parse) fallback o a
filled_or-IsFrom e parse fallback a none h = inl (refl, value_of h)
filled_or-IsFrom e parse fallback a (some []) h = inr ([], refl, ap some (sym (value_of h)))
filled_or-IsFrom e parse fallback a (some (c ∷ v)) h =
    inr (c ∷ v, refl, read_as-some e (parse (c ∷ v)) a h)

-- The fields of a configuration, each from its own variable.
pub record IsLoaded (p : Parsers) (get : Bytes → Option Bytes) (c : Config) : Type 0 where
  pub bridge_url : IsFrom as_text default_config.bridge_url (get env_bridge_url) c.bridge_url
  pub listen_addr : IsFrom as_text default_config.listen_addr (get env_listen_addr) c.listen_addr
  pub default_model :
      IsFrom as_text default_config.default_model (get env_default_model) c.default_model
  pub request_timeout :
      IsFrom p.parse_duration default_config.request_timeout
        (get env_request_timeout)
        c.request_timeout
  pub max_request_bytes :
      IsFrom p.parse_int default_config.max_request_bytes
        (get env_max_request_bytes)
        c.max_request_bytes
  pub audit_log_query :
      IsFrom
        (unless_empty default_config.audit_log_query parse_bool)
        default_config.audit_log_query
        (get env_audit_log_query)
        c.audit_log_query
  pub auth_token_file :
      IsFrom as_text default_config.auth_token_file (get env_auth_token_file) c.auth_token_file
  pub rate_limit_per_min :
      IsFrom
        (unless_empty default_config.rate_limit_per_min p.parse_int)
        default_config.rate_limit_per_min
        (get env_rate_limit_per_min)
        c.rate_limit_per_min
  pub metrics_listen_addr :
      IsFrom as_text default_config.metrics_listen_addr
        (get env_metrics_listen_addr)
        c.metrics_listen_addr

-- A configuration that Load returns has in each field the default, if the variable of that field is
-- not set, and else what the text of that variable is read as: a text that is not empty, a duration,
-- a number, or a Boolean word; for the audit flag and the rate limit the empty text is the default
-- too.
pub load-IsLoaded :
    (p : Parsers) (get : Bytes → Option Bytes) (c : Config) → load p get ≡ ok c → IsLoaded p get c
unfolding load
load-IsLoaded p get c h =
    let (bridge_url, e_bridge_url, h_bridge_url) = bind-ok _ _ c h in
    let (listen_addr, e_listen_addr, h_listen_addr) = bind-ok _ _ c h_bridge_url in
    let (default_model, e_default_model, h_default_model) = bind-ok _ _ c h_listen_addr in
    let (request_timeout, e_request_timeout, h_request_timeout) = bind-ok _ _ c h_default_model in
    let (max_request_bytes, e_max_request_bytes, h_max_request_bytes) =
      bind-ok _ _ c h_request_timeout in
    let (audit_log_query, e_audit_log_query, h_audit_log_query) =
      bind-ok _ _ c h_max_request_bytes in
    let (auth_token_file, e_auth_token_file, h_auth_token_file) = bind-ok _ _ c h_audit_log_query in
    let (rate_limit_per_min, e_rate_limit_per_min, h_rate_limit_per_min) =
      bind-ok _ _ c h_auth_token_file in
    let (metrics_listen_addr, e_metrics_listen_addr, h_metrics_listen_addr) =
      bind-ok _ _ c h_rate_limit_per_min in
    let same = value_of h_metrics_listen_addr in
    record {
      bridge_url = rw (ap (λ x. x.bridge_url) same) (
          string_or-IsFrom env_bridge_url default_config.bridge_url bridge_url (get env_bridge_url)
            e_bridge_url);
      listen_addr = rw (ap (λ x. x.listen_addr) same) (
          string_or-IsFrom env_listen_addr default_config.listen_addr listen_addr
            (get env_listen_addr) e_listen_addr);
      default_model = rw (ap (λ x. x.default_model) same) (
          string_or-IsFrom env_default_model default_config.default_model default_model
            (get env_default_model) e_default_model);
      request_timeout = rw (ap (λ x. x.request_timeout) same) (
          set_or-IsFrom _ p.parse_duration default_config.request_timeout request_timeout
            (get env_request_timeout) e_request_timeout);
      max_request_bytes = rw (ap (λ x. x.max_request_bytes) same) (
          set_or-IsFrom _ p.parse_int default_config.max_request_bytes max_request_bytes
            (get env_max_request_bytes) e_max_request_bytes);
      audit_log_query = rw (ap (λ x. x.audit_log_query) same) (
          filled_or-IsFrom _ parse_bool default_config.audit_log_query audit_log_query
            (get env_audit_log_query) e_audit_log_query);
      auth_token_file = rw (ap (λ x. x.auth_token_file) same) (
          string_or-IsFrom env_auth_token_file default_config.auth_token_file auth_token_file
            (get env_auth_token_file) e_auth_token_file);
      rate_limit_per_min = rw (ap (λ x. x.rate_limit_per_min) same) (
          filled_or-IsFrom _ p.parse_int default_config.rate_limit_per_min rate_limit_per_min
            (get env_rate_limit_per_min) e_rate_limit_per_min);
      metrics_listen_addr = rw (ap (λ x. x.metrics_listen_addr) same) (
          string_or-IsFrom env_metrics_listen_addr default_config.metrics_listen_addr
            metrics_listen_addr (get env_metrics_listen_addr) e_metrics_listen_addr);
    }
