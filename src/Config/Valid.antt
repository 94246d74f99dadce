-- ===== src/Config/Valid.antt =====
-- What the other parts of the gateway may rely on behind Validate.
use opencost_ai.Prelude.{
  ◌≡◌, ◌≢◌, refl, Bool, true, false, not, ◌&&◌, List, [], ◌∷◌, ◌++◌, Result, ok, err, arith, is_nil,
  Bool-cases, inl, inr,
}
use opencost_ai.Prelude.Int.{is_positive}
use opencost_ai.Text.{Bytes, text, beq}
use opencost_ai.Bridge.Client.{Url, Client, ClientOption, new}
use opencost_ai.Bridge.Client.Urls.{built, new-built}
use opencost_ai.Config.{
  Config, Parsers, ConfigError, error_if, url_errors, addr_errors, validate_listen_addr, validate,
}

-- What `New` of the bridge and `New` of the server ask for, and the two listeners.
pub record IsReady (p : Parsers) (c : Config) (opts : List ClientOption) : Type 0 where
  pub client : Client
  pub bridge : new opts (p.parse_url c.bridge_url) ≡ ok client
  pub model : c.default_model ≢ []
  pub timeout : is_positive c.request_timeout ≡ true
  pub size : is_positive c.max_request_bytes ≡ true
  pub token_file : c.auth_token_file ≢ []
  pub listen : validate_listen_addr p c.listen_addr ≡ true
  pub metrics_listen : validate_listen_addr p c.metrics_listen_addr ≡ true

parts : (xs ys : List ConfigError) → xs ++ ys ≡ [] → (xs ≡ []) × (ys ≡ [])
parts [] ys h = (refl, h)
parts (x ∷ xs) ys h = cc

error_if-nil : (b : Bool) (e : ConfigError) → error_if b e ≡ [] → b ≡ false
error_if-nil true e h = cc
error_if-nil false e h = refl

addr_errors-nil :
    (p : Parsers) (addr : Bytes) (e : ConfigError)
    → addr_errors p addr e ≡ []
    → validate_listen_addr p addr ≡ true
addr_errors-nil p addr e h = elim (Bool-cases (validate_listen_addr p addr)) [
  | inl v ↦ v
  | inr v ↦ ground (arith, v, h)
]

url_errors-nil :
    (opts : List ClientOption) (u : Result Bytes Url)
    → url_errors u ≡ []
    → (client : Client) × (new opts u ≡ ok client)
unfolding url_errors
url_errors-nil opts (err e) h = cc
url_errors-nil opts (ok u) h =
    elim (Bool-cases (not (beq u.scheme (text "http")) && not (beq u.scheme (text "https")))) [
      | inl s ↦ absurd (ground (arith, s, h))
      | inr s ↦ elim (Bool-cases (is_nil u.host)) [
        | inl n ↦ absurd (ground (arith, s, n, h))
        | inr n ↦ (built opts u, new-built opts u (s, n))
      ]
    ]

solid : (s : Bytes) → is_nil s ≡ false → s ≢ []
solid [] h = cc
solid (c ∷ s) h = λ e. absurd (cc)

positive : (b : Bool) → not b ≡ false → b ≡ true
positive true h = refl
positive false h = cc

-- A configuration that Validate accepts has a bridge URL that the bridge client accepts, whatever its options, what the
-- server's New asks for (a default model, a positive timeout and a positive size limit), a token file
-- and two addresses to listen on.
pub validate-IsReady :
    (p : Parsers) (c : Config) (opts : List ClientOption) → validate p c ≡ [] → IsReady p c opts
unfolding validate
validate-IsReady p c opts h =
    let (url, h1) = parts _ _ h in
    let (listen, h2) = parts _ _ h1 in
    let (model, h3) = parts _ _ h2 in
    let (timeout, h4) = parts _ _ h3 in
    let (size, h5) = parts _ _ h4 in
    let (token, metrics) = parts _ _ h5 in
    let (client, bridge) = url_errors-nil opts (p.parse_url c.bridge_url) url in
    record {
      client = client;
      bridge = bridge;
      model = solid c.default_model (error_if-nil _ _ model);
      timeout = positive _ (error_if-nil _ _ timeout);
      size = positive _ (error_if-nil _ _ size);
      token_file = solid c.auth_token_file (error_if-nil _ _ token);
      listen = addr_errors-nil p c.listen_addr _ listen;
      metrics_listen = addr_errors-nil p c.metrics_listen_addr _ metrics;
    }
