-- ===== src/Bridge/Client.antt =====
-- internal/bridge/client.go: the HTTP client of the bridge. net/url and net/http are read through the
-- parsed URL and the reply to a request; encoding/json through the encoded and decoded values.
pub mod Replies
pub mod Urls
use opencost_ai.Prelude.{
  ℕ, ◌*◌, ◌^◌, false, Bool, true, not, ◌&&◌, ◌||◌, List, [], ◌∷◌, ◌++◌, Option, none, some, Result,
  ok, err, ltb, take, if◌then◌else◌, is_nil,
}
use opencost_ai.Prelude.Int.{ℤ, pos}
use opencost_ai.Text.{Bytes, text, beq}
use opencost_ai.Text.Trim.{trim_left, trim_right, trim_space}
use opencost_ai.Bridge.Types.{Error, ChatRequest, ChatResponse, TagModel}
use opencost_ai.Bridge.Stream.{Body, ChatStream, new_chat_stream}

abbrev pub max_error_body_bytes : ℕ
max_error_body_bytes = 4096

-- The parts of `url.URL` that the client reads or writes.
pub record Url : Type 0 where
  pub scheme : Bytes
  pub host : Bytes
  pub path : Bytes

-- What the client sets of an `http.Client`: its Timeout in nanoseconds (0 for none), its Transport
-- (a number for each, `none` for nil) and whether CheckRedirect is `refuseRedirects`.
pub record HttpClient : Type 0 where
  pub timeout : ℤ
  pub transport : Option ℕ
  pub refuses_redirects : Bool

pub record Client : Type 0 where
  pub base_url : Url
  pub hc : HttpClient
  pub stream_hc : HttpClient
  pub ua : Bytes

-- `DefaultHTTPTimeout`
abbrev pub default_http_timeout : ℤ
default_http_timeout = pos (120 * 10 ^ 9)

-- `Option`: `WithHTTPClient` (`none` for nil) and `WithUserAgent`
pub data ClientOption : Type 0 where
  with_http_client : Option HttpClient → ClientOption
  with_user_agent : Bytes → ClientOption

abbrev plain_client : Option ℕ → HttpClient
plain_client transport = record {
  timeout = pos 0;
  transport = transport;
  refuses_redirects = false;
}

-- `opt(c)`
unfoldable pub apply_option : ClientOption → Client → Client
apply_option (with_http_client none) c = c
apply_option (with_http_client (some hc)) c = record c {
  hc = hc;
  stream_hc = plain_client hc.transport;
}
apply_option (with_user_agent ua) c = record c { ua = ua }

-- The loop over the options.
unfoldable pub apply_options : List ClientOption → Client → Client
apply_options [] c = c
apply_options (o ∷ os) c = apply_options os (apply_option o c)

-- `CheckRedirect = refuseRedirects`
abbrev pub refuse_redirects : HttpClient → HttpClient
refuse_redirects hc = record hc { refuses_redirects = true }

pub data NewError : Type 0 where
  unparsable : Bytes → NewError
  bad_scheme missing_host : NewError

-- "/"
abbrev pub slash : Bytes
slash = b'/' ∷ []

-- The client in front of the loop over the options.
abbrev pub fresh_client : Url → Client
fresh_client u = record {
  base_url = record u { path = trim_right slash u.path };
  hc = record { timeout = default_http_timeout; transport = none; refuses_redirects = false };
  stream_hc = plain_client none;
  ua = text "opencost-ai-gateway/dev";
}

-- The redirects are set behind the options.
abbrev pub guarded : Client → Client
guarded c = record c { hc = refuse_redirects c.hc; stream_hc = refuse_redirects c.stream_hc }

-- `New`, on the result of `url.Parse`
unfoldable pub new : List ClientOption → Result Bytes Url → Result NewError Client
unfolding apply_options
new opts (err cause) = err (unparsable cause)
new opts (ok u) =
    if not (beq u.scheme (text "http")) && not (beq u.scheme (text "https"))
    then err bad_scheme
    else if is_nil u.host
    then err missing_host
    else ok (guarded (apply_options opts (fresh_client u)))

-- `httpReq`; an absent header is `none`.
pub record HttpRequest : Type 0 where
  pub method : Bytes
  pub url : Url
  pub body : Option Bytes
  pub content_type : Option Bytes
  pub accept : Bytes
  pub user_agent : Bytes

-- What `http.Client.Do` returns. With `refuseRedirects` a redirect is a response like any other.
pub data Reply {ℓ} (B : Type ℓ) : Type ℓ where
  unreached : (cause : Bytes) → Reply B
  response : (status : ℕ) (body : B) → Reply B

-- `http.NewRequestWithContext` (its error, if it fails) and `Do`.
pub record Http {ℓ} (B : Type ℓ) : Type ℓ where
  pub build_error : HttpRequest → Option Bytes
  pub send : HttpRequest → Reply B

abbrev pub is_success : ℕ → Bool
is_success status = not (ltb status 200 || not (ltb status 300))

-- `&Error{Op: op, Err: ...}`, and the one of a response
abbrev pub failure : Bytes → Bytes → Error
failure op cause = record { status = pos 0; op = op; body = []; cause = some cause }

abbrev pub upstream_status : Bytes → ℕ → Bytes → Error
upstream_status op status body = record {
  status = pos status;
  op = op;
  body = trim_space (take max_error_body_bytes body);
  cause = none;
}

abbrev joined : Url → Bytes → Url
joined u path = record u { path = u.path ++ b'/' ∷ trim_left slash path }

unfoldable pub request_to : Client → Bytes → Bytes → Option Bytes → HttpRequest
request_to c method path body = record {
  method = method;
  url = joined c.base_url path;
  body = body;
  content_type = elim body [ none ↦ none | some _ ↦ some (text "application/json") ];
  accept = text "application/json";
  user_agent = c.ua;
}

module _ {A : Type 0} where
  -- `do` behind the encoding of the body, which is `none` for a nil body. The result is what is
  -- decoded into `out`, which every caller passes.
  unfoldable pub exchange :
      Http Bytes → (decode : Bytes → Result Bytes A) → (op : Bytes) → HttpRequest → Result Error A
  exchange http decode op q = elim (http.build_error q) [
    | some cause ↦ err (failure op (text "build request: " ++ cause))
    | none ↦ elim (http.send q) [
      | unreached cause ↦ err (failure op cause)
      | response status body ↦
          if not (is_success status)
          then err (upstream_status op status body)
          else elim (decode body) [
            | err cause ↦ err (failure op (text "decode response: " ++ cause))
            | ok value ↦ ok value
          ]
    ]
  ]

-- `Chat`, with json.Marshal as `encode`
unfoldable pub chat :
    Client
    → Http Bytes
    → (encode : ChatRequest → Result Bytes Bytes) (decode : Bytes → Result Bytes ChatResponse)
    → ChatRequest
    → Result Error ChatResponse
chat c http encode decode req =
    let req' = record req { stream = false } in
    elim (encode req') [
      | err cause ↦ err (failure (text "chat") (text "marshal request: " ++ cause))
      | ok buf ↦
          exchange http decode (text "chat")
            (request_to c (text "POST") (text "/api/chat") (some buf))
    ]

-- `Models`
unfoldable pub models :
    Client
    → Http Bytes
    → (decode : Bytes → Result Bytes (List TagModel)) → Result Error (List TagModel)
models c http decode =
    exchange http decode (text "models") (request_to c (text "GET") (text "/api/tags") none)

-- The request of `ChatStream`
unfoldable pub stream_request : Client → Bytes → HttpRequest
stream_request c buf =
    let u = c.base_url in
    record {
      method = text "POST";
      url = record u { path = u.path ++ text "/api/chat" };
      body = some buf;
      content_type = some (text "application/json");
      accept = text "application/x-ndjson, application/json";
      user_agent = c.ua;
    }

-- `ChatStream`
unfoldable pub chat_stream :
    {Chunk : Type 0} (frame : Bytes → Result Bytes Chunk)
    → Client
    → Http Body
    → (encode : ChatRequest → Result Bytes Bytes) → ChatRequest
    → Result Error (ChatStream frame)
chat_stream frame c http encode req =
    let op = text "chat_stream" in
    let req' = record req { stream = true } in
    elim (encode req') [
      | err cause ↦ err (failure op (text "marshal request: " ++ cause))
      | ok buf ↦ elim (http.build_error (stream_request c buf)) [
        | some cause ↦ err (failure op (text "build request: " ++ cause))
        | none ↦ elim (http.send (stream_request c buf)) [
          | unreached cause ↦ err (failure op cause)
          | response status body ↦
              if not (is_success status)
              then err (upstream_status op status body.remaining)
              else ok (new_chat_stream frame body)
        ]
      ]
    ]
