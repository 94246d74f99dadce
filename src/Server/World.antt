-- ===== src/Server/World.antt =====
-- What a request meets: the gateway's configuration and state, and the answers of the bridge.
use opencost_ai.Prelude.{ℕ, Bool, List, [], ◌∷◌, ◌++◌, Option, Result}
use opencost_ai.Prelude.Int.{ℤ}
use opencost_ai.Text.{Bytes}
use opencost_ai.RateLimit.{RateLibrary, Limiter}
use opencost_ai.Bridge.Types.{ChatRequest, ChatResponse, ChatStreamChunk, TagModel, Error}
use opencost_ai.Api.{AskRequest}
use opencost_ai.Audit.{Event, Logger, log}
use opencost_ai.Metrics.{Sample}
use opencost_ai.Server.Writer.{Item, StatusWriter}

-- An error of encoding/json: its text and its type. `max_bytes` is http.MaxBytesError.
pub data DecodeKind : Type 0 where
  max_bytes : DecodeKind
  type_error : (field : Bytes) → DecodeKind
  syntax_error other : DecodeKind

pub record DecodeError : Type 0 where
  pub message : Bytes
  pub kind : DecodeKind

-- The two calls of `dec.Decode` on a body: the first result, and whether the second is io.EOF.
pub record Decoded : Type 0 where
  pub first : Result DecodeError AskRequest
  pub at_end : Bool

-- `decode` is encoding/json behind http.MaxBytesReader, with the limit as its argument; `encodes`
-- says on which documents json.Marshal succeeds; `sha256` is crypto/sha256.
pub record Config : Type 0 where
  pub default_model : Bytes
  pub max_request_bytes : ℕ
  pub decode : ℕ → Bytes → Decoded
  pub encodes : Item → Bool
  pub sha256 : Bytes → Bytes

-- An error of the bridge client, and any other error.
pub data UpstreamError : Type 0 where
  bridge_error : Error → UpstreamError
  other_error : Bytes → UpstreamError

-- The `Bridge` interface. A stream is what its `Next` returns in turn: the chunks, and the error
-- that ends them, `none` for io.EOF.
pub record Upstream : Type 0 where
  pub chat : ChatRequest → Result UpstreamError ChatResponse
  pub chat_stream : ChatRequest → Result UpstreamError (List ChatStreamChunk × Option UpstreamError)
  pub models : Result UpstreamError (List TagModel)

-- A request, with what the environment decides while it is served: the instant, the latency that
-- is measured, whether the audit sink takes a write, and whether the response can be flushed.
pub record Request : Type 0 where
  pub method : Bytes
  pub path : Bytes
  pub content_type : Bytes
  pub authorization : Bytes
  pub body : Bytes
  pub request_id : Bytes
  pub now : ℕ
  pub latency_ms : ℤ
  pub sink_works : Bool
  pub can_flush : Bool

-- A call of the bridge.
pub data Call : Type 0 where
  chat_call chat_stream_call : ChatRequest → Call
  models_call : Call

-- The shared state and the response. `calls` records what was sent upstream.
pub record World (lib : RateLibrary) : Type 0 where
  pub limiter : Limiter lib
  pub audit : Logger
  pub metrics : List Sample
  pub calls : List Call
  pub writer : StatusWriter

module _ {lib : RateLibrary} where
  abbrev pub respond : (StatusWriter → StatusWriter) → World lib → World lib
  respond f w = record w { writer = f w.writer }

  abbrev pub observe : Sample → World lib → World lib
  observe s w = record w { metrics = w.metrics ++ s ∷ [] }

  abbrev pub call : Call → World lib → World lib
  call c w = record w { calls = w.calls ++ c ∷ [] }

  -- `logAudit`; a failed write is only logged.
  unfoldable pub log_audit : Request → Event → World lib → World lib
  log_audit r e w = record w { audit = (log r.now r.sink_works e w.audit).1 }
