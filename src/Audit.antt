-- ===== src/Audit.antt =====
-- internal/audit/audit.go: the audit log. A line is the event whose JSON it holds.
pub mod Laws
pub mod Document
pub mod Lines
mod Tests
use opencost_ai.Prelude.{
  ℕ, Bool, not, List, [], ◌++◌, ◌∷◌, Option, none, some, ltb, if◌then◌else◌, length, take, is_nil,
}
use opencost_ai.Prelude.Int.{ℤ}
use opencost_ai.Text.{Bytes, text}
use opencost_ai.RequestId.{hex_encode}

abbrev pub caller_identity_prefix_hex : ℕ
caller_identity_prefix_hex = 16

pub record ToolCall : Type 0 where
  pub name : Bytes
  pub duration_ms : ℤ

-- `timestamp` is `none` for the zero time.
pub record Event : Type 0 where
  pub timestamp : Option ℕ
  pub request_id : Bytes
  pub caller_identity : Bytes
  pub model : Bytes
  pub prompt_tokens : ℤ
  pub completion_tokens : ℤ
  pub tool_calls : List ToolCall
  pub latency_ms : ℤ
  pub status : ℕ
  pub outcome : Bytes
  pub query : Bytes
  pub answer : Bytes

-- The sink's lines, the newest last, and the opt-in flag.
pub record Logger : Type 0 where
  pub written : List Event
  pub log_query : Bool

-- `NewLogger` on a sink that is not nil
unfoldable pub new_logger : Bool → Logger
new_logger log_query = record { written = []; log_query = log_query }

-- `CallerIdentity`; SHA-256 is the argument `sha256`.
unfoldable pub caller_identity : (Bytes → Bytes) → Bytes → Bytes
unfolding hex_encode
caller_identity sha256 token =
    if is_nil token
    then text "anonymous"
    else let enc = hex_encode (sha256 token) in
      if ltb caller_identity_prefix_hex (length enc)
      then take caller_identity_prefix_hex enc
      else enc

abbrev stamped : ℕ → Option ℕ → Option ℕ
stamped now none = some now
stamped now (some t) = some t

-- What `Log` encodes: the event with its time, and without query and answer unless opted in.
unfoldable pub redact : Bool → ℕ → Event → Event
redact log_query now e =
    let e' = record e { timestamp = stamped now e.timestamp } in
    if not log_query then record e' { query = []; answer = [] } else e'

-- `Log` at `now`; `sink_works` says whether the write to the sink succeeds, on which a line depends.
-- The result is the error.
unfoldable pub log : ℕ → Bool → Event → Logger → Bool × Logger
unfolding redact
log now sink_works e l = (
  not sink_works,
  if sink_works then record l { written = l.written ++ redact l.log_query now e ∷ [] } else l,
)
