-- ===== src/Bridge/Types.antt =====
-- internal/bridge/types.go: the wire types, the error envelope and `itoa`.
use opencost_ai.Prelude.{
  ℕ, zero, suc, ◌+◌, ◌/◌, ◌%◌, ◌^◌, Bool, List, [], ◌∷◌, ◌++◌, Option, none, some, ◌==◌,
  if◌then◌else◌, length,
}
use opencost_ai.Prelude.Int.{ℤ, pos, negsuc}
use opencost_ai.Text.{Bytes, text}

-- A tool call. `arguments` is the JSON object as it stands; the gateway only passes it on.
pub record ToolCall : Type 0 where
  pub name : Bytes
  pub arguments : Bytes

pub record Message : Type 0 where
  pub role : Bytes
  pub content : Bytes
  pub tool_calls : List ToolCall

-- `Options` is never set by the gateway.
pub record ChatRequest : Type 0 where
  pub model : Bytes
  pub messages : List Message
  pub stream : Bool

-- The fields of the non-streaming answer that the gateway reads.
pub record ChatResponse : Type 0 where
  pub model : Bytes
  pub message : Message
  pub prompt_eval_count : ℤ
  pub eval_count : ℤ

-- The fields of one streamed frame that the gateway reads.
pub record ChatStreamChunk : Type 0 where
  pub model : Bytes
  pub message : Message
  pub thinking : Bytes
  pub is_done : Bool
  pub done_reason : Bytes
  pub prompt_eval_count : ℤ
  pub eval_count : ℤ
  pub total_duration : ℤ

pub record ModelDetails : Type 0 where
  pub family : Bytes
  pub parameter_size : Bytes
  pub quantization_level : Bytes

pub record TagModel : Type 0 where
  pub name : Bytes
  pub modified_at : Bytes
  pub size : ℤ
  pub digest : Bytes
  pub details : ModelDetails

-- `bridge.Error`; `cause` is the text of the wrapped error.
pub record Error : Type 0 where
  pub status : ℤ
  pub op : Bytes
  pub body : Bytes
  pub cause : Option Bytes

-- The loop of `itoa` with `room` bytes of the buffer left in front of `acc`; `none` is the panic
-- of an index below 0.
unfoldable pub digits : ℕ → ℕ → Bytes → Option Bytes
digits zero n acc = if n == 0 then some acc else none
digits (suc room) n acc =
    let rest = digits room (n / 10) ((b'0' + n % 10) ∷ acc) in if n == 0 then some acc else rest

-- `var buf [20]byte`
abbrev pub buffer_size : ℕ
buffer_size = 20

abbrev pub sign : Option Bytes → Option Bytes
sign none = none
sign (some s) = if length s == buffer_size then none else some (b'-' ∷ s)

-- `itoa`. The negation of the smallest int64 is itself, and its loop makes no round.
unfoldable pub itoa : ℤ → Option Bytes
itoa (pos zero) = some (b'0' ∷ [])
itoa (pos (suc n)) = digits buffer_size (suc n) []
itoa (negsuc n) = if suc n == 2 ^ 63 then sign (some []) else sign (digits buffer_size (suc n) [])

abbrev after : Bytes → Option Bytes → Option Bytes
after s none = none
after s (some t) = some (s ++ t)

-- `(*Error).Error`
unfoldable pub error_text : Error → Option Bytes
unfolding itoa
error_text e = elim e.cause [
  | some cause ↦ some (text "bridge " ++ e.op ++ text ": " ++ cause)
  | none ↦ after (text "bridge " ++ e.op ++ text ": upstream status ") (itoa e.status)
]
