-- ===== src/Api.antt =====
-- pkg/apiv1: the wire types of the gateway's API, and the events of internal/server/stream.go. A
-- field that omitempty leaves out is the empty value.
pub mod Document
use opencost_ai.Prelude.{ℕ, Bool, List}
use opencost_ai.Prelude.Int.{ℤ}
use opencost_ai.Text.{Bytes}

pub record AskRequest : Type 0 where
  pub query : Bytes
  pub model : Bytes
  pub stream : Bool
  pub conversation_id : Bytes

-- `args` is the JSON object as the bridge sent it.
pub record ToolCall : Type 0 where
  pub name : Bytes
  pub args : Bytes
  pub duration_ms : ℤ

pub record Usage : Type 0 where
  pub prompt_tokens : ℤ
  pub completion_tokens : ℤ

pub record AskResponse : Type 0 where
  pub request_id : Bytes
  pub model : Bytes
  pub query : Bytes
  pub answer : Bytes
  pub tool_calls : List ToolCall
  pub usage : Usage
  pub latency_ms : ℤ

pub record HealthResponse : Type 0 where
  pub status : Bytes
  pub version : Bytes

pub record Problem : Type 0 where
  pub title : Bytes
  pub status : ℕ
  pub detail : Bytes
  pub instance_uri : Bytes
  pub request_id : Bytes

pub record Model : Type 0 where
  pub name : Bytes
  pub digest : Bytes
  pub size : ℤ
  pub modified_at : Bytes
  pub family : Bytes
  pub parameter_size : Bytes
  pub quantization : Bytes

pub record ModelsResponse : Type 0 where
  pub models : List Model
  pub default_model : Bytes

pub record Tool : Type 0 where
  pub name : Bytes
  pub description : Bytes
  pub server : Bytes

pub record ToolsResponse : Type 0 where
  pub tools : List Tool
  pub discovery_deferred : Bool

pub record DoneEvent : Type 0 where
  pub request_id : Bytes
  pub model : Bytes
  pub done_reason : Bytes
  pub usage : Usage
  pub tool_calls : List ToolCall
  pub total_duration_ms : ℤ
  pub latency_ms : ℤ

pub record ErrorEvent : Type 0 where
  pub request_id : Bytes
  pub status : ℕ
  pub title : Bytes
  pub detail : Bytes

-- `sseEvent`: its type and its data
pub data SseEvent : Type 0 where
  thinking : Bytes → SseEvent
  tool_call : (name args : Bytes) → SseEvent
  tool_result : Bytes → SseEvent
  token : Bytes → SseEvent
  done : DoneEvent → SseEvent
  error : ErrorEvent → SseEvent
