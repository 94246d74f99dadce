-- ===== src/Server/Fixtures.antt =====
-- Data for the tests: a decoder that takes the whole body as the query, a bridge that answers with a
-- stream of one tool call and two tokens, and a bucket that counts tokens.
use opencost_ai.Prelude.{
  ℕ, zero, suc, Bool, true, false, List, [], ◌∷◌, Option, none, some, ok, err, length,
  if◌then◌else◌, ltb,
}
use opencost_ai.Prelude.Int.{pos, pos_part}
use opencost_ai.Text.{Bytes, text}
use opencost_ai.RateLimit.{RateLibrary}
use opencost_ai.Bridge.Types.{ChatRequest, ChatResponse, ChatStreamChunk}
use opencost_ai.Bridge.Types
use opencost_ai.Api.{AskRequest}
use opencost_ai.Auth.Source.{ValidateError, invalid_token}
use opencost_ai.Server.Writer.{StatusWriter}
use opencost_ai.Server.World.{
  Config, Request, World, Upstream, UpstreamError, bridge_error, Decoded, max_bytes,
}

abbrev pub take_token : ℕ → Bool × ℕ
take_token zero = (false, zero)
take_token (suc n) = (true, n)

abbrev pub counting : RateLibrary
counting = record {
  Rate = ℕ;
  Bucket = ℕ;
  zero_rate = 0;
  every = pos_part;
  new_limiter = λ r burst. pos_part burst;
  allow = λ now. take_token;
}

abbrev pub request_of : Bytes → AskRequest
request_of query = record { query = query; model = []; stream = true; conversation_id = [] }

abbrev pub decode : ℕ → Bytes → Decoded
decode limit body = record {
  first =
      if ltb limit (length body)
      then err (record { message = []; kind = max_bytes })
      else ok (request_of body);
  at_end = true;
}

abbrev pub config : Config
config = record {
  default_model = b'm' ∷ [];
  max_request_bytes = 100;
  decode = decode;
  encodes = λ i. true;
  sha256 = λ s. s;
}

abbrev pub tool_call : Types.ToolCall
tool_call = record { name = b't' ∷ []; arguments = b'{' ∷ b'}' ∷ [] }

-- A tool call, two tokens, and the last chunk.
abbrev pub chunk_of : Bytes → List Types.ToolCall → Bool → ChatStreamChunk
chunk_of content tool_calls is_done = record {
  model = [];
  message = record { role = b'a' ∷ []; content = content; tool_calls = tool_calls };
  thinking = [];
  is_done = is_done;
  done_reason = [];
  prompt_eval_count = pos 3;
  eval_count = pos 2;
  total_duration = pos 5000000;
}

abbrev pub chunks : List ChatStreamChunk
chunks =
    chunk_of [] (tool_call ∷ []) false
    ∷ chunk_of (b'4' ∷ []) [] false
    ∷ chunk_of (b'2' ∷ []) [] false
    ∷ chunk_of [] [] true
    ∷ []

abbrev pub unavailable : UpstreamError
unavailable = bridge_error (record { status = pos 503; op = text "chat"; body = []; cause = none })

abbrev pub upstream : Upstream
upstream = record {
  chat = λ b. err unavailable;
  chat_stream = λ b. ok (chunks, none);
  models = ok [];
}

abbrev pub request : Request
request = record {
  method = b'P' ∷ [];
  path = b'/' ∷ [];
  content_type = text "application/json; charset=utf-8";
  authorization = text "Bearer secret";
  body = text "what is my bill";
  request_id = b'i' ∷ [];
  now = 5;
  latency_ms = pos 8;
  sink_works = true;
  can_flush = true;
}

abbrev pub writer : StatusWriter
writer = record {
  inner = record { header = []; sent = none; items = [] };
  status = 200;
  wrote_header = false;
}

abbrev pub world : World counting
world = record {
  limiter = record { per_minute = pos 3; limit = 20; burst = pos 3; limiters = [] };
  audit = record { written = []; log_query = false };
  metrics = [];
  calls = [];
  writer = writer;
}

abbrev pub refuse : Bytes → Option ValidateError
refuse token = some invalid_token

abbrev pub chat_request : ChatRequest
chat_request = record { model = b'm' ∷ []; messages = []; stream = false }

abbrev pub asked : AskRequest
asked = request_of (text "what is my bill")
