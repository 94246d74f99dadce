-- ===== src/Audit/Tests.antt =====
-- Tests of the audit log.
use opencost_ai.Prelude.Int.{pos, negsuc}
use opencost_ai.Json.{encode}
use opencost_ai.Json.Quote.{quote, escape, escape_byte}
use opencost_ai.Json.Build.{omitted_if, items_of}
use opencost_ai.Text.Utf8.{valid_string}
use opencost_ai.Bridge.Stream.Lines.{lines}
use opencost_ai.Audit.Document.{event_json, tool_call_json, line_of, log_bytes}
use opencost_ai.Audit.Lines.{IsText, read_lines, read_lines-log_bytes}
use opencost_ai.Prelude.{
  ◌++◌, Option, none, some, ℕ, zero, suc, ◌≡◌, ◌<◌, refl, [], ◌∷◌, arith, All,
}
use opencost_ai.Text.{Bytes, text, format_d}
use opencost_ai.Audit.{Event}

-- A digest of 32 bytes.
abbrev repeat : ℕ → ℕ → Bytes
repeat zero c = []
repeat (suc n) c = c ∷ repeat n c

All-repeat : (n : ℕ) → All (λ b. b < 256) (repeat n 171)
All-repeat zero = tt
All-repeat (suc n) = (omega arith, All-repeat n)

abbrev sha256 : Bytes → Bytes
sha256 s = repeat 32 171

abbrev token : Bytes
token = b't' ∷ []

-- Digits of the instant
abbrev time : Option ℕ → Bytes
time none = b'0' ∷ []
time (some t) = b'1' ∷ []

-- A query with a newline and a quotation mark
abbrev event : Event
event = record {
  timestamp = some 5;
  request_id = b'i' ∷ [];
  caller_identity = b'c' ∷ [];
  model = [];
  prompt_tokens = pos 3;
  completion_tokens = pos 0;
  tool_calls = record { name = b't' ∷ []; duration_ms = negsuc 0 } ∷ [];
  latency_ms = pos 12;
  status = 200;
  outcome = text "ok";
  query = b'a' ∷ b'\n' ∷ b'"' ∷ b'<' ∷ [];
  answer = [];
}

event-IsText : IsText time event
unfolding valid_string text
event-IsText = record {
  timestamp = refl;
  request_id = refl;
  caller_identity = refl;
  model = refl;
  tool_calls = (refl, tt);
  outcome = refl;
  query = refl;
  answer = refl;
}

line_test :
    line_of time event
    ≡ text "{\"timestamp\":\"1\",\"request_id\":\"i\",\"caller_identity\":\"c\",\"model\":\"\","
      ++ text "\"prompt_tokens\":3,\"completion_tokens\":0,"
      ++ text "\"tool_calls\":[{\"name\":\"t\",\"duration_ms\":-1}],\"latency_ms\":12,"
      ++ text "\"status\":200,\"outcome\":\"ok\",\"query\":\"a\\n\\\"\\u003c\"}\n"
unfolding line_of event_json tool_call_json encode quote escape escape_byte text omitted_if items_of
    format_d
line_test = refl

read_lines-log_bytes_example :
    read_lines (lines (log_bytes time (event ∷ event ∷ [])))
    ≡ some (event_json time event) ∷ some (event_json time event) ∷ []
read_lines-log_bytes_example =
    read_lines-log_bytes time (event ∷ event ∷ []) (event-IsText, (event-IsText, tt))
