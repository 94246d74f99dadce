-- ===== src/Api/Document/Text.antt =====
-- The documents are ones that can be read back.
use opencost_ai.Prelude.{◌≡◌, true, List, [], ◌∷◌, All}
use opencost_ai.Text.{Bytes, text}
use opencost_ai.Text.Utf8.{valid_string}
use opencost_ai.Json.{Fields, HasNumbers, FieldsHaveNumbers, IsUtf8, FieldsAreUtf8}
use opencost_ai.Json.Build.{numbers, utf8_strings}
use opencost_ai.Api
use opencost_ai.Api.{
  Usage, AskResponse, Problem, DoneEvent, ErrorEvent, SseEvent, thinking, tool_call, tool_result,
  token, done, error,
}
use opencost_ai.Api.Document.{usage_json, tool_call_json, done_event_json, sse_event_json}

abbrev Valid : Bytes → Type 0
Valid s = valid_string s ≡ true

-- encoding/json on maps: what it decodes is UTF-8, and the numbers that it writes are numbers.
pub record Maps (args : Bytes → Fields) : Type 0 where
  pub numbered : (a : Bytes) → FieldsHaveNumbers (args a)
  pub utf8 : (a : Bytes) → FieldsAreUtf8 (args a)

abbrev pub NamesValid : List Api.ToolCall → Type 0
NamesValid cs = All (λ (c : Api.ToolCall). Valid c.name) cs

pub record DoneIsText (d : DoneEvent) : Type 0 where
  pub request_id : Valid d.request_id
  pub model : Valid d.model
  pub done_reason : Valid d.done_reason
  pub tool_calls : NamesValid d.tool_calls

pub record ErrorIsText (e : ErrorEvent) : Type 0 where
  pub request_id : Valid e.request_id
  pub title : Valid e.title
  pub detail : Valid e.detail

-- The strings of an event are UTF-8.
abbrev pub IsText : SseEvent → Type 0
IsText (thinking t) = Valid t
IsText (tool_call n a) = Valid n
IsText (tool_result t) = Valid t
IsText (token t) = Valid t
IsText (done d) = DoneIsText d
IsText (error e) = ErrorIsText e

usage_json-HasNumbers : (u : Usage) → HasNumbers (usage_json u)
unfolding usage_json
usage_json-HasNumbers u = search numbers

usage_json-IsUtf8 : (u : Usage) → IsUtf8 (usage_json u)
unfolding usage_json valid_string text
usage_json-IsUtf8 u = search utf8_strings

module _ (args : Bytes → Fields) (maps : Maps args) where
  tool_call_json-HasNumbers : (c : Api.ToolCall) → HasNumbers (tool_call_json args c)
  unfolding tool_call_json
  tool_call_json-HasNumbers c = let m = maps.numbered c.args in search numbers depth 10

  tool_call_json-IsUtf8 : (c : Api.ToolCall) → Valid c.name → IsUtf8 (tool_call_json args c)
  unfolding tool_call_json valid_string text
  tool_call_json-IsUtf8 c h = let m = maps.utf8 c.args in search utf8_strings depth 10

  tool_calls-AreUtf8 :
      (cs : List Api.ToolCall) → NamesValid cs → All (λ c. IsUtf8 (tool_call_json args c)) cs
  tool_calls-AreUtf8 [] h = tt
  tool_calls-AreUtf8 (c ∷ cs) (h, hs) = (tool_call_json-IsUtf8 c h, tool_calls-AreUtf8 cs hs)

  done_event_json-HasNumbers : (d : DoneEvent) → HasNumbers (done_event_json args d)
  unfolding done_event_json
  done_event_json-HasNumbers d =
      search (numbers, usage_json-HasNumbers, tool_call_json-HasNumbers) depth 20

  done_event_json-IsUtf8 : (d : DoneEvent) → DoneIsText d → IsUtf8 (done_event_json args d)
  unfolding done_event_json valid_string text
  done_event_json-IsUtf8 d h =
      let calls = tool_calls-AreUtf8 d.tool_calls h.tool_calls in
      search (utf8_strings, usage_json-IsUtf8) depth 20

  pub sse_event_json-HasNumbers : (e : SseEvent) → HasNumbers (sse_event_json args e)
  unfolding sse_event_json
  sse_event_json-HasNumbers (thinking t) = search numbers
  sse_event_json-HasNumbers (tool_call n a) = let m = maps.numbered a in search numbers depth 10
  sse_event_json-HasNumbers (tool_result t) = search numbers
  sse_event_json-HasNumbers (token t) = search numbers
  sse_event_json-HasNumbers (done d) = done_event_json-HasNumbers d
  sse_event_json-HasNumbers (error e) = search numbers depth 10

  pub sse_event_json-IsUtf8 : (e : SseEvent) → IsText e → IsUtf8 (sse_event_json args e)
  unfolding sse_event_json valid_string text
  sse_event_json-IsUtf8 (thinking t) h = search utf8_strings
  sse_event_json-IsUtf8 (tool_call n a) h = let m = maps.utf8 a in search utf8_strings depth 10
  sse_event_json-IsUtf8 (tool_result t) h = search utf8_strings
  sse_event_json-IsUtf8 (token t) h = search utf8_strings
  sse_event_json-IsUtf8 (done d) h = done_event_json-IsUtf8 d h
  sse_event_json-IsUtf8 (error e) h = search utf8_strings depth 10
