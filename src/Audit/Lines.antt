-- ===== src/Audit/Lines.antt =====
-- The lines of the log, as who follows it reads them.
use opencost_ai.Prelude.{
  ℕ, ◌≡◌, refl, ap, ◌∙◌, true, List, [], ◌∷◌, ◌++◌, append_assoc, Option, some, map, All,
}
use opencost_ai.Text.{Bytes, text}
use opencost_ai.Text.Utf8.{valid_string}
use opencost_ai.Bridge.Stream.Lines.{lines, lines-append}
use opencost_ai.Json.{Json, HasNumbers, IsUtf8, encode}
use opencost_ai.Json.Build.{numbers, utf8_strings}
use opencost_ai.Json.OneLine.{encode-IsPrinted, printed-one_line}
use opencost_ai.Json.Parse.{parse}
use opencost_ai.Json.Parse.RoundTrip.{parse-encode}
use opencost_ai.Audit
use opencost_ai.Audit.{Event}
use opencost_ai.Audit.Document.{tool_call_json, event_json, line_of, log_bytes}

-- The strings of an event are UTF-8.
pub record IsText (time : Option ℕ → Bytes) (e : Event) : Type 0 where
  pub timestamp : valid_string (time e.timestamp) ≡ true
  pub request_id : valid_string e.request_id ≡ true
  pub caller_identity : valid_string e.caller_identity ≡ true
  pub model : valid_string e.model ≡ true
  pub tool_calls : All (λ (c : Audit.ToolCall). valid_string c.name ≡ true) e.tool_calls
  pub outcome : valid_string e.outcome ≡ true
  pub query : valid_string e.query ≡ true
  pub answer : valid_string e.answer ≡ true

tool_call_json-HasNumbers : (c : Audit.ToolCall) → HasNumbers (tool_call_json c)
unfolding tool_call_json
tool_call_json-HasNumbers c = search numbers

event_json-HasNumbers : (time : Option ℕ → Bytes) (e : Event) → HasNumbers (event_json time e)
unfolding event_json
event_json-HasNumbers time e = search (numbers, tool_call_json-HasNumbers) depth 20

tool_call_json-IsUtf8 :
    (c : Audit.ToolCall) → valid_string c.name ≡ true → IsUtf8 (tool_call_json c)
unfolding tool_call_json valid_string text
tool_call_json-IsUtf8 c h = search utf8_strings

tool_calls-AreUtf8 :
    (cs : List Audit.ToolCall)
    → All (λ (c : Audit.ToolCall). valid_string c.name ≡ true) cs
    → All (λ c. IsUtf8 (tool_call_json c)) cs
tool_calls-AreUtf8 [] h = tt
tool_calls-AreUtf8 (c ∷ cs) (h, hs) = (tool_call_json-IsUtf8 c h, tool_calls-AreUtf8 cs hs)

event_json-IsUtf8 :
    (time : Option ℕ → Bytes) (e : Event) → IsText time e → IsUtf8 (event_json time e)
unfolding event_json valid_string text
event_json-IsUtf8 time e h =
    let calls = tool_calls-AreUtf8 e.tool_calls h.tool_calls in search utf8_strings depth 20

-- The lines of the log: one for each event, and what stands behind the last newline.
lines-log_bytes :
    (time : Option ℕ → Bytes) (es : List Event)
    → lines (log_bytes time es) ≡ map (λ e. encode (event_json time e)) es ++ [] ∷ []
unfolding log_bytes line_of lines
lines-log_bytes time [] = refl
lines-log_bytes time (e ∷ es) =
    ap lines (append_assoc (encode (event_json time e)) (b'\n' ∷ []) (log_bytes time es))
    ∙ lines-append (encode (event_json time e)) (log_bytes time es)
        (printed-one_line _ (encode-IsPrinted (event_json time e) (event_json-HasNumbers time e)))
    ∙ ap (λ ls. encode (event_json time e) ∷ ls) (lines-log_bytes time es)

-- A reader of the log: each line in front of a newline is one document.
abbrev pub read_lines : List Bytes → List (Option Json)
read_lines [] = []
read_lines (l ∷ []) = []
read_lines (l ∷ m ∷ ls) = parse l ∷ read_lines (m ∷ ls)

read_lines-cons :
    (l : Bytes) (es : List Event) (f : Event → Bytes)
    → read_lines (l ∷ map f es ++ [] ∷ []) ≡ parse l ∷ read_lines (map f es ++ [] ∷ [])
read_lines-cons l [] f = refl
read_lines-cons l (e ∷ es) f = refl

read_documents :
    (time : Option ℕ → Bytes) (es : List Event)
    → All (IsText time) es
    → read_lines (map (λ e. encode (event_json time e)) es ++ [] ∷ [])
      ≡ map (λ e. some (event_json time e)) es
read_documents time [] h = refl
read_documents time (e ∷ es) (h, hs) =
    read_lines-cons (encode (event_json time e)) es (λ x. encode (event_json time x))
    ∙ ap (λ v. v ∷ read_lines (map (λ x. encode (event_json time x)) es ++ [] ∷ []))
        (parse-encode (event_json time e) (event_json-HasNumbers time e)
          (event_json-IsUtf8 time e h))
    ∙ ap (λ vs. some (event_json time e) ∷ vs) (read_documents time es hs)

-- Who splits the audit log at its newlines and parses each line gets back the document of every event
-- that was logged, in order and nothing else, whatever callers and the bridge put in: no text of
-- theirs ends a line or starts one. The strings of the events are UTF-8.
pub read_lines-log_bytes :
    (time : Option ℕ → Bytes) (es : List Event)
    → All (IsText time) es
    → read_lines (lines (log_bytes time es)) ≡ map (λ e. some (event_json time e)) es
read_lines-log_bytes time es h = ap read_lines (lines-log_bytes time es) ∙ read_documents time es h
