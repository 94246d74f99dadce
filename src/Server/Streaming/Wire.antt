-- ===== src/Server/Streaming/Wire.antt =====
-- The bytes of the frames that `writeSSE` of internal/server/stream.go writes, and a reader of them.
use opencost_ai.Prelude.{
  and_parts, ◌≡◌, ◌≢◌, refl, ap, ◌∙◌, true, not, List, [], ◌∷◌, ◌++◌, append_assoc, none, some, map,
  All, All-append, all, if◌then◌else◌, is_nil, ◌==◌, arith,
}
use opencost_ai.Text.{Bytes, text, beq, cut}
use opencost_ai.Bridge.Stream.Lines.{lines, lines-append}
use opencost_ai.Api.{SseEvent, thinking, tool_call, tool_result, token, done, error}
use opencost_ai.Server.Streaming.{event_type}

-- `writeSSE` on the connection, with json.Encoder as `json`, in front of the newline that it adds.
unfoldable pub frame_bytes : (json : SseEvent → Bytes) → SseEvent → Bytes
frame_bytes json e =
    text "event: " ++ (event_type e ++ (b'\n' ∷ text "data: " ++ (json e ++ (b'\n' ∷ b'\n' ∷ []))))

unfoldable pub stream_bytes : (json : SseEvent → Bytes) → List SseEvent → Bytes
unfolding frame_bytes
stream_bytes json [] = []
stream_bytes json (e ∷ es) = frame_bytes json e ++ stream_bytes json es

-- A reader of server-sent events: the type and the data lines that it has, and its lines, which end
-- with a line feed. A field's name ends at the first colon; one space behind it is dropped.
pub record Pending : Type 0 where
  pub type : Bytes
  pub parts : List Bytes

abbrev pub nothing : Pending
nothing = record { type = []; parts = [] }

abbrev pub unspaced : Bytes → Bytes
unspaced [] = []
unspaced (c ∷ s) = if c == b' ' then s else c ∷ s

abbrev pub with_field : Bytes → Bytes → Pending → Pending
with_field name value p =
    if beq name (text "event")
    then record p { type = value }
    else if beq name (text "data")
    then record p { parts = p.parts ++ value ∷ [] }
    else p

abbrev pub with_line : Bytes → Pending → Pending
with_line line p = elim (cut b':' line) [
  | none ↦ with_field line [] p
  | some (name, value) ↦ with_field name (unspaced value) p
]

-- The data lines joined by line feeds
abbrev pub joined : List Bytes → Bytes
joined [] = []
joined (s ∷ []) = s
joined (s ∷ t ∷ ss) = s ++ (b'\n' ∷ joined (t ∷ ss))

-- An empty line ends an event, which is dropped where it has no data.
unfoldable pub read_events : Pending → List Bytes → List (Bytes × Bytes)
read_events p [] = []
read_events p (l ∷ ls) =
    let ended = read_events nothing ls in
    let more = read_events (with_line l p) ls in
    if is_nil l then if is_nil p.parts then ended else (p.type, joined p.parts) ∷ ended else more

-- An event of a type and one line of data
read_events-one :
    (type value : Bytes) (ls : List Bytes)
    → read_events nothing ((text "event: " ++ type) ∷ (text "data: " ++ value) ∷ [] ∷ ls)
      ≡ (type, value) ∷ read_events nothing ls
unfolding read_events text cut beq
read_events-one type value ls = refl

regroup :
    (a t d j rest : Bytes)
    → (a ++ (t ++ (b'\n' ∷ d ++ (j ++ (b'\n' ∷ b'\n' ∷ []))))) ++ rest
      ≡ (a ++ t) ++ (b'\n' ∷ ((d ++ j) ++ (b'\n' ∷ ([] ++ (b'\n' ∷ rest)))))
regroup a t d j rest = simp append_assoc

abbrev pub IsOneLine : Bytes → Type 0
IsOneLine s = All (λ c. c ≢ b'\n') s

one_line : (s : Bytes) → all (λ c. not (c == b'\n')) s ≡ true → IsOneLine s
one_line [] h = tt
one_line (c ∷ s) h =
    let (head, tail) = and_parts (not (c == b'\n')) _ h in
    ((λ e. ground (arith, head, e)), one_line s tail)

event_type-IsOneLine : (e : SseEvent) → IsOneLine (text "event: " ++ event_type e)
unfolding text event_type
event_type-IsOneLine (thinking t) = one_line (text "event: " ++ event_type (thinking t)) refl
event_type-IsOneLine (tool_call n a) = one_line (text "event: " ++ event_type (tool_call n a)) refl
event_type-IsOneLine (tool_result t) = one_line (text "event: " ++ event_type (tool_result t)) refl
event_type-IsOneLine (token t) = one_line (text "event: " ++ event_type (token t)) refl
event_type-IsOneLine (done d) = one_line (text "event: " ++ event_type (done d)) refl
event_type-IsOneLine (error e) = one_line (text "event: " ++ event_type (error e)) refl

lines-frame :
    (json : SseEvent → Bytes) (e : SseEvent) (rest : Bytes)
    → IsOneLine (json e)
    → lines (frame_bytes json e ++ rest)
      ≡ (text "event: " ++ event_type e) ∷ (text "data: " ++ json e) ∷ [] ∷ lines rest
unfolding frame_bytes text
lines-frame json e rest h =
    ap lines (regroup (text "event: ") (event_type e) (text "data: ") (json e) rest)
    ∙ lines-append (text "event: " ++ event_type e) _ (event_type-IsOneLine e)
    ∙ ap (λ ls. (text "event: " ++ event_type e) ∷ ls)
        (lines-append (text "data: " ++ json e) _
            (All-append (λ c. c ≢ b'\n') (text "data: ") (json e) (one_line (text "data: ") refl) h)
          ∙ ap (λ ls. (text "data: " ++ json e) ∷ ls) (lines-append [] rest tt))

-- A reader of the stream gets back the type and the JSON of every event, in order, where what the
-- encoder writes for it is on one line.
pub read_events-stream_bytes :
    (json : SseEvent → Bytes) (es : List SseEvent)
    → All (λ e. IsOneLine (json e)) es
    → read_events nothing (lines (stream_bytes json es)) ≡ map (λ e. (event_type e, json e)) es
unfolding stream_bytes read_events lines
read_events-stream_bytes json [] h = refl
read_events-stream_bytes json (e ∷ es) (h, hs) =
    ap (read_events nothing) (lines-frame json e (stream_bytes json es) h)
    ∙ read_events-one (event_type e) (json e) (lines (stream_bytes json es))
    ∙ ap (λ evs. (event_type e, json e) ∷ evs) (read_events-stream_bytes json es hs)
