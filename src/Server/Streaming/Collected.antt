-- ===== src/Server/Streaming/Collected.antt =====
-- What the handler collects of a stream against the frames that it writes.
use opencost_ai.Prelude.{
  ◌≡◌, refl, sym, ap, ◌∙◌, Bool, true, false, not, ◌&&◌, List, [], ◌∷◌, ◌++◌, append-nil,
  append_assoc, map, if◌then◌else◌, is_nil, Bool-cases, inl, inr,
}
use opencost_ai.Prelude.Int.{pos}
use opencost_ai.Text.{Bytes}
use opencost_ai.Bridge.Types
use opencost_ai.Bridge.Types.{ChatStreamChunk}
use opencost_ai.Api
use opencost_ai.Api.{SseEvent, thinking, tool_call, tool_result, token, done, error}
use opencost_ai.Bridge.Types.{ChatRequest}
use opencost_ai.Api.{AskRequest}
use opencost_ai.Server.Streaming.{Progress, events_of, progress, event_if, is_tool, called}
use opencost_ai.Server.Streaming.Transcript.{events_of_all, progress_all}

-- The text of the token frames, and the tool calls that are announced.
abbrev pub answer_in : List SseEvent → Bytes
answer_in [] = []
answer_in (token t ∷ es) = t ++ answer_in es
answer_in (thinking t ∷ es) = answer_in es
answer_in (tool_call n a ∷ es) = answer_in es
answer_in (tool_result t ∷ es) = answer_in es
answer_in (done d ∷ es) = answer_in es
answer_in (error e ∷ es) = answer_in es

abbrev pub tools_in : List SseEvent → List Api.ToolCall
tools_in [] = []
tools_in (tool_call n a ∷ es) = record { name = n; args = a; duration_ms = pos 0 } ∷ tools_in es
tools_in (token t ∷ es) = tools_in es
tools_in (thinking t ∷ es) = tools_in es
tools_in (tool_result t ∷ es) = tools_in es
tools_in (done d ∷ es) = tools_in es
tools_in (error e ∷ es) = tools_in es

answer_in-append : (es fs : List SseEvent) → answer_in (es ++ fs) ≡ answer_in es ++ answer_in fs
answer_in-append [] fs = refl
answer_in-append (token t ∷ es) fs =
    ap (λ a. t ++ a) (answer_in-append es fs) ∙ sym (append_assoc t (answer_in es) (answer_in fs))
answer_in-append (thinking t ∷ es) fs = answer_in-append es fs
answer_in-append (tool_call n a ∷ es) fs = answer_in-append es fs
answer_in-append (tool_result t ∷ es) fs = answer_in-append es fs
answer_in-append (done d ∷ es) fs = answer_in-append es fs
answer_in-append (error e ∷ es) fs = answer_in-append es fs

tools_in-append : (es fs : List SseEvent) → tools_in (es ++ fs) ≡ tools_in es ++ tools_in fs
tools_in-append [] fs = refl
tools_in-append (tool_call n a ∷ es) fs = cc (tools_in-append es fs)
tools_in-append (token t ∷ es) fs = tools_in-append es fs
tools_in-append (thinking t ∷ es) fs = tools_in-append es fs
tools_in-append (tool_result t ∷ es) fs = tools_in-append es fs
tools_in-append (done d ∷ es) fs = tools_in-append es fs
tools_in-append (error e ∷ es) fs = tools_in-append es fs

abbrev announced : Types.ToolCall → SseEvent
announced tc = tool_call tc.name tc.arguments

answer_in-calls :
    (tcs : List Types.ToolCall) (es : List SseEvent)
    → answer_in (map announced tcs ++ es) ≡ answer_in es
answer_in-calls [] es = refl
answer_in-calls (tc ∷ tcs) es = answer_in-calls tcs es

tools_in-calls :
    (tcs : List Types.ToolCall) (es : List SseEvent)
    → tools_in (map announced tcs ++ es) ≡ map called tcs ++ tools_in es
tools_in-calls [] es = refl
tools_in-calls (tc ∷ tcs) es = cc (tools_in-calls tcs es)

-- The frames around the tool calls of a chunk.
abbrev texts_of : ChatStreamChunk → List SseEvent
texts_of c =
    let has_content = not (is_nil c.message.content) in
    event_if (is_tool c && has_content) (tool_result c.message.content)
    ++ event_if (not (is_tool c) && has_content) (token c.message.content)

thinking_lem :
    (b : Bool) (t : Bytes) (es : List SseEvent)
    → (answer_in (event_if b (thinking t) ++ es) ≡ answer_in es)
      × (tools_in (event_if b (thinking t) ++ es) ≡ tools_in es)
thinking_lem true t es = (refl, refl)
thinking_lem false t es = (refl, refl)

texts_lem :
    (b k : Bool) (t : Bytes)
    → let es = event_if (b && k) (tool_result t) ++ event_if (not b && k) (token t) in
      (answer_in es ≡ (if not b && k then t else [])) × (tools_in es ≡ [])
texts_lem true true t = (refl, refl)
texts_lem true false t = (refl, refl)
texts_lem false true t = (append-nil t, refl)
texts_lem false false t = (refl, refl)

answer_in-events_of :
    (c : ChatStreamChunk)
    → answer_in (events_of c)
      ≡ (if not (is_tool c) && not (is_nil c.message.content) then c.message.content else [])
unfolding events_of
answer_in-events_of c =
    (thinking_lem (not (is_nil c.thinking)) c.thinking
      (map announced c.message.tool_calls ++ texts_of c)).0
    ∙ answer_in-calls c.message.tool_calls (texts_of c)
    ∙ (texts_lem (is_tool c) (not (is_nil c.message.content)) c.message.content).0

tools_in-events_of :
    (c : ChatStreamChunk) → tools_in (events_of c) ≡ map called c.message.tool_calls
unfolding events_of
tools_in-events_of c =
    (thinking_lem (not (is_nil c.thinking)) c.thinking
      (map announced c.message.tool_calls ++ texts_of c)).1
    ∙ tools_in-calls c.message.tool_calls (texts_of c)
    ∙ ap (λ ts. map called c.message.tool_calls ++ ts)
        (texts_lem (is_tool c) (not (is_nil c.message.content)) c.message.content).1
    ∙ append-nil (map called c.message.tool_calls)

captured_lem :
    (b k capture : Bool) (a t : Bytes)
    → (if b && k && capture then a ++ t else a)
      ≡ a ++ (if capture then if b && k then t else [] else [])
captured_lem true true true a t = refl
captured_lem true true false a t = sym (append-nil a)
captured_lem true false true a t = sym (append-nil a)
captured_lem true false false a t = sym (append-nil a)
captured_lem false true true a t = sym (append-nil a)
captured_lem false true false a t = sym (append-nil a)
captured_lem false false true a t = sym (append-nil a)
captured_lem false false false a t = sym (append-nil a)

-- One round adds to the answer, if it is captured, the text that the round sends, and to the tool
-- calls those that it announces.
progress_lem :
    (capture : Bool) (c : ChatStreamChunk) (p : Progress)
    → ((progress capture c p).answer
        ≡ p.answer ++ (if capture then answer_in (events_of c) else []))
      × ((progress capture c p).tools ≡ p.tools ++ tools_in (events_of c))
unfolding progress
progress_lem capture c p =
    let answer =
      captured_lem (not (is_tool c)) (not (is_nil c.message.content)) capture p.answer
        c.message.content in
    rw (answer_in-events_of c) (
      rw (tools_in-events_of c) (elim (Bool-cases c.is_done) [
        | inl e ↦ simp e (answer, refl)
        | inr e ↦ simp e (answer, refl)
      ]))

append_if :
    (capture : Bool) (a s t : Bytes)
    → (a ++ (if capture then s else [])) ++ (if capture then t else [])
      ≡ a ++ (if capture then s ++ t else [])
append_if true a s t = append_assoc a s t
append_if false a s t = append-nil (a ++ [])

pub progress_all_lem :
    (capture : Bool) (cs : List ChatStreamChunk) (p : Progress)
    → ((progress_all capture cs p).answer
        ≡ p.answer ++ (if capture then answer_in (events_of_all cs) else []))
      × ((progress_all capture cs p).tools ≡ p.tools ++ tools_in (events_of_all cs))
progress_all_lem true [] p = (sym (append-nil p.answer), sym (append-nil p.tools))
progress_all_lem false [] p = (sym (append-nil p.answer), sym (append-nil p.tools))
progress_all_lem capture (c ∷ cs) p =
    let es = events_of c in
    let fs = events_of_all cs in
    let (answer, tools) = progress_lem capture c p in
    let (answers, all_tools) = progress_all_lem capture cs (progress capture c p) in
    (
      answers
          ∙ ap (λ a. a ++ (if capture then answer_in fs else [])) answer
          ∙ append_if capture p.answer (answer_in es) (answer_in fs)
          ∙ ap (λ t. p.answer ++ (if capture then t else [])) (sym (answer_in-append es fs)),
      all_tools
          ∙ ap (λ t. t ++ tools_in fs) tools
          ∙ append_assoc p.tools (tools_in es) (tools_in fs)
          ∙ ap (λ t. p.tools ++ t) (sym (tools_in-append es fs)),
    )
