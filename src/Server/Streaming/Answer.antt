-- ===== src/Server/Streaming/Answer.antt =====
-- What is audited of a stream against what the client is sent.
use opencost_ai.Prelude.{
  ℕ, none, ok, ◌≡◌, refl, ap, ◌∙◌, Bool, true, false, List, [], ◌∷◌, ◌++◌, if◌then◌else◌,
}
use opencost_ai.Text.{Bytes}
use opencost_ai.Bridge.Types.{ChatStreamChunk}
use opencost_ai.RateLimit.{RateLibrary}
use opencost_ai.Bridge.Types.{ChatRequest}
use opencost_ai.Api.{AskRequest}
use opencost_ai.Audit.{Event, Logger, redact, log}
use opencost_ai.Server.World.{Config, Request, World, Upstream}
use opencost_ai.Server.Problem.Laws.{IsFresh}
use opencost_ai.Server.Observe.{to_audit_tool_calls}
use opencost_ai.Server.Streaming.Frames.{Encodes}
use opencost_ai.Server.Streaming.{no_progress, success_event, ask_stream}
use opencost_ai.Server.Streaming.Transcript.{events_of_all, progress_all, ask_stream-Served}
use opencost_ai.Server.Streaming.Collected.{answer_in, tools_in, progress_all_lem}

log_works :
    (now : ℕ) (works : Bool) (e : Event) (l : Logger)
    → works ≡ true
    → (log now works e l).1.written ≡ l.written ++ redact l.log_query now e ∷ []
unfolding log
log_works now true e l h = refl
log_works now false e l h = cc

redact_lem :
    (log_query : Bool) (now : ℕ) (e : Event) (a : Bytes)
    → e.answer ≡ (if log_query then a else [])
    → ((redact log_query now e).status ≡ e.status)
      × ((redact log_query now e).tool_calls ≡ e.tool_calls)
      × ((redact log_query now e).answer ≡ (if log_query then a else []))
unfolding redact
redact_lem true now e a h = (refl, refl, h)
redact_lem false now e a h = (refl, refl, refl)

-- A stream that ends: the audit log gets one event with status 200, whose tool calls are those that
-- the frames announced and whose answer is the text of the token frames, or empty unless the
-- logger is opted in. The response can be flushed, nothing was sent before, every frame can be
-- encoded, and the audit sink works.
pub ask_stream-answer :
    {lib : RateLibrary} (cfg : Config) (r : Request) (req : AskRequest) (caller : Bytes)
    (up : Upstream) (bridge_req : ChatRequest) (chunks : List ChatStreamChunk) (w : World lib)
    → Encodes cfg
    → r.can_flush ≡ true
    → r.sink_works ≡ true
    → up.chat_stream bridge_req ≡ ok (chunks, none)
    → IsFresh w.writer
    → (e : Event) × ((ask_stream cfg r req caller up bridge_req w).audit.written
        ≡ w.audit.written ++ e ∷ [])
      × (e.status ≡ 200)
      × (e.tool_calls ≡ to_audit_tool_calls (tools_in (events_of_all chunks)))
      × (e.answer ≡ (if w.audit.log_query then answer_in (events_of_all chunks) else []))
unfolding success_event
ask_stream-answer cfg r req caller up bridge_req chunks w encodes can_flush works opens fresh =
    let p = progress_all w.audit.log_query chunks (no_progress bridge_req) in
    let e = success_event r req caller p in
    let (answer, tools) = progress_all_lem w.audit.log_query chunks (no_progress bridge_req) in
    let (on_wire, items, logged, calls) =
      ask_stream-Served cfg encodes r req caller up bridge_req chunks none w can_flush opens
        fresh in
    let (status, tool_calls, kept) =
      redact_lem w.audit.log_query r.now e (answer_in (events_of_all chunks)) answer in
    (
      redact w.audit.log_query r.now e,
      ap (λ l. l.written) logged ∙ log_works r.now r.sink_works e w.audit works,
      status,
      tool_calls ∙ ap to_audit_tool_calls tools,
      kept,
    )
