-- ===== src/Server/Upstream/Once.antt =====
-- From the reply of the bridge to the status of an answer without streaming.
use opencost_ai.Prelude.{
  ℕ, ◌≡◌, refl, ap, ◌∙◌, true, false, none, some, Result, ok, err, Result-cases, Bool-cases, ◌==◌,
  inl, inr, if◌then◌else◌,
}
use opencost_ai.Text.{Bytes, text}
use opencost_ai.RateLimit.{RateLibrary}
use opencost_ai.Api.{AskRequest}
use opencost_ai.Bridge.Types.{ChatRequest, ChatResponse}
use opencost_ai.Bridge.Client.{
  Client, Reply, unreached, response, is_success, request_to, chat, exchange,
}
use opencost_ai.Server.Writer.{Item}
use opencost_ai.Server.Writer.Sync.{sent_status}
use opencost_ai.Server.World.{Config, Request, World}
use opencost_ai.Server.Problem.{bridge_error_status}
use opencost_ai.Server.Problem.Laws.{IsFresh}
use opencost_ai.Server.Ask.{bridge_request, ask_once}
use opencost_ai.Server.Status.Answer.{result_status, ask_once-result}
use opencost_ai.Server.Upstream.{Link, upstream_of}

-- The status that the gateway answers with, by the reply of the bridge.
abbrev pub status_of : (decodes : Bytes → Result Bytes ChatResponse) → Reply Bytes → ℕ
status_of decodes (unreached cause) = 502
status_of decodes (response status body) =
    if is_success status
    then elim (decodes body) [ ok resp ↦ 200 | err cause ↦ 502 ]
    else if status == 503
    then 503
    else 502

-- The request goes out.
pub record Asks (c : Client) (link : Link) (req : ChatRequest) (reply : Reply Bytes) : Type 0 where
  pub buf : Bytes
  pub encoded : link.encode (record req { stream = false }) ≡ ok buf
  pub built :
      link.http.build_error (request_to c (text "POST") (text "/api/chat") (some buf)) ≡ none
  pub replied : link.http.send (request_to c (text "POST") (text "/api/chat") (some buf)) ≡ reply

upstream_of-status :
    (c : Client) (link : Link) (req : ChatRequest) (reply : Reply Bytes)
    → Asks c link req reply
    → result_status ((upstream_of c link).chat req) ≡ status_of link.decode_chat reply
unfolding upstream_of chat exchange bridge_error_status
upstream_of-status c link req (unreached cause) h =
    rw (chat, h.encoded, exchange, h.built, h.replied) refl
upstream_of-status c link req (response status body) h = elim (Bool-cases (is_success status)) [
  | inl s ↦ elim (Result-cases (link.decode_chat body)) [
    | inl (resp, d) ↦ rw (chat, h.encoded, exchange, h.built, h.replied, s, d) refl
    | inr (cause, d) ↦ rw (chat, h.encoded, exchange, h.built, h.replied, s, d) refl
  ]
  | inr s ↦ rw (chat, h.encoded, exchange, h.built, h.replied, s) refl
]

module _ {lib : RateLibrary} (cfg : Config) (r : Request) (req : AskRequest) (caller : Bytes) where
  -- An answer without streaming from end to end: where the request goes out, the client is sent status
  -- 200 for a response of the bridge with a status between 200 and 299 that can be decoded, 503 for one
  -- with status 503, and 502 for every other reply, a redirect included. Nothing was sent before, and
  -- every document can be encoded.
  pub ask_once-status_of :
      (c : Client) (link : Link) (reply : Reply Bytes) (w : World lib)
      → ((i : Item) → cfg.encodes i ≡ true)
      → Asks c link (bridge_request cfg req) reply
      → IsFresh w.writer
      → sent_status (ask_once cfg (upstream_of c link) r req caller w).writer.inner
        ≡ some (status_of link.decode_chat reply)
  ask_once-status_of c link reply w encodes asks fresh =
      ask_once-result cfg r (upstream_of c link) encodes req caller w fresh
      ∙ ap some (upstream_of-status c link (bridge_request cfg req) reply asks)
