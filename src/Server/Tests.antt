-- ===== src/Server/Tests.antt =====
-- Tests of the server.
use opencost_ai.Prelude.{
  arith, ap, value_of, Bool-cases, length, ltb, inl, inr, ok, none, some, ℕ, ◌≡◌, ◌↔◌, ◌⊎◌, refl,
  true, false, List, [], ◌∷◌, ◌++◌, none, some, map, All,
}
use opencost_ai.Prelude.Int.{pos}
use opencost_ai.Text.{Bytes, text, beq, to_lower, before_byte}
use opencost_ai.Text.Trim.{trim_space}
use opencost_ai.Text.Utf8.{valid_string}
use opencost_ai.Text.Dict.{Dict, lookup}
use opencost_ai.RequestId
use opencost_ai.RequestId.{failed}
use opencost_ai.RequestId.Validity.{IsCallerId}
use opencost_ai.RateLimit.{allow, bucket_of}
use opencost_ai.Api.{AskRequest}
use opencost_ai.Audit.{Event, log}
use opencost_ai.Auth.Header.{extract_bearer}
use opencost_ai.Metrics.{Sample, requests}
use opencost_ai.Server.Writer.{Item}
use opencost_ai.Server.Writer.Sync.{sent_status}
use opencost_ai.Server.World.{log_audit, chat_stream_call, Upstream}
use opencost_ai.Server.Validation.Uuid.{IsUuid, is_uuid_like_iff}
use opencost_ai.Server.Validation.{
  model_or_default, is_uuid_like, uuid_from, require_json, validate_ask_request, parse_bearer_token,
}
use opencost_ai.Server.Validation.Laws.{
  as_pair, parse_bearer_token-extract_bearer, IsAskable, validate_ask_request_iff,
}
use opencost_ai.Server.Problem.{header_name}
use opencost_ai.Server.Correlated.Serve.{serve-IsCorrelated}
use opencost_ai.Server.Observe.{to_audit_tool_calls, observe_tool_calls, observe_tokens}
use opencost_ai.Server.Streaming.{ask_stream, no_progress, serve_chunks, finish_stream, progress}
use opencost_ai.Server.Streaming.Transcript.{
  events_of_all, progress_all, last_event, audited, ask_stream-Served,
}
use opencost_ai.Server.Streaming.Collected.{tools_in}
use opencost_ai.Bridge.Types.{ChatStreamChunk}
use opencost_ai.Server.Streaming.Rendered.{Rendered}
use opencost_ai.Server.Streaming.Answer.{ask_stream-answer}
use opencost_ai.Server.Ask.{ask, ask_decoded, ask_valid, ask_granted, bridge_request}
use opencost_ai.Server.Ask.Safety.{IsWarranted, ask-IsWarranted}
use opencost_ai.Json.{Fields, no_fields, encode}
use opencost_ai.Json.Parse.{parse}
use opencost_ai.Bridge.Document.{chat_request_json}
use opencost_ai.Server.Ask.Prompt.{prompt, parse-prompt}
use opencost_ai.Server.Ask.Cases.{Accepted, caller_of}
use opencost_ai.Server.Status.Answer.{status_sent}
use opencost_ai.Server.Status.Answer.Exact.{Answers, ask-status_iff}
use opencost_ai.Server.Routes.{ask_route, endpoint_of, serve}
use opencost_ai.Server.Routes.Guard.{IsAuthentic, Denied, serve-Denied}
use opencost_ai.Server.Status.Serve.{serve-status}
use opencost_ai.Server.Mux.{Target, dispatch, handled}
use opencost_ai.Server.New.{Options, Handlers, new, api_patterns}
use opencost_ai.Server.New.Complete.{IsComplete, new_iff}
use opencost_ai.Server.New.Routing.{path_of, IsRouted, dispatch-IsRouted_iff}
use opencost_ai.Text.Utf8.{valid_from}
use opencost_ai.Server.Observe.Recorded.{IsUtf8, IsHandled}
use opencost_ai.Server.Ask.Recorded.{IsUtf8Traffic}
use opencost_ai.Server.Recorded.{framed, serve-Recorded}
use opencost_ai.Server.Recorded.Accepted.{IsAccepted, serve-IsAccepted}
use opencost_ai.Api.{SseEvent}
use opencost_ai.Server.Streaming.Wire.{IsOneLine}
use opencost_ai.Server.Fixtures.{
  chat_request, asked, counting, chunk_of, config, chunks, upstream, request, world, refuse,
}

serve-status_example :
    (status : ℕ) × (rest : List Sample) × (sent_status
        (serve config upstream refuse [] (failed 7) ask_route request world).writer.inner
      ≡ some status)
    × ((serve config upstream refuse [] (failed 7) ask_route request world).metrics
        ≡ rest ++ requests (endpoint_of ask_route) request.method status ∷ [])
serve-status_example =
    serve-status config upstream refuse [] (failed 7) ask_route request world refl

serve-Denied_example :
    IsAuthentic refuse request
    ⊎ Denied world (serve config upstream refuse [] (failed 7) ask_route request world)
serve-Denied_example =
    serve-Denied config upstream refuse [] (failed 7) ask_route request world refl

ask-IsWarranted_example : IsWarranted config request world (ask config upstream request world)
ask-IsWarranted_example = ask-IsWarranted config request upstream world

ask-status_iff_example :
    ((status_sent (ask config upstream request world) ≡ some 200) ↔ (
      (req : AskRequest) × Accepted config request req
      × ((allow counting request.now (caller_of config request) world.limiter).0 ≡ true)
      × Answers config request upstream req))
    × ((status_sent (ask config upstream request world) ≡ some 429) ↔ (
        (req : AskRequest) × Accepted config request req
        × ((allow counting request.now (caller_of config request) world.limiter).0 ≡ false)))
ask-status_iff_example = ask-status_iff config request upstream (λ i. refl) world (refl, refl)

ask_stream-Served_example :
    let w' = ask_stream config request asked [] upstream chat_request world in
    let p = progress_all false chunks (no_progress chat_request) in
    (sent_status w'.writer.inner ≡ some 200)
    × (w'.writer.inner.items
        ≡ map Item.frame (events_of_all chunks ++ last_event request none p ∷ []))
    × (w'.audit ≡ (log 5 true (audited request asked [] none p) world.audit).1)
    × (w'.calls ≡ chat_stream_call chat_request ∷ [])
ask_stream-Served_example =
    ask_stream-Served config (λ e. refl) request asked [] upstream chat_request chunks none world
      refl refl (refl, refl)

ask_stream-answer_example :
    (e : Event) × ((ask_stream config request asked [] upstream chat_request world).audit.written
      ≡ e ∷ [])
    × (e.status ≡ 200)
    × (e.tool_calls ≡ to_audit_tool_calls (tools_in (events_of_all chunks)))
    × (e.answer ≡ [])
ask_stream-answer_example =
    ask_stream-answer config request asked [] upstream chat_request chunks world (λ e. refl) refl
      refl refl (refl, refl)

-- A thought in front of the chunks of the tests
abbrev thought : ChatStreamChunk
thought = record (chunk_of [] [] false) { thinking = text "hm" }

abbrev pensive : Upstream
pensive = record upstream { chat_stream = λ b. ok (thought ∷ chunks, none) }

validate_ask_request_iff_example : (validate_ask_request asked ≡ none) ↔ IsAskable asked
validate_ask_request_iff_example = validate_ask_request_iff asked

abbrev uuid : Bytes
uuid = text "123E4567-e89b-12d3-a456-426614174000"

is_uuid_like_test : is_uuid_like uuid ≡ true
unfolding is_uuid_like uuid_from text
is_uuid_like_test = refl

is_uuid_like_iff_example : (is_uuid_like uuid ≡ true) ↔ IsUuid uuid
is_uuid_like_iff_example = is_uuid_like_iff uuid

parse_bearer_token-extract_bearer_example :
    parse_bearer_token request.authorization ≡ as_pair (extract_bearer request.authorization)
parse_bearer_token-extract_bearer_example = parse_bearer_token-extract_bearer request.authorization

-- The streamed request of the tests reaches the bridge.
ask_test :
    (ask config upstream request world).calls ≡ chat_stream_call (bridge_request config asked) ∷ []
unfolding ask ask_decoded ask_valid ask_granted ask_stream require_json validate_ask_request text
    beq trim_space to_lower before_byte valid_string allow bucket_of lookup serve_chunks
    finish_stream log_audit observe_tool_calls progress observe_tokens
ask_test = refl

abbrev target : Target
target = record {
  segments = path_of ask_route;
  clean = true;
  location = [];
  page = [];
  root_status = 307;
  clean_status = 307;
}

dispatch-IsRouted_iff_example :
    (dispatch (text "POST") target api_patterns ≡ handled ask_route)
    ↔ IsRouted (text "POST") target ask_route
dispatch-IsRouted_iff_example = dispatch-IsRouted_iff (text "POST") target ask_route

abbrev options : Options counting Unit Unit Unit
options = record {
  bridge = some tt;
  auth_validator = some tt;
  default_model = b'm' ∷ [];
  max_request_bytes = pos 100;
  logger = none;
  audit = some world.audit;
  rate_limiter = some world.limiter;
  metrics = some [];
  request_timeout = pos 5;
}

abbrev handlers : Handlers counting Unit Unit Unit
handlers = record {
  bridge = tt;
  auth_validator = tt;
  logger = tt;
  default_model = b'm' ∷ [];
  max_request_bytes = pos 100;
  audit = world.audit;
  limiter = world.limiter;
  metrics = [];
  request_timeout = pos 5;
}

new_iff_example : (new tt options ≡ ok handlers) ↔ IsComplete tt options handlers
new_iff_example = new_iff tt options handlers

decode-IsUtf8 :
    (body : Bytes) (req : AskRequest) → (config.decode 100 body).first ≡ ok req → IsUtf8 req.model
unfolding valid_string valid_from
decode-IsUtf8 body req h = elim (Bool-cases (ltb 100 (length body))) [
  | inl b ↦ cc
  | inr b ↦ rw (value_of (rw b at h)) refl
]

traffic : IsUtf8Traffic config upstream
unfolding valid_string valid_from
traffic = record {
  default_model = refl;
  requested = decode-IsUtf8;
  answered = λ b resp h. cc;
  streamed = λ b cs end h. rw (ap (λ p. p.0) (value_of h)) (refl, (refl, (refl, (refl, tt))));
}

serve-Recorded_example :
    let w' = serve config upstream refuse [] (failed 7) ask_route request world in
    (samples : List Sample) × All IsHandled samples
    × (w'.metrics ≡ framed (endpoint_of ask_route) request.method w'.writer.status samples)
serve-Recorded_example =
    serve-Recorded config upstream refuse [] (failed 7) ask_route request world traffic

serve-IsAccepted_example :
    All IsAccepted (serve config upstream refuse [] (failed 7) ask_route request world).metrics
unfolding valid_string valid_from
serve-IsAccepted_example =
    serve-IsAccepted config upstream refuse [] (failed 7) ask_route request world traffic refl tt

abbrev braces : SseEvent → Bytes
braces e = b'{' ∷ b'}' ∷ []

one_line : (e : SseEvent) → IsOneLine (braces e)
one_line e = ((λ h. omega arith), ((λ h. omega arith), tt))

serve-IsCorrelated_example :
    let w' = serve config upstream (λ _. none) [] (failed 7) ask_route request world in
    (id : Bytes) × IsCallerId id
    × ((IsCallerId [] × (id ≡ [])) ⊎ ((¬ IsCallerId []) × (id ≡ RequestId.new (failed 7))))
    × ((status : ℕ) × (headers : Dict Bytes) × (w'.writer.inner.sent ≡ some (status, headers))
        × (lookup header_name headers ≡ some id))
    × ((w'.audit ≡ world.audit)
        ⊎ ((e : Event) × (e.request_id ≡ id)
            × (e.caller_identity ≡ caller_of config request)
            × (w'.audit ≡ (log request.now request.sink_works e world.audit).1)))
serve-IsCorrelated_example =
    serve-IsCorrelated config upstream (λ _. none) [] (failed 7) ask_route request world tt refl

abbrev no_args : Bytes → Fields
no_args a = no_fields

asked-IsAskable : IsAskable asked
unfolding validate_ask_request text valid_string trim_space
asked-IsAskable = (validate_ask_request_iff asked).0 refl

default_is_utf8 : valid_string (model_or_default asked.model config.default_model) ≡ true
unfolding valid_string model_or_default text
default_is_utf8 = refl

parse-prompt_example :
    parse
      (encode (chat_request_json no_args (record (bridge_request config asked) { stream = true })))
    ≡ some (prompt (model_or_default asked.model config.default_model) asked.query true)
parse-prompt_example = parse-prompt no_args config asked true asked-IsAskable default_is_utf8
