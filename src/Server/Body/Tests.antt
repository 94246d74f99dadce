-- ===== src/Server/Body/Tests.antt =====
-- Tests of the bodies.
use opencost_ai.Prelude.{false, List, All, ◌≡◌, refl, none, [], ◌∷◌, ◌++◌, map}
use opencost_ai.Text.{Bytes, text, beq}
use opencost_ai.Text.Utf8.{valid_string}
use opencost_ai.Json.{Fields, FieldsHaveNumbers, FieldsAreUtf8, no_fields}
use opencost_ai.Api.{SseEvent}
use opencost_ai.Api.Document.Text.{Maps, IsText}
use opencost_ai.Server.Streaming.{events_of, progress, done_of, no_progress, ask_stream}
use opencost_ai.Server.Streaming.Transcript.{events_of_all, progress_all, last_event}
use opencost_ai.Server.Body.{body_bytes}
use opencost_ai.Server.Body.Client.{read_body, event_read, ask_stream-read_body}
use opencost_ai.Server.Fixtures.{config, chunks, upstream, request, asked, world, chat_request}

-- Every object is empty.
abbrev no_args : Bytes → Fields
no_args a = no_fields

no_args-Maps : Maps no_args
unfolding FieldsHaveNumbers FieldsAreUtf8
no_args-Maps = record { numbered = λ a. tt; utf8 = λ a. tt }

-- What the stream of the tests ends with.
abbrev sent_events : List SseEvent
sent_events =
    events_of_all chunks
    ++ last_event request none (progress_all false chunks (no_progress chat_request)) ∷ []

sent_events-IsText : All IsText sent_events
unfolding events_of progress done_of valid_string text beq
sent_events-IsText = (
  refl,
  (
    refl,
    (
      refl,
      (record { request_id = refl; model = refl; done_reason = refl; tool_calls = (refl, tt) }, tt),
    ),
  ),
)

ask_stream-read_body_example :
    read_body (
      body_bytes no_args
        (ask_stream config request asked [] upstream chat_request world).writer.inner.items)
    ≡ map (event_read no_args no_args-Maps) sent_events
ask_stream-read_body_example =
    ask_stream-read_body no_args no_args-Maps config request asked [] upstream chat_request chunks
      none world (λ e. refl) refl refl (refl, refl) refl sent_events-IsText
