-- ===== src/Bridge/Tests.antt =====
-- Tests of the bridge client.
use opencost_ai.Prelude.{
  List, Option, ◌≤◌, ◌<◌, ◌≡◌, ◌≢◌, refl, Bool, true, false, [], ◌∷◌, none, some, Result, ok, err,
  arith, ◌==◌, if◌then◌else◌,
}
use opencost_ai.Prelude.Int.{pos, negsuc}
use opencost_ai.Text.{Bytes, text, cut, beq}
use opencost_ai.Text.Trim.{trim_right, trim_left}
use opencost_ai.Bridge.Types.{itoa, digits, error_text}
use opencost_ai.Bridge.Itoa.{read_int, min_int64, itoa-read}
use opencost_ai.Bridge.Stream.{
  StreamError, max_stream_line_bytes, reader_size, Body, at, line, read_slice, line_too_long,
  failed, round, ChatStream, next_loop, next,
}
use opencost_ai.Bridge.Stream.Lines.{lines, frames}
use opencost_ai.Bridge.Stream.Total.{read_all-total}
use opencost_ai.Bridge.Stream.Frames.{read_all, decode_all, Fits, read_all-frames}
use opencost_ai.Bridge.Stream.Limit.{next-limit}
use opencost_ai.Bridge.Client.{
  HttpClient, with_http_client, apply_options, apply_option, Url, Client, Http, HttpRequest,
  response, new as new_client, request_to, exchange,
}
use opencost_ai.Bridge.Client.Replies.{Explained, exchange-Explained}
use opencost_ai.Bridge.Client.Urls.{IsBase, new-IsBase}

itoa_test : itoa (negsuc 503) ≡ some (text "-504")
unfolding itoa digits text
itoa_test = refl

error_test :
    error_text (record { status = pos 503; op = text "chat"; body = []; cause = none })
    ≡ some (text "bridge chat: upstream status 503")
unfolding error_text digits text
error_test = refl

itoa-read_example :
    (s : Bytes) × (itoa (pos 502) ≡ some s)
    × (pos 502 ≢ min_int64 → read_int s ≡ pos 502)
    × (pos 502 ≡ min_int64 → s ≡ b'-' ∷ [])
itoa-read_example = itoa-read (pos 502) (omega arith)

abbrev is_bang : Bytes → Bool
is_bang [] = false
is_bang (c ∷ s) = c == 33

-- A decoder that takes any frame but one that begins with "!".
abbrev decode : Bytes → Result Bytes Bytes
decode s = if is_bang s then err [] else ok s

-- "a\r\n\n{b" and the end
abbrev body : Body
body = record { remaining = 97 ∷ 13 ∷ 10 ∷ 10 ∷ 123 ∷ 98 ∷ []; failure = none; at_once = true }

read_all_test : read_all decode reader_size 7 body ≡ some ((97 ∷ []) ∷ (123 ∷ 98 ∷ []) ∷ [], none)
unfolding read_all next_loop read_slice round cut trim_right trim_left reader_size
read_all_test = refl

body_Fits : Fits decode 5 body.remaining
unfolding lines
body_Fits = omega arith

read_all-frames_example :
    read_all decode 5 7 body ≡ some (decode_all decode 5 (frames (lines body.remaining)))
read_all-frames_example = read_all-frames decode 5 7 body (omega arith) refl body_Fits

next-limit_example :
    (2 ≤ max_stream_line_bytes
      → read_slice reader_size body ≡ (line (97 ∷ 13 ∷ 10 ∷ []), at body (10 ∷ 123 ∷ 98 ∷ [])))
    × (max_stream_line_bytes < 2
        → (s' : ChatStream decode) × (next decode (record { body = body; closed = false })
            ≡ some (failed line_too_long, s')))
next-limit_example =
    next-limit decode (record { body = body; closed = false }) (97 ∷ 13 ∷ []) (10 ∷ 123 ∷ 98 ∷ [])
      refl refl (omega arith)

abbrev url : Url
url = record { scheme = text "http"; host = text "bridge:8000"; path = text "/bridge/" }

-- A client from outside that follows redirects.
abbrev outside : HttpClient
outside = record { timeout = pos 7; transport = some 1; refuses_redirects = false }

abbrev client : Client
client = record {
  base_url = record { scheme = text "http"; host = text "bridge:8000"; path = text "/bridge" };
  hc = record outside { refuses_redirects = true };
  stream_hc = record { timeout = pos 0; transport = some 1; refuses_redirects = true };
  ua = text "opencost-ai-gateway/dev";
}

new_test : new_client (with_http_client (some outside) ∷ []) (ok url) ≡ ok client
unfolding new_client apply_options apply_option text beq trim_right trim_left
new_test = refl

new-IsBase_example : IsBase url client []
new-IsBase_example = new-IsBase (with_http_client (some outside) ∷ []) url client [] new_test

-- A bridge that redirects.
abbrev redirecting : Http Bytes
redirecting = record { build_error = λ q. none; send = λ q. response 302 (text "moved") }

abbrev tags_request : HttpRequest
tags_request = request_to client (text "GET") (text "/api/tags") none

exchange-Explained_example :
    Explained redirecting decode [] tags_request (exchange redirecting decode [] tags_request)
exchange-Explained_example = exchange-Explained redirecting decode [] tags_request

read_all-total_example :
    (chunks : List Bytes) × (e : Option StreamError) × (read_all decode 2 7 body ≡ some (chunks, e))
read_all-total_example = read_all-total decode 2 7 body (omega arith)
