-- ===== src/Server/Validation.antt =====
-- The checks of internal/server/handlers.go on a request.
pub mod Laws
pub mod Uuid
use opencost_ai.Prelude.{
  ℕ, suc, ◌+◌, ◌*◌, Bool, true, false, not, ◌&&◌, ◌||◌, List, [], ◌∷◌, ◌++◌, Option, none, some,
  ltb, ◌==◌, if◌then◌else◌, is_nil, length,
}
use opencost_ai.Text.{
  Bytes, text, beq, cut, equal_fold, to_lower, before_byte, strip_prefix, within,
}
use opencost_ai.Text.Trim.{trim_space}
use opencost_ai.Text.Utf8.{valid_string}
use opencost_ai.Api.{AskRequest}
use opencost_ai.Server.World.{DecodeError, DecodeKind, max_bytes, type_error, syntax_error, other}

abbrev pub max_query_bytes : ℕ
max_query_bytes = 4 * 1024

abbrev content_type_error : Bytes
content_type_error = text "Content-Type must be application/json"

-- `requireJSON`; `none` is a nil error
unfoldable pub require_json : Bytes → Option Bytes
require_json ct =
    if is_nil ct
    then some content_type_error
    else let media = trim_space (to_lower (before_byte b';' ct)) in
      if not (beq media (text "application/json")) then some content_type_error else none

abbrev pub is_hex : ℕ → Bool
is_hex c = within b'0' b'9' c || within b'a' b'f' c || within b'A' b'F' c

abbrev pub is_dash_place : ℕ → Bool
is_dash_place i = i == 8 || i == 13 || i == 18 || i == 23

-- The loop of `isUUIDLike` at index `i`. A rune beyond ASCII is neither a dash nor a digit, so it
-- ends the loop as its first byte does here.
unfoldable pub uuid_from : ℕ → Bytes → Bool
uuid_from i [] = true
uuid_from i (c ∷ s) = (if is_dash_place i then c == b'-' else is_hex c) && uuid_from (suc i) s

-- `isUUIDLike`
unfoldable pub is_uuid_like : Bytes → Bool
is_uuid_like s = if not (length s == 36) then false else uuid_from 0 s

-- `validateAskRequest`
unfoldable pub validate_ask_request : AskRequest → Option Bytes
validate_ask_request r =
    if is_nil (trim_space r.query)
    then some (text "query is required")
    else if ltb max_query_bytes (length r.query)
    then some (text "query exceeds maximum length")
    else if not (valid_string r.query)
    then some (text "query must be valid UTF-8")
    else if not (is_nil r.conversation_id) && not (is_uuid_like r.conversation_id)
    then some (text "conversation_id must be a UUID")
    else none

-- `decodeErrorDetail`
unfoldable pub decode_error_detail : DecodeError → Bytes
decode_error_detail e = elim (strip_prefix (text "json: unknown field ") e.message) [
  | some rest ↦ text "request body has " ++ text "unknown field " ++ rest
  | none ↦ elim e.kind [
    | type_error field ↦
        if not (is_nil field)
        then text "request body field " ++ field ++ text " has wrong type"
        else text "request body has a field of the wrong type"
    | _ ↦ text "request body is not valid JSON"
  ]
]

-- `parseBearerToken`
unfoldable pub parse_bearer_token : Bytes → Bytes × Bool
parse_bearer_token header = if is_nil header then ([], false) else elim (cut b' ' header) [
  | none ↦ ([], false)
  | some (scheme, rest) ↦
      if not (equal_fold scheme (text "bearer"))
      then ([], false)
      else let token = trim_space rest in if is_nil token then ([], false) else (token, true)
]

-- `modelOrDefault`
unfoldable pub model_or_default : Bytes → Bytes → Bytes
model_or_default requested fallback = if is_nil requested then fallback else requested
