-- ===== src/Server/Validation/Laws.antt =====
-- What the checks let through.
use opencost_ai.Prelude.{
  ◌≤◌, ◌≡◌, ◌≢◌, ◌↔◌, Bool, true, false, [], none, ok, err, Result, arith, length, is_nil,
  is_nil-eq, is_nil-ne, ◌⊎◌, Bool-cases, inl, inr, ap,
}
use opencost_ai.Text.{Bytes}
use opencost_ai.Text.Trim.{trim_space}
use opencost_ai.Text.Utf8.{valid_string}
use opencost_ai.Api.{AskRequest}
use opencost_ai.Auth.Header.{extract_bearer}
use opencost_ai.Server.Validation.Uuid.{IsUuid, is_uuid_like_iff}
use opencost_ai.Server.Validation.{is_uuid_like, validate_ask_request, parse_bearer_token}

-- What the copy in the server returns for a result of `extractBearer`.
abbrev pub as_pair {ℓ} : {E : Type ℓ} → Result E Bytes → Bytes × Bool
as_pair (ok token) = (token, true)
as_pair (err e) = ([], false)

-- The server's parser of the Authorization header agrees with the one that the middleware
-- authenticates by, on every header.
pub parse_bearer_token-extract_bearer :
    (header : Bytes) → parse_bearer_token header ≡ as_pair (extract_bearer header)
unfolding parse_bearer_token extract_bearer
parse_bearer_token-extract_bearer header = ground arith

-- The fields of a request that passes.
pub record IsAskable (r : AskRequest) : Type 0 where
  pub has_query : trim_space r.query ≢ []
  pub bounded : length r.query ≤ 4096
  pub is_utf8 : valid_string r.query ≡ true
  pub conversation : (r.conversation_id ≡ []) ⊎ IsUuid r.conversation_id

validate_ask_request_sound : (r : AskRequest) → validate_ask_request r ≡ none → IsAskable r
unfolding validate_ask_request
validate_ask_request_sound r h = record {
  has_query =
      λ e. absurd (let empty : is_nil (trim_space r.query) ≡ true = ap is_nil e in ground arith);
  bounded = ground arith;
  is_utf8 = ground arith;
  conversation = elim (Bool-cases (is_nil r.conversation_id)) [
    | inl e ↦ inl (is_nil-eq r.conversation_id e)
    | inr e ↦
        let like : is_uuid_like r.conversation_id ≡ true = ground arith in
        inr ((is_uuid_like_iff r.conversation_id).0 like)
  ];
}

validate_ask_request_complete : (r : AskRequest) → IsAskable r → validate_ask_request r ≡ none
unfolding validate_ask_request
validate_ask_request_complete r h =
    let solid = is_nil-ne (trim_space r.query) h.has_query in
    elim h.conversation [
      | inl e ↦ let empty : is_nil r.conversation_id ≡ true = ap is_nil e in ground arith
      | inr e ↦ ground (arith, (is_uuid_like_iff r.conversation_id).1 e)
    ]

-- validateAskRequest passes exactly the requests whose query holds more than white space, has at
-- most 4096 bytes and is UTF-8, and whose conversation ID, if there is one, has the form of a UUID.
pub validate_ask_request_iff : (r : AskRequest) → (validate_ask_request r ≡ none) ↔ IsAskable r
validate_ask_request_iff r = (validate_ask_request_sound r, validate_ask_request_complete r)
