-- ===== src/Auth/Header.antt =====
-- `extractBearer` of internal/auth/middleware.go.
pub mod Laws
use opencost_ai.Prelude.{Bool, not, [], Option, none, some, Result, ok, err, is_nil, if◌then◌else◌}
use opencost_ai.Text.{Bytes, text, cut, equal_fold}
use opencost_ai.Text.Trim.{trim_space}

abbrev pub bearer_scheme : Bytes
bearer_scheme = text "bearer"

-- the four `errors.New` of `extractBearer`
pub data HeaderError : Type 0 where
  missing malformed unsupported empty : HeaderError

unfoldable pub header_error_text : HeaderError → Bytes
header_error_text missing = text "missing Authorization header"
header_error_text malformed = text "malformed Authorization header"
header_error_text unsupported = text "unsupported authorization scheme, expected Bearer"
header_error_text empty = text "empty bearer token"

unfoldable pub extract_bearer : Bytes → Result HeaderError Bytes
extract_bearer header = if is_nil header then err missing else elim (cut b' ' header) [
  | none ↦ err malformed
  | some (scheme, rest) ↦
      if not (equal_fold scheme bearer_scheme)
      then err unsupported
      else let token = trim_space rest in if is_nil token then err empty else ok token
]
