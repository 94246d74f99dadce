-- ===== src/Server/Problem.antt =====
-- internal/server/problem.go, and the mapping of bridge errors in internal/server/server.go.
pub mod Laws
use opencost_ai.Prelude.{
  ℕ, zero, suc, Bool, true, false, not, List, [], ◌∷◌, ◌++◌, Option, none, some, ◌==◌,
  if◌then◌else◌, is_nil,
}
use opencost_ai.Prelude.Int.{ℤ, pos, negsuc}
use opencost_ai.Text.{Bytes, text}
use opencost_ai.RateLimit.{RateLibrary}
use opencost_ai.Api.{Problem}
use opencost_ai.Bridge.Types.{Error}
use opencost_ai.Server.Writer.{Item, StatusWriter, set_header, write_header, write}
use opencost_ai.Server.World.{
  Config, Request, World, respond, UpstreamError, bridge_error, other_error,
}

-- `requestid.HeaderName` and `apiv1.ProblemContentType`
abbrev pub header_name : Bytes
header_name = text "X-Request-ID"

abbrev pub problem_content_type : Bytes
problem_content_type = text "application/problem+json"

-- `instanceURI`
unfoldable pub instance_uri : Bytes → Bytes → Bytes
instance_uri path req_id = if is_nil req_id then path else path ++ b'#' ∷ req_id

unfoldable pub problem_of : Request → ℕ → Bytes → Bytes → Problem
problem_of r status title detail = record {
  title = title;
  status = status;
  detail = detail;
  instance_uri = instance_uri r.path r.request_id;
  request_id = r.request_id;
}

-- The `if reqID != ""` around the header.
abbrev pub echo_id : Bytes → StatusWriter → StatusWriter
echo_id id s = if is_nil id then s else set_header header_name id s

-- `writeProblem`
unfoldable pub write_problem : Config → Request → ℕ → Bytes → Bytes → StatusWriter → StatusWriter
write_problem cfg r status title detail s =
    let p = Item.problem (problem_of r status title detail) in
    if not (cfg.encodes p)
    then write (Item.plain (text "internal error\n"))
        (write_header 500 (set_header (text "Content-Type") (text "text/plain; charset=utf-8") s))
    else write p (
        write_header status
          (echo_id r.request_id (set_header (text "Content-Type") problem_content_type s)))

-- `problemTitles`, and of `http.StatusText` the one status outside the table that is asked for.
unfoldable pub problem_title_for : ℕ → Bytes
problem_title_for status =
    if status == 400
    then text "Bad Request"
    else if status == 415
    then text "Unsupported Media Type"
    else if status == 413
    then text "Payload Too Large"
    else if status == 429
    then text "Too Many Requests"
    else if status == 500
    then text "Internal Server Error"
    else if status == 502
    then text "Bad Gateway"
    else if status == 503
    then text "Service Unavailable"
    else []

abbrev pub is_status : ℕ → ℤ → Bool
is_status n (pos m) = m == n
is_status n (negsuc m) = false

-- `bridgeErrorStatus`
unfoldable pub bridge_error_status : UpstreamError → ℕ
bridge_error_status (bridge_error e) = if is_status 503 e.status then 503 else 502
bridge_error_status (other_error e) = 502

-- What `mapBridgeError` writes: status, title and detail.
unfoldable pub bridge_problem : UpstreamError → ℕ × Bytes × Bytes
bridge_problem (bridge_error e) =
    if is_status 0 e.status
    then (502, text "Bad Gateway", text "upstream bridge is unreachable")
    else if is_status 404 e.status
    then (502, text "Bad Gateway", text "requested upstream resource not found")
    else if is_status 503 e.status
    then (503, text "Service Unavailable", text "upstream bridge is not ready")
    else (502, text "Bad Gateway", text "upstream bridge returned an error")
bridge_problem (other_error e) = (502, text "Bad Gateway", text "upstream bridge returned an error")

-- `mapBridgeError`, but for its lines in the process log
unfoldable pub map_bridge_error : Config → Request → UpstreamError → StatusWriter → StatusWriter
map_bridge_error cfg r e s =
    let (status, title, detail) = bridge_problem e in write_problem cfg r status title detail s

-- `writeJSON`
unfoldable pub write_json : Config → Request → ℕ → Item → StatusWriter → StatusWriter
write_json cfg r status i s =
    if not (cfg.encodes i)
    then write_problem cfg r 500 (problem_title_for 500) (text "failed to encode response") s
    else write i
        (write_header status (set_header (text "Content-Type") (text "application/json") s))
