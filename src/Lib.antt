-- ===== src/Lib.antt =====
-- The opencost-ai gateway: an HTTP gateway in front of an MCP bridge to a language model.
--
-- Each file opens with the source file that it models; paths are from the repository's root.
-- - Prelude and its children: shared names, tests on numbers, lists, signed integers, results.
-- - Text: Go strings as lists of bytes, with the functions of strings and bytes that are called.
-- - Json: what is used of encoding/json: the text of a value with its escapes, and a reader of it, which
--   has two rounds of fuel for a byte.
-- - RequestId: internal/requestid/requestid.go. `new` and `assign_id` take the random bytes, or the
--   clock reading where the random source fails, as a value.
-- - Auth.Header: extractBearer of internal/auth/middleware.go.
-- - Auth.Source: internal/auth/source.go; the results of os.Stat and os.ReadFile are arguments.
--   Interleaving has the same code as steps of many goroutines, with the read-write lock, while the
--   file is rotated.
-- - RateLimit: internal/ratelimit/ratelimit.go; golang.org/x/time/rate is the record RateLibrary.
-- - Bridge: internal/bridge/types.go and stream.go; json.Unmarshal is the argument `decode`. The loop
--   of Next has one round of fuel more than there are bytes left, since a round takes a line.
--   Bridge.Document has the JSON of a request by the tags of the structs.
-- - Bridge.Client: internal/bridge/client.go, with the reply of net/http as a value.
-- - Config: internal/config/config.go. Loaded is about Load, Valid about Validate.
-- - Api: pkg/apiv1/types.go and responses.go, and Api.Document their JSON. Audit:
--   internal/audit/audit.go, as the list of what was logged; Audit.Document has the bytes of the log.
--   Metrics: internal/metrics/metrics.go, as the list of what was recorded. Metrics.Registry
--   has the families and the labels that a sample goes to.
-- - Server.Writer: statusWriter of internal/server/middleware.go over net/http's ResponseWriter; a
--   body is the value that is encoded. Server.World: the shared state, the response and the Bridge
--   interface, whose stream is the list of what Next returns.
-- - Server.Problem: internal/server/problem.go and the error mapping of server.go.
-- - Server.Validation, Server.Observe and Server.Ask: internal/server/handlers.go. Server.Ask.Cases
--   splits a request to /v1/ask by its outcome.
-- - Server.Streaming: internal/server/stream.go. Transcript and Answer compare what a client is sent
--   with what is audited, and Rendered with the chunks of the bridge; Wire has the bytes of the
--   frames and a reader of them. Server.Body has the bytes of every body, and what a client reads
--   off a stream.
-- - Server.Routes: the other handlers, the middleware of internal/auth/middleware.go,
--   internal/requestid/requestid.go and internal/server/middleware.go, and the routes of server.go.
-- - Server.Status: that responses are committed, with the status that is counted, and which status an
--   answer has. Server.Correlated: that a response and its audit line have one ID.
-- - Server.Upstream: the client of Bridge.Client and the stream of Bridge.Stream as the Bridge
--   interface, with net/http and encoding/json as the record Link, and answers from end to end.
-- - Server.Script: a request as its steps on what requests share, which the handlers are shown to be.
--   Allow is one step: a bucket that is made before the step that asks it is as full as one made then.
--   Server.Concurrent: requests at the same time, by a schedule that lists whose step is next.
-- - Server.Recorded: what a request leaves in the metrics, and the registry of it.
-- - Server.Mux: net/http's ServeMux for the kinds of patterns that are registered, with the path in
--   pieces. Server.New: `New` of internal/server/server.go, its options and its mux.
-- - Process: cmd/gateway/main.go. Wiring goes from the environment to the two servers, Listeners has
--   the handlers of both, and Lifecycle the goroutines of `run` behind that, whose steps (an error of
--   a listener, a signal, a send, a Shutdown) come in any order. The outcomes of Shutdown are open; its
--   context bounds it in time. Serving has the gateway as it was started, with one request after
--   another, as Server.Concurrent allows.
--
-- The decoding of encoding/json and its failures, the maps that it decodes arguments of tools to, the
-- text of a time.Time, crypto/sha256, the clock, the measured latency and the outcome of a write to the
-- audit sink are arguments. Lists of chunks are finite, so the handler of a stream needs no fuel.
--
-- Not modelled: what log/slog writes, the Prometheus client and its exposition, write deadlines, and
-- errors of the connection to the client.
pub mod Prelude
pub mod Text
pub mod RequestId
pub mod Auth
pub mod RateLimit
pub mod Bridge
pub mod Api
pub mod Audit
pub mod Metrics
pub mod Server
pub mod Json
pub mod Config
pub mod Process
