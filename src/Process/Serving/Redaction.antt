-- ===== src/Process/Serving/Redaction.antt =====
-- The audit log of a running gateway.
use opencost_ai.Prelude.{
  ◌≡◌, refl, sym, ap, ◌∙◌, false, List, [], ◌∷◌, Option, none, ok, inl, inr, All, Result-cases,
  Option-cases,
}
use opencost_ai.Text.{Bytes}
use opencost_ai.RequestId.{Entropy, assign_id}
use opencost_ai.RateLimit.{RateLibrary}
use opencost_ai.Audit.{Logger, new_logger}
use opencost_ai.Audit.Laws.{IsRedacted}
use opencost_ai.Auth.Header.{extract_bearer}
use opencost_ai.Auth.Source.{ValidateError, validate}
use opencost_ai.Config.{Parsers}
use opencost_ai.Server.Writer.{new_status_writer, set_header}
use opencost_ai.Server.World.{Config, Request, World, Upstream, respond, observe}
use opencost_ai.Server.Problem.{header_name}
use opencost_ai.Metrics.{in_flight_inc}
use opencost_ai.Server.Ask.Safety.{ask-IsRedacted}
use opencost_ai.Server.Mux.{Target}
use opencost_ai.Server.Mux.Served.{serve_mux-Refused}
use opencost_ai.Server.Routes.{
  tools, models, require_token, measured, Route, ask_route, tools_route, models_route, handler_of,
  serve,
}
use opencost_ai.Server.New.{api_patterns, api_handler}
use opencost_ai.Process.Listeners.{
  health_handler, gateway_handler, public_patterns, run_public, public_handler,
}
use opencost_ai.Process.Wiring.{Gateway, start}
use opencost_ai.Process.Wiring.Wired.{start-valid}
use opencost_ai.Process.Serving.{
  Arrival, Running, Codec, config_of, fresh_writer, first_state, serve_arrival, serve_arrivals,
}

-- The flag is off, and the lines show nothing.
pub record IsQuiet (l : Logger) : Type 0 where
  pub off : l.log_query ≡ false
  pub redacted : All IsRedacted l.written

module _ {lib : RateLibrary} (cfg : Config) (up : Upstream) where
  handler_of-IsQuiet :
      (route : Route) (r : Request) (w : World lib)
      → IsQuiet w.audit
      → IsQuiet (handler_of cfg up route r w).audit
  unfolding handler_of tools models
  handler_of-IsQuiet ask_route r w h =
      let (redacted, off) = ask-IsRedacted cfg r up w h.off h.redacted in
      record { off = off; redacted = redacted }
  handler_of-IsQuiet tools_route r w h = h
  handler_of-IsQuiet models_route r w h = elim (Result-cases up.models) [
    | inl (tags, e) ↦ rw (models, e) h
    | inr (failure, e) ↦ rw (models, e) h
  ]

  require_token-IsQuiet :
      (validate : Bytes → Option ValidateError) (route : Route) (r : Request) (w : World lib)
      → IsQuiet w.audit
      → IsQuiet (require_token r validate (handler_of cfg up route r) w).audit
  unfolding require_token
  require_token-IsQuiet validate route r w h =
      elim (Result-cases (extract_bearer r.authorization)) [
        | inr (e, f) ↦ rw (require_token, f) h
        | inl (token, f) ↦ elim (Option-cases (validate token)) [
          | inl g ↦ rw (require_token, f, g) (handler_of-IsQuiet route r w h)
          | inr (e, g) ↦ rw (require_token, f, g) h
        ]
      ]

  module _ (validate : Bytes → Option ValidateError) (caller_id : Bytes) (entropy : Entropy)
      (r : Request) where
    serve-IsQuiet :
        (route : Route) (w : World lib)
        → IsQuiet w.audit
        → IsQuiet (serve cfg up validate caller_id entropy route r w).audit
    unfolding serve measured
    serve-IsQuiet route w h =
        let r' = record r { request_id = assign_id caller_id entropy } in
        let w1 = respond (set_header header_name (assign_id caller_id entropy)) w in
        let u = respond (λ s. new_status_writer s.inner) (observe in_flight_inc w1) in
        require_token-IsQuiet validate route r' u h

    api_handler-IsQuiet :
        (t : Target) (w : World lib)
        → w.writer.inner.sent ≡ none
        → IsQuiet w.audit
        → IsQuiet (api_handler cfg up validate caller_id entropy r t w).audit
    unfolding api_handler
    api_handler-IsQuiet t w unsent h =
        elim (serve_mux-Refused (λ route. serve cfg up validate caller_id entropy route r) r.method
          t api_patterns w unsent) [
            | inr refused ↦ rw refused.audit h
            | inl (route, taken, e) ↦ rw (api_handler, e) (serve-IsQuiet route w h)
          ]

    public_handler-IsQuiet :
        (version : Bytes) (t : Target) (w : World lib)
        → w.writer.inner.sent ≡ none
        → IsQuiet w.audit
        → IsQuiet (public_handler version cfg up validate caller_id entropy r t w).audit
    unfolding public_handler
    public_handler-IsQuiet version t w unsent h =
        elim (serve_mux-Refused (run_public version cfg up validate caller_id entropy r t) r.method
          t public_patterns w unsent) [
            | inr refused ↦ rw refused.audit h
            | inl (health_handler, taken, e) ↦ rw (public_handler, e) h
            | inl (gateway_handler, taken, e) ↦
                rw (public_handler, e) (api_handler-IsQuiet t w unsent h)
          ]

module _ {lib : RateLibrary} {L : Type 0} (version : Bytes) (codec : Codec)
    (g : Gateway lib L) where
  serve_arrivals-IsQuiet :
      (arrivals : List Arrival) (s : Running lib)
      → IsQuiet s.world.audit
      → IsQuiet (serve_arrivals version codec g arrivals s).world.audit
  unfolding serve_arrivals serve_arrival
  serve_arrivals-IsQuiet [] s h = h
  serve_arrivals-IsQuiet (a ∷ rest) s h =
      let w = s.world in
      serve_arrivals-IsQuiet rest (serve_arrival version codec g a s) (
        public_handler-IsQuiet (config_of version codec g) a.up
          (λ token. (validate token a.stat a.read s.source).0) a.caller_id a.entropy a.request
          version a.target (record w { writer = fresh_writer }) refl h)

-- Whatever requests arrive at a gateway that was started with the opt-in flag off, in its audit log no
-- line shows a query or an answer.
pub serve_arrivals-IsRedacted :
    {lib : RateLibrary} {L : Type 0} (d logger : L) (p : Parsers) (get : Bytes → Option Bytes)
    (version : Bytes) (codec : Codec) (g : Gateway lib L) (arrivals : List Arrival)
    → start lib d logger p get ≡ ok g
    → g.config.audit_log_query ≡ false
    → All IsRedacted
        (serve_arrivals version codec g arrivals (first_state version codec g)).world.audit.written
unfolding new_logger
serve_arrivals-IsRedacted d logger p get version codec g arrivals started off =
    let (c, loaded, valid, wired) = start-valid logger d p get g started in
    (serve_arrivals-IsQuiet version codec g arrivals (first_state version codec g) (
      rw wired.audit (record {
        off = ap (λ x. x.audit_log_query) (sym wired.config) ∙ off;
        redacted = tt;
      }))).redacted
