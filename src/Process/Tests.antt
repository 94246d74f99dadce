-- ===== src/Process/Tests.antt =====
-- Tests of the process: a run that a signal ends, and one in which the metrics listener fails first.
use opencost_ai.Prelude.{
  ap, All, arith, ok, ◌<◌, ◌≡◌, refl, Bool, true, false, List, [], ◌∷◌, Option, none, some, length,
  ◌⊎◌,
}
use opencost_ai.Text.{Bytes, text, beq}
use opencost_ai.Process.Lifecycle.{
  Name, api, metrics, set, Listener, serving, returned, gone, selecting, drain_metrics, finished,
  Process, capacity, Step, crash, close, send, signal, drain_shut_api, drain_shut_metrics,
  drain_waited, drain_return, Reach, here, next,
}
use opencost_ai.Process.Lifecycle.Bounds.{steps_left, Reach-send}
use opencost_ai.Process.Lifecycle.Ending.{
  AllDown, AllGone, CanReturn, Reach-AllGone, Reach-CanReturn,
}
use opencost_ai.RequestId.{failed}
use opencost_ai.Config.{
  Config, Parsers, default_config, load, validate, url_errors, validate_listen_addr,
}
use opencost_ai.Server.Mux.{Target}
use opencost_ai.Server.World.{Request, World}
use opencost_ai.Process.Listeners.{public_handler}
use opencost_ai.Server.Fixtures.{counting, config, upstream, refuse, request, world}
use opencost_ai.Server.New.Guarded.{Unreached, IsSent}
use opencost_ai.Audit.Laws.{IsRedacted}
use opencost_ai.Process.Serving.{
  Arrival, Running, Codec, first_state, serve_arrival, serve_arrivals,
}
use opencost_ai.Process.Serving.Admission.{IsAdmitted, serve_arrival-IsAdmitted}
use opencost_ai.Process.Serving.Redaction.{serve_arrivals-IsRedacted}
use opencost_ai.Process.Wiring.{Gateway, start}
use opencost_ai.Process.Wiring.Wired.{IsWired, start-IsWired, start-valid}

-- One listener's way to its end
abbrev leave : Name → (Name → Listener) → Name → Listener
leave n f = set (set f n (returned none)) n gone

abbrev all_gone : Name → Listener
all_gone = leave metrics (leave api (λ n. serving))

abbrev all_down : Name → Bool
all_down = set (set (λ n. false) api true) metrics true

abbrev drained : Process
drained = record { main = finished none; listener = all_gone; down = all_down; results = [] }

gone_at : (m : Name) → all_gone m ≡ gone
gone_at api = refl
gone_at metrics = refl

stopping : Reach (record {
  main = drain_metrics none;
  listener = leave api (λ n. serving);
  down = set (λ n. false) api true;
  results = record { name = api; error = none } ∷ [];
})
stopping =
    next (next (next (next here (signal refl)) (drain_shut_api none refl)) (close api refl refl))
      (send api refl (omega arith))

drained_run : Reach drained
drained_run =
    next
      (next
        (next (next (next stopping (drain_shut_metrics none refl)) (close metrics refl refl))
          (send metrics refl (omega arith)))
        (drain_waited refl gone_at))
      (drain_return refl)

Reach-AllGone_example : AllDown drained × AllGone drained
Reach-AllGone_example = Reach-AllGone drained_run refl

-- The API listener has sent, and the metrics listener is in front of its send.
abbrev crashed : Process
crashed = record {
  main = selecting;
  listener =
      set (set (set (λ n. serving) api (returned (some (text "a")))) api gone) metrics
        (returned (some (text "b")));
  down = λ n. false;
  results = record { name = api; error = some (text "a") } ∷ [];
}

crashed_run : Reach crashed
crashed_run =
    next (next (next here (crash api (text "a") refl)) (send api refl (omega arith)))
      (crash metrics (text "b") refl)

Reach-send_example : length crashed.results < capacity
Reach-send_example = Reach-send crashed_run metrics refl

Reach-CanReturn_example :
    ((s : Process) → Step crashed s → steps_left s < steps_left crashed) × CanReturn crashed
Reach-CanReturn_example = Reach-CanReturn crashed_run

-- A gateway on the default configuration.
abbrev parsers : Parsers
parsers = record {
  parse_duration = λ v. none;
  parse_int = λ v. none;
  parse_url = λ v. ok (record { scheme = text "http"; host = v; path = [] });
  split_host_port = λ v. some ([], v);
  lookup_port = λ v. some 8080;
}

abbrev unset : Bytes → Option Bytes
unset v = none

load_test : load parsers unset ≡ ok default_config
unfolding load
load_test = refl

validate_test : validate parsers default_config ≡ []
unfolding validate default_config text beq url_errors validate_listen_addr
validate_test = refl

start-IsWired_example :
    (g : Gateway counting Unit) × (start counting tt tt parsers unset ≡ ok g)
    × IsWired default_config g
start-IsWired_example = start-IsWired tt tt parsers unset default_config load_test validate_test

started :
    (g : Gateway counting Unit) × (start counting tt tt parsers unset ≡ ok g)
    × IsWired default_config g
started = start-IsWired tt tt parsers unset default_config load_test validate_test

start-valid_example :
    (c : Config) × (load parsers unset ≡ ok c) × (validate parsers c ≡ []) × IsWired c started.0
start-valid_example = start-valid tt tt parsers unset started.0 started.1

abbrev target : List Bytes → Target
target segments = record {
  segments = segments;
  clean = true;
  location = [];
  page = [];
  root_status = 307;
  clean_status = 307;
}

abbrev codec : Codec
codec = record { decode = config.decode; encodes = config.encodes; sha256 = config.sha256 }

abbrev arrival : Arrival
arrival = record {
  request = request;
  target = target (text "v1" ∷ text "ask" ∷ []);
  caller_id = [];
  entropy = failed 7;
  stat = some (record { mod_time = 3; size = 6 });
  read = some (text "secret");
  up = upstream;
}

abbrev running : Running counting
running = first_state (text "dev") codec started.0

serve_arrival-IsAdmitted_example :
    IsSent (serve_arrival (text "dev") codec started.0 arrival running).world
    × (IsAdmitted arrival running.source
        ⊎ Unreached running.world
            (serve_arrival (text "dev") codec started.0 arrival running).world)
serve_arrival-IsAdmitted_example =
    serve_arrival-IsAdmitted (text "dev") codec started.0 arrival running

flag_off : started.0.config.audit_log_query ≡ false
unfolding default_config
flag_off = ap (λ c. c.audit_log_query) started.2.config

serve_arrivals-IsRedacted_example :
    All IsRedacted
      (serve_arrivals
        (text "dev")
        codec
        started.0
        (arrival ∷ arrival ∷ [])
        running).world.audit.written
serve_arrivals-IsRedacted_example =
    serve_arrivals-IsRedacted tt tt parsers unset (text "dev") codec started.0
      (arrival ∷ arrival ∷ []) started.1 flag_off

abbrev probe : Request
probe = record request { method = text "GET"; path = text "/v1/health"; authorization = [] }

abbrev probed : World counting
probed =
    public_handler (text "dev") config upstream refuse [] (failed 7) probe
      (target (text "v1" ∷ text "health" ∷ [])) world
