-- ===== src/Server/Concurrent/Tests.antt =====
-- Tests of requests that are served at the same time: two by one caller, who has one token left. The
-- second request gets it, though the first one starts first.
use opencost_ai.Prelude.{ℕ, ◌≡◌, refl, List, [], ◌∷◌, map, false, none, err}
use opencost_ai.Prelude.Int.{pos}
use opencost_ai.Text.{text, beq, to_lower, before_byte, cut, equal_fold}
use opencost_ai.Text.Trim.{trim_space}
use opencost_ai.Text.Utf8.{valid_string}
use opencost_ai.Text.Dict.{lookup, insert}
use opencost_ai.RateLimit.{allow, bucket_of}
use opencost_ai.Auth.Header.{extract_bearer}
use opencost_ai.RequestId.{failed, assign_id}
use opencost_ai.Server.Ask.{ask, ask_decoded, ask_valid, ask_limited, ask_granted}
use opencost_ai.Server.Streaming.{ask_stream}
use opencost_ai.Server.Validation.{parse_bearer_token, require_json, validate_ask_request}
use opencost_ai.Audit.{caller_identity}
use opencost_ai.Server.Observe.{error_kind}
use opencost_ai.Server.Problem.{write_problem, map_bridge_error, bridge_problem}
use opencost_ai.Server.Writer
use opencost_ai.Server.Writer.{StatusWriter, set_header, new_status_writer}
use opencost_ai.Server.World.{World}
use opencost_ai.Server.Routes.{ask_route, serve, measured, require_token, handler_of}
use opencost_ai.Server.Fixtures.{counting, config, upstream, unavailable, request, world, writer}
use opencost_ai.Server.Script.{run}
use opencost_ai.Server.Script.Serve.{serve-Scripted}
use opencost_ai.Server.Concurrent.{Job, exec, serve_job}
use opencost_ai.Server.Concurrent.Steps.{done}
use opencost_ai.Server.Concurrent.Linear.{answers_of, script_of, InTurn, interleaved-InTurn}

abbrev job : ℕ → Job
job id = record {
  up = record upstream { chat_stream = λ b. err unavailable };
  validate = λ token. none;
  caller_id = [];
  entropy = failed id;
  route = ask_route;
  request = request;
}

abbrev jobs : List Job
jobs = job 7 ∷ job 8 ∷ []

abbrev scarce : World counting
scarce = record world { limiter = record world.limiter { burst = pos 1 } }

abbrev turns : List ℕ
turns =
    0 ∷ 1 ∷ 1 ∷ 0 ∷ 0 ∷ 1 ∷ 0 ∷ 1 ∷ 0 ∷ 1 ∷ 0 ∷ 1 ∷ 0 ∷ 1 ∷ 0 ∷ 1 ∷ 1 ∷ 1 ∷ 1 ∷ 1 ∷ 1 ∷ 1 ∷ 1 ∷ []

abbrev second : StatusWriter
second = (serve_job config writer (job 8) scarce).writer

abbrev first : StatusWriter
first = (serve_job config writer (job 7) (serve_job config writer (job 8) scarce)).writer

-- The first request asks the limiter behind the second one, and is refused.
exec_test :
    (exec turns (map (script_of counting config writer false (pos 3)) jobs) scarce).0
    ≡ map done (first ∷ second ∷ [])
unfolding serve-Scripted serve_job exec serve ask ask_decoded ask_valid ask_granted ask_stream
    ask_limited require_json validate_ask_request text beq trim_space to_lower before_byte
    valid_string allow bucket_of lookup assign_id measured require_token handler_of run
    extract_bearer cut equal_fold insert caller_identity parse_bearer_token write_problem
    map_bridge_error bridge_problem Writer.write set_header new_status_writer error_kind
exec_test = refl

interleaved-InTurn_example :
    InTurn counting config writer
      (answers_of jobs (first ∷ second ∷ []))
      scarce
      (exec turns (map (script_of counting config writer false (pos 3)) jobs) scarce).1
interleaved-InTurn_example =
    interleaved-InTurn counting config writer turns jobs (first ∷ second ∷ []) scarce exec_test
