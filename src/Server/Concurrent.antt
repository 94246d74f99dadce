-- ===== src/Server/Concurrent.antt =====
-- Requests that are served at the same time: each is its script, and a schedule says whose step is next.
pub mod Same
pub mod Commute
pub mod Pick
pub mod Serial
pub mod Steps
pub mod Linear
mod Tests
use opencost_ai.Prelude.{ℕ, zero, suc, List, [], ◌∷◌, Option}
use opencost_ai.Text.{Bytes}
use opencost_ai.RateLimit.{RateLibrary, allow}
use opencost_ai.RequestId.{Entropy}
use opencost_ai.Auth.Source.{ValidateError}
use opencost_ai.Server.Writer.{StatusWriter}
use opencost_ai.Server.World.{Config, Request, World, Upstream}
use opencost_ai.Server.Routes.{Route, serve}
use opencost_ai.Server.Script.{Act, Rest, Turn, finished, asks, Script, act, perform, answered}

-- A request on a route, with the answers of the bridge and of the validator.
pub record Job : Type 0 where
  pub up : Upstream
  pub validate : Bytes → Option ValidateError
  pub caller_id : Bytes
  pub entropy : Entropy
  pub route : Route
  pub request : Request

module _ {lib : RateLibrary} where
  -- The next step of a request, if it is not finished: the script that is left, and the shared parts.
  unfoldable pub advance_turn : Turn → World lib → Script × World lib
  advance_turn (finished s) w = (record { before = []; turn = finished s }, w)
  advance_turn (asks now caller k) w =
      let (granted, limiter) = allow lib now caller w.limiter in
      (
        record { before = (k granted).acts; turn = finished (k granted).writer },
        record w { limiter = limiter },
      )

  unfoldable pub advance_before : List Act → Turn → World lib → Script × World lib
  unfolding advance_turn
  advance_before [] t w = advance_turn t w
  advance_before (a ∷ rest) t w = (record { before = rest; turn = t }, act a w)

  abbrev pub advance : Script → World lib → Script × World lib
  advance p w = advance_before p.before p.turn w

  -- A step of the `i`-th request
  unfoldable pub step_at : ℕ → List Script → World lib → List Script × World lib
  unfolding advance_before
  step_at i [] w = ([], w)
  step_at zero (p ∷ ps) w = let (q, v) = advance p w in (q ∷ ps, v)
  step_at (suc i) (p ∷ ps) w = let (qs, v) = step_at i ps w in (p ∷ qs, v)

  unfoldable pub exec : List ℕ → List Script → World lib → List Script × World lib
  unfolding step_at
  exec [] ps w = (ps, w)
  exec (i ∷ schedule) ps w = let (qs, v) = step_at i ps w in exec schedule qs v

  module _ (cfg : Config) (fresh : StatusWriter) where
    -- A request alone, on a response of its own
    unfoldable pub serve_job : Job → World lib → World lib
    serve_job j w =
        serve cfg j.up j.validate j.caller_id j.entropy j.route j.request (answered fresh w)

    -- One request after another, each with its response
    unfoldable pub serve_jobs : List Job → World lib → List (Job × StatusWriter) × World lib
    unfolding serve_job
    serve_jobs [] w = ([], w)
    serve_jobs (j ∷ js) w =
        let v = serve_job j w in let (answers, u) = serve_jobs js v in ((j, v.writer) ∷ answers, u)
