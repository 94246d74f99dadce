-- ===== src/Server/Script.antt =====
-- A request as the steps that it takes on what requests share, with the locks of the limiter, of the
-- audit log and of the metrics: in front of the rate limiter, the call of Allow, and behind it.
pub mod Plain
pub mod Compose
pub mod Stream
pub mod Ask
pub mod Serve
use opencost_ai.Prelude.{ℕ, ◌≡◌, refl, ◌∙◌, Bool, true, false, List, [], ◌∷◌, ◌++◌, if◌then◌else◌}
use opencost_ai.Prelude.Int.{ℤ}
use opencost_ai.Text.{Bytes}
use opencost_ai.RateLimit.{RateLibrary, Limiter, allow}
use opencost_ai.Audit.{Event, log}
use opencost_ai.Metrics.{Sample}
use opencost_ai.Server.Writer.{StatusWriter}
use opencost_ai.Server.World.{World, Call, observe, call}

-- One step on one of the shared parts: a metric, a line of the audit log at an instant, on a sink that
-- works or not, or a call of the bridge.
pub data Act : Type 0 where
  sample : Sample → Act
  line : (now : ℕ) (sink_works : Bool) → Event → Act
  bridge : Call → Act

-- What follows the answer of the limiter, and the response at the end.
pub record Rest : Type 0 where
  pub acts : List Act
  pub writer : StatusWriter

-- Allow is one step, at the instant when the bucket is asked: a bucket that was made before that is
-- the one that would be made then.
pub data Turn : Type 0 where
  finished : StatusWriter → Turn
  asks : (now : ℕ) (caller : Bytes) → (Bool → Rest) → Turn

pub record Script : Type 0 where
  pub before : List Act
  pub turn : Turn

module _ {lib : RateLibrary} where
  unfoldable pub act : Act → World lib → World lib
  act (sample s) w = observe s w
  act (line now sink_works e) w = record w { audit = (log now sink_works e w.audit).1 }
  act (bridge c) w = call c w

  unfoldable pub perform : List Act → World lib → World lib
  unfolding act
  perform [] w = w
  perform (a ∷ xs) w = perform xs (act a w)

  abbrev pub answered : StatusWriter → World lib → World lib
  answered s w = record w { writer = s }

  unfoldable pub take_turn : Turn → World lib → World lib
  take_turn (finished s) w = answered s w
  take_turn (asks now caller k) w =
      let (granted, limiter) = allow lib now caller w.limiter in
      answered (k granted).writer (perform (k granted).acts (record w { limiter = limiter }))

  -- The script alone, with nothing in between
  unfoldable pub run : Script → World lib → World lib
  unfolding perform take_turn
  run p w = take_turn p.turn (perform p.before w)

-- The opt-in flag of the audit log and the configured limit, which no step changes.
pub record Fixed {lib : RateLibrary} (flag : Bool) (limit : ℤ) (w : World lib) : Type 0 where
  pub log_query : w.audit.log_query ≡ flag
  pub per_minute : w.limiter.per_minute ≡ limit
