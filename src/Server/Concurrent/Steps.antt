-- ===== src/Server/Concurrent/Steps.antt =====
-- The steps of a schedule, from the last one to the first.
use mathlib.Core.Path.{subst}
use opencost_ai.Prelude.{ℕ, zero, suc, ◌≡◌, refl, sym, ap, ◌∙◌, List, [], ◌∷◌, map}
use opencost_ai.RateLimit.{RateLibrary, allow}
use opencost_ai.Server.Writer.{StatusWriter}
use opencost_ai.Server.World.{World}
use opencost_ai.Server.Script.{
  Act, Turn, finished, asks, Script, act, perform, answered, take_turn, run,
}
use opencost_ai.Server.Concurrent.{advance_turn, advance_before, advance, step_at, exec}
use opencost_ai.Server.Concurrent.Same.{Same, Same-refl, Same-trans, answered-Same}
use opencost_ai.Server.Concurrent.Pick.{Pick, here, there}
use opencost_ai.Server.Concurrent.Serial.{
  Task, Serial, nothing, next, Reaches, Serial-Same, finish_first, wait,
}

-- A request that is finished.
abbrev pub done : StatusWriter → Script
done s = record { before = []; turn = finished s }

-- Each script with the response that it ends with.
unfoldable pub tasks : List Script → List StatusWriter → List Task
tasks [] ss = []
tasks (p ∷ ps) [] = []
tasks (p ∷ ps) (s ∷ ss) = record { script = p; response = s } ∷ tasks ps ss

pub data Matched : List Script → List StatusWriter → Type 0 where
  none : Matched [] []
  both :
      {p : Script} {s : StatusWriter} {ps : List Script} {ss : List StatusWriter}
      → Matched ps ss
      → Matched (p ∷ ps) (s ∷ ss)

module _ {lib : RateLibrary} where
  -- A step of no task or of one.
  data Stepped (w : World lib) : World lib → List Task → List Task → Type 0 where
    stayed : {ts : List Task} → Stepped w w ts ts
    moved :
        {t t' : Task} {ts ts' rest : List Task} {v : World lib}
        → t.response ≡ t'.response
        → advance t.script w ≡ (t'.script, v)
        → Pick t ts rest
        → Pick t' ts' rest
        → Stepped w v ts ts'

  Stepped-there :
      (t : Task) (w v : World lib) (ts ts' : List Task)
      → Stepped w v ts ts'
      → Stepped w v (t ∷ ts) (t ∷ ts')
  Stepped-there t w _ ts _ stayed = stayed
  Stepped-there t w v ts ts' (moved e f p p') = moved e f (there p) (there p')

  step_at-Matched :
      (i : ℕ) (ps : List Script) (ss : List StatusWriter) (w : World lib)
      → Matched (step_at i ps w).0 ss
      → Matched ps ss
  unfolding step_at
  step_at-Matched i [] ss w m = m
  step_at-Matched zero (p ∷ ps) [] w m = elim m [ ]
  step_at-Matched zero (p ∷ ps) (s ∷ ss) w (both m) = both m
  step_at-Matched (suc i) (p ∷ ps) [] w m = elim m [ ]
  step_at-Matched (suc i) (p ∷ ps) (s ∷ ss) w (both m) = both (step_at-Matched i ps ss w m)

  step_at-Stepped :
      (i : ℕ) (ps : List Script) (ss : List StatusWriter) (w : World lib)
      → Matched (step_at i ps w).0 ss
      → Stepped w (step_at i ps w).1 (tasks ps ss) (tasks (step_at i ps w).0 ss)
  unfolding step_at tasks
  step_at-Stepped i [] ss w m = stayed
  step_at-Stepped zero (p ∷ ps) [] w m = elim m [ ]
  step_at-Stepped zero (p ∷ ps) (s ∷ ss) w m = moved refl refl here here
  step_at-Stepped (suc i) (p ∷ ps) [] w m = elim m [ ]
  step_at-Stepped (suc i) (p ∷ ps) (s ∷ ss) w (both m) =
      Stepped-there _ w _ _ _ (step_at-Stepped i ps ss w m)

  -- A task whose last step with the limiter is this one is served now.
  serve_now :
      (acts : List Act) (s : StatusWriter) (t t' : Task) (ts ts' rest : List Task)
      (w v u : World lib)
      → run t.script w ≡ answered s (perform acts v)
      → t'.script ≡ record { before = acts; turn = finished s }
      → t.response ≡ t'.response
      → Pick t ts rest
      → Pick t' ts' rest
      → Serial ts' v u
      → Reaches ts w u
  serve_now acts s t t' ts ts' rest w v u e f g p p' serial =
      let first = finish_first acts s t' ts' rest v u f p' serial in
      let k =
        Serial-Same rest (run t.script w) (perform acts v) first.others.world
          (subst (λ z. Same z (perform acts v)) (sym e) (answered-Same s (perform acts v)))
          first.others.serial in
      record {
        world = k.world;
        serial = next p (ap (λ w. w.writer) e ∙ first.response ∙ sym g) k.serial;
        same = Same-trans _ _ _ k.same first.others.same;
      }

  step_back :
      (before : List Act) (turn : Turn) (t t' : Task) (ts ts' rest : List Task) (w v u : World lib)
      → t.script ≡ record { before = before; turn = turn }
      → advance (record { before = before; turn = turn }) w ≡ (t'.script, v)
      → t.response ≡ t'.response
      → Pick t ts rest
      → Pick t' ts' rest
      → Serial ts' v u
      → Reaches ts w u
  unfolding advance_before advance_turn run perform take_turn
  step_back (a ∷ before) turn t t' ts ts' rest w v u d e g p p' serial =
      wait a t t' ts ts' rest w v u (λ w. ap (λ x. run x w) d ∙ ap (λ x. run x.0 (act a w)) e) g p
        p' (subst (Same (act a w)) (ap (λ x. x.1) e) (Same-refl (act a w))) serial
  step_back [] (finished s) t t' ts ts' rest w v u d e g p p' serial =
      serve_now [] s t t' ts ts' rest w v u (ap (λ x. run x w) d ∙ ap (λ x. answered s x.1) e)
        (sym (ap (λ x. x.0) e)) g p p' serial
  step_back [] (asks now caller k) t t' ts ts' rest w v u d e g p p' serial =
      let answer = k (allow lib now caller w.limiter).0 in
      serve_now answer.acts answer.writer t t' ts ts' rest w v u
        (ap (λ x. run x w) d ∙ ap (λ x. answered answer.writer (perform answer.acts x.1)) e)
        (sym (ap (λ x. x.0) e)) g p p' serial

  stepped_back :
      (ts ts' : List Task) (w v u : World lib)
      → Stepped w v ts ts'
      → Serial ts' v u
      → Reaches ts w u
  stepped_back ts _ w _ u stayed serial = record { world = u; serial = serial; same = Same-refl u }
  stepped_back ts ts' w v u (moved {t = t} {t' = t'} {rest = rest} g e p p') serial =
      step_back t.script.before t.script.turn t t' ts ts' rest w v u refl e g p p' serial

  -- Requests that end with these responses, in this world or in one that is the same.
  pub record Linear (ps : List Script) (ss : List StatusWriter) (w u : World lib) : Type 0 where
    pub matched : Matched ps ss
    pub reaches : Reaches (tasks ps ss) w u

  finished-Linear : (ss : List StatusWriter) (w : World lib) → Linear (map done ss) ss w w
  unfolding tasks run perform take_turn
  finished-Linear [] w = record {
    matched = none;
    reaches = record { world = w; serial = nothing; same = Same-refl w };
  }
  finished-Linear (s ∷ ss) w =
      let ih = finished-Linear ss (answered s w) in
      record {
        matched = both ih.matched;
        reaches = record {
          world = ih.reaches.world;
          serial = next here refl ih.reaches.serial;
          same = Same-trans _ _ _ ih.reaches.same (answered-Same s w);
        };
      }

  pub exec-Linear :
      (schedule : List ℕ) (ps : List Script) (ss : List StatusWriter) (w : World lib)
      → (exec schedule ps w).0 ≡ map done ss
      → Linear ps ss w (exec schedule ps w).1
  unfolding exec
  exec-Linear [] ps ss w e = subst (λ ps. Linear ps ss w w) (sym e) (finished-Linear ss w)
  exec-Linear (i ∷ schedule) ps ss w e =
      let (qs, v) = step_at i ps w in
      let ih = exec-Linear schedule qs ss v e in
      let k =
        stepped_back (tasks ps ss) (tasks qs ss) w v ih.reaches.world
          (step_at-Stepped i ps ss w ih.matched) ih.reaches.serial in
      record {
        matched = step_at-Matched i ps ss w ih.matched;
        reaches = record {
          world = k.world;
          serial = k.serial;
          same = Same-trans _ _ _ k.same ih.reaches.same;
        };
      }
