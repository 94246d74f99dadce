-- ===== src/Server/Concurrent/Linear.antt =====
-- The requests of internal/server/server.go, each in its own goroutine, in an order of one after another.
use mathlib.Core.Path.{subst}
use mathlib.Core.List.{Perm, nil≢cons}
use mathlib.Core.List.Perm
use opencost_ai.Prelude.{ℕ, ◌≡◌, refl, sym, ap, ◌∙◌, Bool, List, [], ◌∷◌, map}
use opencost_ai.Prelude.Int.{ℤ}
use opencost_ai.RateLimit.{RateLibrary, allow}
use opencost_ai.Server.Writer.{StatusWriter}
use opencost_ai.Server.World.{Config, World}
use opencost_ai.Server.Script.{
  Turn, finished, asks, Script, perform, answered, take_turn, run, Fixed,
}
use opencost_ai.Server.Script.Plain.{perform-answered, perform-Fixed}
use opencost_ai.Server.Script.Compose.{allow-per_minute, take_turn-answered}
use opencost_ai.Server.Script.Serve.{serve-Scripted}
use opencost_ai.Server.Concurrent.{Job, exec, serve_job, serve_jobs}
use opencost_ai.Server.Concurrent.Same.{Same, Same-refl, Same-trans}
use opencost_ai.Server.Concurrent.Pick.{Pick, here, there, Pick-Perm}
use opencost_ai.Server.Concurrent.Serial.{Task, Serial, nothing, next}
use opencost_ai.Server.Concurrent.Steps.{done, tasks, exec-Linear}

-- The element of a list that its image is, and what is left.
record Source {A B : Type 0} (f : A → B) (b : B) (xs : List A) (bs : List B) : Type 0 where
  pub element : A
  pub rest : List A
  pub pick : Pick element xs rest
  pub image : f element ≡ b
  pub images : map f rest ≡ bs

source :
    {A B : Type 0} (f : A → B) (b : B) (xs : List A) (bs : List B)
    → Pick b (map f xs) bs
    → Source f b xs bs
source f b [] bs p = elim p [ ]
source f b (x ∷ xs) bs here = record {
  element = x;
  rest = xs;
  pick = here;
  image = refl;
  images = refl;
}
source f b (x ∷ xs) _ (there {rest = rest} p) =
    let s = source f b xs rest p in
    record {
      element = s.element;
      rest = x ∷ s.rest;
      pick = there s.pick;
      image = s.image;
      images = ap (λ r. f x ∷ r) s.images;
    }

-- Requests with the responses, in their order.
unfoldable pub answers_of : List Job → List StatusWriter → List (Job × StatusWriter)
answers_of [] ss = []
answers_of (j ∷ js) [] = []
answers_of (j ∷ js) (s ∷ ss) = (j, s) ∷ answers_of js ss

module _ {lib : RateLibrary} where
  take_turn-Fixed :
      (flag : Bool) (limit : ℤ) (t : Turn) (w : World lib)
      → Fixed flag limit w
      → Fixed flag limit (take_turn t w)
  unfolding take_turn
  take_turn-Fixed flag limit (finished s) w h = record {
    log_query = h.log_query;
    per_minute = h.per_minute;
  }
  take_turn-Fixed flag limit (asks now caller k) w h =
      let (granted, limiter) = allow lib now caller w.limiter in
      let fixed =
        perform-Fixed flag limit (k granted).acts (record w { limiter = limiter })
          (record {
            log_query = h.log_query;
            per_minute = allow-per_minute now caller w.limiter ∙ h.per_minute;
          }) in
      record { log_query = fixed.log_query; per_minute = fixed.per_minute }

  run-Fixed :
      (flag : Bool) (limit : ℤ) (p : Script) (w : World lib)
      → Fixed flag limit w
      → Fixed flag limit (run p w)
  unfolding run
  run-Fixed flag limit p w h =
      take_turn-Fixed flag limit p.turn (perform p.before w) (perform-Fixed flag limit p.before w h)

  run-answered : (p : Script) (s : StatusWriter) (w : World lib) → run p (answered s w) ≡ run p w
  unfolding run
  run-answered p s w =
      ap (take_turn p.turn) (perform-answered p.before s w)
      ∙ take_turn-answered p.turn s (perform p.before w)

module _ (lib : RateLibrary) (cfg : Config) (fresh : StatusWriter) where
  -- The steps of a request, with the flag of the audit log and the limit.
  abbrev pub script_of : Bool → ℤ → Job → Script
  script_of flag limit j =
      (serve-Scripted {lib = lib} {flag = flag} {limit = limit} cfg j.up j.validate j.caller_id
          j.entropy j.route j.request).script
        fresh

  serve_job-run :
      (flag : Bool) (limit : ℤ) (j : Job) (w : World lib)
      → Fixed flag limit w
      → serve_job cfg fresh j w ≡ run (script_of flag limit j) w
  unfolding serve_job
  serve_job-run flag limit j w h =
      (serve-Scripted {lib = lib} {flag = flag} {limit = limit} cfg j.up j.validate j.caller_id
          j.entropy j.route j.request).runs
        (answered fresh w) (record { log_query = h.log_query; per_minute = h.per_minute })
      ∙ run-answered (script_of flag limit j) fresh w

  abbrev task_of : Bool → ℤ → Job × StatusWriter → Task
  task_of flag limit (j, s) = record { script = script_of flag limit j; response = s }

  tasks-answers_of :
      (flag : Bool) (limit : ℤ) (js : List Job) (ss : List StatusWriter)
      → tasks (map (script_of flag limit) js) ss ≡ map (task_of flag limit) (answers_of js ss)
  unfolding tasks answers_of
  tasks-answers_of flag limit [] ss = refl
  tasks-answers_of flag limit (j ∷ js) [] = refl
  tasks-answers_of flag limit (j ∷ js) (s ∷ ss) =
      ap (λ r. task_of flag limit (j, s) ∷ r) (tasks-answers_of flag limit js ss)

  -- An order in which the requests, one after another, get these responses and leave this world.
  pub record InTurn (answers : List (Job × StatusWriter)) (w u : World lib) : Type 0 where
    pub order : List Job
    pub served : Perm (serve_jobs cfg fresh order w).0 answers
    pub same : Same (serve_jobs cfg fresh order w).1 u

  Serial-InTurn :
      (flag : Bool) (limit : ℤ) (ts : List Task) (answers : List (Job × StatusWriter))
      (w u : World lib)
      → Fixed flag limit w
      → ts ≡ map (task_of flag limit) answers
      → Serial ts w u
      → InTurn answers w u
  unfolding serve_jobs
  Serial-InTurn flag limit _ [] w _ h e nothing = record {
    order = [];
    served = Perm.refl [];
    same = Same-refl w;
  }
  Serial-InTurn flag limit _ (a ∷ answers) w _ h e nothing = elim (nil≢cons e) [ ]
  Serial-InTurn flag limit ts answers w u h e (next {t = t} {rest = rest} p f serial) =
      let s = source (task_of flag limit) t answers rest (subst (λ ts. Pick t ts rest) e p) in
      let (j, response) = s.element in
      let v = run t.script w in
      let ih =
        Serial-InTurn flag limit rest s.rest v u (run-Fixed flag limit t.script w h) (sym s.images)
          serial in
      let q : serve_job cfg fresh j w ≡ v =
        serve_job-run flag limit j w h ∙ ap (λ t. run t.script w) s.image in
      let f' : v.writer ≡ response = f ∙ ap (λ t. t.response) (sym s.image) in
      record {
        order = j ∷ ih.order;
        served =
            subst (λ z. Perm ((j, z.writer) ∷ (serve_jobs cfg fresh ih.order z).0) answers) (sym q)
              (subst (λ z. Perm ((j, z) ∷ (serve_jobs cfg fresh ih.order v).0) answers) (sym f')
                (Perm.trans (Perm.cons s.element ih.served)
                  (Pick-Perm s.element answers s.rest s.pick)));
        same = subst (λ z. Same (serve_jobs cfg fresh ih.order z).1 u) (sym q) ih.same;
      }

  -- Requests are served at the same time, on a server with a configuration and responses that start
  -- fresh: by their steps, the calls of the limiter and what each does under a lock of the audit log
  -- or of the metrics or towards the bridge, in a schedule that says whose step is next. When the
  -- schedule leaves all of them finished, with some responses, there is an order in which the same
  -- requests, served one after another by the whole handler chain, get the same responses, and leave
  -- the same state of the limiter and, up to their order, the same metrics, lines in the audit log
  -- and calls of the bridge.
  pub interleaved-InTurn :
      (schedule : List ℕ) (jobs : List Job) (responses : List StatusWriter) (w : World lib)
      → (exec schedule (map (script_of w.audit.log_query w.limiter.per_minute) jobs) w).0
        ≡ map done responses
      → InTurn
          (answers_of jobs responses)
          w
          (exec schedule (map (script_of w.audit.log_query w.limiter.per_minute) jobs) w).1
  interleaved-InTurn schedule jobs responses w e =
      let flag = w.audit.log_query in
      let limit = w.limiter.per_minute in
      let ps = map (script_of flag limit) jobs in
      let (_, u) = exec schedule ps w in
      let linear = exec-Linear schedule ps responses w e in
      let turn =
        Serial-InTurn flag limit (tasks ps responses) (answers_of jobs responses) w
          linear.reaches.world (record { log_query = refl; per_minute = refl })
          (tasks-answers_of flag limit jobs responses) linear.reaches.serial in
      record {
        order = turn.order;
        served = turn.served;
        same = Same-trans _ _ _ turn.same linear.reaches.same;
      }
