-- ===== src/Server/Script/Compose.antt =====
-- Code with the rate limiter, as steps.
use opencost_ai.Prelude.{
  arith, ℕ, ◌≡◌, refl, ap, ◌∙◌, sym, Bool, true, false, not, List, [], ◌++◌, if◌then◌else◌,
}
use opencost_ai.Prelude.Int.{ℤ}
use opencost_ai.Text.{Bytes}
use opencost_ai.RateLimit.{RateLibrary, Limiter, allow}
use opencost_ai.Server.Writer.{StatusWriter}
use opencost_ai.Server.World.{World}
use opencost_ai.Server.Script.{
  Act, Rest, Turn, finished, asks, Script, perform, answered, take_turn, run, Fixed,
}
use opencost_ai.Server.Script.Plain.{perform-append, perform-answered, perform-Fixed, Plain}

module _ {lib : RateLibrary} where
  pub allow-per_minute :
      (now : ℕ) (caller : Bytes) (l : Limiter lib)
      → (allow lib now caller l).1.per_minute ≡ l.per_minute
  unfolding allow
  allow-per_minute now caller l = ground (arith)

  pub take_turn-answered :
      (t : Turn) (s : StatusWriter) (w : World lib) → take_turn t (answered s w) ≡ take_turn t w
  unfolding take_turn
  take_turn-answered (finished s') s w = refl
  take_turn-answered (asks now caller k) s w =
      let (granted, limiter) = allow lib now caller w.limiter in
      ap (answered (k granted).writer)
        (perform-answered (k granted).acts s (record w { limiter = limiter }))

  -- The code is this script on every world with the flag and the limit.
  pub record Scripted (flag : Bool) (limit : ℤ) (f : World lib → World lib) : Type 0 where
    pub script : StatusWriter → Script
    pub runs : (w : World lib) → Fixed flag limit w → f w ≡ run (script w.writer) w

  module _ {flag : Bool} {limit : ℤ} where
    unfoldable pub plain-Scripted :
        (f : World lib → World lib) → Plain flag limit f → Scripted flag limit f
    unfolding run take_turn
    plain-Scripted f p = record {
      script = λ s. record { before = p.acts s; turn = finished (p.writer s) };
      runs = p.runs;
    }

    unfoldable pub before-Scripted :
        (f g : World lib → World lib)
        → Plain flag limit f
        → Scripted flag limit g
        → Scripted flag limit (λ w. g (f w))
    unfolding run
    before-Scripted f g p q = record {
      script = λ s.
          let t = q.script (p.writer s) in record { before = p.acts s ++ t.before; turn = t.turn };
      runs = λ w h.
          let s = w.writer in
          let u = perform (p.acts s) w in
          let t = q.script (p.writer s) in
          let fixed = perform-Fixed flag limit (p.acts s) w h in
          ap g (p.runs w h)
          ∙ q.runs (answered (p.writer s) u)
              (record { log_query = fixed.log_query; per_minute = fixed.per_minute })
          ∙ ap (take_turn t.turn) (perform-answered t.before (p.writer s) u)
          ∙ take_turn-answered t.turn (p.writer s) (perform t.before u)
          ∙ ap (take_turn t.turn) (sym (perform-append (p.acts s) t.before w));
    }

    abbrev extend : {g : World lib → World lib} → Plain flag limit g → Script → Script
    extend q p = elim p.turn [
      | finished s ↦ record { before = p.before ++ q.acts s; turn = finished (q.writer s) }
      | asks now caller k ↦ record {
        before = p.before;
        turn = asks now caller λ b. record {
          acts = (k b).acts ++ q.acts (k b).writer;
          writer = q.writer (k b).writer;
        };
      }
    ]

    pub extend-turn :
        (g : World lib → World lib) (q : Plain flag limit g) (before : List Act) (t : Turn)
        (w : World lib)
        → Fixed flag limit w
        → g (run (record { before = before; turn = t }) w)
          ≡ run (extend q (record { before = before; turn = t })) w
    unfolding run take_turn
    extend-turn g q before (finished s) w h =
        let u = perform before w in
        let fixed = perform-Fixed flag limit before w h in
        q.runs (answered s u)
          (record { log_query = fixed.log_query; per_minute = fixed.per_minute })
        ∙ ap (answered (q.writer s)) (
            perform-answered (q.acts s) s u
            ∙ ap (answered s) (sym (perform-append before (q.acts s) w)))
    extend-turn g q before (asks now caller k) w h =
        let u = perform before w in
        let fixed = perform-Fixed flag limit before w h in
        let (granted, limiter) = allow lib now caller u.limiter in
        let v = record u { limiter = limiter } in
        let fixed' : Fixed flag limit v = record {
          log_query = fixed.log_query;
          per_minute = allow-per_minute now caller u.limiter ∙ fixed.per_minute;
        } in
        let s = (k granted).writer in
        let fixed'' = perform-Fixed flag limit (k granted).acts v fixed' in
        q.runs (answered s (perform (k granted).acts v))
          (record { log_query = fixed''.log_query; per_minute = fixed''.per_minute })
        ∙ ap (answered (q.writer s)) (
            perform-answered (q.acts s) s (perform (k granted).acts v)
            ∙ ap (answered s) (sym (perform-append (k granted).acts (q.acts s) v)))

    unfoldable pub after-Scripted :
        (f g : World lib → World lib)
        → Scripted flag limit f
        → Plain flag limit g
        → Scripted flag limit (λ w. g (f w))
    after-Scripted f g p q = record {
      script = λ s. extend q (p.script s);
      runs = λ w h.
          ap g (p.runs w h)
          ∙ extend-turn g q (p.script w.writer).before (p.script w.writer).turn w h;
    }

    unfoldable pub branch-Scripted :
        (b : Bool) (f g : World lib → World lib)
        → Scripted flag limit f
        → Scripted flag limit g
        → Scripted flag limit (λ w. if b then f w else g w)
    branch-Scripted true f g p q = p
    branch-Scripted false f g p q = q

    unfoldable pub same-Scripted :
        (f g : World lib → World lib)
        → ((w : World lib) → Fixed flag limit w → f w ≡ g w)
        → Scripted flag limit g
        → Scripted flag limit f
    same-Scripted f g e p = record { script = p.script; runs = λ w h. e w h ∙ p.runs w h }

    -- The limiter, with a branch for each answer
    unfoldable pub asks-Scripted :
        (now : ℕ) (caller : Bytes) (f g : World lib → World lib)
        → Plain flag limit f
        → Plain flag limit g
        → Scripted flag limit (λ w.
          let (granted, limiter) = allow lib now caller w.limiter in
          let w' = record w { limiter = limiter } in if not granted then f w' else g w')
    unfolding run take_turn perform
    asks-Scripted now caller f g p q = record {
      script = λ s. record {
        before = [];
        turn = asks now caller λ b.
            if not b
            then record { acts = p.acts s; writer = p.writer s }
            else record { acts = q.acts s; writer = q.writer s };
      };
      runs = λ w h.
          by_answer w (allow lib now caller w.limiter).0 (allow lib now caller w.limiter).1
            (allow-per_minute now caller w.limiter ∙ h.per_minute) h.log_query;
    }
      where
        by_answer :
            (w : World lib) (granted : Bool) (limiter : Limiter lib)
            → limiter.per_minute ≡ limit
            → w.audit.log_query ≡ flag
            → let w' = record w { limiter = limiter } in
              let rest : Rest =
                if not granted
                then record { acts = p.acts w.writer; writer = p.writer w.writer }
                else record { acts = q.acts w.writer; writer = q.writer w.writer } in
              (if not granted then f w' else g w') ≡ answered rest.writer (perform rest.acts w')
        by_answer w true limiter e e' =
            q.runs (record w { limiter = limiter }) (record { log_query = e'; per_minute = e })
        by_answer w false limiter e e' =
            p.runs (record w { limiter = limiter }) (record { log_query = e'; per_minute = e })
