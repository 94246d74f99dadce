-- ===== src/Server/Concurrent/Serial.antt =====
-- Scripts that run one after another, in an order that may be any.
use mathlib.Core.Path.{subst, subst₂}
use opencost_ai.Prelude.{◌≡◌, sym, ap, ◌∙◌, List, [], inl, inr}
use opencost_ai.RateLimit.{RateLibrary}
use opencost_ai.Server.Writer.{StatusWriter}
use opencost_ai.Server.World.{World}
use opencost_ai.Server.Script.{Act, finished, Script, act, perform, answered, run}
use opencost_ai.Server.Concurrent.Same.{Same, Same-trans, Same-sym, answered-Same, act-limiter}
use opencost_ai.Server.Concurrent.Commute.{
  run-Same, run-act, run-perform, run-writer, perform-limiter,
}
use opencost_ai.Server.Concurrent.Pick.{Pick, compare, exchange}

-- A script, and the response that it ends with.
pub record Task : Type 0 where
  pub script : Script
  pub response : StatusWriter

module _ {lib : RateLibrary} where
  pub data Serial : List Task → World lib → World lib → Type 0 where
    nothing : {w : World lib} → Serial [] w w
    next :
        {t : Task} {ts rest : List Task} {w u : World lib}
        → Pick t ts rest
        → (run t.script w).writer ≡ t.response
        → Serial rest (run t.script w) u
        → Serial ts w u

  -- To a world that is the same as this one.
  pub record Reaches (ts : List Task) (w u : World lib) : Type 0 where
    pub world : World lib
    pub serial : Serial ts w world
    pub same : Same world u

  pub Serial-Same : (ts : List Task) (w v u : World lib) → Same w v → Serial ts v u → Reaches ts w u
  Serial-Same ts w v u h nothing = record { world = w; serial = nothing; same = h }
  Serial-Same ts w v u h (next {t = t} {rest = rest} p e s) =
      let r = Serial-Same rest (run t.script w) (run t.script v) u (run-Same t.script w v h) s in
      record {
        world = r.world;
        serial = next p (run-writer t.script w v h.limiter ∙ e) r.serial;
        same = r.same;
      }

  -- The other tasks may wait until the steps at the front of this one are done.
  pub record Finishes (ts : List Task) (t : Task) (s : StatusWriter) (w u : World lib)
      : Type 0 where
    pub others : Reaches ts w u
    pub response : s ≡ t.response

  pub finish_first :
      (acts : List Act) (s : StatusWriter) (t : Task) (ts rest : List Task) (w u : World lib)
      → t.script ≡ record { before = acts; turn = finished s }
      → Pick t ts rest
      → Serial ts w u
      → Finishes rest t s (perform acts w) u
  unfolding run
  finish_first acts s t _ rest w _ e p nothing = elim p [ ]
  finish_first acts s t ts rest w u e p (next {t = x} {rest = r} q f serial) =
      elim (compare t x ts rest r p q) [
        | inl (same_task, same_rest) ↦
            let g : run t.script w ≡ answered s (perform acts w) = ap (λ y. run y w) e in
            record {
              others =
                  Serial-Same rest (perform acts w) (run t.script w) u
                    (subst (Same (perform acts w)) (sym g)
                      (Same-sym _ _ (answered-Same s (perform acts w))))
                    (subst₂ (λ x r. Serial r (run x.script w) u) (sym same_task) (sym same_rest)
                      serial);
              response =
                  ap (λ w. w.writer) (sym g)
                  ∙ subst (λ x. (run x.script w).writer ≡ x.response) (sym same_task) f;
            }
        | inr a ↦
            let v = perform acts w in
            let ih = finish_first acts s t r a.rest (run x.script w) u e a.this serial in
            let k =
              Serial-Same a.rest (run x.script v) (perform acts (run x.script w)) ih.others.world
                (run-perform x.script acts w) ih.others.serial in
            record {
              others = record {
                world = k.world;
                serial =
                    next a.other (run-writer x.script v w (perform-limiter acts w) ∙ f) k.serial;
                same = Same-trans _ _ _ k.same ih.others.same;
              };
              response = ih.response;
            }
      ]

  -- A step at the front of a task may wait for the others.
  pub wait :
      (a : Act) (t t' : Task) (ts ts' rest : List Task) (w v u : World lib)
      → ((w : World lib) → run t.script w ≡ run t'.script (act a w))
      → t.response ≡ t'.response
      → Pick t ts rest
      → Pick t' ts' rest
      → Same (act a w) v
      → Serial ts' v u
      → Reaches ts w u
  wait a t t' ts _ rest w v _ e e' p p' h nothing = elim p' [ ]
  wait a t t' ts ts' rest w v u e e' p p' h (next {t = x} {rest = r} q f serial) =
      elim (compare t' x ts' rest r p' q) [
        | inl (same_task, same_rest) ↦
            let k =
              Serial-Same rest (run t.script w) (run t'.script v) u
                (subst (λ z. Same z (run t'.script v)) (sym (e w))
                  (run-Same t'.script (act a w) v h))
                (subst₂ (λ x r. Serial r (run x.script v) u) (sym same_task) (sym same_rest)
                  serial) in
            record {
              world = k.world;
              serial =
                  next p
                    (ap (λ w. w.writer) (e w)
                      ∙ run-writer t'.script (act a w) v h.limiter
                      ∙ subst (λ x. (run x.script v).writer ≡ x.response) (sym same_task) f
                      ∙ sym e')
                    k.serial;
              same = k.same;
            }
        | inr b ↦
            let c = exchange t x ts rest b.rest p b.other in
            let ih =
              wait a t t' c.rest r b.rest (run x.script w) (run x.script v) u e e' c.second b.this
                (Same-trans _ _ _ (Same-sym _ _ (run-act x.script a w)) (run-Same x.script _ _ h))
                serial in
            record {
              world = ih.world;
              serial =
                  next c.first (run-writer x.script w v (sym (act-limiter a w) ∙ h.limiter) ∙ f)
                    ih.serial;
              same = ih.same;
            }
      ]
