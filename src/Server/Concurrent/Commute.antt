-- ===== src/Server/Concurrent/Commute.antt =====
-- Steps on the metrics, on the audit log and of the bridge may be taken before or after a whole request.
use mathlib.Core.Path.{subst}
use opencost_ai.Prelude.{◌≡◌, refl, sym, ap, ◌∙◌, Bool, List, [], ◌∷◌}
use opencost_ai.RateLimit.{RateLibrary, Limiter, allow}
use opencost_ai.Server.World.{World}
use opencost_ai.Server.Script.{
  Act, Rest, Turn, finished, asks, Script, act, perform, answered, take_turn, run,
}
use opencost_ai.Server.Concurrent.Same.{
  Same, Same-refl, Same-trans, Same-sym, answered-Same, act-Same, act-act, act-limiter,
  act-relimited,
}

module _ {lib : RateLibrary} where
  pub perform-Same :
      (xs : List Act) (w v : World lib) → Same w v → Same (perform xs w) (perform xs v)
  unfolding perform
  perform-Same [] w v h = h
  perform-Same (a ∷ xs) w v h = perform-Same xs (act a w) (act a v) (act-Same a w v h)

  pub perform-limiter : (xs : List Act) (w : World lib) → (perform xs w).limiter ≡ w.limiter
  unfolding perform
  perform-limiter [] w = refl
  perform-limiter (a ∷ xs) w = perform-limiter xs (act a w) ∙ act-limiter a w

  perform-act :
      (xs : List Act) (a : Act) (w : World lib) → Same (perform xs (act a w)) (act a (perform xs w))
  unfolding perform
  perform-act [] a w = Same-refl _
  perform-act (b ∷ xs) a w =
      Same-trans _ _ _ (perform-Same xs _ _ (act-act b a w)) (perform-act xs a (act b w))

  -- What a request does with the answer of the limiter.
  abbrev granted_to : (Bool → Rest) → Bool × Limiter lib → World lib → World lib
  granted_to k (b, l) w = answered (k b).writer (perform (k b).acts (record w { limiter = l }))

  granted_to-Same :
      (k : Bool → Rest) (x y : Bool × Limiter lib) (w v : World lib)
      → x ≡ y
      → Same w v
      → Same (granted_to k x w) (granted_to k y v)
  granted_to-Same k x y w v e h =
      subst (λ z. Same (granted_to k x w) (granted_to k z v)) e
        (Same-trans _ _ _ (answered-Same _ _) (
          Same-trans _ _ _
            (perform-Same (k x.0).acts _ _ (record {
              limiter = refl;
              log_query = h.log_query;
              written = h.written;
              metrics = h.metrics;
              calls = h.calls;
            }))
            (Same-sym _ _ (answered-Same _ _))))

  granted_to-act :
      (k : Bool → Rest) (x : Bool × Limiter lib) (a : Act) (w : World lib)
      → Same (granted_to k x (act a w)) (act a (granted_to k x w))
  granted_to-act k x a w =
      let u = record w { limiter = x.1 } in
      let v = perform (k x.0).acts u in
      let s = (k x.0).writer in
      Same-trans _ _ _ (answered-Same s _) (
        Same-trans _ _ _
          (subst (λ z. Same (perform (k x.0).acts z) (act a v)) (act-relimited a x.1 w)
            (perform-act (k x.0).acts a u))
          (act-Same a v (answered s v) (Same-sym _ _ (answered-Same s v))))

  pub take_turn-Same :
      (t : Turn) (w v : World lib) → Same w v → Same (take_turn t w) (take_turn t v)
  unfolding take_turn
  take_turn-Same (finished s) w v h =
      Same-trans _ _ _ (answered-Same s w) (Same-trans _ _ _ h (Same-sym _ _ (answered-Same s v)))
  take_turn-Same (asks now caller k) w v h =
      granted_to-Same k (allow lib now caller w.limiter) (allow lib now caller v.limiter) w v
        (ap (allow lib now caller) h.limiter) h

  take_turn-act :
      (t : Turn) (a : Act) (w : World lib) → Same (take_turn t (act a w)) (act a (take_turn t w))
  unfolding take_turn
  take_turn-act (finished s) a w =
      Same-trans _ _ _ (answered-Same s (act a w))
        (act-Same a _ _ (Same-sym _ _ (answered-Same s w)))
  take_turn-act (asks now caller k) a w =
      Same-trans _ _ _
        (granted_to-Same k (allow lib now caller (act a w).limiter) (allow lib now caller w.limiter)
          (act a w) (act a w) (ap (allow lib now caller) (act-limiter a w)) (Same-refl _))
        (granted_to-act k (allow lib now caller w.limiter) a w)

  pub run-Same : (p : Script) (w v : World lib) → Same w v → Same (run p w) (run p v)
  unfolding run
  run-Same p w v h = take_turn-Same p.turn _ _ (perform-Same p.before w v h)

  pub run-act : (p : Script) (a : Act) (w : World lib) → Same (run p (act a w)) (act a (run p w))
  unfolding run
  run-act p a w =
      Same-trans _ _ _ (take_turn-Same p.turn _ _ (perform-act p.before a w))
        (take_turn-act p.turn a (perform p.before w))

  pub run-perform :
      (p : Script) (xs : List Act) (w : World lib)
      → Same (run p (perform xs w)) (perform xs (run p w))
  unfolding perform
  run-perform p [] w = Same-refl _
  run-perform p (a ∷ xs) w =
      Same-trans _ _ _ (run-perform p xs (act a w)) (perform-Same xs _ _ (run-act p a w))

  take_turn-writer :
      (t : Turn) (w v : World lib)
      → w.limiter ≡ v.limiter
      → (take_turn t w).writer ≡ (take_turn t v).writer
  unfolding take_turn
  take_turn-writer (finished s) w v h = refl
  take_turn-writer (asks now caller k) w v h = ap (λ l. (k (allow lib now caller l).0).writer) h

  -- The response depends on the limiter only.
  pub run-writer :
      (p : Script) (w v : World lib) → w.limiter ≡ v.limiter → (run p w).writer ≡ (run p v).writer
  unfolding run
  run-writer p w v h =
      take_turn-writer p.turn _ _
        (perform-limiter p.before w ∙ h ∙ sym (perform-limiter p.before v))
