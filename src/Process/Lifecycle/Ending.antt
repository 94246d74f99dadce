-- ===== src/Process/Lifecycle/Ending.antt =====
-- How `run` of cmd/gateway/main.go comes to its return.
use opencost_ai.Prelude.{
  ℕ, zero, suc, ◌≤◌, arith, ◌<◌, ◌≡◌, refl, true, List, [], ◌∷◌, ◌++◌, Option, none, some, ◌⊎◌, inl,
  inr,
}
use opencost_ai.Process.Lifecycle.{
  Name, api, metrics, set, ServeResult, Listener, serving, returned, gone, RunError, Main,
  selecting, fail_api, fail_metrics, fail_wait, drain_api, drain_metrics, drain_wait, drain_results,
  finished, Process, Step, crash, close, send, receive_error, receive_clean, signal, fail_shut_api,
  fail_shut_metrics, fail_return, drain_shut_api, drain_shut_metrics, drain_waited, drain_return,
  Reach, here, next,
}
use opencost_ai.Process.Lifecycle.Bounds.{steps_left, Step-steps_left, Reach-send}

-- Both servers are shut down; both goroutines are gone.
abbrev pub AllDown : Process → Type 0
AllDown s = (s.down api ≡ true) × (s.down metrics ≡ true)

abbrev pub AllGone : Process → Type 0
AllGone s = (s.listener api ≡ gone) × (s.listener metrics ≡ gone)

-- What holds of the listeners where the main goroutine stands.
abbrev Inv : Main → Process → Type 0
Inv selecting s = Unit
Inv (fail_api n e) s = Unit
Inv (fail_metrics n e) s = s.down api ≡ true
Inv (fail_wait n e) s = AllDown s
Inv drain_api s = Unit
Inv (drain_metrics e) s = s.down api ≡ true
Inv (drain_wait e) s = AllDown s
Inv (drain_results e) s = AllDown s × AllGone s
Inv (finished e) s = AllDown s × AllGone s

-- A listener's step leaves what holds, since a goroutine that is gone makes none.
Inv-listener :
    (m : Main) (s : Process) (n : Name) (l : Listener) (rs : List ServeResult)
    → (s.listener n ≡ gone → ⊥)
    → Inv m s
    → Inv m (record s { listener = set s.listener n l; results = rs })
Inv-listener selecting s n l rs h i = tt
Inv-listener (fail_api k e) s n l rs h i = tt
Inv-listener (fail_metrics k e) s n l rs h i = i
Inv-listener (fail_wait k e) s n l rs h i = i
Inv-listener drain_api s n l rs h i = tt
Inv-listener (drain_metrics e) s n l rs h i = i
Inv-listener (drain_wait e) s n l rs h i = i
Inv-listener (drain_results e) s api l rs h (d, (g, k)) = absurd (h g)
Inv-listener (drain_results e) s metrics l rs h (d, (g, k)) = absurd (h k)
Inv-listener (finished e) s api l rs h (d, (g, k)) = absurd (h g)
Inv-listener (finished e) s metrics l rs h (d, (g, k)) = absurd (h k)

Step-Inv : {s s' : Process} → Step s s' → Inv s.main s → Inv s'.main s'
Step-Inv {s} (crash n e h) i = Inv-listener s.main s n (returned (some e)) s.results (λ g. cc) i
Step-Inv {s} (close n h k) i = Inv-listener s.main s n (returned none) s.results (λ g. cc) i
Step-Inv {s} (send n {e} h k) i =
    Inv-listener s.main s n gone (s.results ++ record { name = n; error = e } ∷ []) (λ g. cc) i
Step-Inv (receive_error h k) i = tt
Step-Inv (receive_clean h k) i = tt
Step-Inv (signal h) i = tt
Step-Inv (fail_shut_api h) i = refl
Step-Inv (fail_shut_metrics h) i = (rw h at i, refl)
Step-Inv (fail_return h k) i = (rw h at i, (k api, k metrics))
Step-Inv (drain_shut_api e h) i = refl
Step-Inv (drain_shut_metrics e h) i = (rw h at i, refl)
Step-Inv (drain_waited h k) i = (rw h at i, (k api, k metrics))
Step-Inv (drain_return h) i = rw h at i

Reach-Inv : {s : Process} → Reach s → Inv s.main s
Reach-Inv here = tt
Reach-Inv (next r st) = Step-Inv st (Reach-Inv r)

-- When `run` returns, whatever its error, both servers are shut down and neither listener's goroutine
-- is left.
pub Reach-AllGone :
    {s : Process} {e : Option RunError} → Reach s → s.main ≡ finished e → AllDown s × AllGone s
Reach-AllGone r h = rw h at (Reach-Inv r)

-- Any step but an error of a listener.
abbrev pub IsOrderly : {s s' : Process} → Step s s' → Type 0
IsOrderly (crash n e h) = ⊥
IsOrderly (close n h k) = Unit
IsOrderly (send n h k) = Unit
IsOrderly (receive_error h k) = Unit
IsOrderly (receive_clean h k) = Unit
IsOrderly (signal h) = Unit
IsOrderly (fail_shut_api h) = Unit
IsOrderly (fail_shut_metrics h) = Unit
IsOrderly (fail_return h k) = Unit
IsOrderly (drain_shut_api e h) = Unit
IsOrderly (drain_shut_metrics e h) = Unit
IsOrderly (drain_waited h k) = Unit
IsOrderly (drain_return h) = Unit

abbrev CanStep : Process → Type 0
CanStep s = (s' : Process) × (st : Step s s') × IsOrderly st

both_gone : (s : Process) → AllGone s → (m : Name) → s.listener m ≡ gone
both_gone s (g, k) api = g
both_gone s (g, k) metrics = k

-- Where both servers are shut down, a listener that is not gone has a step.
listener-CanStep :
    {s : Process} → Reach s → (n : Name) → s.down n ≡ true → (s.listener n ≡ gone) ⊎ CanStep s
listener-CanStep {s} r n d = go_on (s.listener n) refl
  where
    go_on : (l : Listener) → s.listener n ≡ l → (s.listener n ≡ gone) ⊎ CanStep s
    go_on serving e = inr (_, close n e d, tt)
    go_on (returned x) e = inr (_, send n e (Reach-send r n e), tt)
    go_on gone e = inl e

wait-CanStep : {s : Process} → Reach s → AllDown s → AllGone s ⊎ CanStep s
wait-CanStep r (d, k) = elim (listener-CanStep r api d) [
  | inr st ↦ inr st
  | inl g ↦ elim (listener-CanStep r metrics k) [ inr st ↦ inr st | inl g' ↦ inl (g, g') ]
]

main-CanStep :
    {s : Process}
    → Reach s
    → (m : Main) → s.main ≡ m
    → ((e : Option RunError) × (s.main ≡ finished e)) ⊎ CanStep s
main-CanStep r selecting h = inr (_, signal h, tt)
main-CanStep r (fail_api n e) h = inr (_, fail_shut_api h, tt)
main-CanStep r (fail_metrics n e) h = inr (_, fail_shut_metrics h, tt)
main-CanStep {s} r (fail_wait n e) h = elim (wait-CanStep r (rw h at (Reach-Inv r))) [
  | inl g ↦ inr (_, fail_return h (both_gone s g), tt)
  | inr st ↦ inr st
]
main-CanStep r drain_api h = inr (_, drain_shut_api none h, tt)
main-CanStep r (drain_metrics e) h = inr (_, drain_shut_metrics none h, tt)
main-CanStep {s} r (drain_wait e) h = elim (wait-CanStep r (rw h at (Reach-Inv r))) [
  | inl g ↦ inr (_, drain_waited h (both_gone s g), tt)
  | inr st ↦ inr st
]
main-CanStep r (drain_results e) h = inr (_, drain_return h, tt)
main-CanStep r (finished e) h = inl (e, h)

-- A run without a further error of a listener
pub data Run : Process → Process → Type 0 where
  stay : (s : Process) → Run s s
  move : {s s' s'' : Process} (st : Step s s') → IsOrderly st → Run s' s'' → Run s s''

abbrev pub CanReturn : Process → Type 0
CanReturn s = (s' : Process) × (e : Option RunError) × (s'.main ≡ finished e) × Run s s'

-- By the steps that are left
run_on : (n : ℕ) {s : Process} → Reach s → steps_left s ≤ n → CanReturn s
run_on zero {s} r bound = elim (main-CanStep r s.main refl) [
  | inl (e, h) ↦ (s, e, h, stay s)
  | inr (s', st, orderly) ↦ absurd (omega (arith, bound, Step-steps_left st))
]
run_on (suc n) {s} r bound = elim (main-CanStep r s.main refl) [
  | inl (e, h) ↦ (s, e, h, stay s)
  | inr (s', st, orderly) ↦
      let (end, e, h, run) = run_on n (next r st) (omega (arith, bound, Step-steps_left st)) in
      (end, e, h, move st orderly run)
]

-- Every step makes `steps_left` smaller, so that no run is endless; and from every reachable state a
-- run without a further error of a listener leads to the return of `run`: nothing deadlocks.
pub Reach-CanReturn :
    {s : Process}
    → Reach s
    → ((s' : Process) → Step s s' → steps_left s' < steps_left s) × CanReturn s
Reach-CanReturn {s} r = ((λ s' st. Step-steps_left st), run_on (steps_left s) r (omega arith))
