-- ===== src/Process/Lifecycle.antt =====
-- `run` of cmd/gateway/main.go behind the wiring: two listeners in goroutines, the channel of their
-- results, signals, and the drain. The steps of the three goroutines come in any order.
pub mod Bounds
pub mod Ending
use opencost_ai.Prelude.{
  ℕ, zero, suc, ◌+◌, ◌<◌, ◌≡◌, Bool, true, false, List, [], ◌∷◌, ◌++◌, Option, none, some, length,
}
use opencost_ai.Text.{Bytes}

pub data Name : Type 0 where
  api metrics : Name

abbrev pub set {ℓ} : {A : Type ℓ} → (Name → A) → Name → A → Name → A
set f api a api = a
set f api a metrics = f metrics
set f metrics a api = f api
set f metrics a metrics = a

-- `serveResult`; the error is nil after http.ErrServerClosed.
pub record ServeResult : Type 0 where
  pub name : Name
  pub error : Option Bytes

-- A listener's goroutine: in ListenAndServe, in front of the send, and behind `wg.Done`.
pub data Listener : Type 0 where
  serving : Listener
  returned : (error : Option Bytes) → Listener
  gone : Listener

-- The error that `run` returns.
pub data RunError : Type 0 where
  listener_failed : Name → Bytes → RunError
  shutdown_failed : Bytes → RunError

-- The main goroutine: in front of the `select`, of each Shutdown, of `wg.Wait` and of the loop that
-- empties the channel, on either path, and behind its return.
pub data Main : Type 0 where
  selecting : Main
  fail_api fail_metrics fail_wait : Name → Bytes → Main
  drain_api : Main
  drain_metrics drain_wait drain_results : (shutdown_error : Option Bytes) → Main
  finished : Option RunError → Main

-- `down` says whose Shutdown has begun.
pub record Process : Type 0 where
  pub main : Main
  pub listener : Name → Listener
  pub down : Name → Bool
  pub results : List ServeResult

-- `make(chan serveResult, 2)`
abbrev pub capacity : ℕ
capacity = 2

abbrev pub init : Process
init = record { main = selecting; listener = λ n. serving; down = λ n. false; results = [] }

-- `if err != nil && shutdownErr == nil`
abbrev pub first_error : Option Bytes → Option Bytes → Option Bytes
first_error none e = e
first_error (some e) f = some e

abbrev pub returned_error : Option Bytes → Option RunError
returned_error none = none
returned_error (some e) = some (shutdown_failed e)

abbrev pub shut : Process → Name → Main → Process
shut s n m = record s { main = m; down = set s.down n true }

abbrev pub go : Process → Main → Process
go s m = record s { main = m }

-- ListenAndServe returns with an error at any time, or with ErrServerClosed once Shutdown has begun.
-- The outcome of a Shutdown, which its context bounds in time, is open.
pub data Step (s : Process) : Process → Type 0 where
  crash :
      (n : Name) (e : Bytes)
      → s.listener n ≡ serving
      → Step s (record s { listener = set s.listener n (returned (some e)) })
  close :
      (n : Name)
      → s.listener n ≡ serving
      → s.down n ≡ true
      → Step s (record s { listener = set s.listener n (returned none) })
  send :
      (n : Name) {e : Option Bytes}
      → s.listener n ≡ returned e
      → length s.results < capacity
      → Step s (record s {
        listener = set s.listener n gone;
        results = s.results ++ record { name = n; error = e } ∷ [];
      })
  receive_error :
      {n : Name} {e : Bytes} {rest : List ServeResult}
      → s.main ≡ selecting
      → s.results ≡ record { name = n; error = some e } ∷ rest
      → Step s (record s { main = fail_api n e; results = rest })
  receive_clean :
      {n : Name} {rest : List ServeResult}
      → s.main ≡ selecting
      → s.results ≡ record { name = n; error = none } ∷ rest
      → Step s (record s { main = drain_api; results = rest })
  signal : s.main ≡ selecting → Step s (go s drain_api)
  fail_shut_api :
      {n : Name} {e : Bytes} → s.main ≡ fail_api n e → Step s (shut s api (fail_metrics n e))
  fail_shut_metrics :
      {n : Name} {e : Bytes} → s.main ≡ fail_metrics n e → Step s (shut s metrics (fail_wait n e))
  fail_return :
      {n : Name} {e : Bytes}
      → s.main ≡ fail_wait n e
      → ((m : Name) → s.listener m ≡ gone)
      → Step s (go s (finished (some (listener_failed n e))))
  drain_shut_api : (e : Option Bytes) → s.main ≡ drain_api → Step s (shut s api (drain_metrics e))
  drain_shut_metrics :
      (e : Option Bytes) {f : Option Bytes}
      → s.main ≡ drain_metrics f
      → Step s (shut s metrics (drain_wait (first_error f e)))
  drain_waited :
      {f : Option Bytes}
      → s.main ≡ drain_wait f
      → ((m : Name) → s.listener m ≡ gone)
      → Step s (go s (drain_results f))
  drain_return :
      {f : Option Bytes}
      → s.main ≡ drain_results f
      → Step s (record s { main = finished (returned_error f); results = [] })

pub data Reach : Process → Type 0 where
  here : Reach init
  next : {s s' : Process} → Reach s → Step s s' → Reach s'
