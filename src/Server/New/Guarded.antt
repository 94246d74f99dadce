-- ===== src/Server/New/Guarded.antt =====
-- What the handler of `New` lets through.
use opencost_ai.Prelude.{◌≡◌, ◌⊎◌, ℕ, Option, none, some, inl, inr}
use opencost_ai.Text.{Bytes}
use opencost_ai.RequestId.{Entropy}
use opencost_ai.RateLimit.{RateLibrary}
use opencost_ai.Auth.Source.{ValidateError}
use opencost_ai.Server.Writer.Sync.{sent_status}
use opencost_ai.Server.World.{Config, Request, World, Upstream}
use opencost_ai.Server.Mux.{Target}
use opencost_ai.Server.Mux.Served.{Refused, serve_mux-Refused}
use opencost_ai.Server.Routes.{Route, serve}
use opencost_ai.Server.Routes.Guard.{IsAuthentic, serve-Denied}
use opencost_ai.Server.Status.Serve.{serve-status}
use opencost_ai.Server.New.{api_patterns, api_handler}
use opencost_ai.Server.New.Routing.{IsRouted, dispatch-IsRouted_iff}

-- A request that a route takes with a token that the validator accepts.
abbrev pub IsEntitled : (Bytes → Option ValidateError) → Request → Target → Type 0
IsEntitled validate r t = ((route : Route) × IsRouted r.method t route) × IsAuthentic validate r

module _ {lib : RateLibrary} where
  -- The caller was sent something, and the limiter, the audit log and the bridge were not reached.
  pub record Unreached (w w' : World lib) : Type 0 where
    pub limiter : w'.limiter ≡ w.limiter
    pub audit : w'.audit ≡ w.audit
    pub calls : w'.calls ≡ w.calls

  abbrev pub IsSent : World lib → Type 0
  IsSent w = (status : ℕ) × (sent_status w.writer.inner ≡ some status)

  pub Refused-Unreached : {w w' : World lib} → Refused w w' → IsSent w' × Unreached w w'
  Refused-Unreached h =
      ((h.status, h.on_wire), record { limiter = h.limiter; audit = h.audit; calls = h.calls })

  pub api_handler-Unreached :
      (cfg : Config) (up : Upstream) (validate : Bytes → Option ValidateError) (caller_id : Bytes)
      (entropy : Entropy) (r : Request) (t : Target) (w : World lib)
      → w.writer.inner.sent ≡ none
      → let w' = api_handler cfg up validate caller_id entropy r t w in
        IsSent w' × (IsEntitled validate r t ⊎ Unreached w w')
  unfolding api_handler
  api_handler-Unreached cfg up validate caller_id entropy r t w unsent =
      elim (serve_mux-Refused (λ route. serve cfg up validate caller_id entropy route r) r.method t
        api_patterns w unsent) [
          | inr refused ↦ let (sent, kept) = Refused-Unreached refused in (sent, inr kept)
          | inl (route, taken, e) ↦
              rw (api_handler, e)
                (let (status, rest, on_wire, counted) =
                    serve-status cfg up validate caller_id entropy route r w unsent in
                  (
                    (status, on_wire),
                    elim (serve-Denied cfg up validate caller_id entropy route r w unsent) [
                      | inl authentic ↦
                          inl ((route, (dispatch-IsRouted_iff r.method t route).0 taken), authentic)
                      | inr d ↦
                          inr (record { limiter = d.limiter; audit = d.audit; calls = d.calls })
                    ],
                  ))
        ]
