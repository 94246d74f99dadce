-- ===== src/Process/Listeners/Public.antt =====
-- What the public listener answers without a token, and what it lets through.
use opencost_ai.Prelude.{◌≡◌, refl, true, [], ◌∷◌, ◌++◌, Option, none, some, ◌⊎◌, inl, inr, arith}
use opencost_ai.Text.{Bytes, text}
use opencost_ai.RequestId.{Entropy}
use opencost_ai.RateLimit.{RateLibrary}
use opencost_ai.Auth.Source.{ValidateError}
use opencost_ai.Server.Writer.{Item, ResponseWriter}
use opencost_ai.Server.Writer.Sync.{sent_status}
use opencost_ai.Server.World.{Config, Request, World, Upstream}
use opencost_ai.Server.Mux.{Target}
use opencost_ai.Server.Mux.Served.{serve_mux-Refused}
use opencost_ai.Server.New.Guarded.{
  Unreached, IsSent, IsEntitled, Refused-Unreached, api_handler-Unreached,
}
use opencost_ai.Process.Listeners.{
  health, health_of, health_handler, gateway_handler, public_patterns, run_public, public_handler,
}

health-status :
    (version : Bytes) (w : ResponseWriter)
    → w.sent ≡ none
    → (sent_status (health version w) ≡ some 200)
      × ((health version w).items ≡ w.items ++ Item.health (health_of version) ∷ [])
unfolding health
health-status version w unsent = (ground (arith, unsent), ground (arith, unsent))

-- A probe
pub record IsProbe (m : Bytes) (t : Target) : Type 0 where
  pub clean : t.clean ≡ true
  pub path : t.segments ≡ text "v1" ∷ text "health" ∷ []
  pub method : (m ≡ text "GET") ⊎ (m ≡ text "HEAD")

module _ {lib : RateLibrary} (version : Bytes) (cfg : Config) (up : Upstream)
    (validate : Bytes → Option ValidateError) (caller_id : Bytes) (entropy : Entropy) (r : Request)
    (t : Target) (w : World lib) where
  -- Every request to the public listener is answered. It reaches the limiter, the audit log or the
  -- bridge only if a route takes its method and path and it carries a token that the validator
  -- accepts. Nothing was sent before.
  pub public_handler-Unreached :
      w.writer.inner.sent ≡ none
      → let w' = public_handler version cfg up validate caller_id entropy r t w in
        IsSent w' × (IsEntitled validate r t ⊎ Unreached w w')
  unfolding public_handler
  public_handler-Unreached unsent =
      elim (serve_mux-Refused (run_public version cfg up validate caller_id entropy r t) r.method t
        public_patterns w unsent) [
          | inr refused ↦ let (sent, kept) = Refused-Unreached refused in (sent, inr kept)
          | inl (health_handler, taken, e) ↦
              rw (public_handler, e)
                (
                  (200, (health-status version w.writer.inner unsent).0),
                  inr (record { limiter = refl; audit = refl; calls = refl }),
                )
          | inl (gateway_handler, taken, e) ↦
              rw (public_handler, e)
                (api_handler-Unreached cfg up validate caller_id entropy r t w unsent)
        ]
