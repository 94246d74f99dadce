-- ===== src/Server/Mux/Served.antt =====
-- What ServeMux sends itself.
use opencost_ai.Prelude.{◌≡◌, refl, ℕ, List, none, some, arith, ◌⊎◌, inl, inr}
use opencost_ai.Text.{Bytes}
use opencost_ai.RateLimit.{RateLibrary}
use opencost_ai.Server.Writer.{ResponseWriter}
use opencost_ai.Server.Writer.Sync.{sent_status}
use opencost_ai.Server.World.{World}
use opencost_ai.Server.Mux.{
  Target, Pattern, Dispatch, handled, moved, not_found, not_allowed, dispatch, http_error, redirect,
  serve_mux,
}

http_error-status :
    (code : ℕ) (message : Bytes) (w : ResponseWriter)
    → w.sent ≡ none
    → sent_status (http_error code message w) ≡ some code
unfolding http_error
http_error-status code message w unsent = ground (arith, unsent)

redirect-status :
    (status : ℕ) (m : Bytes) (t : Target) (w : ResponseWriter)
    → w.sent ≡ none
    → sent_status (redirect status m t w) ≡ some status
unfolding redirect
redirect-status status m t w unsent = ground (arith, unsent)

module _ {lib : RateLibrary} where
  -- A status was sent, and nothing else has changed.
  pub record Refused (w w' : World lib) : Type 0 where
    pub status : ℕ
    pub on_wire : sent_status w'.writer.inner ≡ some status
    pub limiter : w'.limiter ≡ w.limiter
    pub audit : w'.audit ≡ w.audit
    pub calls : w'.calls ≡ w.calls
    pub metrics : w'.metrics ≡ w.metrics

  -- A request is taken by a handler of the table, or refused.
  pub serve_mux-Refused :
      {H : Type 0} (run : H → World lib → World lib) (m : Bytes) (t : Target)
      (ps : List (Pattern × H)) (w : World lib)
      → w.writer.inner.sent ≡ none
      → ((h : H) × (dispatch m t ps ≡ handled h) × (serve_mux run m t ps w ≡ run h w))
        ⊎ Refused w (serve_mux run m t ps w)
  unfolding serve_mux
  serve_mux-Refused {H = H} run m t ps w unsent = by_dispatch (dispatch m t ps) refl
    where
      by_dispatch :
          (d : Dispatch H)
          → dispatch m t ps ≡ d
          → ((h : H) × (dispatch m t ps ≡ handled h) × (serve_mux run m t ps w ≡ run h w))
            ⊎ Refused w (serve_mux run m t ps w)
      by_dispatch (handled h) e = inl (h, e, rw (serve_mux, e) refl)
      by_dispatch (moved status) e = inr (
          rw (serve_mux, e)
            (record {
              status = status;
              on_wire = redirect-status status m t w.writer.inner unsent;
              limiter = refl;
              audit = refl;
              calls = refl;
              metrics = refl;
            }))
      by_dispatch not_found e = inr (
          rw (serve_mux, e)
            (record {
              status = 404;
              on_wire = http_error-status 404 _ w.writer.inner unsent;
              limiter = refl;
              audit = refl;
              calls = refl;
              metrics = refl;
            }))
      by_dispatch (not_allowed ms) e = inr (
          rw (serve_mux, e)
            (record {
              status = 405;
              on_wire = http_error-status 405 _ _ unsent;
              limiter = refl;
              audit = refl;
              calls = refl;
              metrics = refl;
            }))
