-- ===== src/Server/Routes/Guard.antt =====
-- What stands in front of the handlers.
use opencost_ai.Prelude.{
  ℕ, some, not, is_nil, ◌==◌, ◌≡◌, refl, Option, none, ok, Result-cases, Option-cases, ◌⊎◌, inl,
  inr,
}
use opencost_ai.Text.{Bytes}
use opencost_ai.RateLimit.{RateLibrary}
use opencost_ai.RequestId.{Entropy, assign_id}
use opencost_ai.Auth.Header.{extract_bearer}
use opencost_ai.Auth.Source.{ValidateError, no_token, invalid_token, other}
use opencost_ai.Server.Writer.{StatusWriter, set_header, new_status_writer}
use opencost_ai.Server.Writer.Sync.{sent_status}
use opencost_ai.Server.Problem.Laws.{IsFresh, branch-IsFresh, write-Sent}
use opencost_ai.Server.World.{Config, Request, World, Upstream}
use opencost_ai.Server.Routes.{
  auth_problem, denial, require_token, measured, Route, handler_of, serve,
}

-- The request carries a token that the validator accepts.
abbrev pub IsAuthentic : (Bytes → Option ValidateError) → Request → Type 0
IsAuthentic validate r =
    (token : Bytes) × (extract_bearer r.authorization ≡ ok token) × (validate token ≡ none)

-- The statuses of the middleware.
abbrev pub IsDenial : ℕ → Type 0
IsDenial status = (status ≡ 401) ⊎ (status ≡ 500) ⊎ (status ≡ 503)

denial-IsDenial : (e : ValidateError) → IsDenial (denial e).0
denial-IsDenial no_token = inr (inr refl)
denial-IsDenial invalid_token = inl refl
denial-IsDenial other = inr (inl refl)

auth_problem-status :
    (r : Request) (status : ℕ) (title detail : Bytes) (s : StatusWriter)
    → IsFresh s
    → sent_status (auth_problem r status title detail s).inner ≡ some status
unfolding auth_problem set_header
auth_problem-status r status title detail s fresh =
    let echoed = branch-IsFresh (not (is_nil r.request_id)) _ _ fresh fresh in
    (write-Sent status _ _ (branch-IsFresh (status == 401) _ _ echoed echoed)).on_wire

module _ {lib : RateLibrary} where
  -- The caller was sent a refusal, and else nothing but the metrics has changed.
  pub record Denied (w w' : World lib) : Type 0 where
    pub status : ℕ
    pub on_wire : sent_status w'.writer.inner ≡ some status
    pub is_denial : IsDenial status
    pub limiter : w'.limiter ≡ w.limiter
    pub audit : w'.audit ≡ w.audit
    pub calls : w'.calls ≡ w.calls

  require_token-Denied :
      (r : Request) (validate : Bytes → Option ValidateError) (next : World lib → World lib)
      (w : World lib)
      → IsFresh w.writer
      → IsAuthentic validate r ⊎ Denied w (require_token r validate next w)
  unfolding require_token
  require_token-Denied r validate next w fresh =
      elim (Result-cases (extract_bearer r.authorization)) [
        | inr (e, f) ↦ inr (
            rw (require_token, f)
              (record {
                status = 401;
                on_wire = auth_problem-status r 401 _ _ w.writer fresh;
                is_denial = inl refl;
                limiter = refl;
                audit = refl;
                calls = refl;
              }))
        | inl (token, f) ↦ elim (Option-cases (validate token)) [
          | inl g ↦ inl (token, f, g)
          | inr (e, g) ↦ inr (
              rw (require_token, f, g)
                (record {
                  status = (denial e).0;
                  on_wire = auth_problem-status r (denial e).0 _ _ w.writer fresh;
                  is_denial = denial-IsDenial e;
                  limiter = refl;
                  audit = refl;
                  calls = refl;
                }))
        ]
      ]

  -- On every route, a request that does not carry a token that the validator accepts is answered
  -- with status 401, 500 or 503, if nothing was sent before, and reaches neither the limiter, the
  -- audit log nor the bridge.
  pub serve-Denied :
      (cfg : Config) (up : Upstream) (validate : Bytes → Option ValidateError) (caller_id : Bytes)
      (entropy : Entropy) (route : Route) (r : Request) (w : World lib)
      → w.writer.inner.sent ≡ none
      → IsAuthentic validate r ⊎ Denied w (serve cfg up validate caller_id entropy route r w)
  unfolding serve measured new_status_writer set_header
  serve-Denied cfg up validate caller_id entropy route r w unsent =
      let r' = record r { request_id = assign_id caller_id entropy } in
      elim (require_token-Denied r' validate (handler_of cfg up route r') _ (refl, unsent)) [
        | inl h ↦ inl h
        | inr h ↦ inr (record {
          status = h.status;
          on_wire = h.on_wire;
          is_denial = h.is_denial;
          limiter = h.limiter;
          audit = h.audit;
          calls = h.calls;
        })
      ]
