-- ===== src/Process/Serving/Admission.antt =====
-- Who gets past the public listener of a running gateway.
use opencost_ai.Prelude.{◌≡◌, ◌≢◌, refl, [], some, ◌⊎◌, inl, inr}
use opencost_ai.Text.{Bytes}
use opencost_ai.RateLimit.{RateLibrary}
use opencost_ai.Auth.Header.Laws.{Bears, extract_bearer_iff}
use opencost_ai.Auth.Source.{Source, validate}
use opencost_ai.Auth.Source.Validate.{in_force, validate-accepts_iff}
use opencost_ai.Server.Routes.{Route}
use opencost_ai.Server.New.Guarded.{Unreached, IsSent, IsEntitled}
use opencost_ai.Server.New.Routing.{IsRouted}
use opencost_ai.Process.Listeners.Public.{public_handler-Unreached}
use opencost_ai.Process.Wiring.{Gateway}
use opencost_ai.Process.Serving.{Arrival, Running, Codec, config_of, fresh_writer, serve_arrival}

-- A route takes the request, and its header bears the token in force, which is not empty.
pub record IsAdmitted (a : Arrival) (s : Source) : Type 0 where
  pub route : Route
  pub routed : IsRouted a.request.method a.target route
  pub token : Bytes
  pub bears : Bears a.request.authorization token
  pub current : in_force a.stat a.read s ≡ some token
  pub not_empty : token ≢ []

admitted :
    (a : Arrival) (s : Source)
    → IsEntitled (λ token. (validate token a.stat a.read s).0) a.request a.target
    → IsAdmitted a s
admitted a s ((route, routed), (token, extracted, accepted)) =
    let (current, not_empty) = (validate-accepts_iff token a.stat a.read s).0 accepted in
    record {
      route = route;
      routed = routed;
      token = token;
      bears = (extract_bearer_iff a.request.authorization token).0 extracted;
      current = current;
      not_empty = not_empty;
    }

-- Every request to the running gateway is answered, and it reaches the limiter, the audit log or the
-- bridge only if a route takes its method and path and its header bears the token in force, which is
-- not empty: what the token file holds if it has changed and can be read, the cached token if it has
-- not changed or cannot be found.
pub serve_arrival-IsAdmitted :
    {lib : RateLibrary} {L : Type 0} (version : Bytes) (codec : Codec) (g : Gateway lib L)
    (a : Arrival) (s : Running lib)
    → let s' = serve_arrival version codec g a s in
      IsSent s'.world × (IsAdmitted a s.source ⊎ Unreached s.world s'.world)
unfolding serve_arrival
serve_arrival-IsAdmitted version codec g a s =
    let w = s.world in
    let (sent, reached) =
      public_handler-Unreached version (config_of version codec g) a.up
        (λ token. (validate token a.stat a.read s.source).0) a.caller_id a.entropy a.request
        a.target (record w { writer = fresh_writer }) refl in
    (
      sent,
      elim reached [
        | inl entitled ↦ inl (admitted a s.source entitled)
        | inr kept ↦ inr (record { limiter = kept.limiter; audit = kept.audit; calls = kept.calls })
      ],
    )
