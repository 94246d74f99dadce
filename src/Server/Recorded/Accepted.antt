-- ===== src/Server/Recorded/Accepted.antt =====
-- The samples of internal/server against the registry of internal/metrics.
use opencost_ai.Prelude.{
  and_parts, ℕ, ◌≡◌, refl, ◌⊎◌, inl, inr, true, List, [], ◌∷◌, Option, arith, All, All-append,
  length, all,
}
use opencost_ai.Prelude.Int.{ℤ, pos, is_positive}
use opencost_ai.Text.{Bytes, text, within, format_d}
use opencost_ai.Text.Utf8.Ascii.{is_ascii, is_ascii-valid_string, format_d-is_ascii}
use opencost_ai.RateLimit.{RateLibrary}
use opencost_ai.RequestId.{Entropy}
use opencost_ai.Auth.Source.{ValidateError}
use opencost_ai.Metrics.{
  Sample, in_flight_inc, in_flight_dec, rate_limited, request_duration, requests, tool_calls,
  tool_duration, model_tokens, upstream_errors,
}
use opencost_ai.Metrics.Registry.{
  Family, Kind, counter, gauge, histogram, new_registry, family_of, label_values, delta,
}
use opencost_ai.Server.World.{Config, Request, World, Upstream}
use opencost_ai.Server.Routes.{Route, ask_route, tools_route, models_route, endpoint_of, serve}
use opencost_ai.Server.Observe.{is_label_byte}
use opencost_ai.Server.Observe.Labels.{IsLabel}
use opencost_ai.Server.Observe.Recorded.{IsUtf8, IsHandled, IsOp, IsKind}
use opencost_ai.Server.Ask.Recorded.{IsUtf8Traffic}
use opencost_ai.Server.Recorded.{framed, serve-Recorded}

abbrev pub IsRegistered : Family → List Family → Type 0
IsRegistered f [] = ⊥
IsRegistered f (g ∷ gs) = (f ≡ g) ⊎ IsRegistered f gs

-- The client panics on a negative addition to a counter.
abbrev pub IsAddable : Kind → ℤ → Type 0
IsAddable counter d = is_positive d ≡ true
IsAddable gauge d = Unit
IsAddable (histogram buckets) d = Unit

-- The family is registered, has as many labels as the sample, which are UTF-8, and a counter grows.
pub record IsAccepted (s : Sample) : Type 0 where
  pub registered : IsRegistered (family_of s) new_registry
  pub arity : length (label_values s) ≡ length (family_of s).labels
  pub utf8 : All IsUtf8 (label_values s)
  pub addable : IsAddable (family_of s).kind (delta s)

literal : (s : Bytes) → is_ascii s ≡ true → IsUtf8 s
literal s h = is_ascii-valid_string s h

label_byte-ascii : (c : ℕ) → is_label_byte c ≡ true → within 0 0x7F c ≡ true
label_byte-ascii c h = ground (arith, h)

label-is_ascii : (s : Bytes) → all is_label_byte s ≡ true → is_ascii s ≡ true
label-is_ascii [] h = refl
label-is_ascii (c ∷ s) h =
    let (head, tail) = and_parts (is_label_byte c) (all is_label_byte s) h in
    rw (label_byte-ascii c head) (label-is_ascii s tail)

label-IsUtf8 : (s : Bytes) → IsLabel s → IsUtf8 s
unfolding text
label-IsUtf8 s (inl e) = literal s (rw e refl)
label-IsUtf8 s (inr (_, _, h)) = literal s (label-is_ascii s h)

op-IsUtf8 : (op : Bytes) → IsOp op → IsUtf8 op
unfolding text
op-IsUtf8 op (inl e) = literal op (rw e refl)
op-IsUtf8 op (inr e) = literal op (rw e refl)

kind-IsUtf8 : (kind : Bytes) → IsKind kind → IsUtf8 kind
unfolding text
kind-IsUtf8 kind (inl e) = literal kind (rw e refl)
kind-IsUtf8 kind (inr (inl e)) = literal kind (rw e refl)
kind-IsUtf8 kind (inr (inr (inl e))) = literal kind (rw e refl)
kind-IsUtf8 kind (inr (inr (inr (inl e)))) = literal kind (rw e refl)
kind-IsUtf8 kind (inr (inr (inr (inr e)))) = literal kind (rw e refl)

token_kind-IsUtf8 :
    (kind : Bytes) → (kind ≡ text "prompt") ⊎ (kind ≡ text "completion") → IsUtf8 kind
unfolding text
token_kind-IsUtf8 kind (inl e) = literal kind (rw e refl)
token_kind-IsUtf8 kind (inr e) = literal kind (rw e refl)

endpoint-IsUtf8 : (route : Route) → IsUtf8 (endpoint_of route)
unfolding text endpoint_of
endpoint-IsUtf8 ask_route = literal (endpoint_of ask_route) refl
endpoint-IsUtf8 tools_route = literal (endpoint_of tools_route) refl
endpoint-IsUtf8 models_route = literal (endpoint_of models_route) refl

status-IsUtf8 : (status : ℕ) → IsUtf8 (format_d (pos status))
status-IsUtf8 status = literal (format_d (pos status)) (format_d-is_ascii (pos status))

IsHandled-IsAccepted : (s : Sample) → IsHandled s → IsAccepted s
unfolding family_of label_values delta new_registry
IsHandled-IsAccepted rate_limited h = record {
  registered = inr (inr (inr (inr (inr (inr (inr (inl refl)))))));
  arity = refl;
  utf8 = tt;
  addable = refl;
}
IsHandled-IsAccepted (tool_calls tool) h = record {
  registered = inr (inr (inr (inl refl)));
  arity = refl;
  utf8 = (label-IsUtf8 tool h, tt);
  addable = refl;
}
IsHandled-IsAccepted (tool_duration tool millis) (h, k) = record {
  registered = inr (inr (inr (inr (inl refl))));
  arity = refl;
  utf8 = (label-IsUtf8 tool h, tt);
  addable = tt;
}
IsHandled-IsAccepted (model_tokens model kind count) (h, k, l) = record {
  registered = inr (inr (inr (inr (inr (inl refl)))));
  arity = refl;
  utf8 = (h, (token_kind-IsUtf8 kind k, tt));
  addable = l;
}
IsHandled-IsAccepted (upstream_errors op kind) (h, k) = record {
  registered = inr (inr (inr (inr (inr (inr (inl refl))))));
  arity = refl;
  utf8 = (op-IsUtf8 op h, (kind-IsUtf8 kind k, tt));
  addable = refl;
}
IsHandled-IsAccepted in_flight_inc h = absurd h
IsHandled-IsAccepted in_flight_dec h = absurd h
IsHandled-IsAccepted (request_duration endpoint method) h = absurd h
IsHandled-IsAccepted (requests endpoint method status) h = absurd h

All-IsAccepted : (samples : List Sample) → All IsHandled samples → All IsAccepted samples
All-IsAccepted [] h = tt
All-IsAccepted (s ∷ samples) (h, hs) = (IsHandled-IsAccepted s h, All-IsAccepted samples hs)

framed-IsAccepted :
    (route : Route) (method : Bytes) (status : ℕ) (samples : List Sample)
    → IsUtf8 method
    → All IsHandled samples
    → All IsAccepted (framed (endpoint_of route) method status samples)
unfolding family_of label_values delta new_registry
framed-IsAccepted route method status samples valid h =
    let endpoint = endpoint-IsUtf8 route in
    (
      record { registered = inr (inr (inl refl)); arity = refl; utf8 = tt; addable = tt },
      All-append IsAccepted samples _ (All-IsAccepted samples h) (
        record { registered = inr (inr (inl refl)); arity = refl; utf8 = tt; addable = tt },
        (
          record {
            registered = inr (inl refl);
            arity = refl;
            utf8 = (endpoint, (valid, tt));
            addable = tt;
          },
          (
            record {
              registered = inl refl;
              arity = refl;
              utf8 = (endpoint, (valid, (status-IsUtf8 status, tt)));
              addable = refl;
            },
            tt,
          ),
        ),
      ),
    )

-- No request on a route records what the Prometheus client would panic on: every sample goes to a
-- registered family, with as many labels as it has, which are UTF-8, and adds to a counter what is
-- positive, if that holds of what was recorded before. The request's method is UTF-8, and so are the
-- names of models in what encoding/json decodes, and the configured one.
pub serve-IsAccepted :
    {lib : RateLibrary} (cfg : Config) (up : Upstream) (validate : Bytes → Option ValidateError)
    (caller_id : Bytes) (entropy : Entropy) (route : Route) (r : Request) (w : World lib)
    → IsUtf8Traffic cfg up
    → IsUtf8 r.method
    → All IsAccepted w.metrics
    → All IsAccepted (serve cfg up validate caller_id entropy route r w).metrics
serve-IsAccepted cfg up validate caller_id entropy route r w traffic valid h =
    let (samples, handled, e) =
      serve-Recorded cfg up validate caller_id entropy route r w traffic in
    rw e (
      All-append IsAccepted w.metrics _ h
        (framed-IsAccepted route r.method _ samples valid handled))
