-- ===== src/Metrics/Registry.antt =====
-- The families that `NewRegistry` registers, and the one that a sample goes to.
use opencost_ai.Prelude.{ℕ, List, [], ◌∷◌}
use opencost_ai.Prelude.Int.{ℤ, pos, negsuc}
use opencost_ai.Text.{Bytes, text, format_d}
use opencost_ai.Metrics.{
  Sample, in_flight_inc, in_flight_dec, rate_limited, request_duration, requests, tool_calls,
  tool_duration, model_tokens, upstream_errors,
}

-- The bucket bounds are in milliseconds.
pub data Kind : Type 0 where
  counter gauge : Kind
  histogram : (buckets : List ℕ) → Kind

pub record Family : Type 0 where
  pub name : Bytes
  pub kind : Kind
  pub labels : List Bytes

-- `defaultBuckets`
abbrev pub default_buckets : List ℕ
default_buckets = 5 ∷ 10 ∷ 25 ∷ 50 ∷ 100 ∷ 250 ∷ 500 ∷ 1000 ∷ 2500 ∷ 5000 ∷ 10000 ∷ []

abbrev pub requests_family : Family
requests_family = record {
  name = text "opencost_ai_gateway_requests_total";
  kind = counter;
  labels = text "endpoint" ∷ text "method" ∷ text "status" ∷ [];
}

abbrev pub request_duration_family : Family
request_duration_family = record {
  name = text "opencost_ai_gateway_request_duration_seconds";
  kind = histogram default_buckets;
  labels = text "endpoint" ∷ text "method" ∷ [];
}

abbrev pub in_flight_family : Family
in_flight_family = record {
  name = text "opencost_ai_gateway_requests_in_flight";
  kind = gauge;
  labels = [];
}

abbrev pub tool_calls_family : Family
tool_calls_family = record {
  name = text "opencost_ai_gateway_tool_calls_total";
  kind = counter;
  labels = text "tool" ∷ [];
}

abbrev pub tool_duration_family : Family
tool_duration_family = record {
  name = text "opencost_ai_gateway_tool_call_duration_seconds";
  kind = histogram default_buckets;
  labels = text "tool" ∷ [];
}

abbrev pub model_tokens_family : Family
model_tokens_family = record {
  name = text "opencost_ai_gateway_model_tokens_total";
  kind = counter;
  labels = text "model" ∷ text "kind" ∷ [];
}

abbrev pub upstream_errors_family : Family
upstream_errors_family = record {
  name = text "opencost_ai_gateway_upstream_errors_total";
  kind = counter;
  labels = text "op" ∷ text "kind" ∷ [];
}

abbrev pub rate_limited_family : Family
rate_limited_family = record {
  name = text "opencost_ai_gateway_rate_limited_total";
  kind = counter;
  labels = [];
}

-- `r.MustRegister`
unfoldable pub new_registry : List Family
new_registry =
    requests_family ∷ request_duration_family ∷ in_flight_family ∷ tool_calls_family
    ∷ tool_duration_family ∷ model_tokens_family ∷ upstream_errors_family ∷ rate_limited_family ∷ []

-- The family of the accessor that a sample is recorded by.
unfoldable pub family_of : Sample → Family
family_of in_flight_inc = in_flight_family
family_of in_flight_dec = in_flight_family
family_of rate_limited = rate_limited_family
family_of (request_duration endpoint method) = request_duration_family
family_of (requests endpoint method status) = requests_family
family_of (tool_calls tool) = tool_calls_family
family_of (tool_duration tool millis) = tool_duration_family
family_of (model_tokens model kind count) = model_tokens_family
family_of (upstream_errors op kind) = upstream_errors_family

-- The arguments of `WithLabelValues`
unfoldable pub label_values : Sample → List Bytes
label_values in_flight_inc = []
label_values in_flight_dec = []
label_values rate_limited = []
label_values (request_duration endpoint method) = endpoint ∷ method ∷ []
label_values (requests endpoint method status) = endpoint ∷ method ∷ format_d (pos status) ∷ []
label_values (tool_calls tool) = tool ∷ []
label_values (tool_duration tool millis) = tool ∷ []
label_values (model_tokens model kind count) = model ∷ kind ∷ []
label_values (upstream_errors op kind) = op ∷ kind ∷ []

-- What `Inc`, `Add` and `Dec` add; an observation of a histogram counts one.
unfoldable pub delta : Sample → ℤ
delta in_flight_inc = pos 1
delta in_flight_dec = negsuc 0
delta rate_limited = pos 1
delta (request_duration endpoint method) = pos 1
delta (requests endpoint method status) = pos 1
delta (tool_calls tool) = pos 1
delta (tool_duration tool millis) = pos 1
delta (model_tokens model kind count) = count
delta (upstream_errors op kind) = pos 1
