-- ===== src/Process/Serving.antt =====
-- The gateway that `run` of cmd/gateway/main.go starts, as its public listener hands it one request
-- after another.
pub mod Admission
pub mod Redaction
use opencost_ai.Prelude.{ℕ, Bool, List, [], ◌∷◌, Option, none, some, ok, err, false}
use opencost_ai.Prelude.Int.{pos_part}
use opencost_ai.Text.{Bytes}
use opencost_ai.RequestId.{Entropy}
use opencost_ai.RateLimit.{RateLibrary}
use opencost_ai.Auth.Header.{extract_bearer}
use opencost_ai.Auth.Source.{FileInfo, Source, ValidateError, validate}
use opencost_ai.Server.Writer.{Item, StatusWriter}
use opencost_ai.Server.World.{Config, Decoded, Request, World, Upstream}
use opencost_ai.Server.Mux.{Target, Dispatch, handled, dispatch}
use opencost_ai.Server.Routes.{Route}
use opencost_ai.Server.New.{api_patterns}
use opencost_ai.Process.Listeners.{
  PublicHandler, health_handler, gateway_handler, public_patterns, public_handler,
}
use opencost_ai.Process.Wiring.{Gateway}

-- A request, and what the environment does while it is served: the token file as os.Stat and
-- os.ReadFile see it, the random bytes for an ID, and the answers of the bridge.
pub record Arrival : Type 0 where
  pub request : Request
  pub target : Target
  pub caller_id : Bytes
  pub entropy : Entropy
  pub stat : Option FileInfo
  pub read : Option Bytes
  pub up : Upstream

-- What the requests share.
pub record Running (lib : RateLibrary) : Type 0 where
  pub source : Source
  pub world : World lib

-- The response that net/http makes for a request.
abbrev pub fresh_writer : StatusWriter
fresh_writer = record {
  inner = record { header = []; sent = none; items = [] };
  status = 200;
  wrote_header = false;
}

-- encoding/json and crypto/sha256
pub record Codec : Type 0 where
  pub decode : ℕ → Bytes → Decoded
  pub encodes : Item → Bool
  pub sha256 : Bytes → Bytes

-- The part of the middleware on the source: it is source_behind if a route takes the request and its header
-- bears a token.
abbrev source_behind : Arrival → Source → Dispatch PublicHandler → Dispatch Route → Source
source_behind a s (handled gateway_handler) (handled route) =
    elim (extract_bearer a.request.authorization) [
      | err e ↦ s
      | ok token ↦ (validate token a.stat a.read s).1
    ]
source_behind a s _ _ = s

module _ {lib : RateLibrary} {L : Type 0} (version : Bytes) (codec : Codec)
    (g : Gateway lib L) where
  abbrev pub config_of : Config
  config_of = record {
    default_model = g.handlers.default_model;
    max_request_bytes = pos_part g.handlers.max_request_bytes;
    decode = codec.decode;
    encodes = codec.encodes;
    sha256 = codec.sha256;
  }

  abbrev pub first_state : Running lib
  first_state = record {
    source = g.handlers.auth_validator;
    world = record {
      limiter = g.handlers.limiter;
      audit = g.handlers.audit;
      metrics = g.handlers.metrics;
      calls = [];
      writer = fresh_writer;
    };
  }

  -- A request on the public listener.
  unfoldable pub serve_arrival : Arrival → Running lib → Running lib
  serve_arrival a s =
      let w = s.world in
      record {
        source =
            source_behind a s.source (dispatch a.request.method a.target public_patterns)
              (dispatch a.request.method a.target api_patterns);
        world =
            public_handler version config_of a.up
              (λ token. (validate token a.stat a.read s.source).0) a.caller_id a.entropy a.request
              a.target (record w { writer = fresh_writer });
      }

  unfoldable pub serve_arrivals : List Arrival → Running lib → Running lib
  unfolding serve_arrival
  serve_arrivals [] s = s
  serve_arrivals (a ∷ rest) s = serve_arrivals rest (serve_arrival a s)
