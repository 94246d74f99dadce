-- ===== src/Config/Tests.antt =====
-- Tests of the configuration.
use opencost_ai.Prelude.{◌≡◌, refl, true, [], ◌∷◌, Option, none, some, ok, if◌then◌else◌}
use opencost_ai.Prelude.Int.{pos}
use opencost_ai.Text.{Bytes, text, beq, to_lower}
use opencost_ai.Text.Trim.{trim_space}
use opencost_ai.Config.{
  Config, Parsers, default_config, env_default_model, env_max_request_bytes, parse_bool, load,
  url_errors, validate_listen_addr, validate, timeout_error,
}
use opencost_ai.Config.Valid.{IsReady, validate-IsReady}
use opencost_ai.Config.Loaded.{IsLoaded, load-IsLoaded}

abbrev parsers : Parsers
parsers = record {
  parse_duration = λ v. some (pos 5);
  parse_int = λ v. some (pos 4096);
  parse_url = λ v. ok (record { scheme = text "http"; host = v; path = [] });
  split_host_port = λ v. some ([], v);
  lookup_port = λ v. some 8080;
}

-- An environment that sets the model and the size limit.
abbrev get : Bytes → Option Bytes
get v =
    if beq v env_default_model
    then some (text "m")
    else if beq v env_max_request_bytes
    then some (text "4096")
    else none

abbrev loaded : Config
loaded = record default_config { default_model = text "m"; max_request_bytes = pos 4096 }

load_test : load parsers get ≡ ok loaded
unfolding load default_config text beq
load_test = refl

load-IsLoaded_example : IsLoaded parsers get loaded
load-IsLoaded_example = load-IsLoaded parsers get loaded load_test

validate_test : validate parsers loaded ≡ []
unfolding validate default_config text beq url_errors validate_listen_addr
validate_test = refl

validate-IsReady_example : IsReady parsers loaded []
validate-IsReady_example = validate-IsReady parsers loaded [] validate_test

zero_timeout_test :
    validate parsers (record loaded { request_timeout = pos 0 }) ≡ timeout_error ∷ []
unfolding validate default_config text beq url_errors validate_listen_addr
zero_timeout_test = refl

parse_bool_test : parse_bool (text " Yes") ≡ some true
unfolding parse_bool text beq to_lower trim_space
parse_bool_test = refl
