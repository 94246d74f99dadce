-- ===== src/Server/Observe/Effects.antt =====
-- What is observed reaches the metrics alone.
use opencost_ai.Prelude.{◌≡◌, refl, ◌∙◌, Bool, true, false, List, [], ◌∷◌, if◌then◌else◌}
use opencost_ai.Prelude.Int.{ℤ, is_positive}
use opencost_ai.Text.{Bytes}
use opencost_ai.RateLimit.{RateLibrary}
use opencost_ai.Api
use opencost_ai.Metrics.{Sample, tool_calls, tool_duration}
use opencost_ai.Server.World.{World, observe}
use opencost_ai.Server.Observe.{observe_tokens, observe_tool_calls, sanitize_tool_name_label}

module _ {lib : RateLibrary} where
  -- All but the metrics is the same.
  pub record Observed (w w' : World lib) : Type 0 where
    pub writer : w'.writer ≡ w.writer
    pub audit : w'.audit ≡ w.audit
    pub calls : w'.calls ≡ w.calls
    pub limiter : w'.limiter ≡ w.limiter

  pub Observed-trans : (u v w : World lib) → Observed u v → Observed v w → Observed u w
  Observed-trans u v w h k = record {
    writer = k.writer ∙ h.writer;
    audit = k.audit ∙ h.audit;
    calls = k.calls ∙ h.calls;
    limiter = k.limiter ∙ h.limiter;
  }

  observe_if-Observed :
      (b : Bool) (s : Sample) (w : World lib) → Observed w (if b then observe s w else w)
  observe_if-Observed true s w = record {
    writer = refl;
    audit = refl;
    calls = refl;
    limiter = refl;
  }
  observe_if-Observed false s w = record {
    writer = refl;
    audit = refl;
    calls = refl;
    limiter = refl;
  }

  pub observe_tokens-Observed :
      (model : Bytes) (prompt completion : ℤ) (w : World lib)
      → Observed w (observe_tokens model prompt completion w)
  unfolding observe_tokens
  observe_tokens-Observed model prompt completion w =
      Observed-trans w _ _ (observe_if-Observed (is_positive prompt) _ w)
        (observe_if-Observed (is_positive completion) _ _)

  pub observe_tool_calls-Observed :
      (tcs : List Api.ToolCall) (w : World lib) → Observed w (observe_tool_calls tcs w)
  unfolding observe_tool_calls
  observe_tool_calls-Observed [] w = record {
    writer = refl;
    audit = refl;
    calls = refl;
    limiter = refl;
  }
  observe_tool_calls-Observed (tc ∷ tcs) w =
      let name = sanitize_tool_name_label tc.name in
      let w' = observe (tool_calls name) w in
      let w'' =
        if is_positive tc.duration_ms then observe (tool_duration name tc.duration_ms) w' else w' in
      Observed-trans w w'' (observe_tool_calls tcs w'')
        (Observed-trans w w' w'' (observe_if-Observed true (tool_calls name) w)
          (observe_if-Observed (is_positive tc.duration_ms) (tool_duration name tc.duration_ms) w'))
        (observe_tool_calls-Observed tcs w'')
