-- ===== src/Server/Script/Plain.antt =====
-- Code without the rate limiter, as steps.
use opencost_ai.Prelude.{
  ◌≡◌, refl, ap, ◌∙◌, sym, Bool, true, false, List, [], ◌∷◌, ◌++◌, if◌then◌else◌,
}
use opencost_ai.Prelude.Int.{ℤ, is_positive}
use opencost_ai.Text.{Bytes, text}
use opencost_ai.RateLimit.{RateLibrary}
use opencost_ai.Audit.{Event, log}
use opencost_ai.Metrics.{Sample, model_tokens, tool_calls, tool_duration, upstream_errors}
use opencost_ai.Api
use opencost_ai.Server.Writer.{StatusWriter}
use opencost_ai.Server.World.{
  World, Call, Request, UpstreamError, observe, call, respond, log_audit,
}
use opencost_ai.Server.Observe.{
  sanitize_tool_name_label, error_kind, observe_tokens, observe_tool_calls, record_upstream_error,
}
use opencost_ai.Server.Script.{Act, sample, line, bridge, act, perform, answered, Fixed}

module _ {lib : RateLibrary} where
  pub perform-append :
      (xs bs : List Act) (w : World lib) → perform (xs ++ bs) w ≡ perform bs (perform xs w)
  unfolding perform
  perform-append [] bs w = refl
  perform-append (a ∷ xs) bs w = perform-append xs bs (act a w)

  -- A step does not look at the response.
  act-answered :
      (a : Act) (s : StatusWriter) (w : World lib) → act a (answered s w) ≡ answered s (act a w)
  unfolding act
  act-answered (sample x) s w = refl
  act-answered (line now sink_works e) s w = refl
  act-answered (bridge c) s w = refl

  pub perform-answered :
      (xs : List Act) (s : StatusWriter) (w : World lib)
      → perform xs (answered s w) ≡ answered s (perform xs w)
  unfolding perform
  perform-answered [] s w = refl
  perform-answered (a ∷ xs) s w =
      ap (perform xs) (act-answered a s w) ∙ perform-answered xs s (act a w)

  act-writer : (a : Act) (w : World lib) → (act a w).writer ≡ w.writer
  unfolding act
  act-writer (sample x) w = refl
  act-writer (line now sink_works e) w = refl
  act-writer (bridge c) w = refl

  perform-writer : (xs : List Act) (w : World lib) → (perform xs w).writer ≡ w.writer
  unfolding perform
  perform-writer [] w = refl
  perform-writer (a ∷ xs) w = perform-writer xs (act a w) ∙ act-writer a w

  act-Fixed :
      (flag : Bool) (limit : ℤ) (a : Act) (w : World lib)
      → Fixed flag limit w
      → Fixed flag limit (act a w)
  unfolding act log
  act-Fixed flag limit (sample x) w h = record {
    log_query = h.log_query;
    per_minute = h.per_minute;
  }
  act-Fixed flag limit (line now true e) w h = record {
    log_query = h.log_query;
    per_minute = h.per_minute;
  }
  act-Fixed flag limit (line now false e) w h = record {
    log_query = h.log_query;
    per_minute = h.per_minute;
  }
  act-Fixed flag limit (bridge c) w h = record {
    log_query = h.log_query;
    per_minute = h.per_minute;
  }

  pub perform-Fixed :
      (flag : Bool) (limit : ℤ) (xs : List Act) (w : World lib)
      → Fixed flag limit w
      → Fixed flag limit (perform xs w)
  unfolding perform
  perform-Fixed flag limit [] w h = h
  perform-Fixed flag limit (a ∷ xs) w h =
      perform-Fixed flag limit xs (act a w) (act-Fixed flag limit a w h)

  pub act-same : (a : Act) (w : World lib) → act a w ≡ answered w.writer (act a w)
  unfolding act
  act-same (sample x) w = refl
  act-same (line now sink_works e) w = refl
  act-same (bridge c) w = refl

  -- These steps, in a row, on every world with the flag and the limit; and what becomes of the response.
  pub record Plain (flag : Bool) (limit : ℤ) (f : World lib → World lib) : Type 0 where
    pub acts : StatusWriter → List Act
    pub writer : StatusWriter → StatusWriter
    pub runs :
        (w : World lib)
        → Fixed flag limit w
        → f w ≡ answered (writer w.writer) (perform (acts w.writer) w)

  module _ {flag : Bool} {limit : ℤ} where
    unfoldable pub respond-Plain : (f : StatusWriter → StatusWriter) → Plain flag limit (respond f)
    unfolding perform
    respond-Plain f = record { acts = λ s. []; writer = f; runs = λ w h. refl }

    unfoldable pub act-Plain : (a : Act) → Plain flag limit (act a)
    unfolding perform
    act-Plain a = record { acts = λ s. a ∷ []; writer = λ s. s; runs = λ w h. act-same a w }

    unfoldable pub then-Plain :
        (f g : World lib → World lib)
        → Plain flag limit f
        → Plain flag limit g
        → Plain flag limit (λ w. g (f w))
    then-Plain f g p q = record {
      acts = λ s. p.acts s ++ q.acts (p.writer s);
      writer = λ s. q.writer (p.writer s);
      runs = λ w h.
          let s = w.writer in
          let u = perform (p.acts s) w in
          let fixed = perform-Fixed flag limit (p.acts s) w h in
          ap g (p.runs w h)
          ∙ q.runs (answered (p.writer s) u)
              (record { log_query = fixed.log_query; per_minute = fixed.per_minute })
          ∙ ap (answered (q.writer (p.writer s))) (
              perform-answered (q.acts (p.writer s)) (p.writer s) u
              ∙ ap (answered (p.writer s))
                  (sym (perform-append (p.acts s) (q.acts (p.writer s)) w)));
    }

    unfoldable pub branch-Plain :
        (b : Bool) (f g : World lib → World lib)
        → Plain flag limit f
        → Plain flag limit g
        → Plain flag limit (λ w. if b then f w else g w)
    branch-Plain true f g p q = p
    branch-Plain false f g p q = q

    unfoldable pub same-Plain :
        (f g : World lib → World lib)
        → ((w : World lib) → Fixed flag limit w → f w ≡ g w)
        → Plain flag limit g
        → Plain flag limit f
    same-Plain f g e p = record {
      acts = p.acts;
      writer = p.writer;
      runs = λ w h. e w h ∙ p.runs w h;
    }

    unfoldable pub id-Plain : Plain flag limit (λ w. w)
    unfolding perform
    id-Plain = record { acts = λ s. []; writer = λ s. s; runs = λ w h. refl }

    unfoldable pub observe-Plain : (x : Sample) → Plain flag limit (observe x)
    unfolding act act-Plain
    observe-Plain x = act-Plain (sample x)

    unfoldable pub call-Plain : (c : Call) → Plain flag limit (call c)
    unfolding act act-Plain
    call-Plain c = act-Plain (bridge c)

    unfoldable pub log_audit-Plain : (r : Request) (e : Event) → Plain flag limit (log_audit r e)
    unfolding act log_audit act-Plain
    log_audit-Plain r e = act-Plain (line r.now r.sink_works e)

    observe_if-Plain :
        (b : Bool) (x : Sample) → Plain flag limit (λ w. if b then observe x w else w)
    unfolding branch-Plain id-Plain observe-Plain
    observe_if-Plain b x = branch-Plain b (observe x) (λ w. w) (observe-Plain x) id-Plain

    unfoldable pub observe_tokens-Plain :
        (model : Bytes) (prompt completion : ℤ)
        → Plain flag limit (observe_tokens model prompt completion)
    unfolding observe_tokens observe_if-Plain then-Plain
    observe_tokens-Plain model prompt completion =
        then-Plain _ _
          (observe_if-Plain (is_positive prompt) (model_tokens model (text "prompt") prompt))
          (observe_if-Plain (is_positive completion)
            (model_tokens model (text "completion") completion))

    unfoldable pub observe_tool_calls-Plain :
        (tcs : List Api.ToolCall) → Plain flag limit (observe_tool_calls tcs)
    unfolding observe_tool_calls id-Plain observe-Plain observe_if-Plain then-Plain
    observe_tool_calls-Plain [] = id-Plain
    observe_tool_calls-Plain (tc ∷ tcs) =
        let name = sanitize_tool_name_label tc.name in
        then-Plain _ (observe_tool_calls tcs)
          (then-Plain (observe (tool_calls name)) _ (observe-Plain (tool_calls name))
            (observe_if-Plain (is_positive tc.duration_ms) (tool_duration name tc.duration_ms)))
          (observe_tool_calls-Plain tcs)

    unfoldable pub record_upstream_error-Plain :
        (op : Bytes) (e : UpstreamError) → Plain flag limit (record_upstream_error op e)
    unfolding record_upstream_error observe-Plain
    record_upstream_error-Plain op e = observe-Plain (upstream_errors op (error_kind e))
