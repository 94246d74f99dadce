-- ===== src/Server/New/Complete.antt =====
-- What `New` asks for, and what it makes of it.
use opencost_ai.Prelude.{
  ◌≡◌, ◌↔◌, refl, Bool, true, false, not, Option, none, some, ok, ap, sym, value_of, bind-ok,
  is_nil,
}
use opencost_ai.Prelude.Int.{is_positive}
use opencost_ai.RateLimit.{RateLibrary}
use opencost_ai.Server.New.{
  Options, Handlers, OptionError, no_bridge, no_auth_validator, no_default_model,
  bad_max_request_bytes, no_audit, no_rate_limiter, no_metrics, bad_request_timeout, required,
  checked, logger_or, new,
}

required-ok :
    {A : Type 0} (e : OptionError) (o : Option A) (a : A) → required e o ≡ ok a → o ≡ some a
required-ok e none a h = cc
required-ok e (some b) a h = ap some (sym (value_of h))

checked-ok :
    {A : Type 0} (e : OptionError) (b : Bool) (a c : A)
    → checked e b a ≡ ok c
    → (b ≡ true) × (a ≡ c)
checked-ok e true a c h = (refl, sym (value_of h))
checked-ok e false a c h = cc

filled : {b : Bool} → not b ≡ true → b ≡ false
filled {b = true} h = cc
filled {b = false} h = refl

module _ {lib : RateLibrary} {B V L : Type 0} where
  -- Nothing is missing, and the handlers hold it.
  pub record IsComplete (d : L) (o : Options lib B V L) (h : Handlers lib B V L) : Type 0 where
    pub bridge : o.bridge ≡ some h.bridge
    pub auth_validator : o.auth_validator ≡ some h.auth_validator
    pub audit : o.audit ≡ some h.audit
    pub limiter : o.rate_limiter ≡ some h.limiter
    pub metrics : o.metrics ≡ some h.metrics
    pub model : o.default_model ≡ h.default_model
    pub filled : is_nil o.default_model ≡ false
    pub size : o.max_request_bytes ≡ h.max_request_bytes
    pub positive : is_positive o.max_request_bytes ≡ true
    pub timeout : o.request_timeout ≡ h.request_timeout
    pub timeout_positive : is_positive o.request_timeout ≡ true
    pub logger : logger_or d o.logger ≡ h.logger

  IsComplete-new :
      (d : L) (o : Options lib B V L) (h : Handlers lib B V L) → IsComplete d o h → new d o ≡ ok h
  unfolding new
  IsComplete-new d o h c =
      rw
        (
          new, c.bridge, c.auth_validator, c.filled, c.positive, c.audit, c.limiter, c.metrics,
          c.timeout_positive,
        )
        (rw (c.model, c.size, c.timeout, c.logger) refl)

  new-IsComplete :
      (d : L) (o : Options lib B V L) (h : Handlers lib B V L) → new d o ≡ ok h → IsComplete d o h
  unfolding new
  new-IsComplete d o h e =
      let (b, eb, e1) = bind-ok (required no_bridge o.bridge) _ _ e in
      let (v, ev, e2) = bind-ok (required no_auth_validator o.auth_validator) _ _ e1 in
      let (m, em, e3) = bind-ok (checked no_default_model _ o.default_model) _ _ e2 in
      let (s, es, e4) = bind-ok (checked bad_max_request_bytes _ o.max_request_bytes) _ _ e3 in
      let (a, ea, e5) = bind-ok (required no_audit o.audit) _ _ e4 in
      let (l, el, e6) = bind-ok (required no_rate_limiter o.rate_limiter) _ _ e5 in
      let (g, eg, e7) = bind-ok (required no_metrics o.metrics) _ _ e6 in
      let (t, et, e8) = bind-ok (checked bad_request_timeout _ o.request_timeout) _ _ e7 in
      let (mf, me) = checked-ok _ _ _ m em in
      let (sp, se) = checked-ok _ _ _ s es in
      let (tp, te) = checked-ok _ _ _ t et in
      let same = value_of e8 in
      rw same (record {
        bridge = required-ok _ _ b eb;
        auth_validator = required-ok _ _ v ev;
        audit = required-ok _ _ a ea;
        limiter = required-ok _ _ l el;
        metrics = required-ok _ _ g eg;
        model = me;
        filled = filled mf;
        size = se;
        positive = sp;
        timeout = te;
        timeout_positive = tp;
        logger = refl;
      })

  -- `New` succeeds exactly if no required option is missing or out of range, and the handlers then
  -- hold each of them, with the default logger where none is given.
  pub new_iff :
      (d : L) (o : Options lib B V L) (h : Handlers lib B V L) → (new d o ≡ ok h) ↔ IsComplete d o h
  new_iff d o h = (new-IsComplete d o h, IsComplete-new d o h)
