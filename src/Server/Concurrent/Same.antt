-- ===== src/Server/Concurrent/Same.antt =====
-- The shared parts up to the order of metrics, of lines in the audit log and of calls.
use mathlib.Core.List.{Perm}
use mathlib.Core.List.Perm
use opencost_ai.Prelude.{
  ℕ, ◌≡◌, refl, sym, ◌∙◌, Bool, true, false, List, [], ◌∷◌, ◌++◌, append_assoc,
}
use opencost_ai.RateLimit.{RateLibrary, Limiter}
use opencost_ai.Audit.{Event, Logger, log, redact}
use opencost_ai.Server.Writer.{StatusWriter}
use opencost_ai.Server.World.{World}
use opencost_ai.Server.Script.{Act, sample, line, bridge, act, answered}

log-written :
    (now : ℕ) (works : Bool) (e : Event) (l m : Logger)
    → l.log_query ≡ m.log_query
    → Perm l.written m.written
    → Perm (log now works e l).1.written (log now works e m).1.written
unfolding log
log-written now true e l m h k = rw h (Perm.append_right (redact m.log_query now e ∷ []) k)
log-written now false e l m h k = k

log-log_query :
    (now : ℕ) (works : Bool) (e : Event) (l : Logger)
    → (log now works e l).1.log_query ≡ l.log_query
unfolding log
log-log_query now true e l = refl
log-log_query now false e l = refl

-- The last two elements may change places.
last_two {ℓ} :
    {A : Type ℓ} (xs : List A) (x y : A)
    → Perm ((xs ++ x ∷ []) ++ y ∷ []) ((xs ++ y ∷ []) ++ x ∷ [])
last_two xs x y = rw (append_assoc, append_assoc) (Perm.append_left xs (Perm.swap y x []))

module _ {lib : RateLibrary} where
  pub record Same (w v : World lib) : Type 0 where
    pub limiter : w.limiter ≡ v.limiter
    pub log_query : w.audit.log_query ≡ v.audit.log_query
    pub written : Perm w.audit.written v.audit.written
    pub metrics : Perm w.metrics v.metrics
    pub calls : Perm w.calls v.calls

  pub Same-refl : (w : World lib) → Same w w
  Same-refl w = record {
    limiter = refl;
    log_query = refl;
    written = Perm.refl w.audit.written;
    metrics = Perm.refl w.metrics;
    calls = Perm.refl w.calls;
  }

  pub Same-trans : (u v w : World lib) → Same u v → Same v w → Same u w
  Same-trans u v w h k = record {
    limiter = h.limiter ∙ k.limiter;
    log_query = h.log_query ∙ k.log_query;
    written = Perm.trans h.written k.written;
    metrics = Perm.trans h.metrics k.metrics;
    calls = Perm.trans h.calls k.calls;
  }

  pub Same-sym : (v w : World lib) → Same v w → Same w v
  Same-sym v w h = record {
    limiter = sym h.limiter;
    log_query = sym h.log_query;
    written = Perm.symm h.written;
    metrics = Perm.symm h.metrics;
    calls = Perm.symm h.calls;
  }

  pub answered-Same : (s : StatusWriter) (w : World lib) → Same (answered s w) w
  answered-Same s w = record {
    limiter = refl;
    log_query = refl;
    written = Perm.refl w.audit.written;
    metrics = Perm.refl w.metrics;
    calls = Perm.refl w.calls;
  }

  pub act-Same : (a : Act) (w v : World lib) → Same w v → Same (act a w) (act a v)
  unfolding act
  act-Same (sample x) w v h = record {
    limiter = h.limiter;
    log_query = h.log_query;
    written = h.written;
    metrics = Perm.append_right (x ∷ []) h.metrics;
    calls = h.calls;
  }
  act-Same (line now works e) w v h = record {
    limiter = h.limiter;
    log_query =
        log-log_query now works e w.audit ∙ h.log_query ∙ sym (log-log_query now works e v.audit);
    written = log-written now works e w.audit v.audit h.log_query h.written;
    metrics = h.metrics;
    calls = h.calls;
  }
  act-Same (bridge c) w v h = record {
    limiter = h.limiter;
    log_query = h.log_query;
    written = h.written;
    metrics = h.metrics;
    calls = Perm.append_right (c ∷ []) h.calls;
  }

  pub act-act : (a b : Act) (w : World lib) → Same (act a (act b w)) (act b (act a w))
  unfolding act log
  act-act (sample x) (sample y) w = record {
    limiter = refl;
    log_query = refl;
    written = Perm.refl w.audit.written;
    metrics = last_two w.metrics y x;
    calls = Perm.refl w.calls;
  }
  act-act (bridge x) (bridge y) w = record {
    limiter = refl;
    log_query = refl;
    written = Perm.refl w.audit.written;
    metrics = Perm.refl w.metrics;
    calls = last_two w.calls y x;
  }
  act-act (line m true d) (line n true e) w = record {
    limiter = refl;
    log_query = refl;
    written =
        last_two w.audit.written (redact w.audit.log_query n e) (redact w.audit.log_query m d);
    metrics = Perm.refl w.metrics;
    calls = Perm.refl w.calls;
  }
  act-act (line m true d) (line n false e) w = Same-refl _
  act-act (line m false d) (line n true e) w = Same-refl _
  act-act (line m false d) (line n false e) w = Same-refl _
  act-act (line m works d) (sample y) w = Same-refl _
  act-act (line m works d) (bridge y) w = Same-refl _
  act-act (sample x) (line n works e) w = Same-refl _
  act-act (sample x) (bridge y) w = Same-refl _
  act-act (bridge x) (line n works e) w = Same-refl _
  act-act (bridge x) (sample y) w = Same-refl _

  pub act-limiter : (a : Act) (w : World lib) → (act a w).limiter ≡ w.limiter
  unfolding act
  act-limiter (sample x) w = refl
  act-limiter (line now works e) w = refl
  act-limiter (bridge c) w = refl

  pub act-relimited :
      (a : Act) (l : Limiter lib) (w : World lib)
      → act a (record w { limiter = l }) ≡ record (act a w) { limiter = l }
  unfolding act
  act-relimited (sample x) l w = refl
  act-relimited (line now works e) l w = refl
  act-relimited (bridge c) l w = refl
