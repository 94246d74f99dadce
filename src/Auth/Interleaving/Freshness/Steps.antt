-- ===== src/Auth/Interleaving/Freshness/Steps.antt =====
-- Every step of the interleaved `Validate` keeps the invariant.
use opencost_ai.Prelude.{
  ℕ, suc, ◌≤◌, ◌≡◌, ◌≢◌, refl, true, false, Option, none, some, arith, Bool-cases, inl, inr, is_nil,
  ◌∙◌, sym,
}
use opencost_ai.Text.{Bytes}
use opencost_ai.Auth.Source.{
  FileInfo, Source, is_unchanged, store, ValidateError, no_token, check_token,
}
use opencost_ai.Auth.Source.Validate.{check_token_iff}
use opencost_ai.Auth.Interleaving.{
  File, Phase, stated, waiting, locked, reading, has_read, reloaded, done, System, update, at,
  unlock, Step, rotate, stat_ok, stat_cached, stat_failed, check_same, check_changed, acquire,
  recheck_same, recheck_changed, read_ok, read_failed, put, compare, Reach, here, next,
}
use opencost_ai.Auth.Interleaving.Freshness.{
  Admitted, Good, Inv, Good-update, Good-Keeps, phase-Good, Inv-start,
}

-- Two versions of the file never have the same time and size.
abbrev pub IsDistinct : (ℕ → Option File) → Type 0
IsDistinct versions =
    (i j : ℕ) (f g : File)
    → versions i ≡ some f
    → versions j ≡ some g
    → f.info.mod_time ≡ g.info.mod_time
    → f.info.size ≡ g.info.size
    → i ≡ j

module _ (candidate : ℕ → Bytes) (versions : ℕ → Option File) where
  -- A step that moves one goroutine and perhaps the lock.
  Inv-move :
      {s : System} (t : ℕ) (p : Phase) (w : Option ℕ)
      → Inv candidate versions s
      → Good candidate versions (record s { writer = w }) t p
      → ((u : ℕ) → t ≢ u → s.writer ≡ some u → w ≡ some u)
      → Inv candidate versions (record s { writer = w; phase = update s.phase t p })
  Inv-move {s} t p w inv moved lock = record {
    good =
        Good-update candidate versions s (record s { writer = w; phase = update s.phase t p }) t p
          moved
          (λ u apart. record {
            now_le = omega arith;
            version_le = omega arith;
            loaded = λ h. h;
            lock = λ h. (lock u apart h, refl);
          })
          inv.good;
    version_le = inv.version_le;
    cached = inv.cached;
    unloaded = inv.unloaded;
  }

  is_unchanged_sound :
      (source : Source) (info : FileInfo)
      → is_unchanged source info ≡ true
      → (source.loaded ≡ true) × (info.mod_time ≡ source.mtime) × (info.size ≡ source.size)
  unfolding is_unchanged
  is_unchanged_sound source info h = ground arith

  -- Where the check finds the file unchanged, the cached content is no older than what it saw.
  unchanged-NotBefore :
      {s : System} {i : ℕ} {f : File}
      → IsDistinct versions
      → Inv candidate versions s
      → versions i ≡ some f
      → is_unchanged s.source f.info ≡ true
      → (i ≤ s.version) × (s.source.loaded ≡ true)
  unchanged-NotBefore {s} {i} {f} distinct inv seen same =
      let (loaded, at_time, of_size) = is_unchanged_sound s.source f.info same in
      let c = inv.cached loaded in
      let e =
        distinct i c.key_version f c.key_file seen c.key_on_disk (at_time ∙ c.mtime)
          (of_size ∙ c.size) in
      (omega (arith, e, c.key_not_after), loaded)

  cached-loaded :
      {s : System}
      → Inv candidate versions s
      → is_nil s.source.token ≡ false
      → s.source.loaded ≡ true
  cached-loaded {s} inv solid = elim (Bool-cases s.source.loaded) [
    | inl yes_loaded ↦ yes_loaded
    | inr never ↦ cc (rw (inv.unloaded never) at solid)
  ]

  Inv-rotate :
      {s : System}
      → Inv candidate versions s
      → Inv candidate versions (record s { now = suc s.now })
  Inv-rotate {s} inv = record {
    good = λ u.
        Good-Keeps candidate versions s (record s { now = suc s.now }) u (s.phase u)
          (record {
            now_le = omega arith;
            version_le = omega arith;
            loaded = λ h. h;
            lock = λ h. (h, refl);
          })
          (inv.good u);
    version_le = omega (arith, inv.version_le);
    cached = inv.cached;
    unloaded = inv.unloaded;
  }

  -- The write lock is held across the read and the assignments.
  Inv-put :
      {s : System} (t i j : ℕ) {f g : File}
      → Inv candidate versions s
      → s.phase t ≡ has_read i j
      → versions i ≡ some f
      → versions j ≡ some g
      → Inv candidate versions (
          at
            (unlock (record s { source = store s.source f.info g.content; version = j }))
            t
            (reloaded (some i)))
  unfolding store
  Inv-put {s} t i j {f} {g} inv e ef eg =
      let (i_le, j_le, newer, mine) = phase-Good candidate versions t inv e in
      record {
        good =
            Good-update candidate versions s
              (at (unlock (record s { source = store s.source f.info g.content; version = j })) t
                (reloaded (some i)))
              t (reloaded (some i)) (i_le, refl)
              (λ u apart. record {
                now_le = omega arith;
                version_le = newer;
                loaded = λ h. refl;
                lock = λ h. absurd (apart (cc (mine, h)));
              })
              inv.good;
        version_le = j_le;
        cached = λ h. record {
          key_version = i;
          key_file = f;
          file = g;
          key_on_disk = ef;
          on_disk = eg;
          key_not_after = i_le;
          mtime = refl;
          size = refl;
          token = refl;
        };
        unloaded = λ h. cc;
      }

  -- A lock that is free, or that `t` holds, is no other goroutine's.
  free : {w : Option ℕ} (u : ℕ) {w' : Option ℕ} → w ≡ none → w ≡ some u → w' ≡ some u
  free u e h = cc (e, h)

  mine : {w : Option ℕ} {t u : ℕ} {w' : Option ℕ} → w ≡ some t → t ≢ u → w ≡ some u → w' ≡ some u
  mine e apart h = absurd (apart (cc (e, h)))

  Inv-compare :
      {s : System} (t : ℕ) {seen : Option ℕ}
      → Inv candidate versions s
      → s.phase t ≡ reloaded seen
      → (r : Option ValidateError) → check_token (candidate t) s.source.token ≡ r
      → Good candidate versions s t (done seen r)
  Inv-compare {s} t {seen} inv e (some failure) h = tt
  Inv-compare {s} t {seen} inv e none h =
      let (newer, loaded) = phase-Good candidate versions t inv e in
      let (same, solid) = (check_token_iff (candidate t) s.source.token).0 h in
      let c = inv.cached loaded in
      record {
        version = s.version;
        file = c.file;
        on_disk = c.on_disk;
        not_before = newer;
        not_after = inv.version_le;
        same = same ∙ c.token;
        not_empty = λ blank. solid (sym same ∙ blank);
      }

  Inv-Step :
      {s s' : System}
      → IsDistinct versions
      → Step candidate versions s s'
      → Inv candidate versions s
      → Inv candidate versions s'
  Inv-Step {s} d rotate inv = Inv-rotate inv
  Inv-Step {s} d (stat_ok t e f) inv =
      Inv-move t (stated s.now) s.writer inv (omega arith) (λ u a h. h)
  Inv-Step {s} d (stat_cached t e w solid) inv =
      Inv-move t (reloaded none) s.writer inv (tt, cached-loaded inv solid) (λ u a h. h)
  Inv-Step {s} d (stat_failed t e w blank) inv =
      Inv-move t (done none (some no_token)) s.writer inv tt (λ u a h. h)
  Inv-Step {s} d (check_same t i e f w same) inv =
      Inv-move t (reloaded (some i)) s.writer inv (unchanged-NotBefore d inv f same) (λ u a h. h)
  Inv-Step {s} d (check_changed t i e f w changed) inv =
      Inv-move t (waiting i) s.writer inv (phase-Good candidate versions t inv e) (λ u a h. h)
  Inv-Step {s} d (acquire t i e w) inv =
      Inv-move t (locked i) (some t) inv (phase-Good candidate versions t inv e, refl)
        (λ u a h. free u w h)
  Inv-Step {s} d (recheck_same t i e f same) inv =
      Inv-move t (reloaded (some i)) none inv (unchanged-NotBefore d inv f same)
        (λ u a h. mine (phase-Good candidate versions t inv e).1 a h)
  Inv-Step {s} d (recheck_changed t i e f changed) inv =
      Inv-move t (reading i) s.writer inv (phase-Good candidate versions t inv e) (λ u a h. h)
  Inv-Step {s} d (read_ok t i e f) inv =
      let (seen_le, lock) = phase-Good candidate versions t inv e in
      Inv-move t (has_read i s.now) s.writer inv (seen_le, omega arith, inv.version_le, lock)
        (λ u a h. h)
  Inv-Step {s} d (read_failed t i e) inv =
      Inv-move t (done (some i) (some no_token)) none inv tt
        (λ u a h. mine (phase-Good candidate versions t inv e).1 a h)
  Inv-Step {s} d (put t i j e f g) inv = Inv-put t i j inv e f g
  Inv-Step {s} d (compare t {seen} e w) inv =
      Inv-move t (done seen (check_token (candidate t) s.source.token)) s.writer inv
        (Inv-compare t inv e _ refl) (λ u a h. h)

  pub Inv-Reach :
      {path : Bytes} {s : System}
      → IsDistinct versions
      → Reach candidate versions path s
      → Inv candidate versions s
  Inv-Reach {path} d here = Inv-start candidate versions path
  Inv-Reach d (next r st) = Inv-Step d st (Inv-Reach d r)

  -- However requests and rotations interleave: a request that `Validate` admits carries the trimmed,
  -- not empty content of a version of the token file that was on disk at the request's `os.Stat` or
  -- later (at any time, where `os.Stat` failed and the cached token was used). No two versions may
  -- share their time and size.
  pub Reach-Admitted :
      {path : Bytes} {s : System} {t : ℕ} {seen : Option ℕ}
      → IsDistinct versions
      → Reach candidate versions path s
      → s.phase t ≡ done seen none
      → Admitted candidate versions t seen s.now
  Reach-Admitted {t} d r e = phase-Good candidate versions t (Inv-Reach d r) e
