-- ===== src/Auth/Interleaving/Freshness.antt =====
-- What holds in every reachable state of the interleaved `Validate`.
pub mod Steps
use opencost_ai.Prelude.{
  ℕ, suc, ◌≤◌, ◌≡◌, ◌≢◌, refl, Bool, true, false, List, [], Option, none, some, arith, Bool-cases,
  inl, inr, ◌==◌, if◌then◌else◌, is_nil,
}
use opencost_ai.Text.{Bytes}
use opencost_ai.Text.Trim.{trim_right}
use opencost_ai.Auth.Source.{
  FileInfo, Source, new_source, is_unchanged, store, ValidateError, no_token, check_token,
  token_cutset,
}
use opencost_ai.Auth.Source.Validate.{check_token_iff}
use opencost_ai.Auth.Interleaving.{
  File, Phase, idle, stated, waiting, locked, reading, has_read, reloaded, done, System, update, at,
  unlock, start, Step, rotate, stat_ok, stat_cached, stat_failed, check_same, check_changed,
  acquire, recheck_same, recheck_changed, read_ok, read_failed, put, compare, Reach, here, next,
}

-- A lower bound on a version that was seen, if one was.
abbrev pub NotBefore : Option ℕ → ℕ → Type 0
NotBefore none n = Unit
NotBefore (some i) n = i ≤ n

module _ (candidate : ℕ → Bytes) (versions : ℕ → Option File) where
  -- The token that a goroutine was admitted with is the trimmed content of a version that was on
  -- disk at its `os.Stat` or later.
  pub record Admitted (t : ℕ) (seen : Option ℕ) (now : ℕ) : Type 0 where
    pub version : ℕ
    pub file : File
    pub on_disk : versions version ≡ some file
    pub not_before : NotBefore seen version
    pub not_after : version ≤ now
    pub same : candidate t ≡ trim_right token_cutset file.content
    pub not_empty : candidate t ≢ []

  abbrev Good : System → ℕ → Phase → Type 0
  Good s t idle = Unit
  Good s t (stated i) = i ≤ s.now
  Good s t (waiting i) = i ≤ s.now
  Good s t (locked i) = (i ≤ s.now) × (s.writer ≡ some t)
  Good s t (reading i) = (i ≤ s.now) × (s.writer ≡ some t)
  Good s t (has_read i j) = (i ≤ j) × (j ≤ s.now) × (s.version ≤ j) × (s.writer ≡ some t)
  Good s t (reloaded seen) = NotBefore seen s.version × (s.source.loaded ≡ true)
  Good s t (done seen none) = Admitted t seen s.now
  Good s t (done seen (some _)) = Unit

  -- Where the cached token and the cached time and size come from.
  record Cached (source : Source) (version : ℕ) : Type 0 where
    key_version : ℕ
    key_file : File
    file : File
    key_on_disk : versions key_version ≡ some key_file
    on_disk : versions version ≡ some file
    key_not_after : key_version ≤ version
    mtime : source.mtime ≡ key_file.info.mod_time
    size : source.size ≡ key_file.info.size
    token : source.token ≡ trim_right token_cutset file.content

  record Inv (s : System) : Type 0 where
    good : (t : ℕ) → Good s t (s.phase t)
    version_le : s.version ≤ s.now
    cached : s.source.loaded ≡ true → Cached s.source s.version
    unloaded : s.source.loaded ≡ false → s.source.token ≡ []

  -- How one goroutine's step may change what another one relies on.
  record Keeps (s s' : System) (u : ℕ) : Type 0 where
    now_le : s.now ≤ s'.now
    version_le : s.version ≤ s'.version
    loaded : s.source.loaded ≡ true → s'.source.loaded ≡ true
    lock : s.writer ≡ some u → (s'.writer ≡ some u) × (s'.version ≡ s.version)

  Admitted-le : {t : ℕ} {seen : Option ℕ} {n m : ℕ} → n ≤ m → Admitted t seen n → Admitted t seen m
  Admitted-le h a = record {
    version = a.version;
    file = a.file;
    on_disk = a.on_disk;
    not_before = a.not_before;
    not_after = omega (arith, a.not_after);
    same = a.same;
    not_empty = a.not_empty;
  }

  Good-Keeps : (s s' : System) (u : ℕ) (p : Phase) → Keeps s s' u → Good s u p → Good s' u p
  Good-Keeps s s' u idle k g = tt
  Good-Keeps s s' u (stated i) k g = omega (arith, k.now_le)
  Good-Keeps s s' u (waiting i) k g = omega (arith, k.now_le)
  Good-Keeps s s' u (locked i) k g = (omega (arith, k.now_le, g.0), (k.lock g.1).0)
  Good-Keeps s s' u (reading i) k g = (omega (arith, k.now_le, g.0), (k.lock g.1).0)
  Good-Keeps s s' u (has_read i j) k (a, b, c, d) =
      (a, omega (arith, k.now_le), omega (arith, (k.lock d).1), (k.lock d).0)
  Good-Keeps s s' u (reloaded none) k g = (tt, k.loaded g.1)
  Good-Keeps s s' u (reloaded (some i)) k g = (omega (arith, k.version_le, g.0), k.loaded g.1)
  Good-Keeps s s' u (done seen none) k g = Admitted-le k.now_le g
  Good-Keeps s s' u (done seen (some _)) k g = tt

  -- One goroutine moves to `p`, and the others keep what they rely on.
  Good-update :
      (s s' : System) (t : ℕ) (p : Phase)
      → Good s' t p
      → ((u : ℕ) → t ≢ u → Keeps s s' u)
      → ((u : ℕ) → Good s u (s.phase u))
      → (u : ℕ) → Good s' u (update s.phase t p u)
  unfolding update
  Good-update s s' t p moved keeps good u = elim (Bool-cases (t == u)) [
    | inl same ↦ let e : t ≡ u = ground arith in rw same (rw e at moved)
    | inr apart ↦ rw apart (Good-Keeps s s' u (s.phase u) (keeps u (ground arith)) (good u))
  ]

  phase-Good : {s : System} {p : Phase} (t : ℕ) → Inv s → s.phase t ≡ p → Good s t p
  phase-Good t inv e = rw e at (inv.good t)

  Inv-start : (path : Bytes) → Inv (start path)
  unfolding new_source
  Inv-start path = record {
    good = λ t. tt;
    version_le = omega arith;
    cached = λ h. cc;
    unloaded = λ h. refl;
  }
