-- ===== src/Auth/Interleaving.antt =====
-- `Validate` by many goroutines at once, while the token file is rotated: the steps between the
-- locks of `reloadIfChanged`, in any order.
pub mod Freshness
use opencost_ai.Prelude.{
  ℕ, suc, ◌+◌, ◌≡◌, Bool, true, false, List, [], Option, none, some, ◌==◌, if◌then◌else◌, is_nil,
}
use opencost_ai.Text.{Bytes}
use opencost_ai.Auth.Source.{
  FileInfo, Source, new_source, is_unchanged, store, ValidateError, no_token, check_token,
}

-- One state of the token file, between two rotations.
pub record File : Type 0 where
  pub info : FileInfo
  pub content : Bytes

-- Where a goroutine stands in `Validate`. What it holds of the file is given by the number of the
-- version that it saw: `seen` at `os.Stat` (`none` where that failed), and `got` at `os.ReadFile`.
pub data Phase : Type 0 where
  idle : Phase
  stated waiting locked reading : ℕ → Phase
  has_read : (seen got : ℕ) → Phase
  reloaded : Option ℕ → Phase
  done : Option ℕ → Option ValidateError → Phase

-- `now` is the version on disk and `writer` the goroutine in the write lock. `version` is for the
-- proofs alone: the version whose content is cached.
pub record System : Type 0 where
  pub source : Source
  pub version : ℕ
  pub now : ℕ
  pub writer : Option ℕ
  pub phase : ℕ → Phase

unfoldable pub update : (ℕ → Phase) → ℕ → Phase → ℕ → Phase
update f t p u = if t == u then p else f u

abbrev pub at : System → ℕ → Phase → System
at s t p = record s { phase = update s.phase t p }

-- the deferred `mu.Unlock()`
abbrev pub unlock : System → System
unlock s = record s { writer = none }

abbrev pub start : Bytes → System
start path = record {
  source = new_source path;
  version = 0;
  now = 0;
  writer = none;
  phase = λ t. idle;
}

-- `candidate t` is the token that goroutine `t` checks, `versions n` the file between two
-- rotations, `none` where it is missing.
module _ (candidate : ℕ → Bytes) (versions : ℕ → Option File) where
  pub data Step (s : System) : System → Type 0 where
    rotate : Step s (record s { now = suc s.now })
    stat_ok :
        (t : ℕ) {f : File}
        → s.phase t ≡ idle
        → versions s.now ≡ some f
        → Step s (at s t (stated s.now))
    stat_cached :
        (t : ℕ)
        → s.phase t ≡ idle
        → s.writer ≡ none
        → is_nil s.source.token ≡ false
        → Step s (at s t (reloaded none))
    stat_failed :
        (t : ℕ)
        → s.phase t ≡ idle
        → s.writer ≡ none
        → is_nil s.source.token ≡ true
        → Step s (at s t (done none (some no_token)))
    check_same :
        (t i : ℕ) {f : File}
        → s.phase t ≡ stated i
        → versions i ≡ some f
        → s.writer ≡ none
        → is_unchanged s.source f.info ≡ true
        → Step s (at s t (reloaded (some i)))
    check_changed :
        (t i : ℕ) {f : File}
        → s.phase t ≡ stated i
        → versions i ≡ some f
        → s.writer ≡ none
        → is_unchanged s.source f.info ≡ false
        → Step s (at s t (waiting i))
    acquire :
        (t i : ℕ)
        → s.phase t ≡ waiting i
        → s.writer ≡ none
        → Step s (at (record s { writer = some t }) t (locked i))
    recheck_same :
        (t i : ℕ) {f : File}
        → s.phase t ≡ locked i
        → versions i ≡ some f
        → is_unchanged s.source f.info ≡ true
        → Step s (at (unlock s) t (reloaded (some i)))
    recheck_changed :
        (t i : ℕ) {f : File}
        → s.phase t ≡ locked i
        → versions i ≡ some f
        → is_unchanged s.source f.info ≡ false
        → Step s (at s t (reading i))
    read_ok :
        (t i : ℕ) {g : File}
        → s.phase t ≡ reading i
        → versions s.now ≡ some g
        → Step s (at s t (has_read i s.now))
    read_failed :
        (t i : ℕ) → s.phase t ≡ reading i → Step s (at (unlock s) t (done (some i) (some no_token)))
    put :
        (t i j : ℕ) {f g : File}
        → s.phase t ≡ has_read i j
        → versions i ≡ some f
        → versions j ≡ some g
        → Step s (
            at
              (unlock (record s { source = store s.source f.info g.content; version = j }))
              t
              (reloaded (some i)))
    compare :
        (t : ℕ) {seen : Option ℕ}
        → s.phase t ≡ reloaded seen
        → s.writer ≡ none
        → Step s (at s t (done seen (check_token (candidate t) s.source.token)))

  pub data Reach (path : Bytes) : System → Type 0 where
    here : Reach path (start path)
    next : {s s' : System} → Reach path s → Step s s' → Reach path s'
