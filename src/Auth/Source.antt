-- ===== src/Auth/Source.antt =====
-- internal/auth/source.go: the token file and its cached content.
pub mod Validate
use opencost_ai.Prelude.{
  ℕ, Bool, true, false, not, ◌&&◌, List, [], ◌∷◌, Option, none, some, Result, ok, err, ◌==◌,
  if◌then◌else◌, is_nil,
}
use opencost_ai.Text.{Bytes, beq}
use opencost_ai.Text.Trim.{trim_right}

-- What `os.Stat` tells of the file: its modification time and its size.
pub record FileInfo : Type 0 where
  pub mod_time : ℕ
  pub size : ℕ

pub record Source : Type 0 where
  pub path : Bytes
  pub token : Bytes
  pub mtime : ℕ
  pub size : ℕ
  pub loaded : Bool

-- the zero `time.Time` is instant 0
unfoldable pub new_source : Bytes → Source
new_source path = record { path = path; token = []; mtime = 0; size = 0; loaded = false }

-- what a wrapped error `errors.Is`; `other` is any error of another validator
pub data ValidateError : Type 0 where
  no_token invalid_token other : ValidateError

-- the test that `reloadIfChanged` makes under the read lock and again under the write lock
unfoldable pub is_unchanged : Source → FileInfo → Bool
is_unchanged s info = s.loaded && info.mod_time == s.mtime && info.size == s.size

-- "\r\n\t "
abbrev pub token_cutset : Bytes
token_cutset = b'\r' ∷ b'\n' ∷ b'\t' ∷ b' ' ∷ []

-- the assignments behind a read
unfoldable pub store : Source → FileInfo → Bytes → Source
store s info raw = record s {
  token = trim_right token_cutset raw;
  mtime = info.mod_time;
  size = info.size;
  loaded = true;
}

-- `reloadIfChanged` by one goroutine. `stat` is the result of `os.Stat` and `read` what
-- `os.ReadFile` returns if it is called; `none` is an error.
unfoldable pub reload_if_changed :
    Option FileInfo → Option Bytes → Source → Option ValidateError × Source
reload_if_changed none read s = if not (is_nil s.token) then (none, s) else (some no_token, s)
reload_if_changed (some info) read s =
    if is_unchanged s info
    then (none, s)
    else elim read [ none ↦ (some no_token, s) | some raw ↦ (none, store s info raw) ]

-- the part of `Validate` behind the reload
unfoldable pub check_token : Bytes → Bytes → Option ValidateError
unfolding beq
check_token candidate token =
    if is_nil token then some no_token else if beq candidate token then none else some invalid_token

unfoldable pub validate :
    Bytes → Option FileInfo → Option Bytes → Source → Option ValidateError × Source
validate candidate stat read s =
    let (failure, s') = reload_if_changed stat read s in
    elim failure [ some e ↦ (some e, s') | none ↦ (check_token candidate s'.token, s') ]
