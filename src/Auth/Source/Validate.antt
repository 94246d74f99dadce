-- ===== src/Auth/Source/Validate.antt =====
-- `Validate` by one goroutine.
use opencost_ai.Prelude.{
  ◌≡◌, ◌≢◌, refl, true, false, [], ◌∷◌, Option, none, some, arith, is_nil-eq, ◌↔◌, if◌then◌else◌,
}
use opencost_ai.Text.{Bytes}
use opencost_ai.Text.Laws.{beq_iff}
use opencost_ai.Text.Trim.{trim_right}
use opencost_ai.Auth.Source.{
  FileInfo, Source, is_unchanged, token_cutset, store, reload_if_changed, check_token, validate,
}

-- The token in force: what the file holds if it could be read, else what was read last.
abbrev pub in_force : Option FileInfo → Option Bytes → Source → Option Bytes
in_force none read s = some s.token
in_force (some info) read s =
    if is_unchanged s info
    then some s.token
    else elim read [ none ↦ none | some raw ↦ some (trim_right token_cutset raw) ]

pub check_token_iff :
    (candidate token : Bytes)
    → (check_token candidate token ≡ none) ↔ ((candidate ≡ token) × (token ≢ []))
unfolding check_token
check_token_iff candidate [] = ground arith
check_token_iff candidate (c ∷ s) = ground (arith, beq_iff candidate (c ∷ s))

store-token :
    (s : Source) (info : FileInfo) (raw : Bytes)
    → (store s info raw).token ≡ trim_right token_cutset raw
unfolding store
store-token s info raw = refl

is_unchanged-store :
    (s : Source) (info : FileInfo) (raw : Bytes) → is_unchanged (store s info raw) info ≡ true
unfolding store is_unchanged
is_unchanged-store s info raw = ground arith

-- `Validate` accepts exactly the token in force (what the file holds if it has changed and can be read,
-- the cached one if it has not changed or cannot be found), and never an empty one.
pub validate-accepts_iff :
    (candidate : Bytes) (stat : Option FileInfo) (read : Option Bytes) (s : Source)
    → ((validate candidate stat read s).0 ≡ none)
      ↔ ((in_force stat read s ≡ some candidate) × (candidate ≢ []))
unfolding validate reload_if_changed
validate-accepts_iff candidate none read s =
    ground (arith, check_token_iff candidate s.token, is_nil-eq s.token)
validate-accepts_iff candidate (some info) none s =
    ground (arith, check_token_iff candidate s.token)
validate-accepts_iff candidate (some info) (some raw) s = ground (
  arith,
  check_token_iff candidate s.token,
  check_token_iff candidate (store s info raw).token,
  store-token s info raw,
)

-- A file whose time or size has changed is read: from then on its trimmed content is the token,
-- and as long as the file keeps that time and size it is not read again.
pub validate_rotates :
    (candidate candidate' raw : Bytes) (info : FileInfo) (read : Option Bytes) (s : Source)
    → is_unchanged s info ≡ false
    → let s' = (validate candidate (some info) (some raw) s).1 in
      (s'.token ≡ trim_right token_cutset raw)
      × ((validate candidate' (some info) read s').1 ≡ s')
      × ((validate candidate' (some info) read s').0
          ≡ check_token candidate' (trim_right token_cutset raw))
unfolding validate reload_if_changed store
validate_rotates candidate candidate' raw info read s changed =
    ground (arith, is_unchanged-store s info raw)
