-- ===== src/Auth/Tests.antt =====
-- Tests of the token check.
use opencost_ai.Prelude.{ℕ, zero, suc, ◌≡◌, ◌≢◌, ◌↔◌, refl, false, [], ◌∷◌, Option, none, some, ok}
use opencost_ai.Text.{Bytes, text, cut, equal_fold}
use opencost_ai.Text.Trim.{trim_space, trim_right}
use opencost_ai.Auth.Header.{extract_bearer}
use opencost_ai.Auth.Header.Laws.{Bears, IsScheme, extract_bearer_iff}
use opencost_ai.Auth.Source.{
  FileInfo, Source, new_source, is_unchanged, store, reload_if_changed, check_token, validate,
  token_cutset,
}
use opencost_ai.Auth.Source.Validate.{in_force, validate-accepts_iff, validate_rotates}
use opencost_ai.Auth.Interleaving.{
  File, stated, waiting, locked, reading, has_read, reloaded, done, System, update, at, unlock,
  start, stat_ok, check_changed, acquire, recheck_changed, read_ok, put, compare, Reach, here, next,
}
use opencost_ai.Auth.Interleaving.Freshness.{Admitted}
use opencost_ai.Auth.Interleaving.Freshness.Steps.{IsDistinct, Reach-Admitted}

abbrev k1 : Bytes
k1 = 107 ∷ 49 ∷ []

-- "BeaReR  k1\t"
abbrev header : Bytes
header = 66 ∷ 101 ∷ 97 ∷ 82 ∷ 101 ∷ 82 ∷ 32 ∷ 32 ∷ 107 ∷ 49 ∷ 9 ∷ []

extract_bearer_test : extract_bearer header ≡ ok (107 ∷ 49 ∷ [])
unfolding extract_bearer cut equal_fold text trim_space
extract_bearer_test = refl

extract_bearer_iff_example :
    (extract_bearer header ≡ ok (107 ∷ 49 ∷ [])) ↔ Bears header (107 ∷ 49 ∷ [])
extract_bearer_iff_example = extract_bearer_iff header (107 ∷ 49 ∷ [])

mixed_case-IsScheme : IsScheme (66 ∷ 101 ∷ 97 ∷ 82 ∷ 101 ∷ 82 ∷ [])
unfolding text
mixed_case-IsScheme = refl

abbrev key_info : FileInfo
key_info = record { mod_time = 5; size = 3 }

abbrev raw_key : Bytes
raw_key = 107 ∷ 49 ∷ 10 ∷ []

abbrev empty_source : Source
empty_source = record { path = []; token = []; mtime = 0; size = 0; loaded = false }

validate_test : (validate (107 ∷ 49 ∷ []) (some key_info) (some raw_key) empty_source).0 ≡ none
unfolding validate reload_if_changed is_unchanged store check_token trim_right
validate_test = refl

validate-accepts_iff_example :
    ((validate (107 ∷ 49 ∷ []) (some key_info) (some raw_key) empty_source).0 ≡ none)
    ↔ ((in_force (some key_info) (some raw_key) empty_source ≡ some k1) × (k1 ≢ []))
validate-accepts_iff_example =
    validate-accepts_iff (107 ∷ 49 ∷ []) (some key_info) (some raw_key) empty_source

first_read : is_unchanged empty_source key_info ≡ false
unfolding is_unchanged
first_read = refl

validate_rotates_example :
    let s' = (validate [] (some key_info) (some raw_key) empty_source).1 in
    (s'.token ≡ trim_right token_cutset raw_key)
    × ((validate (1 ∷ []) (some key_info) none s').1 ≡ s')
    × ((validate (1 ∷ []) (some key_info) none s').0
        ≡ check_token (1 ∷ []) (trim_right token_cutset raw_key))
validate_rotates_example =
    validate_rotates [] (1 ∷ []) raw_key key_info none empty_source first_read

-- One file, and one request that reads it.
abbrev versions : ℕ → Option File
versions zero = some (record { info = key_info; content = raw_key })
versions (suc n) = none

versions-IsDistinct : IsDistinct versions
versions-IsDistinct zero zero f g e e' t s = refl
versions-IsDistinct zero (suc j) f g e e' t s = cc
versions-IsDistinct (suc i) j f g e e' t s = cc

abbrev candidate : ℕ → Bytes
candidate t = 107 ∷ 49 ∷ []

abbrev began : System
began = start []

abbrev after_stat : System
after_stat = at began 0 (stated 0)

abbrev after_check : System
after_check = at after_stat 0 (waiting 0)

abbrev after_acquire : System
after_acquire = at (record after_check { writer = some 0 }) 0 (locked 0)

abbrev after_recheck : System
after_recheck = at after_acquire 0 (reading 0)

abbrev after_read : System
after_read = at after_recheck 0 (has_read 0 0)

abbrev after_put : System
after_put =
    at
      (unlock
        (record after_read { source = store after_read.source key_info raw_key; version = 0 }))
      0 (reloaded (some 0))

abbrev admitted : System
admitted = at after_put 0 (done (some 0) (check_token (candidate 0) after_put.source.token))

admitted-Reach : Reach candidate versions [] admitted
unfolding update new_source is_unchanged
admitted-Reach =
    next
      (next
        (next
          (next
            (next (next (next here (stat_ok 0 refl refl)) (check_changed 0 0 refl refl refl refl))
              (acquire 0 0 refl refl))
            (recheck_changed 0 0 refl refl refl))
          (read_ok 0 0 refl refl))
        (put 0 0 0 refl refl refl))
      (compare 0 refl refl)

admitted_done : admitted.phase 0 ≡ done (some 0) none
unfolding update store check_token trim_right
admitted_done = refl

Reach-Admitted_example : Admitted candidate versions 0 (some 0) 0
Reach-Admitted_example =
    Reach-Admitted candidate versions versions-IsDistinct admitted-Reach admitted_done
