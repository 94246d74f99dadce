-- ===== src/Text/Utf8.antt =====
-- `utf8.ValidString`.
pub mod Ascii
use opencost_ai.Prelude.{
  ℕ, zero, suc, Bool, true, false, ◌&&◌, [], ◌∷◌, ◌==◌, if◌then◌else◌, Option, none, some,
}
use opencost_ai.Text.{Bytes, within}

-- What a first byte asks for: how many bytes follow, and the range of the next one.
abbrev pub lead : ℕ → Option (ℕ × ℕ × ℕ)
lead c =
    if within 0 0x7F c
    then some (0, 0x80, 0xBF)
    else if within 0xC2 0xDF c
    then some (1, 0x80, 0xBF)
    else if c == 0xE0
    then some (2, 0xA0, 0xBF)
    else if c == 0xED
    then some (2, 0x80, 0x9F)
    else if within 0xE1 0xEF c
    then some (2, 0x80, 0xBF)
    else if c == 0xF0
    then some (3, 0x90, 0xBF)
    else if within 0xF1 0xF3 c
    then some (3, 0x80, 0xBF)
    else if c == 0xF4
    then some (3, 0x80, 0x8F)
    else none

unfoldable pub valid_from : ℕ → ℕ → ℕ → Bytes → Bool
valid_from zero lo hi [] = true
valid_from (suc n) lo hi [] = false
valid_from zero lo hi (c ∷ s) = elim (lead c) [
  | none ↦ false
  | some (n, lo', hi') ↦ valid_from n lo' hi' s
]
valid_from (suc n) lo hi (c ∷ s) = within lo hi c && valid_from n 0x80 0xBF s

unfoldable pub valid_string : Bytes → Bool
unfolding valid_from
valid_string s = valid_from 0 0x80 0xBF s
