-- ===== src/Json/Quote.antt =====
-- The text of a string in encoding/json, with the escapes of HTML that Marshal and an Encoder write.
pub mod Read
use opencost_ai.Prelude.{
  ℕ, zero, suc, ◌+◌, ◌/◌, ◌%◌, ltb, Bool, true, false, ◌&&◌, ◌||◌, [], ◌∷◌, ◌++◌, Option, none,
  some, ◌==◌, if◌then◌else◌,
}
use opencost_ai.Text.{Bytes, text, within}
use opencost_ai.Text.Utf8.{lead}
use opencost_ai.RequestId.{hex_digit}

-- \u with the four digits of a number below 256
abbrev unicode_escape : ℕ → Bytes
unicode_escape c = b'\\' ∷ b'u' ∷ b'0' ∷ b'0' ∷ hex_digit (c / 16) ∷ hex_digit (c % 16) ∷ []

-- The letter of a short escape.
abbrev pub short_escape : ℕ → Option ℕ
short_escape c =
    if c == b'"'
    then some b'"'
    else if c == b'\\'
    then some b'\\'
    else if c == 8
    then some b'b'
    else if c == 12
    then some b'f'
    else if c == 10
    then some b'n'
    else if c == 13
    then some b'r'
    else if c == 9
    then some b't'
    else none

abbrev is_html : ℕ → Bool
is_html c = c == b'<' || c == b'>' || c == b'&'

-- An ASCII byte
unfoldable pub escape_byte : ℕ → Bytes
escape_byte c = elim (short_escape c) [
  | some letter ↦ b'\\' ∷ letter ∷ []
  | none ↦ if ltb c 0x20 || is_html c then unicode_escape c else c ∷ []
]

-- Whether `n` more bytes of a rune follow, the first of them in the range.
unfoldable pub follows : ℕ → ℕ → ℕ → Bytes → Bool
follows zero lo hi s = true
follows (suc n) lo hi [] = false
follows (suc n) lo hi (c ∷ s) = within lo hi c && follows n 0x80 0xBF s

-- How many bytes follow the first in a rune; `none` where `utf8.DecodeRuneInString` finds none.
unfoldable pub rune : ℕ → Bytes → Option ℕ
rune c s = elim (lead c) [
  | none ↦ none
  | some (n, lo, hi) ↦ if follows n lo hi s then some n else none
]

-- The last digit of U+2028 or U+2029, whose bytes these are.
abbrev pub line_separator : ℕ → Bytes → Option ℕ
line_separator a [] = none
line_separator a (b ∷ []) = none
line_separator a (b ∷ c ∷ s) =
    if a == 0xE2 && b == 0x80
    then if c == 0xA8 then some b'8' else if c == 0xA9 then some b'9' else none
    else none

-- What is still to do for a rune: bytes to copy, or to pass over.
pub data Mode : Type 0 where
  copy skip : ℕ → Mode

-- What is written for the first byte, and the mode behind it.
abbrev pub at_first : ℕ → Bytes → Bytes × Mode
at_first c s = if ltb c 0x80 then (escape_byte c, copy 0) else elim (line_separator c s) [
  | some digit ↦ (b'\\' ∷ b'u' ∷ b'2' ∷ b'0' ∷ b'2' ∷ digit ∷ [], skip 2)
  | none ↦ elim (rune c s) [ some n ↦ (c ∷ [], copy n) | none ↦ (text "\\ufffd", copy 0) ]
]

unfoldable pub escape : Mode → Bytes → Bytes
escape m [] = []
escape (copy zero) (c ∷ s) = (at_first c s).0 ++ escape (at_first c s).1 s
escape (copy (suc n)) (c ∷ s) = c ∷ escape (copy n) s
escape (skip zero) (c ∷ s) = (at_first c s).0 ++ escape (at_first c s).1 s
escape (skip (suc n)) (c ∷ s) = escape (skip n) s

unfoldable pub quote : Bytes → Bytes
unfolding escape
quote s = b'"' ∷ (escape (copy 0) s ++ b'"' ∷ [])
