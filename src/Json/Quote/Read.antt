-- ===== src/Json/Quote/Read.antt =====
-- A reader of JSON strings. An escape of a surrogate is refused; the encoder writes none.
pub mod Steps
pub mod RoundTrip
use opencost_ai.Prelude.{
  ℕ, zero, suc, ◌+◌, ◌*◌, ◌-◌, ◌/◌, ◌%◌, ltb, Bool, true, false, [], ◌∷◌, ◌++◌, Option, none, some,
  ◌==◌, if◌then◌else◌,
}
use opencost_ai.Text.{Bytes, within}

abbrev pub hex_value : ℕ → Option ℕ
hex_value c =
    if within b'0' b'9' c
    then some (c - b'0')
    else if within b'a' b'f' c
    then some (c - b'a' + 10)
    else if within b'A' b'F' c
    then some (c - b'A' + 10)
    else none

-- The bytes of a code point below 2 ^ 16
abbrev pub utf8 : ℕ → Bytes
utf8 v =
    if ltb v 0x80
    then v ∷ []
    else if ltb v 0x800
    then (0xC0 + v / 64) ∷ (0x80 + v % 64) ∷ []
    else (0xE0 + v / 4096) ∷ (0x80 + v / 64 % 64) ∷ (0x80 + v % 64) ∷ []

-- The byte that a short escape stands for
abbrev pub unescape : ℕ → Option ℕ
unescape c =
    if c == b'"'
    then some b'"'
    else if c == b'\\'
    then some b'\\'
    else if c == b'/'
    then some b'/'
    else if c == b'b'
    then some 8
    else if c == b'f'
    then some 12
    else if c == b'n'
    then some 10
    else if c == b'r'
    then some 13
    else if c == b't'
    then some 9
    else none

-- Where the reader stands: in the text, behind a backslash, or in front of the last `n` + 1 of the
-- digits of an escape, with the number so far.
pub data Place : Type 0 where
  plain escaped : Place
  digits : (n v : ℕ) → Place

abbrev pub push : Bytes → Option (Bytes × Bytes) → Option (Bytes × Bytes)
push s none = none
push s (some (t, rest)) = some (s ++ t, rest)

abbrev pub push_byte : Option ℕ → Option (Bytes × Bytes) → Option (Bytes × Bytes)
push_byte none more = none
push_byte (some c) more = push (c ∷ []) more

abbrev is_surrogate : ℕ → Bool
is_surrogate v = within 0xD800 0xDFFF v

-- The string behind its opening quote, and what follows its closing one.
unfoldable pub read_string : Place → Bytes → Option (Bytes × Bytes)
read_string p [] = none
read_string plain (c ∷ s) =
    let behind = read_string escaped s in
    let more = push (c ∷ []) (read_string plain s) in
    if c == b'"'
    then some ([], s)
    else if c == b'\\'
    then behind
    else if ltb c 0x20
    then none
    else more
read_string escaped (c ∷ s) =
    let code = read_string (digits 3 0) s in
    let more = push_byte (unescape c) (read_string plain s) in if c == b'u' then code else more
read_string (digits zero v) (c ∷ s) = elim (hex_value c) [
  | none ↦ none
  | some d ↦
      let more = push (utf8 (v * 16 + d)) (read_string plain s) in
      if is_surrogate (v * 16 + d) then none else more
]
read_string (digits (suc n) v) (c ∷ s) = elim (hex_value c) [
  | none ↦ none
  | some d ↦ read_string (digits n (v * 16 + d)) s
]
