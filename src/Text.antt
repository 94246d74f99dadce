-- ===== src/Text.antt =====
-- Go strings as lists of bytes, and the functions of Go's `strings` and `bytes` packages that
-- the gateway calls.
pub mod Trim
pub mod Laws
pub mod Dict
pub mod Utf8
use Prim.Native.Char.{code}
use opencost_ai.Prelude.Int.{ℤ, pos, negsuc}
use opencost_ai.Prelude.{
  ℕ, zero, suc, ◌+◌, ◌/◌, ◌%◌, ltb, Bool, true, false, ◌&&◌, ◌||◌, List, [], ◌∷◌, Option, none,
  some, String, map, leb, ◌==◌, if◌then◌else◌,
}

abbrev pub Bytes : Type 0
Bytes = List ℕ

-- The bytes of an ASCII literal.
unfoldable pub text : String → Bytes
text String.[] = []
text (String.◌∷◌ c s) = code c ∷ text s

-- a == b on strings, and `subtle.ConstantTimeCompare(a, b) == 1` on byte slices
unfoldable pub beq : Bytes → Bytes → Bool
beq [] [] = true
beq [] (_ ∷ _) = false
beq (_ ∷ _) [] = false
beq (x ∷ xs) (y ∷ ys) = x == y && beq xs ys

abbrev cut_cons : ℕ → Option (Bytes × Bytes) → Option (Bytes × Bytes)
cut_cons c none = none
cut_cons c (some (before, after)) = some (c ∷ before, after)

-- `strings.Cut` at the first byte `sep`; `none` where Go returns ok == false
unfoldable pub cut : ℕ → Bytes → Option (Bytes × Bytes)
cut sep [] = none
cut sep (c ∷ s) = if c == sep then some ([], s) else cut_cons c (cut sep s)

abbrev pub within : ℕ → ℕ → ℕ → Bool
within lo hi c = leb lo c && leb c hi

abbrev pub lower_byte : ℕ → ℕ
lower_byte c = if within b'A' b'Z' c then c + 32 else c

-- `strings.EqualFold(s, t)` for a `t` of ASCII letters other than k and s: no other rune folds
-- to such a letter.
unfoldable pub equal_fold : Bytes → Bytes → Bool
unfolding beq
equal_fold s t = beq (map lower_byte s) (map lower_byte t)

-- `strings.ToLower`, as far as ASCII goes: besides the capital letters, the two runes whose lower
-- case is ASCII are İ (U+0130, 0xC4 0xB0) and the Kelvin sign (U+212A, 0xE2 0x84 0xAA). Other text is left
-- alone, since the callers only compare the result with ASCII words.
unfoldable pub to_lower : Bytes → Bytes
to_lower [] = []
to_lower (a ∷ []) = lower_byte a ∷ []
to_lower (a ∷ b ∷ []) =
    if a == 0xC4 && b == 0xB0 then b'i' ∷ [] else lower_byte a ∷ lower_byte b ∷ []
to_lower (a ∷ b ∷ c ∷ s) =
    let two = b'i' ∷ to_lower (c ∷ s) in
    let three = b'k' ∷ to_lower s in
    let one = lower_byte a ∷ to_lower (b ∷ c ∷ s) in
    if a == 0xC4 && b == 0xB0
    then two
    else if a == 0xE2 && b == 0x84 && c == 0xAA
    then three
    else one

-- `strings.HasPrefix(s, prefix)` and the rest behind it, for `strings.TrimPrefix`
unfoldable pub strip_prefix : Bytes → Bytes → Option Bytes
strip_prefix [] s = some s
strip_prefix (_ ∷ _) [] = none
strip_prefix (p ∷ ps) (c ∷ s) = if p == c then strip_prefix ps s else none

-- `strings.Index(s, sep) >= 0` with the slice before it: `s[:idx]`, or `s` where sep is missing
unfoldable pub before_byte : ℕ → Bytes → Bytes
before_byte sep [] = []
before_byte sep (c ∷ s) = if c == sep then [] else c ∷ before_byte sep s

-- %d: digits of `n` in front of `acc`, the last first; `fuel` bounds their number.
unfoldable pub decimal_digits : ℕ → ℕ → Bytes → Bytes
decimal_digits zero n acc = acc
decimal_digits (suc fuel) n acc =
    let rest = decimal_digits fuel (n / 10) ((b'0' + n % 10) ∷ acc) in
    if ltb n 10 then (b'0' + n) ∷ acc else rest

-- `fmt.Sprintf("%d", z)` for an int64, which has at most 19 digits
unfoldable pub format_d : ℤ → Bytes
unfolding decimal_digits
format_d (pos n) = decimal_digits 20 n []
format_d (negsuc n) = b'-' ∷ decimal_digits 20 (suc n) []
