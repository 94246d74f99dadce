-- ===== src/Text/Trim.antt =====
-- `strings.TrimSpace`, `bytes.TrimRight`, `strings.TrimRight` and `strings.TrimLeft`.
pub mod Laws
use opencost_ai.Prelude.{
  ℕ, zero, suc, Bool, false, ◌&&◌, ◌||◌, [], ◌∷◌, reverse, ◌==◌, if◌then◌else◌,
}
use opencost_ai.Text.{Bytes, within}

abbrev pub is_ascii_space : ℕ → Bool
is_ascii_space c = within 9 13 c || c == b' '

-- U+0085 and U+00A0
abbrev is_space2 : ℕ → ℕ → Bool
is_space2 a b = a == 0xC2 && (b == 0x85 || b == 0xA0)

-- U+1680, U+2000 to U+200A, U+2028, U+2029, U+202F, U+205F and U+3000
abbrev is_space3 : ℕ → ℕ → ℕ → Bool
is_space3 a b c =
    (a == 0xE1 && b == 0x9A && c == 0x80)
    || (a == 0xE2 && b == 0x80 && (within 0x80 0x8A c || c == 0xA8 || c == 0xA9 || c == 0xAF))
    || (a == 0xE2 && b == 0x81 && c == 0x9F)
    || (a == 0xE3 && b == 0x80 && c == 0x80)

-- How many bytes the white-space rune at the front takes; 0 where the front is no white space.
space_width : Bytes → ℕ
space_width [] = 0
space_width (a ∷ []) = if is_ascii_space a then 1 else 0
space_width (a ∷ b ∷ []) = if is_ascii_space a then 1 else if is_space2 a b then 2 else 0
space_width (a ∷ b ∷ c ∷ s) =
    if is_ascii_space a then 1 else if is_space2 a b then 2 else if is_space3 a b c then 3 else 0

-- The same for the last rune of a reversed text. Its first byte is never a continuation byte, so
-- `DecodeLastRune` finds these bytes exactly where they are the last.
last_space_width : Bytes → ℕ
last_space_width [] = 0
last_space_width (a ∷ []) = if is_ascii_space a then 1 else 0
last_space_width (b ∷ a ∷ []) = if is_ascii_space b then 1 else if is_space2 a b then 2 else 0
last_space_width (c ∷ b ∷ a ∷ s) =
    if is_ascii_space c then 1 else if is_space2 b c then 2 else if is_space3 a b c then 3 else 0

-- Drops runes as long as `width` finds one; the number counts bytes of the present rune to drop.
drop_runes : (Bytes → ℕ) → ℕ → Bytes → Bytes
drop_runes width n [] = []
drop_runes width (suc n) (c ∷ s) = drop_runes width n s
drop_runes width zero (c ∷ s) = elim (width (c ∷ s)) [ zero ↦ c ∷ s | suc n ↦ drop_runes width n s ]

unfoldable pub trim_space : Bytes → Bytes
unfolding drop_runes space_width last_space_width
trim_space s = reverse (drop_runes last_space_width 0 (reverse (drop_runes space_width 0 s)))

abbrev pub contains : Bytes → ℕ → Bool
contains [] c = false
contains (x ∷ xs) c = c == x || contains xs c

-- `strings.TrimLeft(s, cutset)` for a cutset of ASCII bytes
unfoldable pub trim_left : Bytes → Bytes → Bytes
trim_left cutset [] = []
trim_left cutset (c ∷ s) = if contains cutset c then trim_left cutset s else c ∷ s

-- `bytes.TrimRight(s, cutset)` and `strings.TrimRight(s, cutset)` for a cutset of ASCII bytes
unfoldable pub trim_right : Bytes → Bytes → Bytes
unfolding trim_left
trim_right cutset s = reverse (trim_left cutset (reverse s))
