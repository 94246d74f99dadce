-- ===== src/Text/Utf8/Ascii.antt =====
-- ASCII is UTF-8.
use opencost_ai.Prelude.{
  and_parts, ◌≡◌, refl, Bool, true, ℕ, zero, suc, ◌+◌, ◌%◌, ◌/◌, ◌≤◌, [], ◌∷◌, all, arith, some,
  Bool-cases, inl, inr, ltb,
}
use opencost_ai.Prelude.Int.{ℤ, pos, negsuc}
use opencost_ai.Text.{Bytes, within, decimal_digits, format_d}
use opencost_ai.Text.Utf8.{valid_string, valid_from, lead}

abbrev pub is_ascii : Bytes → Bool
is_ascii s = all (λ c. within 0 0x7F c) s

lead-ascii : (c : ℕ) → within 0 0x7F c ≡ true → lead c ≡ some (0, 0x80, 0xBF)
lead-ascii c h = rw h refl

pub is_ascii-valid_string : (s : Bytes) → is_ascii s ≡ true → valid_string s ≡ true
unfolding valid_string valid_from
is_ascii-valid_string [] h = refl
is_ascii-valid_string (c ∷ s) h =
    let (head, tail) = and_parts (within 0 0x7F c) (is_ascii s) h in
    rw (valid_string, valid_from, lead-ascii c head) (is_ascii-valid_string s tail)

cons-is_ascii : (c : ℕ) (s : Bytes) → c ≤ 0x7F → is_ascii s ≡ true → is_ascii (c ∷ s) ≡ true
cons-is_ascii c s small h = ground (arith, small, h)

decimal_digits-is_ascii :
    (room n : ℕ) (acc : Bytes) → is_ascii acc ≡ true → is_ascii (decimal_digits room n acc) ≡ true
unfolding decimal_digits
decimal_digits-is_ascii zero n acc h = h
decimal_digits-is_ascii (suc room) n acc h = elim (Bool-cases (ltb n 10)) [
  | inl small ↦ rw (decimal_digits, small) (cons-is_ascii (b'0' + n) acc (ground (arith, small)) h)
  | inr big ↦
      rw (decimal_digits, big)
        (decimal_digits-is_ascii room (n / 10) ((b'0' + n % 10) ∷ acc)
          (cons-is_ascii (b'0' + n % 10) acc (omega arith) h))
]

pub format_d-is_ascii : (z : ℤ) → is_ascii (format_d z) ≡ true
unfolding format_d
format_d-is_ascii (pos n) = decimal_digits-is_ascii 20 n [] refl
format_d-is_ascii (negsuc n) = decimal_digits-is_ascii 20 (suc n) [] refl
