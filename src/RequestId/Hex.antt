-- ===== src/RequestId/Hex.antt =====
-- What `New` returns, whatever the random source does.
use opencost_ai.Prelude.{
  ℕ, zero, suc, ◌+◌, ◌-◌, ◌*◌, ◌/◌, ◌%◌, ◌^◌, ◌≤◌, ◌<◌, ◌≡◌, refl, Bool, true, ◌||◌, [], ◌∷◌, ◌++◌,
  arith, inl, inr, length, all, length-append, all-append, Bool-cases, ltb, ap, ◌∙◌, if◌then◌else◌,
  All,
}
use native.Mathlib.Nat.{pow-suc}
use opencost_ai.Text.{Bytes, within}
use opencost_ai.RequestId.{
  hex_digit, hex_encode, hex_digits, zeros, pad, Entropy, random, failed, new,
}

abbrev pub is_hex_byte : ℕ → Bool
is_hex_byte c = within b'0' b'9' c || within b'a' b'f' c

hex_digit-is_hex_byte : (d : ℕ) → d < 16 → is_hex_byte (hex_digit d) ≡ true
hex_digit-is_hex_byte d h = ground arith

length-zeros : (n : ℕ) → length (zeros n) ≡ n
length-zeros zero = omega arith
length-zeros (suc n) = omega (arith, length-zeros n)

all-zeros : (n : ℕ) → all is_hex_byte (zeros n) ≡ true
all-zeros zero = refl
all-zeros (suc n) = all-zeros n

length-hex_digits-le :
    (fuel n : ℕ) (acc : Bytes) → length (hex_digits fuel n acc) ≤ fuel + length acc
unfolding hex_digits
length-hex_digits-le zero n acc = omega arith
length-hex_digits-le (suc fuel) n acc = elim (Bool-cases (ltb n 16)) [
  | inl last ↦ ground arith
  | inr more ↦ ground (arith, length-hex_digits-le fuel (n / 16) (hex_digit (n % 16) ∷ acc))
]

all-hex_digits :
    (fuel n : ℕ) (acc : Bytes)
    → all is_hex_byte acc ≡ true
    → all is_hex_byte (hex_digits fuel n acc) ≡ true
unfolding hex_digits
all-hex_digits zero n acc h = h
all-hex_digits (suc fuel) n acc h = elim (Bool-cases (ltb n 16)) [
  | inl last ↦ rw last (ground arith)
  | inr more ↦ rw more (all-hex_digits fuel (n / 16) (hex_digit (n % 16) ∷ acc) (ground arith))
]

abbrev digit_value : ℕ → ℕ
digit_value c = if ltb c b'a' then c - b'0' else c - b'a' + 10

-- The number that hexadecimal digits write, behind a number already read.
abbrev value_from : ℕ → Bytes → ℕ
value_from v [] = v
value_from v (c ∷ s) = value_from (v * 16 + digit_value c) s

abbrev pub hex_value : Bytes → ℕ
hex_value = value_from 0

digit_value-hex_digit : (d : ℕ) → d < 16 → digit_value (hex_digit d) ≡ d
digit_value-hex_digit d h = ground arith

value_from-hex_digits :
    (fuel n : ℕ) (acc : Bytes)
    → n < 16 ^ fuel
    → value_from 0 (hex_digits fuel n acc) ≡ value_from n acc
unfolding hex_digits
value_from-hex_digits zero n acc h = ap (λ m. value_from m acc) (omega arith)
value_from-hex_digits (suc fuel) n acc h = elim (Bool-cases (ltb n 16)) [
  | inl last ↦ rw last (ap (λ m. value_from m acc) (ground arith))
  | inr more ↦ rw more (
      value_from-hex_digits fuel (n / 16) (hex_digit (n % 16) ∷ acc) (div_bound n fuel h)
      ∙ ap (λ m. value_from m acc) (omega (arith, digit_value-hex_digit (n % 16) (omega arith))))
]
  where
    div_bound : (n fuel : ℕ) → n < 16 ^ suc fuel → n / 16 < 16 ^ fuel
    div_bound n fuel h = omega (arith, pow-suc 16 fuel)

value_from-zeros : (k : ℕ) (s : Bytes) → value_from 0 (zeros k ++ s) ≡ value_from 0 s
value_from-zeros zero s = refl
value_from-zeros (suc k) s = value_from-zeros k s

-- The random bytes are bytes.
abbrev pub IsInRange : Entropy → Type 0
IsInRange (random b0 b1 b2 b3 b4 b5 b6 b7) =
    All (λ b. b < 256) (b0 ∷ b1 ∷ b2 ∷ b3 ∷ b4 ∷ b5 ∷ b6 ∷ b7 ∷ [])
IsInRange (failed unix_nano) = Unit

pub all-hex_encode : (s : Bytes) → All (λ b. b < 256) s → all is_hex_byte (hex_encode s) ≡ true
unfolding hex_encode
all-hex_encode [] h = refl
all-hex_encode (c ∷ s) (b, h) = ground (
  arith,
  hex_digit-is_hex_byte (c / 16) (omega arith),
  hex_digit-is_hex_byte (c % 16) (omega arith),
  all-hex_encode s h,
)

length-pad : (s : Bytes) → length s ≤ 16 → length (pad s) ≡ 16
length-pad s h =
    length-append (zeros (16 - length s)) s ∙ omega (arith, length-zeros (16 - length s))

all-pad : (s : Bytes) → all is_hex_byte s ≡ true → all is_hex_byte (pad s) ≡ true
all-pad s h =
    all-append is_hex_byte (zeros (16 - length s)) s ∙ ground (arith, all-zeros (16 - length s))

-- The ID is 16 lower-case hexadecimal digits, whether or not the random source fails.
pub new-hex : (e : Entropy) → IsInRange e → (length (new e) ≡ 16) × (all is_hex_byte (new e) ≡ true)
unfolding new
new-hex (random b0 b1 b2 b3 b4 b5 b6 b7) h =
    (refl, all-hex_encode (b0 ∷ b1 ∷ b2 ∷ b3 ∷ b4 ∷ b5 ∷ b6 ∷ b7 ∷ []) h)
new-hex (failed t) h = (
  length-pad (hex_digits 16 (t % 2 ^ 64) [])
      (omega (arith, length-hex_digits-le 16 (t % 2 ^ 64) [])),
  all-pad (hex_digits 16 (t % 2 ^ 64) []) (all-hex_digits 16 (t % 2 ^ 64) [] refl),
)

-- Where the random source fails, the ID is the clock reading in hexadecimal.
pub new_failed_value : (t : ℕ) → hex_value (new (failed t)) ≡ t % 2 ^ 64
unfolding new
new_failed_value t =
    let s = hex_digits 16 (t % 2 ^ 64) [] in
    value_from-zeros (16 - length s) s ∙ value_from-hex_digits 16 (t % 2 ^ 64) [] (omega arith)
