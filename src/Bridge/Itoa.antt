-- ===== src/Bridge/Itoa.antt =====
-- `itoa` prints every int64 but the smallest.
use native.Mathlib.Nat.{pow-suc}
use opencost_ai.Prelude.{
  ℕ, zero, suc, ◌+◌, ◌-◌, ◌*◌, ◌/◌, ◌%◌, ◌^◌, ◌≤◌, ◌<◌, ◌≡◌, ◌≢◌, refl, Bool, true, false, [], ◌∷◌,
  Option, some, ◌==◌, if◌then◌else◌, length, arith, all, Bool-cases, inl, inr, ap, ◌∙◌,
}
use opencost_ai.Prelude.Int.{ℤ, pos, negsuc, neg_part}
use opencost_ai.Text.{Bytes, within}
use opencost_ai.Bridge.Types.{digits, sign, itoa}

-- The number that decimal digits write, behind a number already read.
abbrev decimal : ℕ → Bytes → ℕ
decimal v [] = v
decimal v (c ∷ s) = decimal (v * 10 + (c - b'0')) s

abbrev minus : ℕ → ℤ
minus zero = pos 0
minus (suc n) = negsuc n

-- Reads an optional sign and decimal digits.
abbrev pub read_int : Bytes → ℤ
read_int [] = pos 0
read_int (c ∷ s) = if c == b'-' then minus (decimal 0 s) else pos (decimal 0 (c ∷ s))

abbrev is_digit : ℕ → Bool
is_digit c = within b'0' b'9' c

-- The digits of a number, and what stands in front of the rest.
record Printed (k n : ℕ) (acc : Bytes) (r : Option Bytes) : Type 0 where
  result : Bytes
  is_result : r ≡ some result
  value : decimal 0 result ≡ decimal n acc
  size : length result ≤ k + length acc
  digital : all is_digit acc ≡ true → all is_digit result ≡ true

Printed-zero : (k n : ℕ) (acc : Bytes) → n ≡ 0 → Printed k n acc (some acc)
Printed-zero k n acc e = record {
  result = acc;
  is_result = refl;
  value = ap (λ m. decimal m acc) (omega arith);
  size = omega arith;
  digital = λ h. h;
}

digits-Printed :
    (k room n : ℕ) (acc : Bytes) → k ≤ room → n < 10 ^ k → Printed k n acc (digits room n acc)
unfolding digits
digits-Printed zero zero n acc fits small =
    let e : (n == 0) ≡ true = ground arith in rw e (Printed-zero 0 n acc (omega arith))
digits-Printed zero (suc room) n acc fits small =
    let e : (n == 0) ≡ true = ground arith in rw e (Printed-zero 0 n acc (omega arith))
digits-Printed (suc k) zero n acc fits small = absurd (omega arith)
digits-Printed (suc k) (suc room) n acc fits small = elim (Bool-cases (n == 0)) [
  | inl stop ↦ rw stop (Printed-zero (suc k) n acc (ground arith))
  | inr more ↦
      let rest =
        digits-Printed k room (n / 10) ((b'0' + n % 10) ∷ acc) (omega arith)
          (omega (arith, pow-suc 10 k)) in
      record {
        result = rest.result;
        is_result = rw more rest.is_result;
        value = rest.value ∙ ap (λ m. decimal m acc) (omega arith);
        size = omega (arith, rest.size);
        digital = λ h. rest.digital (ground arith);
      }
]

read_int-digits : (s : Bytes) → all is_digit s ≡ true → s ≢ [] → read_int s ≡ pos (decimal 0 s)
read_int-digits [] h solid = absurd (solid refl)
read_int-digits (c ∷ s) h solid = ground arith

read_int-minus : (s : Bytes) (n : ℕ) → decimal 0 s ≡ suc n → read_int (b'-' ∷ s) ≡ negsuc n
read_int-minus s n e = rw e

abbrev pub min_int64 : ℤ
min_int64 = negsuc (2 ^ 63 - 1)

abbrev pub IsInt64 : ℤ → Type 0
IsInt64 (pos n) = n < 2 ^ 63
IsInt64 (negsuc n) = n < 2 ^ 63

decimal-ne_nil : (s : Bytes) (n : ℕ) → decimal 0 s ≡ suc n → s ≢ []
decimal-ne_nil [] n e = λ h. absurd (omega arith)
decimal-ne_nil (_ ∷ _) n e = λ h. cc

suc_eq : (n : ℕ) → (suc n == 2 ^ 63) ≡ true → n ≡ 2 ^ 63 - 1
suc_eq n h = ground arith

min_ne : (n : ℕ) → (suc n == 2 ^ 63) ≡ false → suc n ≢ suc (2 ^ 63 - 1)
min_ne n h = ground arith

sign-short : (s : Bytes) → length s ≤ 19 → sign (some s) ≡ some (b'-' ∷ s)
sign-short s h = ground arith

-- `itoa` stays inside its buffer on every int64, and prints it in decimal with its sign, but for
-- the smallest: that one is printed as a sign alone.
pub itoa-read :
    (z : ℤ)
    → IsInt64 z
    → (s : Bytes) × (itoa z ≡ some s)
      × (z ≢ min_int64 → read_int s ≡ z)
      × (z ≡ min_int64 → s ≡ b'-' ∷ [])
unfolding itoa
itoa-read (pos zero) h = (b'0' ∷ [], refl, λ ne. refl, λ e. cc)
itoa-read (pos (suc n)) h =
    let p = digits-Printed 19 20 (suc n) [] (omega arith) (omega arith) in
    (
      p.result,
      p.is_result,
      λ ne.
          read_int-digits p.result (p.digital refl) (decimal-ne_nil p.result n p.value)
          ∙ ap pos p.value,
      λ e. cc,
    )
itoa-read (negsuc n) h = elim (Bool-cases (suc n == 2 ^ 63)) [
  | inl smallest ↦
      (b'-' ∷ [], rw smallest, λ ne. absurd (ne (ap negsuc (suc_eq n smallest))), λ e. refl)
  | inr other ↦
      let p = digits-Printed 19 20 (suc n) [] (omega arith) (omega arith) in
      (
        b'-' ∷ p.result,
        rw (other, p.is_result) (sign-short p.result (omega (arith, p.size))),
        λ ne. read_int-minus p.result n p.value,
        λ e. absurd (min_ne n other (ap neg_part e)),
      )
]
