-- ===== src/Json/Quote/Read/Steps.antt =====
-- Single runes are read back.
use opencost_ai.Prelude.{
  and_parts, ℕ, zero, suc, ◌/◌, ◌%◌, ◌≤◌, ◌<◌, ◌≡◌, refl, true, false, ◌||◌, [], ◌∷◌, ◌++◌, some,
  ◌==◌, ltb, arith, ◌⊎◌, inl, inr, Bool-cases, Option-cases, drop,
}
use opencost_ai.Text.{Bytes, within}
use opencost_ai.Text.Utf8.{lead, valid_from}
use opencost_ai.RequestId.{hex_digit}
use opencost_ai.Json.Quote.{short_escape, escape_byte, follows, line_separator}
use opencost_ai.Json.Quote.Read.{hex_value, plain, push, read_string}

pub hex_value-hex_digit : (d : ℕ) → d < 16 → hex_value (hex_digit d) ≡ some d
hex_value-hex_digit d h = ground arith

-- A byte that stands for itself
pub read_self :
    (c : ℕ) (t : Bytes)
    → 0x20 ≤ c
    → (c == b'"') ≡ false
    → (c == b'\\') ≡ false
    → read_string plain (c ∷ t) ≡ push (c ∷ []) (read_string plain t)
unfolding read_string
read_self c t h e e' = ground arith

pub read-short :
    (c letter : ℕ) (t : Bytes)
    → short_escape c ≡ some letter
    → read_string plain (b'\\' ∷ letter ∷ t) ≡ push (c ∷ []) (read_string plain t)
unfolding read_string
read-short c letter t h = ground arith

pub read-unicode :
    (c : ℕ) (t : Bytes)
    → c < 0x80
    → read_string plain (b'\\' ∷ b'u' ∷ b'0' ∷ b'0' ∷ hex_digit (c / 16) ∷ hex_digit (c % 16) ∷ t)
      ≡ push (c ∷ []) (read_string plain t)
unfolding read_string
read-unicode c t h =
    rw (hex_value-hex_digit (c / 16) (omega arith), hex_value-hex_digit (c % 16) (omega arith))
      (ground arith)

pub read-escape_byte :
    (c : ℕ) (t : Bytes)
    → c < 0x80
    → read_string plain (escape_byte c ++ t) ≡ push (c ∷ []) (read_string plain t)
unfolding escape_byte
read-escape_byte c t h = elim (Option-cases (short_escape c)) [
  | inr (letter, e) ↦ rw (escape_byte, e) (read-short c letter t e)
  | inl e ↦ elim (Bool-cases (ltb c 0x20 || (c == b'<' || c == b'>' || c == b'&'))) [
    | inl f ↦ rw (escape_byte, e, f) (read-unicode c t h)
    | inr f ↦
        rw (escape_byte, e, f)
          (read_self c t (ground (arith, f)) (ground (arith, e)) (ground (arith, e)))
  ]
]

-- What stands for a rune's last byte: \u2028 or \u2029
pub read-separator :
    (last digit : ℕ) (t : Bytes)
    → ((last ≡ 0xA8) × (digit ≡ b'8')) ⊎ ((last ≡ 0xA9) × (digit ≡ b'9'))
    → read_string plain (b'\\' ∷ b'u' ∷ b'2' ∷ b'0' ∷ b'2' ∷ digit ∷ t)
      ≡ push (0xE2 ∷ 0x80 ∷ last ∷ []) (read_string plain t)
unfolding read_string
read-separator last digit t (inl (e, f)) = rw (e, f) refl
read-separator last digit t (inr (e, f)) = rw (e, f) refl

pub record Separates (c : ℕ) (s : Bytes) (digit : ℕ) : Type 0 where
  pub last : ℕ
  pub rest : Bytes
  pub is_first : c ≡ 0xE2
  pub is_rest : s ≡ 0x80 ∷ last ∷ rest
  pub is_last : ((last ≡ 0xA8) × (digit ≡ b'8')) ⊎ ((last ≡ 0xA9) × (digit ≡ b'9'))

pub separates :
    (c : ℕ) (s : Bytes) (digit : ℕ) → line_separator c s ≡ some digit → Separates c s digit
separates c [] digit h = cc
separates c (b ∷ []) digit h = cc
separates c (b ∷ x ∷ s) digit h = record {
  last = x;
  rest = s;
  is_first = ground (arith, h);
  is_rest = ground (arith, h);
  is_last = ground (arith, h);
}

pub follows-valid_from :
    (n lo hi : ℕ) (s : Bytes) → valid_from n lo hi s ≡ true → follows n lo hi s ≡ true
unfolding follows valid_from
follows-valid_from zero lo hi s h = refl
follows-valid_from (suc n) lo hi [] h = cc
follows-valid_from (suc n) lo hi (c ∷ s) h =
    let (head, tail) = and_parts (within lo hi c) _ h in
    rw (head, follows-valid_from n 0x80 0xBF s tail) refl

-- The first byte of a valid string
pub record Led (c : ℕ) (s : Bytes) : Type 0 where
  pub n : ℕ
  pub lo : ℕ
  pub hi : ℕ
  pub leads : lead c ≡ some (n, lo, hi)
  pub valid : valid_from n lo hi s ≡ true

pub led : (c lo hi : ℕ) (s : Bytes) → valid_from 0 lo hi (c ∷ s) ≡ true → Led c s
unfolding valid_from
led c lo hi s h = elim (Option-cases (lead c)) [
  | inl e ↦ cc (rw (e, valid_from) at h)
  | inr ((n, lo', hi'), e) ↦ record {
    n = n;
    lo = lo';
    hi = hi';
    leads = e;
    valid = rw (e, valid_from) at h;
  }
]

pub lead-lo : (c n lo hi : ℕ) → lead c ≡ some (n, lo, hi) → 0x80 ≤ lo
lead-lo c n lo hi h = ground (arith, h)

pub lead-ascii : (c n lo hi : ℕ) → lead c ≡ some (n, lo, hi) → c < 0x80 → n ≡ 0
lead-ascii c n lo hi h small = ground (arith, h, small)

pub drop-nil : (n : ℕ) → drop {A = ℕ} n [] ≡ []
drop-nil zero = refl
drop-nil (suc n) = refl
