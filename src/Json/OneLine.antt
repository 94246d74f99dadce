-- ===== src/Json/OneLine.antt =====
-- The text of a value is one line.
use opencost_ai.Prelude.{
  and_parts, all, ◌≢◌, ℕ, zero, suc, ◌/◌, ◌%◌, ◌≤◌, ◌≡◌, refl, Bool, true, false, ◌||◌, [], ◌∷◌,
  ◌++◌, some, ltb, ◌==◌, arith, inl, inr, Bool-cases, Option-cases, All, All-append,
}
use opencost_ai.Text.{Bytes, text, within}
use opencost_ai.Text.Utf8.{lead}
use opencost_ai.RequestId.{hex_digit}
use opencost_ai.Json.{
  Json, Items, Fields, null, bool, number, str, array, object, no_items, item, no_fields, field,
  separator, bool_text, is_number_byte, HasNumbers, HaveNumbers, FieldsHaveNumbers, encode,
  encode_items, encode_fields,
}
use opencost_ai.Json.Quote.{
  short_escape, escape_byte, follows, rune, line_separator, copy, skip, at_first, escape, quote,
}

-- No control character
abbrev pub IsPrinted : Bytes → Type 0
IsPrinted s = All (λ c. 0x20 ≤ c) s

IsPrinted-append : (s t : Bytes) → IsPrinted s → IsPrinted t → IsPrinted (s ++ t)
IsPrinted-append s t h k = All-append (λ c. 0x20 ≤ c) s t h k

hex_digit-printed : (d : ℕ) → 0x20 ≤ hex_digit d
hex_digit-printed d = ground arith

escape_byte-IsPrinted : (c : ℕ) → IsPrinted (escape_byte c)
unfolding escape_byte
escape_byte-IsPrinted c = elim (Option-cases (short_escape c)) [
  | inr (letter, e) ↦
      rw (escape_byte, e)
        (IsPrinted-append (b'\\' ∷ []) (letter ∷ []) (omega arith) (ground (arith, e), tt))
  | inl e ↦ elim (Bool-cases (ltb c 0x20 || (c == b'<' || c == b'>' || c == b'&'))) [
    | inl f ↦
        rw (escape_byte, e, f)
          (omega (arith, hex_digit-printed (c / 16), hex_digit-printed (c % 16)))
    | inr f ↦ rw (escape_byte, e, f) (ground (arith, f), tt)
  ]
]

line_separator-printed : (c digit : ℕ) (s : Bytes) → line_separator c s ≡ some digit → 0x20 ≤ digit
line_separator-printed c digit [] h = cc
line_separator-printed c digit (a ∷ []) h = cc
line_separator-printed c digit (a ∷ b ∷ s) h = ground (arith, h)

-- A copied byte is part of a rune of several bytes
record Runs (n : ℕ) (s : Bytes) : Type 0 where
  lo : ℕ
  hi : ℕ
  low : 0x80 ≤ lo
  runs : follows n lo hi s ≡ true

rune-Runs : (c n : ℕ) (s : Bytes) → rune c s ≡ some n → Runs n s
unfolding rune
rune-Runs c n s h = elim (Option-cases (lead c)) [
  | inl e ↦ cc (rw (e, rune) at h)
  | inr ((m, lo, hi), e) ↦ elim (Bool-cases (follows m lo hi s)) [
    | inr f ↦ cc (rw (e, f, rune) at h)
    | inl f ↦
        let same : m ≡ n = cc (rw (e, f, rune) at h) in
        record { lo = lo; hi = hi; low = ground (arith, e); runs = rw same at f }
  ]
]

record Printing (s : Bytes) : Type 0 where
  copied : (n lo hi : ℕ) → 0x80 ≤ lo → follows n lo hi s ≡ true → IsPrinted (escape (copy n) s)
  skipped : (n : ℕ) → IsPrinted (escape (skip n) s)

first-IsPrinted :
    (c : ℕ) (s : Bytes) → Printing s → IsPrinted ((at_first c s).0 ++ escape (at_first c s).1 s)
unfolding text follows
first-IsPrinted c s ih = elim (Bool-cases (ltb c 0x80)) [
  | inl small ↦ rw small (
      IsPrinted-append (escape_byte c) _ (escape_byte-IsPrinted c)
        (ih.copied 0 0x80 0 (omega arith) refl))
  | inr big ↦ elim (Option-cases (line_separator c s)) [
    | inr (digit, e) ↦
        rw (big, e)
          (IsPrinted-append (b'\\' ∷ b'u' ∷ b'2' ∷ b'0' ∷ b'2' ∷ digit ∷ []) _
            (omega (arith, line_separator-printed c digit s e)) (ih.skipped 2))
    | inl e ↦ elim (Option-cases (rune c s)) [
      | inl f ↦
          rw (big, e, f)
            (IsPrinted-append (text "\\ufffd") _ (omega arith)
              (ih.copied 0 0x80 0 (omega arith) refl))
      | inr (n, f) ↦
          let r = rune-Runs c n s f in
          rw (big, e, f) (ground (arith, big), ih.copied n r.lo r.hi r.low r.runs)
    ]
  ]
]

copied-IsPrinted :
    (n lo hi c : ℕ) (s : Bytes)
    → Printing s
    → 0x80 ≤ lo
    → follows n lo hi (c ∷ s) ≡ true
    → IsPrinted (escape (copy n) (c ∷ s))
unfolding escape follows
copied-IsPrinted zero lo hi c s ih low h = first-IsPrinted c s ih
copied-IsPrinted (suc n) lo hi c s ih low h =
    let (head, tail) = and_parts (within lo hi c) _ h in
    (ground (arith, head), ih.copied n 0x80 0xBF (omega arith) tail)

skipped-IsPrinted : (n c : ℕ) (s : Bytes) → Printing s → IsPrinted (escape (skip n) (c ∷ s))
unfolding escape
skipped-IsPrinted zero c s ih = first-IsPrinted c s ih
skipped-IsPrinted (suc n) c s ih = ih.skipped n

text-Printing : (s : Bytes) → Printing s
unfolding escape
text-Printing [] = record { copied = λ n lo hi low h. tt; skipped = λ n. tt }
text-Printing (c ∷ s) = record {
  copied = λ n lo hi low h. copied-IsPrinted n lo hi c s (text-Printing s) low h;
  skipped = λ n. skipped-IsPrinted n c s (text-Printing s);
}

quote-IsPrinted : (s : Bytes) → IsPrinted (quote s)
unfolding quote follows
quote-IsPrinted s = (
  omega arith,
  IsPrinted-append (escape (copy 0) s) (b'"' ∷ [])
      ((text-Printing s).copied 0 0x80 0 (omega arith) refl) (omega arith, tt),
)

bool_text-IsPrinted : (b : Bool) → IsPrinted (bool_text b)
unfolding text
bool_text-IsPrinted true = omega arith
bool_text-IsPrinted false = omega arith

separator-IsPrinted : (first : Bool) → IsPrinted (separator first)
separator-IsPrinted true = tt
separator-IsPrinted false = (omega arith, tt)

digits-IsPrinted : (s : Bytes) → all is_number_byte s ≡ true → IsPrinted s
digits-IsPrinted [] h = tt
digits-IsPrinted (c ∷ s) h =
    let (head, tail) = and_parts (is_number_byte c) _ h in
    (ground (arith, head), digits-IsPrinted s tail)

-- The text of a value, whatever its strings hold, has no control character: no line ends in it.
mutual
  unfolding encode HasNumbers text

  pub encode-IsPrinted : (v : Json) → HasNumbers v → IsPrinted (encode v)
  encode-IsPrinted null h = omega arith
  encode-IsPrinted (bool b) h = bool_text-IsPrinted b
  encode-IsPrinted (number digits) h = digits-IsPrinted digits h.0
  encode-IsPrinted (str s) h = quote-IsPrinted s
  encode-IsPrinted (array xs) h = (omega arith, items-IsPrinted xs true h)
  encode-IsPrinted (object fs) h = (omega arith, fields-IsPrinted fs true h)

  items-IsPrinted : (xs : Items) (first : Bool) → HaveNumbers xs → IsPrinted (encode_items xs first)
  items-IsPrinted no_items first h = (omega arith, tt)
  items-IsPrinted (item v xs) first (h, hs) =
      IsPrinted-append (separator first) _ (separator-IsPrinted first)
        (IsPrinted-append (encode v) _ (encode-IsPrinted v h) (items-IsPrinted xs false hs))

  fields-IsPrinted :
      (fs : Fields) (first : Bool) → FieldsHaveNumbers fs → IsPrinted (encode_fields fs first)
  fields-IsPrinted no_fields first h = (omega arith, tt)
  fields-IsPrinted (field k v fs) first (h, hs) =
      IsPrinted-append (separator first) _ (separator-IsPrinted first) (
        IsPrinted-append (quote k) _ (quote-IsPrinted k) (
          omega arith,
          IsPrinted-append (encode v) _ (encode-IsPrinted v h) (fields-IsPrinted fs false hs),
        ))

pub printed-one_line : (s : Bytes) → IsPrinted s → All (λ c. c ≢ b'\n') s
printed-one_line [] h = tt
printed-one_line (c ∷ s) (h, hs) = ((λ e. omega (arith, h, e)), printed-one_line s hs)
