-- ===== src/Json/Quote/Read/RoundTrip.antt =====
-- Strings are read back.
use opencost_ai.Prelude.{
  and_parts, ℕ, zero, suc, ◌≤◌, ◌≡◌, refl, ap, ◌∙◌, true, [], ◌∷◌, ◌++◌, append_assoc, Option, some,
  ltb, arith, inl, inr, Bool-cases, Option-cases, drop,
}
use opencost_ai.Text.{Bytes, within}
use opencost_ai.Text.Utf8.{valid_from, valid_string}
use opencost_ai.Json.Quote.{rune, line_separator, copy, skip, at_first, escape, quote}
use opencost_ai.Json.Quote.Read.{plain, push, read_string}
use opencost_ai.Json.Quote.Read.Steps.{
  read_self, read-escape_byte, read-separator, Separates, separates, follows-valid_from, led,
  lead-lo, lead-ascii, drop-nil,
}

module _ (rest : Bytes) where
  abbrev closed : Bytes → Bytes
  closed s = s ++ b'"' ∷ rest

  -- The text is read back in either mode, what is passed over left out.
  record Readable (s : Bytes) : Type 0 where
    copied :
        (n lo hi : ℕ)
        → 0x80 ≤ lo
        → valid_from n lo hi s ≡ true
        → read_string plain (closed (escape (copy n) s)) ≡ some (s, rest)
    skipped :
        (n lo hi : ℕ)
        → 0x80 ≤ lo
        → valid_from n lo hi s ≡ true
        → read_string plain (closed (escape (skip n) s)) ≡ some (drop n s, rest)

  separator-Readable :
      (c n lo hi : ℕ) (s : Bytes) (digit : ℕ)
      → n ≡ 2
      → 0x80 ≤ lo
      → valid_from n lo hi s ≡ true
      → Separates c s digit
      → Readable s
      → read_string plain (b'\\' ∷ b'u' ∷ b'2' ∷ b'0' ∷ b'2' ∷ digit ∷ closed (escape (skip 2) s))
        ≡ some (c ∷ s, rest)
  separator-Readable c n lo hi s digit two low valid sp ih =
      read-separator sp.last digit _ sp.is_last
      ∙ ap (push (0xE2 ∷ 0x80 ∷ sp.last ∷ [])) (ih.skipped 2 lo hi low (rw two at valid))
      ∙ whole c s sp.last sp.rest sp.is_first sp.is_rest
    where
      whole :
          (c : ℕ) (s : Bytes) (last : ℕ) (t : Bytes)
          → c ≡ 0xE2
          → s ≡ 0x80 ∷ last ∷ t
          → ◌≡◌ {A = Option (Bytes × Bytes)}
              (some (0xE2 ∷ 0x80 ∷ last ∷ drop 2 s, rest))
              (some (c ∷ s, rest))
      whole c s last t e f = rw (e, f) refl

  first-Readable :
      (c lo hi : ℕ) (s : Bytes)
      → Readable s
      → valid_from 0 lo hi (c ∷ s) ≡ true
      → read_string plain (closed ((at_first c s).0 ++ escape (at_first c s).1 s))
        ≡ some (c ∷ s, rest)
  unfolding rune
  first-Readable c lo hi s ih h =
      let l = led c lo hi s h in
      let low = lead-lo c l.n l.lo l.hi l.leads in
      elim (Bool-cases (ltb c 0x80)) [
        | inl small ↦
            let valid =
              rw (lead-ascii c l.n l.lo l.hi l.leads (ground (arith, small))) at l.valid in
            rw
              (
                small,
                append_assoc,
                read-escape_byte c (closed (escape (copy 0) s)) (ground (arith, small)),
                ih.copied 0 l.lo l.hi low valid,
              )
              refl
        | inr big ↦ elim (Option-cases (line_separator c s)) [
          | inr (digit, e) ↦
              let sp = separates c s digit e in
              rw (big, e)
                (separator-Readable c l.n l.lo l.hi s digit (ground (arith, l.leads, sp.is_first))
                  low l.valid sp ih)
          | inl e ↦
              rw (big, e, l.leads, rune, follows-valid_from l.n l.lo l.hi s l.valid)
                (read_self c _ (ground (arith, big)) (ground (arith, big)) (ground (arith, big))
                  ∙ ap (push (c ∷ [])) (ih.copied l.n l.lo l.hi low l.valid))
        ]
      ]

  copied-cons :
      (n lo hi c : ℕ) (s : Bytes)
      → Readable s
      → 0x80 ≤ lo
      → valid_from n lo hi (c ∷ s) ≡ true
      → read_string plain (closed (escape (copy n) (c ∷ s))) ≡ some (c ∷ s, rest)
  unfolding escape valid_from
  copied-cons zero lo hi c s ih low h = first-Readable c lo hi s ih h
  copied-cons (suc n) lo hi c s ih low h =
      let (head, tail) = and_parts (within lo hi c) _ h in
      let high : 0x80 ≤ c = ground (arith, head) in
      read_self c _ (omega arith) (ground arith) (ground arith)
      ∙ ap (push (c ∷ [])) (ih.copied n 0x80 0xBF (omega arith) tail)

  skipped-cons :
      (n lo hi c : ℕ) (s : Bytes)
      → Readable s
      → 0x80 ≤ lo
      → valid_from n lo hi (c ∷ s) ≡ true
      → read_string plain (closed (escape (skip n) (c ∷ s))) ≡ some (drop n (c ∷ s), rest)
  unfolding escape valid_from
  skipped-cons zero lo hi c s ih low h = first-Readable c lo hi s ih h
  skipped-cons (suc n) lo hi c s ih low h =
      let (head, tail) = and_parts (within lo hi c) _ h in ih.skipped n 0x80 0xBF (omega arith) tail

  text-Readable : (s : Bytes) → Readable s
  unfolding escape read_string
  text-Readable [] = record {
    copied = λ n lo hi low h. refl;
    skipped = λ n lo hi low h. rw (drop-nil n) refl;
  }
  text-Readable (c ∷ s) = record {
    copied = λ n lo hi low h. copied-cons n lo hi c s (text-Readable s) low h;
    skipped = λ n lo hi low h. skipped-cons n lo hi c s (text-Readable s) low h;
  }

  -- Every UTF-8 string is read back from its text, whatever follows.
  pub read_string-quote :
      (s : Bytes)
      → valid_string s ≡ true
      → (t : Bytes) × (quote s ++ rest ≡ b'"' ∷ t) × (read_string plain t ≡ some (s, rest))
  unfolding quote valid_string
  read_string-quote s h = (
    closed (escape (copy 0) s),
    ap (λ u. b'"' ∷ u) (append_assoc (escape (copy 0) s) (b'"' ∷ []) rest),
    (text-Readable s).copied 0 0x80 0xBF (omega arith) h,
  )
