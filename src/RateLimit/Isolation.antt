-- ===== src/RateLimit/Isolation.antt =====
-- Callers do not affect one another's quota.
use opencost_ai.Prelude.{
  ℕ, ◌≡◌, refl, ap, ◌∙◌, Bool, true, false, List, [], ◌∷◌, arith, if◌then◌else◌, Bool-cases, inl,
  inr, All,
}
use opencost_ai.Prelude.Int.{ℤ, pos, is_positive, pos_part}
use opencost_ai.Text.{Bytes, beq}
use opencost_ai.Text.Laws.{beq_sound}
use opencost_ai.Text.Dict.{lookup, insert, lookup-insert}
use opencost_ai.RateLimit.{
  RateLibrary, Limiter, interval, new, allow, bucket_of, with_bucket, found_or,
}

-- The instants at which `caller` asks, among the calls of all callers.
abbrev pub times_of : Bytes → List (ℕ × Bytes) → List ℕ
times_of caller [] = []
times_of caller ((now, c) ∷ calls) =
    if beq c caller then now ∷ times_of caller calls else times_of caller calls

module _ (lib : RateLibrary) where
  -- The answers to `caller`, when the limiter serves all calls in turn.
  unfoldable pub answers : Bytes → List (ℕ × Bytes) → Limiter lib → List Bool
  answers caller [] l = []
  answers caller ((now, c) ∷ calls) l =
      let (granted, l') = allow lib now c l in
      let rest = answers caller calls l' in if beq c caller then granted ∷ rest else rest

  -- The answers of one bucket that is asked at some instants.
  unfoldable pub bucket_answers : List ℕ → lib.Bucket → List Bool
  bucket_answers [] b = []
  bucket_answers (now ∷ times) b =
      let (granted, b') = lib.allow now b in granted ∷ bucket_answers times b'

  allow-enabled :
      (now : ℕ) (c : Bytes) (l : Limiter lib)
      → is_positive l.per_minute ≡ true
      → allow lib now c l ≡ with_bucket lib l c (lib.allow now (bucket_of lib l c))
  unfolding allow
  allow-enabled now c l h = rw h

  bucket_of-insert :
      (l : Limiter lib) (c caller : Bytes) (b : lib.Bucket)
      → bucket_of lib (record l { limiters = insert c b l.limiters }) caller
        ≡ (if beq c caller then b else bucket_of lib l caller)
  unfolding bucket_of
  bucket_of-insert l c caller b =
      ap (found_or lib (lib.new_limiter l.limit l.burst)) (lookup-insert c caller b l.limiters)
      ∙ ground arith

  answers_from :
      (caller : Bytes) (calls : List (ℕ × Bytes)) (l : Limiter lib)
      → is_positive l.per_minute ≡ true
      → answers caller calls l ≡ bucket_answers (times_of caller calls) (bucket_of lib l caller)
  unfolding answers bucket_answers
  answers_from caller [] l h = refl
  answers_from caller ((now, c) ∷ calls) l h =
      let (granted, b) = lib.allow now (bucket_of lib l c) in
      let l' = record l { limiters = insert c b l.limiters } in
      let rest =
        answers_from caller calls l' h
        ∙ ap (bucket_answers (times_of caller calls)) (bucket_of-insert l c caller b) in
      elim (Bool-cases (beq c caller)) [
        | inl same ↦
            let e = beq_sound c caller same in
            rw (allow-enabled now c l h, same) (cc (rest, e, same))
        | inr apart ↦ rw (allow-enabled now c l h, apart) (rw apart at rest)
      ]

  abbrev fresh : ℤ → Limiter lib
  fresh p = record {
    per_minute = p;
    limit = lib.every (pos (interval (pos_part p)));
    burst = p;
    limiters = [];
  }

  new-enabled : (p : ℤ) → is_positive p ≡ true → new lib p ≡ fresh p
  unfolding new
  new-enabled p h = rw h

  answers_of_disabled :
      (caller : Bytes) (calls : List (ℕ × Bytes)) (l : Limiter lib)
      → is_positive l.per_minute ≡ false
      → All (λ b. b ≡ true) (answers caller calls l)
  unfolding answers allow
  answers_of_disabled caller [] l h = tt
  answers_of_disabled caller ((now, c) ∷ calls) l h = elim (Bool-cases (beq c caller)) [
    | inl same ↦ rw (h, same) (refl, answers_of_disabled caller calls l h)
    | inr apart ↦ rw (h, apart) (answers_of_disabled caller calls l h)
  ]

  -- Whatever the other callers do, a caller gets the answers of a bucket of its own, asked at that
  -- caller's instants alone: full at the first call, with the configured rate and size.
  pub answers-isolated :
      (caller : Bytes) (calls : List (ℕ × Bytes)) (p : ℤ)
      → is_positive p ≡ true
      → answers caller calls (new lib p)
        ≡ bucket_answers
            (times_of caller calls)
            (lib.new_limiter (lib.every (pos (interval (pos_part p)))) p)
  unfolding bucket_of lookup
  answers-isolated caller calls p h = rw (new-enabled p h) (answers_from caller calls (fresh p) h)

  -- A limit of zero or less turns limiting off: every call is granted.
  pub answers-disabled :
      (caller : Bytes) (calls : List (ℕ × Bytes)) (p : ℤ)
      → is_positive p ≡ false
      → All (λ b. b ≡ true) (answers caller calls (new lib p))
  unfolding new
  answers-disabled caller calls p h = rw h (answers_of_disabled caller calls _ refl)
