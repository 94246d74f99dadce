-- ===== src/Server/Validation/Uuid.antt =====
-- isUUIDLike against the 8-4-4-4-12 form.
use opencost_ai.Prelude.{
  Bool-cases, inl, inr, append-nil, ==_iff, ℕ, zero, suc, ◌+◌, ◌<◌, ◌≡◌, ◌↔◌, refl, sym, ap, ◌∙◌,
  Bool, true, false, ◌&&◌, [], ◌∷◌, ◌++◌, arith, length, all, ◌==◌, length-append,
}
use opencost_ai.Text.{Bytes}
use opencost_ai.Server.Validation.{is_hex, is_dash_place, uuid_from, is_uuid_like}

-- `n` hexadecimal digits
pub record IsDigits (n : ℕ) (s : Bytes) : Type 0 where
  pub size : length s ≡ n
  pub digits : all is_hex s ≡ true

-- Five groups of digits with dashes between them.
pub record IsUuid (s : Bytes) : Type 0 where
  pub a : Bytes
  pub b : Bytes
  pub c : Bytes
  pub d : Bytes
  pub e : Bytes
  pub parts : s ≡ a ++ (b'-' ∷ (b ++ (b'-' ∷ (c ++ (b'-' ∷ (d ++ (b'-' ∷ e)))))))
  pub a_digits : IsDigits 8 a
  pub b_digits : IsDigits 4 b
  pub c_digits : IsDigits 4 c
  pub d_digits : IsDigits 4 d
  pub e_digits : IsDigits 12 e

-- No place from `i` on, for `n` places, is one of a dash.
abbrev NoDash : ℕ → ℕ → Type 0
NoDash zero i = Unit
NoDash (suc n) i = (is_dash_place i ≡ false) × NoDash n (suc i)

uuid_from_digits :
    (n i : ℕ) (s t : Bytes)
    → NoDash n i
    → length s ≡ n
    → uuid_from i (s ++ t) ≡ (all is_hex s && uuid_from (i + n) t)
unfolding uuid_from
uuid_from_digits zero i [] t h k = ap (λ j. uuid_from j t) (omega arith)
uuid_from_digits zero i (c ∷ s) t h k = absurd (omega arith)
uuid_from_digits (suc n) i [] t h k = absurd (omega arith)
uuid_from_digits (suc n) i (c ∷ s) t (p, h) k =
    let rest = uuid_from_digits n (suc i) s t h (omega arith) in
    let place : suc i + n ≡ i + suc n = omega arith in
    ground (arith, p, rest ∙ ap (λ j. all is_hex s && uuid_from j t) place)

uuid_from_group :
    (n i : ℕ) (s : Bytes) (c : ℕ) (t : Bytes)
    → NoDash n i
    → is_dash_place (i + n) ≡ true
    → length s ≡ n
    → uuid_from i (s ++ c ∷ t) ≡ (all is_hex s && (c == b'-' && uuid_from (suc (i + n)) t))
unfolding uuid_from
uuid_from_group n i s c t h dash k =
    let digits = uuid_from_digits n i s (c ∷ t) h k in ground (arith, dash, digits)

split_at :
    (n : ℕ) (s : Bytes)
    → n < length s
    → (g : Bytes) × (c : ℕ) × (t : Bytes) × (s ≡ g ++ c ∷ t) × (length g ≡ n)
split_at n [] h = absurd (omega arith)
split_at zero (c ∷ t) h = ([], c, t, refl, refl)
split_at (suc n) (x ∷ s) h =
    let (g, c, t, e, size) = split_at n s (omega arith) in
    (x ∷ g, c, t, ap (λ r. x ∷ r) e, ap suc size)

both : (a b : Bool) → (a && b) ≡ true → (a ≡ true) × (b ≡ true)
both true true h = (refl, refl)
both true false h = cc
both false b h = cc

-- The first group of `s`, with the dash behind it.
pub record Group (n i : ℕ) (s : Bytes) : Type 0 where
  pub group : Bytes
  pub rest : Bytes
  pub parts : s ≡ group ++ b'-' ∷ rest
  pub digits : IsDigits n group
  pub rest_from : uuid_from (suc (i + n)) rest ≡ true
  pub size : length s ≡ n + suc (length rest)

cut-Group :
    (n i : ℕ) (s : Bytes)
    → NoDash n i
    → is_dash_place (i + n) ≡ true
    → n < length s
    → uuid_from i s ≡ true
    → Group n i s
cut-Group n i s h dash k good =
    let (g, c, t, e, size) = split_at n s k in
    let (all_hex, others) =
      both _ _ (sym (uuid_from_group n i g c t h dash size) ∙ ap (uuid_from i) (sym e) ∙ good) in
    let (is_dash, from) = both _ _ others in
    let place = (==_iff c b'-').0 is_dash in
    record {
      group = g;
      rest = t;
      parts = e ∙ ap (λ x. g ++ x ∷ t) place;
      digits = record { size = size; digits = all_hex };
      rest_from = from;
      size = ap length e ∙ omega (arith, length-append g (c ∷ t), size);
    }

IsUuid-sound : (s : Bytes) → length s ≡ 36 → uuid_from 0 s ≡ true → IsUuid s
IsUuid-sound s size good =
    let p =
      cut-Group 8 0 s (refl, (refl, (refl, (refl, (refl, (refl, (refl, (refl, tt)))))))) refl
        (omega arith) good in
    let q =
      cut-Group 4 9 p.rest (refl, (refl, (refl, (refl, tt)))) refl (omega (arith, p.size))
        p.rest_from in
    let r =
      cut-Group 4 14 q.rest (refl, (refl, (refl, (refl, tt)))) refl (omega (arith, p.size, q.size))
        q.rest_from in
    let u =
      cut-Group 4 19 r.rest (refl, (refl, (refl, (refl, tt)))) refl
        (omega (arith, p.size, q.size, r.size)) r.rest_from in
    let last : length u.rest ≡ 12 = omega (arith, p.size, q.size, r.size, u.size) in
    record {
      a = p.group;
      b = q.group;
      c = r.group;
      d = u.group;
      e = u.rest;
      parts =
          p.parts
          ∙ ap (λ x. p.group ++ b'-' ∷ x)
              (q.parts
                ∙ ap (λ x. q.group ++ b'-' ∷ x) (r.parts ∙ ap (λ x. r.group ++ b'-' ∷ x) u.parts));
      a_digits = p.digits;
      b_digits = q.digits;
      c_digits = r.digits;
      d_digits = u.digits;
      e_digits = record {
        size = last;
        digits =
            (both _ _ (
              sym (
                uuid_from_digits 12 24 u.rest []
                  (
                    refl,
                    (
                      refl,
                      (
                        refl,
                        (refl, (refl, (refl, (refl, (refl, (refl, (refl, (refl, (refl, tt))))))))),
                      ),
                    ),
                  )
                  last)
              ∙ ap (uuid_from 24) (append-nil u.rest)
              ∙ u.rest_from)).0;
      };
    }

join_group :
    (n i : ℕ) (g t : Bytes)
    → NoDash n i
    → is_dash_place (i + n) ≡ true
    → IsDigits n g
    → uuid_from (suc (i + n)) t ≡ true
    → uuid_from i (g ++ b'-' ∷ t) ≡ true
join_group n i g t h dash k good = uuid_from_group n i g b'-' t h dash k.size ∙ rw (k.digits) good

join_last : (s : Bytes) → IsDigits 12 s → uuid_from 24 s ≡ true
unfolding uuid_from
join_last s k =
    ap (uuid_from 24) (sym (append-nil s))
    ∙ uuid_from_digits 12 24 s []
        (
          refl,
          (
            refl,
            (refl, (refl, (refl, (refl, (refl, (refl, (refl, (refl, (refl, (refl, tt)))))))))),
          ),
        )
        k.size
    ∙ rw (k.digits) refl

length-group :
    (n m : ℕ) (g t : Bytes) → IsDigits n g → length t ≡ m → length (g ++ b'-' ∷ t) ≡ n + suc m
length-group n m g t k h = omega (arith, length-append g (b'-' ∷ t), k.size)

IsUuid-complete : (s : Bytes) → IsUuid s → (length s ≡ 36) × (uuid_from 0 s ≡ true)
IsUuid-complete s h = rw h.parts (
  length-group 8 27 h.a _ h.a_digits (
      length-group 4 22 h.b _ h.b_digits (
        length-group 4 17 h.c _ h.c_digits (length-group 4 12 h.d h.e h.d_digits h.e_digits.size))),
  join_group 8 0 h.a _ (refl, (refl, (refl, (refl, (refl, (refl, (refl, (refl, tt)))))))) refl
      h.a_digits
      (join_group 4 9 h.b _ (refl, (refl, (refl, (refl, tt)))) refl h.b_digits
        (join_group 4 14 h.c _ (refl, (refl, (refl, (refl, tt)))) refl h.c_digits
          (join_group 4 19 h.d h.e (refl, (refl, (refl, (refl, tt)))) refl h.d_digits
            (join_last h.e h.e_digits)))),
)

-- isUUIDLike accepts exactly the strings of five groups of 8, 4, 4, 4 and 12 hexadecimal digits, of
-- either case, with dashes between them.
pub is_uuid_like_iff : (s : Bytes) → (is_uuid_like s ≡ true) ↔ IsUuid s
unfolding is_uuid_like
is_uuid_like_iff s = (
  λ h. elim (Bool-cases (length s == 36)) [
    | inl e ↦ IsUuid-sound s (ground arith) (ground arith)
    | inr e ↦ absurd (ground arith)
  ],
  λ h. let (size, good) = IsUuid-complete s h in ground arith,
)
