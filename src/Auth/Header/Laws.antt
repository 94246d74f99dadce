-- ===== src/Auth/Header/Laws.antt =====
-- What `extractBearer` accepts.
use opencost_ai.Prelude.{
  ◌≡◌, ◌≢◌, refl, true, [], ◌∷◌, ◌++◌, ok, all, All, is_nil, is_nil-ne, is_nil-append, Bool-cases,
  Option-cases, inl, inr, map, ◌↔◌,
}
use opencost_ai.Text.{Bytes, cut, equal_fold, lower_byte}
use opencost_ai.Text.Laws.{cut_append, cut_sound, beq_sound, beq_refl}
use opencost_ai.Text.Trim.{trim_space}
use opencost_ai.Text.Trim.Laws.{is_visible, trim_space_of_visible}
use opencost_ai.Auth.Header.{bearer_scheme, extract_bearer}

-- A spelling of the scheme: "bearer" in any mixture of cases.
abbrev pub IsScheme : Bytes → Type 0
IsScheme s = map lower_byte s ≡ map lower_byte bearer_scheme

-- The header is the scheme in any case, a space, and a token behind optional white space.
pub record Bears (header token : Bytes) : Type 0 where
  pub scheme : Bytes
  pub rest : Bytes
  pub split : header ≡ scheme ++ b' ' ∷ rest
  pub one_word : All (λ c. c ≢ b' ') scheme
  pub is_scheme : IsScheme scheme
  pub trimmed : trim_space rest ≡ token
  pub not_empty : token ≢ []

equal_fold-IsScheme : (s : Bytes) → equal_fold s bearer_scheme ≡ true → IsScheme s
unfolding equal_fold
equal_fold-IsScheme s h = beq_sound _ _ h

IsScheme-equal_fold : (s : Bytes) → IsScheme s → equal_fold s bearer_scheme ≡ true
unfolding equal_fold
IsScheme-equal_fold s e = rw e (beq_refl (map lower_byte bearer_scheme))

extract_bearer_sound :
    (header token : Bytes) → extract_bearer header ≡ ok token → Bears header token
unfolding extract_bearer
extract_bearer_sound [] token h = cc
extract_bearer_sound (c ∷ s) token h = elim (Option-cases (cut b' ' (c ∷ s))) [
  | inl uncut ↦ cc (rw uncut at h)
  | inr ((scheme, rest), found) ↦ elim (Bool-cases (equal_fold scheme bearer_scheme)) [
    | inl good ↦ elim (Bool-cases (is_nil (trim_space rest))) [
      | inl blank ↦ cc (rw (found, good, blank) at h)
      | inr solid ↦ record {
        scheme = scheme;
        rest = rest;
        split = (cut_sound b' ' (c ∷ s) found).0;
        one_word = (cut_sound b' ' (c ∷ s) found).1;
        is_scheme = equal_fold-IsScheme scheme good;
        trimmed = cc (rw (found, good, solid) at h);
        not_empty = λ e. cc (rw (found, good, solid) at h);
      }
    ]
    | inr bad ↦ cc (rw (found, bad) at h)
  ]
]

extract_bearer_complete :
    (header token : Bytes) → Bears header token → extract_bearer header ≡ ok token
unfolding extract_bearer
extract_bearer_complete header token b = rw (
  b.split,
  is_nil-append b.scheme b' ' b.rest,
  cut_append b' ' b.scheme b.rest b.one_word,
  IsScheme-equal_fold b.scheme b.is_scheme,
  b.trimmed,
  is_nil-ne token b.not_empty,
)

-- A header passes with a token exactly when it bears that token.
pub extract_bearer_iff :
    (header token : Bytes) → (extract_bearer header ≡ ok token) ↔ Bears header token
extract_bearer_iff header token =
    (extract_bearer_sound header token, extract_bearer_complete header token)

-- A client that sends "Bearer " (in any case) and a token of visible ASCII gets that token through.
pub extract_bearer_of_visible :
    (scheme token : Bytes)
    → All (λ c. c ≢ b' ') scheme
    → IsScheme scheme
    → all is_visible token ≡ true
    → token ≢ []
    → extract_bearer (scheme ++ b' ' ∷ token) ≡ ok token
extract_bearer_of_visible scheme token one_word is_scheme visible solid =
    extract_bearer_complete _ token (record {
      scheme = scheme;
      rest = token;
      split = refl;
      one_word = one_word;
      is_scheme = is_scheme;
      trimmed = trim_space_of_visible token visible;
      not_empty = solid;
    })
