-- ===== src/RequestId/Validity.antt =====
-- What `validCallerID` accepts, and which ID a request gets.
use opencost_ai.Prelude.{
  ℕ, ◌≤◌, ◌<◌, ◌≡◌, ◌↔◌, ◌⊎◌, refl, true, [], ◌∷◌, arith, inl, inr, length, all, All, Bool-cases,
  ltb,
}
use opencost_ai.Text.{Bytes}
use opencost_ai.RequestId.{max_caller_id_len, is_id_byte, valid_caller_id, Entropy, new, assign_id}
use opencost_ai.RequestId.Hex.{is_hex_byte, IsInRange, new-hex}

-- A letter, a digit, or one of - . / : _ in the order of the ASCII codes.
abbrev pub IsIdByte : ℕ → Type 0
IsIdByte c = (45 ≤ c) × (c ≤ 58) ⊎ (65 ≤ c) × (c ≤ 90) ⊎ (c ≡ 95) ⊎ (97 ≤ c) × (c ≤ 122)

pub record IsCallerId (id : Bytes) : Type 0 where
  pub not_empty : 0 < length id
  pub bounded : length id ≤ 128
  pub bytes : All IsIdByte id

is_id_byte_sound : (c : ℕ) → is_id_byte c ≡ true → IsIdByte c
is_id_byte_sound c h = ground arith

is_id_byte_complete : (c : ℕ) → IsIdByte c → is_id_byte c ≡ true
is_id_byte_complete c h = ground arith

all_sound : (s : Bytes) → all is_id_byte s ≡ true → All IsIdByte s
all_sound [] h = tt
all_sound (c ∷ s) h = elim (Bool-cases (is_id_byte c)) [
  | inl good ↦ (is_id_byte_sound c good, all_sound s (rw good at h))
  | inr bad ↦ cc (rw bad at h)
]

all_complete : (s : Bytes) → All IsIdByte s → all is_id_byte s ≡ true
all_complete [] h = refl
all_complete (c ∷ s) (p, h) = rw (is_id_byte_complete c p) (all_complete s h)

valid_caller_id_sound : (id : Bytes) → valid_caller_id id ≡ true → IsCallerId id
unfolding valid_caller_id
valid_caller_id_sound [] h = cc
valid_caller_id_sound (c ∷ s) h = elim (Bool-cases (ltb max_caller_id_len (length (c ∷ s)))) [
  | inl long ↦ cc (rw long at h)
  | inr short ↦ record {
    not_empty = omega arith;
    bounded = ground arith;
    bytes = all_sound (c ∷ s) (rw short at h);
  }
]

valid_caller_id_complete : (id : Bytes) → IsCallerId id → valid_caller_id id ≡ true
unfolding valid_caller_id
valid_caller_id_complete [] v = absurd (omega (arith, v.not_empty))
valid_caller_id_complete (c ∷ s) v = elim (Bool-cases (ltb max_caller_id_len (length (c ∷ s)))) [
  | inl long ↦ absurd (ground (arith, v.bounded))
  | inr short ↦ rw short (all_complete (c ∷ s) v.bytes)
]

-- A caller's ID is honoured exactly when it has 1 to 128 bytes, each of them a letter, a digit or
-- one of - . / : _
pub valid_caller_id_iff : (id : Bytes) → (valid_caller_id id ≡ true) ↔ IsCallerId id
valid_caller_id_iff id = (valid_caller_id_sound id, valid_caller_id_complete id)

is_hex_byte_sound : (c : ℕ) → is_hex_byte c ≡ true → IsIdByte c
is_hex_byte_sound c h = ground arith

hex_sound : (s : Bytes) → all is_hex_byte s ≡ true → All IsIdByte s
hex_sound [] h = tt
hex_sound (c ∷ s) h = elim (Bool-cases (is_hex_byte c)) [
  | inl good ↦ (is_hex_byte_sound c good, hex_sound s (rw good at h))
  | inr bad ↦ cc (rw bad at h)
]

new-IsCallerId : (e : Entropy) → IsInRange e → IsCallerId (new e)
new-IsCallerId e r =
    let (size, digits) = new-hex e r in
    record { not_empty = omega arith; bounded = omega arith; bytes = hex_sound (new e) digits }

-- Whatever the caller sends, the assigned ID is a valid one: the caller's own if that is valid, and a
-- fresh one otherwise.
pub assign_id-IsCallerId :
    (header : Bytes) (e : Entropy)
    → IsInRange e
    → IsCallerId (assign_id header e)
      × ((IsCallerId header × (assign_id header e ≡ header))
          ⊎ ((¬ IsCallerId header) × (assign_id header e ≡ new e)))
unfolding assign_id
assign_id-IsCallerId header e r = elim (Bool-cases (valid_caller_id header)) [
  | inl good ↦ let v = valid_caller_id_sound header good in rw good (v, inl (v, refl))
  | inr bad ↦ rw bad (new-IsCallerId e r, inr (λ v. cc (valid_caller_id_complete header v), refl))
]
