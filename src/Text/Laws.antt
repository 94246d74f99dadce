-- ===== src/Text/Laws.antt =====
-- Laws of the functions on bytes.
use opencost_ai.Prelude.{
  ℕ, true, ◌≡◌, ◌≢◌, ◌↔◌, refl, [], ◌∷◌, ◌++◌, some, inl, inr, arith, All, Option-cases,
}
use opencost_ai.Text.{Bytes, beq, cut}

pub beq_sound : (s t : Bytes) → beq s t ≡ true → s ≡ t
unfolding beq
beq_sound [] [] h = refl
beq_sound [] (_ ∷ _) h = cc
beq_sound (_ ∷ _) [] h = cc
beq_sound (x ∷ xs) (y ∷ ys) h = ground (arith, beq_sound xs ys)

pub beq_refl : (s : Bytes) → beq s s ≡ true
unfolding beq
beq_refl [] = refl
beq_refl (x ∷ xs) = ground (arith, beq_refl xs)

pub beq_iff : (s t : Bytes) → (beq s t ≡ true) ↔ (s ≡ t)
beq_iff s t = (beq_sound s t, λ e. rw e (beq_refl t))

-- Text cut at a separator is the part before it, which holds none, and the part behind it.
pub cut_sound :
    (sep : ℕ) (s : Bytes) {a b : Bytes}
    → cut sep s ≡ some (a, b)
    → (s ≡ a ++ sep ∷ b) × All (λ c. c ≢ sep) a
unfolding cut
cut_sound sep [] h = cc
cut_sound sep (c ∷ s) {a = []} {b} h = elim (Option-cases (cut sep s)) [
  | inl missing ↦ ground arith
  | inr ((x, y), found) ↦ ground arith
]
cut_sound sep (c ∷ s) {a = d ∷ a} {b} h = elim (Option-cases (cut sep s)) [
  | inl missing ↦ ground arith
  | inr ((x, y), found) ↦ ground (arith, cut_sound sep s found)
]

-- Text with no separator before the first one is cut there.
pub cut_append :
    (sep : ℕ) (a b : Bytes) → All (λ c. c ≢ sep) a → cut sep (a ++ sep ∷ b) ≡ some (a, b)
unfolding cut
cut_append sep [] b h = ground arith
cut_append sep (c ∷ a) b h = ground (arith, cut_append sep a b h.1)
