-- ===== src/Text/Trim/Laws.antt =====
-- Laws of trimming.
use mathlib.Core.List.{reverse-reverse, reverse-cons, reverse-append}
use opencost_ai.Prelude.{
  ℕ, Bool, true, false, ◌≡◌, refl, ap, ◌∙◌, [], ◌∷◌, ◌++◌, reverse, inl, inr, arith, all,
  all-append, Bool-cases,
}
use opencost_ai.Text.{Bytes, within}
use opencost_ai.Text.Trim.{
  space_width, last_space_width, drop_runes, trim_space, contains, trim_left, trim_right,
}

-- Printable ASCII without the space.
abbrev pub is_visible : ℕ → Bool
is_visible c = within 33 126 c

space_width_of_visible : (c : ℕ) (s : Bytes) → is_visible c ≡ true → space_width (c ∷ s) ≡ 0
unfolding space_width
space_width_of_visible c [] h = ground arith
space_width_of_visible c (b ∷ []) h = ground arith
space_width_of_visible c (b ∷ a ∷ s) h = ground arith

last_space_width_of_visible :
    (c : ℕ) (s : Bytes) → is_visible c ≡ true → last_space_width (c ∷ s) ≡ 0
unfolding last_space_width
last_space_width_of_visible c [] h = ground arith
last_space_width_of_visible c (b ∷ []) h = ground arith
last_space_width_of_visible c (b ∷ a ∷ s) h = ground arith

drop_runes_of_front :
    (width : Bytes → ℕ) (s : Bytes)
    → ((c : ℕ) (r : Bytes) → is_visible c ≡ true → width (c ∷ r) ≡ 0)
    → all is_visible s ≡ true
    → drop_runes width 0 s ≡ s
unfolding drop_runes
drop_runes_of_front width [] no_width h = refl
drop_runes_of_front width (c ∷ s) no_width h = rw (no_width c s (ground arith), drop_runes)

pub all-reverse : (p : ℕ → Bool) (s : Bytes) → all p (reverse s) ≡ all p s
all-reverse p [] = refl
all-reverse p (c ∷ s) =
    rw (reverse-cons, all-append p (reverse s) (c ∷ []), all-reverse p s) (ground arith)

-- Text of visible bytes is left alone.
pub trim_space_of_visible : (s : Bytes) → all is_visible s ≡ true → trim_space s ≡ s
unfolding trim_space
trim_space_of_visible s h =
    rw
      (
        drop_runes_of_front space_width s space_width_of_visible h,
        drop_runes_of_front last_space_width (reverse s) last_space_width_of_visible
            (all-reverse is_visible s ∙ h),
      )
      (reverse-reverse s)

-- What is trimmed off the left is gone at once.
pub trim_left_idem : (cutset s : Bytes) → trim_left cutset (trim_left cutset s) ≡ trim_left cutset s
unfolding trim_left
trim_left_idem cutset [] = refl
trim_left_idem cutset (c ∷ s) = elim (Bool-cases (contains cutset c)) [
  | inl cut_off ↦ rw cut_off (trim_left_idem cutset s)
  | inr kept ↦ rw (kept, trim_left) (rw kept)
]

pub trim_right_idem :
    (cutset s : Bytes) → trim_right cutset (trim_right cutset s) ≡ trim_right cutset s
unfolding trim_right
trim_right_idem cutset s = rw (reverse-reverse, trim_left_idem)

-- Text behind which a byte outside the cutset stands is kept.
pub trim_right_of_last :
    (cutset s : Bytes) (c : ℕ)
    → contains cutset c ≡ false
    → trim_right cutset (s ++ c ∷ []) ≡ s ++ c ∷ []
unfolding trim_right trim_left
trim_right_of_last cutset s c h =
    rw (reverse-append, h) (reverse-cons c (reverse s) ∙ ap (λ t. t ++ c ∷ []) (reverse-reverse s))

-- A byte of the cutset at the end is trimmed.
pub trim_right-append :
    (cutset s : Bytes) (c : ℕ)
    → contains cutset c ≡ true
    → trim_right cutset (s ++ c ∷ []) ≡ trim_right cutset s
unfolding trim_right trim_left
trim_right-append cutset s c h = rw (reverse-append, h)
