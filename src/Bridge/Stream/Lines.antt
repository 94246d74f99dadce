-- ===== src/Bridge/Stream/Lines.antt =====
-- The lines of a body, and the frames among them.
use opencost_ai.Prelude.{
  ◌++◌, ◌≢◌, ap, ◌∙◌, All, ℕ, ◌≡◌, refl, List, [], ◌∷◌, Option, none, some, ◌==◌, if◌then◌else◌,
  is_nil, Bool-cases, Option-cases, inl, inr,
}
use opencost_ai.Text.{Bytes, cut}
use opencost_ai.Text.Laws.{cut_append}
use opencost_ai.Text.Trim.{trim_right}
use opencost_ai.Bridge.Stream.{line_end}

abbrev pub onto_first : ℕ → List Bytes → List Bytes
onto_first c [] = (c ∷ []) ∷ []
onto_first c (l ∷ ls) = (c ∷ l) ∷ ls

-- The text split at its newlines; the last line is what stands behind the last newline.
unfoldable pub lines : Bytes → List Bytes
lines [] = [] ∷ []
lines (c ∷ s) = if c == b'\n' then [] ∷ lines s else onto_first c (lines s)

abbrev pub lines_of : Bytes → Option (Bytes × Bytes) → List Bytes
lines_of s none = s ∷ []
lines_of s (some (a, b)) = a ∷ lines b

pub lines-cut : (s : Bytes) → lines s ≡ lines_of s (cut b'\n' s)
unfolding lines cut
lines-cut [] = refl
lines-cut (c ∷ s) = elim (Bool-cases (c == b'\n')) [
  | inl newline ↦ rw newline
  | inr other ↦ elim (Option-cases (cut b'\n' s)) [
    | inl uncut ↦ rw (other, lines-cut s, uncut)
    | inr ((a, b), found) ↦ rw (other, lines-cut s, found)
  ]
]

pub lines-append : (a s : Bytes) → All (λ c. c ≢ b'\n') a → lines (a ++ (b'\n' ∷ s)) ≡ a ∷ lines s
lines-append a s h = lines-cut (a ++ (b'\n' ∷ s)) ∙ ap (lines_of _) (cut_append b'\n' a s h)

-- The frames of a text: its lines without their line ends, blank ones left out.
unfoldable pub frames : List Bytes → List Bytes
frames [] = []
frames (l ∷ ls) =
    let stripped = trim_right line_end l in
    if is_nil stripped then frames ls else stripped ∷ frames ls
