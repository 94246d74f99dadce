-- ===== src/Bridge/Stream/Frames.antt =====
-- Reading a stream to its end yields the frames of its text.
use opencost_ai.Prelude.{
  ℕ, zero, suc, ◌<◌, ◌≡◌, refl, true, false, List, [], ◌∷◌, ◌++◌, Option, none, some, Result, ok,
  err, length, is_nil, arith, Bool-cases, Option-cases, inl, inr, All, length-append, ap, ◌∙◌, sym,
}
use opencost_ai.Text.{Bytes, cut}
use opencost_ai.Text.Laws.{cut_sound}
use opencost_ai.Text.Trim.{trim_right, trim_left}
use opencost_ai.Text.Trim.Laws.{trim_right-append}
use opencost_ai.Bridge.Stream.{
  Body, at, Slice, line, last, read_slice, line_end, StreamError, decode_failed, Outcome, chunk,
  eof, failed, decoded, round, next_loop,
}
use opencost_ai.Bridge.Stream.Lines.{lines, lines_of, lines-cut, frames}

module _ {Chunk : Type 0} (decode : Bytes → Result Bytes Chunk) (size : ℕ) where
  abbrev pub found_chunk :
      Chunk → Option (List Chunk × Option StreamError) → Option (List Chunk × Option StreamError)
  found_chunk c none = none
  found_chunk c (some (cs, e)) = some (c ∷ cs, e)

  abbrev onto :
      Result Bytes Chunk → List Chunk × Option StreamError → List Chunk × Option StreamError
  onto (ok c) (cs, e) = (c ∷ cs, e)
  onto (err e') _ = ([], some (decode_failed e'))

  -- The chunks in front of the end of the stream or its first error.
  unfoldable pub decode_all : List Bytes → List Chunk × Option StreamError
  decode_all [] = ([], none)
  decode_all (f ∷ fs) = onto (decode f) (decode_all fs)

  abbrev pub after_next :
      (Body → Option (List Chunk × Option StreamError))
      → Option (Outcome decode × Body)
      → Option (List Chunk × Option StreamError)
  after_next more none = none
  after_next more (some (chunk c, b)) = found_chunk c (more b)
  after_next more (some (eof, b)) = some ([], none)
  after_next more (some (failed e, b)) = some ([], some e)

  -- The caller's loop: `Next` until io.EOF or an error.
  unfoldable pub read_all : ℕ → Body → Option (List Chunk × Option StreamError)
  read_all zero b = none
  read_all (suc fuel) b =
      after_next (λ b'. read_all fuel b') (next_loop decode size (suc (length b.remaining)) b)

  abbrev pub Fits : Bytes → Type 0
  Fits s = All (λ l. length l < size) (lines s)

  data NextLoop (b : Body) (r : Option (Outcome decode × Body)) : Type 0 where
    ended : (b' : Body) → frames (lines b.remaining) ≡ [] → r ≡ some (eof, b') → NextLoop b r
    framed :
        (f rest : Bytes)
        → frames (lines b.remaining) ≡ f ∷ frames (lines rest)
        → r ≡ some (decoded decode (decode f), at b rest)
        → length rest < length b.remaining
        → Fits rest
        → NextLoop b r

  read_slice_uncut :
      (b : Body)
      → cut b'\n' b.remaining ≡ none
      → length b.remaining < size
      → read_slice size b ≡ (last b.remaining, at b [])
  unfolding read_slice
  read_slice_uncut b uncut short = rw (uncut, read_slice) (ground arith)

  read_slice-cut :
      (b : Body) {before after : Bytes}
      → cut b'\n' b.remaining ≡ some (before, after)
      → length before < size
      → read_slice size b ≡ (line (before ++ b'\n' ∷ []), at b after)
  unfolding read_slice
  read_slice-cut b found short = rw (found, read_slice) (ground arith)

  -- The bytes in front of the first newline and those behind it are fewer than all.
  pub length-cut : (s : Bytes) {a b : Bytes} → cut b'\n' s ≡ some (a, b) → length b < length s
  length-cut s {a} {b} found =
      omega (arith, ap length (cut_sound b'\n' s found).0, length-append {0} a (b'\n' ∷ b))

  NextLoop-widen :
      {b : Body} {after : Bytes} {r : Option (Outcome decode × Body)}
      → frames (lines b.remaining) ≡ frames (lines after)
      → length after < length b.remaining
      → NextLoop (at b after) r
      → NextLoop b r
  NextLoop-widen e lt (ended b' none_left is_r) = ended b' (e ∙ none_left) is_r
  NextLoop-widen e lt (framed f rest first is_r shorter fits) =
      framed f rest (e ∙ first) is_r (omega arith) fits

  frames-blank :
      (l : Bytes) (ls : List Bytes)
      → is_nil (trim_right line_end l) ≡ true
      → frames (l ∷ ls) ≡ frames ls
  unfolding frames
  frames-blank l ls h = rw h

  frames-solid :
      (l : Bytes) (ls : List Bytes)
      → is_nil (trim_right line_end l) ≡ false
      → frames (l ∷ ls) ≡ trim_right line_end l ∷ frames ls
  unfolding frames
  frames-solid l ls h = rw h

  frames-last : frames (lines []) ≡ []
  unfolding frames lines trim_right trim_left
  frames-last = refl

  length-pos : (s : Bytes) → is_nil (trim_right line_end s) ≡ false → 0 < length s
  unfolding trim_right trim_left
  length-pos [] h = cc
  length-pos (c ∷ s) h = omega arith

  frames-nil : frames [] ≡ []
  unfolding frames
  frames-nil = refl

  Fits-nil : 0 < size → Fits []
  unfolding lines
  Fits-nil h = (h, tt)

  abbrev pub after_round :
      Option (Outcome decode × Body)
      → Body
      → Option (Outcome decode)
      → Option (Outcome decode × Body)
  after_round other b' (some o) = some (o, b')
  after_round other b' none = other

  -- A line that is the last of the body, and a line with a newline.
  round_last :
      (b : Body)
      → lines b.remaining ≡ b.remaining ∷ []
      → length b.remaining < size
      → (other : Option (Outcome decode × Body))
      → NextLoop b (after_round other (at b []) (round decode (last b.remaining) none))
  unfolding round
  round_last b split short other = elim (Bool-cases (is_nil (trim_right line_end b.remaining))) [
    | inl blank ↦
        rw blank
          (ended (at b []) (ap frames split ∙ frames-blank b.remaining [] blank ∙ frames-nil) refl)
    | inr solid ↦ rw solid (
        framed (trim_right line_end b.remaining) []
          (ap frames split
            ∙ frames-solid b.remaining [] solid
            ∙ ap (λ fs. trim_right line_end b.remaining ∷ fs) (frames-nil ∙ sym frames-last))
          refl (length-pos b.remaining solid) (Fits-nil (omega arith)))
  ]

  round_line :
      (b : Body) (before after : Bytes)
      → lines b.remaining ≡ before ∷ lines after
      → length after < length b.remaining
      → Fits after
      → {other : Option (Outcome decode × Body)} → NextLoop (at b after) other
      → NextLoop b
          (after_round other (at b after) (round decode (line (before ++ b'\n' ∷ [])) none))
  unfolding round
  round_line b before after split lt fits rest =
      rw (trim_right-append line_end before b'\n' refl)
        (elim (Bool-cases (is_nil (trim_right line_end before))) [
          | inl blank ↦
              rw blank
                (NextLoop-widen (ap frames split ∙ frames-blank before (lines after) blank) lt rest)
          | inr solid ↦ rw solid (
              framed (trim_right line_end before) after
                (ap frames split ∙ frames-solid before (lines after) solid) refl lt fits)
        ])

  pub next_loop-suc :
      (fuel : ℕ) (b : Body) {slice : Slice} {b' : Body} {failure : Option Bytes}
      → read_slice size b ≡ (slice, b')
      → b.failure ≡ failure
      → next_loop decode size (suc fuel) b
        ≡ after_round (next_loop decode size fuel b') b' (round decode slice failure)
  unfolding next_loop
  next_loop-suc fuel b {slice} {b'} e q =
      ap
        (λ (p : Slice × Body).
          after_round (next_loop decode size fuel p.1) p.1 (round decode p.0 b.failure))
        e
      ∙ ap (λ f. after_round (next_loop decode size fuel b') b' (round decode slice f)) q

  -- `Next` returns the first frame of the text and leaves the others, or io.EOF if there is none.
  next_loop-NextLoop :
      (fuel : ℕ) (b : Body)
      → length b.remaining < fuel
      → b.failure ≡ none
      → Fits b.remaining
      → NextLoop b (next_loop decode size fuel b)
  next_loop-NextLoop zero b enough quiet fits = absurd (omega arith)
  next_loop-NextLoop (suc fuel) b enough quiet fits = elim (Option-cases (cut b'\n' b.remaining)) [
    | inl uncut ↦
        let split = lines-cut b.remaining ∙ ap (lines_of b.remaining) uncut in
        let short = (rw split at fits).0 in
        rw (next_loop-suc fuel b (read_slice_uncut b uncut short) quiet)
          (round_last b split short (next_loop decode size fuel (at b [])))
    | inr ((before, after), found) ↦
        let split = lines-cut b.remaining ∙ ap (lines_of b.remaining) found in
        let fits' = rw split at fits in
        let lt = length-cut b.remaining found in
        rw (next_loop-suc fuel b (read_slice-cut b found fits'.0) quiet) (
          round_line b before after split lt fits'.1
            (next_loop-NextLoop fuel (at b after) (omega arith) quiet fits'.1))
  ]

  after_frame :
      (fuel : ℕ) (d : Result Bytes Chunk) (b : Body) (fs : List Bytes)
      → read_all fuel b ≡ some (decode_all fs)
      → after_next (λ b'. read_all fuel b') (some (decoded decode d, b))
        ≡ some (onto d (decode_all fs))
  after_frame fuel (ok c) b fs h = ap (found_chunk c) h
  after_frame fuel (err e) b fs h = refl

  read_all-NextLoop :
      (fuel : ℕ) (b : Body)
      → NextLoop b (next_loop decode size (suc (length b.remaining)) b)
      → ((rest : Bytes)
          → length rest < length b.remaining
          → Fits rest
          → read_all fuel (at b rest) ≡ some (decode_all (frames (lines rest))))
      → read_all (suc fuel) b ≡ some (decode_all (frames (lines b.remaining)))
  unfolding read_all decode_all
  read_all-NextLoop fuel b (ended b' none_left is_r) ih =
      ap (after_next (λ b'. read_all fuel b')) is_r
      ∙ ap (λ fs. some (decode_all fs)) (sym none_left)
  read_all-NextLoop fuel b (framed f rest first is_r shorter fits) ih =
      ap (after_next (λ b'. read_all fuel b')) is_r
      ∙ after_frame fuel (decode f) (at b rest) (frames (lines rest)) (ih rest shorter fits)
      ∙ ap (λ fs. some (decode_all fs)) (sym first)

  -- A stream whose lines all fit the reader's buffer, read to its end: the chunks are those of its
  -- frames, in order, up to the first that cannot be decoded. No fuel runs out.
  pub read_all-frames :
      (fuel : ℕ) (b : Body)
      → length b.remaining < fuel
      → b.failure ≡ none
      → Fits b.remaining
      → read_all fuel b ≡ some (decode_all (frames (lines b.remaining)))
  read_all-frames zero b enough quiet fits = absurd (omega arith)
  read_all-frames (suc fuel) b enough quiet fits =
      read_all-NextLoop fuel b
        (next_loop-NextLoop (suc (length b.remaining)) b (omega arith) quiet fits)
        (λ rest lt fits'. read_all-frames fuel (at b rest) (omega arith) quiet fits')
