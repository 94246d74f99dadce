-- ===== src/Bridge/Stream/Total.antt =====
-- The caller's loop over Next of internal/bridge/stream.go, on any body.
use opencost_ai.Prelude.{
  ℕ, zero, suc, ◌≤◌, ◌<◌, ◌≡◌, refl, false, ◌&&◌, ◌||◌, ◌==◌, List, [], ◌∷◌, Option, none, some,
  Result, ok, err, length, length-drop-le, ltb, is_nil, arith, Bool-cases, Option-cases, inl, inr,
}
use opencost_ai.Text.{Bytes, cut}
use opencost_ai.Text.Trim.{trim_right, trim_left}
use opencost_ai.Bridge.Stream.{
  Body, at, Slice, line, last, full, read_slice, line_end, StreamError, Outcome, chunk, eof, failed,
  decoded, round, next_loop,
}
use opencost_ai.Bridge.Stream.Frames.{read_all, next_loop-suc, length-cut}

-- What a round reads: a line takes its newline, the last bytes are all.
data Read (b : Body) (r : Slice × Body) : Type 0 where
  read_line :
      (s : Bytes) (b' : Body)
      → r ≡ (line s, b')
      → length b'.remaining < length b.remaining
      → Read b r
  read_last : r ≡ (last b.remaining, at b []) → Read b r
  read_full : (b' : Body) → r ≡ (full, b') → length b'.remaining ≤ length b.remaining → Read b r

module _ {Chunk : Type 0} (decode : Bytes → Result Bytes Chunk) (size : ℕ) where
  read_slice-Read : (b : Body) → Read b (read_slice size b)
  unfolding read_slice
  read_slice-Read b = elim (Option-cases (cut b'\n' b.remaining)) [
    | inr ((before, after), found) ↦ elim (Bool-cases (ltb (length before) size)) [
      | inl short ↦
          rw (read_slice, found, short)
            (read_line _ _ refl (length-cut decode size b.remaining found))
      | inr long ↦ rw (read_slice, found, long) (read_full _ refl (length-drop-le size b.remaining))
    ]
    | inl uncut ↦
        elim (Bool-cases
          (ltb (length b.remaining) size || (length b.remaining == size && b.at_once))) [
            | inl short ↦ rw (read_slice, uncut, short) (read_last refl)
            | inr long ↦
                rw (read_slice, uncut, long) (read_full _ refl (length-drop-le size b.remaining))
          ]
  ]

  -- A call of Next returns, and a chunk has taken a byte at least.
  pub data Returned (b : Body) (r : Option (Outcome decode × Body)) : Type 0 where
    with_chunk :
        (c : Chunk) (b' : Body)
        → r ≡ some (chunk c, b')
        → length b'.remaining < length b.remaining
        → Returned b r
    with_eof : (b' : Body) → r ≡ some (eof, b') → Returned b r
    with_error : (e : StreamError) (b' : Body) → r ≡ some (failed e, b') → Returned b r

  decoded-Returned :
      (b b' : Body) (d : Result Bytes Chunk)
      → length b'.remaining < length b.remaining
      → Returned b (some (decoded decode d, b'))
  decoded-Returned b b' (ok c) lt = with_chunk c b' refl lt
  decoded-Returned b b' (err e) lt = with_error _ b' refl

  -- What is left of a call from a shorter body
  Returned-longer :
      {b b' : Body} {r : Option (Outcome decode × Body)}
      → length b'.remaining < length b.remaining
      → Returned b' r
      → Returned b r
  Returned-longer lt (with_chunk c b'' e k) = with_chunk c b'' e (omega arith)
  Returned-longer lt (with_eof b'' e) = with_eof b'' e
  Returned-longer lt (with_error x b'' e) = with_error x b'' e

  length-solid : (s : Bytes) → is_nil (trim_right line_end s) ≡ false → 0 < length s
  unfolding trim_right trim_left
  length-solid [] h = cc
  length-solid (c ∷ s) h = omega arith

  next_loop-Returned :
      (fuel : ℕ) (b : Body) → length b.remaining < fuel → Returned b (next_loop decode size fuel b)
  unfolding round
  next_loop-Returned zero b enough = absurd (omega arith)
  next_loop-Returned (suc fuel) b enough = elim (read_slice-Read b) [
    | read_full b' e le ↦ rw (next_loop-suc decode size fuel b e refl) (with_error _ b' refl)
    | read_line s b' e lt ↦
        rw (next_loop-suc decode size fuel b e refl)
          (elim (Bool-cases (is_nil (trim_right line_end s))) [
            | inl blank ↦ rw blank (Returned-longer lt (next_loop-Returned fuel b' (omega arith)))
            | inr solid ↦ rw solid (decoded-Returned b b' (decode (trim_right line_end s)) lt)
          ])
    | read_last e ↦ elim (Option-cases b.failure) [
      | inr (cause, f) ↦ rw (next_loop-suc decode size fuel b e f) (with_error _ _ refl)
      | inl f ↦
          rw (next_loop-suc decode size fuel b e f)
            (elim (Bool-cases (is_nil (trim_right line_end b.remaining))) [
              | inl blank ↦ rw blank (with_eof _ refl)
              | inr solid ↦ rw solid (
                  decoded-Returned b (at b []) (decode (trim_right line_end b.remaining))
                    (length-solid b.remaining solid))
            ])
    ]
  ]

  -- The caller's loop over Next ends on every body, with as many rounds as there are bytes and one
  -- more.
  pub read_all-total :
      (fuel : ℕ) (b : Body)
      → length b.remaining < fuel
      → (chunks : List Chunk) × (e : Option StreamError) × (read_all decode size fuel b
          ≡ some (chunks, e))
  unfolding read_all
  read_all-total zero b enough = absurd (omega arith)
  read_all-total (suc fuel) b enough =
      elim (next_loop-Returned (suc (length b.remaining)) b (omega arith)) [
        | with_eof b' r ↦ rw (read_all, r) ([], none, refl)
        | with_error x b' r ↦ rw (read_all, r) ([], some x, refl)
        | with_chunk c b' r lt ↦
            let (chunks, e, rest) = read_all-total fuel b' (omega arith) in
            rw (read_all, r, rest) (c ∷ chunks, e, refl)
      ]
