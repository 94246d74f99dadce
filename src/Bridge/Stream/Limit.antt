-- ===== src/Bridge/Stream/Limit.antt =====
-- The limit on the length of a line.
use opencost_ai.Prelude.{
  ℕ, false, suc, ◌≤◌, ◌<◌, ◌≡◌, ◌≢◌, refl, [], ◌∷◌, ◌++◌, some, Result, length, arith, All, ap, ◌∙◌,
}
use opencost_ai.Text.{Bytes, cut}
use opencost_ai.Text.Laws.{cut_append}
use opencost_ai.Bridge.Stream.Frames.{next_loop-suc}
use opencost_ai.Bridge.Stream.{
  max_stream_line_bytes, reader_size, Body, at, line, full, read_slice, line_too_long, failed,
  round, ChatStream, next_loop, next, with_body,
}

reader_size_lem : reader_size ≡ suc max_stream_line_bytes
unfolding reader_size
reader_size_lem = refl

module _ (size : ℕ) (b : Body) (content rest : Bytes) where
  read_slice_within :
      b.remaining ≡ content ++ b'\n' ∷ rest
      → All (λ c. c ≢ b'\n') content
      → length content < size
      → read_slice size b ≡ (line (content ++ b'\n' ∷ []), at b rest)
  unfolding read_slice
  read_slice_within e one_line short =
      rw (ap (cut b'\n') e ∙ cut_append b'\n' content rest one_line, read_slice) (ground arith)

  read_slice_beyond :
      b.remaining ≡ content ++ b'\n' ∷ rest
      → All (λ c. c ≢ b'\n') content
      → size ≤ length content
      → (read_slice size b).0 ≡ full
  unfolding read_slice
  read_slice_beyond e one_line long =
      rw (ap (cut b'\n') e ∙ cut_append b'\n' content rest one_line, read_slice) (ground arith)

next_loop-full :
    {Chunk : Type 0} (decode : Bytes → Result Bytes Chunk) (size fuel : ℕ) (b : Body)
    → (read_slice size b).0 ≡ full
    → next_loop decode size (suc fuel) b ≡ some (failed line_too_long, (read_slice size b).1)
unfolding round
next_loop-full decode size fuel b e =
    next_loop-suc decode size fuel b (ap (λ sl. (sl, (read_slice size b).1)) e) refl

next-open :
    {Chunk : Type 0} (decode : Bytes → Result Bytes Chunk) (s : ChatStream decode)
    → s.closed ≡ false
    → next decode s
      ≡ with_body decode s (next_loop decode reader_size (suc (length s.body.remaining)) s.body)
unfolding next
next-open decode s is_open = simp is_open

-- A line of up to 1 MiB in front of its newline is read whole; a longer one ends the stream with an
-- error, whatever follows.
pub next-limit :
    {Chunk : Type 0} (decode : Bytes → Result Bytes Chunk) (s : ChatStream decode)
    (content rest : Bytes)
    → s.closed ≡ false
    → s.body.remaining ≡ content ++ b'\n' ∷ rest
    → All (λ c. c ≢ b'\n') content
    → (length content ≤ max_stream_line_bytes
        → read_slice reader_size s.body ≡ (line (content ++ b'\n' ∷ []), at s.body rest))
      × (max_stream_line_bytes < length content
          → (s' : ChatStream decode) × (next decode s ≡ some (failed line_too_long, s')))
next-limit {Chunk} decode s content rest is_open e one_line = (
  λ short.
      read_slice_within reader_size s.body content rest e one_line (omega (arith, reader_size_lem)),
  λ long. (
    record s { body = (read_slice reader_size s.body).1 },
    next-open decode s is_open
        ∙ (ap (with_body decode s) (
            next_loop-full decode reader_size (length s.body.remaining) s.body (
              read_slice_beyond reader_size s.body content rest e one_line
                (omega (arith, reader_size_lem))))),
  ),
)
