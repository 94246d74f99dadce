-- ===== src/Bridge/Stream.antt =====
-- internal/bridge/stream.go: the iterator over newline-delimited JSON frames.
pub mod Lines
pub mod Frames
pub mod Limit
pub mod Total
use opencost_ai.Prelude.{
  ℕ, zero, suc, ◌+◌, ◌^◌, Bool, true, false, not, ◌&&◌, ◌||◌, List, [], ◌∷◌, ◌++◌, Option, none,
  some, Result, ok, err, ltb, ◌==◌, if◌then◌else◌, length, drop, is_nil,
}
use opencost_ai.Text.{Bytes, cut}
use opencost_ai.Text.Trim.{trim_right}

abbrev pub max_stream_line_bytes : ℕ
max_stream_line_bytes = 2 ^ 20

-- The size that `newChatStream` gives the `bufio.Reader`.
unfoldable pub reader_size : ℕ
reader_size = max_stream_line_bytes + 1

-- What the response body will still yield: bytes, and then io.EOF (`failure` is `none`) or another
-- error. `at_once` says whether the read that yields the last bytes reports the end too.
pub record Body : Type 0 where
  pub remaining : Bytes
  pub failure : Option Bytes
  pub at_once : Bool

-- The three outcomes of `ReadSlice('\n')`: a line with its newline, the bytes in front of the
-- body's end, and a buffer that is full with no newline in it.
pub data Slice : Type 0 where
  line last : Bytes → Slice
  full : Slice

abbrev pub at : Body → Bytes → Body
at b rest = record b { remaining = rest }

-- `bufio.Reader.ReadSlice('\n')` with a buffer of `size` bytes. The buffer holds the bytes from
-- the start of the line on; it is given up as full when `size` of them hold no newline and no end
-- has been reported.
unfoldable pub read_slice : ℕ → Body → Slice × Body
read_slice size b = elim (cut b'\n' b.remaining) [
  | some (before, after) ↦
      if ltb (length before) size
      then (line (before ++ b'\n' ∷ []), at b after)
      else (full, at b (drop size b.remaining))
  | none ↦
      if ltb (length b.remaining) size || (length b.remaining == size && b.at_once)
      then (last b.remaining, at b [])
      else (full, at b (drop size b.remaining))
]

-- "\r\n", what the loop behind `ReadSlice` strips off the end
abbrev pub line_end : Bytes
line_end = b'\r' ∷ b'\n' ∷ []

-- the errors of `Next` other than io.EOF
pub data StreamError : Type 0 where
  line_too_long : StreamError
  transport : Bytes → StreamError
  decode_failed : Bytes → StreamError

-- `json.Unmarshal` into a chunk is the argument `decode`.
module _ {Chunk : Type 0} (decode : Bytes → Result Bytes Chunk) where
  pub data Outcome : Type 0 where
    chunk : Chunk → Outcome
    eof : Outcome
    failed : StreamError → Outcome

  abbrev pub decoded : Result Bytes Chunk → Outcome
  decoded (ok c) = chunk c
  decoded (err e) = failed (decode_failed e)

  -- What one round of the loop returns; `none` goes on to the next round.
  unfoldable pub round : Slice → Option Bytes → Option Outcome
  round full failure = some (failed line_too_long)
  round (line s) failure =
      let stripped = trim_right line_end s in
      if is_nil stripped then none else some (decoded (decode stripped))
  round (last s) (some e) = some (failed (transport e))
  round (last s) none =
      let stripped = trim_right line_end s in
      if is_nil stripped then some eof else some (decoded (decode stripped))

  -- The loop of `Next`; the outer `none` is the end of the fuel.
  unfoldable pub next_loop : ℕ → ℕ → Body → Option (Outcome × Body)
  next_loop size zero b = none
  next_loop size (suc fuel) b =
      let (slice, b') = read_slice size b in
      elim (round slice b.failure) [ some o ↦ some (o, b') | none ↦ next_loop size fuel b' ]

  -- `closed` and the body of a `ChatStream`
  pub record ChatStream : Type 0 where
    pub body : Body
    pub closed : Bool

  unfoldable pub new_chat_stream : Body → ChatStream
  new_chat_stream b = record { body = b; closed = false }

  abbrev pub with_body : ChatStream → Option (Outcome × Body) → Option (Outcome × ChatStream)
  with_body s none = none
  with_body s (some (o, b)) = some (o, record s { body = b })

  -- A round takes a line, so that a round more than there are bytes is enough.
  unfoldable pub next : ChatStream → Option (Outcome × ChatStream)
  next s =
      if s.closed
      then some (eof, s)
      else with_body s (next_loop reader_size (suc (length s.body.remaining)) s.body)

  -- `Close`: the drained bytes are those in front of the limit of 1 << 16. The error is that of the
  -- body's own `Close`.
  unfoldable pub close : Option Bytes → ChatStream → Option Bytes × ChatStream
  close body_error s =
      if s.closed
      then (none, s)
      else (body_error, record { closed = true; body = at s.body (drop (2 ^ 16) s.body.remaining) })
