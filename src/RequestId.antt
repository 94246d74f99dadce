-- ===== src/RequestId.antt =====
-- internal/requestid/requestid.go: the correlation token of a request.
mod Tests
pub mod Hex
pub mod Validity
use opencost_ai.Prelude.{
  ℕ, zero, suc, ◌+◌, ◌/◌, ◌%◌, ◌-◌, ◌^◌, Bool, true, false, not, ◌&&◌, ◌||◌, List, [], ◌∷◌, ◌++◌,
  Option, none, some, ltb, ◌==◌, if◌then◌else◌, length, all, is_nil,
}
use opencost_ai.Text.{Bytes, within, text}

abbrev pub max_caller_id_len : ℕ
max_caller_id_len = 128

-- the cases of the `switch` that do not return
abbrev pub is_id_byte : ℕ → Bool
is_id_byte c =
    within b'0' b'9' c
    || within b'a' b'z' c
    || within b'A' b'Z' c
    || (c == b'-' || c == b'_' || c == b'.' || c == b':' || c == b'/')

unfoldable pub valid_caller_id : Bytes → Bool
valid_caller_id id =
    if is_nil id || ltb max_caller_id_len (length id) then false else all is_id_byte id

-- a digit of `hex.EncodeToString` and of %x
abbrev pub hex_digit : ℕ → ℕ
hex_digit d = if ltb d 10 then b'0' + d else b'a' + (d - 10)

-- `hex.EncodeToString`
unfoldable pub hex_encode : Bytes → Bytes
hex_encode [] = []
hex_encode (c ∷ s) = hex_digit (c / 16) ∷ hex_digit (c % 16) ∷ hex_encode s

-- %x: digits of `n` in front of `acc`, the last first; `fuel` bounds their number
unfoldable pub hex_digits : ℕ → ℕ → Bytes → Bytes
hex_digits zero n acc = acc
hex_digits (suc fuel) n acc =
    let rest = hex_digits fuel (n / 16) (hex_digit (n % 16) ∷ acc) in
    if ltb n 16 then hex_digit n ∷ acc else rest

abbrev zeros : ℕ → Bytes
zeros zero = []
zeros (suc n) = b'0' ∷ zeros n

-- `fmt.Sprintf("%016x", n)` for a uint64: the digits, padded on the left with zeros
abbrev pad : Bytes → Bytes
pad digits = zeros (16 - length digits) ++ digits

unfoldable pub format_016x : ℕ → Bytes
unfolding hex_digits
format_016x n = pad (hex_digits 16 n [])

-- What `New` reads: the bytes of `rand.Read`, or its failure with the clock's nanoseconds, the
-- bit pattern of an int64.
pub data Entropy : Type 0 where
  random : (b0 b1 b2 b3 b4 b5 b6 b7 : ℕ) → Entropy
  failed : (unix_nano : ℕ) → Entropy

unfoldable pub new : Entropy → Bytes
unfolding hex_encode format_016x
new (random b0 b1 b2 b3 b4 b5 b6 b7) = hex_encode (b0 ∷ b1 ∷ b2 ∷ b3 ∷ b4 ∷ b5 ∷ b6 ∷ b7 ∷ [])
new (failed unix_nano) = format_016x (unix_nano % 2 ^ 64)

-- The ID that `Middleware` puts on the response header and on the request's context, for the
-- caller's X-Request-ID header (empty where it sends none).
unfoldable pub assign_id : Bytes → Entropy → Bytes
unfolding valid_caller_id new
assign_id header e = if not (valid_caller_id header) then new e else header
