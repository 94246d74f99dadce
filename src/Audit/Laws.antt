-- ===== src/Audit/Laws.antt =====
-- What an audit line shows.
use opencost_ai.Prelude.{
  ℕ, zero, suc, ◌≡◌, ◌≢◌, ◌<◌, refl, Bool, true, false, [], ◌∷◌, arith, All, All-append, all,
  length, take, is_nil-ne, ◌*◌, length-take_of_le, All-take, ap, ◌∙◌,
}
use opencost_ai.Text.{Bytes}
use opencost_ai.RequestId.{hex_encode}
use opencost_ai.RequestId.Hex.{is_hex_byte, all-hex_encode}
use opencost_ai.Audit.{Event, Logger, caller_identity, redact, log}

-- The line shows neither the query nor the answer.
abbrev pub IsRedacted : Event → Type 0
IsRedacted e = (e.query ≡ []) × (e.answer ≡ [])

redact-IsRedacted :
    (log_query : Bool) (now : ℕ) (e : Event)
    → log_query ≡ false
    → IsRedacted (redact log_query now e)
unfolding redact
redact-IsRedacted true now e off = cc
redact-IsRedacted false now e off = (refl, refl)

-- With the opt-in flag off, no line that the logger writes shows a query or an answer, whatever
-- the caller passes in; the flag itself is kept.
pub log-IsRedacted :
    (now : ℕ) (sink_works : Bool) (e : Event) (l : Logger)
    → l.log_query ≡ false
    → All IsRedacted l.written
    → All IsRedacted (log now sink_works e l).1.written
      × ((log now sink_works e l).1.log_query ≡ false)
unfolding log
log-IsRedacted now true e l off h = (
  All-append IsRedacted l.written (redact l.log_query now e ∷ []) h
      (redact-IsRedacted l.log_query now e off, tt),
  off,
)
log-IsRedacted now false e l off h = (h, off)

length-hex_encode : (s : Bytes) → length (hex_encode s) ≡ length s * 2
unfolding hex_encode
length-hex_encode [] = omega arith
length-hex_encode (c ∷ s) = omega (arith, length-hex_encode s)

abbrev double : ℕ → ℕ
double zero = zero
double (suc n) = suc (suc (double n))

take-hex_encode : (n : ℕ) (s : Bytes) → take (double n) (hex_encode s) ≡ hex_encode (take n s)
unfolding hex_encode
take-hex_encode zero s = refl
take-hex_encode (suc n) [] = refl
take-hex_encode (suc n) (c ∷ s) = cc (take-hex_encode n s)

identity-take :
    (sha256 : Bytes → Bytes) (token : Bytes)
    → token ≢ []
    → length (sha256 token) ≡ 32
    → caller_identity sha256 token ≡ hex_encode (take 8 (sha256 token))
unfolding caller_identity
identity-take sha256 token solid size = ground (
  arith,
  is_nil-ne token solid,
  length-hex_encode (sha256 token),
  take-hex_encode 8 (sha256 token),
)

-- The identity of a token that is not empty is 16 hexadecimal digits, those of the first 8 bytes of
-- its digest, which is one of 32 bytes.
pub caller_identity-hex :
    (sha256 : Bytes → Bytes) (token : Bytes)
    → token ≢ []
    → length (sha256 token) ≡ 32
    → All (λ b. b < 256) (sha256 token)
    → (length (caller_identity sha256 token) ≡ 16)
      × (all is_hex_byte (caller_identity sha256 token) ≡ true)
      × (caller_identity sha256 token ≡ hex_encode (take 8 (sha256 token)))
caller_identity-hex sha256 token solid size bytes = (
  ap length (identity-take sha256 token solid size)
      ∙ omega (
        arith,
        length-hex_encode (take 8 (sha256 token)),
        length-take_of_le 8 (sha256 token) (omega arith),
      ),
  ap (all is_hex_byte) (identity-take sha256 token solid size)
      ∙ all-hex_encode (take 8 (sha256 token)) (All-take (λ b. b < 256) 8 (sha256 token) bytes),
  identity-take sha256 token solid size,
)
