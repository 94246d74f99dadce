-- ===== src/RateLimit/Tests.antt =====
-- Tests of the rate limiter, with buckets that hold a number of tokens and are never refilled.
use opencost_ai.Prelude.{ℕ, zero, suc, ◌≡◌, refl, Bool, true, false, List, [], ◌∷◌}
use opencost_ai.Prelude.Int.{pos, pos_part}
use opencost_ai.Text.{Bytes, beq}
use opencost_ai.Text.Dict.{lookup, insert}
use opencost_ai.RateLimit.{RateLibrary, new, allow, bucket_of}
use opencost_ai.RateLimit.Isolation.{times_of, answers, bucket_answers, answers-isolated}

abbrev take_token : ℕ → Bool × ℕ
take_token zero = (false, zero)
take_token (suc n) = (true, n)

abbrev counting : RateLibrary
counting = record {
  Rate = ℕ;
  Bucket = ℕ;
  zero_rate = 0;
  every = pos_part;
  new_limiter = λ r burst. pos_part burst;
  allow = λ now. take_token;
}

abbrev alice : Bytes
alice = 1 ∷ []

abbrev bob : Bytes
bob = 2 ∷ []

abbrev calls : List (ℕ × Bytes)
calls = (10, bob) ∷ (11, bob) ∷ (12, alice) ∷ (13, bob) ∷ (14, bob) ∷ []

bob_is_throttled :
    answers counting bob calls (new counting (pos 3)) ≡ true ∷ true ∷ true ∷ false ∷ []
unfolding answers allow new bucket_of lookup insert beq
bob_is_throttled = refl

answers-isolated_example :
    answers counting alice calls (new counting (pos 3))
    ≡ bucket_answers counting (times_of alice calls) 3
answers-isolated_example = answers-isolated counting alice calls (pos 3) refl
