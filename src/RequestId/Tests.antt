-- ===== src/RequestId/Tests.antt =====
-- Tests of the request ID.
use opencost_ai.Prelude.{◌≡◌, refl, true, false, [], ◌∷◌}
use opencost_ai.Text.{text}
use opencost_ai.RequestId.{Entropy, random, failed, valid_caller_id, new}

abbrev some_bytes : Entropy
some_bytes = random 0 255 16 1 171 205 9 160

new_test : new some_bytes ≡ text "00ff1001abcd09a0"
unfolding new text
new_test = refl

failed_test : new (failed 255) ≡ text "00000000000000ff"
unfolding new text
failed_test = refl

valid_test : valid_caller_id (text "trace-1:a/b.c_d") ≡ true
unfolding valid_caller_id text
valid_test = refl

newline_test : valid_caller_id (97 ∷ 10 ∷ []) ≡ false
unfolding valid_caller_id
newline_test = refl
