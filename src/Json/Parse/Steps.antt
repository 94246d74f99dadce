-- ===== src/Json/Parse/Steps.antt =====
-- Single values are read back.
use opencost_ai.Prelude.{
  and_parts, ℕ, zero, suc, ◌*◌, ◌<◌, ◌≡◌, refl, Bool, true, false, [], ◌∷◌, ◌++◌, Option, none,
  some, ◌==◌, length, all, is_nil, arith,
}
use opencost_ai.Text.{Bytes, text}
use opencost_ai.Text.Utf8.{valid_string}
use opencost_ai.Json.{
  Json, Items, Fields, null, bool, number, str, array, object, no_items, item, no_fields, field,
  is_number_byte, HasNumbers, separator, encode, encode_items, encode_fields,
}
use opencost_ai.Json.Quote.{quote}
use opencost_ai.Json.Quote.Read.RoundTrip.{read_string-quote}
use opencost_ai.Json.Parse.{
  Parser, behind_byte, after_separator, quoted, number_prefix, parse_value,
}

-- No number goes on in the rest.
abbrev pub Stops : Bytes → Type 0
Stops [] = Unit
Stops (c ∷ s) = is_number_byte c ≡ false

pub number_prefix-stop : (rest : Bytes) → Stops rest → number_prefix rest ≡ ([], rest)
unfolding number_prefix
number_prefix-stop [] h = refl
number_prefix-stop (c ∷ s) h = rw (number_prefix, h) refl

pub number_prefix-append :
    (digits rest : Bytes)
    → all is_number_byte digits ≡ true
    → Stops rest
    → number_prefix (digits ++ rest) ≡ (digits, rest)
unfolding number_prefix
number_prefix-append [] rest h stops = number_prefix-stop rest stops
number_prefix-append (c ∷ digits) rest h stops =
    let (head, tail) = and_parts (is_number_byte c) _ h in
    rw (number_prefix, head, number_prefix-append digits rest tail stops) refl

pub behind_byte-other : (b c : ℕ) (s : Bytes) → (c == b) ≡ false → behind_byte b (c ∷ s) ≡ none
unfolding behind_byte
behind_byte-other b c s h = rw (behind_byte, h) refl

-- The first byte of a value
pub record Starts (s : Bytes) : Type 0 where
  pub first : ℕ
  pub rest : Bytes
  pub is_first : s ≡ first ∷ rest
  pub no_bracket : (first == b']') ≡ false
  pub no_comma : (first == b',') ≡ false

pub started : (c : ℕ) (s : Bytes) → (c == b']') ≡ false → (c == b',') ≡ false → Starts (c ∷ s)
started c s h k = record { first = c; rest = s; is_first = refl; no_bracket = h; no_comma = k }

pub number-Starts :
    (digits : Bytes) → all is_number_byte digits ≡ true → is_nil digits ≡ false → Starts digits
number-Starts [] h k = cc
number-Starts (c ∷ s) h k =
    let (head, tail) = and_parts (is_number_byte c) _ h in
    started c s (ground (arith, head)) (ground (arith, head))

pub encode-Starts : (v : Json) → HasNumbers v → Starts (encode v)
unfolding encode HasNumbers text quote
encode-Starts null h = started _ _ refl refl
encode-Starts (bool true) h = started _ _ refl refl
encode-Starts (bool false) h = started _ _ refl refl
encode-Starts (number digits) h = number-Starts digits h.0 h.1
encode-Starts (str s) h = started _ _ refl refl
encode-Starts (array xs) h = started _ _ refl refl
encode-Starts (object fs) h = started _ _ refl refl

pub quoted-quote :
    (s rest : Bytes) → valid_string s ≡ true → quoted (quote s ++ rest) ≡ some (s, rest)
unfolding behind_byte
quoted-quote s rest h = let (t, e, read) = read_string-quote rest s h in rw e read

-- With more than two rounds of fuel for a byte, `p` reads the value and leaves what follows.
abbrev pub Reads {ℓ} : {A : Type ℓ} → (ℕ → Parser A) → Bytes → A → Type ℓ
Reads p printed a =
    (rest : Bytes) (f : ℕ)
    → Stops rest
    → 2 * length printed < f
    → p f (printed ++ rest) ≡ some (a, rest)

pub number-Reads :
    (digits : Bytes)
    → all is_number_byte digits ≡ true
    → is_nil digits ≡ false
    → Reads parse_value digits (number digits)
unfolding parse_value
number-Reads [] h k rest f stops fuel = cc
number-Reads (c ∷ s) h k rest zero stops fuel = absurd (omega arith)
number-Reads (c ∷ s) h k rest (suc f) stops fuel =
    let (head, tail) = and_parts (is_number_byte c) _ h in
    let e : (c == b'"') ≡ false = ground (arith, head) in
    let e1 : (c == b'[') ≡ false = ground (arith, head) in
    let e2 : (c == b'{') ≡ false = ground (arith, head) in
    let e3 : (c == b'n') ≡ false = ground (arith, head) in
    let e4 : (c == b't') ≡ false = ground (arith, head) in
    let e5 : (c == b'f') ≡ false = ground (arith, head) in
    rw (e, e1, e2, e3, e4, e5, number_prefix-append (c ∷ s) rest h stops) refl

pub string-Reads : (s : Bytes) → valid_string s ≡ true → Reads parse_value (quote s) (str s)
unfolding parse_value
string-Reads s h rest zero stops fuel = absurd (omega arith)
string-Reads s h rest (suc f) stops fuel =
    let (t, e, read) = read_string-quote rest s h in rw (e, parse_value, read) refl

pub length-encode : (v : Json) → HasNumbers v → 0 < length (encode v)
length-encode v h = let s = encode-Starts v h in rw s.is_first (omega arith)

pub items-Stops : (xs : Items) (rest : Bytes) → Stops (encode_items xs false ++ rest)
unfolding encode_items
items-Stops no_items rest = refl
items-Stops (item v xs) rest = refl

pub fields-Stops : (fs : Fields) (rest : Bytes) → Stops (encode_fields fs false ++ rest)
unfolding encode_fields
fields-Stops no_fields rest = refl
fields-Stops (field k v fs) rest = refl

pub length-items : (xs : Items) → 0 < length (encode_items xs false)
unfolding encode_items
length-items no_items = omega arith
length-items (item v xs) = omega arith

pub length-fields : (fs : Fields) → 0 < length (encode_fields fs false)
unfolding encode_fields
length-fields no_fields = omega arith
length-fields (field k v fs) = omega arith

pub after_separator_lem {ℓ} :
    {A : Type ℓ} (first : Bool) (s : Bytes) (k : Bytes → Option (A × Bytes))
    → after_separator first (separator first ++ s) k ≡ k s
unfolding behind_byte
after_separator_lem true s k = refl
after_separator_lem false s k = refl

pub no_end :
    (first : Bool) (v : Json) (s : Bytes)
    → HasNumbers v
    → behind_byte b']' (separator first ++ (encode v ++ s)) ≡ none
unfolding behind_byte
no_end false v s h = refl
no_end true v s h =
    let e = encode-Starts v h in
    rw e.is_first (behind_byte-other b']' e.first (e.rest ++ s) e.no_bracket)

pub number_lem :
    (digits : Bytes)
    → all is_number_byte digits ≡ true
    → is_nil digits ≡ false
    → Reads parse_value (encode (number digits)) (number digits)
unfolding encode
number_lem digits h k = number-Reads digits h k

pub string_lem : (s : Bytes) → valid_string s ≡ true → Reads parse_value (encode (str s)) (str s)
unfolding encode
string_lem s h = string-Reads s h
