-- ===== src/Json/Parse/RoundTrip.antt =====
-- Values are read back.
use opencost_ai.Prelude.{
  ℕ, zero, suc, ◌+◌, ◌*◌, ◌<◌, ◌≡◌, refl, ap, ◌∙◌, Bool, true, false, [], ◌∷◌, ◌++◌, append_assoc,
  append-nil, none, some, length, length-append, arith,
}
use opencost_ai.Text.{Bytes, text, strip_prefix}
use opencost_ai.Text.Utf8.{valid_string}
use opencost_ai.Json.{
  Json, Items, Fields, null, bool, number, str, array, object, no_items, item, no_fields, field,
  HasNumbers, HaveNumbers, FieldsHaveNumbers, IsUtf8, AreUtf8, FieldsAreUtf8, separator, encode,
  encode_items, encode_fields,
}
use opencost_ai.Json.Quote.{quote}
use opencost_ai.Json.Parse.{
  Parser, bind, behind_byte, before_byte, after_separator, quoted, parse_value, parse_items,
  parse_fields, parse,
}
use opencost_ai.Json.Parse.Steps.{
  quoted-quote, Reads, length-encode, items-Stops, fields-Stops, length-items, length-fields,
  after_separator_lem, no_end, number_lem, string_lem,
}

abbrev ReadsItems : Items → Type 0
ReadsItems xs =
    (first : Bool) (rest : Bytes) (f : ℕ)
    → 2 * length (encode_items xs first) + 1 < f
    → parse_items f first (encode_items xs first ++ rest) ≡ some (xs, rest)

abbrev ReadsFields : Fields → Type 0
ReadsFields fs =
    (first : Bool) (rest : Bytes) (f : ℕ)
    → 2 * length (encode_fields fs first) + 1 < f
    → parse_fields f first (encode_fields fs first ++ rest) ≡ some (fs, rest)

abbrev item_behind : ℕ → Parser Items
item_behind f s =
    bind (parse_value f s)
      (λ v rest. bind (parse_items f false rest) (λ xs rest'. some (item v xs, rest')))

parse_items-step :
    (f : ℕ) (first : Bool) (s : Bytes)
    → behind_byte b']' s ≡ none
    → parse_items (suc f) first s ≡ after_separator first s (item_behind f)
unfolding parse_items
parse_items-step f first s h = rw (parse_items, h) refl

item-Reads :
    (v : Json) (xs : Items)
    → HasNumbers v
    → Reads parse_value (encode v) v
    → ReadsItems xs
    → ReadsItems (item v xs)
unfolding encode_items
item-Reads v xs h read reads first rest zero fuel = absurd (omega arith)
item-Reads v xs h read reads first rest (suc f) fuel =
    let tail = encode_items xs false in
    let size = length-append (separator first) (encode v ++ tail) in
    let size' = length-append (encode v) tail in
    let some_bytes = length-encode v h in
    let left = length-items xs in
    ap (parse_items (suc f) first) (
      append_assoc (separator first) (encode v ++ tail) rest
      ∙ ap (λ s. separator first ++ s) (append_assoc (encode v) tail rest))
    ∙ parse_items-step f first _ (no_end first v (tail ++ rest) h)
    ∙ after_separator_lem first (encode v ++ (tail ++ rest)) (item_behind f)
    ∙ rw
        (
          read (tail ++ rest) f (items-Stops xs rest) (omega arith),
          reads false rest f (omega arith),
        )
        refl

abbrev value_behind : ℕ → Bytes → Parser Fields
value_behind f k s = before_byte b':' s (λ t.
    bind (parse_value f t)
      (λ v rest. bind (parse_fields f false rest) (λ fs rest'. some (field k v fs, rest'))))

abbrev field_behind : ℕ → Parser Fields
field_behind f s = bind (quoted s) (value_behind f)

parse_fields-step :
    (f : ℕ) (first : Bool) (s : Bytes)
    → behind_byte b'}' s ≡ none
    → parse_fields (suc f) first s ≡ after_separator first s (field_behind f)
unfolding parse_fields
parse_fields-step f first s h = rw (parse_fields, h) refl

no_end-quote :
    (first : Bool) (k s : Bytes) → behind_byte b'}' (separator first ++ (quote k ++ s)) ≡ none
unfolding behind_byte quote
no_end-quote true k s = refl
no_end-quote false k s = refl

value_behind_lem :
    (f : ℕ) (k : Bytes) (v : Json) (fs : Fields) (rest : Bytes)
    → parse_value f (encode v ++ (encode_fields fs false ++ rest))
      ≡ some (v, encode_fields fs false ++ rest)
    → parse_fields f false (encode_fields fs false ++ rest) ≡ some (fs, rest)
    → value_behind f k (b':' ∷ encode v ++ (encode_fields fs false ++ rest))
      ≡ some (field k v fs, rest)
unfolding behind_byte
value_behind_lem f k v fs rest e e' = rw (e, e') refl

field-Reads :
    (k : Bytes) (v : Json) (fs : Fields)
    → valid_string k ≡ true
    → HasNumbers v
    → Reads parse_value (encode v) v
    → ReadsFields fs
    → ReadsFields (field k v fs)
unfolding encode_fields
field-Reads k v fs valid h read reads first rest zero fuel = absurd (omega arith)
field-Reads k v fs valid h read reads first rest (suc f) fuel =
    let tail = encode_fields fs false in
    let value = b':' ∷ encode v ++ tail in
    let size = length-append (separator first) (quote k ++ value) in
    let size' = length-append (quote k) value in
    let size'' = length-append (encode v) tail in
    let left = length-fields fs in
    ap (parse_fields (suc f) first) (
      append_assoc (separator first) (quote k ++ value) rest
      ∙ ap (λ s. separator first ++ s)
          (append_assoc (quote k) value rest
            ∙ ap (λ s. quote k ++ (b':' ∷ s)) (append_assoc (encode v) tail rest)))
    ∙ parse_fields-step f first _ (no_end-quote first k (b':' ∷ encode v ++ (tail ++ rest)))
    ∙ after_separator_lem first (quote k ++ (b':' ∷ encode v ++ (tail ++ rest))) (field_behind f)
    ∙ ap (λ p. bind p (value_behind f)) (quoted-quote k (b':' ∷ encode v ++ (tail ++ rest)) valid)
    ∙ value_behind_lem f k v fs rest (read (tail ++ rest) f (fields-Stops fs rest) (omega arith))
        (reads false rest f (omega arith))

array-Reads : (xs : Items) → ReadsItems xs → Reads parse_value (encode (array xs)) (array xs)
unfolding encode parse_value
array-Reads xs reads rest zero stops fuel = absurd (omega arith)
array-Reads xs reads rest (suc f) stops fuel = rw (reads true rest f (omega arith)) refl

object-Reads : (fs : Fields) → ReadsFields fs → Reads parse_value (encode (object fs)) (object fs)
unfolding encode parse_value
object-Reads fs reads rest zero stops fuel = absurd (omega arith)
object-Reads fs reads rest (suc f) stops fuel = rw (reads true rest f (omega arith)) refl

null-Reads : Reads parse_value (encode null) null
unfolding encode parse_value text strip_prefix
null-Reads rest zero stops fuel = absurd (omega arith)
null-Reads rest (suc f) stops fuel = refl

bool-Reads : (b : Bool) → Reads parse_value (encode (bool b)) (bool b)
unfolding encode parse_value text strip_prefix
bool-Reads b rest zero stops fuel = absurd (omega arith)
bool-Reads true rest (suc f) stops fuel = refl
bool-Reads false rest (suc f) stops fuel = refl

no_items-Reads : ReadsItems no_items
unfolding encode_items parse_items behind_byte
no_items-Reads first rest zero fuel = absurd (omega arith)
no_items-Reads first rest (suc f) fuel = refl

no_fields-Reads : ReadsFields no_fields
unfolding encode_fields parse_fields behind_byte
no_fields-Reads first rest zero fuel = absurd (omega arith)
no_fields-Reads first rest (suc f) fuel = refl

mutual
  unfolding HasNumbers IsUtf8

  value-Reads : (v : Json) → HasNumbers v → IsUtf8 v → Reads parse_value (encode v) v
  value-Reads null h u = null-Reads
  value-Reads (bool b) h u = bool-Reads b
  value-Reads (number digits) h u = number_lem digits h.0 h.1
  value-Reads (str s) h u = string_lem s u
  value-Reads (array xs) h u = array-Reads xs (items-Reads xs h u)
  value-Reads (object fs) h u = object-Reads fs (fields-Reads fs h u)

  items-Reads : (xs : Items) → HaveNumbers xs → AreUtf8 xs → ReadsItems xs
  items-Reads no_items h u = no_items-Reads
  items-Reads (item v xs) (h, hs) (u, us) =
      item-Reads v xs h (value-Reads v h u) (items-Reads xs hs us)

  fields-Reads : (fs : Fields) → FieldsHaveNumbers fs → FieldsAreUtf8 fs → ReadsFields fs
  fields-Reads no_fields h u = no_fields-Reads
  fields-Reads (field k v fs) (h, hs) (valid, u, us) =
      field-Reads k v fs valid h (value-Reads v h u) (fields-Reads fs hs us)

-- A value whose strings are UTF-8 is read back from its text, and the fuel is enough.
pub parse-encode : (v : Json) → HasNumbers v → IsUtf8 v → parse (encode v) ≡ some v
unfolding parse
parse-encode v h u =
    let read = value-Reads v h u [] (2 * length (encode v) + 1) tt (omega arith) in
    rw (parse, rw append-nil at read) refl
