-- ===== src/Json/Build.antt =====
-- Objects as encoding/json makes them of a struct: a field under a test for `omitempty`, integers,
-- and slices.
use opencost_ai.Prelude.{
  ℕ, zero, suc, ◌+◌, ◌/◌, ◌%◌, ltb, ◌≡◌, refl, Bool, true, false, [], ◌∷◌, List, all, is_nil,
  if◌then◌else◌, arith, Bool-cases, inl, inr, All,
}
use opencost_ai.Prelude.Int.{ℤ, pos, negsuc}
use opencost_ai.Text.{Bytes, decimal_digits, format_d}
use opencost_ai.Text.Utf8.{valid_string}
use opencost_ai.Json.{
  Json, Items, Fields, bool, number, str, array, object, no_items, item, no_fields, field,
  is_number_byte, HasNumbers, HaveNumbers, FieldsHaveNumbers, IsUtf8, AreUtf8, FieldsAreUtf8,
}

abbrev pub int : ℤ → Json
int z = number (format_d z)

-- `omitempty`: the field is left out where `empty` holds.
unfoldable pub omitted_if : Bool → Bytes → Json → Fields → Fields
omitted_if empty k v fs = if empty then fs else field k v fs

abbrev pub is_empty : Fields → Bool
is_empty no_fields = true
is_empty (field k v fs) = false

-- A string with `omitempty`
abbrev pub optional : Bytes → Bytes → Fields → Fields
optional k s = omitted_if (is_nil s) k (str s)

unfoldable pub items_of : {A : Type 0} → (A → Json) → List A → Items
items_of f [] = no_items
items_of f (x ∷ xs) = item (f x) (items_of f xs)

abbrev IsNumeral : Bytes → Type 0
IsNumeral s = (all is_number_byte s ≡ true) × (is_nil s ≡ false)

cons-IsNumeral :
    (c : ℕ) (s : Bytes) → is_number_byte c ≡ true → all is_number_byte s ≡ true → IsNumeral (c ∷ s)
cons-IsNumeral c s h k = (rw (h, k) refl, refl)

digits-IsNumeral :
    (room n : ℕ) (acc : Bytes) → IsNumeral acc → IsNumeral (decimal_digits room n acc)
unfolding decimal_digits
digits-IsNumeral zero n acc h = h
digits-IsNumeral (suc room) n acc h = elim (Bool-cases (ltb n 10)) [
  | inl small ↦
      rw (decimal_digits, small) (cons-IsNumeral (b'0' + n) acc (ground (arith, small)) h.0)
  | inr big ↦
      rw (decimal_digits, big)
        (digits-IsNumeral room (n / 10) ((b'0' + n % 10) ∷ acc)
          (cons-IsNumeral (b'0' + n % 10) acc (ground arith) h.0))
]

numeral : (n : ℕ) → IsNumeral (decimal_digits 20 n [])
unfolding decimal_digits
numeral n = elim (Bool-cases (ltb n 10)) [
  | inl small ↦
      rw (decimal_digits, small) (cons-IsNumeral (b'0' + n) [] (ground (arith, small)) refl)
  | inr big ↦
      rw (decimal_digits, big)
        (digits-IsNumeral 19 (n / 10) ((b'0' + n % 10) ∷ [])
          (cons-IsNumeral (b'0' + n % 10) [] (ground arith) refl))
]

pub int-HasNumbers : (z : ℤ) → HasNumbers (int z)
unfolding HasNumbers format_d
int-HasNumbers (pos n) = numeral n
int-HasNumbers (negsuc n) =
    cons-IsNumeral b'-' (decimal_digits 20 (suc n) []) refl (numeral (suc n)).0

pub int-IsUtf8 : (z : ℤ) → IsUtf8 (int z)
unfolding IsUtf8
int-IsUtf8 z = tt

pub no_fields-HasNumbers : FieldsHaveNumbers no_fields
unfolding FieldsHaveNumbers
no_fields-HasNumbers = tt

pub str-HasNumbers : (s : Bytes) → HasNumbers (str s)
unfolding HasNumbers
str-HasNumbers s = tt

pub bool-HasNumbers : (b : Bool) → HasNumbers (bool b)
unfolding HasNumbers
bool-HasNumbers b = tt

pub object-HasNumbers : (fs : Fields) → FieldsHaveNumbers fs → HasNumbers (object fs)
unfolding HasNumbers
object-HasNumbers fs h = h

pub array-HasNumbers : (xs : Items) → HaveNumbers xs → HasNumbers (array xs)
unfolding HasNumbers
array-HasNumbers xs h = h

pub field-HasNumbers :
    (k : Bytes) (v : Json) (fs : Fields)
    → HasNumbers v
    → FieldsHaveNumbers fs
    → FieldsHaveNumbers (field k v fs)
unfolding FieldsHaveNumbers
field-HasNumbers k v fs h hs = (h, hs)

pub no_fields-IsUtf8 : FieldsAreUtf8 no_fields
unfolding FieldsAreUtf8
no_fields-IsUtf8 = tt

pub str-IsUtf8 : (s : Bytes) → valid_string s ≡ true → IsUtf8 (str s)
unfolding IsUtf8
str-IsUtf8 s h = h

pub bool-IsUtf8 : (b : Bool) → IsUtf8 (bool b)
unfolding IsUtf8
bool-IsUtf8 b = tt

pub object-IsUtf8 : (fs : Fields) → FieldsAreUtf8 fs → IsUtf8 (object fs)
unfolding IsUtf8
object-IsUtf8 fs h = h

pub array-IsUtf8 : (xs : Items) → AreUtf8 xs → IsUtf8 (array xs)
unfolding IsUtf8
array-IsUtf8 xs h = h

pub field-IsUtf8 :
    (k : Bytes) (v : Json) (fs : Fields)
    → valid_string k ≡ true
    → IsUtf8 v
    → FieldsAreUtf8 fs
    → FieldsAreUtf8 (field k v fs)
unfolding FieldsAreUtf8
field-IsUtf8 k v fs e h hs = (e, h, hs)

pub omitted_if-HasNumbers :
    (empty : Bool) (k : Bytes) (v : Json) (fs : Fields)
    → HasNumbers v
    → FieldsHaveNumbers fs
    → FieldsHaveNumbers (omitted_if empty k v fs)
unfolding omitted_if FieldsHaveNumbers
omitted_if-HasNumbers true k v fs h hs = hs
omitted_if-HasNumbers false k v fs h hs = (h, hs)

pub omitted_if-IsUtf8 :
    (empty : Bool) (k : Bytes) (v : Json) (fs : Fields)
    → valid_string k ≡ true
    → IsUtf8 v
    → FieldsAreUtf8 fs
    → FieldsAreUtf8 (omitted_if empty k v fs)
unfolding omitted_if FieldsAreUtf8
omitted_if-IsUtf8 true k v fs e h hs = hs
omitted_if-IsUtf8 false k v fs e h hs = (e, h, hs)

pub items_of-HasNumbers :
    {A : Type 0} (f : A → Json) (xs : List A)
    → ((x : A) → HasNumbers (f x))
    → HaveNumbers (items_of f xs)
unfolding items_of HaveNumbers
items_of-HasNumbers f [] h = tt
items_of-HasNumbers f (x ∷ xs) h = (h x, items_of-HasNumbers f xs h)

pub items_of-IsUtf8 :
    {A : Type 0} (f : A → Json) (xs : List A) → All (λ x. IsUtf8 (f x)) xs → AreUtf8 (items_of f xs)
unfolding items_of AreUtf8
items_of-IsUtf8 f [] h = tt
items_of-IsUtf8 f (x ∷ xs) (h, hs) = (h, items_of-IsUtf8 f xs hs)

pub ruleset numbers = (
  no_fields-HasNumbers, str-HasNumbers, bool-HasNumbers, int-HasNumbers, object-HasNumbers,
  array-HasNumbers, field-HasNumbers, omitted_if-HasNumbers, items_of-HasNumbers,
)

pub ruleset utf8_strings = (
  no_fields-IsUtf8, str-IsUtf8, bool-IsUtf8, int-IsUtf8, object-IsUtf8, array-IsUtf8, field-IsUtf8,
  omitted_if-IsUtf8, items_of-IsUtf8,
)
