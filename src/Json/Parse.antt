-- ===== src/Json/Parse.antt =====
-- A reader of JSON values without white space, as the encoder writes them.
pub mod Steps
pub mod RoundTrip
use opencost_ai.Prelude.{
  ℕ, zero, suc, ◌+◌, ◌*◌, Bool, true, false, [], ◌∷◌, ◌++◌, Option, none, some, ◌==◌, if◌then◌else◌,
  length, is_nil,
}
use opencost_ai.Text.{Bytes, text, strip_prefix}
use opencost_ai.Json.{
  Json, Items, Fields, null, bool, number, str, array, object, no_items, item, no_fields, field,
  is_number_byte,
}
use opencost_ai.Json.Quote.Read.{plain, read_string}

-- The value read and the text that is left.
abbrev pub Parser {ℓ} : Type ℓ → Type ℓ
Parser A = Bytes → Option (A × Bytes)

module _ {ℓ κ} {A : Type ℓ} {B : Type κ} where
  abbrev pub bind : Option (A × Bytes) → (A → Bytes → Option (B × Bytes)) → Option (B × Bytes)
  bind none k = none
  bind (some (a, rest)) k = k a rest

-- The byte `b`, and what is behind it
unfoldable pub behind_byte : ℕ → Bytes → Option Bytes
behind_byte b [] = none
behind_byte b (c ∷ s) = if c == b then some s else none

abbrev pub before_byte {ℓ} :
    {A : Type ℓ} → ℕ → Bytes → (Bytes → Option (A × Bytes)) → Option (A × Bytes)
before_byte b s k = elim (behind_byte b s) [ none ↦ none | some rest ↦ k rest ]

abbrev pub after_separator {ℓ} :
    {A : Type ℓ} → Bool → Bytes → (Bytes → Option (A × Bytes)) → Option (A × Bytes)
after_separator true s k = k s
after_separator false s k = before_byte b',' s k

abbrev pub quoted : Parser Bytes
quoted s = before_byte b'"' s (read_string plain)

abbrev pub onto_digits : ℕ → Bytes × Bytes → Bytes × Bytes
onto_digits c (digits, rest) = (c ∷ digits, rest)

-- The longest number in front of a text
unfoldable pub number_prefix : Bytes → Bytes × Bytes
number_prefix [] = ([], [])
number_prefix (c ∷ s) = if is_number_byte c then onto_digits c (number_prefix s) else ([], c ∷ s)

abbrev pub read_number : Parser Json
read_number s =
    let (digits, rest) = number_prefix s in
    if is_nil digits then none else some (number digits, rest)

abbrev pub literal : Bytes → Json → Parser Json
literal word v s = elim (strip_prefix word s) [ none ↦ none | some rest ↦ some (v, rest) ]

unfoldable mutual
  pub parse_value : ℕ → Parser Json
  parse_value zero s = none
  parse_value (suc f) [] = none
  parse_value (suc f) (c ∷ s) =
      let string = bind (read_string plain s) (λ t rest. some (str t, rest)) in
      let list = bind (parse_items f true s) (λ xs rest. some (array xs, rest)) in
      let map = bind (parse_fields f true s) (λ fs rest. some (object fs, rest)) in
      if c == b'"'
      then string
      else if c == b'['
      then list
      else if c == b'{'
      then map
      else if c == b'n'
      then literal (text "null") null (c ∷ s)
      else if c == b't'
      then literal (text "true") (bool true) (c ∷ s)
      else if c == b'f'
      then literal (text "false") (bool false) (c ∷ s)
      else read_number (c ∷ s)

  pub parse_items : ℕ → Bool → Parser Items
  parse_items zero first s = none
  parse_items (suc f) first s =
      let more = after_separator first s (λ s'.
        bind (parse_value f s')
          (λ v rest. bind (parse_items f false rest) (λ xs rest'. some (item v xs, rest')))) in
      elim (behind_byte b']' s) [ some rest ↦ some (no_items, rest) | none ↦ more ]

  pub parse_fields : ℕ → Bool → Parser Fields
  parse_fields zero first s = none
  parse_fields (suc f) first s =
      let more = after_separator first s (λ s'. bind (quoted s') (λ k t. before_byte b':' t (λ t'.
        bind (parse_value f t') (λ v rest.
          bind (parse_fields f false rest) (λ fs rest'. some (field k v fs, rest')))))) in
      elim (behind_byte b'}' s) [ some rest ↦ some (no_fields, rest) | none ↦ more ]

-- The text is one value. Each call takes a byte or is the last of a value, so the fuel is enough.
unfoldable pub parse : Bytes → Option Json
parse s = elim (parse_value (2 * length s + 1) s) [ some (v, []) ↦ some v | _ ↦ none ]
