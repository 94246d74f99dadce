-- ===== src/Json.antt =====
-- What the gateway uses of encoding/json: values, their text, and a reader of it. An object is the
-- list of its fields in the order that they are written in; a number is its text.
pub mod Quote
pub mod OneLine
pub mod Parse
pub mod Build
use opencost_ai.Prelude.{
  ℕ, ◌≡◌, ◌||◌, ◌==◌, all, is_nil, Bool, true, false, List, [], ◌∷◌, ◌++◌, if◌then◌else◌,
}
use opencost_ai.Text.{Bytes, text, within}
use opencost_ai.Text.Utf8.{valid_string}
use opencost_ai.Json.Quote.{quote}

mutual
  pub data Json : Type 0 where
    null : Json
    bool : Bool → Json
    number : Bytes → Json
    str : Bytes → Json
    array : Items → Json
    object : Fields → Json

  pub data Items : Type 0 where
    no_items : Items
    item : Json → Items → Items

  pub data Fields : Type 0 where
    no_fields : Fields
    field : Bytes → Json → Fields → Fields

-- A byte of a number
abbrev pub is_number_byte : ℕ → Bool
is_number_byte c =
    within b'0' b'9' c || c == b'-' || c == b'+' || c == b'.' || c == b'e' || c == b'E'

-- The numbers have texts of numbers.
unfoldable mutual
  pub HasNumbers : Json → Type 0
  HasNumbers null = Unit
  HasNumbers (bool b) = Unit
  HasNumbers (number digits) = (all is_number_byte digits ≡ true) × (is_nil digits ≡ false)
  HasNumbers (str s) = Unit
  HasNumbers (array xs) = HaveNumbers xs
  HasNumbers (object fs) = FieldsHaveNumbers fs

  pub HaveNumbers : Items → Type 0
  HaveNumbers no_items = Unit
  HaveNumbers (item v xs) = HasNumbers v × HaveNumbers xs

  pub FieldsHaveNumbers : Fields → Type 0
  FieldsHaveNumbers no_fields = Unit
  FieldsHaveNumbers (field k v fs) = HasNumbers v × FieldsHaveNumbers fs

-- The strings and keys are UTF-8.
unfoldable mutual
  pub IsUtf8 : Json → Type 0
  IsUtf8 null = Unit
  IsUtf8 (bool b) = Unit
  IsUtf8 (number digits) = Unit
  IsUtf8 (str s) = valid_string s ≡ true
  IsUtf8 (array xs) = AreUtf8 xs
  IsUtf8 (object fs) = FieldsAreUtf8 fs

  pub AreUtf8 : Items → Type 0
  AreUtf8 no_items = Unit
  AreUtf8 (item v xs) = IsUtf8 v × AreUtf8 xs

  pub FieldsAreUtf8 : Fields → Type 0
  FieldsAreUtf8 no_fields = Unit
  FieldsAreUtf8 (field k v fs) = (valid_string k ≡ true) × IsUtf8 v × FieldsAreUtf8 fs

abbrev pub separator : Bool → Bytes
separator first = if first then [] else b',' ∷ []

abbrev pub bool_text : Bool → Bytes
bool_text true = text "true"
bool_text false = text "false"

-- `json.Marshal`
unfoldable mutual
  pub encode : Json → Bytes
  encode null = text "null"
  encode (bool b) = bool_text b
  encode (number digits) = digits
  encode (str s) = quote s
  encode (array xs) = b'[' ∷ encode_items xs true
  encode (object fs) = b'{' ∷ encode_fields fs true

  pub encode_items : Items → Bool → Bytes
  encode_items no_items first = b']' ∷ []
  encode_items (item v xs) first = separator first ++ (encode v ++ encode_items xs false)

  pub encode_fields : Fields → Bool → Bytes
  encode_fields no_fields first = b'}' ∷ []
  encode_fields (field k v fs) first =
      separator first ++ (quote k ++ (b':' ∷ encode v ++ encode_fields fs false))
