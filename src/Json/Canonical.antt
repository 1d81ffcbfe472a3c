-- ===== src/Json/Canonical.antt =====
-- Canonical JSON (src/canonical.ts): `normalize`, and `JSON.stringify` of what it returns. A `Json`
-- value has no undefined, function or non-finite number, for which `normalize` throws.
pub mod Shuffled
pub mod Sorting
pub mod Units
pub mod Kinds
pub mod Injective
pub mod Faithful
use Prim.Native.Nat.{◌/◌}
use hyperfinite.Common.{
  ℕ, ◌+◌, ◌-◌, ◌*◌, ◌%◌, Bool, true, false, not, ◌&&◌, ◌||◌, Option, none, some, List, [], ◌∷◌,
  ◌++◌, all, is_some, ltb, leb, ◌==◌, if◌then◌else◌, nat_eq,
}
use hyperfinite.Json.{
  Text, code_units, Json, Items, Fields, null, bool, number, string, array, object, no_items, item,
  no_fields, field,
}
use hyperfinite.Json.Order.{text_leb}

-- Insertion before the first key that may not stand before; equal keys keep their order.
unfoldable pub insert_field : (Text → Text → Bool) → (key : Text) → Json → Fields → Fields
insert_field le key v no_fields = field key v no_fields
insert_field le key v (field k w fields) =
    let later = insert_field le key v fields in
    if le key k then field key v (field k w fields) else field k w later

unfoldable pub sort_fields : (Text → Text → Bool) → Fields → Fields
sort_fields le no_fields = no_fields
sort_fields le (field k v fields) = insert_field le k v (sort_fields le fields)

abbrev pub is_digit : ℕ → Bool
is_digit c = leb b'0' c && leb c b'9'

unfoldable pub decimal_from : (value : ℕ) → Text → ℕ
decimal_from value [] = value
decimal_from value (c ∷ text) = decimal_from (value * 10 + (c - b'0')) text

-- An array index: the digits of a number below 2 ^ 32 - 1, with no zero in front.
unfoldable pub is_array_index : Text → Bool
is_array_index [] = false
is_array_index (c ∷ []) = is_digit c
is_array_index (c ∷ d ∷ text) =
    is_digit c
    && not (c == b'0')
    && all is_digit (d ∷ text)
    && ltb (decimal_from 0 (c ∷ d ∷ text)) 4294967295

-- The order of an object's own properties: array indices by their numbers, then the others as they
-- were created.
unfoldable pub own_leb : Text → Text → Bool
own_leb key other =
    if is_array_index key
    then not (is_array_index other) || leb (decimal_from 0 key) (decimal_from 0 other)
    else not (is_array_index other)

-- `Object.fromEntries` of the entries in the order of `sort`.
unfoldable pub from_sorted_entries : Fields → Fields
from_sorted_entries fields = sort_fields own_leb (sort_fields text_leb fields)

unfoldable mutual
  pub normalize : Json → Json
  normalize (array xs) = array (normalize_items xs)
  normalize (object fields) = object (from_sorted_entries (normalize_fields fields))
  normalize null = null
  normalize (bool b) = bool b
  normalize (number n) = number n
  normalize (string s) = string s

  pub normalize_items : Items → Items
  normalize_items no_items = no_items
  normalize_items (item v xs) = item (normalize v) (normalize_items xs)

  pub normalize_fields : Fields → Fields
  normalize_fields no_fields = no_fields
  normalize_fields (field k v fields) = field k (normalize v) (normalize_fields fields)

-- `JSON.stringify` of a string: the letter of a two-character escape.
unfoldable pub short_letter : ℕ → Option ℕ
short_letter c =
    if c == b'"'
    then some b'"'
    else if c == b'\\'
    then some b'\\'
    else if c == 8
    then some b'b'
    else if c == 9
    then some b't'
    else if c == 10
    then some b'n'
    else if c == 12
    then some b'f'
    else if c == 13
    then some b'r'
    else none

abbrev pub is_high_surrogate : ℕ → Bool
is_high_surrogate c = leb 55296 c && leb c 56319

abbrev pub is_low_surrogate : ℕ → Bool
is_low_surrogate c = leb 56320 c && leb c 57343

abbrev pub starts_low : Text → Bool
starts_low [] = false
starts_low (c ∷ text) = is_low_surrogate c

-- A surrogate outside a pair.
unfoldable pub is_lone : (after_high : Bool) → ℕ → (rest : Text) → Bool
is_lone after_high c rest =
    (is_high_surrogate c && not (starts_low rest)) || (is_low_surrogate c && not after_high)

abbrev pub hex_digit : ℕ → ℕ
hex_digit n = if ltb n 10 then n + 48 else n + 87

abbrev pub hex_digits : ℕ → Text
hex_digits c =
    hex_digit (c / 4096 % 16)
    ∷ hex_digit (c / 256 % 16)
    ∷ hex_digit (c / 16 % 16)
    ∷ hex_digit (c % 16)
    ∷ []

abbrev pub long_or_plain : Bool → ℕ → Text
long_or_plain true c = b'\\' ∷ b'u' ∷ hex_digits c
long_or_plain false c = c ∷ []

abbrev pub short_or : Option ℕ → Bool → ℕ → Text
short_or (some letter) long c = b'\\' ∷ letter ∷ []
short_or none long c = long_or_plain long c

unfoldable pub unit_text : (after_high : Bool) → ℕ → (rest : Text) → Text
unit_text after_high c rest = short_or (short_letter c) (ltb c 32 || is_lone after_high c rest) c

unfoldable pub escape : (after_high : Bool) → Text → Text
escape after_high [] = []
escape after_high (c ∷ text) = unit_text after_high c text ++ escape (is_high_surrogate c) text

abbrev pub quoted : Text → Text
quoted text = b'"' ∷ (escape false text ++ (b'"' ∷ []))

unfoldable mutual
  pub stringify : Json → Text
  stringify null = code_units "null"
  stringify (bool true) = code_units "true"
  stringify (bool false) = code_units "false"
  stringify (number n) = n
  stringify (string s) = quoted s
  stringify (array no_items) = code_units "[]"
  stringify (array (item v xs)) = b'[' ∷ (stringify v ++ later_items xs)
  stringify (object no_fields) = code_units "{}"
  stringify (object (field k v fields)) =
      b'{' ∷ (quoted k ++ (b':' ∷ (stringify v ++ later_fields fields)))

  pub later_items : Items → Text
  later_items no_items = b']' ∷ []
  later_items (item v xs) = b',' ∷ (stringify v ++ later_items xs)

  pub later_fields : Fields → Text
  later_fields no_fields = b'}' ∷ []
  later_fields (field k v fields) =
      b',' ∷ (quoted k ++ (b':' ∷ (stringify v ++ later_fields fields)))

unfoldable pub canonical_json : Json → Text
canonical_json v = stringify (normalize v)

-- `digest`, where `sha256` is the text of node:crypto's hash of a text.
unfoldable pub json_digest : (sha256 : Text → Text) → Json → Text
json_digest sha256 v = code_units "sha256:" ++ sha256 (canonical_json v)
