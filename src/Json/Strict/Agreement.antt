-- ===== src/Json/Strict/Agreement.antt =====
-- On the text of a value the scanner (src/strict-json.ts) finds a repeated key exactly if there is one.
pub mod Steps
pub mod Values
pub mod Exact
pub mod Unique
use hyperfinite.Common.{
  ℕ, zero, suc, ◌+◌, ◌*◌, ◌≤◌, Bool, true, false, not, ◌&&◌, List, [], ◌∷◌, ◌++◌, ◌≡◌, ◌≢◌, refl,
  sym, ap, ◌∙◌, arith, all, length, includes, ◌==◌, if◌then◌else◌, nat_eq, ltb,
}
use hyperfinite.Json.{
  Text, text_eq, Json, Items, Fields, null, bool, number, string, array, object, no_items, item,
  no_fields, field,
}
use hyperfinite.Json.Canonical.Sorting.{IsNumber, IsText}
use hyperfinite.Json.Strict.{Scan, ScanError, ok, err}

-- Whether every object in a value has distinct keys, apart from those that are met before.
unfoldable mutual
  pub has_unique_keys : Json → Bool
  has_unique_keys (array xs) = all_unique xs
  has_unique_keys (object fs) = members_unique [] fs
  has_unique_keys null = true
  has_unique_keys (bool b) = true
  has_unique_keys (number n) = true
  has_unique_keys (string s) = true

  pub all_unique : Items → Bool
  all_unique no_items = true
  all_unique (item v xs) = has_unique_keys v && all_unique xs

  pub members_unique : (keys : List Text) → Fields → Bool
  members_unique keys no_fields = true
  members_unique keys (field k v fs) =
      not (includes keys k) && (has_unique_keys v && members_unique (k ∷ keys) fs)

-- The rounds that the scanner makes in a value.
unfoldable mutual
  pub rounds : Json → ℕ
  rounds (array xs) = suc (item_rounds xs)
  rounds (object fs) = suc (member_rounds fs)
  rounds null = 1
  rounds (bool b) = 1
  rounds (number n) = 1
  rounds (string s) = 1

  pub item_rounds : Items → ℕ
  item_rounds no_items = 0
  item_rounds (item v xs) = suc (rounds v + item_rounds xs)

  pub member_rounds : Fields → ℕ
  member_rounds no_fields = 0
  member_rounds (field k v fs) = suc (rounds v + member_rounds fs)

-- The numbers and strings of a value are numbers and strings; keys may be repeated.
unfoldable mutual
  pub IsLexical : Json → Type 0
  IsLexical null = Unit
  IsLexical (bool b) = Unit
  IsLexical (number n) = IsNumber n
  IsLexical (string s) = IsText s
  IsLexical (array xs) = AllLexical xs
  IsLexical (object fs) = FieldsLexical fs

  pub AllLexical : Items → Type 0
  AllLexical no_items = Unit
  AllLexical (item v xs) = IsLexical v × AllLexical xs

  pub FieldsLexical : Fields → Type 0
  FieldsLexical no_fields = Unit
  FieldsLexical (field k v fs) = IsText k × IsLexical v × FieldsLexical fs

-- What is left after the value, or the refusal of a repeated key.
abbrev pub verdict : Bool → (rest : Text) → Scan Text
verdict true rest = Scan.ok rest
verdict false rest = Scan.err ScanError.duplicate_key
