-- ===== src/Json/Canonical/Sorting.antt =====
-- Normalizing (src/canonical.ts) only reorders fields, where each object has distinct keys.
use hyperfinite.Common.{
  ℕ, Bool, true, false, ◌||◌, [], ◌∷◌, all, ltb, ◌==◌, nat_eq, ◌≡◌, ◌≢◌, sym, if◌then◌else◌,
}
use hyperfinite.Json.{
  Text, Json, Items, Fields, null, bool, number, string, array, object, no_items, item, no_fields,
  field,
}
use hyperfinite.Json.Order.{text_leb}
use hyperfinite.Json.Canonical.{
  is_digit, own_leb, insert_field, sort_fields, from_sorted_entries, normalize, normalize_items,
  normalize_fields,
}
use hyperfinite.Json.Canonical.Shuffled.{
  Shuffled, ShuffledItems, ShuffledFields, same, items, fields, ends, each, empty, keep, swap,
  trans,
}

abbrev pub IsAbsent : Text → Fields → Type 0
IsAbsent key no_fields = Unit
IsAbsent key (field k v fs) = (key ≢ k) × IsAbsent key fs

abbrev pub HasDistinctKeys : Fields → Type 0
HasDistinctKeys no_fields = Unit
HasDistinctKeys (field k v fs) = IsAbsent k fs × HasDistinctKeys fs

-- The characters of a number's text.
abbrev pub is_number_char : ℕ → Bool
is_number_char c = is_digit c || c == b'-' || c == b'+' || c == b'.' || c == b'e' || c == b'E'

abbrev pub IsNumber : Text → Type 0
IsNumber [] = ⊥
IsNumber (c ∷ text) = all is_number_char (c ∷ text) ≡ true

-- UTF-16 code units.
abbrev pub IsText : Text → Type 0
IsText text = all (λ c. ltb c 65536) text ≡ true

-- What any JSON value is: each object has distinct keys, a number is not empty and of the
-- characters of numbers, and a string is of code units.
unfoldable mutual
  pub IsWellFormed : Json → Type 0
  IsWellFormed null = Unit
  IsWellFormed (bool b) = Unit
  IsWellFormed (number n) = IsNumber n
  IsWellFormed (string s) = IsText s
  IsWellFormed (array xs) = AllWellFormed xs
  IsWellFormed (object fs) = HasDistinctKeys fs × FieldsWellFormed fs

  pub AllWellFormed : Items → Type 0
  AllWellFormed no_items = Unit
  AllWellFormed (item v xs) = IsWellFormed v × AllWellFormed xs

  pub FieldsWellFormed : Fields → Type 0
  FieldsWellFormed no_fields = Unit
  FieldsWellFormed (field k v fs) = IsText k × IsWellFormed v × FieldsWellFormed fs

self : (fs : Fields) → ShuffledFields fs fs
self no_fields = empty
self (field k v fs) = keep k (same v) (self fs)

module _ (le : Text → Text → Bool) where
  insert_if :
      (b : Bool) (key k : Text) (v w : Json) (fs gs : Fields)
      → IsAbsent key (field k w fs)
      → ShuffledFields (field key v fs) gs
      → ShuffledFields
          (field key v (field k w fs))
          (if b then field key v (field k w fs) else field k w gs)
  insert_if true key k v w fs gs absent s = keep key (same v) (keep k (same w) (self fs))
  insert_if false key k v w fs gs absent s = trans (swap key k v w fs absent.0) (keep k (same w) s)

  insert_shuffles :
      (key : Text) (v : Json) (fs : Fields)
      → IsAbsent key fs
      → ShuffledFields (field key v fs) (insert_field le key v fs)
  unfolding insert_field
  insert_shuffles key v no_fields absent = keep key (same v) empty
  insert_shuffles key v (field k w fs) absent =
      insert_if (le key k) key k v w fs (insert_field le key v fs) absent
        (insert_shuffles key v fs absent.1)

  IsAbsent-if :
      (b : Bool) (other key k : Text) (v w : Json) (fs gs : Fields)
      → other ≢ key
      → IsAbsent other (field k w fs)
      → IsAbsent other gs
      → IsAbsent other (if b then field key v (field k w fs) else field k w gs)
  IsAbsent-if true other key k v w fs gs differ absent later = (differ, absent)
  IsAbsent-if false other key k v w fs gs differ absent later = (absent.0, later)

  insert-IsAbsent :
      (other key : Text) (v : Json) (fs : Fields)
      → other ≢ key
      → IsAbsent other fs
      → IsAbsent other (insert_field le key v fs)
  unfolding insert_field
  insert-IsAbsent other key v no_fields differ absent = (differ, tt)
  insert-IsAbsent other key v (field k w fs) differ absent =
      IsAbsent-if (le key k) other key k v w fs (insert_field le key v fs) differ absent
        (insert-IsAbsent other key v fs differ absent.1)

  sort-IsAbsent : (key : Text) (fs : Fields) → IsAbsent key fs → IsAbsent key (sort_fields le fs)
  unfolding sort_fields
  sort-IsAbsent key no_fields absent = tt
  sort-IsAbsent key (field k v fs) absent =
      insert-IsAbsent key k v (sort_fields le fs) absent.0 (sort-IsAbsent key fs absent.1)

  distinct_if :
      (b : Bool) (key k : Text) (v w : Json) (fs gs : Fields)
      → IsAbsent key (field k w fs)
      → HasDistinctKeys (field k w fs)
      → IsAbsent k gs
      → HasDistinctKeys gs
      → HasDistinctKeys (if b then field key v (field k w fs) else field k w gs)
  distinct_if true key k v w fs gs absent distinct other later = (absent, distinct)
  distinct_if false key k v w fs gs absent distinct other later = (other, later)

  insert-HasDistinctKeys :
      (key : Text) (v : Json) (fs : Fields)
      → IsAbsent key fs
      → HasDistinctKeys fs
      → HasDistinctKeys (insert_field le key v fs)
  unfolding insert_field
  insert-HasDistinctKeys key v no_fields absent distinct = (tt, tt)
  insert-HasDistinctKeys key v (field k w fs) absent distinct =
      distinct_if (le key k) key k v w fs (insert_field le key v fs) absent distinct
        (insert-IsAbsent k key v fs (λ e. absent.0 (sym e)) distinct.0)
        (insert-HasDistinctKeys key v fs absent.1 distinct.1)

  sort-HasDistinctKeys : (fs : Fields) → HasDistinctKeys fs → HasDistinctKeys (sort_fields le fs)
  unfolding sort_fields
  sort-HasDistinctKeys no_fields distinct = tt
  sort-HasDistinctKeys (field k v fs) distinct =
      insert-HasDistinctKeys k v (sort_fields le fs) (sort-IsAbsent k fs distinct.0)
        (sort-HasDistinctKeys fs distinct.1)

  sort_shuffles : (fs : Fields) → HasDistinctKeys fs → ShuffledFields fs (sort_fields le fs)
  unfolding sort_fields
  sort_shuffles no_fields distinct = empty
  sort_shuffles (field k v fs) distinct =
      trans (keep k (same v) (sort_shuffles fs distinct.1))
        (insert_shuffles k v (sort_fields le fs) (sort-IsAbsent k fs distinct.0))

normalize-IsAbsent :
    (key : Text) (fs : Fields) → IsAbsent key fs → IsAbsent key (normalize_fields fs)
unfolding normalize_fields
normalize-IsAbsent key no_fields absent = tt
normalize-IsAbsent key (field k v fs) absent = (absent.0, normalize-IsAbsent key fs absent.1)

normalize-HasDistinctKeys :
    (fs : Fields) → HasDistinctKeys fs → HasDistinctKeys (normalize_fields fs)
unfolding normalize_fields
normalize-HasDistinctKeys no_fields distinct = tt
normalize-HasDistinctKeys (field k v fs) distinct =
    (normalize-IsAbsent k fs distinct.0, normalize-HasDistinctKeys fs distinct.1)

entries_shuffle : (fs : Fields) → HasDistinctKeys fs → ShuffledFields fs (from_sorted_entries fs)
unfolding from_sorted_entries
entries_shuffle fs distinct =
    trans (sort_shuffles text_leb fs distinct)
      (sort_shuffles own_leb (sort_fields text_leb fs) (sort-HasDistinctKeys text_leb fs distinct))

mutual
  unfolding normalize IsWellFormed

  normalize_shuffles : (v : Json) → IsWellFormed v → Shuffled v (normalize v)
  normalize_shuffles null ok = same null
  normalize_shuffles (bool b) ok = same (bool b)
  normalize_shuffles (number n) ok = same (number n)
  normalize_shuffles (string s) ok = same (string s)
  normalize_shuffles (array xs) ok = items (items_shuffle xs ok)
  normalize_shuffles (object fs) ok = fields (
      trans (fields_shuffle fs ok.1)
        (entries_shuffle (normalize_fields fs) (normalize-HasDistinctKeys fs ok.0)))

  items_shuffle : (xs : Items) → AllWellFormed xs → ShuffledItems xs (normalize_items xs)
  items_shuffle no_items ok = ends
  items_shuffle (item v xs) ok = each (normalize_shuffles v ok.0) (items_shuffle xs ok.1)

  fields_shuffle : (fs : Fields) → FieldsWellFormed fs → ShuffledFields fs (normalize_fields fs)
  fields_shuffle no_fields ok = empty
  fields_shuffle (field k v fs) ok = keep k (normalize_shuffles v ok.1) (fields_shuffle fs ok.2)

-- The normalized value differs from a well-formed value in the order of fields only.
pub normalize-Shuffled : (v : Json) → IsWellFormed v → Shuffled v (normalize v)
normalize-Shuffled v ok = normalize_shuffles v ok
