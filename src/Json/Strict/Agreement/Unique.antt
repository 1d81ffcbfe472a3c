-- ===== src/Json/Strict/Agreement/Unique.antt =====
-- Distinct keys, as a predicate and as the test that `parseStrictJson` (src/strict-json.ts) makes.
use hyperfinite.Common.{
  ◌+◌, ◌*◌, ◌≤◌, true, false, List, [], ◌∷◌, ◌++◌, ◌≡◌, refl, arith, length, includes, ◌==◌,
  test-of_ne,
}
use hyperfinite.Json.{
  Text, text_eq, Json, Items, Fields, null, bool, number, string, array, object, no_items, item,
  no_fields, field,
}
use hyperfinite.Json.Canonical.{stringify, later_items, later_fields, quoted}
use hyperfinite.Json.Canonical.Sorting.{
  IsAbsent, HasDistinctKeys, IsWellFormed, AllWellFormed, FieldsWellFormed,
}
use hyperfinite.Json.Strict.Agreement.{
  has_unique_keys, all_unique, members_unique, rounds, item_rounds, member_rounds, IsLexical,
  AllLexical, FieldsLexical,
}

-- No key of the list is a key of the fields.
abbrev AllAbsent : List Text → Fields → Type 0
AllAbsent [] fs = Unit
AllAbsent (k ∷ keys) fs = IsAbsent k fs × AllAbsent keys fs

absent_first :
    (keys : List Text) (k : Text) (v : Json) (fs : Fields)
    → AllAbsent keys (field k v fs)
    → (includes keys k ≡ false) × AllAbsent keys fs
absent_first [] k v fs a = (refl, tt)
absent_first (l ∷ keys) k v fs a =
    let (new, rest) = absent_first keys k v fs a.1 in
    let other : (l == k) ≡ false = test-of_ne a.0.0 in (ground arith, (a.0.1, rest))

mutual
  unfolding IsWellFormed has_unique_keys

  unique_of : (v : Json) → IsWellFormed v → has_unique_keys v ≡ true
  unique_of null ok = refl
  unique_of (bool b) ok = refl
  unique_of (number n) ok = refl
  unique_of (string s) ok = refl
  unique_of (array xs) ok = all_unique_of xs ok
  unique_of (object fs) ok = members_unique_of [] fs tt ok.0 ok.1

  all_unique_of : (xs : Items) → AllWellFormed xs → all_unique xs ≡ true
  all_unique_of no_items ok = refl
  all_unique_of (item v xs) ok = ground (arith, unique_of v ok.0, all_unique_of xs ok.1)

  members_unique_of :
      (keys : List Text) (fs : Fields)
      → AllAbsent keys fs
      → HasDistinctKeys fs
      → FieldsWellFormed fs
      → members_unique keys fs ≡ true
  members_unique_of keys no_fields absent distinct ok = refl
  members_unique_of keys (field k v fs) absent distinct ok =
      let (new, rest) = absent_first keys k v fs absent in
      let later = members_unique_of (k ∷ keys) fs (distinct.0, rest) distinct.1 ok.2 in
      ground (arith, unique_of v ok.1)

pub unique-IsWellFormed : (v : Json) → IsWellFormed v → has_unique_keys v ≡ true
unique-IsWellFormed v ok = unique_of v ok

mutual
  unfolding IsWellFormed IsLexical

  IsLexical-of : (v : Json) → IsWellFormed v → IsLexical v
  IsLexical-of null ok = tt
  IsLexical-of (bool b) ok = tt
  IsLexical-of (number n) ok = ok
  IsLexical-of (string s) ok = ok
  IsLexical-of (array xs) ok = AllLexical-of xs ok
  IsLexical-of (object fs) ok = FieldsLexical-of fs ok.1

  AllLexical-of : (xs : Items) → AllWellFormed xs → AllLexical xs
  AllLexical-of no_items ok = tt
  AllLexical-of (item v xs) ok = (IsLexical-of v ok.0, AllLexical-of xs ok.1)

  FieldsLexical-of : (fs : Fields) → FieldsWellFormed fs → FieldsLexical fs
  FieldsLexical-of no_fields ok = tt
  FieldsLexical-of (field k v fs) ok = (ok.0, IsLexical-of v ok.1, FieldsLexical-of fs ok.2)

pub IsLexical-IsWellFormed : (v : Json) → IsWellFormed v → IsLexical v
IsLexical-IsWellFormed v ok = IsLexical-of v ok

length-append : (s t : Text) → length (s ++ t) ≡ length s + length t
length-append [] t = omega arith
length-append (c ∷ s) t = omega (arith, length-append s t)

mutual
  unfolding stringify rounds IsLexical

  rounds_bound : (v : Json) → IsLexical v → rounds v ≤ 2 * length (stringify v)
  rounds_bound null ok = omega arith
  rounds_bound (bool true) ok = omega arith
  rounds_bound (bool false) ok = omega arith
  rounds_bound (number []) ok = absurd ok
  rounds_bound (number (c ∷ n)) ok = omega arith
  rounds_bound (string s) ok = omega arith
  rounds_bound (array no_items) ok = omega arith
  rounds_bound (array (item v xs)) ok = omega (
    arith,
    length-append (stringify v) (later_items xs),
    rounds_bound v ok.0,
    item_rounds_bound xs ok.1,
  )
  rounds_bound (object no_fields) ok = omega arith
  rounds_bound (object (field k v fs)) ok = omega (
    arith,
    length-append (quoted k) (b':' ∷ (stringify v ++ later_fields fs)),
    length-append (stringify v) (later_fields fs),
    rounds_bound v ok.1,
    member_rounds_bound fs ok.2,
  )

  item_rounds_bound : (xs : Items) → AllLexical xs → item_rounds xs ≤ 2 * length (later_items xs)
  item_rounds_bound no_items ok = omega arith
  item_rounds_bound (item v xs) ok = omega (
    arith,
    length-append (stringify v) (later_items xs),
    rounds_bound v ok.0,
    item_rounds_bound xs ok.1,
  )

  member_rounds_bound :
      (fs : Fields) → FieldsLexical fs → member_rounds fs ≤ 2 * length (later_fields fs)
  member_rounds_bound no_fields ok = omega arith
  member_rounds_bound (field k v fs) ok = omega (
    arith,
    length-append (quoted k) (b':' ∷ (stringify v ++ later_fields fs)),
    length-append (stringify v) (later_fields fs),
    rounds_bound v ok.1,
    member_rounds_bound fs ok.2,
  )

pub rounds-le-length : (v : Json) → IsLexical v → rounds v ≤ 2 * length (stringify v)
rounds-le-length v ok = rounds_bound v ok
