-- ===== src/Json/Canonical/Kinds.antt =====
-- What the first character of a value's text (`JSON.stringify` in src/canonical.ts) tells of it.
use hyperfinite.Common.{
  ℕ, true, false, [], ◌∷◌, ◌++◌, ◌≡◌, ◌≢◌, refl, arith, all, ◌==◌, nat_eq, if◌then◌else◌,
}
use hyperfinite.Json.{
  Text, Json, Items, Fields, null, bool, number, string, array, object, no_items, item, no_fields,
  field, text_eq,
}
use hyperfinite.Json.Canonical.{stringify}
use hyperfinite.Json.Canonical.Sorting.{is_number_char, IsWellFormed}

-- What the head of a value's text tells of its kind.
pub data Kind : Type 0 where
  as_null as_true as_false as_number as_string as_array as_object unknown : Kind

abbrev pub kind_of_head : ℕ → Kind
kind_of_head c =
    if is_number_char c
    then Kind.as_number
    else if c == b'n'
    then Kind.as_null
    else if c == b't'
    then Kind.as_true
    else if c == b'f'
    then Kind.as_false
    else if c == b'"'
    then Kind.as_string
    else if c == b'['
    then Kind.as_array
    else if c == b'{'
    then Kind.as_object
    else Kind.unknown

abbrev pub kind_of_text : Text → Kind
kind_of_text [] = Kind.unknown
kind_of_text (c ∷ t) = kind_of_head c

abbrev pub kind_of : Json → Kind
kind_of null = Kind.as_null
kind_of (bool true) = Kind.as_true
kind_of (bool false) = Kind.as_false
kind_of (number n) = Kind.as_number
kind_of (string s) = Kind.as_string
kind_of (array xs) = Kind.as_array
kind_of (object fs) = Kind.as_object

-- What follows a value: nothing that a number could go on with.
abbrev pub IsDelimited : Text → Type 0
IsDelimited [] = Unit
IsDelimited (c ∷ t) = is_number_char c ≡ false

pub stringify-kind :
    (v : Json) (r : Text) → IsWellFormed v → kind_of_text (stringify v ++ r) ≡ kind_of v
unfolding stringify IsWellFormed
stringify-kind null r ok = ground arith
stringify-kind (bool true) r ok = ground arith
stringify-kind (bool false) r ok = ground arith
stringify-kind (number []) r ok = absurd ok
stringify-kind (number (c ∷ n)) r ok = ground arith
stringify-kind (string s) r ok = ground arith
stringify-kind (array no_items) r ok = ground arith
stringify-kind (array (item v xs)) r ok = ground arith
stringify-kind (object no_fields) r ok = ground arith
stringify-kind (object (field k v fs)) r ok = ground arith

pub number_inj :
    (n m r q : Text)
    → all is_number_char n ≡ true
    → all is_number_char m ≡ true
    → IsDelimited r
    → IsDelimited q
    → n ++ r ≡ m ++ q
    → (n ≡ m) × (r ≡ q)
number_inj [] [] r q a b dr dq h = (refl, h)
number_inj [] (d ∷ m) [] q a b dr dq h = cc
number_inj [] (d ∷ m) (c ∷ r) q a b dr dq h = ground arith
number_inj (c ∷ n) [] r [] a b dr dq h = cc
number_inj (c ∷ n) [] r (d ∷ q) a b dr dq h = ground arith
number_inj (c ∷ n) (d ∷ m) r q a b dr dq h =
    let (e, f) = number_inj n m r q (ground arith) (ground arith) dr dq (cc) in (cc, f)

pub is_null : (w : Json) → kind_of w ≡ Kind.as_null → w ≡ null
is_null null k = refl
is_null (bool true) k = cc
is_null (bool false) k = cc
is_null (number n) k = cc
is_null (string n) k = cc
is_null (array n) k = cc
is_null (object n) k = cc

pub is_true : (w : Json) → kind_of w ≡ Kind.as_true → w ≡ bool true
is_true (bool true) k = refl
is_true null k = cc
is_true (bool false) k = cc
is_true (number n) k = cc
is_true (string n) k = cc
is_true (array n) k = cc
is_true (object n) k = cc

pub is_false : (w : Json) → kind_of w ≡ Kind.as_false → w ≡ bool false
is_false (bool false) k = refl
is_false null k = cc
is_false (bool true) k = cc
is_false (number n) k = cc
is_false (string n) k = cc
is_false (array n) k = cc
is_false (object n) k = cc

pub is_number : (w : Json) → kind_of w ≡ Kind.as_number → (n : Text) × (w ≡ number n)
is_number (number n) k = (n, refl)
is_number null k = cc
is_number (bool true) k = cc
is_number (bool false) k = cc
is_number (string n) k = cc
is_number (array n) k = cc
is_number (object n) k = cc

pub is_string : (w : Json) → kind_of w ≡ Kind.as_string → (s : Text) × (w ≡ string s)
is_string (string n) k = (n, refl)
is_string null k = cc
is_string (bool true) k = cc
is_string (bool false) k = cc
is_string (number n) k = cc
is_string (array n) k = cc
is_string (object n) k = cc

pub is_array : (w : Json) → kind_of w ≡ Kind.as_array → (xs : Items) × (w ≡ array xs)
is_array (array n) k = (n, refl)
is_array null k = cc
is_array (bool true) k = cc
is_array (bool false) k = cc
is_array (number n) k = cc
is_array (string n) k = cc
is_array (object n) k = cc

pub is_object : (w : Json) → kind_of w ≡ Kind.as_object → (fs : Fields) × (w ≡ object fs)
is_object (object n) k = (n, refl)
is_object null k = cc
is_object (bool true) k = cc
is_object (bool false) k = cc
is_object (number n) k = cc
is_object (string n) k = cc
is_object (array n) k = cc

pub kind-ne-unknown : (w : Json) → kind_of w ≢ Kind.unknown
kind-ne-unknown null k = cc
kind-ne-unknown (bool true) k = cc
kind-ne-unknown (bool false) k = cc
kind-ne-unknown (number n) k = cc
kind-ne-unknown (string n) k = cc
kind-ne-unknown (array n) k = cc
kind-ne-unknown (object n) k = cc
