-- ===== src/Json/Strict/Agreement/Steps.antt =====
-- The steps of the scanner (src/strict-json.ts) over the text of a value.
use hyperfinite.Common.{ℕ, true, false, [], ◌∷◌, ◌++◌, ◌≡◌, ◌≢◌, refl, arith, all, nat_eq}
use hyperfinite.Json.{
  Text, text_eq, Json, Items, Fields, null, bool, number, string, array, object, no_items, item,
  no_fields, field,
}
use hyperfinite.Json.Canonical.{stringify, later_items, later_fields}
use hyperfinite.Json.Canonical.Sorting.{is_number_char}
use hyperfinite.Json.Strict.{
  Scan, ScanError, is_whitespace, ends_scalar, skip_whitespace, scan_scalar, unless_closed,
  unless_end,
}
use hyperfinite.Json.Strict.Agreement.{IsLexical}

-- The end of a scalar.
abbrev pub EndsScalar : Text → Type 0
EndsScalar [] = Unit
EndsScalar (c ∷ text) = ends_scalar c ≡ true

-- A text that starts with no white space and no closing bracket.
abbrev pub StartsValue : Text → Type 0
StartsValue [] = ⊥
StartsValue (c ∷ text) = (is_whitespace c ≡ false) × (c ≢ b']')

pub stringify-StartsValue : (v : Json) (r : Text) → IsLexical v → StartsValue (stringify v ++ r)
unfolding stringify IsLexical
stringify-StartsValue null r h = (ground arith, λ e. absurd (omega arith))
stringify-StartsValue (bool true) r h = (ground arith, λ e. absurd (omega arith))
stringify-StartsValue (bool false) r h = (ground arith, λ e. absurd (omega arith))
stringify-StartsValue (number []) r h = absurd h
stringify-StartsValue (number (c ∷ n)) r h = (ground arith, λ e. absurd (ground arith))
stringify-StartsValue (string s) r h = (ground arith, λ e. absurd (omega arith))
stringify-StartsValue (array no_items) r h = (ground arith, λ e. absurd (omega arith))
stringify-StartsValue (array (item v xs)) r h = (ground arith, λ e. absurd (omega arith))
stringify-StartsValue (object no_fields) r h = (ground arith, λ e. absurd (omega arith))
stringify-StartsValue (object (field k v fs)) r h = (ground arith, λ e. absurd (omega arith))

pub skip-StartsValue : (t : Text) → StartsValue t → skip_whitespace t ≡ t
unfolding skip_whitespace
skip-StartsValue [] h = absurd h
skip-StartsValue (c ∷ t) h = rw (h.0) refl

pub open-StartsValue : (t : Text) (o : Scan Text) → StartsValue t → unless_closed b']' t o ≡ o
open-StartsValue [] o h = refl
open-StartsValue (c ∷ t) o h = ground arith

pub going-StartsValue :
    (e : ScanError) (t : Text) (o : Scan Text) → StartsValue t → unless_end e t o ≡ o
going-StartsValue e [] o h = absurd h
going-StartsValue e (c ∷ t) o h = refl

pub scan_scalar-number :
    (n r : Text) → all is_number_char n ≡ true → EndsScalar r → scan_scalar (n ++ r) ≡ r
unfolding scan_scalar
scan_scalar-number [] [] h d = refl
scan_scalar-number [] (c ∷ r) h d = rw d refl
scan_scalar-number (c ∷ n) r h d =
    let ih = scan_scalar-number n r (ground arith) d in
    let other : ends_scalar c ≡ false = ground arith in rw other ih

pub scan_word :
    (c : ℕ) (n r : Text)
    → ends_scalar c ≡ false
    → scan_scalar (n ++ r) ≡ r
    → scan_scalar (c ∷ (n ++ r)) ≡ r
unfolding scan_scalar
scan_word c n r other rest = rw other rest

pub scan_nothing : (r : Text) → EndsScalar r → scan_scalar r ≡ r
unfolding scan_scalar
scan_nothing [] d = refl
scan_nothing (c ∷ r) d = rw d refl

pub later_items-EndsScalar : (xs : Items) (r : Text) → EndsScalar (later_items xs ++ r)
unfolding later_items
later_items-EndsScalar no_items r = ground arith
later_items-EndsScalar (item v xs) r = ground arith

pub later_fields-EndsScalar : (fs : Fields) (r : Text) → EndsScalar (later_fields fs ++ r)
unfolding later_fields
later_fields-EndsScalar no_fields r = ground arith
later_fields-EndsScalar (field k v fs) r = ground arith
