-- ===== src/Json/Strict/Agreement/Exact.antt =====
-- `parseStrictJson` (src/strict-json.ts) accepts the text of a value exactly if its keys are unique.
use mathlib.Core.List.{append_assoc, append-nil}
use hyperfinite.Common.{
  ℕ, zero, suc, Option, none, some, if◌then◌else◌, Bool, true, false, not, [], ◌∷◌, ◌++◌, ◌≡◌, ◌≢◌,
  refl, sym, ap, subst, ◌∙◌, arith, all,
}
use hyperfinite.Json.{
  Text, text_eq, code_units, Json, Items, Fields, null, bool, number, string, array, object,
  no_items, item, no_fields, field,
}
use hyperfinite.Json.Canonical.{
  stringify, normalize, canonical_json, later_items, later_fields, quoted, escape,
}
use hyperfinite.Json.Canonical.Sorting.{IsWellFormed}
use hyperfinite.Json.Canonical.Faithful.{normalize-IsWellFormed}
use hyperfinite.Json.Strict.{
  Scan, ScanError, ends_scalar, skip_whitespace, scan_scalar, unless_closed, scan_fuel, at_end,
  scan_parsed, parse_strict_json, scan_value, scan_items, scan_members, ◌>>=◌,
}
use hyperfinite.Json.Strict.Decoding.{scan-escape}
use hyperfinite.Json.Strict.Agreement.{has_unique_keys, rounds, IsLexical, verdict}
use hyperfinite.Json.Strict.Agreement.Steps.{
  EndsScalar, StartsValue, stringify-StartsValue, skip-StartsValue, open-StartsValue,
  scan_scalar-number, scan_word, scan_nothing,
}
use hyperfinite.Json.Strict.Agreement.Unique.{
  unique-IsWellFormed, IsLexical-IsWellFormed, rounds-le-length,
}
use hyperfinite.Json.Strict.Agreement.Values.{
  value_step, dispatch_string, dispatch_array, dispatch_object, dispatch_scalar, after_item_closed,
  after_item_next, after_member_closed, after_member_next, items_step, members_step, ValueScan,
  ItemsScan, MembersScan,
}

scan_literal :
    (f c : ℕ) (n r : Text)
    → StartsValue (c ∷ (n ++ r))
    → c ≢ b'"'
    → c ≢ b'['
    → c ≢ b'{'
    → scan_scalar (c ∷ (n ++ r)) ≡ r
    → scan_value (suc f) (c ∷ (n ++ r)) ≡ Scan.ok r
scan_literal f c n r starts p q s e =
    value_step f (c ∷ (n ++ r)) starts
    ∙ (dispatch_scalar (scan_items f) (scan_members f []) c (n ++ r) p q s ∙ ap Scan.ok e)

scan_letters :
    (n r : Text) → all (λ c. not (ends_scalar c)) n ≡ true → EndsScalar r → scan_scalar (n ++ r) ≡ r
scan_letters [] r h d = scan_nothing r d
scan_letters (c ∷ n) r h d = scan_word c n r (ground arith) (scan_letters n r (ground arith) d)

quoted_text : (s r : Text) → quoted s ++ r ≡ b'"' ∷ (escape false s ++ (b'"' ∷ r))
quoted_text s r = ap (λ t. b'"' ∷ t) (append_assoc (escape false s) (b'"' ∷ []) r)

bracket_starts : (t : Text) → StartsValue (b'[' ∷ t)
bracket_starts t = (ground arith, λ e. absurd (omega arith))

brace_starts : (t : Text) → StartsValue (b'{' ∷ t)
brace_starts t = (ground arith, λ e. absurd (omega arith))

quote_starts : (t : Text) → StartsValue (b'"' ∷ t)
quote_starts t = (ground arith, λ e. absurd (omega arith))

string_step : (f : ℕ) (s r : Text) → scan_value (suc f) (quoted s ++ r) ≡ Scan.ok r
string_step f s r =
    ap (scan_value (suc f)) (quoted_text s r)
    ∙ (value_step f (b'"' ∷ (escape false s ++ (b'"' ∷ r))) (quote_starts [])
        ∙ (dispatch_string (scan_items f) (scan_members f []) (escape false s ++ (b'"' ∷ r))
            ∙ ap (λ x. x >>= λ found. Scan.ok found.1) (scan-escape false s r)))

array_step : (f : ℕ) (t : Text) → StartsValue t → scan_value (suc f) (b'[' ∷ t) ≡ scan_items f t
array_step f t starts =
    value_step f (b'[' ∷ t) (bracket_starts t)
    ∙ (dispatch_array (scan_items f) (scan_members f []) t
        ∙ (ap (λ x. unless_closed b']' x (scan_items f x)) (skip-StartsValue t starts)
            ∙ open-StartsValue t (scan_items f t) starts))

empty_array : (f : ℕ) (r : Text) → scan_value (suc f) (b'[' ∷ b']' ∷ r) ≡ Scan.ok r
unfolding skip_whitespace
empty_array f r =
    value_step f (b'[' ∷ b']' ∷ r) (bracket_starts [])
    ∙ (dispatch_array (scan_items f) (scan_members f []) (b']' ∷ r) ∙ ground arith)

object_step :
    (f : ℕ) (t : Text) → scan_value (suc f) (b'{' ∷ b'"' ∷ t) ≡ scan_members f [] (b'"' ∷ t)
object_step f t =
    value_step f (b'{' ∷ b'"' ∷ t) (brace_starts [])
    ∙ (dispatch_object (scan_items f) (scan_members f []) (b'"' ∷ t)
        ∙ (ap (λ x. unless_closed b'}' x (scan_members f [] x))
              (skip-StartsValue (b'"' ∷ t) (quote_starts t))
            ∙ unclosed))
  where
    unclosed :
        unless_closed b'}' (b'"' ∷ t) (scan_members f [] (b'"' ∷ t)) ≡ scan_members f [] (b'"' ∷ t)
    unclosed = ground arith

empty_object : (f : ℕ) (r : Text) → scan_value (suc f) (b'{' ∷ b'}' ∷ r) ≡ Scan.ok r
unfolding skip_whitespace
empty_object f r =
    value_step f (b'{' ∷ b'}' ∷ r) (brace_starts [])
    ∙ (dispatch_object (scan_items f) (scan_members f []) (b'}' ∷ r) ∙ ground arith)

mutual
  unfolding stringify rounds has_unique_keys IsLexical

  value_scans : (v : Json) → ValueScan v
  value_scans null zero r n a d = absurd (omega arith)
  value_scans null (suc f) r n a d =
      scan_literal f b'n' (code_units "ull") r (ground arith, λ e. absurd (omega arith))
        (λ e. absurd (omega arith)) (λ e. absurd (omega arith)) (λ e. absurd (omega arith))
        (scan_letters (code_units "null") r (ground arith) d)
  value_scans (bool true) zero r n a d = absurd (omega arith)
  value_scans (bool true) (suc f) r n a d =
      scan_literal f b't' (code_units "rue") r (ground arith, λ e. absurd (omega arith))
        (λ e. absurd (omega arith)) (λ e. absurd (omega arith)) (λ e. absurd (omega arith))
        (scan_letters (code_units "true") r (ground arith) d)
  value_scans (bool false) zero r n a d = absurd (omega arith)
  value_scans (bool false) (suc f) r n a d =
      scan_literal f b'f' (code_units "alse") r (ground arith, λ e. absurd (omega arith))
        (λ e. absurd (omega arith)) (λ e. absurd (omega arith)) (λ e. absurd (omega arith))
        (scan_letters (code_units "false") r (ground arith) d)
  value_scans (number m) zero r n a d = absurd (omega arith)
  value_scans (number []) (suc f) r n a d = absurd a
  value_scans (number (c ∷ m)) (suc f) r n a d =
      scan_literal f c m r (ground arith, λ e. absurd (ground arith)) (λ e. absurd (ground arith))
        (λ e. absurd (ground arith)) (λ e. absurd (ground arith)) (scan_scalar-number (c ∷ m) r a d)
  value_scans (string s) zero r n a d = absurd (omega arith)
  value_scans (string s) (suc f) r n a d = string_step f s r
  value_scans (array xs) zero r n a d = absurd (omega arith)
  value_scans (array no_items) (suc f) r n a d = empty_array f r
  value_scans (array (item v xs)) (suc f) r n a d =
      array_step f ((stringify v ++ later_items xs) ++ r) (
        subst StartsValue (sym (append_assoc (stringify v) (later_items xs) r))
          (stringify-StartsValue v (later_items xs ++ r) a.0))
      ∙ items_step v xs f r (omega arith) a.0 a.1 (value_scans v) (items_scan xs)
  value_scans (object fs) zero r n a d = absurd (omega arith)
  value_scans (object no_fields) (suc f) r n a d = empty_object f r
  value_scans (object (field k v fs)) (suc f) r n a d =
      object_step f
        ((escape false k ++ (b'"' ∷ [])) ++ (b':' ∷ (stringify v ++ later_fields fs)) ++ r)
      ∙ members_step k v fs f [] r (omega arith) a.0 a.1 a.2 (value_scans v) (members_scan fs)

  items_scan : (xs : Items) → ItemsScan xs
  items_scan no_items f r n a = after_item_closed f r
  items_scan (item v xs) f r n a =
      after_item_next f ((stringify v ++ later_items xs) ++ r)
      ∙ (ap (scan_items f) (
            skip-StartsValue ((stringify v ++ later_items xs) ++ r) (
              subst StartsValue (sym (append_assoc (stringify v) (later_items xs) r))
                (stringify-StartsValue v (later_items xs ++ r) a.0)))
          ∙ items_step v xs f r n a.0 a.1 (value_scans v) (items_scan xs))

  members_scan : (fs : Fields) → MembersScan fs
  members_scan no_fields f keys r n a = after_member_closed f keys r
  members_scan (field k v fs) f keys r n a =
      after_member_next f keys ((quoted k ++ (b':' ∷ (stringify v ++ later_fields fs))) ++ r)
      ∙ (ap (scan_members f keys) (
            skip-StartsValue ((quoted k ++ (b':' ∷ (stringify v ++ later_fields fs))) ++ r)
              (ground arith, λ e. absurd (omega arith)))
          ∙ members_step k v fs f keys r n a.0 a.1 a.2 (value_scans v) (members_scan fs))

-- The end of a scan that leaves nothing.
finished :
    (u : Bool) (w : Json)
    → (verdict u [] >>= λ rest. at_end (skip_whitespace rest) >>= λ done. Scan.ok w)
      ≡ (if u then Scan.ok w else Scan.err ScanError.duplicate_key)
unfolding skip_whitespace
finished true w = refl
finished false w = refl

scanned :
    (v w : Json)
    → IsLexical v
    → (scan_value (scan_fuel (stringify v)) (stringify v) >>= λ rest.
        at_end (skip_whitespace rest) >>= λ done. Scan.ok w)
      ≡ (if has_unique_keys v then Scan.ok w else Scan.err ScanError.duplicate_key)
scanned v w lexical =
    ap (λ s. s >>= λ rest. at_end (skip_whitespace rest) >>= λ done. Scan.ok w)
      (ap (scan_value (scan_fuel (stringify v))) (sym (append-nil (stringify v)))
        ∙ value_scans v (scan_fuel (stringify v)) [] (omega (arith, rounds-le-length v lexical))
            lexical tt)
    ∙ finished (has_unique_keys v) w

-- `JSON.parse` alone: what it returns, or its error.
abbrev pub parsed : Option Json → Scan Json
parsed none = Scan.err ScanError.invalid_json
parsed (some w) = Scan.ok w

by_parse :
    (o : Option Json) (v : Json)
    → IsLexical v
    → scan_parsed o (stringify v) ≡ (
        parsed o >>= λ w. if has_unique_keys v then Scan.ok w else Scan.err ScanError.duplicate_key)
unfolding scan_parsed
by_parse none v lexical = refl
by_parse (some w) v lexical = scanned v w lexical

-- On a text that writes a tree of objects, arrays and scalars, in which keys may be repeated and the
-- numbers and strings are lexically valid, `parseStrictJson` is `JSON.parse`, whatever that returns,
-- but that it refuses a duplicate key if some object of the tree has a key twice.
pub parse_strict_json-stringify :
    (parse : Text → Option Json) (v : Json)
    → IsLexical v
    → parse_strict_json parse (stringify v) ≡ (
        parsed (parse (stringify v)) >>= λ w.
        if has_unique_keys v then Scan.ok w else Scan.err ScanError.duplicate_key)
unfolding parse_strict_json
parse_strict_json-stringify parse v lexical = by_parse (parse (stringify v)) v lexical

parsed_unchanged :
    (r : Scan Json) → (r >>= λ w. if true then Scan.ok w else Scan.err ScanError.duplicate_key) ≡ r
parsed_unchanged (Scan.ok w) = refl
parsed_unchanged (Scan.err e) = refl

-- Canonical text of a well-formed value is strict JSON: on it `parseStrictJson` is `JSON.parse`,
-- whatever that returns.
pub parse_strict_json-canonical_json :
    (parse : Text → Option Json) (v : Json)
    → IsWellFormed v
    → parse_strict_json parse (canonical_json v) ≡ parsed (parse (canonical_json v))
unfolding canonical_json
parse_strict_json-canonical_json parse v valid =
    let normal = normalize-IsWellFormed v valid in
    parse_strict_json-stringify parse (normalize v) (IsLexical-IsWellFormed (normalize v) normal)
    ∙ rw (unique-IsWellFormed (normalize v) normal) (parsed_unchanged _)
