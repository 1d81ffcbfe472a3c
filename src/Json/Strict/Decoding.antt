-- ===== src/Json/Strict/Decoding.antt =====
-- The scanner (src/strict-json.ts) reads the strings that `JSON.stringify` writes.
use Prim.Native.Nat.{◌/◌}
use mathlib.Core.List.{append_assoc}
use hyperfinite.Common.{
  ℕ, ◌+◌, ◌-◌, ◌*◌, ◌%◌, ◌<◌, Bool, true, false, ◌||◌, none, some, List, [], ◌∷◌, ◌++◌, ◌≡◌, ◌≢◌,
  refl, sym, ap, ◌∙◌, arith, all, ltb, ◌==◌, if◌then◌else◌, nat_eq,
}
use hyperfinite.Json.{Text}
use hyperfinite.Json.Canonical.{
  short_letter, hex_digit, hex_digits, unit_text, escape, is_high_surrogate,
}
use hyperfinite.Json.Canonical.Sorting.{IsText}
use hyperfinite.Json.Canonical.Units.{Form, unit-Form, short_letter-ne-u}
use hyperfinite.Json.Strict.{Scan, consumed, scan_string, Reading, hex_value, escaped_unit, decoded}

consumed_twice :
    (s t : Text) (r : Scan (Text × Text)) → consumed s (consumed t r) ≡ consumed (s ++ t) r
consumed_twice s t (Scan.ok (body, rest)) =
    ap (λ x. Scan.ok (x, rest)) (sym (append_assoc s t body))
consumed_twice s t (Scan.err e) = refl

scan_plain :
    (c x : ℕ) (xs : Text)
    → c ≢ b'"'
    → c ≢ b'\\'
    → scan_string (c ∷ x ∷ xs) ≡ consumed (c ∷ []) (scan_string (x ∷ xs))
unfolding scan_string
scan_plain c x xs p q = ground arith

scan_escaped :
    (d : ℕ) (text : Text)
    → scan_string (b'\\' ∷ d ∷ text) ≡ consumed (b'\\' ∷ d ∷ []) (scan_string text)
unfolding scan_string
scan_escaped d text = ground arith

hex_digit-plain : (n : ℕ) → (hex_digit n ≢ b'"') × (hex_digit n ≢ b'\\')
hex_digit-plain n = (λ e. absurd (ground arith), λ e. absurd (ground arith))

scan_four :
    (a b c d x : ℕ) (xs : Text)
    → (a ≢ b'"') × (a ≢ b'\\')
    → (b ≢ b'"') × (b ≢ b'\\')
    → (c ≢ b'"') × (c ≢ b'\\')
    → (d ≢ b'"') × (d ≢ b'\\')
    → scan_string (a ∷ b ∷ c ∷ d ∷ x ∷ xs) ≡ consumed (a ∷ b ∷ c ∷ d ∷ []) (scan_string (x ∷ xs))
scan_four a b c d x xs p q r s =
    let rest = scan_string (x ∷ xs) in
    let e1 = scan_plain a b (c ∷ d ∷ x ∷ xs) p.0 p.1 in
    let e2 = scan_plain b c (d ∷ x ∷ xs) q.0 q.1 in
    let e3 = scan_plain c d (x ∷ xs) r.0 r.1 in
    let e4 = scan_plain d x xs s.0 s.1 in
    let from_c = e3 ∙ (ap (consumed (c ∷ [])) e4 ∙ consumed_twice (c ∷ []) (d ∷ []) rest) in
    let from_b = e2 ∙ (ap (consumed (b ∷ [])) from_c ∙ consumed_twice (b ∷ []) (c ∷ d ∷ []) rest) in
    e1 ∙ (ap (consumed (a ∷ [])) from_b ∙ consumed_twice (a ∷ []) (b ∷ c ∷ d ∷ []) rest)

scan_hex_digits :
    (c x : ℕ) (xs : Text)
    → scan_string (hex_digits c ++ (x ∷ xs)) ≡ consumed (hex_digits c) (scan_string (x ∷ xs))
scan_hex_digits c x xs =
    scan_four (hex_digit (c / 4096 % 16)) (hex_digit (c / 256 % 16)) (hex_digit (c / 16 % 16))
      (hex_digit (c % 16)) x xs (hex_digit-plain (c / 4096 % 16)) (hex_digit-plain (c / 256 % 16))
      (hex_digit-plain (c / 16 % 16)) (hex_digit-plain (c % 16))

scan-Form :
    (c x : ℕ) (xs : Text) {t : Text}
    → Form c t
    → scan_string (t ++ (x ∷ xs)) ≡ consumed t (scan_string (x ∷ xs))
scan-Form c x xs (Form.short a e) = scan_escaped a (x ∷ xs)
scan-Form c x xs Form.long =
    scan_escaped b'u' (hex_digits c ++ (x ∷ xs))
    ∙ (ap (consumed (b'\\' ∷ b'u' ∷ [])) (scan_hex_digits c x xs)
        ∙ consumed_twice (b'\\' ∷ b'u' ∷ []) (hex_digits c) (scan_string (x ∷ xs)))
scan-Form c x xs (Form.plain p) = scan_plain c x xs p.0 p.1

hex_value-hex_digit : (n : ℕ) → n < 16 → hex_value (hex_digit n) ≡ n
hex_value-hex_digit n h = ground arith

escaped_unit-short : (c a : ℕ) → short_letter c ≡ some a → escaped_unit a ≡ c
unfolding short_letter
escaped_unit-short c a h = ground arith

digits_value :
    (a b d e c : ℕ)
    → c < 65536
    → a ≡ c / 4096 % 16
    → b ≡ c / 256 % 16
    → d ≡ c / 16 % 16
    → e ≡ c % 16
    → (((0 + a) * 16 + b) * 16 + d) * 16 + e ≡ c
digits_value a b d e c h p q r s = omega arith

decoded_digits :
    (c : ℕ) (text : Text)
    → c < 65536
    → decoded (Reading.digit 0 0) (hex_digits c ++ text) ≡ c ∷ decoded Reading.outside text
unfolding decoded hyperfinite.Common.ℕ_discrete
decoded_digits c text h =
    ap (λ v. v ∷ decoded Reading.outside text)
      (digits_value _ _ _ _ c h (hex_value-hex_digit (c / 4096 % 16) (omega arith))
        (hex_value-hex_digit (c / 256 % 16) (omega arith))
        (hex_value-hex_digit (c / 16 % 16) (omega arith))
        (hex_value-hex_digit (c % 16) (omega arith)))

decoded_u :
    (text : Text) → decoded Reading.outside (b'\\' ∷ b'u' ∷ text) ≡ decoded (Reading.digit 0 0) text
unfolding decoded
decoded_u text = ground arith

decoded_letter :
    (a : ℕ) (text : Text)
    → a ≢ b'u'
    → decoded Reading.outside (b'\\' ∷ a ∷ text) ≡ escaped_unit a ∷ decoded Reading.outside text
unfolding decoded
decoded_letter a text differ = ground arith

decoded_plain :
    (c : ℕ) (text : Text)
    → c ≢ b'\\'
    → decoded Reading.outside (c ∷ text) ≡ c ∷ decoded Reading.outside text
unfolding decoded
decoded_plain c text differ = ground arith

decoded-Form :
    (c : ℕ) (text : Text) {t : Text}
    → c < 65536
    → Form c t
    → decoded Reading.outside (t ++ text) ≡ c ∷ decoded Reading.outside text
decoded-Form c text h (Form.short a e) =
    decoded_letter a text (λ q. short_letter-ne-u c (e ∙ ap some q))
    ∙ ap (λ x. x ∷ decoded Reading.outside text) (escaped_unit-short c a e)
decoded-Form c text h Form.long = decoded_u (hex_digits c ++ text) ∙ decoded_digits c text h
decoded-Form c text h (Form.plain p) = decoded_plain c text p.1

decoded_nil : decoded Reading.outside [] ≡ []
unfolding decoded
decoded_nil = refl

scan_closing : (rest : Text) → scan_string (b'"' ∷ rest) ≡ Scan.ok ([], rest)
unfolding scan_string
scan_closing [] = ground arith
scan_closing (c ∷ rest) = ground arith

is_nonempty : (s rest : Text) → (x : ℕ) × (xs : Text) × (s ++ (b'"' ∷ rest) ≡ x ∷ xs)
is_nonempty [] rest = (b'"', rest, refl)
is_nonempty (x ∷ s) rest = (x, s ++ (b'"' ∷ rest), refl)

-- The characters of the escaped string, up to the closing quotation mark.
pub scan-escape :
    (after_high : Bool) (s rest : Text)
    → scan_string (escape after_high s ++ (b'"' ∷ rest)) ≡ Scan.ok (escape after_high s, rest)
unfolding escape
scan-escape after_high [] rest = scan_closing rest
scan-escape after_high (c ∷ s) rest =
    let later = escape (is_high_surrogate c) s in
    let (x, xs, e) = is_nonempty later rest in
    let form = unit-Form after_high c s in
    let unit = unit_text after_high c s in
    ap scan_string (append_assoc unit later (b'"' ∷ rest) ∙ ap (λ t. unit ++ t) e)
    ∙ (scan-Form c x xs form
        ∙ (ap (λ t. consumed unit (scan_string t)) (sym e)
            ∙ ap (consumed unit) (scan-escape (is_high_surrogate c) s rest)))

-- Decoding undoes the escapes.
pub decoded-escape :
    (after_high : Bool) (s : Text) → IsText s → decoded Reading.outside (escape after_high s) ≡ s
unfolding escape
decoded-escape after_high [] h = decoded_nil
decoded-escape after_high (c ∷ s) h =
    decoded-Form c (escape (is_high_surrogate c) s) (ground arith) (unit-Form after_high c s)
    ∙ ap (λ x. c ∷ x) (decoded-escape (is_high_surrogate c) s (ground arith))
