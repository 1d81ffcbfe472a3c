-- ===== src/Json/Canonical/Units.antt =====
-- The escapes of a string (`JSON.stringify` in src/canonical.ts) determine it.
use Prim.Native.Nat.{◌/◌}
use hyperfinite.Common.{
  ℕ, ◌%◌, ◌<◌, Bool, true, false, Option, none, some, [], ◌∷◌, ◌++◌, ◌≡◌, ◌≢◌, refl, sym, ap, ◌∙◌,
  arith, nat_eq,
}
use mathlib.Core.List.{append_assoc}
use hyperfinite.Json.{Text}
use hyperfinite.Json.Canonical.{
  short_letter, hex_digit, hex_digits, short_or, unit_text, escape, is_high_surrogate, quoted,
}
use hyperfinite.Json.Canonical.Sorting.{IsText}

short_letter_inj : (c d : ℕ) {a : ℕ} → short_letter c ≡ some a → short_letter d ≡ some a → c ≡ d
unfolding short_letter
short_letter_inj c d h k = ground arith

pub short_letter-ne-u : (c : ℕ) → short_letter c ≢ some b'u'
unfolding short_letter
short_letter-ne-u c h = ground arith

short_letter-none : (c : ℕ) → short_letter c ≡ none → (c ≢ b'"') × (c ≢ b'\\')
unfolding short_letter
short_letter-none c h = ground arith

hex_digit_inj : (n m : ℕ) → n < 16 → m < 16 → hex_digit n ≡ hex_digit m → n ≡ m
hex_digit_inj n m a b h = ground arith

-- The text of a code unit, by its form.
pub data Form (c : ℕ) : Text → Type 0 where
  short : (letter : ℕ) → short_letter c ≡ some letter → Form c (b'\\' ∷ letter ∷ [])
  long : Form c (b'\\' ∷ b'u' ∷ hex_digits c)
  plain : (c ≢ b'"') × (c ≢ b'\\') → Form c (c ∷ [])

Form-of : (c : ℕ) (o : Option ℕ) (b : Bool) → short_letter c ≡ o → Form c (short_or o b c)
Form-of c (some letter) b e = Form.short letter e
Form-of c none true e = Form.long
Form-of c none false e = Form.plain (short_letter-none c e)

pub unit-Form : (after_high : Bool) (c : ℕ) (rest : Text) → Form c (unit_text after_high c rest)
unfolding unit_text
unit-Form after_high c rest = Form-of c _ _ refl

hex_digits_inj :
    (c d : ℕ) (r s : Text)
    → c < 65536
    → d < 65536
    → hex_digits c ++ r ≡ hex_digits d ++ s
    → (c ≡ d) × (r ≡ s)
hex_digits_inj c d r s lc ld h =
    let a = hex_digit_inj (c / 4096 % 16) (d / 4096 % 16) (omega arith) (omega arith) (cc) in
    let b = hex_digit_inj (c / 256 % 16) (d / 256 % 16) (omega arith) (omega arith) (cc) in
    let e = hex_digit_inj (c / 16 % 16) (d / 16 % 16) (omega arith) (omega arith) (cc) in
    let f = hex_digit_inj (c % 16) (d % 16) (omega arith) (omega arith) (cc) in (omega arith, cc)

Form-inj :
    (c d : ℕ) {t u : Text} (r s : Text)
    → c < 65536
    → d < 65536
    → Form c t
    → Form d u
    → t ++ r ≡ u ++ s
    → (c ≡ d) × (r ≡ s)
Form-inj c d r s lc ld (Form.short a e) (Form.short b f) h =
    (short_letter_inj c d {a = a} e (f ∙ ap some (cc)), cc)
Form-inj c d r s lc ld (Form.short a e) Form.long h =
    absurd (short_letter-ne-u c (e ∙ ap some (cc)))
Form-inj c d r s lc ld (Form.short a e) (Form.plain p) h = absurd (p.1 (cc))
Form-inj c d r s lc ld Form.long (Form.short b f) h =
    absurd (short_letter-ne-u d (f ∙ ap some (cc)))
Form-inj c d r s lc ld Form.long Form.long h = hex_digits_inj c d r s lc ld (cc)
Form-inj c d r s lc ld Form.long (Form.plain p) h = absurd (p.1 (cc))
Form-inj c d r s lc ld (Form.plain p) (Form.short b f) h = absurd (p.1 (cc))
Form-inj c d r s lc ld (Form.plain p) Form.long h = absurd (p.1 (cc))
Form-inj c d r s lc ld (Form.plain p) (Form.plain q) h = (cc, cc)

-- The text of a unit does not start with a quotation mark.
Form-ne-quote : (c : ℕ) {t : Text} (r s : Text) → Form c t → t ++ r ≢ b'"' ∷ s
Form-ne-quote c r s (Form.short a e) h = ground arith
Form-ne-quote c r s Form.long h = ground arith
Form-ne-quote c r s (Form.plain p) h = absurd (p.0 (cc))

escape_inj :
    (after_high : Bool) (s t r q : Text)
    → IsText s
    → IsText t
    → escape after_high s ++ (b'"' ∷ r) ≡ escape after_high t ++ (b'"' ∷ q)
    → (s ≡ t) × (r ≡ q)
unfolding escape
escape_inj after_high [] [] r q a b h = (refl, cc)
escape_inj after_high [] (d ∷ t) r q a b h = absurd (
    Form-ne-quote d (escape (is_high_surrogate d) t ++ (b'"' ∷ q)) r (unit-Form after_high d t)
      (sym (append_assoc (unit_text after_high d t) (escape (is_high_surrogate d) t) _) ∙ sym h))
escape_inj after_high (c ∷ s) [] r q a b h = absurd (
    Form-ne-quote c (escape (is_high_surrogate c) s ++ (b'"' ∷ r)) q (unit-Form after_high c s)
      (sym (append_assoc (unit_text after_high c s) (escape (is_high_surrogate c) s) _) ∙ h))
escape_inj after_high (c ∷ s) (d ∷ t) r q a b h =
    let left =
      append_assoc (unit_text after_high c s) (escape (is_high_surrogate c) s) (b'"' ∷ r) in
    let right =
      append_assoc (unit_text after_high d t) (escape (is_high_surrogate d) t) (b'"' ∷ q) in
    let (e, rest) =
      Form-inj c d (escape (is_high_surrogate c) s ++ (b'"' ∷ r))
        (escape (is_high_surrogate d) t ++ (b'"' ∷ q)) (ground arith) (ground arith)
        (unit-Form after_high c s) (unit-Form after_high d t) (sym left ∙ (h ∙ right)) in
    let here : escape (is_high_surrogate c) t ≡ escape (is_high_surrogate d) t =
      ap (λ x. escape (is_high_surrogate x) t) e in
    let (f, k) =
      escape_inj (is_high_surrogate c) s t r q (ground arith) (ground arith)
        (rest ∙ ap (λ x. x ++ (b'"' ∷ q)) (sym here)) in
    (cc, k)

-- Quoted strings with what follows determine the strings and what follows.
pub quoted_inj :
    (s t r q : Text) → IsText s → IsText t → quoted s ++ r ≡ quoted t ++ q → (s ≡ t) × (r ≡ q)
quoted_inj s t r q a b h = escape_inj false s t r q a b (
    sym (append_assoc (escape false s) (b'"' ∷ []) r)
    ∙ ((cc) ∙ append_assoc (escape false t) (b'"' ∷ []) q))
