-- ===== src/Json/Strict.antt =====
-- Strict JSON (src/strict-json.ts): the scanner that refuses duplicate keys. A position in the source
-- is the text that is left from it; the paths of the errors are left out.
pub mod Decoding
pub mod Termination
pub mod Agreement
use hyperfinite.Common.{
  ℕ, zero, suc, ◌+◌, ◌-◌, ◌*◌, Bool, true, false, ◌&&◌, ◌||◌, not, Option, none, some, List, [],
  ◌∷◌, ◌++◌, length, includes, ltb, leb, ◌==◌, if◌then◌else◌, nat_eq,
}
use hyperfinite.Json.{Text, text_eq, Json}

pub data ScanError : Type 0 where
  unterminated_string invalid_array unterminated_array invalid_key duplicate_key : ScanError
  invalid_separator invalid_object unterminated_object unexpected_data : ScanError
  -- `JSON.parse` throws
  invalid_json : ScanError
  out_of_fuel : ScanError

pub data Scan {ℓ} (A : Type ℓ) : Type ℓ where
  ok : A → Scan A
  err : ScanError → Scan A

infixl 5 ◌>>=◌
abbrev pub ◌>>=◌ {ℓ κ} : {A : Type ℓ} {B : Type κ} → Scan A → (A → Scan B) → Scan B
Scan.ok a >>= f = f a
Scan.err e >>= f = Scan.err e

abbrev pub is_whitespace : ℕ → Bool
is_whitespace c = c == b' ' || c == b'\n' || c == b'\r' || c == b'\t'

unfoldable pub skip_whitespace : Text → Text
skip_whitespace [] = []
skip_whitespace (c ∷ text) =
    let rest = skip_whitespace text in if is_whitespace c then rest else c ∷ text

-- The characters of the string, before what is left.
abbrev pub consumed : Text → Scan (Text × Text) → Scan (Text × Text)
consumed units (Scan.ok (body, rest)) = Scan.ok (units ++ body, rest)
consumed units (Scan.err e) = Scan.err e

-- After the opening quotation mark: the characters up to the closing one, and what is left.
unfoldable pub scan_string : Text → Scan (Text × Text)
scan_string [] = Scan.err ScanError.unterminated_string
scan_string (c ∷ []) =
    if c == b'"' then Scan.ok ([], []) else Scan.err ScanError.unterminated_string
scan_string (c ∷ d ∷ text) =
    let escaped = consumed (c ∷ d ∷ []) (scan_string text) in
    let later = consumed (c ∷ []) (scan_string (d ∷ text)) in
    if c == b'\\' then escaped else if c == b'"' then Scan.ok ([], d ∷ text) else later

-- Where `JSON.parse` stands in a string: outside an escape, after a backslash, or at a digit of a
-- unit of which some digits are read.
pub data Reading : Type 0 where
  outside escape : Reading
  digit : (read value : ℕ) → Reading

-- The value of a hexadecimal digit, of either case.
abbrev pub hex_value : ℕ → ℕ
hex_value c = if ltb c 58 then c - 48 else if ltb c 97 then c - 55 else c - 87

abbrev pub escaped_unit : ℕ → ℕ
escaped_unit c =
    if c == b'b'
    then 8
    else if c == b't'
    then 9
    else if c == b'n'
    then 10
    else if c == b'f'
    then 12
    else if c == b'r'
    then 13
    else c

-- `JSON.parse` of the characters of a well-formed string.
unfoldable pub decoded : Reading → Text → Text
decoded reading [] = []
decoded Reading.outside (c ∷ text) =
    let within = decoded Reading.escape text in
    let plain = c ∷ decoded Reading.outside text in if c == b'\\' then within else plain
decoded Reading.escape (c ∷ text) =
    let unit = decoded (Reading.digit 0 0) text in
    let short = escaped_unit c ∷ decoded Reading.outside text in if c == b'u' then unit else short
decoded (Reading.digit read value) (c ∷ text) =
    let whole = (value * 16 + hex_value c) ∷ decoded Reading.outside text in
    let next = decoded (Reading.digit (read + 1) (value * 16 + hex_value c)) text in
    if read == 3 then whole else next

abbrev pub ends_scalar : ℕ → Bool
ends_scalar c = c == b',' || c == b']' || c == b'}' || is_whitespace c

unfoldable pub scan_scalar : Text → Text
scan_scalar [] = []
scan_scalar (c ∷ text) = let rest = scan_scalar text in if ends_scalar c then c ∷ text else rest

-- What follows `,`: the end of the loop's round.
abbrev pub next_round : ScanError → Text → (Text → Scan Text) → Scan Text
next_round error [] again = Scan.err error
next_round error (c ∷ text) again =
    if c == b',' then again (skip_whitespace text) else Scan.err error

-- `if (source[index] === closing) return index + 1`, else the rest.
abbrev pub unless_closed : (closing : ℕ) → Text → Scan Text → Scan Text
unless_closed closing [] otherwise = otherwise
unless_closed closing (c ∷ text) otherwise = if c == closing then Scan.ok text else otherwise

-- The key's characters and what is left; the first test of an object's loop.
abbrev pub scan_key : Text → Scan (Text × Text)
scan_key [] = Scan.err ScanError.invalid_key
scan_key (c ∷ text) = if c == b'"' then scan_string text else Scan.err ScanError.invalid_key

abbrev pub after_separator : Text → Scan Text
after_separator [] = Scan.err ScanError.invalid_separator
after_separator (c ∷ text) =
    if c == b':' then Scan.ok text else Scan.err ScanError.invalid_separator

-- A new key, which joins the set.
abbrev pub fresh_key : List Text → Text → Scan (List Text)
fresh_key keys key =
    if includes keys key then Scan.err ScanError.duplicate_key else Scan.ok (key ∷ keys)

abbrev pub unless_end : ScanError → Text → Scan Text → Scan Text
unless_end error [] otherwise = Scan.err error
unless_end error (c ∷ text) otherwise = otherwise

-- After the brackets and at other values: the three kinds of value.
unfoldable pub dispatch : (items members : Text → Scan Text) → (text : Text) → Scan Text
dispatch items members [] = Scan.ok []
dispatch items members (c ∷ text) =
    if c == b'"'
    then (scan_string text >>= λ found. Scan.ok found.1)
    else if c == b'['
    then unless_closed b']' (skip_whitespace text) (items (skip_whitespace text))
    else if c == b'{'
    then unless_closed b'}' (skip_whitespace text) (members (skip_whitespace text))
    else Scan.ok (scan_scalar (c ∷ text))

unfoldable mutual
  pub scan_value : (fuel : ℕ) → Text → Scan Text
  scan_value zero text = Scan.err ScanError.out_of_fuel
  scan_value (suc fuel) text =
      dispatch (scan_items fuel) (scan_members fuel []) (skip_whitespace text)

  -- The loop over the items of an array.
  pub scan_items : (fuel : ℕ) → Text → Scan Text
  scan_items zero text = Scan.err ScanError.out_of_fuel
  scan_items (suc fuel) text = unless_end ScanError.unterminated_array text (
      scan_value fuel text >>= λ after.
      unless_closed b']' (skip_whitespace after)
        (next_round ScanError.invalid_array (skip_whitespace after) (scan_items fuel)))

  -- The loop over the members of an object, with the keys that it has met.
  pub scan_members : (fuel : ℕ) (keys : List Text) → Text → Scan Text
  scan_members zero keys text = Scan.err ScanError.out_of_fuel
  scan_members (suc fuel) keys text = unless_end ScanError.unterminated_object text (
      scan_key text >>= λ found. fresh_key keys (decoded Reading.outside found.0) >>= λ known.
      after_separator (skip_whitespace found.1) >>= λ start. scan_value fuel start >>= λ after.
      unless_closed b'}' (skip_whitespace after)
        (next_round ScanError.invalid_object (skip_whitespace after) (scan_members fuel known)))

-- The fuel of a source, which is enough.
abbrev pub scan_fuel : Text → ℕ
scan_fuel source = 2 * length source + 1

abbrev pub at_end : Text → Scan (Unit {0})
at_end [] = Scan.ok tt
at_end (c ∷ text) = Scan.err ScanError.unexpected_data

-- The rest of `parseStrictJson`, after `JSON.parse`.
unfoldable pub scan_parsed : Option Json → (source : Text) → Scan Json
scan_parsed none source = Scan.err ScanError.invalid_json
scan_parsed (some v) source = scan_value (scan_fuel source) source >>= λ rest.
    at_end (skip_whitespace rest) >>= λ done. Scan.ok v

-- parseStrictJson, where `parse` is `JSON.parse`; none where it throws.
unfoldable pub parse_strict_json : (parse : Text → Option Json) → (source : Text) → Scan Json
parse_strict_json parse source = scan_parsed (parse source) source
