-- ===== src/Tests/Texts.antt =====
-- Instances of the theorems on canonical and strict JSON.
use hyperfinite.Common.{
  ◌==◌, ◌≡◌, ◌≢◌, ◌↔◌, ◌⊎◌, refl, Option, some, none, List, [], ◌∷◌, if◌then◌else◌, ne_of_test,
  true, false,
}
use hyperfinite.Json.{
  Text, text_eq, Text-discrete, code_units, Json, null, number, string, array, object, no_items,
  item, no_fields, field,
}
use hyperfinite.Json.Order.{text_leb}
use hyperfinite.Json.Canonical.{
  insert_field, sort_fields, decimal_from, is_array_index, own_leb, from_sorted_entries, normalize,
  short_letter, is_lone, unit_text, escape, stringify, canonical_json, json_digest,
}
use hyperfinite.Json.Canonical.Shuffled.{Shuffled}
use hyperfinite.Json.Canonical.Sorting.{IsWellFormed}
use hyperfinite.Json.Canonical.Faithful.{canonical_json-eq_iff, json_digest-Shuffled}
use hyperfinite.Json.Strict.{
  Scan, ScanError, parse_strict_json, scan_parsed, scan_value, scan_members, scan_items, dispatch,
  scan_string, scan_scalar, skip_whitespace, decoded, ◌>>=◌,
}
use hyperfinite.Json.Strict.Termination.{Returns, parse_strict_json-Returns}
use hyperfinite.Json.Strict.Agreement.{has_unique_keys, IsLexical}
use hyperfinite.Json.Strict.Agreement.Exact.{
  parsed, parse_strict_json-stringify, parse_strict_json-canonical_json,
}

abbrev steps : Json
steps = array (item (number (code_units "1")) (item (string (code_units "a\"b")) no_items))

abbrev report : Json
report = object (field (code_units "10") steps (field (code_units "9") null no_fields))

abbrev reordered : Json
reordered = object (field (code_units "9") null (field (code_units "10") steps no_fields))

report-IsWellFormed : IsWellFormed report
unfolding IsWellFormed hyperfinite.Common.ℕ_discrete Text-discrete
report-IsWellFormed =
    (((ne_of_test refl, tt), (tt, tt)), (refl, (refl, (refl, tt)), (refl, tt, tt)))

reordered-IsWellFormed : IsWellFormed reordered
unfolding IsWellFormed hyperfinite.Common.ℕ_discrete Text-discrete
reordered-IsWellFormed =
    (((ne_of_test refl, tt), (tt, tt)), (refl, tt, (refl, (refl, (refl, tt)), tt)))

-- Array indices come first, by their numbers.
report_text : canonical_json report ≡ code_units "{\"9\":null,\"10\":[1,\"a\\\"b\"]}"
unfolding canonical_json stringify normalize from_sorted_entries sort_fields insert_field text_leb
    own_leb is_array_index decimal_from escape unit_text is_lone short_letter
    hyperfinite.Common.ℕ_discrete
report_text = refl

canonical_json-eq_iff_example :
    (canonical_json report ≡ canonical_json reordered) ↔ Shuffled report reordered
canonical_json-eq_iff_example =
    canonical_json-eq_iff report reordered report-IsWellFormed reordered-IsWellFormed

abbrev first_units : Text → Text
first_units [] = []
first_units (c ∷ text) = c ∷ []

same_digest : json_digest first_units report ≡ json_digest first_units reordered
unfolding json_digest canonical_json stringify normalize from_sorted_entries sort_fields
    insert_field text_leb own_leb is_array_index decimal_from escape unit_text is_lone short_letter
    hyperfinite.Common.ℕ_discrete
same_digest = refl

json_digest-Shuffled_example :
    Shuffled report reordered
    ⊎ ((canonical_json report ≢ canonical_json reordered)
        × (first_units (canonical_json report) ≡ first_units (canonical_json reordered)))
json_digest-Shuffled_example =
    json_digest-Shuffled first_units report reordered report-IsWellFormed reordered-IsWellFormed
      same_digest

-- A key twice.
abbrev repeated : Json
repeated = object (field (code_units "a") null (field (code_units "a") steps no_fields))

-- {"\u004A":1,"\u004B":2}
abbrev capitals : Text
capitals = code_units "{\"\\u004A\":1,\"\\u004B\":2}"

abbrev jk : Json
jk = object (
    field (code_units "J") (number (code_units "1"))
      (field (code_units "K") (number (code_units "2")) no_fields))

-- Of a repeated key `JSON.parse` keeps the later value.
abbrev later_kept : Json
later_kept = object (field (code_units "a") steps no_fields)

-- A parser that reads the texts of these values, and of one with a capital escape.
abbrev parse : Text → Option Json
parse source =
    if source == stringify repeated
    then some later_kept
    else if source == canonical_json report
    then some (normalize report)
    else if source == capitals
    then some jk
    else none

repeated-IsLexical : IsLexical repeated
unfolding IsLexical hyperfinite.Common.ℕ_discrete
repeated-IsLexical = (refl, tt, (refl, (refl, (refl, tt)), tt))

-- The two keys differ: JSON escapes have digits of either case.
capitals_accepted : parse_strict_json parse capitals ≡ Scan.ok jk
unfolding parse_strict_json scan_parsed scan_value scan_members scan_items dispatch scan_string
    scan_scalar skip_whitespace decoded canonical_json stringify normalize from_sorted_entries
    sort_fields insert_field text_leb own_leb is_array_index decimal_from escape unit_text is_lone
    short_letter hyperfinite.Common.ℕ_discrete Text-discrete
capitals_accepted = refl

parse_strict_json-stringify_example : parse_strict_json parse (stringify repeated) ≡ (
    parsed (parse (stringify repeated)) >>= λ w.
    if has_unique_keys repeated then Scan.ok w else Scan.err ScanError.duplicate_key)
parse_strict_json-stringify_example = parse_strict_json-stringify parse repeated repeated-IsLexical

parse_strict_json-canonical_json_example :
    parse_strict_json parse (canonical_json report) ≡ parsed (parse (canonical_json report))
parse_strict_json-canonical_json_example =
    parse_strict_json-canonical_json parse report report-IsWellFormed

parse_strict_json-Returns_example :
    Returns (parse (code_units "{\"a\"")) (parse_strict_json parse (code_units "{\"a\""))
parse_strict_json-Returns_example = parse_strict_json-Returns parse (code_units "{\"a\"")
