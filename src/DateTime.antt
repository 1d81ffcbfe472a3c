-- ===== src/DateTime.antt =====
-- `isCanonicalUtcDateTime` (src/validation.ts), over the characters of the text.
use Prim.Native.Char.{code}
use hyperfinite.Common.{
  ℕ, ◌+◌, ◌-◌, ◌*◌, ◌%◌, String, Bool, false, not, ◌&&◌, ◌||◌, List, [], ◌∷◌, ltb, leb, ◌==◌, ◌!=◌,
  if◌then◌else◌, nat_eq,
}

abbrev pub char_codes : String → List ℕ
char_codes String.[] = []
char_codes (String.◌∷◌ c s) = code c ∷ char_codes s

-- `\d`
unfoldable pub is_digit : ℕ → Bool
is_digit c = leb b'0' c && leb c b'9'

-- `Number` of two or four matched digits.
abbrev pub number2 : ℕ → ℕ → ℕ
number2 a b = (a - b'0') * 10 + (b - b'0')

abbrev pub number4 : ℕ → ℕ → ℕ → ℕ → ℕ
number4 a b c d = number2 a b * 100 + number2 c d

-- `(?:\.\d{1,3})?Z$`
unfoldable pub is_fraction : List ℕ → Bool
unfolding is_digit
is_fraction (a ∷ []) = a == b'Z'
is_fraction (p ∷ a ∷ z ∷ []) = p == b'.' && is_digit a && z == b'Z'
is_fraction (p ∷ a ∷ b ∷ z ∷ []) = p == b'.' && is_digit a && is_digit b && z == b'Z'
is_fraction (p ∷ a ∷ b ∷ c ∷ z ∷ []) =
    p == b'.' && is_digit a && is_digit b && is_digit c && z == b'Z'
is_fraction _ = false

unfoldable pub is_leap_year : ℕ → Bool
is_leap_year year = year % 4 == 0 && (year % 100 != 0 || year % 400 == 0)

-- `daysInMonth[month - 1] ?? 0`
unfoldable pub days_in_month : (year month : ℕ) → ℕ
unfolding is_leap_year
days_in_month year month =
    if month == 2
    then (if is_leap_year year then 29 else 28)
    else if month == 4 || month == 6 || month == 9 || month == 11
    then 30
    else if leb 1 month && leb month 12
    then 31
    else 0

-- The range checks behind the pattern.
unfoldable pub is_valid_time : (year month day hour minute second : ℕ) → Bool
unfolding days_in_month
is_valid_time year month day hour minute second =
    not (ltb year 1 || ltb month 1 || ltb 12 month || ltb 23 hour || ltb 59 minute || ltb 59 second)
    && (leb 1 day && leb day (days_in_month year month))

-- The pattern `dddd-dd-ddTdd:dd:dd` and what follows it.
unfoldable pub is_canonical : List ℕ → Bool
unfolding is_valid_time is_fraction
is_canonical
      (y1 ∷ y2 ∷ y3 ∷ y4 ∷ p1 ∷ m1 ∷ m2 ∷ p2 ∷ d1 ∷ d2 ∷ p3 ∷ h1 ∷ h2 ∷ p4 ∷ n1 ∷ n2 ∷ p5 ∷ s1 ∷ s2
        ∷ rest) =
    (is_digit y1 && is_digit y2 && is_digit y3 && is_digit y4 && p1 == b'-')
    && (is_digit m1 && is_digit m2 && p2 == b'-' && is_digit d1 && is_digit d2 && p3 == b'T')
    && (is_digit h1 && is_digit h2 && p4 == b':' && is_digit n1 && is_digit n2 && p5 == b':')
    && (is_digit s1 && is_digit s2 && is_fraction rest)
    && is_valid_time (number4 y1 y2 y3 y4) (number2 m1 m2) (number2 d1 d2) (number2 h1 h2)
        (number2 n1 n2) (number2 s1 s2)
is_canonical _ = false

unfoldable pub is_canonical_utc_date_time : String → Bool
unfolding is_canonical
is_canonical_utc_date_time value = is_canonical (char_codes value)
