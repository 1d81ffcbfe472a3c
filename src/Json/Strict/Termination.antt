-- ===== src/Json/Strict/Termination.antt =====
-- The scanner (src/strict-json.ts) ends on every source: its fuel is enough.
use hyperfinite.Common.{
  ℕ, zero, suc, ◌+◌, ◌*◌, ◌≤◌, ◌<◌, Bool, true, false, Option, none, some, List, [], ◌∷◌, ◌≡◌, ◌≢◌,
  refl, arith, length, includes, ◌==◌, if◌then◌else◌, nat_eq, Bool-cases, inl, inr,
}
use hyperfinite.Json.{Text, text_eq, Json}
use hyperfinite.Json.Strict.{
  Scan, ScanError, skip_whitespace, consumed, scan_string, scan_scalar, scan_key, after_separator,
  fresh_key, next_round, unless_closed, Reading, decoded, dispatch, scan_value, scan_items,
  scan_members, scan_fuel, at_end, scan_parsed, parse_strict_json, ◌>>=◌,
}

-- The scan ends, and leaves at most so much.
abbrev Settles : (most : ℕ) → Scan Text → Type 0
Settles most (Scan.ok rest) = length rest ≤ most
Settles most (Scan.err e) = e ≢ ScanError.out_of_fuel

abbrev SettlesBody : (most : ℕ) → Scan (Text × Text) → Type 0
SettlesBody most (Scan.ok (body, rest)) = length rest ≤ most
SettlesBody most (Scan.err e) = e ≢ ScanError.out_of_fuel

Settles-mono : (n m : ℕ) (s : Scan Text) → n ≤ m → Settles n s → Settles m s
Settles-mono n m (Scan.ok rest) le h = omega arith
Settles-mono n m (Scan.err e) le h = h

bind-Settles :
    (n m : ℕ) (s : Scan Text) (k : Text → Scan Text)
    → Settles n s
    → ((rest : Text) → length rest ≤ n → Settles m (k rest))
    → Settles m (s >>= k)
bind-Settles n m (Scan.ok rest) k h f = f rest h
bind-Settles n m (Scan.err e) k h f = h

bind_body-Settles :
    (n m : ℕ) (s : Scan (Text × Text)) (k : Text × Text → Scan Text)
    → SettlesBody n s
    → ((body rest : Text) → length rest ≤ n → Settles m (k (body, rest)))
    → Settles m (s >>= k)
bind_body-Settles n m (Scan.ok (body, rest)) k h f = f body rest h
bind_body-Settles n m (Scan.err e) k h f = h

skip-le : (t : Text) → length (skip_whitespace t) ≤ length t
unfolding skip_whitespace
skip-le [] = omega arith
skip-le (c ∷ t) = ground (arith, skip-le t)

scalar-le : (t : Text) → length (scan_scalar t) ≤ length t
unfolding scan_scalar
scalar-le [] = omega arith
scalar-le (c ∷ t) = ground (arith, scalar-le t)

consumed-SettlesBody :
    (n m : ℕ) (units : Text) (s : Scan (Text × Text))
    → n ≤ m
    → SettlesBody n s
    → SettlesBody m (consumed units s)
consumed-SettlesBody n m units (Scan.ok (body, rest)) le h = omega arith
consumed-SettlesBody n m units (Scan.err e) le h = h

if-SettlesBody :
    (n : ℕ) (b : Bool) (s t : Scan (Text × Text))
    → SettlesBody n s
    → SettlesBody n t
    → SettlesBody n (if b then s else t)
if-SettlesBody n true s t h k = h
if-SettlesBody n false s t h k = k

if-Settles :
    (n : ℕ) (b : Bool) (s t : Scan Text)
    → Settles n s
    → Settles n t
    → Settles n (if b then s else t)
if-Settles n true s t h k = h
if-Settles n false s t h k = k

string-SettlesBody : (t : Text) → SettlesBody (length t) (scan_string t)
unfolding scan_string
string-SettlesBody [] = λ e. cc
string-SettlesBody (c ∷ []) = if-SettlesBody 1 (c == b'"') _ _ (omega arith) (λ e. cc)
string-SettlesBody (c ∷ d ∷ t) =
    if-SettlesBody (length (c ∷ d ∷ t)) (c == b'\\') _ _
      (consumed-SettlesBody (length t) (length (c ∷ d ∷ t)) (c ∷ d ∷ []) (scan_string t)
        (omega arith) (string-SettlesBody t))
      (if-SettlesBody (length (c ∷ d ∷ t)) (c == b'"') _ _ (omega arith) (
        consumed-SettlesBody (length (d ∷ t)) (length (c ∷ d ∷ t)) (c ∷ []) (scan_string (d ∷ t))
          (omega arith) (string-SettlesBody (d ∷ t))))

body_mono : (n m : ℕ) (s : Scan (Text × Text)) → n ≤ m → SettlesBody n s → SettlesBody m s
body_mono n m (Scan.ok (body, rest)) le h = omega arith
body_mono n m (Scan.err e) le h = h

key-SettlesBody : (t : Text) → SettlesBody (length t) (scan_key t)
key-SettlesBody [] = λ e. cc
key-SettlesBody (c ∷ t) =
    if-SettlesBody (suc (length t)) (c == b'"') _ _
      (body_mono (length t) (suc (length t)) (scan_string t) (omega arith) (string-SettlesBody t))
      (λ e. cc)

closed-Settles :
    (n : ℕ) (closing : ℕ) (t : Text) (s : Scan Text)
    → length t ≤ n
    → Settles n s
    → Settles n (unless_closed closing t s)
closed-Settles n closing [] s le h = h
closed-Settles n closing (c ∷ t) s le h = if-Settles n (c == closing) _ _ (omega arith) h

-- A round that follows is shorter.
round-Settles :
    (n : ℕ) (e : ScanError) (t : Text) (again : Text → Scan Text)
    → e ≢ ScanError.out_of_fuel
    → length t ≤ n
    → ((rest : Text) → length rest < n → Settles n (again rest))
    → Settles n (next_round e t again)
round-Settles n e [] again other le f = other
round-Settles n e (c ∷ t) again other le f =
    if-Settles n (c == b',') _ _ (f (skip_whitespace t) (omega (arith, skip-le t))) other

separator-Settles : (t : Text) → Settles (length t) (after_separator t)
separator-Settles [] = λ e. cc
separator-Settles (c ∷ t) = if-Settles (suc (length t)) (c == b':') _ _ (omega arith) (λ e. cc)

dispatch-Settles :
    (items members : Text → Scan Text) (t : Text)
    → ((r : Text) → length r < length t → Settles (length t) (items r))
    → ((r : Text) → length r < length t → Settles (length t) (members r))
    → Settles (length t) (dispatch items members t)
unfolding dispatch
dispatch-Settles items members [] f g = omega arith
dispatch-Settles items members (c ∷ t) f g =
    let n = suc (length t) in
    let rest = skip_whitespace t in
    if-Settles n (c == b'"') _ _
      (bind_body-Settles (length t) n (scan_string t) (λ found. Scan.ok found.1)
        (string-SettlesBody t) (λ body rest le. omega arith))
      (if-Settles n (c == b'[') _ _
        (closed-Settles n b']' rest (items rest) (omega (arith, skip-le t))
          (f rest (omega (arith, skip-le t))))
        (if-Settles n (c == b'{') _ _
          (closed-Settles n b'}' rest (members rest) (omega (arith, skip-le t))
            (g rest (omega (arith, skip-le t))))
          (scalar-le (c ∷ t))))

fresh-Settles :
    (n : ℕ) (keys : List Text) (key : Text) (k : List Text → Scan Text)
    → ((known : List Text) → Settles n (k known))
    → Settles n (fresh_key keys key >>= k)
fresh-Settles n keys key k f = elim (Bool-cases (includes keys key)) [
  | inl t ↦ rw t (λ e. cc)
  | inr o ↦ rw o (f (key ∷ keys))
]

mutual
  unfolding scan_value

  value-Settles : (f : ℕ) (t : Text) → 2 * length t + 1 ≤ f → Settles (length t) (scan_value f t)
  value-Settles zero t le = absurd (omega arith)
  value-Settles (suc f) t le =
      let shorter = skip-le t in
      Settles-mono (length (skip_whitespace t)) (length t)
        (dispatch (scan_items f) (scan_members f []) (skip_whitespace t)) shorter
        (dispatch-Settles (scan_items f) (scan_members f []) (skip_whitespace t)
          (λ r lt.
            Settles-mono (length r) (length (skip_whitespace t)) (scan_items f r) (omega arith)
              (items-Settles f r (omega arith)))
          (λ r lt.
            Settles-mono (length r) (length (skip_whitespace t)) (scan_members f [] r) (omega arith)
              (members-Settles f [] r (omega arith))))

  items-Settles : (f : ℕ) (t : Text) → 2 * length t + 2 ≤ f → Settles (length t) (scan_items f t)
  items-Settles zero t le = absurd (omega arith)
  items-Settles (suc f) [] le = λ e. cc
  items-Settles (suc f) (c ∷ t) le =
      let n = suc (length t) in
      bind-Settles n n (scan_value f (c ∷ t)) _ (value-Settles f (c ∷ t) (omega arith))
        (λ after short.
          let shorter = skip-le after in
          closed-Settles n b']' (skip_whitespace after) _ (omega arith) (
            round-Settles n ScanError.invalid_array (skip_whitespace after) (scan_items f) (λ e. cc)
              (omega arith)
              (λ r lt.
                Settles-mono (length r) n (scan_items f r) (omega arith)
                  (items-Settles f r (omega arith)))))

  members-Settles :
      (f : ℕ) (keys : List Text) (t : Text)
      → 2 * length t + 2 ≤ f
      → Settles (length t) (scan_members f keys t)
  members-Settles zero keys t le = absurd (omega arith)
  members-Settles (suc f) keys [] le = λ e. cc
  members-Settles (suc f) keys (c ∷ t) le =
      let n = suc (length t) in
      bind_body-Settles n n (scan_key (c ∷ t)) _ (key-SettlesBody (c ∷ t)) (λ body rest short.
        fresh-Settles n keys (decoded Reading.outside body) _ (λ known.
          let skipped = skip-le rest in
          bind-Settles n n (after_separator (skip_whitespace rest)) _
            (Settles-mono (length (skip_whitespace rest)) n (after_separator (skip_whitespace rest))
              (omega arith) (separator-Settles (skip_whitespace rest)))
            (λ start short2.
              bind-Settles n n (scan_value f start) _
                (Settles-mono (length start) n (scan_value f start) (omega arith)
                  (value-Settles f start (omega arith)))
                (λ after short3.
                  let shorter = skip-le after in
                  closed-Settles n b'}' (skip_whitespace after) _ (omega arith) (
                    round-Settles n ScanError.invalid_object (skip_whitespace after)
                      (scan_members f known) (λ e. cc) (omega arith)
                      (λ r lt.
                        Settles-mono (length r) n (scan_members f known r) (omega arith)
                          (members-Settles f known r (omega arith))))))))

-- What a call returns: the value that `JSON.parse` returned, or an error of the source.
abbrev pub Returns : Option Json → Scan Json → Type 0
Returns parsed (Scan.ok v) = parsed ≡ some v
Returns parsed (Scan.err e) = e ≢ ScanError.out_of_fuel

end-Returns : (v : Json) (rest : Text) → Returns (some v) (at_end rest >>= λ done. Scan.ok v)
end-Returns v [] = refl
end-Returns v (c ∷ rest) = λ e. cc

scan-Returns :
    (v : Json) (most : ℕ) (s : Scan Text)
    → Settles most s
    → Returns (some v) (s >>= λ rest. at_end (skip_whitespace rest) >>= λ done. Scan.ok v)
scan-Returns v most (Scan.ok rest) h = end-Returns v (skip_whitespace rest)
scan-Returns v most (Scan.err e) h = h

parsed-Returns : (parsed : Option Json) (source : Text) → Returns parsed (scan_parsed parsed source)
unfolding scan_parsed
parsed-Returns none source = λ e. cc
parsed-Returns (some v) source =
    scan-Returns v (length source) (scan_value (scan_fuel source) source)
      (value-Settles (scan_fuel source) source (omega arith))

-- On every source `parseStrictJson` ends within the scanner's fuel: it returns the value that
-- `JSON.parse` returns, or an error of the source.
pub parse_strict_json-Returns :
    (parse : Text → Option Json) (source : Text)
    → Returns (parse source) (parse_strict_json parse source)
unfolding parse_strict_json
parse_strict_json-Returns parse source = parsed-Returns (parse source) source
