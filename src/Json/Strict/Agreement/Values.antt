-- ===== src/Json/Strict/Agreement/Values.antt =====
-- The scanner (src/strict-json.ts) over the text of a whole value.
use mathlib.Core.List.{append_assoc}
use hyperfinite.Common.{
  ℕ, zero, suc, ◌+◌, ◌≤◌, Bool, true, false, not, ◌&&◌, List, [], ◌∷◌, ◌++◌, ◌≡◌, ◌≢◌, refl, ap,
  ◌∙◌, arith, includes, nat_eq, Bool-cases, inl, inr,
}
use hyperfinite.Json.{Text, text_eq, Json, Items, Fields}
use hyperfinite.Json.Canonical.{stringify, later_items, later_fields, quoted, escape}
use hyperfinite.Json.Canonical.Sorting.{IsText}
use hyperfinite.Json.Strict.{
  Scan, ScanError, skip_whitespace, scan_string, scan_scalar, scan_key, after_separator, fresh_key,
  next_round, unless_closed, Reading, decoded, dispatch, scan_value, scan_items, scan_members,
  ◌>>=◌,
}
use hyperfinite.Json.Strict.Decoding.{scan-escape, decoded-escape}
use hyperfinite.Json.Strict.Agreement.{
  has_unique_keys, all_unique, members_unique, rounds, item_rounds, member_rounds, IsLexical,
  AllLexical, FieldsLexical, verdict,
}
use hyperfinite.Json.Strict.Agreement.Steps.{
  EndsScalar, StartsValue, stringify-StartsValue, skip-StartsValue, going-StartsValue,
  later_items-EndsScalar, later_fields-EndsScalar,
}

pub value_step :
    (f : ℕ) (t : Text)
    → StartsValue t
    → scan_value (suc f) t ≡ dispatch (scan_items f) (scan_members f []) t
unfolding scan_value
value_step f t h = ap (dispatch (scan_items f) (scan_members f [])) (skip-StartsValue t h)

module _ (items members : Text → Scan Text) where
  pub dispatch_string :
      (t : Text) → dispatch items members (b'"' ∷ t) ≡ (scan_string t >>= λ found. Scan.ok found.1)
  unfolding dispatch
  dispatch_string t = ground arith

  pub dispatch_array :
      (t : Text)
      → dispatch items members (b'[' ∷ t)
        ≡ unless_closed b']' (skip_whitespace t) (items (skip_whitespace t))
  unfolding dispatch
  dispatch_array t = ground arith

  pub dispatch_object :
      (t : Text)
      → dispatch items members (b'{' ∷ t)
        ≡ unless_closed b'}' (skip_whitespace t) (members (skip_whitespace t))
  unfolding dispatch
  dispatch_object t = ground arith

  pub dispatch_scalar :
      (c : ℕ) (t : Text)
      → c ≢ b'"'
      → c ≢ b'['
      → c ≢ b'{'
      → dispatch items members (c ∷ t) ≡ Scan.ok (scan_scalar (c ∷ t))
  unfolding dispatch
  dispatch_scalar c t p q r = ground arith

-- After an item, and after a member.
abbrev pub after_item : ℕ → Text → Scan Text
after_item f t =
    unless_closed b']' (skip_whitespace t)
      (next_round ScanError.invalid_array (skip_whitespace t) (scan_items f))

abbrev pub after_member : ℕ → List Text → Text → Scan Text
after_member f keys t =
    unless_closed b'}' (skip_whitespace t)
      (next_round ScanError.invalid_object (skip_whitespace t) (scan_members f keys))

pub after_item_closed : (f : ℕ) (r : Text) → after_item f (b']' ∷ r) ≡ Scan.ok r
unfolding skip_whitespace
after_item_closed f r = ground arith

pub after_item_next :
    (f : ℕ) (t : Text) → after_item f (b',' ∷ t) ≡ scan_items f (skip_whitespace t)
unfolding skip_whitespace
after_item_next f t = ground arith

pub after_member_closed :
    (f : ℕ) (keys : List Text) (r : Text) → after_member f keys (b'}' ∷ r) ≡ Scan.ok r
unfolding skip_whitespace
after_member_closed f keys r = ground arith

pub after_member_next :
    (f : ℕ) (keys : List Text) (t : Text)
    → after_member f keys (b',' ∷ t) ≡ scan_members f keys (skip_whitespace t)
unfolding skip_whitespace
after_member_next f keys t = ground arith

verdict_bind :
    (u b : Bool) (t r : Text) (k : Text → Scan Text)
    → k t ≡ verdict b r
    → (verdict u t >>= k) ≡ verdict (u && b) r
verdict_bind true b t r k h = h
verdict_bind false b t r k h = refl

abbrev pub ValueScan : Json → Type 0
ValueScan v =
    (f : ℕ) (r : Text)
    → rounds v ≤ f
    → IsLexical v
    → EndsScalar r
    → scan_value f (stringify v ++ r) ≡ verdict (has_unique_keys v) r

abbrev pub ItemsScan : Items → Type 0
ItemsScan xs =
    (f : ℕ) (r : Text)
    → item_rounds xs ≤ f
    → AllLexical xs
    → after_item f (later_items xs ++ r) ≡ verdict (all_unique xs) r

abbrev pub MembersScan : Fields → Type 0
MembersScan fs =
    (f : ℕ) (keys : List Text) (r : Text)
    → member_rounds fs ≤ f
    → FieldsLexical fs
    → after_member f keys (later_fields fs ++ r) ≡ verdict (members_unique keys fs) r

pub items_step :
    (v : Json) (xs : Items) (f : ℕ) (r : Text)
    → suc (rounds v + item_rounds xs) ≤ f
    → IsLexical v
    → AllLexical xs
    → ValueScan v
    → ItemsScan xs
    → scan_items f ((stringify v ++ later_items xs) ++ r)
      ≡ verdict (has_unique_keys v && all_unique xs) r
unfolding scan_items
items_step v xs zero r n a b on_value on_later = absurd (omega arith)
items_step v xs (suc f) r n a b on_value on_later =
    ap (scan_items (suc f)) (append_assoc (stringify v) (later_items xs) r)
    ∙ (going-StartsValue ScanError.unterminated_array (stringify v ++ (later_items xs ++ r)) _
          (stringify-StartsValue v (later_items xs ++ r) a)
        ∙ (ap (λ s. s >>= after_item f)
              (on_value f (later_items xs ++ r) (omega arith) a (later_items-EndsScalar xs r))
            ∙ verdict_bind (has_unique_keys v) (all_unique xs) (later_items xs ++ r) r
                (after_item f) (on_later f r (omega arith) b)))

-- The scan of a key that was written.
scan_quoted : (k x : Text) → scan_key (quoted k ++ x) ≡ Scan.ok (escape false k, x)
scan_quoted k x =
    quote_first
    ∙ (ap scan_string (append_assoc (escape false k) (b'"' ∷ []) x) ∙ scan-escape false k x)
  where
    quote_first : scan_key (quoted k ++ x) ≡ scan_string ((escape false k ++ (b'"' ∷ [])) ++ x)
    quote_first = ground arith

fresh_bind :
    (keys : List Text) (k r : Text) (b : Bool) (next : List Text → Scan Text)
    → next (k ∷ keys) ≡ verdict b r
    → (fresh_key keys k >>= next) ≡ verdict (not (includes keys k) && b) r
fresh_bind keys k r b next h = elim (Bool-cases (includes keys k)) [
  | inl t ↦ rw t refl
  | inr f ↦ rw f h
]

separated : (x : Text) → after_separator (skip_whitespace (b':' ∷ x)) ≡ Scan.ok x
unfolding skip_whitespace
separated x = ground arith

member_text :
    (k : Text) (v : Json) (fs : Fields) (r : Text)
    → (quoted k ++ (b':' ∷ (stringify v ++ later_fields fs))) ++ r
      ≡ quoted k ++ (b':' ∷ (stringify v ++ (later_fields fs ++ r)))
member_text k v fs r =
    append_assoc (quoted k) (b':' ∷ (stringify v ++ later_fields fs)) r
    ∙ ap (λ x. quoted k ++ (b':' ∷ x)) (append_assoc (stringify v) (later_fields fs) r)

-- A round of the loop over members, up to the test of the key.
members_round :
    (f : ℕ) (keys : List Text) (k start : Text)
    → scan_members (suc f) keys (quoted k ++ (b':' ∷ start)) ≡ (
        fresh_key keys (decoded Reading.outside (escape false k)) >>= λ ks.
        after_separator (skip_whitespace (b':' ∷ start)) >>= λ s.
        scan_value f s >>= after_member f ks)
unfolding scan_members
members_round f keys k start =
    ap
      (λ s. s >>= λ found. fresh_key keys (decoded Reading.outside found.0) >>= λ ks.
        after_separator (skip_whitespace found.1) >>= λ t. scan_value f t >>= after_member f ks)
      (scan_quoted k (b':' ∷ start))

pub members_step :
    (k : Text) (v : Json) (fs : Fields) (f : ℕ) (keys : List Text) (r : Text)
    → suc (rounds v + member_rounds fs) ≤ f
    → IsText k
    → IsLexical v
    → FieldsLexical fs
    → ValueScan v
    → MembersScan fs
    → scan_members f keys ((quoted k ++ (b':' ∷ (stringify v ++ later_fields fs))) ++ r)
      ≡ verdict (not (includes keys k) && (has_unique_keys v && members_unique (k ∷ keys) fs)) r
members_step k v fs zero keys r n a b c on_value on_later = absurd (omega arith)
members_step k v fs (suc f) keys r n a b c on_value on_later =
    let start = stringify v ++ (later_fields fs ++ r) in
    let value =
      ap (λ s. s >>= after_member f (k ∷ keys))
        (on_value f (later_fields fs ++ r) (omega arith) b (later_fields-EndsScalar fs r))
      ∙ verdict_bind (has_unique_keys v) (members_unique (k ∷ keys) fs) (later_fields fs ++ r) r
          (after_member f (k ∷ keys)) (on_later f (k ∷ keys) r (omega arith) c) in
    let known = λ (ks : List Text). after_separator (skip_whitespace (b':' ∷ start)) >>= λ s.
    scan_value f s >>= after_member f ks in
    let fresh = fresh_bind keys k r (has_unique_keys v && members_unique (k ∷ keys) fs) known (
      ap (λ s. s >>= λ t. scan_value f t >>= after_member f (k ∷ keys)) (separated start)
      ∙ value) in
    ap (scan_members (suc f) keys) (member_text k v fs r)
    ∙ (members_round f keys k start
        ∙ (ap (λ s. fresh_key keys s >>= known) (decoded-escape false k a) ∙ fresh))
