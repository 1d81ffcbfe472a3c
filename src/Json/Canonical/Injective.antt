-- ===== src/Json/Canonical/Injective.antt =====
-- The text of a value (`JSON.stringify` in src/canonical.ts) determines it.
use mathlib.Core.List.{append_assoc}
use hyperfinite.Common.{true, false, [], ◌∷◌, ◌++◌, ◌≡◌, ◌≢◌, refl, sym, subst, ap, ◌∙◌, arith, all}
use hyperfinite.Json.{
  Text, code_units, Json, Items, Fields, null, bool, number, string, array, object, no_items, item,
  no_fields, field,
}
use hyperfinite.Json.Canonical.{stringify, later_items, later_fields, quoted}
use hyperfinite.Json.Canonical.Sorting.{
  is_number_char, IsNumber, IsText, IsWellFormed, AllWellFormed, FieldsWellFormed,
}
use hyperfinite.Json.Canonical.Units.{quoted_inj}
use hyperfinite.Json.Canonical.Kinds.{
  Kind, kind_of, kind_of_text, IsDelimited, stringify-kind, number_inj, is_null, is_true, is_false,
  is_number, is_string, is_array, is_object, kind-ne-unknown,
}

same_kind :
    (v w : Json) (r q : Text)
    → IsWellFormed v
    → IsWellFormed w
    → stringify v ++ r ≡ stringify w ++ q
    → kind_of w ≡ kind_of v
same_kind v w r q a b h =
    sym (stringify-kind w q b) ∙ (ap kind_of_text (sym h) ∙ stringify-kind v r a)

-- No value's text starts with a closing bracket.
closing-ne-value : (w : Json) (r q : Text) → IsWellFormed w → b']' ∷ r ≢ stringify w ++ q
closing-ne-value w r q b h =
    absurd (kind-ne-unknown w (sym (stringify-kind w q b) ∙ (ap kind_of_text (sym h) ∙ closing)))
  where
    closing : kind_of_text (b']' ∷ r) ≡ Kind.unknown
    closing = ground arith

later_items-IsDelimited : (xs : Items) (r : Text) → IsDelimited (later_items xs ++ r)
unfolding later_items
later_items-IsDelimited no_items r = ground arith
later_items-IsDelimited (item v xs) r = ground arith

later_fields-IsDelimited : (fs : Fields) (r : Text) → IsDelimited (later_fields fs ++ r)
unfolding later_fields
later_fields-IsDelimited no_fields r = ground arith
later_fields-IsDelimited (field k v fs) r = ground arith

-- What `stringify` puts between the keys of an object, associated to the right.
member_text :
    (k : Text) (v : Json) (later r : Text)
    → (quoted k ++ (b':' ∷ (stringify v ++ later))) ++ r
      ≡ quoted k ++ (b':' ∷ (stringify v ++ (later ++ r)))
member_text k v later r =
    append_assoc (quoted k) (b':' ∷ (stringify v ++ later)) r
    ∙ ap (λ x. quoted k ++ (b':' ∷ x)) (append_assoc (stringify v) later r)

IsNumber-all : (n : Text) → IsNumber n → all is_number_char n ≡ true
IsNumber-all [] a = absurd a
IsNumber-all (c ∷ n) a = a

null_rest : (r q : Text) → code_units "null" ++ r ≡ code_units "null" ++ q → r ≡ q
null_rest r q h = cc

true_rest : (r q : Text) → code_units "true" ++ r ≡ code_units "true" ++ q → r ≡ q
true_rest r q h = cc

false_rest : (r q : Text) → code_units "false" ++ r ≡ code_units "false" ++ q → r ≡ q
false_rest r q h = cc

-- What follows the head of two equal texts.
abbrev later : Text → Text
later [] = []
later (c ∷ t) = t

-- The texts of two values, and of the ends of two arrays and objects, determine them and what
-- follows.
abbrev ValueInj : Json → Json → Type 0
ValueInj v w =
    (r q : Text)
    → IsWellFormed v
    → IsWellFormed w
    → IsDelimited r
    → IsDelimited q
    → stringify v ++ r ≡ stringify w ++ q
    → (v ≡ w) × (r ≡ q)

abbrev ItemsInj : Items → Items → Type 0
ItemsInj xs ys =
    (r q : Text)
    → AllWellFormed xs
    → AllWellFormed ys
    → later_items xs ++ r ≡ later_items ys ++ q
    → (xs ≡ ys) × (r ≡ q)

abbrev FieldsInj : Fields → Fields → Type 0
FieldsInj fs gs =
    (r q : Text)
    → FieldsWellFormed fs
    → FieldsWellFormed gs
    → later_fields fs ++ r ≡ later_fields gs ++ q
    → (fs ≡ gs) × (r ≡ q)

item_inj :
    (v w : Json) (xs ys : Items) (r q : Text)
    → IsWellFormed v × AllWellFormed xs
    → IsWellFormed w × AllWellFormed ys
    → (stringify v ++ later_items xs) ++ r ≡ (stringify w ++ later_items ys) ++ q
    → ValueInj v w
    → ItemsInj xs ys
    → (item v xs ≡ item w ys) × (r ≡ q)
item_inj v w xs ys r q a b h on_value on_later =
    let (e, f) =
      on_value (later_items xs ++ r) (later_items ys ++ q) a.0 b.0 (later_items-IsDelimited xs r)
        (later_items-IsDelimited ys q)
        (sym (append_assoc (stringify v) (later_items xs) r)
          ∙ (h ∙ append_assoc (stringify w) (later_items ys) q)) in
    let (g, k) = on_later r q a.1 b.1 f in (cc, k)

member_inj :
    (k l : Text) (v w : Json) (fs gs : Fields) (r q : Text)
    → IsText k × IsWellFormed v × FieldsWellFormed fs
    → IsText l × IsWellFormed w × FieldsWellFormed gs
    → (quoted k ++ (b':' ∷ (stringify v ++ later_fields fs))) ++ r
      ≡ (quoted l ++ (b':' ∷ (stringify w ++ later_fields gs))) ++ q
    → ValueInj v w
    → FieldsInj fs gs
    → (field k v fs ≡ field l w gs) × (r ≡ q)
member_inj k l v w fs gs r q a b h on_value on_later =
    let (e, after) =
      quoted_inj k l (b':' ∷ (stringify v ++ (later_fields fs ++ r)))
        (b':' ∷ (stringify w ++ (later_fields gs ++ q))) a.0 b.0
        (sym (member_text k v (later_fields fs) r) ∙ (h ∙ member_text l w (later_fields gs) q)) in
    let (f, rest) =
      on_value (later_fields fs ++ r) (later_fields gs ++ q) a.1 b.1 (later_fields-IsDelimited fs r)
        (later_fields-IsDelimited gs q) (ap later after) in
    let (g, k2) = on_later r q a.2 b.2 rest in (cc, k2)

mutual
  unfolding IsWellFormed stringify

  value_inj :
      (v w : Json) (r q : Text)
      → IsWellFormed v
      → IsWellFormed w
      → IsDelimited r
      → IsDelimited q
      → stringify v ++ r ≡ stringify w ++ q
      → (v ≡ w) × (r ≡ q)
  value_inj null w r q a b dr dq h =
      let e = is_null w (same_kind null w r q a b h) in
      (sym e, null_rest r q (h ∙ ap (λ x. stringify x ++ q) e))
  value_inj (bool true) w r q a b dr dq h =
      let e = is_true w (same_kind (bool true) w r q a b h) in
      (sym e, true_rest r q (h ∙ ap (λ x. stringify x ++ q) e))
  value_inj (bool false) w r q a b dr dq h =
      let e = is_false w (same_kind (bool false) w r q a b h) in
      (sym e, false_rest r q (h ∙ ap (λ x. stringify x ++ q) e))
  value_inj (number n) w r q a b dr dq h =
      let (m, e) = is_number w (same_kind (number n) w r q a b h) in
      let (f, g) =
        number_inj n m r q (IsNumber-all n a) (IsNumber-all m (subst IsWellFormed e b)) dr dq
          (h ∙ ap (λ x. stringify x ++ q) e) in
      (ap number f ∙ sym e, g)
  value_inj (string s) w r q a b dr dq h =
      let (t, e) = is_string w (same_kind (string s) w r q a b h) in
      let (f, g) =
        quoted_inj s t r q a (subst IsWellFormed e b) (h ∙ ap (λ x. stringify x ++ q) e) in
      (ap string f ∙ sym e, g)
  value_inj (array xs) w r q a b dr dq h =
      let (ys, e) = is_array w (same_kind (array xs) w r q a b h) in
      let (f, g) =
        array_inj xs ys r q a (subst IsWellFormed e b) (h ∙ ap (λ x. stringify x ++ q) e) in
      (ap array f ∙ sym e, g)
  value_inj (object fs) w r q a b dr dq h =
      let (gs, e) = is_object w (same_kind (object fs) w r q a b h) in
      let (f, g) =
        object_inj fs gs r q a.1 (subst IsWellFormed e b).1 (h ∙ ap (λ x. stringify x ++ q) e) in
      (ap object f ∙ sym e, g)

  array_inj :
      (xs ys : Items) (r q : Text)
      → AllWellFormed xs
      → AllWellFormed ys
      → stringify (array xs) ++ r ≡ stringify (array ys) ++ q
      → (xs ≡ ys) × (r ≡ q)
  array_inj no_items no_items r q a b h = (refl, cc)
  array_inj no_items (item w ys) r q a b h = absurd (
      closing-ne-value w r (later_items ys ++ q) b.0
        (ap later h ∙ append_assoc (stringify w) (later_items ys) q))
  array_inj (item v xs) no_items r q a b h = absurd (
      closing-ne-value v q (later_items xs ++ r) a.0
        (ap later (sym h) ∙ append_assoc (stringify v) (later_items xs) r))
  array_inj (item v xs) (item w ys) r q a b h =
      item_inj v w xs ys r q a b (ap later h) (value_inj v w) (later_items_inj xs ys)

  later_items_inj :
      (xs ys : Items) (r q : Text)
      → AllWellFormed xs
      → AllWellFormed ys
      → later_items xs ++ r ≡ later_items ys ++ q
      → (xs ≡ ys) × (r ≡ q)
  later_items_inj no_items no_items r q a b h = (refl, cc)
  later_items_inj no_items (item w ys) r q a b h = ground arith
  later_items_inj (item v xs) no_items r q a b h = ground arith
  later_items_inj (item v xs) (item w ys) r q a b h =
      item_inj v w xs ys r q a b (ap later h) (value_inj v w) (later_items_inj xs ys)

  object_inj :
      (fs gs : Fields) (r q : Text)
      → FieldsWellFormed fs
      → FieldsWellFormed gs
      → stringify (object fs) ++ r ≡ stringify (object gs) ++ q
      → (fs ≡ gs) × (r ≡ q)
  object_inj no_fields no_fields r q a b h = (refl, cc)
  object_inj no_fields (field l w gs) r q a b h = ground arith
  object_inj (field k v fs) no_fields r q a b h = ground arith
  object_inj (field k v fs) (field l w gs) r q a b h =
      member_inj k l v w fs gs r q a b (ap later h) (value_inj v w) (later_fields_inj fs gs)

  later_fields_inj :
      (fs gs : Fields) (r q : Text)
      → FieldsWellFormed fs
      → FieldsWellFormed gs
      → later_fields fs ++ r ≡ later_fields gs ++ q
      → (fs ≡ gs) × (r ≡ q)
  later_fields_inj no_fields no_fields r q a b h = (refl, cc)
  later_fields_inj no_fields (field l w gs) r q a b h = ground arith
  later_fields_inj (field k v fs) no_fields r q a b h = ground arith
  later_fields_inj (field k v fs) (field l w gs) r q a b h =
      member_inj k l v w fs gs r q a b (ap later h) (value_inj v w) (later_fields_inj fs gs)

pub stringify_inj :
    (v w : Json) → IsWellFormed v → IsWellFormed w → stringify v ≡ stringify w → v ≡ w
stringify_inj v w a b h = (value_inj v w [] [] a b tt tt (ap (λ t. t ++ []) h)).0
