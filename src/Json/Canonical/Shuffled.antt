-- ===== src/Json/Canonical/Shuffled.antt =====
-- JSON values that differ in the order of their fields only, at every depth; and the canonical text
-- (src/canonical.ts) forgets that order.
use hyperfinite.Common.{true, false, ◌≡◌, ◌≢◌, refl, sym, ap, ◌∙◌, arith, Bool-cases, inl, inr}
use hyperfinite.Json.{Text, Json, Items, Fields, array, object, no_items, item, no_fields, field}
use hyperfinite.Json.Order.{text_leb, text_leb_total, text_leb_trans, text_leb_antisym}
use hyperfinite.Json.Canonical.{
  own_leb, insert_field, sort_fields, from_sorted_entries, normalize, normalize_items,
  normalize_fields,
}

mutual
  pub data Shuffled : Json → Json → Type 0 where
    same : (v : Json) → Shuffled v v
    chain : {u v w : Json} → Shuffled u v → Shuffled v w → Shuffled u w
    items : {xs ys : Items} → ShuffledItems xs ys → Shuffled (array xs) (array ys)
    fields : {fs gs : Fields} → ShuffledFields fs gs → Shuffled (object fs) (object gs)

  pub data ShuffledItems : Items → Items → Type 0 where
    ends : ShuffledItems no_items no_items
    each :
        {v w : Json} {xs ys : Items}
        → Shuffled v w
        → ShuffledItems xs ys
        → ShuffledItems (item v xs) (item w ys)

  pub data ShuffledFields : Fields → Fields → Type 0 where
    empty : ShuffledFields no_fields no_fields
    keep :
        {v w : Json} {fs gs : Fields}
        → (key : Text) → Shuffled v w
        → ShuffledFields fs gs
        → ShuffledFields (field key v fs) (field key w gs)
    swap :
        (key other : Text) (v w : Json) (fs : Fields)
        → key ≢ other
        → ShuffledFields (field key v (field other w fs)) (field other w (field key v fs))
    trans : {fs gs hs : Fields} → ShuffledFields fs gs → ShuffledFields gs hs → ShuffledFields fs hs

abbrev insert : Text → Json → Fields → Fields
insert key v fs = insert_field text_leb key v fs

insert-before :
    (key k : Text) (v w : Json) (fs : Fields)
    → text_leb key k ≡ true
    → insert key v (field k w fs) ≡ field key v (field k w fs)
unfolding insert_field
insert-before key k v w fs h = rw h

insert-after :
    (key k : Text) (v w : Json) (fs : Fields)
    → text_leb key k ≡ false
    → insert key v (field k w fs) ≡ field k w (insert key v fs)
unfolding insert_field
insert-after key k v w fs h = rw h

-- Insertions of two keys change places.
insert_comm_le :
    (a b : Text) (v w : Json) (fs : Fields)
    → text_leb a b ≡ true
    → text_leb b a ≡ false
    → insert a v (insert b w fs) ≡ insert b w (insert a v fs)
unfolding insert_field
insert_comm_le a b v w no_fields le gt = rw (le, gt) refl
insert_comm_le a b v w (field k u fs) le gt =
    ground (arith, text_leb_trans a b k le, insert_comm_le a b v w fs le gt)

insert_comm :
    (a b : Text) (v w : Json) (fs : Fields)
    → a ≢ b
    → insert a v (insert b w fs) ≡ insert b w (insert a v fs)
insert_comm a b v w fs differ = elim (Bool-cases (text_leb a b)) [
  | inl le ↦ elim (Bool-cases (text_leb b a)) [
    | inl ge ↦ absurd (differ (text_leb_antisym a b le ge))
    | inr gt ↦ insert_comm_le a b v w fs le gt
  ]
  | inr gt ↦ sym (insert_comm_le b a w v fs (text_leb_total a b gt) gt)
]

mutual
  unfolding normalize sort_fields from_sorted_entries

  normalize_eq : {v w : Json} → Shuffled v w → normalize v ≡ normalize w
  normalize_eq (same v) = refl
  normalize_eq (chain s t) = normalize_eq s ∙ normalize_eq t
  normalize_eq (items s) = ap array (normalize_items_eq s)
  normalize_eq (fields s) = ap (λ fs. object (sort_fields own_leb fs)) (normalize_fields_eq s)

  normalize_items_eq :
      {xs ys : Items} → ShuffledItems xs ys → normalize_items xs ≡ normalize_items ys
  normalize_items_eq ends = refl
  normalize_items_eq (each {v} {w} {xs} {ys} s t) =
      ap (λ x. item x (normalize_items xs)) (normalize_eq s)
      ∙ ap (item (normalize w)) (normalize_items_eq t)

  normalize_fields_eq :
      {fs gs : Fields}
      → ShuffledFields fs gs
      → sort_fields text_leb (normalize_fields fs) ≡ sort_fields text_leb (normalize_fields gs)
  normalize_fields_eq empty = refl
  normalize_fields_eq (keep {v} {w} {fs} {gs} key s t) =
      ap (λ x. insert key x (sort_fields text_leb (normalize_fields fs))) (normalize_eq s)
      ∙ ap (insert key (normalize w)) (normalize_fields_eq t)
  normalize_fields_eq (swap key other v w fs differ) =
      insert_comm key other (normalize v) (normalize w) (sort_fields text_leb (normalize_fields fs))
        differ
  normalize_fields_eq (trans s t) = normalize_fields_eq s ∙ normalize_fields_eq t

-- Values that differ in the order of their fields only, at any depth, normalize to one value.
pub normalize-Shuffled_eq : {v w : Json} → Shuffled v w → normalize v ≡ normalize w
normalize-Shuffled_eq s = normalize_eq s

mutual
  pub Shuffled-sym : {v w : Json} → Shuffled v w → Shuffled w v
  Shuffled-sym (same v) = same v
  Shuffled-sym (chain s t) = chain (Shuffled-sym t) (Shuffled-sym s)
  Shuffled-sym (items s) = items (items_sym s)
  Shuffled-sym (fields s) = fields (fields_sym s)

  items_sym : {xs ys : Items} → ShuffledItems xs ys → ShuffledItems ys xs
  items_sym ends = ends
  items_sym (each s t) = each (Shuffled-sym s) (items_sym t)

  fields_sym : {fs gs : Fields} → ShuffledFields fs gs → ShuffledFields gs fs
  fields_sym empty = empty
  fields_sym (keep key s t) = keep key (Shuffled-sym s) (fields_sym t)
  fields_sym (swap key other v w fs differ) = swap other key w v fs (λ e. differ (sym e))
  fields_sym (trans s t) = trans (fields_sym t) (fields_sym s)
