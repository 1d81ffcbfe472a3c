-- ===== src/Json/Canonical/Faithful.antt =====
-- The canonical text and the digest (src/canonical.ts) tell values apart up to the order of fields.
use hyperfinite.Common.{
  ◌≡◌, ◌≢◌, ◌↔◌, ◌⊎◌, inl, inr, sym, subst, ap, Bool-cases, eq_of_test, ne_of_test, ◌==◌,
}
use hyperfinite.Json.{Text, text_eq, Json, Items, Fields}
use hyperfinite.Json.Canonical.{stringify, normalize, canonical_json, json_digest}
use hyperfinite.Json.Canonical.Shuffled.{
  Shuffled, ShuffledItems, ShuffledFields, same, items, fields, ends, each, chain, empty, keep,
  swap, trans, Shuffled-sym, normalize-Shuffled_eq,
}
use hyperfinite.Json.Canonical.Sorting.{
  IsAbsent, HasDistinctKeys, IsWellFormed, AllWellFormed, FieldsWellFormed, normalize-Shuffled,
}
use hyperfinite.Json.Canonical.Injective.{stringify_inj}

shuffled-IsAbsent :
    (key : Text) {fs gs : Fields} → ShuffledFields fs gs → IsAbsent key fs → IsAbsent key gs
shuffled-IsAbsent key empty a = a
shuffled-IsAbsent key (keep k s t) a = (a.0, shuffled-IsAbsent key t a.1)
shuffled-IsAbsent key (swap k l v w fs differ) a = (a.1.0, (a.0, a.1.1))
shuffled-IsAbsent key (trans s t) a = shuffled-IsAbsent key t (shuffled-IsAbsent key s a)

shuffled-HasDistinctKeys :
    {fs gs : Fields} → ShuffledFields fs gs → HasDistinctKeys fs → HasDistinctKeys gs
shuffled-HasDistinctKeys empty d = d
shuffled-HasDistinctKeys (keep k s t) d =
    (shuffled-IsAbsent k t d.0, shuffled-HasDistinctKeys t d.1)
shuffled-HasDistinctKeys (swap k l v w fs differ) d =
    (((λ e. differ (sym e)), d.1.0), (d.0.1, d.1.1))
shuffled-HasDistinctKeys (trans s t) d = shuffled-HasDistinctKeys t (shuffled-HasDistinctKeys s d)

mutual
  unfolding IsWellFormed

  well_formed : {v w : Json} → Shuffled v w → IsWellFormed v → IsWellFormed w
  well_formed (same v) ok = ok
  well_formed (chain s t) ok = well_formed t (well_formed s ok)
  well_formed (items s) ok = items_well_formed s ok
  well_formed (fields s) ok = (shuffled-HasDistinctKeys s ok.0, fields_well_formed s ok.1)

  items_well_formed : {xs ys : Items} → ShuffledItems xs ys → AllWellFormed xs → AllWellFormed ys
  items_well_formed ends ok = ok
  items_well_formed (each s t) ok = (well_formed s ok.0, items_well_formed t ok.1)

  fields_well_formed :
      {fs gs : Fields} → ShuffledFields fs gs → FieldsWellFormed fs → FieldsWellFormed gs
  fields_well_formed empty ok = ok
  fields_well_formed (keep k s t) ok = (ok.0, well_formed s ok.1, fields_well_formed t ok.2)
  fields_well_formed (swap k l v w fs differ) ok = (ok.2.0, ok.2.1, (ok.0, ok.1, ok.2.2))
  fields_well_formed (trans s t) ok = fields_well_formed t (fields_well_formed s ok)

pub normalize-IsWellFormed : (v : Json) → IsWellFormed v → IsWellFormed (normalize v)
normalize-IsWellFormed v ok = well_formed (normalize-Shuffled v ok) ok

join_shuffles :
    (v w : Json) → IsWellFormed v → IsWellFormed w → normalize v ≡ normalize w → Shuffled v w
join_shuffles v w a b e =
    chain (normalize-Shuffled v a)
      (subst (λ u. Shuffled u w) (sym e) (Shuffled-sym (normalize-Shuffled w b)))

-- Two well-formed values have one canonical text exactly if they differ in the order of their
-- fields only, at any depth.
pub canonical_json-eq_iff :
    (v w : Json)
    → IsWellFormed v
    → IsWellFormed w
    → (canonical_json v ≡ canonical_json w) ↔ Shuffled v w
unfolding canonical_json
canonical_json-eq_iff v w a b = (
  λ h. join_shuffles v w a b (
      stringify_inj (normalize v) (normalize w) (normalize-IsWellFormed v a)
        (normalize-IsWellFormed w b) h),
  λ s. ap stringify (normalize-Shuffled_eq s),
)

-- Normalizing a normalized value changes nothing.
pub normalize_idempotent : (v : Json) → IsWellFormed v → normalize (normalize v) ≡ normalize v
normalize_idempotent v ok = sym (normalize-Shuffled_eq (normalize-Shuffled v ok))

-- Two well-formed values of one digest differ in the order of their fields only, or their canonical
-- texts are two texts of one hash.
pub json_digest-Shuffled :
    (sha256 : Text → Text) (v w : Json)
    → IsWellFormed v
    → IsWellFormed w
    → json_digest sha256 v ≡ json_digest sha256 w
    → Shuffled v w
      ⊎ ((canonical_json v ≢ canonical_json w)
          × (sha256 (canonical_json v) ≡ sha256 (canonical_json w)))
unfolding json_digest
json_digest-Shuffled sha256 v w a b h = elim (Bool-cases (canonical_json v == canonical_json w)) [
  | inl e ↦ inl ((canonical_json-eq_iff v w a b).0 (eq_of_test e))
  | inr n ↦ inr (ne_of_test n, cc)
]
