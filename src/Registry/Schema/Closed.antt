-- ===== src/Registry/Schema/Closed.antt =====
-- What the inspection of a schema (src/registry.ts, `inspectSchemaNode`) finds of its subschemas.
use hyperfinite.Common.{
  Bool, true, false, not, ◌||◌, ◌&&◌, Option, none, some, List, [], ◌∷◌, Memᴰ, ◌≡◌, refl, sym,
  subst, ap, ◌∙◌, includes, includes-mem, reports, reports-nil, append-nil_inv, Bool-cases, ◌==◌,
  ◌⊎◌, inl, inr, arith,
}
use hyperfinite.Json.{
  Text, text_eq, code_units, Json, Items, Fields, null, bool, number, string, array, object,
  no_items, item, no_fields, field, field_of,
}
use hyperfinite.Registry.Schema.{
  SchemaError, allowed_output_properties, supported_schema_keys, has_key, is_type, is_false,
  unsupported_keywords, type_checks, keyword_checks, node_errors, index_errors, inspect_node,
  under_properties, properties_errors, inspect_properties, under_items, under_branches,
  branches_errors, inspect_branches, validate_closed_schema_dialect,
}

pub data HasField (key : Text) (value : Json) : Fields → Type 0 where
  here : {fields : Fields} → HasField key value (field key value fields)
  later :
      {k : Text} {v : Json} {fields : Fields}
      → HasField key value fields
      → HasField key value (field k v fields)

pub data HasItem (value : Json) : Items → Type 0 where
  here : {items : Items} → HasItem value (item value items)
  later : {v : Json} {items : Items} → HasItem value items → HasItem value (item v items)

abbrev IsBranchKey : Text → Type 0
IsBranchKey key = (key ≡ code_units "oneOf") ⊎ (key ≡ code_units "anyOf")

-- A schema that applies to the value, to one of its properties or to its items, at any depth.
pub data Subschema (sub : Json) : Json → Type 0 where
  self : Subschema sub sub
  property :
      {fields : Fields}
      → (children : Fields) (name : Text) (child : Json)
      → field_of (code_units "properties") fields ≡ some (object children)
      → HasField name child children
      → Subschema sub child
      → Subschema sub (object fields)
  items :
      {fields : Fields}
      → (child : Json) → field_of (code_units "items") fields ≡ some child
      → Subschema sub child
      → Subschema sub (object fields)
  branch :
      {fields : Fields}
      → (key : Text) (branches : Items) (child : Json) → IsBranchKey key
      → field_of key fields ≡ some (array branches)
      → HasItem child branches
      → Subschema sub child
      → Subschema sub (object fields)

-- An object of supported keywords only; it closes an object type, but for one that branches; and
-- where targets are forbidden, its properties are of the output vocabulary.
pub record IsClosedNode (forbid_targets : Bool) (fields : Fields) : Type 0 where
  pub keywords :
      (key : Text) (value : Json) → HasField key value fields → Memᴰ key supported_schema_keys
  pub closed :
      is_type (code_units "object") (field_of (code_units "type") fields) ≡ true
      → (has_key (code_units "oneOf") fields || has_key (code_units "anyOf") fields) ≡ false
      → field_of (code_units "additionalProperties") fields ≡ some (bool false)
  pub vocabulary :
      (children : Fields) (name : Text) (child : Json)
      → forbid_targets ≡ true
      → field_of (code_units "properties") fields ≡ some (object children)
      → HasField name child children
      → Memᴰ name allowed_output_properties

module _ (forbid : Bool) where
  under_properties-eq :
      (fields : Fields) {v : Json}
      → field_of (code_units "properties") fields ≡ some v
      → under_properties forbid fields ≡ properties_errors forbid v
  unfolding under_properties field_of
  under_properties-eq no_fields h = cc
  under_properties-eq (field k w fields) {v} h = elim (Bool-cases (k == code_units "properties")) [
    | inl t ↦ rw t (ap (properties_errors forbid) (ground arith))
    | inr f ↦ rw f (under_properties-eq fields {v = v} (ground arith))
  ]

  under_items-eq :
      (fields : Fields) {v : Json}
      → field_of (code_units "items") fields ≡ some v
      → under_items forbid fields ≡ inspect_node forbid false v
  unfolding under_items field_of
  under_items-eq no_fields h = cc
  under_items-eq (field k w fields) {v} h = elim (Bool-cases (k == code_units "items")) [
    | inl t ↦ rw t (ap (inspect_node forbid false) (ground arith))
    | inr f ↦ rw f (under_items-eq fields {v = v} (ground arith))
  ]

  under_branches-eq :
      (key : Text) (fields : Fields) {v : Json}
      → field_of key fields ≡ some v
      → under_branches forbid key fields ≡ branches_errors forbid v
  unfolding under_branches field_of
  under_branches-eq key no_fields h = cc
  under_branches-eq key (field k w fields) {v} h = elim (Bool-cases (k == key)) [
    | inl t ↦ rw t (ap (branches_errors forbid) (ground arith))
    | inr f ↦ rw f (under_branches-eq key fields {v = v} (ground arith))
  ]

  properties_clear :
      (children : Fields) {name : Text} {child : Json}
      → inspect_properties forbid children ≡ []
      → HasField name child children
      → (inspect_node forbid false child ≡ [])
        × (forbid ≡ true → Memᴰ name allowed_output_properties)
  unfolding inspect_properties
  properties_clear no_fields h m = elim m [ ]
  properties_clear (field k v children) h here =
      let checks : List (Bool × SchemaError) =
        (
          forbid && not (includes allowed_output_properties k),
          SchemaError.property_outside_vocabulary,
        )
        ∷ [] in
      let (outside, rest) = append-nil_inv (reports checks) _ h in
      let (clear, _) = append-nil_inv (inspect_node forbid false v) _ rest in
      let listed = (reports-nil checks outside).0 in
      (clear, λ t. includes-mem allowed_output_properties k (ground arith))
  properties_clear (field k v children) {name} {child} h (later m) =
      let checks : List (Bool × SchemaError) =
        (
          forbid && not (includes allowed_output_properties k),
          SchemaError.property_outside_vocabulary,
        )
        ∷ [] in
      let (_, rest) = append-nil_inv (reports checks) _ h in
      properties_clear children (append-nil_inv (inspect_node forbid false v) _ rest).1 m

  branches_clear :
      (branches : Items) {child : Json}
      → inspect_branches forbid branches ≡ []
      → HasItem child branches
      → inspect_node forbid false child ≡ []
  unfolding inspect_branches
  branches_clear no_items h m = elim m [ ]
  branches_clear (item v branches) h here = (append-nil_inv (inspect_node forbid false v) _ h).0
  branches_clear (item v branches) h (later m) =
      branches_clear branches (append-nil_inv (inspect_node forbid false v) _ h).1 m

  -- The errors of an object, part by part.
  pub record IsClear (root : Bool) (fields : Fields) : Type 0 where
    pub node : node_errors root fields ≡ []
    pub properties : under_properties forbid fields ≡ []
    pub items : under_items forbid fields ≡ []
    pub one_of : under_branches forbid (code_units "oneOf") fields ≡ []
    pub any_of : under_branches forbid (code_units "anyOf") fields ≡ []

  inspect_node-IsClear :
      (root : Bool) (fields : Fields)
      → inspect_node forbid root (object fields) ≡ []
      → IsClear root fields
  unfolding inspect_node
  inspect_node-IsClear root fields h =
      let (node, h1) = append-nil_inv (node_errors root fields) _ h in
      let (properties, h2) = append-nil_inv (under_properties forbid fields) _ h1 in
      let (under_items_nil, h3) = append-nil_inv (under_items forbid fields) _ h2 in
      let (one_of, any_of) =
        append-nil_inv (under_branches forbid (code_units "oneOf") fields) _ h3 in
      record {
        node = node;
        properties = properties;
        items = under_items_nil;
        one_of = one_of;
        any_of = any_of;
      }

  child_of_properties :
      (root : Bool) (fields children : Fields) {name : Text} {child : Json}
      → IsClear root fields
      → field_of (code_units "properties") fields ≡ some (object children)
      → HasField name child children
      → (inspect_node forbid false child ≡ [])
        × (forbid ≡ true → Memᴰ name allowed_output_properties)
  unfolding properties_errors
  child_of_properties root fields children clear f m =
      properties_clear children (sym (under_properties-eq fields f) ∙ clear.properties) m

  child_of_items :
      (root : Bool) (fields : Fields) {child : Json}
      → IsClear root fields
      → field_of (code_units "items") fields ≡ some child
      → inspect_node forbid false child ≡ []
  child_of_items root fields clear f = sym (under_items-eq fields f) ∙ clear.items

  array_clear :
      (branches : Items)
      → branches_errors forbid (array branches) ≡ []
      → inspect_branches forbid branches ≡ []
  unfolding branches_errors
  array_clear branches h = ground arith

  child_of_branch :
      (root : Bool) (fields : Fields) (key : Text) (branches : Items) {child : Json}
      → IsClear root fields
      → IsBranchKey key
      → field_of key fields ≡ some (array branches)
      → HasItem child branches
      → inspect_node forbid false child ≡ []
  child_of_branch root fields key branches clear (inl e) f m =
      branches_clear branches
        (array_clear branches (
          sym (under_branches-eq key fields f)
          ∙ subst (λ k. under_branches forbid k fields ≡ []) (sym e) clear.one_of))
        m
  child_of_branch root fields key branches clear (inr e) f m =
      branches_clear branches
        (array_clear branches (
          sym (under_branches-eq key fields f)
          ∙ subst (λ k. under_branches forbid k fields ≡ []) (sym e) clear.any_of))
        m

  keywords_supported :
      (fields : Fields) {key : Text} {value : Json}
      → unsupported_keywords fields ≡ []
      → HasField key value fields
      → Memᴰ key supported_schema_keys
  unfolding unsupported_keywords
  keywords_supported no_fields h m = elim m [ ]
  keywords_supported (field k v others) h here = includes-mem supported_schema_keys k (ground arith)
  keywords_supported (field k v others) h (later m) = keywords_supported others (ground arith) m

  false_value : (o : Option Json) → is_false o ≡ true → o ≡ some (bool false)
  unfolding is_false
  false_value (some (bool false)) h = refl
  false_value (some (bool true)) h = cc
  false_value (some null) h = cc
  false_value (some (number n)) h = cc
  false_value (some (string n)) h = cc
  false_value (some (array n)) h = cc
  false_value (some (object n)) h = cc
  false_value none h = cc

  IsClear-IsClosedNode :
      (root : Bool) (fields : Fields) → IsClear root fields → IsClosedNode forbid fields
  unfolding node_errors
  IsClear-IsClosedNode root fields clear =
      let (_, h) = append-nil_inv (reports (type_checks root fields)) _ clear.node in
      let (supported, h1) = append-nil_inv (unsupported_keywords fields) _ h in
      let (_, (_, (_, (_, (open_object, _))))) = reports-nil (keyword_checks fields) h1 in
      record {
        keywords = λ key value m. keywords_supported fields supported m;
        closed = λ t b. false_value _ (ground arith);
        vocabulary =
            λ children name child t f m. (child_of_properties root fields children clear f m).1 t;
      }

  inspected_is_object :
      (root : Bool) (schema : Json)
      → inspect_node forbid root schema ≡ []
      → (fields : Fields) × (schema ≡ object fields) × IsClosedNode forbid fields
  unfolding inspect_node
  inspected_is_object root (object fields) h =
      (fields, refl, IsClear-IsClosedNode root fields (inspect_node-IsClear root fields h))
  inspected_is_object root (array xs) h =
      cc
        (append-nil_inv (index_errors xs) (SchemaError.open_type ∷ [])
          (append-nil_inv (reports ((root, SchemaError.root_type) ∷ [])) _ h).1).1
  inspected_is_object root null h = cc
  inspected_is_object root (bool b) h = cc
  inspected_is_object root (number n) h = cc
  inspected_is_object root (string n) h = cc

  Subschema-IsClosedNode :
      {sub schema : Json} (root : Bool)
      → inspect_node forbid root schema ≡ []
      → Subschema sub schema
      → (fields : Fields) × (sub ≡ object fields) × IsClosedNode forbid fields
  Subschema-IsClosedNode {sub} root h self = inspected_is_object root sub h
  Subschema-IsClosedNode root h (property {fields} children name child f m s) =
      Subschema-IsClosedNode false
        (child_of_properties root fields children (inspect_node-IsClear root fields h) f m).0 s
  Subschema-IsClosedNode root h (items {fields} child f s) =
      Subschema-IsClosedNode false
        (child_of_items root fields (inspect_node-IsClear root fields h) f) s
  Subschema-IsClosedNode root h (branch {fields} key branches child b f m s) =
      Subschema-IsClosedNode false
        (child_of_branch root fields key branches (inspect_node-IsClear root fields h) b f m) s

-- Every subschema of an accepted schema, at any depth, is an object of supported keywords that
-- closes its object type unless it branches; in an output schema it declares properties of the
-- output vocabulary only.
pub accepted_schema-IsClosedNode :
    (accepts : Bool) (schema sub : Json) (target_free_output : Bool)
    → validate_closed_schema_dialect accepts schema target_free_output ≡ []
    → Subschema sub schema
    → (fields : Fields) × (sub ≡ object fields) × IsClosedNode target_free_output fields
unfolding validate_closed_schema_dialect
accepted_schema-IsClosedNode accepts schema sub target_free_output h s =
    Subschema-IsClosedNode target_free_output true (ground arith) s
