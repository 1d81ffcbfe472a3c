-- ===== src/Registry/Schema.antt =====
-- The closed schema dialect (src/registry.ts, `inspectSchemaNode`). An error is its kind; the order
-- of the errors is the source's.
pub mod Closed
use hyperfinite.Common.{
  ℕ, ◌+◌, Bool, true, false, not, ◌&&◌, ◌||◌, Option, none, some, List, [], ◌∷◌, ◌++◌, map, any,
  includes, is_some, reports, ltb, ◌==◌, ◌!=◌, if◌then◌else◌,
}
use hyperfinite.Json.{
  Text, text_eq, code_units, Json, Items, Fields, null, bool, number, string, array, object,
  no_items, item, no_fields, field, field_of,
}

pub data SchemaError : Type 0 where
  root_not_object schema_invalid node_not_object root_type unsupported_type : SchemaError
  structured_enum structured_const unsupported_keyword : SchemaError
  object_keywords array_keywords string_keywords numeric_keywords : SchemaError
  open_object open_type items_missing properties_not_object : SchemaError
  property_outside_vocabulary too_few_branches : SchemaError

-- ALLOWED_OUTPUT_PROPERTIES
abbrev pub allowed_output_properties : List Text
allowed_output_properties =
    code_units "acceptanceCriterionIds"
    ∷ code_units "artifactDigest"
    ∷ code_units "changes"
    ∷ code_units "content"
    ∷ code_units "deliveryEvidenceDigest"
    ∷ code_units "findings"
    ∷ code_units "headSha"
    ∷ code_units "lockStatus"
    ∷ code_units "mergedSha"
    ∷ code_units "openQuestions"
    ∷ code_units "operationsReceiptDigest"
    ∷ code_units "reasonCode"
    ∷ code_units "regressionStatus"
    ∷ code_units "result"
    ∷ code_units "reviewEvent"
    ∷ code_units "scannerStatus"
    ∷ code_units "slot"
    ∷ code_units "steps"
    ∷ code_units "summary"
    ∷ code_units "targetSlots"
    ∷ code_units "threatStatus"
    ∷ code_units "dlpStatus"
    ∷ code_units "verificationReportDigest"
    ∷ code_units "verificationIds"
    ∷ []

-- SUPPORTED_SCHEMA_KEYS
abbrev pub supported_schema_keys : List Text
supported_schema_keys =
    code_units "type"
    ∷ code_units "additionalProperties"
    ∷ code_units "required"
    ∷ code_units "properties"
    ∷ code_units "items"
    ∷ code_units "enum"
    ∷ code_units "const"
    ∷ code_units "minLength"
    ∷ code_units "maxLength"
    ∷ code_units "minimum"
    ∷ code_units "maximum"
    ∷ code_units "pattern"
    ∷ code_units "minItems"
    ∷ code_units "maxItems"
    ∷ code_units "uniqueItems"
    ∷ code_units "anyOf"
    ∷ code_units "oneOf"
    ∷ []

abbrev supported_types : List Text
supported_types =
    code_units "object"
    ∷ code_units "array"
    ∷ code_units "string"
    ∷ code_units "integer"
    ∷ code_units "number"
    ∷ code_units "boolean"
    ∷ code_units "null"
    ∷ []

-- `record[key] !== undefined`
abbrev pub has_key : Text → Fields → Bool
has_key key fields = is_some (field_of key fields)

-- `record["type"]` is the string.
unfoldable pub is_type : Text → Option Json → Bool
is_type name (some (string s)) = s == name
is_type name _ = false

-- `type !== undefined && (typeof type !== "string" || !supportedTypes.has(type))`
unfoldable pub has_unsupported_type : Option Json → Bool
has_unsupported_type none = false
has_unsupported_type (some (string s)) = not (includes supported_types s)
has_unsupported_type (some _) = true

-- `typeof candidate === "object" && candidate !== null`
unfoldable pub is_structured : Json → Bool
is_structured (array xs) = true
is_structured (object fs) = true
is_structured _ = false

unfoldable pub any_structured : Items → Bool
any_structured no_items = false
any_structured (item v xs) = is_structured v || any_structured xs

-- The values of `enum` are the items of its array, or itself.
unfoldable pub has_structured_enum : Option Json → Bool
has_structured_enum none = false
has_structured_enum (some (array xs)) = any_structured xs
has_structured_enum (some v) = is_structured v

unfoldable pub has_structured_const : Option Json → Bool
has_structured_const none = false
has_structured_const (some v) = is_structured v

unfoldable pub is_false : Option Json → Bool
is_false (some (bool b)) = not b
is_false _ = false

-- The loop over `Object.keys(record)`.
unfoldable pub unsupported_keywords : Fields → List SchemaError
unsupported_keywords no_fields = []
unsupported_keywords (field key v fields) =
    let rest = unsupported_keywords fields in
    if includes supported_schema_keys key then rest else SchemaError.unsupported_keyword ∷ rest

-- A kind of types with keywords of its own: `!types.has(type)` and one of them is there.
abbrev pub has_foreign_keyword : List Text → List Text → Fields → Bool
has_foreign_keyword types keywords fields =
    not (any (λ name. is_type name (field_of (code_units "type") fields)) types)
    && any (λ keyword. has_key keyword fields) keywords

-- The checks up to the keywords.
abbrev pub type_checks : Bool → Fields → List (Bool × SchemaError)
type_checks root fields =
    let type = field_of (code_units "type") fields in
    (root && not (is_type (code_units "object") type), SchemaError.root_type)
    ∷ (has_unsupported_type type, SchemaError.unsupported_type)
    ∷ (has_structured_enum (field_of (code_units "enum") fields), SchemaError.structured_enum)
    ∷ (has_structured_const (field_of (code_units "const") fields), SchemaError.structured_const)
    ∷ []

-- The checks after the keywords, up to the children.
abbrev pub keyword_checks : Fields → List (Bool × SchemaError)
keyword_checks fields =
    let type = field_of (code_units "type") fields in
    let branched = has_key (code_units "oneOf") fields || has_key (code_units "anyOf") fields in
    (
      has_foreign_keyword (code_units "object" ∷ [])
          (code_units "additionalProperties" ∷ code_units "required" ∷ code_units "properties" ∷ [])
          fields,
      SchemaError.object_keywords,
    )
    ∷ (
      has_foreign_keyword (code_units "array" ∷ [])
          (code_units "items"
            ∷ code_units "minItems"
            ∷ code_units "maxItems"
            ∷ code_units "uniqueItems"
            ∷ [])
          fields,
      SchemaError.array_keywords,
    )
    ∷ (
      has_foreign_keyword (code_units "string" ∷ [])
          (code_units "minLength" ∷ code_units "maxLength" ∷ code_units "pattern" ∷ []) fields,
      SchemaError.string_keywords,
    )
    ∷ (
      has_foreign_keyword (code_units "integer" ∷ code_units "number" ∷ [])
          (code_units "minimum" ∷ code_units "maximum" ∷ []) fields,
      SchemaError.numeric_keywords,
    )
    ∷ (
      is_type (code_units "object") type
          && not (is_false (field_of (code_units "additionalProperties") fields))
          && not branched,
      SchemaError.open_object,
    )
    ∷ (
      not (
          is_some type
          || has_key (code_units "enum") fields
          || has_key (code_units "const") fields
          || branched),
      SchemaError.open_type,
    )
    ∷ (
      is_type (code_units "array") type && not (has_key (code_units "items") fields),
      SchemaError.items_missing,
    )
    ∷ []

unfoldable pub node_errors : Bool → Fields → List SchemaError
node_errors root fields =
    reports (type_checks root fields)
    ++ (unsupported_keywords fields ++ reports (keyword_checks fields))

-- An array as a node: its keys are its indices, and `type` is not among them.
unfoldable pub index_errors : Items → List SchemaError
index_errors no_items = []
index_errors (item v xs) = SchemaError.unsupported_keyword ∷ index_errors xs

-- `!Array.isArray(branches) || branches.length < 2`
unfoldable pub has_few_branches : Items → Bool
has_few_branches no_items = true
has_few_branches (item v no_items) = true
has_few_branches (item v (item w xs)) = false

unfoldable mutual
  pub inspect_node : (forbid_targets root : Bool) → Json → List SchemaError
  inspect_node forbid root (object fields) =
      node_errors root fields
      ++ (under_properties forbid fields
          ++ (under_items forbid fields
              ++ (under_branches forbid (code_units "oneOf") fields
                  ++ under_branches forbid (code_units "anyOf") fields)))
  inspect_node forbid root (array xs) =
      reports ((root, SchemaError.root_type) ∷ [])
      ++ (index_errors xs ++ SchemaError.open_type ∷ [])
  inspect_node forbid root _ = SchemaError.node_not_object ∷ []

  pub under_properties : Bool → Fields → List SchemaError
  under_properties forbid no_fields = []
  under_properties forbid (field key v fields) =
      let here = properties_errors forbid v in
      let later = under_properties forbid fields in
      if key == code_units "properties" then here else later

  pub properties_errors : Bool → Json → List SchemaError
  properties_errors forbid (object children) = inspect_properties forbid children
  properties_errors forbid _ = SchemaError.properties_not_object ∷ []

  pub inspect_properties : Bool → Fields → List SchemaError
  inspect_properties forbid no_fields = []
  inspect_properties forbid (field key child children) =
      reports (
        (
          forbid && not (includes allowed_output_properties key),
          SchemaError.property_outside_vocabulary,
        )
        ∷ [])
      ++ (inspect_node forbid false child ++ inspect_properties forbid children)

  pub under_items : Bool → Fields → List SchemaError
  under_items forbid no_fields = []
  under_items forbid (field key v fields) =
      let here = inspect_node forbid false v in
      let later = under_items forbid fields in if key == code_units "items" then here else later

  pub under_branches : Bool → (branch_key : Text) → Fields → List SchemaError
  under_branches forbid branch_key no_fields = []
  under_branches forbid branch_key (field key v fields) =
      let here = branches_errors forbid v in
      let later = under_branches forbid branch_key fields in
      if key == branch_key then here else later

  pub branches_errors : Bool → Json → List SchemaError
  branches_errors forbid (array branches) =
      let within = inspect_branches forbid branches in
      if has_few_branches branches then SchemaError.too_few_branches ∷ [] else within
  branches_errors forbid _ = SchemaError.too_few_branches ∷ []

  pub inspect_branches : Bool → Items → List SchemaError
  inspect_branches forbid no_items = []
  inspect_branches forbid (item child branches) =
      inspect_node forbid false child ++ inspect_branches forbid branches

-- validateClosedSchemaDialect, where `accepts` is whether Ajv accepts and compiles the schema.
unfoldable pub validate_closed_schema_dialect :
    (accepts : Bool) → Json → (target_free_output : Bool) → List SchemaError
validate_closed_schema_dialect accepts schema target_free_output =
    if not (is_structured schema)
    then SchemaError.root_not_object ∷ []
    else if not accepts
    then SchemaError.schema_invalid ∷ []
    else inspect_node target_free_output true schema
