-- ===== src/Registry.antt =====
-- The capability registry (src/registry.ts): its semantic checks and the resolution of a reference.
pub mod Schema
pub mod Laws
use Prim.Native.String.{◌++◌ as join}
use hyperfinite.Common.{
  ℕ, ◌+◌, String, Bool, true, false, not, ◌&&◌, ◌||◌, Option, none, some, List, [], ◌∷◌, ◌++◌, map,
  any, all, find, includes, is_empty, length, leb, reports, ◌==◌, ◌!=◌, if◌then◌else◌, string_eq,
  nat_eq,
}
use hyperfinite.Json.{Text, Json, code_units}
use hyperfinite.Types.Lifecycle.{ActivePhaseOwner, ActivePhaseOwner-eq}
use hyperfinite.Types.Policy.{
  JsonSchema, Capability, CapabilityStatus, CapabilityAccess, CapabilityRegistry, ProvenanceClass,
  Review,
}
use hyperfinite.Lifecycle.{is_active_phase_owner, phase_owner_of}
use hyperfinite.Registry.Schema.{SchemaError, validate_closed_schema_dialect}

-- What the registry calls and does not implement: Ajv's `validateSchema` and `compile`, and `URL`.
pub record Url : Type 0 where
  pub protocol : String
  pub username : String
  pub password : String

pub record RegistryLibrary : Type 0 where
  pub accepts_schema : Json → Bool
  -- none where `new URL` throws
  pub parse_url : String → Option Url

-- The loop's errors carry the index of the capability.
pub data RegistryError : Type 0 where
  duplicate_capability phases write_access wildcard mcp_classification : ℕ → RegistryError
  network_destination prohibited_effect provenance : ℕ → RegistryError
  input_schema output_schema : ℕ → SchemaError → RegistryError
  unknown_capability inactive_capability phase_not_allowed : RegistryError

-- `${capability.id}@${capability.version}`
abbrev pub capability_reference : Capability → String
capability_reference capability = join capability.id (join "@" capability.version)

unfoldable pub has_wildcard : String → Bool
has_wildcard value = any (λ c. c == b'*' || c == b'?') (code_units value)

-- `new Set(values).size !== values.length`
unfoldable pub has_repeats : List String → Bool
has_repeats [] = false
has_repeats (x ∷ xs) = includes xs x || has_repeats xs

-- Every MCP tool once among the read and the mutation tools.
unfoldable pub is_misclassified : CapabilityAccess → Bool
is_misclassified access =
    let classified = access.mcp_read_tools ++ access.mcp_mutation_tools in
    has_repeats classified
    || length classified != length access.mcp_tools
    || not (all (includes access.mcp_tools) classified)

unfoldable pub is_bad_destination : Option Url → Bool
is_bad_destination none = true
is_bad_destination (some url) = url.protocol != "https:" || url.username != "" || url.password != ""

-- `toLowerCase` on a code unit, as far as an ASCII word can tell: the capital letters, and the two
-- other characters whose lower case has an ASCII letter.
abbrev lower_before : ℕ → Text → Text
lower_before c rest =
    if leb b'A' c && leb c b'Z'
    then (c + 32) ∷ rest
    else if c == 8490
    then b'k' ∷ rest
    else if c == 304
    then b'i' ∷ 775 ∷ rest
    else c ∷ rest

unfoldable pub to_lower_case : Text → Text
to_lower_case [] = []
to_lower_case (c ∷ text) = lower_before c (to_lower_case text)

unfoldable pub starts_with : (word : Text) → Text → Bool
starts_with [] text = true
starts_with (c ∷ word) [] = false
starts_with (c ∷ word) (d ∷ text) = c == d && starts_with word text

-- `text.includes(word)`
unfoldable pub has_word : (word : Text) → Text → Bool
has_word word [] = starts_with word []
has_word word (c ∷ text) = starts_with word (c ∷ text) || has_word word text

-- PROHIBITED_EFFECT_WORDS
abbrev pub prohibited_effect_words : List String
prohibited_effect_words =
    "approve" ∷ "merge" ∷ "deploy" ∷ "publish" ∷ "production" ∷ "crm" ∷ "erp" ∷ "payment"
    ∷ "license" ∷ "visibility" ∷ []

unfoldable pub has_prohibited_effect : String → Bool
has_prohibited_effect effect_class =
    any (λ word. has_word (code_units word) (to_lower_case (code_units effect_class)))
      prohibited_effect_words

abbrev pub is_approved : Review → Bool
is_approved Review.approved = true
is_approved _ = false

abbrev pub is_copied : ProvenanceClass → Bool
is_copied ProvenanceClass.adapted = true
is_copied ProvenanceClass.verbatim = true
is_copied _ = false

-- One error for each bad destination.
unfoldable pub destination_errors :
    RegistryLibrary → (index : ℕ) → (destinations : List String) → List RegistryError
destination_errors library index [] = []
destination_errors library index (d ∷ destinations) =
    reports
      ((is_bad_destination (library.parse_url d), RegistryError.network_destination index) ∷ [])
    ++ destination_errors library index destinations

-- The checks before the destinations; `seen` holds the identities of the rounds before. The fields
-- of the access in which a wildcard is an error are in the source's order.
abbrev pub access_checks :
    (seen : List String) (index : ℕ) → Capability → List (Bool × RegistryError)
access_checks seen index capability =
    let access = capability.access in
    (includes seen (capability_reference capability), RegistryError.duplicate_capability index)
    ∷ (
      is_empty capability.allowed_phases
          || any (λ p. not (is_active_phase_owner (phase_owner_of p))) capability.allowed_phases,
      RegistryError.phases index,
    )
    ∷ (access.write_allowed || not (is_empty access.write_scopes), RegistryError.write_access index)
    ∷ (any has_wildcard access.tools, RegistryError.wildcard index)
    ∷ (any has_wildcard access.shell_commands, RegistryError.wildcard index)
    ∷ (any has_wildcard access.network_destinations, RegistryError.wildcard index)
    ∷ (any has_wildcard access.mcp_tools, RegistryError.wildcard index)
    ∷ (any has_wildcard access.mcp_read_tools, RegistryError.wildcard index)
    ∷ (any has_wildcard access.mcp_mutation_tools, RegistryError.wildcard index)
    ∷ (is_misclassified access, RegistryError.mcp_classification index)
    ∷ []

abbrev pub effect_checks : (index : ℕ) → Capability → List (Bool × RegistryError)
effect_checks index capability =
    (has_prohibited_effect capability.effect_class, RegistryError.prohibited_effect index)
    ∷ (
      is_copied capability.classification
          && (not (is_approved capability.legal_review)
              || not (is_approved capability.security_review)),
      RegistryError.provenance index,
    )
    ∷ []

-- `validateClosedSchemaDialect` of a capability's schema.
abbrev pub dialect_errors : RegistryLibrary → JsonSchema → Bool → List SchemaError
dialect_errors library schema target_free_output =
    validate_closed_schema_dialect (library.accepts_schema schema.root) schema.root
      target_free_output

-- One round of `registry.capabilities.forEach`.
unfoldable pub capability_errors :
    RegistryLibrary → (seen : List String) (index : ℕ) → Capability → List RegistryError
capability_errors library seen index capability =
    reports (access_checks seen index capability)
    ++ (destination_errors library index capability.access.network_destinations
        ++ (reports (effect_checks index capability)
            ++ (map (RegistryError.input_schema index)
                  (dialect_errors library capability.input_schema false)
                ++ map (RegistryError.output_schema index)
                    (dialect_errors library capability.output_schema true))))

unfoldable pub capability_rounds :
    RegistryLibrary → (seen : List String) (index : ℕ) → List Capability → List RegistryError
capability_rounds library seen index [] = []
capability_rounds library seen index (c ∷ capabilities) =
    capability_errors library seen index c
    ++ capability_rounds library (capability_reference c ∷ seen) (index + 1) capabilities

-- The defaults are literals of the type, so their check finds nothing.
unfoldable pub validate_registry_semantics :
    RegistryLibrary → CapabilityRegistry → List RegistryError
validate_registry_semantics library registry = capability_rounds library [] 0 registry.capabilities

-- CapabilityResolution or CapabilityResolutionFailure
pub data Resolution : Type 0 where
  resolved : Capability → Resolution
  unresolved : RegistryError → Resolution

abbrev pub is_active : CapabilityStatus → Bool
is_active CapabilityStatus.active = true
is_active _ = false

unfoldable pub resolution_of : Option Capability → ActivePhaseOwner → Resolution
resolution_of none phase = Resolution.unresolved RegistryError.unknown_capability
resolution_of (some capability) phase =
    if not (is_active capability.status)
    then Resolution.unresolved RegistryError.inactive_capability
    else if not (all (λ p. is_active_phase_owner (phase_owner_of p)) capability.allowed_phases)
        || not (includes capability.allowed_phases phase)
    then Resolution.unresolved RegistryError.phase_not_allowed
    else Resolution.resolved capability

unfoldable pub resolve_capability :
    CapabilityRegistry → (reference : String) → ActivePhaseOwner → Resolution
resolve_capability registry reference phase =
    resolution_of (find (λ c. capability_reference c == reference) registry.capabilities) phase
