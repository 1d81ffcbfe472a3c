-- ===== src/Types/Policy.antt =====
-- Phase Contracts, capabilities, control and domain policies (src/types.ts), and the compiled
-- policy (src/policy.ts).
use hyperfinite.Common.{ℕ, String, Bool, Option, List}
use hyperfinite.Json.{Json}
use hyperfinite.Types.Lifecycle.{ActivePhaseOwner, ActorClass}
use hyperfinite.Types.Accord.{Digest, DepthProfile, RiskClass, PrivacyClass}

-- A JSON Schema document.
pub record JsonSchema : Type 0 where
  pub root : Json

pub record ExitRule : Type 0 where
  pub predicate : String
  pub event : String

pub record PhaseLimits : Type 0 where
  pub max_loops : ℕ
  pub max_calls : ℕ
  pub max_cost_units : ℕ
  pub max_parallel : ℕ

-- `id`, `version` are the fields of `identity`; `maximum_class`, `retention_days` of `privacy`.
pub record PhaseContract : Type 0 where
  pub id : String
  pub version : String
  pub phase : ActivePhaseOwner
  pub compatible_lifecycle : String
  pub compatible_lifecycle_digest : Digest
  pub entry_predicates : List String
  pub required_evidence : List String
  pub allowed_capabilities : List String
  pub input_schema : JsonSchema
  pub output_schema : JsonSchema
  pub exit_rules : List ExitRule
  pub limits : PhaseLimits
  pub human_gates : List String
  pub maximum_class : PrivacyClass
  pub retention_days : ℕ

pub data CapabilityStatus : Type 0 where
  active disabled deprecated : CapabilityStatus

pub data ImplementationKind : Type 0 where
  deterministic model : ImplementationKind

pub record CapabilityAccess : Type 0 where
  pub read_scopes : List String
  pub write_allowed : Bool
  pub write_scopes : List String
  pub tools : List String
  pub shell_commands : List String
  pub network_destinations : List String
  pub mcp_tools : List String
  pub mcp_read_tools : List String
  pub mcp_mutation_tools : List String
  pub secret_names : List String

pub record CapabilityLimits : Type 0 where
  pub max_calls : ℕ
  pub max_cost_units : ℕ
  pub timeout_ms : ℕ
  pub max_retries : ℕ
  pub max_output_bytes : ℕ
  pub max_concurrency : ℕ
  pub parallel_safe : Bool

pub data ProvenanceClass : Type 0 where
  original conceptual adapted verbatim : ProvenanceClass

pub data Review : Type 0 where
  not_required pending approved rejected : Review

pub record Capability : Type 0 where
  pub id : String
  pub version : String
  pub publisher : String
  pub owner : String
  pub description : String
  pub status : CapabilityStatus
  pub implementation_kind : ImplementationKind
  pub provider : String
  pub allowed_phases : List ActivePhaseOwner
  pub actor_classes : List ActorClass
  pub input_schema : JsonSchema
  pub output_schema : JsonSchema
  pub access : CapabilityAccess
  pub effect_class : String
  pub risk_class : RiskClass
  pub trust_zone : String
  pub privacy_class : PrivacyClass
  pub limits : CapabilityLimits
  pub human_gates : List String
  pub idempotency_scope : String
  pub evidence : List String
  pub structural_evaluations : List String
  pub behavioral_evaluations : List String
  pub classification : ProvenanceClass
  pub legal_review : Review
  pub security_review : Review
  pub lifecycle : String
  pub replacement : Option String

pub record CapabilityRegistry : Type 0 where
  pub version : String
  pub capabilities : List Capability

pub record CompiledCapabilityGrant : Type 0 where
  pub reference : String
  pub actor_classes : List ActorClass
  pub human_gates : List String
  pub read_scopes : List String
  pub tools : List String
  pub shell_commands : List String
  pub network_destinations : List String
  pub mcp_tools : List String
  pub risk_class : RiskClass
  pub privacy_class : PrivacyClass
  pub limits : CapabilityLimits
  pub evidence : List String
  pub structural_evaluations : List String
  pub behavioral_evaluations : List String

pub record ActorRule : Type 0 where
  pub actor_class : ActorClass
  pub required_roles : List String
  pub human : Bool

pub record Ceilings : Type 0 where
  pub depth_profile : DepthProfile
  pub risk_class : RiskClass
  pub privacy_class : PrivacyClass
  pub max_calls : ℕ
  pub max_cost_units : ℕ
  pub max_loops : ℕ
  pub max_retries : ℕ
  pub max_parallel : ℕ

pub record ControlPolicy : Type 0 where
  pub version : String
  pub actor_rules : List ActorRule
  pub independent_gates : List String
  pub prohibited_effects : List String
  pub ceilings : Ceilings

pub record DomainPackPolicy : Type 0 where
  pub id : String
  pub version : String
  pub allowed_capabilities : List String
  pub prohibited_effects : List String
  pub depth_ceiling : DepthProfile
  pub risk_ceiling : RiskClass
  pub privacy_ceiling : PrivacyClass
  pub max_calls : ℕ
  pub max_cost_units : ℕ
  pub max_loops : ℕ
  pub max_retries : ℕ
  pub max_parallel : ℕ

pub record CompiledLimits : Type 0 where
  pub max_calls : ℕ
  pub max_tokens : ℕ
  pub max_cost_units : ℕ
  pub max_loops : ℕ
  pub max_retries : ℕ
  pub max_parallel : ℕ

-- What `computeCompiledPolicyDigest` digests: the compiled policy without its digest.
pub record PolicyBody : Type 0 where
  pub phase : ActivePhaseOwner
  pub allowed_capabilities : List String
  pub capabilities : List CompiledCapabilityGrant
  pub required_human_gates : List String
  pub limits : CompiledLimits

pub record CompiledPolicy : Type 0 where
  pub digest : Digest
  pub body : PolicyBody
  pub open body use *
