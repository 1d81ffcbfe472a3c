-- ===== src/Types/Event.antt =====
-- Actors, events, leases and evidence (src/types.ts).
use hyperfinite.Common.{ℕ, String, Bool, Option, List, Eq}
use hyperfinite.Types.Lifecycle.{ActivePhaseOwner, ActorClass, EventType, LifecycleGraph}
use hyperfinite.Types.Accord.{Digest, WorkAccord}
use hyperfinite.Types.Policy.{ControlPolicy, CapabilityRegistry, DomainPackPolicy, PhaseContract}

-- `actor_class` is the field `class`.
pub record Actor : Type 0 where
  pub id : String
  pub actor_class : ActorClass
  pub human : Bool
  pub bot : Bool
  pub roles : List String
  pub authorization_digest : Digest

pub data EventSource : Type 0 where
  trusted_adapter policy_engine kernel_recovery test_fixture : EventSource

pub record EventCost : Type 0 where
  pub calls : ℕ
  pub tokens : ℕ
  pub cost_units : ℕ
  pub loops : ℕ

-- An event without `provenance.payloadDigest`: what `eventPayloadDigest` digests.
pub record EventPayload : Type 0 where
  pub id : String
  pub sequence : ℕ
  pub occurred_at : String
  pub expected_state_version : ℕ
  pub event_type : EventType
  pub replacement_authority_digest : Option Digest
  pub actor : Actor
  pub source : EventSource
  pub delivery_id : String
  pub binding_digest : Digest
  pub cost : EventCost

pub record EventEnvelope : Type 0 where
  pub payload : EventPayload
  pub open payload use *
  pub payload_digest : Digest

pub record AuthorityRebind : Type 0 where
  pub schema_version : String
  pub binding_digest : Digest
  pub graph : LifecycleGraph
  pub work_accord : WorkAccord
  pub policy : ControlPolicy
  pub registry : CapabilityRegistry
  pub domain_pack : DomainPackPolicy
  pub phase_contracts : List PhaseContract

pub record ActivationLease : Type 0 where
  pub id : String
  pub work_accord_digest : Digest
  pub approved_by : String
  pub authorization_digest : Digest
  pub allowed_phases : List ActivePhaseOwner
  pub allowed_capabilities : List String
  pub max_calls : ℕ
  pub max_tokens : ℕ
  pub max_cost_units : ℕ
  pub max_parallel : ℕ
  pub expires_at : String
  pub revoked : Bool

pub record HumanGateEvidence : Type 0 where
  pub gate : String
  pub actor : Actor
  pub work_accord_digest : Digest
  pub activation_lease_digest : Option Digest
  pub current_head : Option Digest
  pub observed_at : String
  pub expires_at : String
  pub valid : Bool

pub data RequirementType : Type 0 where
  predicate evidence : RequirementType

pub record ContractRequirementEvidence : Type 0 where
  pub requirement_type : RequirementType
  pub requirement : String
  pub satisfied : Bool
  pub work_accord_digest : Digest
  pub binding_digest : Digest
  pub snapshot_digest : Digest
  pub phase_contract_digest : Digest
  pub route_id : String
  pub activation_lease_digest : Option Digest
  pub current_head : Option Digest
  pub actor_authorization_digest : Option Digest
  pub observed_at : String
  pub expires_at : String

unfoldable pub EventSource-discrete : Discrete EventSource
EventSource-discrete = hlevel

instance abbrev pub EventSource-eq : Eq EventSource
EventSource-eq = record { dec = EventSource-discrete }

unfoldable pub RequirementType-discrete : Discrete RequirementType
RequirementType-discrete = hlevel

instance abbrev pub RequirementType-eq : Eq RequirementType
RequirementType-eq = record { dec = RequirementType-discrete }
