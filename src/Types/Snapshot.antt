-- ===== src/Types/Snapshot.antt =====
-- The kernel's state, its receipts and its results (src/types.ts).
use hyperfinite.Common.{ℕ, String, Bool, Option, List}
use hyperfinite.Types.Lifecycle.{LifecycleState, PhaseOwner, ActivePhaseOwner, LifecycleRoute}
use hyperfinite.Types.Accord.{Digest}
use hyperfinite.Types.Policy.{CompiledCapabilityGrant}

pub record Usage : Type 0 where
  pub calls : ℕ
  pub tokens : ℕ
  pub cost_units : ℕ
  pub loops : ℕ
  pub retries : ℕ

pub record ProcessedEvent : Type 0 where
  pub event_digest : Digest
  pub receipt_digest : Digest
  pub idempotency_key : Digest
  pub delivery_id : String

pub record KernelSnapshot : Type 0 where
  pub schema_version : String
  pub lifecycle_version : String
  pub lifecycle_graph_digest : Digest
  pub state : LifecycleState
  pub phase_owner : PhaseOwner
  pub state_version : ℕ
  pub last_event_sequence : ℕ
  pub binding_digest : Digest
  pub work_accord_digest : Digest
  pub capability_registry_digest : Digest
  pub domain_pack_digest : Digest
  pub phase_contract_digest : Option Digest
  pub compiled_policy_digest : Option Digest
  pub policy_digest : Digest
  pub current_head : Option Digest
  pub receipt_head : Option Digest
  pub suspended_state : Option LifecycleState
  pub recovery_state : Option LifecycleState
  pub usage : Usage
  pub phase_usage : Usage
  pub route_attempts : List (String × ℕ)
  pub processed_events : List (String × ProcessedEvent)

pub data RefusalCode : Type 0 where
  schema_invalid graph_invalid unknown_version invalid_transition ambiguous_route : RefusalCode
  unauthorized_actor independence_required human_gate_missing human_gate_stale : RefusalCode
  activation_required lease_expired lease_revoked contract_stale current_head_stale : RefusalCode
  replay_conflict replay_out_of_order concurrency_conflict provenance_invalid : RefusalCode
  budget_exhausted loop_limit_exhausted retry_not_allowed retry_limit_exhausted : RefusalCode
  registry_invalid policy_escalation contract_requirement_missing numeric_overflow : RefusalCode
  migration_unavailable : RefusalCode

pub data Recovery : Type 0 where
  reconcile human_authorization new_contract nothing : Recovery

-- The human-readable `message` is left out.
pub record KernelRefusal : Type 0 where
  pub code : RefusalCode
  pub rule_id : String
  pub retryable : Bool
  pub recovery : Recovery

pub data KernelEffect : Type 0 where
  emit_receipt : (event_id : String) → KernelEffect
  enter_phase : (phase : ActivePhaseOwner) → List CompiledCapabilityGrant → KernelEffect
  request_reconciliation : (reason : String) → KernelEffect
  request_human_action : (gate : String) → KernelEffect

pub record TransitionReceipt : Type 0 where
  pub schema_version : String
  pub event_id : String
  pub event_digest : Digest
  pub route_id : String
  pub route_version : String
  pub from : LifecycleState
  pub to : LifecycleState
  pub state_version : ℕ
  pub previous_receipt : Option Digest
  pub idempotency_key : Digest
  pub replacement_authority_digest : Option Digest
  pub binding_digest : Digest
  pub lifecycle_graph_digest : Digest
  pub work_accord_digest : Digest
  pub capability_registry_digest : Digest
  pub domain_pack_digest : Digest
  pub destination_binding_digest : Digest
  pub destination_lifecycle_graph_digest : Digest
  pub destination_work_accord_digest : Digest
  pub destination_capability_registry_digest : Digest
  pub destination_domain_pack_digest : Digest
  pub source_phase_contract_digest : Option Digest
  pub source_compiled_policy_digest : Option Digest
  pub destination_phase_contract_digest : Option Digest
  pub destination_compiled_policy_digest : Option Digest
  pub policy_digest : Digest
  pub destination_policy_digest : Digest
  pub actor_id : String
  pub actor_authorization_digest : Digest
  pub occurred_at : String
  pub effect_plan_digest : Digest

-- The fields of an applied result.
pub record Transition : Type 0 where
  pub route : LifecycleRoute
  pub snapshot : KernelSnapshot
  pub receipt : TransitionReceipt
  pub receipt_digest : Digest
  pub effects : List KernelEffect

-- `KernelResult` is `Outcome Transition`; the evaluation's stages are outcomes of other types.
-- The reason of a noop is always "duplicate-event".
pub data Outcome {ℓ} (A : Type ℓ) : Type ℓ where
  applied : A → Outcome A
  noop : (receipt_digest : Digest) → KernelSnapshot → Outcome A
  refused : KernelRefusal → KernelSnapshot → Outcome A

abbrev pub KernelResult : Type 0
KernelResult = Outcome Transition
