-- ===== src/Kernel.antt =====
-- The control kernel (src/kernel.ts): its context, safe-integer counters and usage. The stages of
-- `evaluateTransition` are child modules, in the order in which it runs them:
-- Boundary, Resolution, Guards, Accounting, Commit; Transition joins them.
pub mod Boundary
pub mod Requirements
pub mod Resolution
pub mod Lease
pub mod Guards
pub mod Rebind
pub mod Accounting
pub mod Commit
pub mod Transition
use hyperfinite.Common.{
  ℕ, ◌+◌, String, Bool, true, false, ◌&&◌, Option, none, some, List, [], leb, ◌==◌, if◌then◌else◌,
}
use hyperfinite.Types.Lifecycle.{
  LifecycleState, PhaseOwner, EventType, LifecycleGraph, EventType-eq,
}
use hyperfinite.Types.Accord.{Digest, WorkAccord}
use hyperfinite.Types.Policy.{
  PhaseContract, CapabilityRegistry, ControlPolicy, DomainPackPolicy, CompiledPolicy,
}
use hyperfinite.Types.Event.{
  EventCost, EventEnvelope, AuthorityRebind, ActivationLease, HumanGateEvidence,
  ContractRequirementEvidence,
}
use hyperfinite.Types.Snapshot.{Usage, KernelSnapshot}
use hyperfinite.Host.{Host, Document, work_accord_binding_digest}

pub record KernelContext : Type 0 where
  pub graph : LifecycleGraph
  pub work_accord : WorkAccord
  pub policy : ControlPolicy
  pub registry : CapabilityRegistry
  pub domain_pack : DomainPackPolicy
  pub current_phase_contract : Option PhaseContract
  pub destination_phase_contract : Option PhaseContract
  pub activation_lease : Option ActivationLease
  pub human_gate_evidence : List HumanGateEvidence
  pub contract_requirement_evidence : List ContractRequirementEvidence
  pub requester_id : String
  pub evaluated_at : String
  pub retryable_failure : Bool
  pub rebind_authority : Option AuthorityRebind

pub record PhaseAuthority : Type 0 where
  pub contract : PhaseContract
  pub compiled : CompiledPolicy

-- EMPTY_USAGE
abbrev pub empty_usage : Usage
empty_usage = record { calls = 0; tokens = 0; cost_units = 0; loops = 0; retries = 0 }

-- The argument of `createInitialSnapshot`.
pub record InitialInput : Type 0 where
  pub lifecycle_graph_digest : Digest
  pub work_accord : WorkAccord
  pub capability_registry_digest : Digest
  pub domain_pack_digest : Digest
  pub policy_digest : Digest

unfoldable pub create_initial_snapshot : Host → InitialInput → KernelSnapshot
create_initial_snapshot host input = record {
  schema_version = "1.0.0";
  lifecycle_version = "1.0.0";
  lifecycle_graph_digest = input.lifecycle_graph_digest;
  state = LifecycleState.captured;
  phase_owner = PhaseOwner.intake;
  state_version = 0;
  last_event_sequence = 0;
  binding_digest = work_accord_binding_digest host input.work_accord;
  work_accord_digest = host.digest (Document.work_accord input.work_accord);
  capability_registry_digest = input.capability_registry_digest;
  domain_pack_digest = input.domain_pack_digest;
  phase_contract_digest = none;
  compiled_policy_digest = none;
  policy_digest = input.policy_digest;
  current_head = input.work_accord.binding.current_head;
  receipt_head = none;
  suspended_state = none;
  recovery_state = none;
  usage = empty_usage;
  phase_usage = empty_usage;
  route_attempts = [];
  processed_events = [];
}

-- Number.MAX_SAFE_INTEGER
abbrev pub max_safe_integer : ℕ
max_safe_integer = 9007199254740991

-- The sum of two safe integers rounds to a safe integer only where it is exact.
unfoldable pub safe_add : ℕ → ℕ → Option ℕ
safe_add left right =
    if leb left max_safe_integer
      && leb right max_safe_integer
      && leb (left + right) max_safe_integer
    then some (left + right)
    else none

-- All five sums, or null if one of them is.
unfoldable pub usage_of : (calls tokens cost_units loops retries : Option ℕ) → Option Usage
usage_of (some calls) (some tokens) (some cost_units) (some loops) (some retries) = some (record {
  calls = calls;
  tokens = tokens;
  cost_units = cost_units;
  loops = loops;
  retries = retries;
})
usage_of _ _ _ _ _ = none

unfoldable pub add_usage : Usage → EventEnvelope → Option Usage
unfolding safe_add usage_of
add_usage usage event =
    usage_of (safe_add usage.calls event.cost.calls) (safe_add usage.tokens event.cost.tokens)
      (safe_add usage.cost_units event.cost.cost_units) (safe_add usage.loops event.cost.loops)
      (safe_add usage.retries (if event.event_type == EventType.retry_requested then 1 else 0))
