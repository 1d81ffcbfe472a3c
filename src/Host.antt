-- ===== src/Host.antt =====
-- What the kernel calls and this repository does not implement: SHA-256 (node:crypto) over the
-- canonical JSON of a document (src/canonical.ts), the Ajv validators behind `validateDocument`
-- (src/validation.ts), and `Date.parse`.
use hyperfinite.Common.{ℕ, String, Bool, Option, some, List, leb, ltb}
use hyperfinite.Types.Lifecycle.{LifecycleGraph}
use hyperfinite.Types.Accord.{Digest, WorkAccord}
use hyperfinite.Types.Policy.{
  PhaseContract, CapabilityRegistry, ControlPolicy, DomainPackPolicy, PolicyBody,
}
use hyperfinite.Types.Event.{
  EventPayload, EventEnvelope, AuthorityRebind, ActivationLease, HumanGateEvidence,
  ContractRequirementEvidence,
}
use hyperfinite.Types.Snapshot.{KernelSnapshot, TransitionReceipt, KernelEffect}

-- The object that `workAccordBindingDigest` digests (src/binding.ts).
pub record BindingIdentity : Type 0 where
  pub repository_id : ℕ
  pub source_digest : Digest
  pub work_item_node_id : String

-- The object that the idempotency key digests (src/kernel.ts).
pub record IdempotencyInput : Type 0 where
  pub binding_digest : Digest
  pub event_id : String
  pub lifecycle_graph_digest : Digest
  pub replacement_authority_digest : Option Digest
  pub work_accord_digest : Digest
  pub route_id : String
  pub state_version : ℕ

-- A value that is digested or validated, with its kind.
pub data Document : Type 0 where
  lifecycle_graph : LifecycleGraph → Document
  work_accord : WorkAccord → Document
  control_policy : ControlPolicy → Document
  capability_registry : CapabilityRegistry → Document
  domain_pack_policy : DomainPackPolicy → Document
  phase_contract : PhaseContract → Document
  activation_lease : ActivationLease → Document
  human_gate_evidence : HumanGateEvidence → Document
  contract_requirement_evidence : ContractRequirementEvidence → Document
  authority_rebind : AuthorityRebind → Document
  kernel_event : EventEnvelope → Document
  kernel_snapshot : KernelSnapshot → Document
  transition_receipt : TransitionReceipt → Document
  event_payload : EventPayload → Document
  binding_identity : BindingIdentity → Document
  idempotency_input : IdempotencyInput → Document
  policy_body : PolicyBody → Document
  effect_plan : List KernelEffect → Document

pub record Host : Type 0 where
  -- `digest`
  pub digest : Document → Digest
  -- `validateDocument`: the errors, if the value is invalid.
  pub schema_errors : Document → Option (List String)
  -- `Date.parse`: the milliseconds since the earliest date there is; none for NaN.
  pub parse_date : String → Option ℕ

-- `a > b`, `a >= b` on parsed dates: false if either is NaN.
abbrev pub date_gt : Option ℕ → Option ℕ → Bool
date_gt (some a) (some b) = ltb b a
date_gt _ _ = Bool.false

abbrev pub date_ge : Option ℕ → Option ℕ → Bool
date_ge (some a) (some b) = leb b a
date_ge _ _ = Bool.false

module _ (host : Host) where
  -- workAccordBindingDigest (src/binding.ts)
  unfoldable pub work_accord_binding_digest : WorkAccord → Digest
  work_accord_binding_digest accord = host.digest (
      Document.binding_identity (record {
        repository_id = accord.binding.repository_id;
        source_digest = accord.binding.source_digest;
        work_item_node_id = accord.binding.work_item_node_id;
      }))

  -- eventPayloadDigest (src/events.ts)
  unfoldable pub event_payload_digest : EventEnvelope → Digest
  event_payload_digest event = host.digest (Document.event_payload event.payload)

  -- computeCompiledPolicyDigest (src/policy.ts)
  unfoldable pub compute_compiled_policy_digest : PolicyBody → Digest
  compute_compiled_policy_digest policy = host.digest (Document.policy_body policy)
