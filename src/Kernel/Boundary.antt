-- ===== src/Kernel/Boundary.antt =====
-- The first checks of `evaluateTransition`: schemas, replay, and the event's envelope.
use hyperfinite.Common.{
  String, Bool, true, false, not, ◌||◌, Option, none, some, List, [], ◌∷◌, ◌++◌, map, any, is_some,
  is_empty, own_value, leb, ◌==◌, ◌!=◌, if◌then◌else◌, string_eq, nat_eq,
}
use hyperfinite.Types.Policy.{PhaseContract}
use hyperfinite.Types.Event.{EventEnvelope, AuthorityRebind, ActivationLease}
use hyperfinite.Types.Snapshot.{
  ProcessedEvent, KernelSnapshot, RefusalCode, Recovery, KernelRefusal, Outcome, applied, noop,
  refused,
}
use hyperfinite.Host.{Host, Document, date_gt, work_accord_binding_digest, event_payload_digest}
use hyperfinite.DateTime.{is_canonical_utc_date_time}
use hyperfinite.Outcome.{◌>>◌, refusal, refuse_when, guards}
use hyperfinite.Kernel.{KernelContext}

abbrev contract_documents : Option PhaseContract → List Document
contract_documents none = []
contract_documents (some contract) = Document.phase_contract contract ∷ []

abbrev lease_documents : Option ActivationLease → List Document
lease_documents none = []
lease_documents (some lease) = Document.activation_lease lease ∷ []

abbrev rebind_documents : Option AuthorityRebind → List Document
rebind_documents none = []
rebind_documents (some rebind) =
    Document.authority_rebind rebind
    ∷ Document.lifecycle_graph rebind.graph
    ∷ Document.work_accord rebind.work_accord
    ∷ Document.control_policy rebind.policy
    ∷ Document.capability_registry rebind.registry
    ∷ Document.domain_pack_policy rebind.domain_pack
    ∷ map Document.phase_contract rebind.phase_contracts

-- The values of `schemaChecks`, in their order.
unfoldable pub schema_checks : KernelSnapshot → KernelContext → List Document
schema_checks snapshot context =
    (Document.kernel_snapshot snapshot
      ∷ Document.lifecycle_graph context.graph
      ∷ Document.work_accord context.work_accord
      ∷ Document.control_policy context.policy
      ∷ Document.capability_registry context.registry
      ∷ Document.domain_pack_policy context.domain_pack
      ∷ [])
    ++ (map Document.human_gate_evidence context.human_gate_evidence
        ++ (map Document.contract_requirement_evidence context.contract_requirement_evidence
            ++ (contract_documents context.current_phase_contract
                ++ (contract_documents context.destination_phase_contract
                    ++ (lease_documents context.activation_lease
                        ++ rebind_documents context.rebind_authority)))))

abbrev pub errors_of : Option (List String) → List String
errors_of none = []
errors_of (some errors) = errors

-- `values.some((prior) => prior.deliveryId === deliveryId)`
abbrev pub has_delivery : String → List (String × ProcessedEvent) → Bool
has_delivery delivery_id events = any (λ entry. entry.1.delivery_id == delivery_id) events

module _ (host : Host) where
  unfoldable pub schema_errors : List Document → List String
  schema_errors [] = []
  schema_errors (d ∷ documents) = errors_of (host.schema_errors d) ++ schema_errors documents

  abbrev pub rebind_is_invalid : Option AuthorityRebind → Bool
  rebind_is_invalid none = false
  rebind_is_invalid (some rebind) = is_some (host.schema_errors (Document.authority_rebind rebind))

  -- The values of the model are JSON data, so `structuredClone` and `nonJsonValuePath` find nothing.
  unfoldable pub check_schemas : KernelSnapshot → EventEnvelope → KernelContext → Outcome (Unit {0})
  unfolding schema_checks schema_errors
  check_schemas snapshot event context = do
    let closed = refusal RefusalCode.schema_invalid "boundary.closed-schema" false Recovery.nothing
    let event_errors = host.schema_errors (Document.kernel_event event)
    refuse_when (rebind_is_invalid context.rebind_authority) snapshot closed
    refuse_when
        (not (is_empty (schema_errors (schema_checks snapshot context) ++ errors_of event_errors)))
        snapshot closed
    refuse_when (is_some event_errors) snapshot closed

  -- A known event identity: the same content again is a noop, other content a refusal.
  unfoldable pub replay_of :
      Option ProcessedEvent → KernelSnapshot → EventEnvelope → Outcome (Unit {0})
  replay_of none snapshot event = applied tt
  replay_of (some processed) snapshot event =
      if processed.event_digest == host.digest (Document.kernel_event event)
      then noop processed.receipt_digest snapshot
      else refused
          (refusal RefusalCode.replay_conflict "replay.event-identity" false Recovery.reconcile)
          snapshot

  unfoldable pub check_replay : KernelSnapshot → EventEnvelope → Outcome (Unit {0})
  check_replay snapshot event =
      replay_of (own_value event.id snapshot.processed_events) snapshot event

  abbrev pub envelope_guards :
      KernelSnapshot → EventEnvelope → KernelContext → List (Bool × KernelRefusal)
  envelope_guards snapshot event context =
      let expected = work_accord_binding_digest host context.work_accord in
      (
        snapshot.binding_digest != expected,
        (refusal RefusalCode.contract_stale "binding.work-accord-target" false
            Recovery.new_contract),
      )
      ∷ (
        event.binding_digest != expected,
        (refusal RefusalCode.provenance_invalid "event.provenance-binding" false
            Recovery.reconcile),
      )
      ∷ (
        has_delivery event.delivery_id snapshot.processed_events,
        (refusal RefusalCode.replay_conflict "replay.delivery-identity" false Recovery.reconcile),
      )
      ∷ (
        event.expected_state_version != snapshot.state_version,
        (refusal RefusalCode.concurrency_conflict "concurrency.compare-and-swap" true
            Recovery.reconcile),
      )
      ∷ (
        not (is_canonical_utc_date_time context.evaluated_at)
            || date_gt (host.parse_date event.occurred_at) (host.parse_date context.evaluated_at),
        (refusal RefusalCode.provenance_invalid "event.observed-time" false Recovery.reconcile),
      )
      ∷ (
        leb event.sequence snapshot.last_event_sequence,
        (refusal RefusalCode.replay_out_of_order "replay.monotonic-sequence" false
            Recovery.reconcile),
      )
      ∷ (
        event.payload_digest != event_payload_digest host event,
        (refusal RefusalCode.provenance_invalid "event.provenance-binding" false
            Recovery.reconcile),
      )
      ∷ []

  -- The checks of the event against the snapshot, up to its payload digest.
  unfoldable pub check_envelope :
      KernelSnapshot → EventEnvelope → KernelContext → Outcome (Unit {0})
  check_envelope snapshot event context = guards snapshot (envelope_guards snapshot event context)
