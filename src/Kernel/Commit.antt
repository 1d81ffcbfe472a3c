-- ===== src/Kernel/Commit.antt =====
-- The end of `evaluateTransition`: the effects, the receipt, the next snapshot and its validity.
use hyperfinite.Common.{
  ℕ, String, false, not, ◌&&◌, ◌||◌, Option, none, some, List, [], ◌∷◌, ◌++◌, is_some, is_empty,
  with_entry, ◌==◌, if◌then◌else◌,
}
use hyperfinite.Types.Lifecycle.{
  LifecycleState, EventType, LifecycleRoute, LifecycleGraph, event_type_name, LifecycleState-eq,
  EventType-eq,
}
use hyperfinite.Types.Accord.{Digest}
use hyperfinite.Types.Event.{EventEnvelope, AuthorityRebind}
use hyperfinite.Types.Snapshot.{
  KernelSnapshot, KernelEffect, TransitionReceipt, RefusalCode, Recovery, applied, KernelResult,
}
use hyperfinite.Host.{Host, Document, compute_compiled_policy_digest}
use hyperfinite.Lifecycle.{active_phase_of}
use hyperfinite.Lifecycle.Semantics.{validate_snapshot_lifecycle_semantics}
use hyperfinite.Outcome.{◌>>◌, refusal, refuse_when}
use hyperfinite.Kernel.{KernelContext, PhaseAuthority, safe_add}
use hyperfinite.Kernel.Guards.{route_attempt_count}
use hyperfinite.Kernel.Accounting.{Totals}

unfoldable pub phase_effects : Option PhaseAuthority → LifecycleRoute → List KernelEffect
phase_effects none route = []
phase_effects (some destination) route = elim (active_phase_of route.phase_owner) [
  | none ↦ []
  | some phase ↦ KernelEffect.enter_phase phase destination.compiled.capabilities ∷ []
]

unfoldable pub effects_of :
    EventEnvelope → Option PhaseAuthority → LifecycleRoute → List KernelEffect
unfolding phase_effects
effects_of event destination route =
    KernelEffect.emit_receipt event.id
    ∷ (phase_effects destination route
        ++ (if event.event_type == EventType.dependency_blocked
              || event.event_type == EventType.partial_effect_recorded
            then KernelEffect.request_reconciliation (event_type_name event.event_type) ∷ []
            else []))

-- `route.to === keeper ? route.from : route.from === keeper ? null : retained`
unfoldable pub next_retained :
    (keeper : LifecycleState) → LifecycleRoute → Option LifecycleState → Option LifecycleState
next_retained keeper route retained =
    if route.to == keeper then some route.from else if route.from == keeper then none else retained

-- What the destination binds: the replacement's digests, or the snapshot's.
pub record Destination : Type 0 where
  pub binding_digest : Digest
  pub lifecycle_graph_digest : Digest
  pub work_accord_digest : Digest
  pub capability_registry_digest : Digest
  pub domain_pack_digest : Digest
  pub policy_digest : Digest
  pub current_head : Option Digest
  pub graph : LifecycleGraph

module _ (host : Host) where
  unfoldable pub destination_of :
      KernelSnapshot → KernelContext → Option AuthorityRebind → Destination
  destination_of snapshot context none = record {
    binding_digest = snapshot.binding_digest;
    lifecycle_graph_digest = snapshot.lifecycle_graph_digest;
    work_accord_digest = snapshot.work_accord_digest;
    capability_registry_digest = snapshot.capability_registry_digest;
    domain_pack_digest = snapshot.domain_pack_digest;
    policy_digest = snapshot.policy_digest;
    current_head = snapshot.current_head;
    graph = context.graph;
  }
  destination_of snapshot context (some rebind) = record {
    binding_digest = rebind.binding_digest;
    lifecycle_graph_digest = host.digest (Document.lifecycle_graph rebind.graph);
    work_accord_digest = host.digest (Document.work_accord rebind.work_accord);
    capability_registry_digest = host.digest (Document.capability_registry rebind.registry);
    domain_pack_digest = host.digest (Document.domain_pack_policy rebind.domain_pack);
    policy_digest = host.digest (Document.control_policy rebind.policy);
    current_head = rebind.work_accord.binding.current_head;
    graph = rebind.graph;
  }

  abbrev contract_digest_of : Option PhaseAuthority → Option Digest
  contract_digest_of none = none
  contract_digest_of (some authority) =
      some (host.digest (Document.phase_contract authority.contract))

  abbrev compiled_digest_of : Option PhaseAuthority → Option Digest
  compiled_digest_of none = none
  compiled_digest_of (some authority) =
      some (compute_compiled_policy_digest host authority.compiled.body)

  unfoldable pub idempotency_key_of : KernelSnapshot → EventEnvelope → LifecycleRoute → Digest
  idempotency_key_of snapshot event route = host.digest (
      Document.idempotency_input (record {
        binding_digest = snapshot.binding_digest;
        event_id = event.id;
        lifecycle_graph_digest = snapshot.lifecycle_graph_digest;
        replacement_authority_digest = event.replacement_authority_digest;
        work_accord_digest = snapshot.work_accord_digest;
        route_id = route.id;
        state_version = snapshot.state_version;
      }))

  unfoldable pub receipt_of :
      KernelSnapshot
      → EventEnvelope
      → LifecycleRoute
      → Option PhaseAuthority
      → Destination
      → Totals
      → TransitionReceipt
  unfolding idempotency_key_of effects_of
  receipt_of snapshot event route authority bound totals = record {
    schema_version = "1.0.0";
    event_id = event.id;
    event_digest = host.digest (Document.kernel_event event);
    route_id = route.id;
    route_version = route.version;
    from = route.from;
    to = route.to;
    state_version = totals.state_version;
    previous_receipt = snapshot.receipt_head;
    idempotency_key = idempotency_key_of snapshot event route;
    replacement_authority_digest = event.replacement_authority_digest;
    binding_digest = snapshot.binding_digest;
    lifecycle_graph_digest = snapshot.lifecycle_graph_digest;
    work_accord_digest = snapshot.work_accord_digest;
    capability_registry_digest = snapshot.capability_registry_digest;
    domain_pack_digest = snapshot.domain_pack_digest;
    destination_binding_digest = bound.binding_digest;
    destination_lifecycle_graph_digest = bound.lifecycle_graph_digest;
    destination_work_accord_digest = bound.work_accord_digest;
    destination_capability_registry_digest = bound.capability_registry_digest;
    destination_domain_pack_digest = bound.domain_pack_digest;
    source_phase_contract_digest = snapshot.phase_contract_digest;
    source_compiled_policy_digest = snapshot.compiled_policy_digest;
    destination_phase_contract_digest = contract_digest_of authority;
    destination_compiled_policy_digest = compiled_digest_of authority;
    policy_digest = snapshot.policy_digest;
    destination_policy_digest = bound.policy_digest;
    actor_id = event.actor.id;
    actor_authorization_digest = event.actor.authorization_digest;
    occurred_at = event.occurred_at;
    effect_plan_digest = host.digest (Document.effect_plan (effects_of event authority route));
  }

  -- `{ ...routeAttempts, [route.id]: nextAttempt }` for a retryable route.
  unfoldable pub next_attempts : KernelSnapshot → LifecycleRoute → Option ℕ → List (String × ℕ)
  next_attempts snapshot route none = snapshot.route_attempts
  next_attempts snapshot route (some attempts) =
      with_entry route.id attempts snapshot.route_attempts

  unfoldable pub next_snapshot :
      KernelSnapshot
      → EventEnvelope
      → LifecycleRoute
      → Option PhaseAuthority
      → Destination
      → Totals
      → (receipt_digest : Digest) (next_attempt : Option ℕ) → KernelSnapshot
  unfolding next_retained next_attempts idempotency_key_of
  next_snapshot snapshot event route authority bound totals receipt_digest next_attempt =
      record snapshot {
        state = route.to;
        phase_owner = route.phase_owner;
        state_version = totals.state_version;
        last_event_sequence = event.sequence;
        binding_digest = bound.binding_digest;
        work_accord_digest = bound.work_accord_digest;
        capability_registry_digest = bound.capability_registry_digest;
        domain_pack_digest = bound.domain_pack_digest;
        policy_digest = bound.policy_digest;
        lifecycle_graph_digest = bound.lifecycle_graph_digest;
        current_head = bound.current_head;
        phase_contract_digest = contract_digest_of authority;
        compiled_policy_digest = compiled_digest_of authority;
        receipt_head = some receipt_digest;
        suspended_state = next_retained LifecycleState.paused route snapshot.suspended_state;
        recovery_state = next_retained LifecycleState.blocked route snapshot.recovery_state;
        usage = totals.usage;
        phase_usage = totals.phase_usage;
        route_attempts = next_attempts snapshot route next_attempt;
        processed_events =
            with_entry event.id
              (record {
                event_digest = host.digest (Document.kernel_event event);
                receipt_digest = receipt_digest;
                idempotency_key = idempotency_key_of snapshot event route;
                delivery_id = event.delivery_id;
              })
              snapshot.processed_events;
      }

  unfoldable pub commit :
      KernelSnapshot
      → EventEnvelope
      → LifecycleRoute
      → Option PhaseAuthority
      → Option AuthorityRebind
      → Totals
      → KernelContext
      → KernelResult
  unfolding destination_of receipt_of next_snapshot
  commit snapshot event route authority rebind totals context = do
    let bound = destination_of snapshot context rebind
    let receipt = receipt_of snapshot event route authority bound totals
    let receipt_digest = host.digest (Document.transition_receipt receipt)
    let next_attempt =
        if route.retryable then safe_add (route_attempt_count snapshot route.id) 1 else none
    let next = next_snapshot snapshot event route authority bound totals receipt_digest next_attempt
    refuse_when (route.retryable && not (is_some next_attempt)) snapshot
        (refusal RefusalCode.numeric_overflow "number.safe-integer" false Recovery.reconcile)
    refuse_when
        (is_some (host.schema_errors (Document.kernel_snapshot next))
          || not (is_empty (validate_snapshot_lifecycle_semantics next bound.graph)))
        snapshot
        (refusal RefusalCode.graph_invalid "snapshot.next-validity" false Recovery.reconcile)
    applied (record {
      route = route;
      snapshot = next;
      receipt = receipt;
      receipt_digest = receipt_digest;
      effects = effects_of event authority route;
    })
