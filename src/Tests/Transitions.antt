-- ===== src/Tests/Transitions.antt =====
-- Instances of the theorems on one transition: the approved activation of the small lifecycle.
use hyperfinite.Common.{
  ℕ, ◌+◌, ◌≡◌, ◌≢◌, refl, sym, Option, none, some, true, false, Memᴰ, own_value, includes, not,
  ne_of_test, string_eq,
}
use hyperfinite.Types.Lifecycle.{ActivePhaseOwner, LifecycleState, ActorClass-eq}
use hyperfinite.Types.Policy.{CompiledPolicy}
use hyperfinite.Types.Event.{EventEnvelope, AuthorityRebind, ActivationLease, HumanGateEvidence}
use hyperfinite.Types.Snapshot.{
  KernelSnapshot, RefusalCode, Recovery, KernelResult, applied, noop, refused,
}
use hyperfinite.Host.{Document}
use hyperfinite.Lifecycle.{
  is_cost_bearing_state, active_phase_of, allows_null_phase_authority, is_terminal_state,
}
use hyperfinite.Lifecycle.Semantics.Laws.{IsCoherent}
use hyperfinite.Authorization.{authorize_identity}
use hyperfinite.Authorization.Laws.{IsOwnEvidence}
use hyperfinite.Outcome.{IsKept, refusal}
use hyperfinite.Kernel.{PhaseAuthority}
use hyperfinite.Kernel.Boundary.{check_schemas}
use hyperfinite.Kernel.Resolution.{current_authority, destination_authority}
use hyperfinite.Kernel.Rebind.{validate_authority_rebind}
use hyperfinite.Kernel.Accounting.{effective_budget}
use hyperfinite.Kernel.Transition.{effective_policy, evaluate_transition}
use hyperfinite.Kernel.Transition.Unchanged.{unapplied_keeps_snapshot}
use hyperfinite.Kernel.Transition.Progress.{Progress, applied-Progress, terminal_absorbs}
use hyperfinite.Kernel.Transition.Budgets.{WithinBudget, WithinLease}
use hyperfinite.Kernel.Transition.Ceilings.{
  PhaseBudget, applied-WithinBudget, applied-WithinLease, applied-PhaseBudget,
}
use hyperfinite.Kernel.Transition.Replay.{replay-noop, replay-conflict}
use hyperfinite.Kernel.Transition.Linked.{IsLink, applied-IsLink}
use hyperfinite.Kernel.Transition.Rebound.{applied-keeps_binding}
use hyperfinite.Kernel.Transition.Coherent.{applied-IsCoherent}
use hyperfinite.Kernel.Transition.Leased.{Leases, applied-Leases}
use hyperfinite.Kernel.Transition.Actors.{gate_input, applied-actor, applied-IsOwnEvidence}
use hyperfinite.Tests.Fixture.{host, compiler, approve, activation_context}
use hyperfinite.Tests.Steps.{model, requested, activated, activated_applied}

-- An event out of order is refused.
abbrev stale : EventEnvelope
stale = record approve { payload = record approve.payload { sequence = 1 } }

abbrev out_of_order : KernelResult
out_of_order =
    refused
      (refusal RefusalCode.replay_out_of_order "replay.monotonic-sequence" false Recovery.reconcile)
      requested.snapshot

stale_refused :
    evaluate_transition host compiler requested.snapshot stale activation_context ≡ out_of_order
unfolding model hyperfinite.Common.ℕ_discrete
stale_refused = refl

unapplied_keeps_snapshot_example : IsKept requested.snapshot out_of_order
unapplied_keeps_snapshot_example =
    unapplied_keeps_snapshot host requested.snapshot stale activation_context compiler out_of_order
      stale_refused

applied-Progress_example : Progress activation_context requested.snapshot approve activated
applied-Progress_example =
    applied-Progress host compiler requested.snapshot approve activation_context activated
      activated_applied

abbrev cancelled : KernelSnapshot
cancelled = record activated.snapshot { state = LifecycleState.cancelled }

cancelled_ends : is_terminal_state cancelled.state ≡ true
unfolding is_terminal_state
cancelled_ends = refl

terminal_absorbs_example :
    evaluate_transition host compiler cancelled approve activation_context ≢ applied activated
terminal_absorbs_example =
    terminal_absorbs host compiler cancelled approve activation_context activated cancelled_ends

applied-WithinBudget_example :
    (rebind : Option AuthorityRebind) × (validate_authority_rebind host compiler requested.snapshot
        approve activation_context
      ≡ applied rebind)
    × WithinBudget activated.snapshot.usage (effective_budget activation_context rebind)
applied-WithinBudget_example =
    applied-WithinBudget host compiler requested.snapshot approve activation_context activated
      activated_applied

framing_costs : is_cost_bearing_state activated.route.to ≡ true
unfolding is_cost_bearing_state
framing_costs = refl

applied-WithinLease_example :
    (l : ActivationLease) × (activation_context.activation_lease ≡ some l)
    × WithinLease activated.snapshot.usage l
applied-WithinLease_example =
    applied-WithinLease host compiler requested.snapshot approve activation_context activated
      activated_applied framing_costs

pending_is_free : is_cost_bearing_state requested.route.to ≡ false
unfolding is_cost_bearing_state
pending_is_free = refl

applied-PhaseBudget_example :
    (current destination : Option PhaseAuthority) × (current_authority host compiler
        requested.snapshot activation_context
        (not (allows_null_phase_authority requested.snapshot.state))
      ≡ applied current)
    × (destination_authority host compiler requested.snapshot activated.route current
          activation_context
        ≡ applied destination)
    × PhaseBudget current destination requested.snapshot approve activated.snapshot.phase_usage
applied-PhaseBudget_example =
    applied-PhaseBudget host compiler requested.snapshot approve activation_context activated
      activated_applied

approve_valid : check_schemas host activated.snapshot approve activation_context ≡ applied tt
unfolding model hyperfinite.Common.ℕ_discrete
approve_valid = refl

replay-noop_example :
    evaluate_transition host compiler activated.snapshot approve activation_context
    ≡ noop activated.receipt_digest activated.snapshot
replay-noop_example =
    replay-noop host compiler requested.snapshot approve activation_context activated
      activated_applied activation_context approve_valid

-- The identity of the approval, with another delivery.
abbrev forged : EventEnvelope
forged = record approve { payload = record approve.payload { delivery_id = "d3" } }

forged_valid : check_schemas host activated.snapshot forged activation_context ≡ applied tt
unfolding model hyperfinite.Common.ℕ_discrete
forged_valid = refl

forged_differs :
    host.digest (Document.kernel_event approve) ≢ host.digest (Document.kernel_event forged)
unfolding model hyperfinite.Common.ℕ_discrete
forged_differs = ne_of_test refl

replay-conflict_example :
    evaluate_transition host compiler activated.snapshot forged activation_context
    ≡ refused
        (refusal RefusalCode.replay_conflict "replay.event-identity" false Recovery.reconcile)
        activated.snapshot
replay-conflict_example =
    replay-conflict host compiler requested.snapshot approve activation_context activated
      activated_applied forged activation_context forged_valid refl forged_differs

applied-IsLink_example : IsLink host requested.snapshot activated.receipt activated.snapshot
applied-IsLink_example =
    applied-IsLink host compiler requested.snapshot approve activation_context activated
      activated_applied

applied-keeps_binding_example :
    activated.snapshot.binding_digest ≡ requested.snapshot.binding_digest
applied-keeps_binding_example =
    applied-keeps_binding host compiler requested.snapshot approve activation_context activated
      activated_applied

applied-IsCoherent_example : IsCoherent activated.snapshot
applied-IsCoherent_example =
    applied-IsCoherent host compiler requested.snapshot approve activation_context activated
      activated_applied

framing_is_active : active_phase_of activated.route.phase_owner ≡ some ActivePhaseOwner.framing
unfolding active_phase_of
framing_is_active = refl

applied-Leases_example :
    (current destination : Option PhaseAuthority) × (destination_authority host compiler
        requested.snapshot activated.route current activation_context
      ≡ applied destination)
    × (compiled : CompiledPolicy) × (lease : ActivationLease) × (effective_policy current
          destination
        ≡ some compiled)
    × Leases host requested.snapshot activation_context ActivePhaseOwner.framing compiled lease
applied-Leases_example =
    applied-Leases host compiler requested.snapshot approve activation_context activated
      ActivePhaseOwner.framing activated_applied framing_is_active

applied-actor_example :
    (includes activated.route.actor_classes approve.actor.actor_class ≡ true)
    × (authorize_identity activation_context.policy approve.actor ≡ none)
applied-actor_example =
    applied-actor host compiler requested.snapshot approve activation_context activated
      activated_applied

applied-IsOwnEvidence_example :
    (e : HumanGateEvidence) × Memᴰ e activation_context.human_gate_evidence
    × IsOwnEvidence host
        (gate_input host requested.snapshot approve activation_context "activate")
        approve.actor
        e
applied-IsOwnEvidence_example =
    applied-IsOwnEvidence host compiler requested.snapshot approve activation_context activated
      activated_applied "activate" refl
