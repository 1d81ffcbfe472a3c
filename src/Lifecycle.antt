-- ===== src/Lifecycle.antt =====
-- The conventional lifecycle (src/lifecycle.ts): state invariants and route classification.
-- Validation of a graph and of a snapshot, and route selection, are child modules.
pub mod Graph
pub mod Semantics
pub mod Selection
use hyperfinite.Common.{Bool, true, false, ◌||◌, Option, none, some, ◌==◌, if◌then◌else◌}
use hyperfinite.Types.Lifecycle.{
  LifecycleState, PhaseOwner, ActivePhaseOwner, EventType, LifecycleRoute, LifecycleState-eq,
  ActivePhaseOwner-eq,
}

pub record StateInvariant : Type 0 where
  pub phase_owner : PhaseOwner
  pub cost_bearing : Bool
  pub terminal : Bool

abbrev invariant : PhaseOwner → Bool → Bool → StateInvariant
invariant owner cost ends = record { phase_owner = owner; cost_bearing = cost; terminal = ends }

-- STATE_INVARIANTS
unfoldable pub state_invariants : LifecycleState → StateInvariant
state_invariants LifecycleState.captured = invariant PhaseOwner.intake false false
state_invariants LifecycleState.activation_pending = invariant PhaseOwner.kernel false false
state_invariants LifecycleState.framing = invariant PhaseOwner.framing true false
state_invariants LifecycleState.planned = invariant PhaseOwner.planning false false
state_invariants LifecycleState.executing = invariant PhaseOwner.execution true false
state_invariants LifecycleState.verifying = invariant PhaseOwner.verification true false
state_invariants LifecycleState.human_review = invariant PhaseOwner.human_review false false
state_invariants LifecycleState.completed = invariant PhaseOwner.kernel false true
state_invariants LifecycleState.paused = invariant PhaseOwner.kernel false false
state_invariants LifecycleState.blocked = invariant PhaseOwner.kernel false false
state_invariants LifecycleState.cancelled = invariant PhaseOwner.kernel false true

-- TERMINAL_STATES
unfoldable pub is_terminal_state : LifecycleState → Bool
is_terminal_state LifecycleState.completed = true
is_terminal_state LifecycleState.cancelled = true
is_terminal_state _ = false

-- KERNEL_SAFETY_DESTINATIONS
unfoldable pub safety_destination : EventType → Option LifecycleState
safety_destination EventType.cancel_requested = some LifecycleState.cancelled
safety_destination EventType.pause_requested = some LifecycleState.paused
safety_destination EventType.dependency_blocked = some LifecycleState.blocked
safety_destination EventType.partial_effect_recorded = some LifecycleState.blocked
safety_destination EventType.authorization_invalidated = some LifecycleState.activation_pending
safety_destination _ = none

pub data RouteAuthorityClass : Type 0 where
  active_phase kernel_safety kernel_control : RouteAuthorityClass

-- The active phase that an owner is, if it is one.
unfoldable pub active_phase_of : PhaseOwner → Option ActivePhaseOwner
active_phase_of PhaseOwner.intake = none
active_phase_of PhaseOwner.framing = some ActivePhaseOwner.framing
active_phase_of PhaseOwner.planning = some ActivePhaseOwner.planning
active_phase_of PhaseOwner.execution = some ActivePhaseOwner.execution
active_phase_of PhaseOwner.verification = some ActivePhaseOwner.verification
active_phase_of PhaseOwner.human_review = some ActivePhaseOwner.human_review
active_phase_of PhaseOwner.kernel = none

unfoldable pub is_active_phase_owner : PhaseOwner → Bool
is_active_phase_owner PhaseOwner.intake = false
is_active_phase_owner PhaseOwner.kernel = false
is_active_phase_owner _ = true

-- `ActivePhaseOwner` is a subtype of `PhaseOwner`.
unfoldable pub phase_owner_of : ActivePhaseOwner → PhaseOwner
phase_owner_of ActivePhaseOwner.framing = PhaseOwner.framing
phase_owner_of ActivePhaseOwner.planning = PhaseOwner.planning
phase_owner_of ActivePhaseOwner.execution = PhaseOwner.execution
phase_owner_of ActivePhaseOwner.verification = PhaseOwner.verification
phase_owner_of ActivePhaseOwner.human_review = PhaseOwner.human_review

unfoldable pub is_cost_bearing_state : LifecycleState → Bool
unfolding state_invariants
is_cost_bearing_state s = (state_invariants s).cost_bearing

unfoldable pub is_cost_bearing_phase_owner : ActivePhaseOwner → Bool
is_cost_bearing_phase_owner owner =
    owner == ActivePhaseOwner.framing
    || owner == ActivePhaseOwner.execution
    || owner == ActivePhaseOwner.verification

-- NULL_AUTHORITY_STATES
unfoldable pub allows_null_phase_authority : LifecycleState → Bool
allows_null_phase_authority LifecycleState.captured = true
allows_null_phase_authority LifecycleState.activation_pending = true
allows_null_phase_authority LifecycleState.cancelled = true
allows_null_phase_authority _ = false

-- `KERNEL_SAFETY_DESTINATIONS[event] === to`: false where the event has no entry.
unfoldable pub is_safety_entry : EventType → LifecycleState → Bool
unfolding safety_destination
is_safety_entry event to = elim (safety_destination event) [ none ↦ false | some s ↦ s == to ]

unfoldable pub classify_route_authority : LifecycleRoute → RouteAuthorityClass
unfolding is_active_phase_owner is_safety_entry
classify_route_authority route =
    if is_active_phase_owner route.phase_owner
    then RouteAuthorityClass.active_phase
    else if is_safety_entry route.event route.to
    then RouteAuthorityClass.kernel_safety
    else RouteAuthorityClass.kernel_control

-- `state === "PAUSED" ? suspended : state === "BLOCKED" ? recovery : null`
unfoldable pub retained_state :
    LifecycleState → (suspended recovery : Option LifecycleState) → Option LifecycleState
retained_state LifecycleState.paused suspended recovery = suspended
retained_state LifecycleState.blocked suspended recovery = recovery
retained_state _ suspended recovery = none

-- An owner outside the kernel and the intake.
unfoldable pub is_retainable_owner : PhaseOwner → Bool
is_retainable_owner PhaseOwner.kernel = false
is_retainable_owner PhaseOwner.intake = false
is_retainable_owner _ = true
