-- ===== src/Lifecycle/Semantics.antt =====
-- `validateSnapshotLifecycleSemantics` (src/lifecycle.ts).
pub mod Laws
use hyperfinite.Common.{
  Bool, true, false, not, ◌&&◌, ◌||◌, Option, none, some, List, [], ◌∷◌, ◌++◌, is_some, reports,
  ◌==◌, ◌!=◌, if◌then◌else◌, bool_eq,
}
use hyperfinite.Types.Lifecycle.{
  LifecycleState, PhaseOwner, LifecycleStateDefinition, LifecycleGraph, LifecycleState-eq,
  PhaseOwner-eq,
}
use hyperfinite.Types.Snapshot.{KernelSnapshot}
use hyperfinite.Lifecycle.{allows_null_phase_authority, retained_state}
use hyperfinite.Lifecycle.Graph.{find_state, cannot_be_retained}

pub data SnapshotLifecycleError : Type 0 where
  undeclared_state owner_mismatch half_bound authority_required : SnapshotLifecycleError
  authority_forbidden retained_missing retained_inactive : SnapshotLifecycleError

unfoldable pub retains_state : LifecycleState → Bool
retains_state state = state == LifecycleState.paused || state == LifecycleState.blocked

-- The last check: what a paused or blocked snapshot retains.
unfoldable pub retained_errors :
    LifecycleState
    → Option LifecycleState
    → List LifecycleStateDefinition
    → List SnapshotLifecycleError
unfolding retains_state
retained_errors state none states =
    if retains_state state then SnapshotLifecycleError.retained_missing ∷ [] else []
retained_errors state (some retained) states =
    if cannot_be_retained (find_state retained states)
    then SnapshotLifecycleError.retained_inactive ∷ []
    else []

-- The checks of a snapshot against its state's definition.
abbrev pub declared_checks :
    KernelSnapshot → LifecycleStateDefinition → List (Bool × SnapshotLifecycleError)
declared_checks snapshot state =
    let has_contract = is_some snapshot.phase_contract_digest in
    let has_policy = is_some snapshot.compiled_policy_digest in
    let allows_null = allows_null_phase_authority snapshot.state in
    (snapshot.phase_owner != state.phase_owner, SnapshotLifecycleError.owner_mismatch)
    ∷ (has_contract != has_policy, SnapshotLifecycleError.half_bound)
    ∷ (not has_contract && not allows_null, SnapshotLifecycleError.authority_required)
    ∷ (has_contract && allows_null, SnapshotLifecycleError.authority_forbidden)
    ∷ []

-- By `graph.states.find(...)` for the snapshot's state.
unfoldable pub declared_errors :
    KernelSnapshot → Option LifecycleStateDefinition → LifecycleGraph → List SnapshotLifecycleError
declared_errors snapshot none graph = SnapshotLifecycleError.undeclared_state ∷ []
declared_errors snapshot (some state) graph =
    reports (declared_checks snapshot state)
    ++ retained_errors snapshot.state
        (retained_state snapshot.state snapshot.suspended_state snapshot.recovery_state)
        graph.states

unfoldable pub validate_snapshot_lifecycle_semantics :
    KernelSnapshot → LifecycleGraph → List SnapshotLifecycleError
validate_snapshot_lifecycle_semantics snapshot graph =
    declared_errors snapshot (find_state snapshot.state graph.states) graph
