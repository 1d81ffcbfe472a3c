-- ===== src/Tests/Graphs.antt =====
-- Instances of the theorems on graphs, selection, snapshots and evidence.
use hyperfinite.Common.{
  ◌≡◌, ◌≢◌, ◌↔◌, refl, Option, none, some, true, false, List, [], ◌∷◌, Memᴰ, filter,
}
use hyperfinite.Types.Lifecycle.{LifecycleState, PhaseOwner, EventType}
use hyperfinite.Types.Event.{HumanGateEvidence}
use hyperfinite.Types.Snapshot.{KernelSnapshot}
use hyperfinite.Lifecycle.Graph.{validate_lifecycle_graph, may_fork}
use hyperfinite.Lifecycle.Graph.Laws.{IsLawful, valid_graph-IsLawful}
use hyperfinite.Lifecycle.Selection.{RouteSelection, select_route}
use hyperfinite.Lifecycle.Selection.Unique.{select_route-ne-ambiguous}
use hyperfinite.Lifecycle.Semantics.{validate_snapshot_lifecycle_semantics}
use hyperfinite.Authorization.{
  GateInput, is_gate_candidate, validate_human_gate_evidence, authorize_human_gate,
}
use hyperfinite.Authorization.Laws.{authorize_human_gate-none_iff}
use hyperfinite.Kernel.Transition.Actors.{gate_input}
use hyperfinite.Tests.Fixture.{
  host, graph, activate_route, resume_route, approval, approve, activation_context,
}
use hyperfinite.Tests.Steps.{model, requested, activated}

graph_valid : validate_lifecycle_graph graph ≡ []
unfolding model hyperfinite.Common.ℕ_discrete
graph_valid = refl

valid_graph-IsLawful_example : IsLawful activate_route
valid_graph-IsLawful_example =
    valid_graph-IsLawful graph activate_route graph_valid (Memᴰ.tail (Memᴰ.head refl))

resumed :
    select_route graph LifecycleState.paused EventType.resume_requested
      (some LifecycleState.framing)
      none
    ≡ RouteSelection.selected resume_route
unfolding model
resumed = refl

unforked : may_fork LifecycleState.captured EventType.activation_requested ≡ false
unfolding model
unforked = refl

select_route-ne-ambiguous_example :
    select_route graph LifecycleState.captured EventType.activation_requested none none
    ≢ RouteSelection.ambiguous
select_route-ne-ambiguous_example =
    select_route-ne-ambiguous graph LifecycleState.captured EventType.activation_requested none none
      graph_valid unforked

abbrev paused : KernelSnapshot
paused = record activated.snapshot {
  state = LifecycleState.paused;
  phase_owner = PhaseOwner.kernel;
  suspended_state = some LifecycleState.framing;
}

paused_valid : validate_snapshot_lifecycle_semantics paused graph ≡ []
unfolding model
paused_valid = refl

abbrev asked : GateInput
asked = gate_input host requested.snapshot approve activation_context "activate"

authorize_human_gate-none_iff_example : (authorize_human_gate host asked ≡ none) ↔ (
    (e : HumanGateEvidence) × Memᴰ e asked.gate_evidence
    × (is_gate_candidate asked e ≡ true)
    × (validate_human_gate_evidence host asked e ≡ none))
authorize_human_gate-none_iff_example = authorize_human_gate-none_iff host asked

approval_valid : validate_human_gate_evidence host asked approval ≡ none
unfolding model hyperfinite.Common.ℕ_discrete
approval_valid = refl
