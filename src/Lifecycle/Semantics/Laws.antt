-- ===== src/Lifecycle/Semantics/Laws.antt =====
-- What the semantic checks of a snapshot establish, against a valid graph.
use hyperfinite.Common.{
  true, false, not, ◌≡◌, refl, sym, ap, ◌∙◌, Option, none, some, [], is_some, reports-nil,
  append-nil_inv, eq_of_test_ne, arith, bool_eq,
}
use hyperfinite.Types.Lifecycle.{
  LifecycleState, LifecycleStateDefinition, LifecycleGraph, LifecycleState-eq, PhaseOwner-eq,
}
use hyperfinite.Types.Snapshot.{KernelSnapshot}
use hyperfinite.Lifecycle.{
  state_invariants, allows_null_phase_authority, retained_state, is_retainable_owner,
}
use hyperfinite.Lifecycle.Graph.{find_state, cannot_be_retained, validate_lifecycle_graph}
use hyperfinite.Lifecycle.Graph.Laws.{find_state-IsConventional}
use hyperfinite.Lifecycle.Semantics.{
  retains_state, retained_errors, declared_checks, declared_errors,
  validate_snapshot_lifecycle_semantics,
}

-- What a state retains: nothing unless it is paused or blocked, else a state of an active phase.
abbrev pub IsRetained : LifecycleState → Option LifecycleState → Type 0
IsRetained state none = retains_state state ≡ false
IsRetained state (some s) = is_retainable_owner (state_invariants s).phase_owner ≡ true

pub record IsCoherent (s : KernelSnapshot) : Type 0 where
  pub owner : s.phase_owner ≡ (state_invariants s.state).phase_owner
  pub paired : is_some s.phase_contract_digest ≡ is_some s.compiled_policy_digest
  pub authority : is_some s.phase_contract_digest ≡ not (allows_null_phase_authority s.state)
  pub retained : IsRetained s.state (retained_state s.state s.suspended_state s.recovery_state)

module _ (graph : LifecycleGraph) (valid : validate_lifecycle_graph graph ≡ []) where
  retainable-of_found :
      (id : LifecycleState) (found : Option LifecycleStateDefinition)
      → find_state id graph.states ≡ found
      → cannot_be_retained found ≡ false
      → is_retainable_owner (state_invariants id).phase_owner ≡ true
  unfolding cannot_be_retained
  retainable-of_found id none h can = cc
  retainable-of_found id (some d) h can =
      let (c, e) = find_state-IsConventional graph id d valid h in
      let kept = ap (λ i. is_retainable_owner (state_invariants i).phase_owner) (sym e) in
      let owner = ap is_retainable_owner (sym c.owner) in kept ∙ owner ∙ ground arith

  retained_errors-IsRetained :
      (state : LifecycleState) (retained : Option LifecycleState)
      → retained_errors state retained graph.states ≡ []
      → IsRetained state retained
  unfolding retained_errors
  retained_errors-IsRetained state none h = ground arith
  retained_errors-IsRetained state (some s) h =
      retainable-of_found s (find_state s graph.states) refl (ground arith)

  declared_errors-IsCoherent :
      (s : KernelSnapshot) (found : Option LifecycleStateDefinition)
      → find_state s.state graph.states ≡ found
      → declared_errors s found graph ≡ []
      → IsCoherent s
  unfolding declared_errors
  declared_errors-IsCoherent s none h errors = cc
  declared_errors-IsCoherent s (some d) h errors =
      let (checks, retained) = append-nil_inv _ _ errors in
      let facts = reports-nil (declared_checks s d) checks in
      let (c, e) = find_state-IsConventional graph s.state d valid h in
      let required = facts.1.1.0 in
      let forbidden = facts.1.1.1.0 in
      record {
        owner = eq_of_test_ne facts.0 ∙ c.owner ∙ ap (λ i. (state_invariants i).phase_owner) e;
        paired = eq_of_test_ne facts.1.0;
        authority = ground arith;
        retained = retained_errors-IsRetained s.state _ retained;
      }

  -- Against a valid graph, a snapshot without semantic errors is coherent: its owner is its
  -- state's, it has phase authority exactly outside the states that go without, its contract and
  -- compiled policy come together, and a paused or blocked state retains one of an active phase.
  pub valid_snapshot-IsCoherent :
      (s : KernelSnapshot) → validate_snapshot_lifecycle_semantics s graph ≡ [] → IsCoherent s
  unfolding validate_snapshot_lifecycle_semantics
  valid_snapshot-IsCoherent s errors =
      declared_errors-IsCoherent s (find_state s.state graph.states) refl errors
