-- ===== src/Kernel/Transition/Coherent.antt =====
-- The next snapshot of an applied transition, against the graph that it is bound to.
use hyperfinite.Common.{
  Bool, true, false, not, ◌||◌, ◌≡◌, refl, subst, Option, none, some, List, [], ◌∷◌, is_empty,
  arith, string_eq,
}
use hyperfinite.Types.Lifecycle.{LifecycleGraph}
use hyperfinite.Types.Event.{EventEnvelope, AuthorityRebind}
use hyperfinite.Types.Snapshot.{KernelSnapshot, Transition, applied}
use hyperfinite.Host.{Host}
use hyperfinite.Lifecycle.Graph.{validate_lifecycle_graph}
use hyperfinite.Lifecycle.Semantics.Laws.{IsCoherent, valid_snapshot-IsCoherent}
use hyperfinite.Policy.{PolicyCompiler}
use hyperfinite.Outcome.{applied_inj, >>-eq-applied, guards-eq-applied}
use hyperfinite.Kernel.{KernelContext}
use hyperfinite.Kernel.Rebind.{
  replacement_guards, check_replacement, rebind_for, validate_authority_rebind,
}
use hyperfinite.Kernel.Commit.{destination_of}
use hyperfinite.Kernel.Transition.{evaluate_transition}
use hyperfinite.Kernel.Transition.Effect.{passed, committed, graph_valid}

no_errors : {A : Type 0} (b : Bool) (xs : List A) → (b || not (is_empty xs)) ≡ false → xs ≡ []
no_errors b [] h = refl
no_errors b (x ∷ xs) h = ground arith

module _ (host : Host) (compiler : PolicyCompiler) (snapshot : KernelSnapshot)
    (event : EventEnvelope) (context : KernelContext)
    (valid : validate_lifecycle_graph context.graph ≡ []) where
  abbrev graph_after : Option AuthorityRebind → LifecycleGraph
  graph_after rebind = (destination_of host snapshot context rebind).graph

  replacement-graph :
      (replacement : AuthorityRebind) (rebind : Option AuthorityRebind)
      → check_replacement host compiler snapshot event context replacement ≡ applied rebind
      → validate_lifecycle_graph (graph_after rebind) ≡ []
  unfolding check_replacement destination_of
  replacement-graph replacement rebind h =
      let (passes, h1) = >>-eq-applied _ _ h in
      let (compiled, h2) = >>-eq-applied _ _ h1 in
      let facts =
        guards-eq-applied snapshot
          (replacement_guards host compiler snapshot event context replacement) passes in
      subst (λ r. validate_lifecycle_graph (graph_after r) ≡ []) (applied_inj h2)
        (no_errors _ _ facts.1.1.1.1.0)

  kept-graph : validate_lifecycle_graph (graph_after none) ≡ []
  unfolding destination_of
  kept-graph = valid

  rebind_for-graph :
      (b : Bool) (authority rebind : Option AuthorityRebind)
      → rebind_for host compiler b authority snapshot event context ≡ applied rebind
      → validate_lifecycle_graph (graph_after rebind) ≡ []
  unfolding rebind_for
  rebind_for-graph false none rebind h =
      subst (λ r. validate_lifecycle_graph (graph_after r) ≡ []) (applied_inj h) kept-graph
  rebind_for-graph false (some replacement) rebind h = cc
  rebind_for-graph true none rebind h = cc
  rebind_for-graph true (some replacement) rebind h = replacement-graph replacement rebind h

-- The snapshot after an applied transition is coherent: its owner is its state's, it has phase
-- authority exactly outside the states that go without, its contract and compiled policy come
-- together, and a paused or blocked state retains one of an active phase.
pub applied-IsCoherent :
    (host : Host) (compiler : PolicyCompiler) (snapshot : KernelSnapshot) (event : EventEnvelope)
    (context : KernelContext) (t : Transition)
    → evaluate_transition host compiler snapshot event context ≡ applied t
    → IsCoherent t.snapshot
unfolding validate_authority_rebind
applied-IsCoherent host compiler snapshot event context t done =
    let p = passed host compiler snapshot event context t done in
    valid_snapshot-IsCoherent (destination_of host snapshot context p.rebind).graph
      (rebind_for-graph host compiler snapshot event context
        (graph_valid host compiler snapshot event context t done) _ _ p.rebind p.guarded.rebinds)
      t.snapshot (committed host compiler snapshot event context t done).semantics
