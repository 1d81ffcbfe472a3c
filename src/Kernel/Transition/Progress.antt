-- ===== src/Kernel/Transition/Progress.antt =====
-- An applied transition advances the counters along a lawful route of the graph.
use hyperfinite.Common.{ℕ, ◌+◌, ◌≤◌, ◌<◌, true, false, ◌≡◌, ◌≢◌, sym, subst, ap, ◌∙◌, some, arith}
use hyperfinite.Types.Lifecycle.{LifecycleState}
use hyperfinite.Types.Event.{EventEnvelope}
use hyperfinite.Types.Snapshot.{KernelSnapshot, Transition, applied}
use hyperfinite.Host.{Host}
use hyperfinite.Lifecycle.{state_invariants, is_terminal_state}
use hyperfinite.Lifecycle.Graph.Laws.{IsLawful, valid_graph-IsLawful}
use hyperfinite.Lifecycle.Selection.Laws.{IsCandidate}
use hyperfinite.Policy.{PolicyCompiler}
use hyperfinite.Kernel.{KernelContext, max_safe_integer, safe_add}
use hyperfinite.Kernel.Commit.{next_snapshot}
use hyperfinite.Kernel.Transition.{evaluate_transition}
use hyperfinite.Kernel.Transition.Effect.{
  passed, committed, accounted, candidate, graph_valid, check_envelope-sequence,
}

pub safe_add-bounds : (a b c : ℕ) → safe_add a b ≡ some c → (c ≡ a + b) × (c ≤ max_safe_integer)
unfolding safe_add
safe_add-bounds a b c h = ground arith

-- What a transition does to the counters and where it goes.
pub record Progress (context : KernelContext) (snapshot : KernelSnapshot) (event : EventEnvelope)
    (t : Transition) : Type 0 where
  pub version : t.snapshot.state_version ≡ snapshot.state_version + 1
  pub version_safe : t.snapshot.state_version ≤ max_safe_integer
  pub sequence : t.snapshot.last_event_sequence ≡ event.sequence
  pub ordered : snapshot.last_event_sequence < event.sequence
  pub candidate :
      IsCandidate context.graph snapshot.state event.event_type snapshot.suspended_state
        snapshot.recovery_state t.route
  pub state : t.snapshot.state ≡ t.route.to
  pub owner : t.snapshot.phase_owner ≡ (state_invariants t.snapshot.state).phase_owner

module _ (host : Host) (compiler : PolicyCompiler) (snapshot : KernelSnapshot)
    (event : EventEnvelope) (context : KernelContext) (t : Transition)
    (done : evaluate_transition host compiler snapshot event context ≡ applied t) where
  -- The route that an applied transition took is lawful.
  pub applied-IsLawful : IsLawful t.route
  applied-IsLawful =
      valid_graph-IsLawful context.graph t.route
        (graph_valid host compiler snapshot event context t done)
        (candidate host compiler snapshot event context t done).listed

  next-state : t.snapshot.state ≡ t.route.to
  unfolding next_snapshot
  next-state =
      let c = committed host compiler snapshot event context t done in
      ap (λ s. s.state) c.snapshot_eq ∙ ap (λ r. r.to) (sym c.route_eq)

  next-owner : t.snapshot.phase_owner ≡ t.route.phase_owner
  unfolding next_snapshot
  next-owner =
      let c = committed host compiler snapshot event context t done in
      ap (λ s. s.phase_owner) c.snapshot_eq ∙ ap (λ r. r.phase_owner) (sym c.route_eq)

  next-sequence : t.snapshot.last_event_sequence ≡ event.sequence
  unfolding next_snapshot
  next-sequence =
      ap (λ s. s.last_event_sequence)
        (committed host compiler snapshot event context t done).snapshot_eq

  next-version : safe_add snapshot.state_version 1 ≡ some t.snapshot.state_version
  unfolding next_snapshot
  next-version =
      (accounted host compiler snapshot event context t done).sums.version
      ∙ ap some (
          ap (λ s. s.state_version)
            (sym (committed host compiler snapshot event context t done).snapshot_eq))

  -- An applied transition moves the version by one within the safe integers, moves the sequence
  -- forward to the event's, and takes a route that leaves the snapshot's state on the event into
  -- the next state, which its conventional owner owns.
  pub applied-Progress : Progress context snapshot event t
  applied-Progress =
      let (plus_one, safe) = safe_add-bounds snapshot.state_version 1 _ next-version in
      record {
        version = plus_one;
        version_safe = safe;
        sequence = next-sequence;
        ordered =
            check_envelope-sequence host snapshot event context
              (passed host compiler snapshot event context t done).envelope;
        candidate = candidate host compiler snapshot event context t done;
        state = next-state;
        owner =
            next-owner
            ∙ applied-IsLawful.owner
            ∙ ap (λ s. (state_invariants s).phase_owner) (sym next-state);
      }

  terminal_source : is_terminal_state snapshot.state ≡ false
  terminal_source =
      subst (λ s. is_terminal_state s ≡ false)
        (candidate host compiler snapshot event context t done).source applied-IsLawful.leaves

  -- No applied transition enters CAPTURED.
  pub applied-ne-captured : t.snapshot.state ≢ LifecycleState.captured
  applied-ne-captured e = applied-IsLawful.advances (sym next-state ∙ e)

-- From a completed or cancelled snapshot no event is applied, whatever the context.
pub terminal_absorbs :
    (host : Host) (compiler : PolicyCompiler) (snapshot : KernelSnapshot) (event : EventEnvelope)
    (context : KernelContext) (t : Transition)
    → is_terminal_state snapshot.state ≡ true
    → evaluate_transition host compiler snapshot event context ≢ applied t
terminal_absorbs host compiler snapshot event context t ends done =
    cc (terminal_source host compiler snapshot event context t done)
