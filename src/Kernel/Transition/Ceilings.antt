-- ===== src/Kernel/Transition/Ceilings.antt =====
-- The accounting of an applied transition: what it adds to the usage, and within which ceilings.
use hyperfinite.Common.{true, false, ◌≡◌, sym, subst, ap, not, Option, none, some, if◌then◌else◌}
use hyperfinite.Types.Policy.{CompiledPolicy}
use hyperfinite.Types.Event.{EventEnvelope, AuthorityRebind, ActivationLease}
use hyperfinite.Types.Snapshot.{Usage, KernelSnapshot, Transition, applied}
use hyperfinite.Host.{Host}
use hyperfinite.Lifecycle.{allows_null_phase_authority, is_cost_bearing_state}
use hyperfinite.Policy.{PolicyCompiler}
use hyperfinite.Kernel.{KernelContext, PhaseAuthority, empty_usage}
use hyperfinite.Kernel.Resolution.{current_authority, destination_authority}
use hyperfinite.Kernel.Requirements.{enters_new_phase}
use hyperfinite.Kernel.Accounting.{validate_phase_budget, effective_budget}
use hyperfinite.Kernel.Rebind.{validate_authority_rebind}
use hyperfinite.Kernel.Commit.{next_snapshot}
use hyperfinite.Kernel.Transition.{effective_policy, evaluate_transition}
use hyperfinite.Kernel.Transition.Effect.{passed, committed, accounted}
use hyperfinite.Kernel.Transition.Budgets.{
  IsSum, add_usage-IsSum, WithinBudget, WithinPolicy, WithinLease, lifetime-WithinBudget,
  phase-WithinPolicy, cost_route, free_route,
}

-- Within the compiled policy of a phase, where a phase is in force.
abbrev pub WithinPhase : Usage → Option CompiledPolicy → Type 0
WithinPhase usage none = Unit
WithinPhase usage (some policy) = WithinPolicy usage policy

phase-WithinPhase :
    (snapshot : KernelSnapshot) (usage : Usage) (policy : Option CompiledPolicy)
    → validate_phase_budget snapshot usage policy ≡ applied tt
    → WithinPhase usage policy
phase-WithinPhase snapshot usage none h = tt
phase-WithinPhase snapshot usage (some policy) h = phase-WithinPolicy snapshot usage policy h

-- The phase's usage counts from zero where a new phase is entered, and keeps the policy in force.
pub record PhaseBudget (current destination : Option PhaseAuthority) (snapshot : KernelSnapshot)
    (event : EventEnvelope) (usage : Usage) : Type 0 where
  pub sum :
      IsSum
        (if enters_new_phase current destination then empty_usage else snapshot.phase_usage)
        event
        usage
  pub within : WithinPhase usage (effective_policy current destination)

module _ (host : Host) (compiler : PolicyCompiler) (snapshot : KernelSnapshot)
    (event : EventEnvelope) (context : KernelContext) (t : Transition)
    (done : evaluate_transition host compiler snapshot event context ≡ applied t) where
  usage_eq : (passed host compiler snapshot event context t done).totals.usage ≡ t.snapshot.usage
  unfolding next_snapshot
  usage_eq =
      ap (λ s. s.usage) (sym (committed host compiler snapshot event context t done).snapshot_eq)

  phase_usage_eq :
      (passed host compiler snapshot event context t done).totals.phase_usage
      ≡ t.snapshot.phase_usage
  unfolding next_snapshot
  phase_usage_eq =
      ap (λ s. s.phase_usage)
        (sym (committed host compiler snapshot event context t done).snapshot_eq)

  route_eq : (passed host compiler snapshot event context t done).route ≡ t.route
  route_eq = sym (committed host compiler snapshot event context t done).route_eq

  -- An applied transition adds exactly the event's cost to the lifetime usage, as safe integers.
  pub applied-IsSum : IsSum snapshot.usage event t.snapshot.usage
  applied-IsSum = subst (IsSum snapshot.usage event) usage_eq (
      add_usage-IsSum snapshot.usage event _
        (accounted host compiler snapshot event context t done).sums.usage)

  -- The lifetime usage after an applied transition is within the budget of the work accord that
  -- is effective: the replacement's where the event rebinds the authority, else the context's.
  pub applied-WithinBudget :
      (rebind : Option AuthorityRebind) × (validate_authority_rebind host compiler snapshot event
          context
        ≡ applied rebind)
      × WithinBudget t.snapshot.usage (effective_budget context rebind)
  applied-WithinBudget =
      let p = passed host compiler snapshot event context t done in
      (
        p.rebind,
        p.guarded.rebinds,
        subst (λ u. WithinBudget u (effective_budget context p.rebind)) usage_eq
            (lifetime-WithinBudget snapshot _ _
              (accounted host compiler snapshot event context t done).lifetime),
      )

  -- An applied transition into a cost-bearing state has a lease, and the usage after it is within
  -- the lease's ceilings.
  pub applied-WithinLease :
      is_cost_bearing_state t.route.to ≡ true
      → (l : ActivationLease) × (context.activation_lease ≡ some l) × WithinLease t.snapshot.usage l
  applied-WithinLease b =
      let (l, held, within) =
        cost_route snapshot event _ _ context
          (accounted host compiler snapshot event context t done).lease
          (subst (λ r. is_cost_bearing_state r.to ≡ true) (sym route_eq) b) in
      (l, held, subst (λ u. WithinLease u l) usage_eq within)

  -- The event of an applied transition into a state that bears no cost has no calls, tokens or
  -- cost units.
  pub applied-costs_nothing :
      is_cost_bearing_state t.route.to ≡ false
      → (event.cost.calls ≡ 0) × (event.cost.tokens ≡ 0) × (event.cost.cost_units ≡ 0)
  applied-costs_nothing b =
      free_route snapshot event _ _ context
        (accounted host compiler snapshot event context t done).lease
        (subst (λ r. is_cost_bearing_state r.to ≡ false) (sym route_eq) b)

  -- With the authorities of the source's and the destination's phase as they are resolved: the
  -- phase usage after an applied transition is the event's cost added to the phase usage before,
  -- or to zero where a new phase is entered, and it is within the effective compiled policy.
  pub applied-PhaseBudget :
      (current destination : Option PhaseAuthority) × (current_authority host compiler snapshot
          context
          (not (allows_null_phase_authority snapshot.state))
        ≡ applied current)
      × (destination_authority host compiler snapshot t.route current context ≡ applied destination)
      × PhaseBudget current destination snapshot event t.snapshot.phase_usage
  applied-PhaseBudget =
      let p = passed host compiler snapshot event context t done in
      let a = accounted host compiler snapshot event context t done in
      (
        p.current,
        p.destination,
        p.current_eq,
        subst
            (λ r.
              destination_authority host compiler snapshot r p.current context
              ≡ applied p.destination)
            route_eq p.destination_eq,
        subst (PhaseBudget p.current p.destination snapshot event) phase_usage_eq (record {
          sum = add_usage-IsSum _ event _ a.sums.phase_usage;
          within = phase-WithinPhase snapshot _ _ a.phase;
        }),
      )
