-- ===== src/Kernel/Transition/Compiled.antt =====
-- The kernel (src/kernel.ts) with the policy compiler of src/policy.ts: the ceilings of the
-- documents hold of the phase usage.
use hyperfinite.Common.{not, option_eq, ◌≡◌, sym, subst, ◌∙◌, Option, none, some, ◌≤◌, arith}
use hyperfinite.Types.Lifecycle.{LifecycleState-eq, PhaseOwner-eq, ActivePhaseOwner-eq}
use hyperfinite.Types.Policy.{PhaseContract, CompiledPolicy}
use hyperfinite.Types.Event.{EventEnvelope}
use hyperfinite.Types.Snapshot.{Usage, KernelSnapshot, Transition, applied}
use hyperfinite.Host.{Host}
use hyperfinite.Lifecycle.{allows_null_phase_authority}
use hyperfinite.Registry.{RegistryLibrary}
use hyperfinite.Policy.{PolicyInput, PolicyCompilation}
use hyperfinite.Policy.Compile.{compile_policy, policy_compiler}
use hyperfinite.Policy.Compile.Bounds.{compiled-LimitsWithin}
use hyperfinite.Outcome.{applied_inj}
use hyperfinite.Kernel.{KernelContext, PhaseAuthority}
use hyperfinite.Kernel.Resolution.{current_authority, destination_authority}
use hyperfinite.Kernel.Transition.{effective_policy, evaluate_transition}
use hyperfinite.Kernel.Transition.Authorities.{
  policy_input, enters_phase, IsContractOf, current-AllCurrent, destination_authority-IsDestination,
  effective-IsInForce,
}
use hyperfinite.Kernel.Transition.Budgets.{WithinPolicy}
use hyperfinite.Kernel.Transition.Ceilings.{WithinPhase, applied-PhaseBudget}

-- A phase's usage within every document that the phase's policy is compiled from.
pub record WithinDocuments (usage : Usage) (input : PolicyInput) : Type 0 where
  pub under_accord :
      (usage.calls ≤ input.accord.budget.max_calls)
      × (usage.tokens ≤ input.accord.budget.max_tokens)
      × (usage.cost_units ≤ input.accord.budget.max_cost_units)
      × (usage.loops ≤ input.accord.budget.max_loops)
      × (usage.retries ≤ input.accord.budget.max_retries)
  pub under_phase :
      (usage.calls ≤ input.phase.limits.max_calls)
      × (usage.cost_units ≤ input.phase.limits.max_cost_units)
      × (usage.loops ≤ input.phase.limits.max_loops)
  pub under_pack :
      (usage.calls ≤ input.domain_pack.max_calls)
      × (usage.cost_units ≤ input.domain_pack.max_cost_units)
      × (usage.loops ≤ input.domain_pack.max_loops)
      × (usage.retries ≤ input.domain_pack.max_retries)
  pub under_enterprise :
      (usage.calls ≤ input.enterprise.ceilings.max_calls)
      × (usage.cost_units ≤ input.enterprise.ceilings.max_cost_units)
      × (usage.loops ≤ input.enterprise.ceilings.max_loops)
      × (usage.retries ≤ input.enterprise.ceilings.max_retries)

module _ (host : Host) (library : RegistryLibrary) where
  WithinPolicy-WithinDocuments :
      (input : PolicyInput) (policy : CompiledPolicy) (usage : Usage)
      → compile_policy host library input ≡ PolicyCompilation.compiled policy
      → WithinPolicy usage policy
      → WithinDocuments usage input
  WithinPolicy-WithinDocuments input policy usage h w =
      let limits = compiled-LimitsWithin host library input policy h in
      record {
        under_accord = omega arith;
        under_phase = omega arith;
        under_pack = omega arith;
        under_enterprise = omega arith;
      }

  by_compiler :
      (context : KernelContext) (contract : PhaseContract) (policy : CompiledPolicy)
      → (policy_compiler host library).compile_policy (policy_input context contract)
        ≡ PolicyCompilation.compiled policy
      → compile_policy host library (policy_input context contract)
        ≡ PolicyCompilation.compiled policy
  unfolding policy_compiler
  by_compiler context contract policy h = h

  within_policy :
      (usage : Usage) (effective : Option CompiledPolicy) (policy : CompiledPolicy)
      → effective ≡ some policy
      → WithinPhase usage effective
      → WithinPolicy usage policy
  within_policy usage none policy e w = cc
  within_policy usage (some p) policy e w = subst (WithinPolicy usage) (cc) w

  -- With the repository's policy compiler, where a compiled policy is in force at an applied
  -- transition, it is compiled from the context's contract of the phase that the route enters, or,
  -- where it enters none, of the phase that the snapshot is in or retains. The phase usage after the
  -- transition is within the Work Accord, that contract, the Domain Pack and the enterprise policy.
  pub applied-WithinDocuments :
      (snapshot : KernelSnapshot) (event : EventEnvelope) (context : KernelContext) (t : Transition)
      (current destination : Option PhaseAuthority) (policy : CompiledPolicy)
      → evaluate_transition host (policy_compiler host library) snapshot event context ≡ applied t
      → current_authority host
          (policy_compiler host library)
          snapshot
          context
          (not (allows_null_phase_authority snapshot.state))
        ≡ applied current
      → destination_authority host (policy_compiler host library) snapshot t.route current context
        ≡ applied destination
      → effective_policy current destination ≡ some policy
      → (contract : PhaseContract) × (compile_policy host library (policy_input context contract)
          ≡ PolicyCompilation.compiled policy)
        × IsContractOf (enters_phase t.route) snapshot t.route context contract
        × WithinDocuments t.snapshot.phase_usage (policy_input context contract)
  applied-WithinDocuments snapshot event context t current destination policy done c d e =
      let compiler = policy_compiler host library in
      let (current', destination', c', d', budget) =
        applied-PhaseBudget host compiler snapshot event context t done in
      let same : current' ≡ current = applied_inj (sym c' ∙ c) in
      let d2 =
        subst
          (λ x.
            destination_authority host compiler snapshot t.route x context ≡ applied destination')
          same d' in
      let same' : destination' ≡ destination = applied_inj (sym d2 ∙ d) in
      let (contract, compiled, of_phase) =
        effective-IsInForce compiler context host snapshot t.route (enters_phase t.route) current
          destination (current-AllCurrent compiler context host snapshot t.route _ c)
          (destination_authority-IsDestination compiler context host snapshot t.route current
            destination d)
          e in
      let is_compiled = by_compiler context contract policy compiled in
      let effective : effective_policy current' destination' ≡ some policy = cc in
      (
        contract,
        is_compiled,
        of_phase,
        WithinPolicy-WithinDocuments (policy_input context contract) policy t.snapshot.phase_usage
            is_compiled (within_policy t.snapshot.phase_usage _ policy effective budget.within),
      )
