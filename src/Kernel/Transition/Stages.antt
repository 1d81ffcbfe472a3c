-- ===== src/Kernel/Transition/Stages.antt =====
-- Each stage of an evaluation that stops gives back the snapshot that it was given.
use hyperfinite.Common.{ℕ, Bool, true, false, Option, none, some, List, [], ◌∷◌}
use hyperfinite.Types.Accord.{Digest, Budget}
use hyperfinite.Types.Lifecycle.{ActivePhaseOwner, LifecycleRoute}
use hyperfinite.Types.Policy.{PhaseContract, CompiledPolicy, ExitRule}
use hyperfinite.Types.Event.{EventEnvelope, ActivationLease, AuthorityRebind, RequirementType}
use hyperfinite.Types.Snapshot.{KernelSnapshot, ProcessedEvent, Usage}
use hyperfinite.Host.{Host}
use hyperfinite.Lifecycle.{RouteAuthorityClass}
use hyperfinite.Lifecycle.Selection.{RouteSelection}
use hyperfinite.Policy.{PolicyCompilation}
use hyperfinite.Outcome.{KeepsOnStop, KeepsOnStop->>, keep_rules}
use hyperfinite.Kernel.{KernelContext, PhaseAuthority}
use hyperfinite.Kernel.Boundary.{check_schemas, replay_of, check_envelope}
use hyperfinite.Kernel.Resolution.{
  check_contract, route_or_refusal, authority_or_refusal, unbound_authority,
}
use hyperfinite.Kernel.Lease.{check_lease, lease_for_phase}
use hyperfinite.Kernel.Requirements.{
  RequirementInput, validate_contract_requirement, validate_entry_requirements, exit_by_rule,
  validate_exit, validate_entry, exit_stage, entry_stage, validate_phase_requirements,
}
use hyperfinite.Kernel.Guards.{
  validate_compiled_capability_authority, validate_capabilities, compiled_policies,
  capability_stage, check_attempts, route_attempt_refusal,
}
use hyperfinite.Kernel.Rebind.{check_compilation}
use hyperfinite.Kernel.Accounting.{
  Totals, totals_of, validate_lifetime_budget, validate_phase_budget, lease_budget,
  validate_lease_cost_budget, account,
}
use hyperfinite.Kernel.Commit.{commit}

module _ (snapshot : KernelSnapshot) where
  pub route_or_refusal-keeps :
      (r : RouteSelection) → KeepsOnStop snapshot (route_or_refusal snapshot r)
  unfolding route_or_refusal
  route_or_refusal-keeps RouteSelection.no_route = search keep_rules
  route_or_refusal-keeps _ = search keep_rules

  pub authority_or_refusal-keeps :
      (c : PhaseContract) (r : PolicyCompilation)
      → KeepsOnStop snapshot (authority_or_refusal c snapshot r)
  unfolding authority_or_refusal
  authority_or_refusal-keeps c (PolicyCompilation.compiled p) = search keep_rules
  authority_or_refusal-keeps c (PolicyCompilation.failed e) = search keep_rules

  pub check_compilation-keeps :
      (r : PolicyCompilation) → KeepsOnStop snapshot (check_compilation snapshot r)
  unfolding check_compilation
  check_compilation-keeps (PolicyCompilation.compiled p) = search keep_rules
  check_compilation-keeps (PolicyCompilation.failed e) = search keep_rules

  pub unbound_authority-keeps : (b c : Bool) → KeepsOnStop snapshot (unbound_authority b c snapshot)
  unfolding unbound_authority
  unbound_authority-keeps b c = search keep_rules

  pub validate_compiled-keeps :
      (c : CompiledPolicy) (context : KernelContext)
      → KeepsOnStop snapshot (validate_compiled_capability_authority snapshot c context)
  unfolding validate_compiled_capability_authority
  validate_compiled-keeps c context = search keep_rules

  pub validate_capabilities-keeps :
      (cs : List CompiledPolicy) (context : KernelContext)
      → KeepsOnStop snapshot (validate_capabilities snapshot cs context)
  unfolding validate_capabilities
  validate_capabilities-keeps [] context = search keep_rules
  validate_capabilities-keeps (c ∷ cs) context =
      KeepsOnStop->> snapshot _ _ (validate_compiled-keeps c context)
        (validate_capabilities-keeps cs context)

  pub capability_stage-keeps :
      (r : RouteAuthorityClass) (c d : Option PhaseAuthority) (context : KernelContext)
      → KeepsOnStop snapshot (capability_stage r snapshot c d context)
  unfolding capability_stage
  capability_stage-keeps RouteAuthorityClass.kernel_safety c d context = search keep_rules
  capability_stage-keeps _ c d context = validate_capabilities-keeps (compiled_policies c d) context

  pub lifetime-keeps :
      (usage : Usage) (b : Budget)
      → KeepsOnStop snapshot (validate_lifetime_budget snapshot usage b)
  unfolding validate_lifetime_budget
  lifetime-keeps usage b = search keep_rules

  pub phase_budget-keeps :
      (usage : Usage) (c : Option CompiledPolicy)
      → KeepsOnStop snapshot (validate_phase_budget snapshot usage c)
  unfolding validate_phase_budget
  phase_budget-keeps usage none = search keep_rules
  phase_budget-keeps usage (some c) = search keep_rules

  pub lease_budget-keeps :
      (usage : Usage) (l : Option ActivationLease)
      → KeepsOnStop snapshot (lease_budget snapshot usage l)
  unfolding lease_budget
  lease_budget-keeps usage none = search keep_rules
  lease_budget-keeps usage (some l) = search keep_rules

  pub totals_of-keeps :
      (u p : Option Usage) (v : Option _) → KeepsOnStop snapshot (totals_of snapshot u p v)
  unfolding totals_of
  totals_of-keeps (some u) (some p) (some v) = search keep_rules
  totals_of-keeps _ _ _ = search keep_rules

module _ (host : Host) (snapshot : KernelSnapshot) (event : EventEnvelope)
    (context : KernelContext) where
  pub check_schemas-keeps : KeepsOnStop snapshot (check_schemas host snapshot event context)
  unfolding check_schemas
  check_schemas-keeps = search keep_rules

  pub replay_of-keeps :
      (p : Option ProcessedEvent) → KeepsOnStop snapshot (replay_of host p snapshot event)
  unfolding replay_of
  replay_of-keeps none = search keep_rules
  replay_of-keeps (some p) = search keep_rules

  pub check_envelope-keeps : KeepsOnStop snapshot (check_envelope host snapshot event context)
  unfolding check_envelope
  check_envelope-keeps = search keep_rules depth 12

  pub check_contract-keeps : KeepsOnStop snapshot (check_contract host snapshot context)
  unfolding check_contract
  check_contract-keeps = search keep_rules depth 12

  pub requirement-keeps :
      (i : RequirementInput)
      → KeepsOnStop snapshot (validate_contract_requirement host i snapshot context)
  unfolding validate_contract_requirement
  requirement-keeps i = search keep_rules

  pub entries-keeps :
      (k : RequirementType) (d : Digest) (r : _) (rs : List _)
      → KeepsOnStop snapshot (validate_entry_requirements host k d r snapshot context rs)
  unfolding validate_entry_requirements
  entries-keeps k d r [] = search keep_rules
  entries-keeps k d r (q ∷ rs) =
      KeepsOnStop->> snapshot _ _ (requirement-keeps _) (entries-keeps k d r rs)

  pub exit_by_rule-keeps :
      (rule : Option ExitRule) (c : PhaseContract) (route : LifecycleRoute)
      → KeepsOnStop snapshot (exit_by_rule host rule c snapshot event route context)
  unfolding exit_by_rule
  exit_by_rule-keeps none c route = search keep_rules
  exit_by_rule-keeps (some rule) c route = requirement-keeps _

  pub exit_stage-keeps :
      (leaving : Bool) (c : Option PhaseAuthority) (route : LifecycleRoute)
      → KeepsOnStop snapshot (exit_stage host leaving c snapshot event route context)
  unfolding validate_exit
  exit_stage-keeps leaving none route = search keep_rules
  exit_stage-keeps true (some c) route = exit_by_rule-keeps _ c.contract route
  exit_stage-keeps false (some c) route = search keep_rules

  pub entry_stage-keeps :
      (entering : Bool) (d : Option PhaseAuthority) (route : LifecycleRoute)
      → KeepsOnStop snapshot (entry_stage host entering d snapshot route context)
  unfolding validate_entry
  entry_stage-keeps entering none route = search keep_rules
  entry_stage-keeps true (some d) route = search (keep_rules, entries-keeps)
  entry_stage-keeps false (some d) route = search keep_rules

  pub requirements-keeps :
      (route : LifecycleRoute) (c d : Option PhaseAuthority)
      → KeepsOnStop snapshot (validate_phase_requirements host snapshot event route c d context)
  unfolding validate_phase_requirements
  requirements-keeps route c d =
      KeepsOnStop->> snapshot _ _ (exit_stage-keeps _ c route) (entry_stage-keeps _ d route)

  pub check_lease-keeps :
      (p : ActivePhaseOwner) (c : CompiledPolicy) (l : ActivationLease)
      → KeepsOnStop snapshot (check_lease host snapshot p c l context)
  unfolding check_lease
  check_lease-keeps p c l = search keep_rules depth 12

  pub lease_for_phase-keeps :
      (p : Option ActivePhaseOwner) (c : Option CompiledPolicy) (l : Option ActivationLease)
      → KeepsOnStop snapshot (lease_for_phase host p c l snapshot context)
  unfolding lease_for_phase
  lease_for_phase-keeps none c l = search keep_rules
  lease_for_phase-keeps (some p) none l = search keep_rules
  lease_for_phase-keeps (some p) (some c) none = search keep_rules
  lease_for_phase-keeps (some p) (some c) (some l) = check_lease-keeps p c l

  pub check_attempts-keeps :
      (n : Option ℕ) (route : LifecycleRoute)
      → KeepsOnStop snapshot (check_attempts n snapshot event route context)
  unfolding check_attempts
  check_attempts-keeps none route = search keep_rules
  check_attempts-keeps (some n) route = search keep_rules

  pub attempts-keeps :
      (route : LifecycleRoute)
      → KeepsOnStop snapshot (route_attempt_refusal snapshot event route context)
  unfolding route_attempt_refusal
  attempts-keeps route = search (keep_rules, check_attempts-keeps)

  pub lease_cost-keeps :
      (route : LifecycleRoute) (u : Usage)
      → KeepsOnStop snapshot (validate_lease_cost_budget snapshot event route u context)
  unfolding validate_lease_cost_budget
  lease_cost-keeps route u = search (keep_rules, lease_budget-keeps)

  pub account-keeps :
      (route : LifecycleRoute) (b : Bool) (c : Option CompiledPolicy) (r : Option AuthorityRebind)
      → KeepsOnStop snapshot (account snapshot event route b c r context)
  unfolding account
  account-keeps route b c r =
      search (keep_rules, totals_of-keeps, lifetime-keeps, phase_budget-keeps, lease_cost-keeps)

  pub commit-keeps :
      (route : LifecycleRoute) (a : Option PhaseAuthority) (r : Option AuthorityRebind) (t : Totals)
      → KeepsOnStop snapshot (commit host snapshot event route a r t context)
  unfolding commit
  commit-keeps route a r t = search keep_rules
