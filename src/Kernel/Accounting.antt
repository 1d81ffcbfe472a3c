-- ===== src/Kernel/Accounting.antt =====
-- Usage and budgets (src/kernel.ts): the counters after the event, within every ceiling.
use hyperfinite.Common.{
  ◌∷◌, [], List, ℕ, String, Bool, false, ◌||◌, Option, none, some, ltb, ◌!=◌, if◌then◌else◌, nat_eq,
}
use hyperfinite.Types.Lifecycle.{LifecycleRoute}
use hyperfinite.Types.Accord.{Budget}
use hyperfinite.Types.Policy.{CompiledPolicy}
use hyperfinite.Types.Event.{EventEnvelope, AuthorityRebind, ActivationLease}
use hyperfinite.Types.Snapshot.{
  Usage, KernelSnapshot, RefusalCode, Recovery, KernelRefusal, Outcome, applied, refused,
}
use hyperfinite.Lifecycle.{is_cost_bearing_state}
use hyperfinite.Outcome.{◌>>=◌, ◌>>◌, refusal, refuse_when, guards}
use hyperfinite.Kernel.{KernelContext, empty_usage, safe_add, add_usage}

abbrev human : RefusalCode → String → KernelRefusal
human code rule_id = refusal code rule_id false Recovery.human_authorization

abbrev pub lifetime_guards : Usage → Budget → List (Bool × KernelRefusal)
lifetime_guards usage budget =
    (
      ltb budget.max_calls usage.calls
          || ltb budget.max_tokens usage.tokens
          || ltb budget.max_cost_units usage.cost_units,
      (human RefusalCode.budget_exhausted "budget.compiled-ceiling"),
    )
    ∷ (
      ltb budget.max_loops usage.loops,
      (human RefusalCode.loop_limit_exhausted "budget.loop-ceiling"),
    )
    ∷ (
      ltb budget.max_retries usage.retries,
      (human RefusalCode.retry_limit_exhausted "retry.compiled-ceiling"),
    )
    ∷ []

unfoldable pub validate_lifetime_budget : KernelSnapshot → Usage → Budget → Outcome (Unit {0})
validate_lifetime_budget snapshot usage budget = guards snapshot (lifetime_guards usage budget)

abbrev pub phase_guards : Usage → CompiledPolicy → List (Bool × KernelRefusal)
phase_guards usage compiled =
    (
      ltb compiled.limits.max_calls usage.calls
          || ltb compiled.limits.max_tokens usage.tokens
          || ltb compiled.limits.max_cost_units usage.cost_units,
      human RefusalCode.budget_exhausted "budget.phase-ceiling",
    )
    ∷ (
      ltb compiled.limits.max_loops usage.loops,
      human RefusalCode.loop_limit_exhausted "budget.phase-loop-ceiling",
    )
    ∷ (
      ltb compiled.limits.max_retries usage.retries,
      human RefusalCode.retry_limit_exhausted "retry.phase-ceiling",
    )
    ∷ []

unfoldable pub validate_phase_budget :
    KernelSnapshot → Usage → Option CompiledPolicy → Outcome (Unit {0})
validate_phase_budget snapshot usage none = applied tt
validate_phase_budget snapshot usage (some compiled) = guards snapshot (phase_guards usage compiled)

unfoldable pub lease_budget : KernelSnapshot → Usage → Option ActivationLease → Outcome (Unit {0})
lease_budget snapshot usage none =
    refused (human RefusalCode.activation_required "lease.cost-authority") snapshot
lease_budget snapshot usage (some lease) =
    refuse_when
      (ltb lease.max_calls usage.calls
        || ltb lease.max_tokens usage.tokens
        || ltb lease.max_cost_units usage.cost_units)
      snapshot (human RefusalCode.budget_exhausted "lease.remaining-budget")

unfoldable pub validate_lease_cost_budget :
    KernelSnapshot → EventEnvelope → LifecycleRoute → Usage → KernelContext → Outcome (Unit {0})
validate_lease_cost_budget snapshot event route usage context =
    if is_cost_bearing_state route.to
    then lease_budget snapshot usage context.activation_lease
    else refuse_when (event.cost.calls != 0 || event.cost.tokens != 0 || event.cost.cost_units != 0)
        snapshot
        (refusal RefusalCode.budget_exhausted "budget.non-cost-route" false Recovery.nothing)

-- `rebind === null ? context.workAccord : rebind.workAccord`, its budget
abbrev pub effective_budget : KernelContext → Option AuthorityRebind → Budget
effective_budget context none = context.work_accord.budget
effective_budget context (some rebind) = rebind.work_accord.budget

pub record Totals : Type 0 where
  pub usage : Usage
  pub phase_usage : Usage
  pub state_version : ℕ

-- The three sums, or the refusal where one of them is null.
unfoldable pub totals_of :
    KernelSnapshot
    → (usage phase_usage : Option Usage) → (state_version : Option ℕ) → Outcome Totals
totals_of snapshot (some usage) (some phase_usage) (some version) =
    applied (record { usage = usage; phase_usage = phase_usage; state_version = version })
totals_of snapshot _ _ _ =
    refused (refusal RefusalCode.numeric_overflow "number.safe-integer" false Recovery.reconcile)
      snapshot

unfoldable pub account :
    KernelSnapshot
    → EventEnvelope
    → LifecycleRoute
    → (entering_new_phase : Bool) → Option CompiledPolicy
    → Option AuthorityRebind
    → KernelContext
    → Outcome Totals
account snapshot event route entering_new_phase effective_policy rebind context = do
  totals ←
      totals_of snapshot (add_usage snapshot.usage event)
        (add_usage (if entering_new_phase then empty_usage else snapshot.phase_usage) event)
        (safe_add snapshot.state_version 1)
  validate_lifetime_budget snapshot totals.usage (effective_budget context rebind)
  validate_phase_budget snapshot totals.phase_usage effective_policy
  validate_lease_cost_budget snapshot event route totals.usage context
  applied totals
