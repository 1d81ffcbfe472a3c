-- ===== src/Kernel/Transition/Budgets.antt =====
-- What an applied transition consumed, and the ceilings that it kept.
use hyperfinite.Common.{
  ℕ, ◌+◌, ◌≤◌, true, false, ◌≡◌, refl, Option, none, some, arith, ◌==◌, if◌then◌else◌,
}
use hyperfinite.Types.Lifecycle.{EventType, LifecycleRoute, EventType-eq}
use hyperfinite.Types.Accord.{Budget}
use hyperfinite.Types.Policy.{CompiledPolicy}
use hyperfinite.Types.Event.{EventEnvelope, ActivationLease}
use hyperfinite.Types.Snapshot.{Usage, KernelSnapshot, applied}
use hyperfinite.Lifecycle.{is_cost_bearing_state}
use hyperfinite.Outcome.{guards-eq-applied, refuse_when-eq-applied}
use hyperfinite.Kernel.{KernelContext, max_safe_integer, usage_of, add_usage}
use hyperfinite.Kernel.Accounting.{
  lifetime_guards, phase_guards, validate_lifetime_budget, validate_phase_budget, lease_budget,
  validate_lease_cost_budget,
}
use hyperfinite.Kernel.Transition.Progress.{safe_add-bounds}

-- `after` is `before` with the event's cost, counter by counter, and each counter is safe.
pub record IsSum (before : Usage) (event : EventEnvelope) (after : Usage) : Type 0 where
  pub calls : after.calls ≡ before.calls + event.cost.calls
  pub tokens : after.tokens ≡ before.tokens + event.cost.tokens
  pub cost_units : after.cost_units ≡ before.cost_units + event.cost.cost_units
  pub loops : after.loops ≡ before.loops + event.cost.loops
  pub retries :
      after.retries
      ≡ before.retries + (if event.event_type == EventType.retry_requested then 1 else 0)
  pub calls_safe : after.calls ≤ max_safe_integer
  pub tokens_safe : after.tokens ≤ max_safe_integer
  pub cost_units_safe : after.cost_units ≤ max_safe_integer
  pub loops_safe : after.loops ≤ max_safe_integer
  pub retries_safe : after.retries ≤ max_safe_integer

usage_of-parts :
    (a b c d e : Option ℕ) (v : Usage)
    → usage_of a b c d e ≡ some v
    → (a ≡ some v.calls)
      × (b ≡ some v.tokens)
      × (c ≡ some v.cost_units)
      × (d ≡ some v.loops)
      × (e ≡ some v.retries)
unfolding usage_of
usage_of-parts (some a) (some b) (some c) (some d) (some e) v h = (cc, cc, cc, cc, cc)
usage_of-parts (some a) (some b) (some c) (some d) none v h = cc
usage_of-parts (some a) (some b) (some c) none e v h = cc
usage_of-parts (some a) (some b) none d e v h = cc
usage_of-parts (some a) none c d e v h = cc
usage_of-parts none b c d e v h = cc

pub add_usage-IsSum :
    (u : Usage) (event : EventEnvelope) (v : Usage) → add_usage u event ≡ some v → IsSum u event v
unfolding add_usage
add_usage-IsSum u event v h =
    let (a, b, c, d, e) = usage_of-parts _ _ _ _ _ v h in
    let a' = safe_add-bounds u.calls event.cost.calls v.calls a in
    let b' = safe_add-bounds u.tokens event.cost.tokens v.tokens b in
    let c' = safe_add-bounds u.cost_units event.cost.cost_units v.cost_units c in
    let d' = safe_add-bounds u.loops event.cost.loops v.loops d in
    let e' = safe_add-bounds u.retries _ v.retries e in
    record {
      calls = a'.0;
      tokens = b'.0;
      cost_units = c'.0;
      loops = d'.0;
      retries = e'.0;
      calls_safe = a'.1;
      tokens_safe = b'.1;
      cost_units_safe = c'.1;
      loops_safe = d'.1;
      retries_safe = e'.1;
    }

pub record WithinBudget (usage : Usage) (budget : Budget) : Type 0 where
  pub calls : usage.calls ≤ budget.max_calls
  pub tokens : usage.tokens ≤ budget.max_tokens
  pub cost_units : usage.cost_units ≤ budget.max_cost_units
  pub loops : usage.loops ≤ budget.max_loops
  pub retries : usage.retries ≤ budget.max_retries

pub record WithinPolicy (usage : Usage) (policy : CompiledPolicy) : Type 0 where
  pub calls : usage.calls ≤ policy.limits.max_calls
  pub tokens : usage.tokens ≤ policy.limits.max_tokens
  pub cost_units : usage.cost_units ≤ policy.limits.max_cost_units
  pub loops : usage.loops ≤ policy.limits.max_loops
  pub retries : usage.retries ≤ policy.limits.max_retries

pub record WithinLease (usage : Usage) (lease : ActivationLease) : Type 0 where
  pub calls : usage.calls ≤ lease.max_calls
  pub tokens : usage.tokens ≤ lease.max_tokens
  pub cost_units : usage.cost_units ≤ lease.max_cost_units

module _ (snapshot : KernelSnapshot) where
  pub lifetime-WithinBudget :
      (usage : Usage) (budget : Budget)
      → validate_lifetime_budget snapshot usage budget ≡ applied tt
      → WithinBudget usage budget
  unfolding validate_lifetime_budget
  lifetime-WithinBudget usage budget h =
      let facts = guards-eq-applied snapshot (lifetime_guards usage budget) h in ground arith

  pub phase-WithinPolicy :
      (usage : Usage) (policy : CompiledPolicy)
      → validate_phase_budget snapshot usage (some policy) ≡ applied tt
      → WithinPolicy usage policy
  unfolding validate_phase_budget
  phase-WithinPolicy usage policy h =
      let facts = guards-eq-applied snapshot (phase_guards usage policy) h in ground arith

  lease-WithinLease :
      (usage : Usage) (lease : Option ActivationLease)
      → lease_budget snapshot usage lease ≡ applied tt
      → (l : ActivationLease) × (lease ≡ some l) × WithinLease usage l
  unfolding lease_budget
  lease-WithinLease usage none h = cc
  lease-WithinLease usage (some l) h =
      let fact = refuse_when-eq-applied _ snapshot _ h in (l, refl, ground arith)

  module _ (event : EventEnvelope) (route : LifecycleRoute) (usage : Usage)
      (context : KernelContext)
      (kept : validate_lease_cost_budget snapshot event route usage context ≡ applied tt) where
    pub cost_route :
        is_cost_bearing_state route.to ≡ true
        → (l : ActivationLease) × (context.activation_lease ≡ some l) × WithinLease usage l
    unfolding validate_lease_cost_budget
    cost_route b = lease-WithinLease usage context.activation_lease (rw b at kept)

    pub free_route :
        is_cost_bearing_state route.to ≡ false
        → (event.cost.calls ≡ 0) × (event.cost.tokens ≡ 0) × (event.cost.cost_units ≡ 0)
    unfolding validate_lease_cost_budget
    free_route b = let fact = refuse_when-eq-applied _ snapshot _ (rw b at kept) in ground arith
