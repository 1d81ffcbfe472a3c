-- ===== src/Kernel/Transition/Effect.antt =====
-- What an applied transition does to the snapshot, and what it was allowed by.
use hyperfinite.Common.{
  ℕ, ◌<◌, Bool, false, not, ◌||◌, ◌≡◌, refl, sym, subst, Option, none, some, List, [], ◌∷◌, is_some,
  is_empty, arith, leb, if◌then◌else◌,
}
use hyperfinite.Types.Lifecycle.{LifecycleRoute}
use hyperfinite.Types.Policy.{CompiledPolicy}
use hyperfinite.Types.Event.{EventEnvelope, AuthorityRebind}
use hyperfinite.Types.Snapshot.{Usage, KernelSnapshot, Transition, applied}
use hyperfinite.Host.{Host, Document}
use hyperfinite.Lifecycle.Graph.{validate_lifecycle_graph}
use hyperfinite.Lifecycle.Selection.{RouteSelection}
use hyperfinite.Lifecycle.Selection.Laws.{IsCandidate, select_route-selected}
use hyperfinite.Lifecycle.Semantics.{validate_snapshot_lifecycle_semantics}
use hyperfinite.Policy.{PolicyCompiler}
use hyperfinite.Outcome.{
  applied_inj, >>=-eq-applied, >>-eq-applied, refuse_when-eq-applied, guards-eq-applied,
}
use hyperfinite.Kernel.{KernelContext, PhaseAuthority, safe_add, add_usage, empty_usage}
use hyperfinite.Kernel.Boundary.{envelope_guards, check_envelope}
use hyperfinite.Kernel.Resolution.{contract_guards, check_contract, route_or_refusal, resolve_route}
use hyperfinite.Kernel.Guards.{route_attempt_count}
use hyperfinite.Kernel.Accounting.{
  Totals, totals_of, account, validate_lifetime_budget, validate_phase_budget,
  validate_lease_cost_budget, effective_budget,
}
use hyperfinite.Kernel.Commit.{destination_of, receipt_of, next_snapshot, effects_of, commit}
use hyperfinite.Kernel.Requirements.{enters_new_phase}
use hyperfinite.Kernel.Transition.{effective_policy, evaluate_transition}
use hyperfinite.Kernel.Transition.Inversion.{Passed, evaluate_transition-Passed}

is_empty-nil : {A : Type 0} (xs : List A) → not (is_empty xs) ≡ false → xs ≡ []
is_empty-nil [] h = refl
is_empty-nil (x ∷ xs) h = cc

is_some-none : {A : Type 0} (o : Option A) → is_some o ≡ false → o ≡ none
is_some-none none h = refl
is_some-none (some a) h = cc

or-false : (a b : Bool) → (a || b) ≡ false → (a ≡ false) × (b ≡ false)
or-false a b h = ground arith

leb-false : {a b : ℕ} → leb a b ≡ false → b < a
leb-false {a} {b} h = ground arith

route_or_refusal-selected :
    (snapshot : KernelSnapshot) (s : RouteSelection) (route : LifecycleRoute)
    → route_or_refusal snapshot s ≡ applied route
    → s ≡ RouteSelection.selected route
unfolding route_or_refusal
route_or_refusal-selected snapshot RouteSelection.no_route route h = cc
route_or_refusal-selected snapshot RouteSelection.ambiguous route h = cc
route_or_refusal-selected snapshot (RouteSelection.selected r) route h = cc

-- The attempt counter after a retryable route.
abbrev pub attempt_after : KernelSnapshot → LifecycleRoute → Option ℕ
attempt_after snapshot route =
    if route.retryable then safe_add (route_attempt_count snapshot route.id) 1 else none

module _ (host : Host) (snapshot : KernelSnapshot) (event : EventEnvelope) (route : LifecycleRoute)
    (authority : Option PhaseAuthority) (rebind : Option AuthorityRebind) (totals : Totals)
    (context : KernelContext) where
  pub record Committed (t : Transition) : Type 0 where
    pub route_eq : t.route ≡ route
    pub receipt_eq :
        t.receipt
        ≡ receipt_of host snapshot event route authority
            (destination_of host snapshot context rebind)
            totals
    pub digest_eq : t.receipt_digest ≡ host.digest (Document.transition_receipt t.receipt)
    pub snapshot_eq :
        t.snapshot
        ≡ next_snapshot host snapshot event route authority
            (destination_of host snapshot context rebind)
            totals
            t.receipt_digest
            (attempt_after snapshot route)
    pub effects_eq : t.effects ≡ effects_of event authority route
    pub schema : host.schema_errors (Document.kernel_snapshot t.snapshot) ≡ none
    pub semantics :
        validate_snapshot_lifecycle_semantics t.snapshot
          (destination_of host snapshot context rebind).graph
        ≡ []

  pub commit-Committed :
      (t : Transition)
      → commit host snapshot event route authority rebind totals context ≡ applied t
      → Committed t
  unfolding commit
  commit-Committed t h =
      let (overflow, h1) = >>-eq-applied _ _ h in
      let (invalid, h2) = >>-eq-applied _ _ h1 in
      let (schema, semantics) = or-false _ _ (refuse_when-eq-applied _ snapshot _ invalid) in
      subst Committed (applied_inj h2) (record {
        route_eq = refl;
        receipt_eq = refl;
        digest_eq = refl;
        snapshot_eq = refl;
        effects_eq = refl;
        schema = is_some-none _ schema;
        semantics = is_empty-nil _ semantics;
      })

-- The snapshot's own checks, as facts.
module _ (host : Host) (snapshot : KernelSnapshot) (event : EventEnvelope)
    (context : KernelContext) where
  pub check_contract-graph :
      check_contract host snapshot context ≡ applied tt
      → validate_lifecycle_graph context.graph ≡ []
  unfolding check_contract
  check_contract-graph h =
      is_empty-nil _ (guards-eq-applied snapshot (contract_guards host snapshot context) h).0

  pub check_envelope-sequence :
      check_envelope host snapshot event context ≡ applied tt
      → snapshot.last_event_sequence < event.sequence
  unfolding check_envelope
  check_envelope-sequence h =
      leb-false
        (guards-eq-applied snapshot (envelope_guards host snapshot event context) h).1.1.1.1.1.0

  pub resolve_route-IsCandidate :
      (route : LifecycleRoute)
      → resolve_route snapshot event context.graph ≡ applied route
      → IsCandidate context.graph snapshot.state event.event_type snapshot.suspended_state
          snapshot.recovery_state route
  unfolding resolve_route
  resolve_route-IsCandidate route h =
      (select_route-selected context.graph snapshot.state event.event_type snapshot.suspended_state
        snapshot.recovery_state route (route_or_refusal-selected snapshot _ route h)).0

-- The three sums of an accepted accounting.
pub record Summed (snapshot : KernelSnapshot) (event : EventEnvelope) (entering : Bool)
    (totals : Totals) : Type 0 where
  pub usage : add_usage snapshot.usage event ≡ some totals.usage
  pub phase_usage :
      add_usage (if entering then empty_usage else snapshot.phase_usage) event
      ≡ some totals.phase_usage
  pub version : safe_add snapshot.state_version 1 ≡ some totals.state_version

totals_of-sums :
    (snapshot : KernelSnapshot) (u p : Option Usage) (v : Option ℕ) (t : Totals)
    → totals_of snapshot u p v ≡ applied t
    → (u ≡ some t.usage) × (p ≡ some t.phase_usage) × (v ≡ some t.state_version)
unfolding totals_of
totals_of-sums snapshot (some u) (some p) (some v) t h = (cc, cc, cc)
totals_of-sums snapshot (some u) (some p) none t h = cc
totals_of-sums snapshot (some u) none v t h = cc
totals_of-sums snapshot none p v t h = cc

module _ (snapshot : KernelSnapshot) (event : EventEnvelope) (route : LifecycleRoute)
    (entering : Bool) (policy : Option CompiledPolicy) (rebind : Option AuthorityRebind)
    (context : KernelContext) where
  pub record Accounted (totals : Totals) : Type 0 where
    pub sums : Summed snapshot event entering totals
    pub lifetime :
        validate_lifetime_budget snapshot totals.usage (effective_budget context rebind)
        ≡ applied tt
    pub phase : validate_phase_budget snapshot totals.phase_usage policy ≡ applied tt
    pub lease : validate_lease_cost_budget snapshot event route totals.usage context ≡ applied tt

  pub account-Accounted :
      (totals : Totals)
      → account snapshot event route entering policy rebind context ≡ applied totals
      → Accounted totals
  unfolding account
  account-Accounted totals h =
      let (t, sums, h1) = >>=-eq-applied _ _ h in
      let (lifetime, h2) = >>-eq-applied _ _ h1 in
      let (phase, h3) = >>-eq-applied _ _ h2 in
      let (lease, h4) = >>-eq-applied _ _ h3 in
      let (u, p, v) = totals_of-sums snapshot _ _ _ t sums in
      subst Accounted (applied_inj h4) (record {
        sums = record { usage = u; phase_usage = p; version = v };
        lifetime = lifetime;
        phase = phase;
        lease = lease;
      })

-- The facts of an applied evaluation.
module _ (host : Host) (compiler : PolicyCompiler) (snapshot : KernelSnapshot)
    (event : EventEnvelope) (context : KernelContext) (t : Transition)
    (done : evaluate_transition host compiler snapshot event context ≡ applied t) where
  pub passed : Passed host compiler snapshot event context t
  passed = evaluate_transition-Passed host compiler snapshot event context t done

  pub committed :
      Committed host snapshot event passed.route passed.destination passed.rebind passed.totals
        context t
  committed =
      commit-Committed host snapshot event passed.route passed.destination passed.rebind
        passed.totals context t passed.committed

  pub accounted :
      Accounted snapshot event passed.route
        (enters_new_phase passed.current passed.destination)
        (effective_policy passed.current passed.destination)
        passed.rebind
        context
        passed.totals
  accounted =
      account-Accounted snapshot event passed.route _ _ passed.rebind context passed.totals
        passed.totals_eq

  pub candidate :
      IsCandidate context.graph snapshot.state event.event_type snapshot.suspended_state
        snapshot.recovery_state t.route
  candidate =
      subst
        (IsCandidate context.graph snapshot.state event.event_type snapshot.suspended_state
          snapshot.recovery_state)
        (sym committed.route_eq)
        (resolve_route-IsCandidate host snapshot event context passed.route passed.route_eq)

  pub graph_valid : validate_lifecycle_graph context.graph ≡ []
  graph_valid = check_contract-graph host snapshot event context passed.contract
