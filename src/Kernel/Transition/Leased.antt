-- ===== src/Kernel/Transition/Leased.antt =====
-- The activation lease of an applied transition into an active phase.
use hyperfinite.Common.{
  Bool, true, false, not, ◌≡◌, refl, sym, subst, ap, ◌∙◌, Option, none, some, any, all, includes,
  string_eq, arith, ◌≤◌,
}
use hyperfinite.Types.Lifecycle.{ActivePhaseOwner, ActivePhaseOwner-eq}
use hyperfinite.Types.Policy.{CompiledPolicy}
use hyperfinite.Types.Event.{EventEnvelope, ActivationLease}
use hyperfinite.Types.Snapshot.{KernelSnapshot, Transition, applied}
use hyperfinite.Host.{Host}
use hyperfinite.Lifecycle.{active_phase_of}
use hyperfinite.Policy.{PolicyCompiler}
use hyperfinite.Outcome.{guards-eq-applied}
use hyperfinite.Kernel.{KernelContext, PhaseAuthority}
use hyperfinite.Kernel.Lease.{
  is_before_both, is_activation_evidence, lease_guards, check_lease, lease_for_phase,
  validate_lease_authority,
}
use hyperfinite.Kernel.Resolution.{destination_authority}
use hyperfinite.Kernel.Transition.{effective_policy, evaluate_transition}
use hyperfinite.Kernel.Transition.Effect.{passed, committed}

-- What makes a lease an authority for the phase under a compiled policy.
pub record Leases (host : Host) (snapshot : KernelSnapshot) (context : KernelContext)
    (phase : ActivePhaseOwner) (compiled : CompiledPolicy) (lease : ActivationLease) : Type 0 where
  pub held : context.activation_lease ≡ some lease
  pub accord : lease.work_accord_digest ≡ snapshot.work_accord_digest
  pub unrevoked : lease.revoked ≡ false
  pub unexpired :
      is_before_both
        (host.parse_date context.evaluated_at)
        (host.parse_date lease.expires_at)
        (host.parse_date context.work_accord.budget.expires_at)
      ≡ true
  pub phase_allowed : includes lease.allowed_phases phase ≡ true
  pub approved :
      any (is_activation_evidence host snapshot context lease) context.human_gate_evidence ≡ true
  pub capabilities_allowed :
      all (includes lease.allowed_capabilities) compiled.allowed_capabilities ≡ true
  pub parallel : compiled.limits.max_parallel ≤ lease.max_parallel

not-false : (b : Bool) → not b ≡ false → b ≡ true
not-false b h = ground arith

module _ (host : Host) (snapshot : KernelSnapshot) (context : KernelContext) where
  check_lease-Leases :
      (phase : ActivePhaseOwner) (compiled : CompiledPolicy) (lease : ActivationLease)
      → context.activation_lease ≡ some lease
      → check_lease host snapshot phase compiled lease context ≡ applied tt
      → Leases host snapshot context phase compiled lease
  unfolding check_lease
  check_lease-Leases phase compiled lease held h =
      let facts =
        guards-eq-applied snapshot (lease_guards host snapshot phase compiled lease context) h in
      let accord = facts.0 in
      let parallel = facts.1.1.1.1.1.1.0 in
      record {
        held = held;
        accord = ground arith;
        unrevoked = facts.1.0;
        unexpired = not-false _ facts.1.1.0;
        phase_allowed = not-false _ facts.1.1.1.0;
        approved = not-false _ facts.1.1.1.1.0;
        capabilities_allowed = not-false _ facts.1.1.1.1.1.0;
        parallel = ground arith;
      }

  lease_for_phase-Leases :
      (phase : ActivePhaseOwner) (compiled : Option CompiledPolicy) (lease : Option ActivationLease)
      → context.activation_lease ≡ lease
      → lease_for_phase host (some phase) compiled lease snapshot context ≡ applied tt
      → (c : CompiledPolicy) × (l : ActivationLease) × (compiled ≡ some c)
        × Leases host snapshot context phase c l
  unfolding lease_for_phase
  lease_for_phase-Leases phase none lease held h = cc
  lease_for_phase-Leases phase (some c) none held h = cc
  lease_for_phase-Leases phase (some c) (some l) held h =
      (c, l, refl, check_lease-Leases phase c l held h)

-- An applied transition into an active phase holds a lease for it that is bound to the snapshot's
-- accord, not revoked, not expired at the evaluation, approved by current evidence of a human, and
-- that allows the phase, the parallelism and every capability of the effective compiled policy.
pub applied-Leases :
    (host : Host) (compiler : PolicyCompiler) (snapshot : KernelSnapshot) (event : EventEnvelope)
    (context : KernelContext) (t : Transition) (phase : ActivePhaseOwner)
    → evaluate_transition host compiler snapshot event context ≡ applied t
    → active_phase_of t.route.phase_owner ≡ some phase
    → (current destination : Option PhaseAuthority) × (destination_authority host compiler snapshot
          t.route current context
        ≡ applied destination)
      × (compiled : CompiledPolicy) × (lease : ActivationLease) × (effective_policy current
            destination
          ≡ some compiled)
      × Leases host snapshot context phase compiled lease
unfolding validate_lease_authority
applied-Leases host compiler snapshot event context t phase done active =
    let p = passed host compiler snapshot event context t done in
    let route_eq = sym (committed host compiler snapshot event context t done).route_eq in
    let owner = ap (λ r. active_phase_of r.phase_owner) route_eq ∙ active in
    let (c, l, policy, leases) =
      lease_for_phase-Leases host snapshot context phase (effective_policy p.current p.destination)
        context.activation_lease refl
        (subst
          (λ o.
            lease_for_phase host o (effective_policy p.current p.destination)
              context.activation_lease snapshot context
            ≡ applied tt)
          owner p.guarded.lease) in
    (
      p.current,
      p.destination,
      subst
          (λ r.
            destination_authority host compiler snapshot r p.current context
            ≡ applied p.destination)
          route_eq p.destination_eq,
      c,
      l,
      policy,
      leases,
    )
