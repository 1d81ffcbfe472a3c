-- ===== src/Kernel/Transition/Unchanged.antt =====
-- A noop or a refusal gives back the snapshot that it was given.
use hyperfinite.Common.{◌≡◌, subst, Bool, true, false, Option, none, some, List, [], ◌∷◌}
use hyperfinite.Types.Accord.{Digest}
use hyperfinite.Types.Lifecycle.{LifecycleRoute}
use hyperfinite.Types.Policy.{PhaseContract, CompiledPolicy}
use hyperfinite.Types.Event.{EventEnvelope, AuthorityRebind}
use hyperfinite.Types.Snapshot.{KernelSnapshot, KernelResult}
use hyperfinite.Host.{Host}
use hyperfinite.Policy.{PolicyCompiler}
use hyperfinite.Outcome.{KeepsOnStop, KeepsOnStop->>, KeepsOnStop->>=, keep_rules, IsKept}
use hyperfinite.Kernel.{KernelContext, PhaseAuthority}
use hyperfinite.Kernel.Boundary.{check_replay}
use hyperfinite.Kernel.Resolution.{
  resolve_route, compile_authority, bound_authority, authority_by_digests, current_authority,
  active_destination, destination_authority,
}
use hyperfinite.Kernel.Lease.{validate_lease_authority}
use hyperfinite.Kernel.Rebind.{
  compile_contracts, check_replacement, rebind_for, validate_authority_rebind,
}
use hyperfinite.Kernel.Transition.{check_guards, take_route, evaluate_transition}
use hyperfinite.Kernel.Transition.Stages.{
  route_or_refusal-keeps, authority_or_refusal-keeps, check_compilation-keeps,
  unbound_authority-keeps, capability_stage-keeps, check_schemas-keeps, replay_of-keeps,
  check_envelope-keeps, check_contract-keeps, requirements-keeps, lease_for_phase-keeps,
  attempts-keeps, account-keeps, commit-keeps,
}

module _ (host : Host) (snapshot : KernelSnapshot) (event : EventEnvelope)
    (context : KernelContext) where
  module _ (compiler : PolicyCompiler) where
    compile_authority-keeps :
        (c : PhaseContract)
        → KeepsOnStop snapshot (compile_authority host compiler c snapshot context)
    unfolding compile_authority
    compile_authority-keeps c = authority_or_refusal-keeps snapshot c _

    bound_authority-keeps :
        (d p : Digest) (c : Option PhaseContract)
        → KeepsOnStop snapshot (bound_authority host compiler d p c snapshot context)
    unfolding bound_authority
    bound_authority-keeps d p none = search keep_rules
    bound_authority-keeps d p (some c) =
        KeepsOnStop->>= snapshot _ _ (compile_authority-keeps c) (λ a. search keep_rules)

    authority_by_digests-keeps :
        (c p : Option Digest) (b : Bool)
        → KeepsOnStop snapshot (authority_by_digests host compiler c p b snapshot context)
    unfolding authority_by_digests
    authority_by_digests-keeps (some c) (some p) b = bound_authority-keeps c p _
    authority_by_digests-keeps _ _ b = unbound_authority-keeps snapshot _ b

    active_destination-keeps :
        (route : LifecycleRoute) (c : Option PhaseContract)
        → KeepsOnStop snapshot (active_destination host compiler snapshot route c context)
    unfolding active_destination
    active_destination-keeps route none = search keep_rules
    active_destination-keeps route (some c) =
        KeepsOnStop->>= snapshot _ _ (compile_authority-keeps c) (λ a. search keep_rules)

    destination-keeps :
        (route : LifecycleRoute) (c : Option PhaseAuthority)
        → KeepsOnStop snapshot (destination_authority host compiler snapshot route c context)
    unfolding destination_authority
    destination-keeps route c = search (keep_rules, active_destination-keeps)

    contracts-keeps :
        (r : AuthorityRebind) (cs : List PhaseContract)
        → KeepsOnStop snapshot (compile_contracts host compiler r snapshot cs)
    unfolding compile_contracts
    contracts-keeps r [] = search keep_rules
    contracts-keeps r (c ∷ cs) =
        KeepsOnStop->> snapshot _ _ (check_compilation-keeps snapshot _) (contracts-keeps r cs)

    check_replacement-keeps :
        (r : AuthorityRebind)
        → KeepsOnStop snapshot (check_replacement host compiler snapshot event context r)
    unfolding check_replacement
    check_replacement-keeps r = search (keep_rules, contracts-keeps) depth 12

    rebind_for-keeps :
        (b : Bool) (r : Option AuthorityRebind)
        → KeepsOnStop snapshot (rebind_for host compiler b r snapshot event context)
    unfolding rebind_for
    rebind_for-keeps false none = search keep_rules
    rebind_for-keeps false (some r) = search keep_rules
    rebind_for-keeps true none = search keep_rules
    rebind_for-keeps true (some r) = check_replacement-keeps r

    rebinds-keeps :
        KeepsOnStop snapshot (validate_authority_rebind host compiler snapshot event context)
    unfolding validate_authority_rebind
    rebinds-keeps = rebind_for-keeps _ _

    lease-keeps :
        (route : LifecycleRoute) (c : Option CompiledPolicy)
        → KeepsOnStop snapshot (validate_lease_authority host snapshot route c context)
    unfolding validate_lease_authority
    lease-keeps route c = (lease_for_phase-keeps host snapshot event context) _ c _

    check_guards-keeps :
        (route : LifecycleRoute) (c d : Option PhaseAuthority)
        → KeepsOnStop snapshot (check_guards host compiler snapshot event route c d context)
    unfolding check_guards
    check_guards-keeps route c d =
        search
          (
            keep_rules, lease-keeps, requirements-keeps, rebinds-keeps, capability_stage-keeps,
            attempts-keeps,
          )
          depth 10

    take_route-keeps :
        (route : LifecycleRoute) (c : Option PhaseAuthority)
        → KeepsOnStop snapshot (take_route host compiler snapshot event route c context)
    unfolding take_route
    take_route-keeps route c =
        search (keep_rules, destination-keeps, check_guards-keeps, account-keeps, commit-keeps)
          depth 10

    current-keeps :
        (b : Bool) → KeepsOnStop snapshot (current_authority host compiler snapshot context b)
    unfolding current_authority
    current-keeps b = authority_by_digests-keeps _ _ b

    replay-keeps : KeepsOnStop snapshot (check_replay host snapshot event)
    unfolding check_replay
    replay-keeps = (replay_of-keeps host snapshot event context) _

    route-keeps : KeepsOnStop snapshot (resolve_route snapshot event context.graph)
    unfolding resolve_route
    route-keeps = route_or_refusal-keeps snapshot _

    evaluate-keeps : KeepsOnStop snapshot (evaluate_transition host compiler snapshot event context)
    unfolding evaluate_transition
    evaluate-keeps =
        search
          (
            keep_rules, check_schemas-keeps, replay-keeps, check_envelope-keeps,
            check_contract-keeps, current-keeps, route-keeps, take_route-keeps,
          )
          depth 12

    -- Whatever the event and the context, an evaluation that is a noop or a refusal returns the
    -- snapshot that it was given.
    pub unapplied_keeps_snapshot :
        (r : KernelResult)
        → evaluate_transition host compiler snapshot event context ≡ r
        → IsKept snapshot r
    unapplied_keeps_snapshot r h = subst (IsKept snapshot) h evaluate-keeps.at
