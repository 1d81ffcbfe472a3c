-- ===== src/Kernel/Transition/Inversion.antt =====
-- What an applied transition has passed: one fact for each stage of `evaluateTransition`.
use hyperfinite.Common.{◌≡◌, ◌∙◌, Option, none, not}
use hyperfinite.Types.Lifecycle.{LifecycleRoute}
use hyperfinite.Types.Event.{EventEnvelope, AuthorityRebind}
use hyperfinite.Types.Snapshot.{KernelSnapshot, Transition, applied}
use hyperfinite.Host.{Host}
use hyperfinite.Lifecycle.{allows_null_phase_authority, classify_route_authority}
use hyperfinite.Authorization.{authorize_actor}
use hyperfinite.Policy.{PolicyCompiler}
use hyperfinite.Outcome.{>>=-eq-applied, >>-eq-applied, refuse_with-eq-applied}
use hyperfinite.Kernel.{KernelContext, PhaseAuthority}
use hyperfinite.Kernel.Boundary.{check_schemas, check_replay, check_envelope}
use hyperfinite.Kernel.Resolution.{
  check_contract, current_authority, resolve_route, destination_authority,
}
use hyperfinite.Kernel.Lease.{validate_lease_authority}
use hyperfinite.Kernel.Requirements.{enters_new_phase, validate_phase_requirements}
use hyperfinite.Kernel.Guards.{capability_stage, route_attempt_refusal}
use hyperfinite.Kernel.Rebind.{validate_authority_rebind}
use hyperfinite.Kernel.Accounting.{Totals, account}
use hyperfinite.Kernel.Commit.{commit}
use hyperfinite.Kernel.Transition.{
  effective_policy, actor_input, check_guards, take_route, evaluate_transition,
}

module _ (host : Host) (compiler : PolicyCompiler) (snapshot : KernelSnapshot)
    (event : EventEnvelope) (context : KernelContext) where
  pub record Guarded (route : LifecycleRoute) (current destination : Option PhaseAuthority)
      (rebind : Option AuthorityRebind) : Type 0 where
    pub lease :
        validate_lease_authority host snapshot route (effective_policy current destination) context
        ≡ applied tt
    pub requirements :
        validate_phase_requirements host snapshot event route current destination context
        ≡ applied tt
    pub actor : authorize_actor host event.actor route (actor_input host snapshot context) ≡ none
    pub rebinds : validate_authority_rebind host compiler snapshot event context ≡ applied rebind
    pub capabilities :
        capability_stage (classify_route_authority route) snapshot current destination context
        ≡ applied tt
    pub attempts : route_attempt_refusal snapshot event route context ≡ applied tt

  pub record Passed (t : Transition) : Type 0 where
    pub schemas : check_schemas host snapshot event context ≡ applied tt
    pub fresh : check_replay host snapshot event ≡ applied tt
    pub envelope : check_envelope host snapshot event context ≡ applied tt
    pub contract : check_contract host snapshot context ≡ applied tt
    pub current : Option PhaseAuthority
    pub current_eq :
        current_authority host compiler snapshot context
          (not (allows_null_phase_authority snapshot.state))
        ≡ applied current
    pub route : LifecycleRoute
    pub route_eq : resolve_route snapshot event context.graph ≡ applied route
    pub destination : Option PhaseAuthority
    pub destination_eq :
        destination_authority host compiler snapshot route current context ≡ applied destination
    pub rebind : Option AuthorityRebind
    pub guarded : Guarded route current destination rebind
    pub totals : Totals
    pub totals_eq :
        account snapshot event route
          (enters_new_phase current destination)
          (effective_policy current destination)
          rebind
          context
        ≡ applied totals
    pub committed : commit host snapshot event route destination rebind totals context ≡ applied t

  check_guards-Guarded :
      (route : LifecycleRoute) (current destination : Option PhaseAuthority)
      (rebind : Option AuthorityRebind)
      → check_guards host compiler snapshot event route current destination context ≡ applied rebind
      → Guarded route current destination rebind
  unfolding check_guards
  check_guards-Guarded route current destination rebind h =
      let (lease, h1) = >>-eq-applied _ _ h in
      let (requirements, h2) = >>-eq-applied _ _ h1 in
      let (actor, h3) = >>-eq-applied _ _ h2 in
      let (r, rebinds, h4) = >>=-eq-applied _ _ h3 in
      let (capabilities, h5) = >>-eq-applied _ _ h4 in
      let (attempts, h6) = >>-eq-applied _ _ h5 in
      record {
        lease = lease;
        requirements = requirements;
        actor = refuse_with-eq-applied _ snapshot actor;
        rebinds = rebinds ∙ h6;
        capabilities = capabilities;
        attempts = attempts;
      }

  -- The facts of every stage, from an applied result.
  pub evaluate_transition-Passed :
      (t : Transition)
      → evaluate_transition host compiler snapshot event context ≡ applied t
      → Passed t
  unfolding evaluate_transition take_route
  evaluate_transition-Passed t h =
      let (schemas, h1) = >>-eq-applied _ _ h in
      let (fresh, h2) = >>-eq-applied _ _ h1 in
      let (envelope, h3) = >>-eq-applied _ _ h2 in
      let (contract, h4) = >>-eq-applied _ _ h3 in
      let (current, current_eq, h5) = >>=-eq-applied _ _ h4 in
      let (route, route_eq, h6) = >>=-eq-applied _ _ h5 in
      let (destination, destination_eq, h7) = >>=-eq-applied _ _ h6 in
      let (rebind, guards, h8) = >>=-eq-applied _ _ h7 in
      let (totals, totals_eq, h9) = >>=-eq-applied _ _ h8 in
      record {
        schemas = schemas;
        fresh = fresh;
        envelope = envelope;
        contract = contract;
        current = current;
        current_eq = current_eq;
        route = route;
        route_eq = route_eq;
        destination = destination;
        destination_eq = destination_eq;
        rebind = rebind;
        guarded = check_guards-Guarded route current destination rebind guards;
        totals = totals;
        totals_eq = totals_eq;
        committed = h9;
      }
