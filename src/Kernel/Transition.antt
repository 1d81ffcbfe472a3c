-- ===== src/Kernel/Transition.antt =====
-- `evaluateTransition` (src/kernel.ts): the stages in the order of the source.
pub mod Inversion
pub mod Stages
pub mod Unchanged
pub mod Effect
pub mod Progress
pub mod Budgets
pub mod Ceilings
pub mod Replay
pub mod Linked
pub mod Rebound
pub mod Coherent
pub mod Leased
pub mod Authorities
pub mod Compiled
pub mod Actors
use hyperfinite.Common.{Bool, ◌∷◌, [], List, not, Option, none, some}
use hyperfinite.Types.Lifecycle.{LifecycleRoute}
use hyperfinite.Types.Accord.{Digest}
use hyperfinite.Types.Policy.{CompiledPolicy}
use hyperfinite.Types.Event.{EventEnvelope, AuthorityRebind, ActivationLease}
use hyperfinite.Types.Snapshot.{KernelSnapshot, Outcome, applied, KernelResult}
use hyperfinite.Host.{Host, Document}
use hyperfinite.Lifecycle.{allows_null_phase_authority, classify_route_authority}
use hyperfinite.Authorization.{GateInput, authorize_actor}
use hyperfinite.Policy.{PolicyCompiler}
use hyperfinite.Outcome.{◌>>=◌, ◌>>◌, refuse_with}
use hyperfinite.Kernel.{KernelContext, PhaseAuthority}
use hyperfinite.Kernel.Boundary.{check_schemas, check_replay, check_envelope}
use hyperfinite.Kernel.Resolution.{
  check_contract, current_authority, resolve_route, destination_authority,
}
use hyperfinite.Kernel.Lease.{validate_lease_authority}
use hyperfinite.Kernel.Requirements.{enters_new_phase, validate_phase_requirements}
use hyperfinite.Kernel.Guards.{capability_stage, route_attempt_refusal}
use hyperfinite.Kernel.Rebind.{validate_authority_rebind}
use hyperfinite.Kernel.Accounting.{account}
use hyperfinite.Kernel.Commit.{commit}

-- `destination?.compiled ?? current?.compiled ?? null`
unfoldable pub effective_policy :
    (current destination : Option PhaseAuthority) → Option CompiledPolicy
effective_policy current (some destination) = some destination.compiled
effective_policy (some current) none = some current.compiled
effective_policy none none = none

module _ (host : Host) where
  abbrev lease_digest : Option ActivationLease → Option Digest
  lease_digest none = none
  lease_digest (some lease) = some (host.digest (Document.activation_lease lease))

  -- The gate's input in the call of `authorizeActor`; the route gives the gate.
  unfoldable pub actor_input : KernelSnapshot → KernelContext → GateInput
  actor_input snapshot context = record {
    gate = "";
    policy = context.policy;
    requester_id = context.requester_id;
    work_accord_digest = snapshot.work_accord_digest;
    activation_lease_digest = lease_digest context.activation_lease;
    current_head = snapshot.current_head;
    gate_evidence = context.human_gate_evidence;
    evaluated_at = context.evaluated_at;
    expected_actor = none;
  }

  module _ (compiler : PolicyCompiler) where
    -- From the lease's authority to the route's attempts; the replacement authority, if any.
    unfoldable pub check_guards :
        KernelSnapshot
        → EventEnvelope
        → LifecycleRoute
        → (current destination : Option PhaseAuthority) → KernelContext
        → Outcome (Option AuthorityRebind)
    check_guards snapshot event route current destination context = do
      validate_lease_authority host snapshot route (effective_policy current destination) context
      validate_phase_requirements host snapshot event route current destination context
      refuse_with (authorize_actor host event.actor route (actor_input snapshot context)) snapshot
      rebind ← validate_authority_rebind host compiler snapshot event context
      capability_stage (classify_route_authority route) snapshot current destination context
      route_attempt_refusal snapshot event route context
      applied rebind

    -- From the resolved route to the result.
    unfoldable pub take_route :
        KernelSnapshot
        → EventEnvelope
        → LifecycleRoute
        → (current : Option PhaseAuthority) → KernelContext
        → KernelResult
    take_route snapshot event route current context = do
      destination ← destination_authority host compiler snapshot route current context
      rebind ← check_guards snapshot event route current destination context
      totals ←
          account snapshot event route (enters_new_phase current destination)
            (effective_policy current destination) rebind context
      commit host snapshot event route destination rebind totals context

    unfoldable pub evaluate_transition :
        KernelSnapshot → EventEnvelope → KernelContext → KernelResult
    evaluate_transition snapshot event context = do
      check_schemas host snapshot event context
      check_replay host snapshot event
      check_envelope host snapshot event context
      check_contract host snapshot context
      current ←
          current_authority host compiler snapshot context
            (not (allows_null_phase_authority snapshot.state))
      route ← resolve_route snapshot event context.graph
      take_route snapshot event route current context
