-- ===== src/Kernel/Transition/Actors.antt =====
-- Who may take a route: the actor of an applied transition.
use hyperfinite.Common.{String, ◌≡◌, true, sym, subst, some, none, Memᴰ, includes}
use hyperfinite.Types.Lifecycle.{ActorClass-eq}
use hyperfinite.Types.Event.{EventEnvelope, HumanGateEvidence}
use hyperfinite.Types.Snapshot.{KernelSnapshot, Transition, applied}
use hyperfinite.Host.{Host}
use hyperfinite.Authorization.{GateInput, authorize_identity, authorize_actor}
use hyperfinite.Authorization.Laws.{
  IsOwnEvidence, authorize_actor-identity, authorize_actor-IsOwnEvidence,
}
use hyperfinite.Policy.{PolicyCompiler}
use hyperfinite.Kernel.{KernelContext}
use hyperfinite.Kernel.Transition.{actor_input, evaluate_transition}
use hyperfinite.Kernel.Transition.Effect.{passed, committed}

-- The question that the kernel asks of a gate for the actor of an event.
abbrev pub gate_input : Host → KernelSnapshot → EventEnvelope → KernelContext → String → GateInput
gate_input host snapshot event context gate = record (actor_input host snapshot context) {
  gate = gate;
  expected_actor = some event.actor;
}

module _ (host : Host) (compiler : PolicyCompiler) (snapshot : KernelSnapshot)
    (event : EventEnvelope) (context : KernelContext) (t : Transition)
    (done : evaluate_transition host compiler snapshot event context ≡ applied t) where
  authorized : authorize_actor host event.actor t.route (actor_input host snapshot context) ≡ none
  authorized =
      subst (λ r. authorize_actor host event.actor r (actor_input host snapshot context) ≡ none)
        (sym (committed host compiler snapshot event context t done).route_eq)
        (passed host compiler snapshot event context t done).guarded.actor

  -- The actor of an applied transition is of a class that its route admits, and its identity is
  -- authorized under the context's policy.
  pub applied-actor :
      (includes t.route.actor_classes event.actor.actor_class ≡ true)
      × (authorize_identity context.policy event.actor ≡ none)
  unfolding actor_input
  applied-actor =
      authorize_actor-identity host event.actor t.route (actor_input host snapshot context)
        authorized

  -- Where the route of an applied transition has a human gate, the event's actor has evidence of
  -- its own in the context that is valid for the gate at the evaluation: of an identified human
  -- and no bot, independent of the requester where the policy asks for it, current, and bound to
  -- the accord; for the gate `activate` it is bound to the activation lease too, and for
  -- `approve-current-head` to the current head.
  pub applied-IsOwnEvidence :
      (gate : String)
      → t.route.human_gate ≡ some gate
      → (e : HumanGateEvidence) × Memᴰ e context.human_gate_evidence
        × IsOwnEvidence host (gate_input host snapshot event context gate) event.actor e
  unfolding actor_input
  applied-IsOwnEvidence gate gated =
      authorize_actor-IsOwnEvidence host event.actor t.route (actor_input host snapshot context)
        gate gated authorized
