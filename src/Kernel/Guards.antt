-- ===== src/Kernel/Guards.antt =====
-- Capability authority and route attempts (src/kernel.ts).
use hyperfinite.Common.{
  ℕ, String, Bool, false, not, ◌&&◌, Option, none, some, List, [], ◌∷◌, any, all, includes,
  own_value, ltb, ◌==◌, if◌then◌else◌, string_eq,
}
use hyperfinite.Types.Lifecycle.{
  ActorClass, EventType, LifecycleRoute, LifecycleGraph, ActorClass-eq, EventType-eq,
}
use hyperfinite.Types.Policy.{CompiledPolicy}
use hyperfinite.Types.Event.{EventEnvelope}
use hyperfinite.Types.Snapshot.{
  KernelSnapshot, RefusalCode, Recovery, KernelRefusal, Outcome, applied, refused,
}
use hyperfinite.Lifecycle.{RouteAuthorityClass}
use hyperfinite.Outcome.{◌>>◌, refusal, refuse_when, guards}
use hyperfinite.Kernel.{KernelContext, PhaseAuthority, safe_add}

-- The human gates of the lifecycle's routes.
unfoldable pub lifecycle_gates : List LifecycleRoute → List String
lifecycle_gates [] = []
lifecycle_gates (r ∷ routes) =
    let rest = lifecycle_gates routes in elim r.human_gate [ none ↦ rest | some gate ↦ gate ∷ rest ]

unfoldable pub compiled_human_gates_have_lifecycle_routes : CompiledPolicy → LifecycleGraph → Bool
unfolding lifecycle_gates
compiled_human_gates_have_lifecycle_routes compiled graph =
    all (includes (lifecycle_gates graph.routes)) compiled.required_human_gates

abbrev pub capability_guards : CompiledPolicy → KernelContext → List (Bool × KernelRefusal)
capability_guards compiled context =
    (
      any (λ c. not (includes c.actor_classes ActorClass.system)) compiled.capabilities,
      (refusal RefusalCode.policy_escalation "capability.system-actor" false Recovery.new_contract),
    )
    ∷ (
      not (compiled_human_gates_have_lifecycle_routes compiled context.graph),
      (refusal RefusalCode.policy_escalation "capability.human-gate-route" false
          Recovery.new_contract),
    )
    ∷ []

unfoldable pub validate_compiled_capability_authority :
    KernelSnapshot → CompiledPolicy → KernelContext → Outcome (Unit {0})
unfolding compiled_human_gates_have_lifecycle_routes
validate_compiled_capability_authority snapshot compiled context =
    guards snapshot (capability_guards compiled context)

-- The compiled policies of both authorities, a digest once.
unfoldable pub compiled_policies :
    (current destination : Option PhaseAuthority) → List CompiledPolicy
compiled_policies none none = []
compiled_policies none (some destination) = destination.compiled ∷ []
compiled_policies (some current) none = current.compiled ∷ []
compiled_policies (some current) (some destination) =
    if current.compiled.digest == destination.compiled.digest
    then current.compiled ∷ []
    else current.compiled ∷ destination.compiled ∷ []

unfoldable pub validate_capabilities :
    KernelSnapshot → List CompiledPolicy → KernelContext → Outcome (Unit {0})
validate_capabilities snapshot [] context = applied tt
validate_capabilities snapshot (c ∷ compiled) context = do
  validate_compiled_capability_authority snapshot c context
  validate_capabilities snapshot compiled context

-- The block under `routeAuthorityClass !== "kernel-safety"`.
unfoldable pub capability_stage :
    RouteAuthorityClass
    → KernelSnapshot
    → (current destination : Option PhaseAuthority) → KernelContext
    → Outcome (Unit {0})
capability_stage RouteAuthorityClass.kernel_safety snapshot current destination context = applied tt
capability_stage _ snapshot current destination context =
    validate_capabilities snapshot (compiled_policies current destination) context

-- `Object.hasOwn(attempts, id) ? (attempts[id] ?? 0) : 0`
unfoldable pub route_attempt_count : KernelSnapshot → String → ℕ
route_attempt_count snapshot id = elim (own_value id snapshot.route_attempts) [
  | none ↦ 0
  | some attempts ↦ attempts
]

unfoldable pub check_attempts :
    Option ℕ → KernelSnapshot → EventEnvelope → LifecycleRoute → KernelContext → Outcome (Unit {0})
check_attempts none snapshot event route context =
    refused (refusal RefusalCode.numeric_overflow "number.safe-integer" false Recovery.reconcile)
      snapshot
check_attempts (some next_attempts) snapshot event route context = do
  refuse_when (ltb route.max_attempts next_attempts) snapshot (
      refusal RefusalCode.loop_limit_exhausted "route.max-attempts" false
        Recovery.human_authorization)
  refuse_when (event.event_type == EventType.retry_requested && not context.retryable_failure)
      snapshot
      (refusal RefusalCode.retry_not_allowed "retry.classified-failure" false
        Recovery.human_authorization)

unfoldable pub route_attempt_refusal :
    KernelSnapshot → EventEnvelope → LifecycleRoute → KernelContext → Outcome (Unit {0})
route_attempt_refusal snapshot event route context =
    if route.retryable
    then check_attempts (safe_add (route_attempt_count snapshot route.id) 1) snapshot event route
        context
    else applied tt
