-- ===== src/Kernel/Resolution.antt =====
-- The middle of `evaluateTransition`: the graph and the digests are current, the current phase
-- authority, the route, and the destination's authority.
use hyperfinite.Common.{
  String, Bool, false, not, ◌||◌, Option, none, some, List, [], ◌∷◌, is_some, is_empty, all, ◌==◌,
  ◌!=◌, if◌then◌else◌, string_eq, option_eq,
}
use hyperfinite.Types.Lifecycle.{
  LifecycleState, PhaseOwner, ActivePhaseOwner, LifecycleStateDefinition, LifecycleRoute,
  LifecycleGraph, LifecycleState-eq, PhaseOwner-eq, ActivePhaseOwner-eq,
}
use hyperfinite.Types.Accord.{Digest}
use hyperfinite.Types.Policy.{PhaseContract}
use hyperfinite.Types.Event.{EventEnvelope}
use hyperfinite.Types.Snapshot.{
  KernelSnapshot, RefusalCode, Recovery, KernelRefusal, Outcome, applied, refused,
}
use hyperfinite.Host.{Host, Document, compute_compiled_policy_digest}
use hyperfinite.Lifecycle.{active_phase_of, phase_owner_of, retained_state}
use hyperfinite.Lifecycle.Graph.{find_state, validate_lifecycle_graph}
use hyperfinite.Lifecycle.Semantics.{validate_snapshot_lifecycle_semantics}
use hyperfinite.Lifecycle.Selection.{RouteSelection, select_route}
use hyperfinite.Policy.{PolicyCompilation, PolicyCompiler}
use hyperfinite.Outcome.{◌>>=◌, ◌>>◌, refusal, refuse_when, guards}
use hyperfinite.Kernel.{KernelContext, PhaseAuthority}

-- `graph.states.find((state) => state.id === id)?.phaseOwner`, narrowed to the active phases.
unfoldable pub active_owner_of :
    LifecycleState → List LifecycleStateDefinition → Option ActivePhaseOwner
active_owner_of id states = elim (find_state id states) [
  | none ↦ none
  | some state ↦ active_phase_of state.phase_owner
]

-- The active owners of the states that have a route to COMPLETED.
unfoldable pub completing_owners :
    List LifecycleStateDefinition → List LifecycleRoute → List ActivePhaseOwner
unfolding active_owner_of
completing_owners states [] = []
completing_owners states (r ∷ routes) =
    let rest = completing_owners states routes in
    if r.to == LifecycleState.completed
    then elim (active_owner_of r.from states) [ none ↦ rest | some owner ↦ owner ∷ rest ]
    else rest

-- The owner, if the set of them has one element.
unfoldable pub single_owner : List ActivePhaseOwner → Option ActivePhaseOwner
single_owner [] = none
single_owner (o ∷ owners) = if all (λ p. p == o) owners then some o else none

unfoldable pub expected_authority_phase : KernelSnapshot → LifecycleGraph → Option ActivePhaseOwner
unfolding completing_owners single_owner
expected_authority_phase snapshot graph =
    elim (retained_state snapshot.state snapshot.suspended_state snapshot.recovery_state) [
      | some retained ↦ active_owner_of retained graph.states
      | none ↦
          if snapshot.state == LifecycleState.completed
          then single_owner (completing_owners graph.states graph.routes)
          else active_phase_of snapshot.phase_owner
    ]

abbrev contract_stale : String → KernelSnapshot → Outcome (Option PhaseAuthority)
contract_stale rule_id snapshot =
    refused (refusal RefusalCode.contract_stale rule_id false Recovery.new_contract) snapshot

unfoldable pub route_or_refusal : KernelSnapshot → RouteSelection → Outcome LifecycleRoute
route_or_refusal snapshot RouteSelection.no_route =
    refused
      (refusal RefusalCode.invalid_transition "lifecycle.allowed-route" false Recovery.nothing)
      snapshot
route_or_refusal snapshot RouteSelection.ambiguous =
    refused (refusal RefusalCode.ambiguous_route "lifecycle.unique-route" false Recovery.nothing)
      snapshot
route_or_refusal snapshot (RouteSelection.selected route) = applied route

-- `selectRoute` and the refusals of its two failures.
unfoldable pub resolve_route :
    KernelSnapshot → EventEnvelope → LifecycleGraph → Outcome LifecycleRoute
resolve_route snapshot event graph = route_or_refusal snapshot (
    select_route graph snapshot.state event.event_type snapshot.suspended_state
      snapshot.recovery_state)

-- The result of the policy compiler, as an authority.
unfoldable pub authority_or_refusal :
    PhaseContract → KernelSnapshot → PolicyCompilation → Outcome PhaseAuthority
authority_or_refusal contract snapshot (PolicyCompilation.compiled policy) =
    applied (record { contract = contract; compiled = policy })
authority_or_refusal contract snapshot (PolicyCompilation.failed errors) =
    refused (refusal RefusalCode.policy_escalation "policy.compile" false Recovery.new_contract)
      snapshot

-- `currentAuthority` where a digest is null.
unfoldable pub unbound_authority :
    (partly_bound requires_authority : Bool) → KernelSnapshot → Outcome (Option PhaseAuthority)
unbound_authority partly_bound requires_authority snapshot =
    if partly_bound
    then contract_stale "phase.current-binding" snapshot
    else if requires_authority
    then contract_stale "phase.required-for-state" snapshot
    else applied none

module _ (host : Host) where
  abbrev pub contract_guards : KernelSnapshot → KernelContext → List (Bool × KernelRefusal)
  contract_guards snapshot context =
      let graph_digest = host.digest (Document.lifecycle_graph context.graph) in
      let accord = context.work_accord in
      (
        not (is_empty (validate_lifecycle_graph context.graph)),
        (refusal RefusalCode.graph_invalid "graph.semantic-validity" false Recovery.nothing),
      )
      ∷ (
        context.graph.version != snapshot.lifecycle_version,
        (refusal RefusalCode.unknown_version "contract.known-version" false Recovery.new_contract),
      )
      ∷ (
        graph_digest != snapshot.lifecycle_graph_digest
            || graph_digest != accord.binding.lifecycle_graph_digest,
        (refusal RefusalCode.contract_stale "lifecycle.exact-digest" false Recovery.new_contract),
      )
      ∷ (
        not (is_empty (validate_snapshot_lifecycle_semantics snapshot context.graph)),
        (refusal RefusalCode.contract_stale "snapshot.lifecycle-authority" false
            Recovery.new_contract),
      )
      ∷ (
        host.digest (Document.work_accord accord) != snapshot.work_accord_digest
            || accord.binding.policy_digest != snapshot.policy_digest
            || host.digest (Document.control_policy context.policy) != snapshot.policy_digest
            || accord.policy.capability_registry_digest != snapshot.capability_registry_digest
            || host.digest (Document.capability_registry context.registry)
              != snapshot.capability_registry_digest
            || accord.policy.domain_pack_digest != snapshot.domain_pack_digest
            || host.digest (Document.domain_pack_policy context.domain_pack)
              != snapshot.domain_pack_digest,
        (refusal RefusalCode.contract_stale "contract.current-digests" false Recovery.new_contract),
      )
      ∷ (
        accord.binding.current_head != snapshot.current_head,
        (refusal RefusalCode.current_head_stale "binding.current-head" false Recovery.reconcile),
      )
      ∷ []

  -- From the lifecycle graph's validity to the current head.
  unfoldable pub check_contract : KernelSnapshot → KernelContext → Outcome (Unit {0})
  check_contract snapshot context = guards snapshot (contract_guards snapshot context)

  module _ (compiler : PolicyCompiler) where
    unfoldable pub compile_authority :
        PhaseContract → KernelSnapshot → KernelContext → Outcome PhaseAuthority
    compile_authority contract snapshot context = authority_or_refusal contract snapshot (
        compiler.compile_policy (record {
          enterprise = context.policy;
          accord = context.work_accord;
          phase = contract;
          domain_pack = context.domain_pack;
          registry = context.registry;
        }))

    -- `currentAuthority` where both digests are bound.
    unfoldable pub bound_authority :
        (contract_digest policy_digest : Digest)
        → Option PhaseContract
        → KernelSnapshot
        → KernelContext
        → Outcome (Option PhaseAuthority)
    bound_authority contract_digest policy_digest none snapshot context =
        contract_stale "phase.current-binding" snapshot
    bound_authority contract_digest policy_digest (some contract) snapshot context = do
      authority ← compile_authority contract snapshot context
      refuse_when
          (host.digest (Document.phase_contract authority.contract) != contract_digest
            || compute_compiled_policy_digest host authority.compiled.body != policy_digest)
          snapshot
          (refusal RefusalCode.contract_stale "phase.current-digests" false Recovery.new_contract)
      refuse_when (some authority.contract.phase != expected_authority_phase snapshot context.graph)
          snapshot
          (refusal RefusalCode.contract_stale "phase.current-owner" false Recovery.new_contract)
      applied (some authority)

    unfoldable pub authority_by_digests :
        (contract_digest policy_digest : Option Digest) (requires_authority : Bool)
        → KernelSnapshot
        → KernelContext
        → Outcome (Option PhaseAuthority)
    authority_by_digests (some c) (some p) requires_authority snapshot context =
        bound_authority c p context.current_phase_contract snapshot context
    authority_by_digests c p requires_authority snapshot context =
        unbound_authority (is_some c || is_some p || is_some context.current_phase_contract)
          requires_authority snapshot

    unfoldable pub current_authority :
        KernelSnapshot
        → KernelContext
        → (requires_authority : Bool) → Outcome (Option PhaseAuthority)
    current_authority snapshot context requires_authority =
        authority_by_digests snapshot.phase_contract_digest snapshot.compiled_policy_digest
          requires_authority snapshot context

    -- `destinationAuthority` for a route into an active phase.
    unfoldable pub active_destination :
        KernelSnapshot
        → LifecycleRoute
        → Option PhaseContract
        → KernelContext
        → Outcome (Option PhaseAuthority)
    active_destination snapshot route none context =
        contract_stale "phase.destination-binding" snapshot
    active_destination snapshot route (some contract) context = do
      authority ← compile_authority contract snapshot context
      refuse_when (phase_owner_of authority.contract.phase != route.phase_owner) snapshot
          (refusal RefusalCode.contract_stale "phase.destination-owner" false Recovery.new_contract)
      applied (some authority)

    unfoldable pub destination_authority :
        KernelSnapshot
        → LifecycleRoute
        → (current : Option PhaseAuthority) → KernelContext
        → Outcome (Option PhaseAuthority)
    destination_authority snapshot route current context =
        if route.to == LifecycleState.activation_pending || route.to == LifecycleState.cancelled
        then applied none
        else if route.phase_owner == PhaseOwner.kernel
        then applied current
        else if not (is_some (active_phase_of route.phase_owner))
        then refused
            (refusal RefusalCode.graph_invalid "phase.active-destination" false Recovery.nothing)
            snapshot
        else active_destination snapshot route context.destination_phase_contract context
