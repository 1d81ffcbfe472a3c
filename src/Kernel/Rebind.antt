-- ===== src/Kernel/Rebind.antt =====
-- Replacement authority (src/kernel.ts, `validateAuthorityRebind`).
use Prim.Native.String.{◌++◌ as join}
use hyperfinite.Common.{
  ℕ, suc, String, Bool, true, false, not, ◌&&◌, ◌||◌, Option, none, some, List, [], ◌∷◌, map,
  length, includes, is_empty, ◌==◌, ◌!=◌, if◌then◌else◌, string_eq, nat_eq, option_eq,
}
use hyperfinite.Types.Lifecycle.{
  ActorClass, EventType, ActivePhaseOwner-eq, ActorClass-eq, EventType-eq,
}
use hyperfinite.Types.Policy.{PhaseContract, DomainPackPolicy}
use hyperfinite.Types.Event.{EventSource, EventEnvelope, AuthorityRebind, EventSource-eq}
use hyperfinite.Types.Snapshot.{
  KernelSnapshot, RefusalCode, Recovery, KernelRefusal, Outcome, applied, refused,
}
use hyperfinite.Host.{Host, Document, work_accord_binding_digest}
use hyperfinite.Lifecycle.Graph.{validate_lifecycle_graph}
use hyperfinite.Policy.{PolicyCompilation, PolicyCompiler}
use hyperfinite.Outcome.{◌>>◌, refusal, guards}
use hyperfinite.Kernel.{KernelContext, safe_add}

-- `${domainPack.id}@${domainPack.version}`
abbrev pub pack_reference : DomainPackPolicy → String
pack_reference pack = join pack.id (join "@" pack.version)

unfoldable pub is_trusted_source : EventEnvelope → Bool
is_trusted_source event =
    (event.source == EventSource.trusted_adapter && event.actor.actor_class == ActorClass.system)
    || (event.source == EventSource.policy_engine && event.actor.actor_class == ActorClass.policy)

-- The size of the map from phases to contracts.
unfoldable pub phase_count : List PhaseContract → ℕ
phase_count [] = 0
phase_count (c ∷ contracts) =
    let rest = phase_count contracts in
    if includes (map (λ (d : PhaseContract). d.phase) contracts) c.phase then rest else suc rest

-- `nextRevision === null || ...`
unfoldable pub is_not_superseding : Option ℕ → AuthorityRebind → KernelContext → Bool
is_not_superseding none replacement context = true
is_not_superseding (some next_revision) replacement context =
    replacement.work_accord.identity.revision != next_revision
    || replacement.work_accord.identity.supersedes != some context.work_accord.identity.id
    || replacement.work_accord.identity.id == context.work_accord.identity.id

unfoldable pub check_compilation : KernelSnapshot → PolicyCompilation → Outcome (Unit {0})
check_compilation snapshot (PolicyCompilation.compiled policy) = applied tt
check_compilation snapshot (PolicyCompilation.failed errors) =
    refused
      (refusal RefusalCode.policy_escalation "rebind.policy-compile" false Recovery.new_contract)
      snapshot

module _ (host : Host) where
  unfoldable pub is_misbound : AuthorityRebind → KernelSnapshot → Bool
  is_misbound replacement snapshot =
      let accord = replacement.work_accord in
      replacement.binding_digest != work_accord_binding_digest host accord
      || replacement.binding_digest != snapshot.binding_digest
      || host.digest (Document.lifecycle_graph replacement.graph)
        != accord.binding.lifecycle_graph_digest
      || host.digest (Document.control_policy replacement.policy) != accord.binding.policy_digest
      || host.digest (Document.capability_registry replacement.registry)
        != accord.policy.capability_registry_digest
      || host.digest (Document.domain_pack_policy replacement.domain_pack)
        != accord.policy.domain_pack_digest
      || pack_reference replacement.domain_pack != accord.policy.domain_pack

  module _ (compiler : PolicyCompiler) where
    -- The loop that compiles every replacement contract; it ends at the first failure.
    unfoldable pub compile_contracts :
        AuthorityRebind → KernelSnapshot → List PhaseContract → Outcome (Unit {0})
    compile_contracts replacement snapshot [] = applied tt
    compile_contracts replacement snapshot (phase ∷ phases) = do
      check_compilation snapshot (
          compiler.compile_policy (record {
            enterprise = replacement.policy;
            accord = replacement.work_accord;
            phase = phase;
            domain_pack = replacement.domain_pack;
            registry = replacement.registry;
          }))
      compile_contracts replacement snapshot phases

    abbrev pub replacement_guards :
        KernelSnapshot
        → EventEnvelope
        → KernelContext
        → AuthorityRebind
        → List (Bool × KernelRefusal)
    replacement_guards snapshot event context replacement =
        (
          event.replacement_authority_digest
              != some (host.digest (Document.authority_rebind replacement)),
          (refusal RefusalCode.provenance_invalid "rebind.event-authority-digest" false
              Recovery.reconcile),
        )
        ∷ (
          not (is_trusted_source event),
          (refusal RefusalCode.provenance_invalid "rebind.trusted-source" false Recovery.reconcile),
        )
        ∷ (
          is_not_superseding (safe_add context.work_accord.identity.revision 1) replacement context,
          (refusal RefusalCode.contract_stale "rebind.linear-supersession" false
              Recovery.new_contract),
        )
        ∷ (
          is_misbound replacement snapshot,
          (refusal RefusalCode.contract_stale "rebind.exact-bindings" false Recovery.new_contract),
        )
        ∷ (
          replacement.graph.version != snapshot.lifecycle_version
              || not (is_empty (validate_lifecycle_graph replacement.graph)),
          (refusal RefusalCode.graph_invalid "rebind.lifecycle" false Recovery.new_contract),
        )
        ∷ (
          phase_count replacement.phase_contracts != length replacement.phase_contracts
              || phase_count replacement.phase_contracts
                != length replacement.work_accord.policy.phase_contracts,
          (refusal RefusalCode.contract_stale "rebind.phase-contract-set" false
              Recovery.new_contract),
        )
        ∷ []

    -- The checks of a replacement that there is.
    unfoldable pub check_replacement :
        KernelSnapshot
        → EventEnvelope
        → KernelContext
        → AuthorityRebind
        → Outcome (Option AuthorityRebind)
    check_replacement snapshot event context replacement = do
      guards snapshot (replacement_guards snapshot event context replacement)
      compile_contracts replacement snapshot replacement.phase_contracts
      applied (some replacement)

    unfoldable pub rebind_for :
        Bool
        → Option AuthorityRebind
        → KernelSnapshot
        → EventEnvelope
        → KernelContext
        → Outcome (Option AuthorityRebind)
    rebind_for false none snapshot event context = applied none
    rebind_for false (some replacement) snapshot event context =
        refused
          (refusal RefusalCode.provenance_invalid "rebind.dedicated-event" false Recovery.reconcile)
          snapshot
    rebind_for true none snapshot event context =
        refused
          (refusal RefusalCode.contract_stale "rebind.complete-authority" false
            Recovery.new_contract)
          snapshot
    rebind_for true (some replacement) snapshot event context =
        check_replacement snapshot event context replacement

    unfoldable pub validate_authority_rebind :
        KernelSnapshot → EventEnvelope → KernelContext → Outcome (Option AuthorityRebind)
    validate_authority_rebind snapshot event context =
        rebind_for (event.event_type == EventType.binding_revalidated) context.rebind_authority
          snapshot event context
