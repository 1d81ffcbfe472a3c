-- ===== src/Kernel/Lease.antt =====
-- Activation-lease authority (src/kernel.ts, `validateLeaseAuthority`).
use hyperfinite.Common.{
  List, ℕ, String, Bool, false, not, ◌&&◌, Option, none, some, [], ◌∷◌, is_some, any, all, includes,
  ltb, ◌==◌, ◌!=◌, string_eq,
}
use hyperfinite.Types.Lifecycle.{ActivePhaseOwner, LifecycleRoute, ActivePhaseOwner-eq}
use hyperfinite.Types.Policy.{CompiledPolicy}
use hyperfinite.Types.Event.{ActivationLease, HumanGateEvidence}
use hyperfinite.Types.Snapshot.{
  KernelSnapshot, RefusalCode, Recovery, KernelRefusal, Outcome, applied, refused,
}
use hyperfinite.Host.{Host, Document}
use hyperfinite.Lifecycle.{active_phase_of}
use hyperfinite.Authorization.{authorize_human_gate}
use hyperfinite.Outcome.{refusal, guards}
use hyperfinite.Kernel.{KernelContext}

abbrev human : RefusalCode → String → KernelRefusal
human code rule_id = refusal code rule_id false Recovery.human_authorization

-- Every date finite, and the evaluation before both expiries.
unfoldable pub is_before_both : (evaluated lease accord : Option ℕ) → Bool
is_before_both (some evaluated) (some lease) (some accord) =
    ltb evaluated lease && ltb evaluated accord
is_before_both _ _ _ = false

module _ (host : Host) where
  -- The evidence of the human who approved the lease.
  unfoldable pub is_activation_evidence :
      KernelSnapshot → KernelContext → ActivationLease → HumanGateEvidence → Bool
  is_activation_evidence snapshot context lease evidence =
      (evidence.gate == "activate"
        && lease.approved_by == evidence.actor.id
        && lease.authorization_digest == evidence.actor.authorization_digest)
      && not (
          is_some (
            authorize_human_gate host (record {
              gate = "activate";
              policy = context.policy;
              requester_id = context.requester_id;
              work_accord_digest = snapshot.work_accord_digest;
              activation_lease_digest = some (host.digest (Document.activation_lease lease));
              current_head = snapshot.current_head;
              gate_evidence = evidence ∷ [];
              evaluated_at = context.evaluated_at;
              expected_actor = some evidence.actor;
            })))

  abbrev pub lease_guards :
      KernelSnapshot
      → ActivePhaseOwner
      → CompiledPolicy
      → ActivationLease
      → KernelContext
      → List (Bool × KernelRefusal)
  lease_guards snapshot phase compiled lease context =
      (
        lease.work_accord_digest != snapshot.work_accord_digest,
        (human RefusalCode.activation_required "lease.current-accord"),
      )
      ∷ (lease.revoked, (human RefusalCode.lease_revoked "lease.not-revoked"))
      ∷ (
        not (
            is_before_both (host.parse_date context.evaluated_at) (host.parse_date lease.expires_at)
              (host.parse_date context.work_accord.budget.expires_at)),
        (human RefusalCode.lease_expired "lease.not-expired"),
      )
      ∷ (
        not (includes lease.allowed_phases phase),
        (human RefusalCode.activation_required "lease.allowed-phase"),
      )
      ∷ (
        not (any (is_activation_evidence snapshot context lease) context.human_gate_evidence),
        (human RefusalCode.activation_required "lease.approver-binding"),
      )
      ∷ (
        not (all (includes lease.allowed_capabilities) compiled.allowed_capabilities),
        (human RefusalCode.activation_required "lease.allowed-capabilities"),
      )
      ∷ (
        ltb lease.max_parallel compiled.limits.max_parallel,
        (human RefusalCode.budget_exhausted "lease.parallel-limit"),
      )
      ∷ []

  -- The checks of a lease that there is, for a route into `phase`.
  unfoldable pub check_lease :
      KernelSnapshot
      → ActivePhaseOwner
      → CompiledPolicy
      → ActivationLease
      → KernelContext
      → Outcome (Unit {0})
  check_lease snapshot phase compiled lease context =
      guards snapshot (lease_guards snapshot phase compiled lease context)

  -- By the route's active phase, the compiled destination policy and the lease.
  unfoldable pub lease_for_phase :
      Option ActivePhaseOwner
      → Option CompiledPolicy
      → Option ActivationLease
      → KernelSnapshot
      → KernelContext
      → Outcome (Unit {0})
  lease_for_phase none compiled lease snapshot context = applied tt
  lease_for_phase (some phase) none lease snapshot context =
      refused
        (refusal RefusalCode.contract_stale "phase.lease-authority" false Recovery.new_contract)
        snapshot
  lease_for_phase (some phase) (some compiled) none snapshot context =
      refused (human RefusalCode.activation_required "lease.current-accord") snapshot
  lease_for_phase (some phase) (some compiled) (some lease) snapshot context =
      check_lease snapshot phase compiled lease context

  unfoldable pub validate_lease_authority :
      KernelSnapshot → LifecycleRoute → Option CompiledPolicy → KernelContext → Outcome (Unit {0})
  validate_lease_authority snapshot route compiled context =
      lease_for_phase (active_phase_of route.phase_owner) compiled context.activation_lease snapshot
        context
