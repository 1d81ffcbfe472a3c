-- ===== src/Kernel/Requirements.antt =====
-- Contract requirements (src/kernel.ts): which the kernel supports, what current evidence is, and
-- the requirements of leaving and entering a phase.
mod Supported
unfoldable pub use Supported.{kernel_supports_contract_requirement}
use hyperfinite.Common.{
  String, Bool, true, false, not, ◌&&◌, ◌||◌, Option, none, some, List, [], ◌∷◌, any, includes,
  ◌==◌, ◌!=◌, if◌then◌else◌, string_eq, option_eq,
}
use hyperfinite.Types.Lifecycle.{
  LifecycleState, EventType, LifecycleRoute, event_type_name, LifecycleState-eq,
  ActivePhaseOwner-eq,
}
use hyperfinite.Types.Accord.{Digest}
use hyperfinite.Types.Policy.{PhaseContract, ExitRule}
use hyperfinite.Types.Event.{
  EventEnvelope, ActivationLease, RequirementType, ContractRequirementEvidence, RequirementType-eq,
}
use hyperfinite.Types.Snapshot.{
  KernelSnapshot, RefusalCode, Recovery, KernelRefusal, Outcome, applied, refused,
}
use hyperfinite.Host.{Host, Document, date_ge}
use hyperfinite.Authorization.{is_current_window}
use hyperfinite.Outcome.{◌>>◌, refusal, guards}
use hyperfinite.Kernel.{KernelContext, PhaseAuthority}

-- What is asked of the evidence, beside the snapshot and the context.
pub record RequirementInput : Type 0 where
  pub requirement_type : RequirementType
  pub requirement : String
  pub actor_authorization_digest : Option Digest
  pub phase_contract_digest : Digest
  pub route_id : String

abbrev pub names_lease : String → Bool
names_lease requirement =
    requirement == "activation-lease-current" || requirement == "activation-lease"

-- `exitRules.find((rule) => rule.event === event.type)`
unfoldable pub find_exit_rule : EventType → List ExitRule → Option ExitRule
find_exit_rule event [] = none
find_exit_rule event (r ∷ rules) =
    if r.event == event_type_name event then some r else find_exit_rule event rules

-- `enteringNewPhase`
unfoldable pub enters_new_phase : (current destination : Option PhaseAuthority) → Bool
enters_new_phase current none = false
enters_new_phase none (some destination) = true
enters_new_phase (some current) (some destination) =
    destination.contract.phase != current.contract.phase

module _ (host : Host) where
  abbrev lease_digest : Option ActivationLease → Option Digest
  lease_digest none = none
  lease_digest (some lease) = some (host.digest (Document.activation_lease lease))

  unfoldable pub requirement_evidence_is_current :
      RequirementInput → KernelSnapshot → KernelContext → ContractRequirementEvidence → Bool
  requirement_evidence_is_current input snapshot context evidence =
      (evidence.requirement_type == input.requirement_type
        && evidence.requirement == input.requirement
        && evidence.satisfied
        && evidence.work_accord_digest == snapshot.work_accord_digest
        && evidence.binding_digest == snapshot.binding_digest
        && evidence.snapshot_digest == host.digest (Document.kernel_snapshot snapshot)
        && evidence.phase_contract_digest == input.phase_contract_digest
        && evidence.route_id == input.route_id)
      && (evidence.activation_lease_digest == (
            if names_lease input.requirement then lease_digest context.activation_lease else none)
          && evidence.current_head == snapshot.current_head
          && evidence.actor_authorization_digest == input.actor_authorization_digest
          && is_current_window (host.parse_date evidence.observed_at)
              (host.parse_date evidence.expires_at) (host.parse_date context.evaluated_at))

  -- The lease itself, where the requirement names it.
  unfoldable pub lease_is_stale : KernelSnapshot → KernelContext → Option ActivationLease → Bool
  lease_is_stale snapshot context none = true
  lease_is_stale snapshot context (some lease) =
      lease.revoked
      || lease.work_accord_digest != snapshot.work_accord_digest
      || date_ge (host.parse_date context.evaluated_at) (host.parse_date lease.expires_at)

  abbrev pub requirement_guards :
      RequirementInput → KernelSnapshot → KernelContext → List (Bool × KernelRefusal)
  requirement_guards input snapshot context =
      (
        not (kernel_supports_contract_requirement input.requirement_type input.requirement),
        (refusal RefusalCode.contract_requirement_missing "contract.known-requirement" false
            Recovery.new_contract),
      )
      ∷ (
        not (
            any (requirement_evidence_is_current input snapshot context)
              context.contract_requirement_evidence),
        (refusal RefusalCode.contract_requirement_missing "contract.current-requirement-evidence"
            false Recovery.reconcile),
      )
      ∷ (
        names_lease input.requirement && lease_is_stale snapshot context context.activation_lease,
        (refusal RefusalCode.activation_required "contract.activation-lease-current" false
            Recovery.human_authorization),
      )
      ∷ []

  unfoldable pub validate_contract_requirement :
      RequirementInput → KernelSnapshot → KernelContext → Outcome (Unit {0})
  validate_contract_requirement input snapshot context =
      guards snapshot (requirement_guards input snapshot context)

  -- A loop over the entry predicates, or over the required evidence, of the destination.
  unfoldable pub validate_entry_requirements :
      RequirementType
      → (phase_contract_digest : Digest) (route_id : String) → KernelSnapshot
      → KernelContext
      → List String
      → Outcome (Unit {0})
  validate_entry_requirements kind contract_digest route_id snapshot context [] = applied tt
  validate_entry_requirements kind contract_digest route_id snapshot context (r ∷ rs) = do
    validate_contract_requirement
        (record {
          requirement_type = kind;
          requirement = r;
          actor_authorization_digest = none;
          phase_contract_digest = contract_digest;
          route_id = route_id;
        })
        snapshot context
    validate_entry_requirements kind contract_digest route_id snapshot context rs

  -- The exit rule of the event, if the contract has one.
  unfoldable pub exit_by_rule :
      Option ExitRule
      → PhaseContract
      → KernelSnapshot
      → EventEnvelope
      → LifecycleRoute
      → KernelContext
      → Outcome (Unit {0})
  exit_by_rule none contract snapshot event route context =
      refused
        (refusal RefusalCode.contract_requirement_missing "contract.exit-rule" false
          Recovery.new_contract)
        snapshot
  exit_by_rule (some rule) contract snapshot event route context =
      validate_contract_requirement
        (record {
          requirement_type = RequirementType.predicate;
          requirement = rule.predicate;
          actor_authorization_digest = some event.actor.authorization_digest;
          phase_contract_digest = host.digest (Document.phase_contract contract);
          route_id = route.id;
        })
        snapshot context

  unfoldable pub validate_exit :
      PhaseContract
      → KernelSnapshot
      → EventEnvelope
      → LifecycleRoute
      → KernelContext
      → Outcome (Unit {0})
  validate_exit contract snapshot event route context =
      exit_by_rule (find_exit_rule event.event_type contract.exit_rules) contract snapshot event
        route context

  unfoldable pub validate_entry :
      PhaseContract → KernelSnapshot → LifecycleRoute → KernelContext → Outcome (Unit {0})
  validate_entry contract snapshot route context = do
    let contract_digest = host.digest (Document.phase_contract contract)
    validate_entry_requirements RequirementType.predicate contract_digest route.id snapshot context
        contract.entry_predicates
    validate_entry_requirements RequirementType.evidence contract_digest route.id snapshot context
        contract.required_evidence

  abbrev pub exit_stage :
      Bool
      → Option PhaseAuthority
      → KernelSnapshot
      → EventEnvelope
      → LifecycleRoute
      → KernelContext
      → Outcome (Unit {0})
  exit_stage leaving none snapshot event route context = applied tt
  exit_stage leaving (some current) snapshot event route context =
      if leaving then validate_exit current.contract snapshot event route context else applied tt

  abbrev pub entry_stage :
      Bool
      → Option PhaseAuthority
      → KernelSnapshot
      → LifecycleRoute
      → KernelContext
      → Outcome (Unit {0})
  entry_stage entering none snapshot route context = applied tt
  entry_stage entering (some destination) snapshot route context =
      if entering then validate_entry destination.contract snapshot route context else applied tt

  unfoldable pub validate_phase_requirements :
      KernelSnapshot
      → EventEnvelope
      → LifecycleRoute
      → (current destination : Option PhaseAuthority) → KernelContext
      → Outcome (Unit {0})
  validate_phase_requirements snapshot event route current destination context = do
    let entering = enters_new_phase current destination
    exit_stage (entering || route.to == LifecycleState.completed) current snapshot event route
        context
    entry_stage entering destination snapshot route context
