-- ===== src/Authorization.antt =====
-- Actor and human-gate authorization (src/authorization.ts). A refusal is what stands in the way;
-- none means authorized.
pub mod Laws
use hyperfinite.Common.{
  ℕ, String, Bool, true, false, not, ◌&&◌, ◌||◌, Option, none, some, List, [], ◌∷◌, is_some, all,
  includes, filter, ltb, leb, ◌==◌, ◌!=◌, if◌then◌else◌, string_eq, bool_eq, option_eq,
}
use hyperfinite.Types.Lifecycle.{ActorClass, LifecycleRoute, ActorClass-eq}
use hyperfinite.Types.Accord.{Digest}
use hyperfinite.Types.Policy.{ActorRule, ControlPolicy}
use hyperfinite.Types.Event.{Actor, HumanGateEvidence}
use hyperfinite.Types.Snapshot.{RefusalCode, KernelRefusal, Recovery}
use hyperfinite.Host.{Host, date_gt, date_ge}

unfoldable pub refusal : RefusalCode → String → Recovery → KernelRefusal
refusal code rule_id recovery = record {
  code = code;
  rule_id = rule_id;
  retryable = false;
  recovery = recovery;
}

-- Every refusal of this file asks for a human's authorization.
abbrev deny : RefusalCode → String → Option KernelRefusal
deny code rule_id = some (refusal code rule_id Recovery.human_authorization)

-- `policy.actorRules.find(...)`
unfoldable pub find_actor_rule : ActorClass → List ActorRule → Option ActorRule
find_actor_rule c [] = none
find_actor_rule c (r ∷ rules) = if r.actor_class == c then some r else find_actor_rule c rules

unfoldable pub authorize_identity : ControlPolicy → Actor → Option KernelRefusal
authorize_identity policy actor = elim (find_actor_rule actor.actor_class policy.actor_rules) [
  | none ↦ deny RefusalCode.unauthorized_actor "actor.known-class"
  | some rule ↦
      if rule.human != actor.human || (rule.human && actor.bot)
      then deny RefusalCode.unauthorized_actor "actor.identity-kind"
      else if not (all (includes actor.roles) rule.required_roles)
      then deny RefusalCode.unauthorized_actor "actor.current-role"
      else none
]

-- The argument of `authorizeHumanGate`.
pub record GateInput : Type 0 where
  pub gate : String
  pub policy : ControlPolicy
  pub requester_id : String
  pub work_accord_digest : Digest
  pub activation_lease_digest : Option Digest
  pub current_head : Option Digest
  pub gate_evidence : List HumanGateEvidence
  pub evaluated_at : String
  pub expected_actor : Option Actor

unfoldable pub is_expected_actor : Option Actor → Actor → Bool
is_expected_actor none actor = true
is_expected_actor (some expected) actor =
    actor.id == expected.id && actor.authorization_digest == expected.authorization_digest

-- The test of the `filter` in `authorizeHumanGate`.
unfoldable pub is_gate_candidate : GateInput → HumanGateEvidence → Bool
is_gate_candidate input candidate =
    candidate.gate == input.gate && is_expected_actor input.expected_actor candidate.actor

-- `observedAt <= evaluatedAt && evaluatedAt < expiresAt`, every date finite.
unfoldable pub is_current_window : (observed expires evaluated : Option ℕ) → Bool
is_current_window (some observed) (some expires) (some evaluated) =
    leb observed evaluated && ltb evaluated expires
is_current_window _ _ _ = false

-- `digest === null || evidence !== digest`
unfoldable pub is_unbound : Option Digest → Option Digest → Bool
is_unbound none evidence = true
is_unbound (some digest) evidence = evidence != some digest

module _ (host : Host) where
  -- The checks of `validateHumanGateEvidence` after the actor's.
  unfoldable pub validate_gate_binding : GateInput → HumanGateEvidence → Option KernelRefusal
  validate_gate_binding input evidence =
      if includes input.policy.independent_gates input.gate
        && evidence.actor.id == input.requester_id
      then deny RefusalCode.independence_required "gate.independent-actor"
      else if not (
          is_current_window (host.parse_date evidence.observed_at)
            (host.parse_date evidence.expires_at) (host.parse_date input.evaluated_at))
      then deny RefusalCode.human_gate_stale "gate.current-time"
      else if evidence.work_accord_digest != input.work_accord_digest
      then deny RefusalCode.human_gate_stale "gate.current-accord"
      else if input.gate == "activate"
          && is_unbound input.activation_lease_digest evidence.activation_lease_digest
      then deny RefusalCode.human_gate_stale "gate.current-activation-lease"
      else if input.gate == "approve-current-head"
          && is_unbound input.current_head evidence.current_head
      then deny RefusalCode.current_head_stale "gate.current-head"
      else none

  unfoldable pub validate_human_gate_evidence : GateInput → HumanGateEvidence → Option KernelRefusal
  validate_human_gate_evidence input evidence =
      if not evidence.valid
      then deny RefusalCode.human_gate_missing "gate.valid-evidence"
      else elim (authorize_identity input.policy evidence.actor) [
        | some r ↦ some r
        | none ↦
            if not evidence.actor.human || evidence.actor.bot
            then deny RefusalCode.unauthorized_actor "gate.human-actor"
            else validate_gate_binding input evidence
      ]

  -- The loop over the candidates: the first one without a refusal ends it, else the first refusal.
  unfoldable pub first_valid :
      GateInput → List HumanGateEvidence → (earlier : Option KernelRefusal) → Option KernelRefusal
  first_valid input [] none = deny RefusalCode.human_gate_missing "gate.valid-evidence"
  first_valid input [] (some r) = some r
  first_valid input (e ∷ candidates) earlier = elim (validate_human_gate_evidence input e) [
    | none ↦ none
    | some r ↦
        first_valid input candidates (elim earlier [ none ↦ some r | some first ↦ some first ])
  ]

  unfoldable pub authorize_human_gate : GateInput → Option KernelRefusal
  authorize_human_gate input =
      first_valid input (filter (is_gate_candidate input) input.gate_evidence) none

  -- The argument of `authorizeActor` is the actor, the route, and `input` for the rest.
  unfoldable pub authorize_actor : Actor → LifecycleRoute → GateInput → Option KernelRefusal
  authorize_actor actor route input =
      if not (includes route.actor_classes actor.actor_class)
      then deny RefusalCode.unauthorized_actor "actor.route-class"
      else elim (authorize_identity input.policy actor) [
        | some r ↦ some r
        | none ↦ elim route.human_gate [
          | none ↦ none
          | some gate ↦
              authorize_human_gate (record input { gate = gate; expected_actor = some actor })
        ]
      ]
