-- ===== src/Types/Lifecycle.antt =====
-- The lifecycle vocabulary and graph of src/types.ts.
use hyperfinite.Common.{ℕ, String, Bool, Option, List, Eq}

pub data LifecycleState : Type 0 where
  captured activation_pending framing planned executing verifying : LifecycleState
  human_review completed paused blocked cancelled : LifecycleState

pub data PhaseOwner : Type 0 where
  intake framing planning execution verification human_review kernel : PhaseOwner

-- `Exclude<PhaseOwner, "intake" | "kernel">`
pub data ActivePhaseOwner : Type 0 where
  framing planning execution verification human_review : ActivePhaseOwner

pub data ActorClass : Type 0 where
  requester reviewer maintainer administrator system policy : ActorClass

pub data EventType : Type 0 where
  activation_requested activation_approved clarification_recorded frame_accepted : EventType
  scope_repair_requested execution_authorized work_submitted repair_requested : EventType
  replan_requested verification_passed revision_requested outcome_accepted : EventType
  pause_requested resume_requested dependency_blocked partial_effect_recorded : EventType
  retry_requested recovery_approved cancel_requested authorization_invalidated : EventType
  binding_revalidated : EventType

-- The text of an event type.
unfoldable pub event_type_name : EventType → String
event_type_name EventType.activation_requested = "activation-requested"
event_type_name EventType.activation_approved = "activation-approved"
event_type_name EventType.clarification_recorded = "clarification-recorded"
event_type_name EventType.frame_accepted = "frame-accepted"
event_type_name EventType.scope_repair_requested = "scope-repair-requested"
event_type_name EventType.execution_authorized = "execution-authorized"
event_type_name EventType.work_submitted = "work-submitted"
event_type_name EventType.repair_requested = "repair-requested"
event_type_name EventType.replan_requested = "replan-requested"
event_type_name EventType.verification_passed = "verification-passed"
event_type_name EventType.revision_requested = "revision-requested"
event_type_name EventType.outcome_accepted = "outcome-accepted"
event_type_name EventType.pause_requested = "pause-requested"
event_type_name EventType.resume_requested = "resume-requested"
event_type_name EventType.dependency_blocked = "dependency-blocked"
event_type_name EventType.partial_effect_recorded = "partial-effect-recorded"
event_type_name EventType.retry_requested = "retry-requested"
event_type_name EventType.recovery_approved = "recovery-approved"
event_type_name EventType.cancel_requested = "cancel-requested"
event_type_name EventType.authorization_invalidated = "authorization-invalidated"
event_type_name EventType.binding_revalidated = "binding-revalidated"

pub record LifecycleStateDefinition : Type 0 where
  pub id : LifecycleState
  pub phase_owner : PhaseOwner
  pub cost_bearing : Bool
  pub terminal : Bool

pub record LifecycleRoute : Type 0 where
  pub id : String
  pub version : String
  pub from : LifecycleState
  pub to : LifecycleState
  pub event : EventType
  pub actor_classes : List ActorClass
  pub phase_owner : PhaseOwner
  pub cost_bearing : Bool
  pub human_gate : Option String
  pub retryable : Bool
  pub max_attempts : ℕ

-- `name` and `version` are the fields of `metadata`.
pub record LifecycleGraph : Type 0 where
  pub name : String
  pub version : String
  pub states : List LifecycleStateDefinition
  pub routes : List LifecycleRoute

unfoldable pub LifecycleState-discrete : Discrete LifecycleState
LifecycleState-discrete = hlevel

unfoldable pub PhaseOwner-discrete : Discrete PhaseOwner
PhaseOwner-discrete = hlevel

unfoldable pub ActivePhaseOwner-discrete : Discrete ActivePhaseOwner
ActivePhaseOwner-discrete = hlevel

unfoldable pub ActorClass-discrete : Discrete ActorClass
ActorClass-discrete = hlevel

unfoldable pub EventType-discrete : Discrete EventType
EventType-discrete = hlevel

instance abbrev pub LifecycleState-eq : Eq LifecycleState
LifecycleState-eq = record { dec = LifecycleState-discrete }

instance abbrev pub PhaseOwner-eq : Eq PhaseOwner
PhaseOwner-eq = record { dec = PhaseOwner-discrete }

instance abbrev pub ActivePhaseOwner-eq : Eq ActivePhaseOwner
ActivePhaseOwner-eq = record { dec = ActivePhaseOwner-discrete }

instance abbrev pub ActorClass-eq : Eq ActorClass
ActorClass-eq = record { dec = ActorClass-discrete }

instance abbrev pub EventType-eq : Eq EventType
EventType-eq = record { dec = EventType-discrete }
