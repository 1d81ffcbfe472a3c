-- ===== src/Tests/Fixture.antt =====
-- A small lifecycle: a host, a graph of four routes, a registry of one capability, a snapshot, and
-- two events with their contexts.
use hyperfinite.Common.{
  String, Bool, true, false, none, some, List, [], ◌∷◌, ◌==◌, string_eq, if◌then◌else◌,
}
use hyperfinite.Types.Lifecycle.{
  LifecycleState, PhaseOwner, ActivePhaseOwner, ActorClass, EventType, LifecycleStateDefinition,
  LifecycleRoute, LifecycleGraph,
}
use hyperfinite.Types.Accord.{Digest, DepthProfile, RiskClass, PrivacyClass, Budget, WorkAccord}
use hyperfinite.Types.Policy.{
  PhaseContract, CapabilityStatus, ImplementationKind, ProvenanceClass, Review, Capability,
  CapabilityRegistry, CompiledCapabilityGrant, ControlPolicy, DomainPackPolicy, CompiledPolicy,
}
use hyperfinite.Types.Event.{Actor, EventSource, EventEnvelope, ActivationLease, HumanGateEvidence}
use hyperfinite.Types.Snapshot.{KernelSnapshot}
use hyperfinite.Host.{Host, Document}
use hyperfinite.Json.{code_units, Json, object, field, string, bool, no_fields}
use hyperfinite.Registry.{RegistryLibrary}
use hyperfinite.Policy.{PolicyCompiler}
use hyperfinite.Policy.Compile.{policy_compiler}
use hyperfinite.Kernel.{KernelContext, InitialInput, create_initial_snapshot}

abbrev now : String
now = "2026-01-02T00:00:00Z"

abbrev later : String
later = "2027-01-02T00:00:00Z"

abbrev digest_of : Document → Digest
digest_of (Document.lifecycle_graph g) = "graph"
digest_of (Document.work_accord a) = a.identity.id
digest_of (Document.control_policy p) = "policy"
digest_of (Document.capability_registry r) = "registry"
digest_of (Document.domain_pack_policy p) = "pack"
digest_of (Document.phase_contract c) = "contract"
digest_of (Document.activation_lease l) = "lease"
digest_of (Document.human_gate_evidence e) = "gate"
digest_of (Document.contract_requirement_evidence e) = "evidence"
digest_of (Document.authority_rebind r) = "rebind"
digest_of (Document.kernel_event e) = e.delivery_id
digest_of (Document.kernel_snapshot s) = "snapshot"
digest_of (Document.transition_receipt r) = r.event_id
digest_of (Document.event_payload p) = "payload"
digest_of (Document.binding_identity b) = "binding"
digest_of (Document.idempotency_input i) = "key"
digest_of (Document.policy_body b) = "body"
digest_of (Document.effect_plan es) = "effects"

abbrev pub host : Host
host = record {
  digest = digest_of;
  schema_errors = λ d. none;
  parse_date = λ text. some (if text == later then 2 else 1);
}

abbrev definition : LifecycleState → PhaseOwner → Bool → Bool → LifecycleStateDefinition
definition id owner cost ends = record {
  id = id;
  phase_owner = owner;
  cost_bearing = cost;
  terminal = ends;
}

abbrev states : List LifecycleStateDefinition
states =
    definition LifecycleState.captured PhaseOwner.intake false false
    ∷ definition LifecycleState.activation_pending PhaseOwner.kernel false false
    ∷ definition LifecycleState.framing PhaseOwner.framing true false
    ∷ definition LifecycleState.planned PhaseOwner.planning false false
    ∷ definition LifecycleState.executing PhaseOwner.execution true false
    ∷ definition LifecycleState.verifying PhaseOwner.verification true false
    ∷ definition LifecycleState.human_review PhaseOwner.human_review false false
    ∷ definition LifecycleState.completed PhaseOwner.kernel false true
    ∷ definition LifecycleState.paused PhaseOwner.kernel false false
    ∷ definition LifecycleState.blocked PhaseOwner.kernel false false
    ∷ definition LifecycleState.cancelled PhaseOwner.kernel false true
    ∷ []

abbrev pub request_route : LifecycleRoute
request_route = record {
  id = "request";
  version = "1.0.0";
  from = LifecycleState.captured;
  to = LifecycleState.activation_pending;
  event = EventType.activation_requested;
  actor_classes = ActorClass.requester ∷ [];
  phase_owner = PhaseOwner.kernel;
  cost_bearing = false;
  human_gate = none;
  retryable = false;
  max_attempts = 1;
}

abbrev pub activate_route : LifecycleRoute
activate_route = record {
  id = "activate";
  version = "1.0.0";
  from = LifecycleState.activation_pending;
  to = LifecycleState.framing;
  event = EventType.activation_approved;
  actor_classes = ActorClass.administrator ∷ [];
  phase_owner = PhaseOwner.framing;
  cost_bearing = true;
  human_gate = some "activate";
  retryable = false;
  max_attempts = 1;
}

abbrev pub pause_route : LifecycleRoute
pause_route = record {
  id = "pause";
  version = "1.0.0";
  from = LifecycleState.framing;
  to = LifecycleState.paused;
  event = EventType.pause_requested;
  actor_classes = ActorClass.administrator ∷ [];
  phase_owner = PhaseOwner.kernel;
  cost_bearing = false;
  human_gate = none;
  retryable = false;
  max_attempts = 1;
}

abbrev pub resume_route : LifecycleRoute
resume_route = record activate_route {
  id = "resume";
  from = LifecycleState.paused;
  event = EventType.resume_requested;
}

abbrev pub graph : LifecycleGraph
graph = record {
  name = "small";
  version = "1.0.0";
  states = states;
  routes = request_route ∷ activate_route ∷ pause_route ∷ resume_route ∷ [];
}

abbrev budget : Budget
budget = record {
  max_calls = 10;
  max_tokens = 100;
  max_cost_units = 10;
  max_duration_ms = 1000;
  max_retries = 1;
  max_loops = 1;
  max_parallel = 1;
  max_patch_bytes = 1000;
  expires_at = later;
}

abbrev pub accord : WorkAccord
accord = record {
  identity = record {
    id = "accord";
    revision = 1;
    supersedes = none;
    created_at = now;
    created_by = "requester";
  };
  binding = record {
    repository_id = 1;
    repository_node_id = "R_1";
    repository_full_name = "owner/name";
    repository_root_id = "root";
    work_item_node_id = "I_1";
    proposal_ref = "proposal";
    source_digest = "source";
    policy_digest = "policy";
    lifecycle_graph_digest = "graph";
    current_head = none;
  };
  objective = record {
    outcome = "done";
    in_scope = [];
    out_of_scope = [];
    assumptions = [];
    dependencies = [];
  };
  policy = record {
    domain_pack = "pack@1";
    domain_pack_digest = "pack";
    capability_registry_digest = "registry";
    depth_profile = DepthProfile.d0;
    risk_class = RiskClass.low;
    privacy_class = PrivacyClass.public;
    phase_contracts =
        (ActivePhaseOwner.framing, record { reference = "framing@1.0.0"; digest = "contract" })
        ∷ [];
    requested_capabilities = "read@1" ∷ [];
    allowed_paths = [];
    prohibited_effects = [];
    tools = "grep" ∷ [];
    shell_commands = [];
    network = "https://api.example" ∷ [];
    mcp_tools = [];
  };
  budget = budget;
  deliverables = [];
  evidence = record { required = []; verification_commands = []; approver_policy = "one" };
  human_gates = "activate" ∷ [];
  retention = record { receipt_days = 1; artifact_days = 1; cancel_on_expiry = true };
}

abbrev policy : ControlPolicy
policy = record {
  version = "1.0.0";
  actor_rules =
      record { actor_class = ActorClass.requester; required_roles = []; human = true }
      ∷ record {
        actor_class = ActorClass.administrator;
        required_roles = "admin" ∷ [];
        human = true;
      }
      ∷ [];
  independent_gates = "activate" ∷ [];
  prohibited_effects = [];
  ceilings = record {
    depth_profile = DepthProfile.d0;
    risk_class = RiskClass.low;
    privacy_class = PrivacyClass.public;
    max_calls = 10;
    max_cost_units = 10;
    max_loops = 1;
    max_retries = 1;
    max_parallel = 1;
  };
}

abbrev pack : DomainPackPolicy
pack = record {
  id = "pack";
  version = "1";
  allowed_capabilities = "read@1" ∷ [];
  prohibited_effects = [];
  depth_ceiling = DepthProfile.d0;
  risk_ceiling = RiskClass.low;
  privacy_ceiling = PrivacyClass.public;
  max_calls = 10;
  max_cost_units = 10;
  max_loops = 1;
  max_retries = 1;
  max_parallel = 1;
}

abbrev closed_object : Json
closed_object = object (
    field (code_units "type") (string (code_units "object"))
      (field (code_units "additionalProperties") (bool false) no_fields))

abbrev pub reader : Capability
reader = record {
  id = "read";
  version = "1";
  publisher = "owner";
  owner = "owner";
  description = "reads";
  status = CapabilityStatus.active;
  implementation_kind = ImplementationKind.deterministic;
  provider = "local";
  allowed_phases = ActivePhaseOwner.framing ∷ [];
  actor_classes = ActorClass.system ∷ ActorClass.policy ∷ [];
  input_schema = record { root = closed_object };
  output_schema = record { root = closed_object };
  access = record {
    read_scopes = "work" ∷ [];
    write_allowed = false;
    write_scopes = [];
    tools = "grep" ∷ [];
    shell_commands = [];
    network_destinations = "https://api.example" ∷ [];
    mcp_tools = [];
    mcp_read_tools = [];
    mcp_mutation_tools = [];
    secret_names = [];
  };
  effect_class = "none";
  risk_class = RiskClass.low;
  trust_zone = "local";
  privacy_class = PrivacyClass.public;
  limits = record {
    max_calls = 9;
    max_cost_units = 1;
    timeout_ms = 1000;
    max_retries = 1;
    max_output_bytes = 1000;
    max_concurrency = 1;
    parallel_safe = true;
  };
  human_gates = "activate" ∷ [];
  idempotency_scope = "event";
  evidence = [];
  structural_evaluations = "s2" ∷ "s1" ∷ [];
  behavioral_evaluations = [];
  classification = ProvenanceClass.original;
  legal_review = Review.not_required;
  security_review = Review.not_required;
  lifecycle = "small";
  replacement = none;
}

abbrev pub registry : CapabilityRegistry
registry = record { version = "1"; capabilities = reader ∷ [] }

abbrev pub library : RegistryLibrary
library = record {
  accepts_schema = λ schema. true;
  parse_url = λ text. some (record { protocol = "https:"; username = ""; password = "" });
}

abbrev pub contract : PhaseContract
contract = record {
  id = "framing";
  version = "1.0.0";
  phase = ActivePhaseOwner.framing;
  compatible_lifecycle = "small";
  compatible_lifecycle_digest = "graph";
  entry_predicates = [];
  required_evidence = [];
  allowed_capabilities = "read@1" ∷ [];
  input_schema = record { root = closed_object };
  output_schema = record { root = closed_object };
  exit_rules = [];
  limits = record { max_loops = 1; max_calls = 5; max_cost_units = 5; max_parallel = 1 };
  human_gates = [];
  maximum_class = PrivacyClass.public;
  retention_days = 1;
}

abbrev pub grant : CompiledCapabilityGrant
grant = record {
  reference = "read@1";
  actor_classes = ActorClass.policy ∷ ActorClass.system ∷ [];
  human_gates = "activate" ∷ [];
  read_scopes = "work" ∷ [];
  tools = "grep" ∷ [];
  shell_commands = [];
  network_destinations = "https://api.example" ∷ [];
  mcp_tools = [];
  risk_class = RiskClass.low;
  privacy_class = PrivacyClass.public;
  limits = record {
    max_calls = 5;
    max_cost_units = 1;
    timeout_ms = 1000;
    max_retries = 1;
    max_output_bytes = 1000;
    max_concurrency = 1;
    parallel_safe = true;
  };
  evidence = [];
  structural_evaluations = "s1" ∷ "s2" ∷ [];
  behavioral_evaluations = [];
}

abbrev pub compiled : CompiledPolicy
compiled = record {
  digest = "body";
  body = record {
    phase = ActivePhaseOwner.framing;
    allowed_capabilities = "read@1" ∷ [];
    capabilities = grant ∷ [];
    required_human_gates = "activate" ∷ [];
    limits = record {
      max_calls = 5;
      max_tokens = 100;
      max_cost_units = 5;
      max_loops = 1;
      max_retries = 1;
      max_parallel = 1;
    };
  };
}

abbrev pub compiler : PolicyCompiler
compiler = policy_compiler host library

abbrev pub lease : ActivationLease
lease = record {
  id = "lease";
  work_accord_digest = "accord";
  approved_by = "administrator";
  authorization_digest = "authorized";
  allowed_phases = ActivePhaseOwner.framing ∷ [];
  allowed_capabilities = "read@1" ∷ [];
  max_calls = 5;
  max_tokens = 50;
  max_cost_units = 5;
  max_parallel = 1;
  expires_at = later;
  revoked = false;
}

abbrev pub requester : Actor
requester = record {
  id = "requester";
  actor_class = ActorClass.requester;
  human = true;
  bot = false;
  roles = [];
  authorization_digest = "requested";
}

abbrev pub administrator : Actor
administrator = record {
  id = "administrator";
  actor_class = ActorClass.administrator;
  human = true;
  bot = false;
  roles = "admin" ∷ [];
  authorization_digest = "authorized";
}

abbrev pub approval : HumanGateEvidence
approval = record {
  gate = "activate";
  actor = administrator;
  work_accord_digest = "accord";
  activation_lease_digest = some "lease";
  current_head = none;
  observed_at = now;
  expires_at = later;
  valid = true;
}

abbrev pub context : KernelContext
context = record {
  graph = graph;
  work_accord = accord;
  policy = policy;
  registry = registry;
  domain_pack = pack;
  current_phase_contract = none;
  destination_phase_contract = none;
  activation_lease = none;
  human_gate_evidence = [];
  contract_requirement_evidence = [];
  requester_id = "requester";
  evaluated_at = now;
  retryable_failure = false;
  rebind_authority = none;
}

abbrev pub activation_context : KernelContext
activation_context = record context {
  destination_phase_contract = some contract;
  activation_lease = some lease;
  human_gate_evidence = approval ∷ [];
}

abbrev pub request : EventEnvelope
request = record {
  payload = record {
    id = "e1";
    sequence = 1;
    occurred_at = now;
    expected_state_version = 0;
    event_type = EventType.activation_requested;
    replacement_authority_digest = none;
    actor = requester;
    source = EventSource.trusted_adapter;
    delivery_id = "d1";
    binding_digest = "binding";
    cost = record { calls = 0; tokens = 0; cost_units = 0; loops = 0 };
  };
  payload_digest = "payload";
}

abbrev pub approve : EventEnvelope
approve = record {
  payload = record {
    id = "e2";
    sequence = 2;
    occurred_at = now;
    expected_state_version = 1;
    event_type = EventType.activation_approved;
    replacement_authority_digest = none;
    actor = administrator;
    source = EventSource.trusted_adapter;
    delivery_id = "d2";
    binding_digest = "binding";
    cost = record { calls = 2; tokens = 20; cost_units = 1; loops = 1 };
  };
  payload_digest = "payload";
}

abbrev pub input : InitialInput
input = record {
  lifecycle_graph_digest = "graph";
  work_accord = accord;
  capability_registry_digest = "registry";
  domain_pack_digest = "pack";
  policy_digest = "policy";
}

abbrev pub initial : KernelSnapshot
initial = create_initial_snapshot host input
