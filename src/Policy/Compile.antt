-- ===== src/Policy/Compile.antt =====
-- The policy compiler (src/policy.ts, `compilePolicy`).
pub mod Grants
pub mod Bounds
pub mod Gates
use Prim.Native.String.{◌++◌ as join}
use hyperfinite.Common.{
  ℕ, String, Bool, true, false, not, ◌&&◌, ◌||◌, Option, none, some, List, [], ◌∷◌, ◌++◌, map, min,
  all, any, filter, includes, is_empty, reports, ltb, ◌==◌, ◌!=◌, if◌then◌else◌, string_eq,
}
use hyperfinite.Json.{code_units}
use hyperfinite.Json.Order.{sort_by}
use hyperfinite.Types.Lifecycle.{ActivePhaseOwner, ActorClass, ActivePhaseOwner-eq}
use hyperfinite.Types.Accord.{DepthProfile, RiskClass, PrivacyClass, WorkAccord, PhaseBinding}
use hyperfinite.Types.Policy.{
  ImplementationKind, Capability, CompiledCapabilityGrant, CompiledLimits, PolicyBody,
  ControlPolicy, DomainPackPolicy, PhaseContract,
}
use hyperfinite.Host.{Host, Document, compute_compiled_policy_digest}
use hyperfinite.Lifecycle.{is_active_phase_owner, is_cost_bearing_phase_owner, phase_owner_of}
use hyperfinite.Registry.{
  RegistryLibrary, Resolution, resolve_capability, validate_registry_semantics, dialect_errors,
}
use hyperfinite.Policy.{PolicyInput, PolicyError, PolicyCompilation, PolicyCompiler}

-- `rank(value, DEPTH_ORDER)`
abbrev pub depth_rank : DepthProfile → ℕ
depth_rank DepthProfile.d0 = 0
depth_rank DepthProfile.d1 = 1
depth_rank DepthProfile.d2 = 2
depth_rank DepthProfile.d3 = 3

-- `rank(value, RISK_ORDER)`
abbrev pub risk_rank : RiskClass → ℕ
risk_rank RiskClass.low = 0
risk_rank RiskClass.moderate = 1
risk_rank RiskClass.high = 2
risk_rank RiskClass.critical = 3

-- `rank(value, PRIVACY_ORDER)`
abbrev pub privacy_rank : PrivacyClass → ℕ
privacy_rank PrivacyClass.public = 0
privacy_rank PrivacyClass.internal = 1
privacy_rank PrivacyClass.confidential = 2
privacy_rank PrivacyClass.restricted = 3

abbrev pub is_subset : List String → List String → Bool
is_subset left right = all (includes right) left

-- The text of an actor class, by which `sort` compares.
unfoldable pub actor_class_name : ActorClass → String
actor_class_name ActorClass.requester = "requester"
actor_class_name ActorClass.reviewer = "reviewer"
actor_class_name ActorClass.maintainer = "maintainer"
actor_class_name ActorClass.administrator = "administrator"
actor_class_name ActorClass.system = "system"
actor_class_name ActorClass.policy = "policy"

abbrev pub sorted : List String → List String
sorted values = sort_by code_units values

-- `[...new Set(values)]`: the first of each.
unfoldable pub distinct : List String → List String
distinct [] = []
distinct (x ∷ xs) = x ∷ filter (λ y. y != x) (distinct xs)

-- `phaseContracts[phase]`
unfoldable pub phase_binding :
    ActivePhaseOwner → List (ActivePhaseOwner × PhaseBinding) → Option PhaseBinding
phase_binding phase [] = none
phase_binding phase (entry ∷ entries) =
    let elsewhere = phase_binding phase entries in
    if entry.0 == phase then some entry.1 else elsewhere

unfoldable pub is_misbound_phase : Host → PhaseContract → Option PhaseBinding → Bool
is_misbound_phase host contract none = true
is_misbound_phase host contract (some binding) =
    binding.reference != join contract.id (join "@" contract.version)
    || binding.digest != host.digest (Document.phase_contract contract)

-- `budget` is within neither the policy's nor the pack's ceilings.
unfoldable pub broadens_budget : WorkAccord → ControlPolicy → DomainPackPolicy → Bool
broadens_budget accord enterprise pack =
    let budget = accord.budget in
    let ceilings = enterprise.ceilings in
    ltb ceilings.max_calls budget.max_calls
    || ltb pack.max_calls budget.max_calls
    || ltb ceilings.max_cost_units budget.max_cost_units
    || ltb pack.max_cost_units budget.max_cost_units
    || ltb ceilings.max_loops budget.max_loops
    || ltb pack.max_loops budget.max_loops
    || ltb ceilings.max_retries budget.max_retries
    || ltb pack.max_retries budget.max_retries
    || ltb ceilings.max_parallel budget.max_parallel
    || ltb pack.max_parallel budget.max_parallel

unfoldable pub kind_errors : Option (List String) → List PolicyError
kind_errors none = []
kind_errors (some errors) = map PolicyError.schema_invalid errors

-- The minima of the ceilings.
unfoldable pub compiled_limits : PolicyInput → CompiledLimits
compiled_limits input =
    let budget = input.accord.budget in
    let phase = input.phase.limits in
    let pack = input.domain_pack in
    let ceilings = input.enterprise.ceilings in
    record {
      max_calls =
          min budget.max_calls (min phase.max_calls (min pack.max_calls ceilings.max_calls));
      max_tokens = budget.max_tokens;
      max_cost_units =
          min budget.max_cost_units
            (min phase.max_cost_units (min pack.max_cost_units ceilings.max_cost_units));
      max_loops =
          min budget.max_loops (min phase.max_loops (min pack.max_loops ceilings.max_loops));
      max_retries = min budget.max_retries (min pack.max_retries ceilings.max_retries);
      max_parallel =
          min budget.max_parallel
            (min phase.max_parallel (min pack.max_parallel ceilings.max_parallel));
    }

abbrev pub is_model : ImplementationKind → Bool
is_model ImplementationKind.model = true
is_model ImplementationKind.deterministic = false

-- A model, or anything that is called or run.
unfoldable pub consumes_budget : Capability → Bool
consumes_budget capability =
    let access = capability.access in
    is_model capability.implementation_kind
    || ltb 0 capability.limits.max_calls
    || ltb 0 capability.limits.max_cost_units
    || not (is_empty access.tools)
    || not (is_empty access.shell_commands)
    || not (is_empty access.network_destinations)
    || not (is_empty access.mcp_tools)

-- The checks of one capability of the phase, in the order of the source.
abbrev pub grant_checks :
    PolicyInput → (reference : String) → Capability → List (Bool × PolicyError)
grant_checks input reference capability =
    let accord = input.accord in
    let access = capability.access in
    (
      not (is_cost_bearing_phase_owner input.phase.phase) && consumes_budget capability,
      PolicyError.budget_in_free_phase reference,
    )
    ∷ (not (is_subset access.tools accord.policy.tools), PolicyError.undeclared_tool reference)
    ∷ (
      not (is_subset access.shell_commands accord.policy.shell_commands),
      PolicyError.undeclared_shell_command reference,
    )
    ∷ (
      not (is_subset access.network_destinations accord.policy.network),
      PolicyError.undeclared_network reference,
    )
    ∷ (
      not (is_subset access.mcp_tools accord.policy.mcp_tools),
      PolicyError.undeclared_mcp_tool reference,
    )
    ∷ (
      not (is_subset capability.human_gates accord.human_gates),
      PolicyError.undeclared_gate reference,
    )
    ∷ (
      ltb (risk_rank accord.policy.risk_class) (risk_rank capability.risk_class),
      PolicyError.risk_class reference,
    )
    ∷ (
      ltb (privacy_rank accord.policy.privacy_class) (privacy_rank capability.privacy_class)
          || ltb (privacy_rank input.phase.maximum_class) (privacy_rank capability.privacy_class),
      PolicyError.privacy_class reference,
    )
    ∷ (is_empty capability.actor_classes, PolicyError.actor_class reference)
    ∷ (capability.lifecycle != input.phase.compatible_lifecycle, PolicyError.lifecycle reference)
    ∷ []

-- The grant that is pushed for a capability.
unfoldable pub grant_of :
    CompiledLimits → (reference : String) → Capability → CompiledCapabilityGrant
grant_of limits reference capability = record {
  reference = reference;
  actor_classes = sort_by (λ a. code_units (actor_class_name a)) capability.actor_classes;
  human_gates = sorted capability.human_gates;
  read_scopes = sorted capability.access.read_scopes;
  tools = sorted capability.access.tools;
  shell_commands = sorted capability.access.shell_commands;
  network_destinations = sorted capability.access.network_destinations;
  mcp_tools = sorted capability.access.mcp_tools;
  risk_class = capability.risk_class;
  privacy_class = capability.privacy_class;
  limits = record {
    max_calls = min capability.limits.max_calls limits.max_calls;
    max_cost_units = min capability.limits.max_cost_units limits.max_cost_units;
    timeout_ms = capability.limits.timeout_ms;
    max_retries = min capability.limits.max_retries limits.max_retries;
    max_output_bytes = capability.limits.max_output_bytes;
    max_concurrency = min capability.limits.max_concurrency limits.max_parallel;
    parallel_safe = capability.limits.parallel_safe;
  };
  evidence = sorted capability.evidence;
  structural_evaluations = sorted capability.structural_evaluations;
  behavioral_evaluations = sorted capability.behavioral_evaluations;
}

-- One round of the loop over the phase's capabilities: its errors and the grants that it pushes.
unfoldable pub grant_round :
    PolicyInput
    → (reference : String) → Resolution
    → List PolicyError × List CompiledCapabilityGrant
grant_round input reference (Resolution.unresolved error) =
    (PolicyError.unresolved_capability error ∷ [], [])
grant_round input reference (Resolution.resolved capability) = (
  reports (grant_checks input reference capability),
  grant_of (compiled_limits input) reference capability ∷ [],
)

unfoldable pub grant_loop :
    PolicyInput → List String → List PolicyError × List CompiledCapabilityGrant
grant_loop input [] = ([], [])
grant_loop input (reference ∷ references) =
    let round =
      grant_round input reference (resolve_capability input.registry reference input.phase.phase) in
    let rest = grant_loop input references in (round.0 ++ rest.0, round.1 ++ rest.1)

unfoldable pub grant_gates : List CompiledCapabilityGrant → List String
grant_gates [] = []
grant_gates (g ∷ grants) = g.human_gates ++ grant_gates grants

-- The policy without its digest; the grants are sorted by their references.
unfoldable pub policy_body : PolicyInput → List CompiledCapabilityGrant → PolicyBody
policy_body input pushed =
    let grants = sort_by (λ g. code_units (CompiledCapabilityGrant.reference g)) pushed in
    record {
      phase = input.phase.phase;
      allowed_capabilities = map (λ (g : CompiledCapabilityGrant). g.reference) grants;
      capabilities = grants;
      required_human_gates = sorted (distinct (input.phase.human_gates ++ grant_gates grants));
      limits = compiled_limits input;
    }

module _ (host : Host) where
  -- The comparisons before the loop, in the order of the source.
  abbrev pub policy_checks : PolicyInput → List (Bool × PolicyError)
  policy_checks input =
      let accord = input.accord in
      let phase = input.phase in
      let pack = input.domain_pack in
      let enterprise = input.enterprise in
      (not (is_active_phase_owner (phase_owner_of phase.phase)), PolicyError.inactive_phase)
      ∷ (
        accord.binding.policy_digest != host.digest (Document.control_policy enterprise),
        PolicyError.stale_policy,
      )
      ∷ (
        accord.policy.domain_pack != join pack.id (join "@" pack.version),
        PolicyError.pack_reference,
      )
      ∷ (
        accord.policy.domain_pack_digest != host.digest (Document.domain_pack_policy pack),
        PolicyError.stale_pack,
      )
      ∷ (
        accord.policy.capability_registry_digest
            != host.digest (Document.capability_registry input.registry),
        PolicyError.stale_registry,
      )
      ∷ (
        is_misbound_phase host phase (phase_binding phase.phase accord.policy.phase_contracts),
        PolicyError.phase_binding,
      )
      ∷ (
        phase.compatible_lifecycle_digest != accord.binding.lifecycle_graph_digest,
        PolicyError.lifecycle_graph,
      )
      ∷ (
        ltb (depth_rank enterprise.ceilings.depth_profile) (depth_rank accord.policy.depth_profile)
            || ltb (depth_rank pack.depth_ceiling) (depth_rank accord.policy.depth_profile),
        PolicyError.depth_ceiling,
      )
      ∷ (
        ltb (risk_rank enterprise.ceilings.risk_class) (risk_rank accord.policy.risk_class)
            || ltb (risk_rank pack.risk_ceiling) (risk_rank accord.policy.risk_class),
        PolicyError.risk_ceiling,
      )
      ∷ (
        ltb (privacy_rank enterprise.ceilings.privacy_class)
              (privacy_rank accord.policy.privacy_class)
            || ltb (privacy_rank pack.privacy_ceiling) (privacy_rank accord.policy.privacy_class),
        PolicyError.privacy_ceiling,
      )
      ∷ (broadens_budget accord enterprise pack, PolicyError.budget_ceiling)
      ∷ (
        not (is_subset accord.policy.requested_capabilities pack.allowed_capabilities),
        PolicyError.requested_capabilities,
      )
      ∷ (
        not (is_subset phase.allowed_capabilities accord.policy.requested_capabilities),
        PolicyError.phase_capabilities,
      )
      ∷ (not (is_subset phase.human_gates accord.human_gates), PolicyError.phase_gates)
      ∷ (
        any (λ effect. not (includes accord.policy.prohibited_effects effect))
              enterprise.prohibited_effects
            || any (λ effect. not (includes accord.policy.prohibited_effects effect))
                pack.prohibited_effects,
        PolicyError.prohibited_effects,
      )
      ∷ []

  -- `schemaErrors` of the five documents.
  unfoldable pub schema_validation_errors : PolicyInput → List PolicyError
  schema_validation_errors input =
      kind_errors (host.schema_errors (Document.control_policy input.enterprise))
      ++ (kind_errors (host.schema_errors (Document.work_accord input.accord))
          ++ (kind_errors (host.schema_errors (Document.phase_contract input.phase))
              ++ (kind_errors (host.schema_errors (Document.domain_pack_policy input.domain_pack))
                  ++ kind_errors
                      (host.schema_errors (Document.capability_registry input.registry)))))

  module _ (library : RegistryLibrary) where
    -- The errors up to the loop.
    unfoldable pub input_errors : PolicyInput → List PolicyError
    input_errors input =
        map PolicyError.registry_invalid (validate_registry_semantics library input.registry)
        ++ (map PolicyError.input_schema (dialect_errors library input.phase.input_schema false)
            ++ (map PolicyError.output_schema (
                  dialect_errors library input.phase.output_schema
                    (not (is_empty input.phase.allowed_capabilities)))
                ++ reports (policy_checks input)))

    unfoldable pub compilation_of :
        PolicyInput → (errors : List PolicyError) → List CompiledCapabilityGrant → PolicyCompilation
    compilation_of input [] grants =
        let body = policy_body input grants in
        PolicyCompilation.compiled
          (record { digest = compute_compiled_policy_digest host body; body = body })
    compilation_of input (e ∷ errors) grants = PolicyCompilation.failed (e ∷ errors)

    unfoldable pub compile_valid :
        PolicyInput → (schema_errors : List PolicyError) → PolicyCompilation
    compile_valid input [] =
        let loop = grant_loop input input.phase.allowed_capabilities in
        compilation_of input (input_errors input ++ loop.0) loop.1
    compile_valid input (e ∷ errors) = PolicyCompilation.failed (e ∷ errors)

    unfoldable pub compile_policy : PolicyInput → PolicyCompilation
    compile_policy input = compile_valid input (schema_validation_errors input)

    unfoldable pub policy_compiler : PolicyCompiler
    policy_compiler = record { compile_policy = compile_policy }
