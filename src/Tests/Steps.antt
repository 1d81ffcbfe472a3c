-- ===== src/Tests/Steps.antt =====
-- The two evaluations of the small lifecycle: a request, then an approved activation.
use hyperfinite.Common.{ℕ_discrete, ◌≡◌, refl, Option, none, some}
use hyperfinite.Types.Snapshot.{Transition, applied}
use hyperfinite.Kernel.{PhaseAuthority}
use hyperfinite.Kernel.Accounting.{Totals}
use hyperfinite.Kernel.Commit.{Destination}
use hyperfinite.Tests.Fixture.{
  host, compiler, initial, request, approve, context, activation_context, graph, request_route,
  activate_route, contract, compiled,
}
use hyperfinite.Common.{own_value, with_entry}
use hyperfinite.Common.{String-discrete, Option-discrete, Bool-discrete}
use hyperfinite.Types.Lifecycle.{
  event_type_name, LifecycleState-discrete, PhaseOwner-discrete, ActivePhaseOwner-discrete,
  ActorClass-discrete, EventType-discrete,
}
use hyperfinite.Types.Event.{EventSource-discrete, RequirementType-discrete}
use hyperfinite.Lifecycle.{
  state_invariants, is_terminal_state, safety_destination, active_phase_of, is_active_phase_owner,
  phase_owner_of, is_cost_bearing_state, is_cost_bearing_phase_owner, allows_null_phase_authority,
  is_safety_entry, classify_route_authority, retained_state, is_retainable_owner,
}
use hyperfinite.Lifecycle.Graph.{
  find_state, state_ids, state_rounds, missing_states, owner_mismatch, safety_mismatch,
  untrusted_revalidation, cannot_be_retained, is_declared_terminal, route_rounds, has_key,
  add_route, route_keys, may_fork, ambiguous_groups, required_states, validate_lifecycle_graph,
}
use hyperfinite.Lifecycle.Selection.{
  leaves_on, enters, is_resume, is_retry, route_candidates, selection_of, select_route,
}
use hyperfinite.Lifecycle.Semantics.{
  retains_state, retained_errors, declared_errors, validate_snapshot_lifecycle_semantics,
}
use hyperfinite.Host.{
  work_accord_binding_digest, event_payload_digest, compute_compiled_policy_digest,
}
use hyperfinite.DateTime.{
  is_digit, is_fraction, is_leap_year, days_in_month, is_valid_time, is_canonical,
  is_canonical_utc_date_time,
}
use hyperfinite.Authorization.{
  find_actor_rule, authorize_identity, is_expected_actor, is_gate_candidate, is_current_window,
  is_unbound, validate_gate_binding, validate_human_gate_evidence, first_valid,
  authorize_human_gate, authorize_actor,
}
use hyperfinite.Kernel.{create_initial_snapshot, safe_add, usage_of, add_usage}
use hyperfinite.Json.{Text-discrete, field_of}
use hyperfinite.Json.Order.{text_leb, insert_by, sort_by}
use hyperfinite.Registry.Schema.{
  is_type, has_unsupported_type, is_structured, any_structured, has_structured_enum,
  has_structured_const, is_false, unsupported_keywords, node_errors, index_errors, has_few_branches,
  inspect_node, under_properties, properties_errors, inspect_properties, under_items,
  under_branches, branches_errors, inspect_branches, validate_closed_schema_dialect,
}
use hyperfinite.Registry.{
  has_wildcard, has_repeats, is_misclassified, is_bad_destination, to_lower_case, starts_with,
  has_word, has_prohibited_effect, destination_errors, capability_errors, capability_rounds,
  validate_registry_semantics, resolution_of, resolve_capability,
}
use hyperfinite.Policy.Compile.{
  actor_class_name, distinct, phase_binding, is_misbound_phase, broadens_budget, kind_errors,
  compiled_limits, consumes_budget, grant_of, grant_round, grant_loop, grant_gates, policy_body,
  schema_validation_errors, input_errors, compilation_of, compile_valid, compile_policy,
  policy_compiler,
}
use hyperfinite.Kernel.Boundary.{
  schema_checks, schema_errors, check_schemas, replay_of, check_replay, check_envelope,
}
use hyperfinite.Kernel.Requirements.{
  kernel_supports_contract_requirement, find_exit_rule, enters_new_phase,
  requirement_evidence_is_current, lease_is_stale, validate_contract_requirement,
  validate_entry_requirements, exit_by_rule, validate_exit, validate_entry,
  validate_phase_requirements,
}
use hyperfinite.Kernel.Resolution.{
  active_owner_of, completing_owners, single_owner, expected_authority_phase, route_or_refusal,
  resolve_route, authority_or_refusal, unbound_authority, check_contract, compile_authority,
  bound_authority, authority_by_digests, current_authority, active_destination,
  destination_authority,
}
use hyperfinite.Kernel.Lease.{
  is_before_both, is_activation_evidence, check_lease, lease_for_phase, validate_lease_authority,
}
use hyperfinite.Kernel.Guards.{
  lifecycle_gates, compiled_human_gates_have_lifecycle_routes,
  validate_compiled_capability_authority, compiled_policies, validate_capabilities,
  capability_stage, route_attempt_count, check_attempts, route_attempt_refusal,
}
use hyperfinite.Kernel.Rebind.{
  is_trusted_source, phase_count, is_not_superseding, check_compilation, is_misbound,
  compile_contracts, check_replacement, rebind_for, validate_authority_rebind,
}
use hyperfinite.Kernel.Accounting.{
  validate_lifetime_budget, validate_phase_budget, lease_budget, validate_lease_cost_budget,
  totals_of, account,
}
use hyperfinite.Kernel.Commit.{
  phase_effects, effects_of, next_retained, destination_of, idempotency_key_of, receipt_of,
  next_attempts, next_snapshot, commit,
}
use hyperfinite.Kernel.Transition.{
  effective_policy, actor_input, check_guards, take_route, evaluate_transition,
}

-- Unfolding this name unfolds every definition of the model.
unfoldable pub model : Unit {0}
unfolding own_value with_entry String-discrete Option-discrete Bool-discrete event_type_name
    LifecycleState-discrete PhaseOwner-discrete ActivePhaseOwner-discrete ActorClass-discrete
    EventType-discrete EventSource-discrete RequirementType-discrete state_invariants
    is_terminal_state safety_destination active_phase_of is_active_phase_owner phase_owner_of
    is_cost_bearing_state is_cost_bearing_phase_owner allows_null_phase_authority is_safety_entry
    classify_route_authority retained_state is_retainable_owner find_state state_ids state_rounds
    missing_states owner_mismatch safety_mismatch untrusted_revalidation cannot_be_retained
    is_declared_terminal route_rounds has_key add_route route_keys may_fork ambiguous_groups
    required_states validate_lifecycle_graph leaves_on enters is_resume is_retry route_candidates
    selection_of select_route retains_state retained_errors declared_errors
    validate_snapshot_lifecycle_semantics work_accord_binding_digest event_payload_digest
    compute_compiled_policy_digest is_digit is_fraction is_leap_year days_in_month is_valid_time
    is_canonical is_canonical_utc_date_time find_actor_rule authorize_identity is_expected_actor
    is_gate_candidate is_current_window is_unbound validate_gate_binding
    validate_human_gate_evidence first_valid authorize_human_gate authorize_actor
    create_initial_snapshot safe_add usage_of add_usage schema_checks schema_errors check_schemas
    replay_of check_replay check_envelope kernel_supports_contract_requirement find_exit_rule
    enters_new_phase requirement_evidence_is_current lease_is_stale validate_contract_requirement
    validate_entry_requirements exit_by_rule validate_exit validate_entry
    validate_phase_requirements active_owner_of completing_owners single_owner
    expected_authority_phase route_or_refusal resolve_route authority_or_refusal unbound_authority
    check_contract compile_authority bound_authority authority_by_digests current_authority
    active_destination destination_authority is_before_both is_activation_evidence check_lease
    lease_for_phase validate_lease_authority lifecycle_gates
    compiled_human_gates_have_lifecycle_routes validate_compiled_capability_authority
    compiled_policies validate_capabilities capability_stage route_attempt_count check_attempts
    route_attempt_refusal is_trusted_source phase_count is_not_superseding check_compilation
    is_misbound compile_contracts check_replacement rebind_for validate_authority_rebind
    validate_lifetime_budget validate_phase_budget lease_budget validate_lease_cost_budget totals_of
    account phase_effects effects_of next_retained destination_of idempotency_key_of receipt_of
    next_attempts next_snapshot commit effective_policy actor_input check_guards take_route
    evaluate_transition Text-discrete field_of text_leb insert_by sort_by is_type
    has_unsupported_type is_structured any_structured has_structured_enum has_structured_const
    is_false unsupported_keywords node_errors index_errors has_few_branches inspect_node
    under_properties properties_errors inspect_properties under_items under_branches branches_errors
    inspect_branches validate_closed_schema_dialect has_wildcard has_repeats is_misclassified
    is_bad_destination to_lower_case starts_with has_word has_prohibited_effect destination_errors
    capability_errors capability_rounds validate_registry_semantics resolution_of resolve_capability
    actor_class_name distinct phase_binding is_misbound_phase broadens_budget kind_errors
    compiled_limits consumes_budget grant_of grant_round grant_loop grant_gates policy_body
    schema_validation_errors input_errors compilation_of compile_valid compile_policy
    policy_compiler ℕ_discrete
model = tt

abbrev bound : Destination
bound = record {
  binding_digest = "binding";
  lifecycle_graph_digest = "graph";
  work_accord_digest = "accord";
  capability_registry_digest = "registry";
  domain_pack_digest = "pack";
  policy_digest = "policy";
  current_head = none;
  graph = graph;
}

abbrev no_costs : Totals
no_costs = record {
  usage = record { calls = 0; tokens = 0; cost_units = 0; loops = 0; retries = 0 };
  phase_usage = record { calls = 0; tokens = 0; cost_units = 0; loops = 0; retries = 0 };
  state_version = 1;
}

abbrev pub requested : Transition
requested = record {
  route = request_route;
  snapshot = next_snapshot host initial request request_route none bound no_costs "e1" none;
  receipt = receipt_of host initial request request_route none bound no_costs;
  receipt_digest = "e1";
  effects = effects_of request none request_route;
}

pub requested_applied :
    evaluate_transition host compiler initial request context ≡ applied requested
unfolding model
requested_applied = refl

abbrev some_costs : Totals
some_costs = record {
  usage = record { calls = 2; tokens = 20; cost_units = 1; loops = 1; retries = 0 };
  phase_usage = record { calls = 2; tokens = 20; cost_units = 1; loops = 1; retries = 0 };
  state_version = 2;
}

abbrev framing : Option PhaseAuthority
framing = some (record { contract = contract; compiled = compiled })

abbrev pub activated : Transition
activated = record {
  route = activate_route;
  snapshot =
      next_snapshot host requested.snapshot approve activate_route framing bound some_costs "e2"
        none;
  receipt = receipt_of host requested.snapshot approve activate_route framing bound some_costs;
  receipt_digest = "e2";
  effects = effects_of approve framing activate_route;
}

pub activated_applied :
    evaluate_transition host compiler requested.snapshot approve activation_context
    ≡ applied activated
unfolding model
activated_applied = refl
