-- ===== src/Policy/Compile/Bounds.antt =====
-- What a compiled policy (src/policy.ts) promises: limits, grants and gates within the documents.
use hyperfinite.Common.{
  String, false, not, List, [], map, min, Memᴰ, is_empty, ◌≡◌, ◌↔◌, ◌≤◌, refl, sym, subst, ap,
  reports, reports-nil, AllFalse, append-nil_inv, arith, string_eq,
}
use hyperfinite.Json.{Text, code_units}
use hyperfinite.Types.Lifecycle.{ActorClass}
use hyperfinite.Json.Order.{mem-sort_by, mem-sort_by_inv}
use hyperfinite.Types.Policy.{
  Capability, CompiledCapabilityGrant, CompiledPolicy, CompiledLimits, PolicyBody,
}
use hyperfinite.Host.{Host}
use hyperfinite.Registry.{RegistryLibrary, validate_registry_semantics, dialect_errors}
use hyperfinite.Registry.Laws.{
  IsResolved, resolve_capability-IsResolved, IsAdmitted, valid_registry-IsAdmitted, map-nil_inv,
}
use hyperfinite.Policy.{PolicyInput, PolicyError, PolicyCompilation}
use hyperfinite.Policy.Compile.{
  is_subset, actor_class_name, risk_rank, privacy_rank, broadens_budget, policy_checks,
  grant_checks, grant_of, grant_loop, sorted, compiled_limits, policy_body, input_errors,
  compile_policy,
}
use hyperfinite.Policy.Compile.Grants.{
  IsSubset, is_subset-IsSubset, Granted, grant_loop-Granted, Compilation, compile_policy_inv,
}

-- The limits are the Work Accord's, narrowed by the phase, and broaden no ceiling.
pub record LimitsWithin (input : PolicyInput) (limits : CompiledLimits) : Type 0 where
  pub calls : limits.max_calls ≡ min input.accord.budget.max_calls input.phase.limits.max_calls
  pub tokens : limits.max_tokens ≡ input.accord.budget.max_tokens
  pub cost_units :
      limits.max_cost_units
      ≡ min input.accord.budget.max_cost_units input.phase.limits.max_cost_units
  pub loops : limits.max_loops ≡ min input.accord.budget.max_loops input.phase.limits.max_loops
  pub retries : limits.max_retries ≡ input.accord.budget.max_retries
  pub parallel :
      limits.max_parallel ≡ min input.accord.budget.max_parallel input.phase.limits.max_parallel
  pub under_pack :
      (limits.max_calls ≤ input.domain_pack.max_calls)
      × (limits.max_cost_units ≤ input.domain_pack.max_cost_units)
      × (limits.max_loops ≤ input.domain_pack.max_loops)
      × (limits.max_retries ≤ input.domain_pack.max_retries)
      × (limits.max_parallel ≤ input.domain_pack.max_parallel)
  pub under_enterprise :
      (limits.max_calls ≤ input.enterprise.ceilings.max_calls)
      × (limits.max_cost_units ≤ input.enterprise.ceilings.max_cost_units)
      × (limits.max_loops ≤ input.enterprise.ceilings.max_loops)
      × (limits.max_retries ≤ input.enterprise.ceilings.max_retries)
      × (limits.max_parallel ≤ input.enterprise.ceilings.max_parallel)

compiled_limits-LimitsWithin :
    (input : PolicyInput)
    → broadens_budget input.accord input.enterprise input.domain_pack ≡ false
    → LimitsWithin input (compiled_limits input)
unfolding broadens_budget compiled_limits
compiled_limits-LimitsWithin input h = record {
  calls = ground arith;
  tokens = refl;
  cost_units = ground arith;
  loops = ground arith;
  retries = ground arith;
  parallel = ground arith;
  under_pack = ground arith;
  under_enterprise = ground arith;
}

-- The access, actors, gates and limits of a capability, and no more.
pub record IsOwn (capability : Capability) (grant : CompiledCapabilityGrant) : Type 0 where
  pub actors : (a : ActorClass) → Memᴰ a grant.actor_classes ↔ Memᴰ a capability.actor_classes
  pub gates : (gate : String) → Memᴰ gate grant.human_gates ↔ Memᴰ gate capability.human_gates
  pub read_scopes : IsSubset grant.read_scopes capability.access.read_scopes
  pub tools : IsSubset grant.tools capability.access.tools
  pub shell_commands : IsSubset grant.shell_commands capability.access.shell_commands
  pub network : IsSubset grant.network_destinations capability.access.network_destinations
  pub mcp_tools : IsSubset grant.mcp_tools capability.access.mcp_tools
  pub evidence : (e : String) → Memᴰ e grant.evidence ↔ Memᴰ e capability.evidence
  pub risk : grant.risk_class ≡ capability.risk_class
  pub privacy : grant.privacy_class ≡ capability.privacy_class
  pub timeout : grant.limits.timeout_ms ≡ capability.limits.timeout_ms
  pub output : grant.limits.max_output_bytes ≡ capability.limits.max_output_bytes
  pub parallel : grant.limits.parallel_safe ≡ capability.limits.parallel_safe

-- What a grant promises: a listed, active capability of the phase, which the registry admits, that
-- the phase and the Work Accord request and the pack allows; it has the capability's own access,
-- gates and actors; its tools, commands, destinations, gates, risk and privacy are within the Work
-- Accord's, and its limits within the policy's and the capability's.
pub record IsGrant (library : RegistryLibrary) (input : PolicyInput) (policy : CompiledPolicy)
    (grant : CompiledCapabilityGrant) : Type 0 where
  pub capability : Capability
  pub resolved : IsResolved input.registry grant.reference input.phase.phase capability
  pub admitted : IsAdmitted library capability
  pub own : IsOwn capability grant
  pub by_phase : Memᴰ grant.reference input.phase.allowed_capabilities
  pub by_accord : Memᴰ grant.reference input.accord.policy.requested_capabilities
  pub by_pack : Memᴰ grant.reference input.domain_pack.allowed_capabilities
  pub tools : IsSubset grant.tools input.accord.policy.tools
  pub shell_commands : IsSubset grant.shell_commands input.accord.policy.shell_commands
  pub network : IsSubset grant.network_destinations input.accord.policy.network
  pub mcp_tools : IsSubset grant.mcp_tools input.accord.policy.mcp_tools
  pub gates : IsSubset grant.human_gates input.accord.human_gates
  pub risk : risk_rank grant.risk_class ≤ risk_rank input.accord.policy.risk_class
  pub privacy : privacy_rank grant.privacy_class ≤ privacy_rank input.accord.policy.privacy_class
  pub phase_privacy : privacy_rank grant.privacy_class ≤ privacy_rank input.phase.maximum_class
  pub under_policy :
      (grant.limits.max_calls ≤ policy.limits.max_calls)
      × (grant.limits.max_cost_units ≤ policy.limits.max_cost_units)
      × (grant.limits.max_retries ≤ policy.limits.max_retries)
      × (grant.limits.max_concurrency ≤ policy.limits.max_parallel)
  pub under_capability :
      (grant.limits.max_calls ≤ capability.limits.max_calls)
      × (grant.limits.max_cost_units ≤ capability.limits.max_cost_units)
      × (grant.limits.max_retries ≤ capability.limits.max_retries)
      × (grant.limits.max_concurrency ≤ capability.limits.max_concurrency)

abbrev class_key : ActorClass → Text
class_key a = code_units (actor_class_name a)

sorted-IsSubset :
    (left right : List String) → not (is_subset left right) ≡ false → IsSubset (sorted left) right
sorted-IsSubset left right h x m =
    is_subset-IsSubset left right h x (mem-sort_by_inv code_units left m)

grant_of-IsOwn :
    (limits : CompiledLimits) (reference : String) (c : Capability)
    → IsOwn c (grant_of limits reference c)
unfolding grant_of
grant_of-IsOwn limits reference c = record {
  actors = λ a. (mem-sort_by_inv class_key c.actor_classes, mem-sort_by class_key c.actor_classes);
  gates = λ gate. (mem-sort_by_inv code_units c.human_gates, mem-sort_by code_units c.human_gates);
  read_scopes = λ x m. mem-sort_by_inv code_units c.access.read_scopes m;
  tools = λ x m. mem-sort_by_inv code_units c.access.tools m;
  shell_commands = λ x m. mem-sort_by_inv code_units c.access.shell_commands m;
  network = λ x m. mem-sort_by_inv code_units c.access.network_destinations m;
  mcp_tools = λ x m. mem-sort_by_inv code_units c.access.mcp_tools m;
  evidence = λ e. (mem-sort_by_inv code_units c.evidence, mem-sort_by code_units c.evidence);
  risk = refl;
  privacy = refl;
  timeout = refl;
  output = refl;
  parallel = refl;
}

module _ (host : Host) (library : RegistryLibrary) (input : PolicyInput) (policy : CompiledPolicy)
    (done : compile_policy host library input ≡ PolicyCompilation.compiled policy) where
  pub compilation : Compilation host library input policy
  compilation = compile_policy_inv host library input policy done

  abbrev pub pushed : List CompiledCapabilityGrant
  pushed = (grant_loop input input.phase.allowed_capabilities).1

  pub inputs_nil :
      (validate_registry_semantics library input.registry ≡ [])
      × AllFalse (policy_checks host input)
  unfolding input_errors
  inputs_nil =
      let registry =
        map PolicyError.registry_invalid (validate_registry_semantics library input.registry) in
      let schemas =
        map PolicyError.input_schema (dialect_errors library input.phase.input_schema false) in
      let outputs = map PolicyError.output_schema (
        dialect_errors library input.phase.output_schema
          (not (is_empty input.phase.allowed_capabilities))) in
      let (a, rest) = append-nil_inv registry _ compilation.inputs in
      let (b, rest2) = append-nil_inv schemas _ rest in
      let (c, d) = append-nil_inv outputs (reports (policy_checks host input)) rest2 in
      (map-nil_inv _ _ a, reports-nil (policy_checks host input) d)

  -- The limits of a compiled policy are the Work Accord's budget narrowed by the phase's limits,
  -- and broaden neither the Domain Pack's nor the enterprise policy's ceilings.
  pub compiled-LimitsWithin : LimitsWithin input policy.limits
  unfolding policy_body
  compiled-LimitsWithin =
      let (_, (_, (_, (_, (_, (_, (_, (_, (_, (_, (_, (budget, _)))))))))))) = inputs_nil in
      subst (λ b. LimitsWithin input b) (ap (λ b. PolicyBody.limits b) (sym compilation.body_eq))
        (compiled_limits-LimitsWithin input budget)

  pub mem-capabilities-Granted :
      (g : CompiledCapabilityGrant)
      → Memᴰ g policy.capabilities
      → Granted input input.phase.allowed_capabilities g
  unfolding policy_body
  mem-capabilities-Granted g m =
      grant_loop-Granted input input.phase.allowed_capabilities compilation.granted (
        mem-sort_by_inv (λ c. code_units (CompiledCapabilityGrant.reference c)) pushed
          (subst (λ b. Memᴰ g (PolicyBody.capabilities b)) compilation.body_eq m))

  limits_eq : policy.limits ≡ compiled_limits input
  unfolding policy_body
  limits_eq = ap (λ b. PolicyBody.limits b) compilation.body_eq

  grant_of-IsGrant :
      (r : String) (c : Capability)
      → IsResolved input.registry r input.phase.phase c
      → Memᴰ r input.phase.allowed_capabilities
      → AllFalse (grant_checks input r c)
      → IsGrant library input policy (grant_of (compiled_limits input) r c)
  unfolding grant_of
  grant_of-IsGrant r c resolved m
        (_, (tools, (shell, (network, (mcp, (gates, (risk, (privacy, _)))))))) =
      let (registry, checks) = inputs_nil in
      let (_, (_, (_, (_, (_, (_, (_, (_, (_, (_, (_, (by_pack, (by_accord, _))))))))))))) =
        checks in
      let requested = is_subset-IsSubset _ _ by_accord r m in
      record {
        capability = c;
        resolved = resolved;
        admitted = valid_registry-IsAdmitted library input.registry registry c resolved.listed;
        own = grant_of-IsOwn (compiled_limits input) r c;
        by_phase = m;
        by_accord = requested;
        by_pack = is_subset-IsSubset _ _ by_pack r requested;
        tools = sorted-IsSubset _ _ tools;
        shell_commands = sorted-IsSubset _ _ shell;
        network = sorted-IsSubset _ _ network;
        mcp_tools = sorted-IsSubset _ _ mcp;
        gates = sorted-IsSubset _ _ gates;
        risk = ground arith;
        privacy = ground arith;
        phase_privacy = ground arith;
        under_policy =
            subst
              (λ (l : CompiledLimits).
                (min c.limits.max_calls (compiled_limits input).max_calls ≤ l.max_calls)
                × (min c.limits.max_cost_units (compiled_limits input).max_cost_units
                    ≤ l.max_cost_units)
                × (min c.limits.max_retries (compiled_limits input).max_retries ≤ l.max_retries)
                × (min c.limits.max_concurrency (compiled_limits input).max_parallel
                    ≤ l.max_parallel))
              (sym limits_eq) (omega arith);
        under_capability = omega arith;
      }

  -- Every grant of a compiled policy is of a capability that the registry admits for the phase and
  -- that the phase, the Work Accord and the Domain Pack allow. It has the capability's actors,
  -- gates, evidence, classes, timeout and output limit and no access that the capability has not;
  -- its tools, commands, destinations, MCP tools, gates and classes are within the Work Accord's,
  -- and its calls, cost, retries and concurrency within the policy's and the capability's limits.
  pub compiled-IsGrant :
      (g : CompiledCapabilityGrant) → Memᴰ g policy.capabilities → IsGrant library input policy g
  compiled-IsGrant g m =
      let granted = mem-capabilities-Granted g m in
      subst (IsGrant library input policy) (sym granted.grant_eq) (
        grant_of-IsGrant g.reference granted.capability
          (resolve_capability-IsResolved _ _ _ _ granted.resolved) granted.requested
          granted.checked)
