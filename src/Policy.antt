-- ===== src/Policy.antt =====
-- The interface of the policy compiler (`compilePolicy`, src/policy.ts) that the kernel uses. The
-- compiler itself is a child module.
pub mod Compile
use hyperfinite.Common.{String, List}
use hyperfinite.Registry.{RegistryError}
use hyperfinite.Registry.Schema.{SchemaError}
use hyperfinite.Types.Accord.{WorkAccord}
use hyperfinite.Types.Policy.{
  PhaseContract, CapabilityRegistry, ControlPolicy, DomainPackPolicy, CompiledPolicy,
}

pub record PolicyInput : Type 0 where
  pub enterprise : ControlPolicy
  pub accord : WorkAccord
  pub phase : PhaseContract
  pub domain_pack : DomainPackPolicy
  pub registry : CapabilityRegistry

-- An error of the compilation; those of a grant carry the reference of the capability.
pub data PolicyError : Type 0 where
  schema_invalid : String → PolicyError
  registry_invalid unresolved_capability : RegistryError → PolicyError
  input_schema output_schema : SchemaError → PolicyError
  inactive_phase stale_policy pack_reference stale_pack stale_registry phase_binding : PolicyError
  lifecycle_graph depth_ceiling risk_ceiling privacy_ceiling budget_ceiling : PolicyError
  requested_capabilities phase_capabilities phase_gates prohibited_effects : PolicyError
  budget_in_free_phase undeclared_tool undeclared_shell_command : String → PolicyError
  undeclared_network undeclared_mcp_tool undeclared_gate risk_class privacy_class :
      String → PolicyError
  actor_class lifecycle : String → PolicyError

-- PolicyCompilationSuccess or PolicyCompilationFailure; a failure's code is POLICY_ESCALATION.
pub data PolicyCompilation : Type 0 where
  compiled : CompiledPolicy → PolicyCompilation
  failed : (errors : List PolicyError) → PolicyCompilation

pub record PolicyCompiler : Type 0 where
  pub compile_policy : PolicyInput → PolicyCompilation
