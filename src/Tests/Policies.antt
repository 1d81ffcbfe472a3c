-- ===== src/Tests/Policies.antt =====
-- Instances of the theorems on the registry, the schemas and the policy compiler.
use hyperfinite.Common.{
  ◌≡◌, ◌↔◌, ◌⊎◌, refl, some, none, true, not, Bool, Memᴰ, includes, String, [], ◌∷◌, List,
}
use hyperfinite.Json.{Fields, object, field, no_fields, string, bool, code_units, Json}
use hyperfinite.Types.Lifecycle.{ActivePhaseOwner, ActivePhaseOwner-eq}
use hyperfinite.Types.Policy.{CompiledCapabilityGrant, PhaseContract}
use hyperfinite.Host.{compute_compiled_policy_digest}
use hyperfinite.Registry.{Resolution, resolve_capability, validate_registry_semantics}
use hyperfinite.Registry.Schema.{validate_closed_schema_dialect}
use hyperfinite.Registry.Schema.Closed.{
  HasField, Subschema, IsClosedNode, accepted_schema-IsClosedNode,
}
use hyperfinite.Registry.Laws.{IsAdmitted, valid_registry-IsAdmitted, valid_registry-resolves}
use hyperfinite.Json.Order.{IsSortedBy}
use hyperfinite.Policy.{PolicyInput, PolicyCompilation}
use hyperfinite.Policy.Compile.{compile_policy, policy_compiler}
use hyperfinite.Policy.Compile.Bounds.{
  LimitsWithin, IsGrant, compiled-LimitsWithin, compiled-IsGrant,
}
use hyperfinite.Policy.Compile.Gates.{HasGate, compiled-selection, compiled-gates}
use hyperfinite.Types.Snapshot.{applied}
use hyperfinite.Lifecycle.{allows_null_phase_authority}
use hyperfinite.Kernel.{PhaseAuthority}
use hyperfinite.Kernel.Resolution.{current_authority, destination_authority}
use hyperfinite.Kernel.Transition.{effective_policy}
use hyperfinite.Kernel.Transition.Authorities.{policy_input, enters_phase, IsContractOf}
use hyperfinite.Kernel.Transition.Compiled.{WithinDocuments, applied-WithinDocuments}
use hyperfinite.Tests.Fixture.{
  host, library, registry, reader, contract, grant, compiled, activation_context, approve,
}
use hyperfinite.Tests.Steps.{model, requested, activated, activated_applied}

abbrev read : String
read = "read@1"

registry_valid : validate_registry_semantics library registry ≡ []
unfolding model hyperfinite.Common.ℕ_discrete
registry_valid = refl

reader_resolved :
    resolve_capability registry read ActivePhaseOwner.framing ≡ Resolution.resolved reader
unfolding model hyperfinite.Common.ℕ_discrete
reader_resolved = refl

reader_allowed : includes reader.allowed_phases ActivePhaseOwner.framing ≡ true
unfolding model hyperfinite.Common.ℕ_discrete
reader_allowed = refl

abbrev input : PolicyInput
input = policy_input activation_context contract

input_compiled : compile_policy host library input ≡ PolicyCompilation.compiled compiled
unfolding model hyperfinite.Common.ℕ_discrete
input_compiled = refl

valid_registry-IsAdmitted_example : IsAdmitted library reader
valid_registry-IsAdmitted_example =
    valid_registry-IsAdmitted library registry registry_valid reader (Memᴰ.head refl)

valid_registry-resolves_example :
    resolve_capability registry read ActivePhaseOwner.framing ≡ Resolution.resolved reader
valid_registry-resolves_example =
    valid_registry-resolves library registry ActivePhaseOwner.framing reader registry_valid
      (Memᴰ.head refl) refl reader_allowed

compiled-LimitsWithin_example : LimitsWithin input compiled.limits
compiled-LimitsWithin_example = compiled-LimitsWithin host library input compiled input_compiled

compiled-IsGrant_example : IsGrant library input compiled grant
compiled-IsGrant_example =
    compiled-IsGrant host library input compiled input_compiled grant (Memᴰ.head refl)

compiled-selection_example :
    ((r : String) → Memᴰ r compiled.allowed_capabilities ↔ Memᴰ r input.phase.allowed_capabilities)
    × ((r : String)
        → Memᴰ r input.phase.allowed_capabilities
        → (g : CompiledCapabilityGrant) × Memᴰ g compiled.capabilities × (g.reference ≡ r))
    × IsSortedBy (λ g. code_units (CompiledCapabilityGrant.reference g)) compiled.capabilities
    × (compiled.digest ≡ compute_compiled_policy_digest host compiled.body)
compiled-selection_example = compiled-selection host library input compiled input_compiled

compiled-gates_example :
    (Memᴰ "activate" compiled.required_human_gates
      ↔ (Memᴰ "activate" input.phase.human_gates ⊎ HasGate "activate" compiled.capabilities))
    × (Memᴰ "activate" compiled.required_human_gates → Memᴰ "activate" input.accord.human_gates)
compiled-gates_example = compiled-gates host library input compiled input_compiled "activate"

abbrev framing : PhaseAuthority
framing = record { contract = contract; compiled = compiled }

no_current :
    current_authority host
      (policy_compiler host library)
      requested.snapshot
      activation_context
      (not (allows_null_phase_authority requested.snapshot.state))
    ≡ applied none
unfolding model hyperfinite.Common.ℕ_discrete
no_current = refl

into_framing :
    destination_authority host
      (policy_compiler host library)
      requested.snapshot
      activated.route
      none
      activation_context
    ≡ applied (some framing)
unfolding model hyperfinite.Common.ℕ_discrete
into_framing = refl

framing_effective : effective_policy none (some framing) ≡ some compiled
unfolding model
framing_effective = refl

applied-WithinDocuments_example :
    (c : PhaseContract) × (compile_policy host library (policy_input activation_context c)
      ≡ PolicyCompilation.compiled compiled)
    × IsContractOf
        (enters_phase activated.route)
        requested.snapshot
        activated.route
        activation_context
        c
    × WithinDocuments activated.snapshot.phase_usage (policy_input activation_context c)
applied-WithinDocuments_example =
    applied-WithinDocuments host library requested.snapshot approve activation_context activated
      none (some framing) compiled activated_applied no_current into_framing framing_effective

abbrev text_schema : Json
text_schema = object (field (code_units "type") (string (code_units "string")) no_fields)

abbrev summary : Fields
summary = field (code_units "summary") text_schema no_fields

abbrev output_schema : Json
output_schema = object (
    field (code_units "type") (string (code_units "object")) (
      field (code_units "additionalProperties") (bool Bool.false)
        (field (code_units "properties") (object summary) no_fields)))

output_accepted : validate_closed_schema_dialect true output_schema true ≡ []
unfolding model hyperfinite.Common.ℕ_discrete
output_accepted = refl

text_within : Subschema text_schema output_schema
unfolding model hyperfinite.Common.ℕ_discrete
text_within =
    Subschema.property summary (code_units "summary") text_schema refl HasField.here Subschema.self

accepted_schema-IsClosedNode_example :
    (fields : Fields) × (text_schema ≡ object fields) × IsClosedNode true fields
accepted_schema-IsClosedNode_example =
    accepted_schema-IsClosedNode true output_schema text_schema true output_accepted text_within
