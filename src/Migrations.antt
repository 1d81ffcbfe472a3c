-- ===== src/Migrations.antt =====
-- Document migrations (src/migrations.ts, MigrationRegistry): registration and planning; the
-- execution of a plan is in Execution.
pub mod Paths
pub mod Plans
pub mod Ends
pub mod Execution
use Prim.Native.String.{◌++◌ as join}
use hyperfinite.Common.{
  ℕ, zero, suc, ◌+◌, String, Bool, true, false, not, ◌&&◌, ◌||◌, Option, none, some, List, [], ◌∷◌,
  ◌++◌, any, all, includes, length, is_some, own_value, with_entry, Eq, leb, ◌==◌, ◌!=◌,
  if◌then◌else◌, string_eq, nat_eq,
}
use hyperfinite.Json.{Text, Json, code_units}

pub data MigratableKind : Type 0 where
  lifecycle_graph work_accord phase_contract capability_registry : MigratableKind
  control_policy kernel_snapshot transition_receipt : MigratableKind

unfoldable pub MigratableKind-discrete : Discrete MigratableKind
MigratableKind-discrete = hlevel

instance abbrev pub MigratableKind-eq : Eq MigratableKind
MigratableKind-eq = record { dec = MigratableKind-discrete }

abbrev pub kind_name : MigratableKind → String
kind_name MigratableKind.lifecycle_graph = "LifecycleGraph"
kind_name MigratableKind.work_accord = "WorkAccord"
kind_name MigratableKind.phase_contract = "PhaseContract"
kind_name MigratableKind.capability_registry = "CapabilityRegistry"
kind_name MigratableKind.control_policy = "ControlPolicy"
kind_name MigratableKind.kernel_snapshot = "KernelSnapshot"
kind_name MigratableKind.transition_receipt = "TransitionReceipt"

abbrev pub all_kinds : List MigratableKind
all_kinds =
    MigratableKind.lifecycle_graph ∷ MigratableKind.work_accord ∷ MigratableKind.phase_contract
    ∷ MigratableKind.capability_registry ∷ MigratableKind.control_policy
    ∷ MigratableKind.kernel_snapshot ∷ MigratableKind.transition_receipt ∷ []

pub data MigrationValidation : Type 0 where
  accepted : MigrationValidation
  invalid : (errors : List Text) → MigrationValidation

-- What a call of a validator does: it returns, with the document as the call leaves it, or what it
-- returns is no MigrationValidation, or it throws.
pub data ValidatorCall : Type 0 where
  returned : MigrationValidation → (after : Json) → ValidatorCall
  malformed : (after : Json) → ValidatorCall
  threw : ValidatorCall

-- A validator is a function of the program, compared by identity. Each call of one in a migration has
-- a time of its own, on which what it does may depend.
pub record MigrationValidator : Type 0 where
  pub identity : ℕ
  pub call : (time : ℕ) → Json → ValidatorCall

pub data MigrateCall : Type 0 where
  output : Json → MigrateCall
  output_not_json : MigrateCall
  migrate_threw : MigrateCall

pub record MigrationStep : Type 0 where
  pub kind : MigratableKind
  pub from : String
  pub to : String
  pub validate_source : MigrationValidator
  pub validate_target : MigrationValidator
  pub migrate : (time : ℕ) → Json → MigrateCall

pub record MigrationRegistry : Type 0 where
  pub steps : List (String × MigrationStep)
  pub known_versions : List (MigratableKind × String)
  pub validators : List (String × MigrationValidator)

-- `${kind}:${version}`
abbrev pub step_key : MigratableKind → (version : String) → String
step_key kind version = join (kind_name kind) (join ":" version)

abbrev pub initial_version : String
initial_version = "1.0.0"

-- The constructor, over the kinds that are left; `current` is validateCurrentDocument.
unfoldable pub initial_registry :
    (current : MigratableKind → MigrationValidator) → List MigratableKind → MigrationRegistry
initial_registry current [] = record { steps = []; known_versions = []; validators = [] }
initial_registry current (kind ∷ kinds) =
    let rest = initial_registry current kinds in
    record rest {
      known_versions = (kind, initial_version) ∷ rest.known_versions;
      validators = (step_key kind initial_version, current kind) ∷ rest.validators;
    }

-- VERSION_PATTERN: three numerals without leading zeros, with points between.
unfoldable pub is_numeral : Text → Bool
is_numeral [] = false
is_numeral (c ∷ []) = leb b'0' c && leb c b'9'
is_numeral (c ∷ d ∷ text) =
    leb b'1' c && leb c b'9' && all (λ e. leb b'0' e && leb e b'9') (d ∷ text)

abbrev before_parts : ℕ → List Text → List Text
before_parts c [] = (c ∷ []) ∷ []
before_parts c (part ∷ parts) = (c ∷ part) ∷ parts

unfoldable pub split_points : Text → List Text
split_points [] = [] ∷ []
split_points (c ∷ text) =
    let rest = split_points text in if c == b'.' then [] ∷ rest else before_parts c rest

unfoldable pub is_version : String → Bool
is_version version =
    let parts = split_points (code_units version) in length parts == 3 && all is_numeral parts

pub data RegistrationError : Type 0 where
  invalid_version same_version already_registered conflicting_validator : RegistrationError

pub data Registration : Type 0 where
  registered : MigrationRegistry → Registration
  rejected : RegistrationError → Registration

-- `targetValidator !== undefined && targetValidator !== step.validateTarget`
abbrev pub conflicts : Option MigrationValidator → MigrationValidator → Bool
conflicts none validator = false
conflicts (some present) validator = present.identity != validator.identity

abbrev pub with_step : MigrationRegistry → MigrationStep → MigrationRegistry
with_step registry step = record {
  steps = with_entry (step_key step.kind step.from) step registry.steps;
  known_versions = (step.kind, step.from) ∷ (step.kind, step.to) ∷ registry.known_versions;
  validators = with_entry (step_key step.kind step.to) step.validate_target registry.validators;
}

unfoldable pub register : MigrationRegistry → MigrationStep → Registration
register registry step =
    if not (is_version step.from) || not (is_version step.to)
    then Registration.rejected RegistrationError.invalid_version
    else if step.from == step.to
    then Registration.rejected RegistrationError.same_version
    else if is_some (own_value (step_key step.kind step.from) registry.steps)
    then Registration.rejected RegistrationError.already_registered
    else if conflicts (own_value (step_key step.kind step.to) registry.validators)
        step.validate_target
    then Registration.rejected RegistrationError.conflicting_validator
    else Registration.registered (with_step registry step)

pub data PlanError : Type 0 where
  noncanonical_version unsupported_version migration_cycle no_path out_of_fuel : PlanError

-- The steps of a MigrationPlan, whose `path` names their versions, or a MigrationFailure (MIGRATION_UNAVAILABLE).
pub data MigrationPlan : Type 0 where
  planned : List MigrationStep → MigrationPlan
  unavailable : PlanError → MigrationPlan

abbrev pub first_step : MigrationStep → MigrationPlan → MigrationPlan
first_step step (MigrationPlan.planned path) = MigrationPlan.planned (step ∷ path)
first_step step (MigrationPlan.unavailable e) = MigrationPlan.unavailable e

abbrev pub from_step : Option MigrationStep → (MigrationStep → MigrationPlan) → MigrationPlan
from_step none rest = MigrationPlan.unavailable PlanError.no_path
from_step (some step) rest = first_step step (rest step)

-- `while (version !== input.to)`
unfoldable pub plan_loop :
    (fuel : ℕ)
    → MigrationRegistry
    → MigratableKind
    → (to version : String) (visited : List String) → MigrationPlan
plan_loop zero registry kind to version visited = MigrationPlan.unavailable PlanError.out_of_fuel
plan_loop (suc fuel) registry kind to version visited =
    let key = step_key kind version in
    let rest = λ (step : MigrationStep). plan_loop fuel registry kind to step.to (key ∷ visited) in
    if version == to
    then MigrationPlan.planned []
    else if includes visited key
    then MigrationPlan.unavailable PlanError.migration_cycle
    else from_step (own_value key registry.steps) rest

abbrev pub is_known : MigrationRegistry → MigratableKind → String → Bool
is_known registry kind version =
    any (λ entry. entry.0 == kind && entry.1 == version) registry.known_versions

-- Two rounds more than there are steps.
abbrev pub plan_fuel : MigrationRegistry → ℕ
plan_fuel registry = length registry.steps + 2

unfoldable pub plan : MigrationRegistry → MigratableKind → (from to : String) → MigrationPlan
plan registry kind from to =
    if not (is_version from) || not (is_version to)
    then MigrationPlan.unavailable PlanError.noncanonical_version
    else if not (is_known registry kind from) || not (is_known registry kind to)
    then MigrationPlan.unavailable PlanError.unsupported_version
    else plan_loop (plan_fuel registry) registry kind to from []
