-- ===== src/Tests/Versions.antt =====
-- A registry of migrations with two steps, and instances of the theorems on it.
use hyperfinite.Common.{ℕ, ◌≡◌, ◌≢◌, refl, some, none, List, [], ◌∷◌, String, true, false, Option}
use hyperfinite.Json.{object, field, string, no_fields, code_units, Text, Text-discrete}
use hyperfinite.Migrations.{
  MigrationValidation, ValidatorCall, MigrateCall, MigratableKind, MigratableKind-discrete,
  all_kinds, MigrationValidator, MigrationStep, MigrationRegistry, initial_registry, is_numeral,
  split_points, is_version, Registration, with_step, register, PlanError, MigrationPlan, plan_loop,
  is_known, plan,
}
use hyperfinite.Migrations.Paths.{IsSound, register-IsSound}
use hyperfinite.Migrations.Plans.{IsPath, plan-IsPath, register-keeps_plan}
use hyperfinite.Migrations.Execution.{
  MigrationInput, MigrationResult, MigrationOutcome, run_validator, migrate_path, migrate,
}
use hyperfinite.Migrations.Execution.Validated.{IsAccepted, migrated-IsAccepted}
use hyperfinite.Json.Order.{text_leb}
use hyperfinite.Json.Canonical.{
  insert_field, sort_fields, decimal_from, is_array_index, own_leb, from_sorted_entries, normalize,
  short_letter, is_lone, unit_text, escape, stringify, canonical_json, json_digest,
}
use hyperfinite.Migrations.Ends.{plan-ne-out_of_fuel}

abbrev validator : (identity : ℕ) → MigrationValidator
validator identity = record {
  identity = identity;
  call = λ time document. ValidatorCall.returned MigrationValidation.accepted document;
}

abbrev step : (from to : String) → (identity : ℕ) → MigrationStep
step from to identity = record {
  kind = MigratableKind.work_accord;
  from = from;
  to = to;
  validate_source = validator 0;
  validate_target = validator identity;
  migrate = λ time document.
      MigrateCall.output (object (field (code_units "version") (string (code_units to)) no_fields));
}

abbrev start : MigrationRegistry
start = initial_registry (λ kind. validator 1) all_kinds

abbrev first : MigrationStep
first = step "1.0.0" "1.1.0" 2

abbrev second : MigrationStep
second = step "1.1.0" "2.0.0" 3

abbrev once : MigrationRegistry
once = with_step start first

first_registered : register start first ≡ Registration.registered once
unfolding hyperfinite.Common.own_value hyperfinite.Common.with_entry hyperfinite.Common.ℕ_discrete
    hyperfinite.Common.String-discrete MigratableKind-discrete register initial_registry is_version
    split_points is_numeral
first_registered = refl

second_registered : register once second ≡ Registration.registered (with_step once second)
unfolding hyperfinite.Common.own_value hyperfinite.Common.with_entry hyperfinite.Common.ℕ_discrete
    hyperfinite.Common.String-discrete MigratableKind-discrete register initial_registry is_version
    split_points is_numeral
second_registered = refl

first_planned :
    plan once MigratableKind.work_accord "1.0.0" "1.1.0" ≡ MigrationPlan.planned (first ∷ [])
unfolding hyperfinite.Common.own_value hyperfinite.Common.with_entry hyperfinite.Common.ℕ_discrete
    hyperfinite.Common.String-discrete MigratableKind-discrete initial_registry is_version
    split_points is_numeral plan plan_loop
first_planned = refl

-- A hash that is the text itself.
abbrev hash : Text → Text
hash text = text

abbrev input : MigrationInput
input = record {
  kind = MigratableKind.work_accord;
  document = object (field (code_units "version") (string (code_units "1.0.0")) no_fields);
  from = "1.0.0";
  to = "1.1.0";
  dry_run = false;
}

abbrev result : MigrationResult
result = record {
  path = first ∷ [];
  dry_run = false;
  input_digest = code_units "sha256:{\"version\":\"1.0.0\"}";
  output_digest = code_units "sha256:{\"version\":\"1.1.0\"}";
  changed = true;
  document = object (field (code_units "version") (string (code_units "1.1.0")) no_fields);
}

first_migrated : migrate hash once input ≡ MigrationOutcome.migrated result
unfolding hyperfinite.Common.own_value hyperfinite.Common.with_entry hyperfinite.Common.ℕ_discrete
    hyperfinite.Common.String-discrete Text-discrete MigratableKind-discrete initial_registry
    is_version split_points is_numeral plan plan_loop migrate migrate_path run_validator json_digest
    canonical_json stringify normalize from_sorted_entries sort_fields insert_field text_leb own_leb
    is_array_index decimal_from escape unit_text is_lone short_letter
first_migrated = refl

migrated-IsAccepted_example :
    IsPath once MigratableKind.work_accord "1.0.0" "1.1.0" (first ∷ [])
    × IsAccepted hash once MigratableKind.work_accord "1.0.0" input.document
    × IsAccepted hash once MigratableKind.work_accord "1.1.0" result.document
migrated-IsAccepted_example = migrated-IsAccepted hash once input result first_migrated

-- A step back: the registry has a cycle.
abbrev cyclic : MigrationRegistry
cyclic = with_step once (step "1.1.0" "1.0.0" 1)

-- The constructor's registry has no step.
start-IsSound : IsSound start
unfolding hyperfinite.Common.own_value initial_registry
start-IsSound = record { steps = λ key s found. cc }

register-IsSound_example : IsSound once
register-IsSound_example = register-IsSound start first once start-IsSound first_registered

plan-IsPath_example :
    IsPath once MigratableKind.work_accord "1.0.0" "1.1.0" (first ∷ [])
    × ((is_version "1.0.0" ≡ true) × (is_version "1.1.0" ≡ true))
    × ((is_known once MigratableKind.work_accord "1.0.0" ≡ true)
        × (is_known once MigratableKind.work_accord "1.1.0" ≡ true))
plan-IsPath_example =
    plan-IsPath once MigratableKind.work_accord "1.0.0" "1.1.0" (first ∷ []) first_planned

register-keeps_plan_example :
    plan (with_step once second) MigratableKind.work_accord "1.0.0" "1.1.0"
    ≡ MigrationPlan.planned (first ∷ [])
register-keeps_plan_example =
    register-keeps_plan once second (with_step once second) MigratableKind.work_accord "1.0.0"
      "1.1.0" (first ∷ []) second_registered first_planned

plan-ne-out_of_fuel_example :
    plan cyclic MigratableKind.work_accord "1.0.0" "2.0.0"
    ≢ MigrationPlan.unavailable PlanError.out_of_fuel
plan-ne-out_of_fuel_example = plan-ne-out_of_fuel cyclic MigratableKind.work_accord "1.0.0" "2.0.0"
