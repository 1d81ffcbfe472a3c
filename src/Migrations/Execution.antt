-- ===== src/Migrations/Execution.antt =====
-- The execution of a migration (src/migrations.ts, runValidator and `migrate`). `sha256` is the hash of
-- node:crypto. The documents are values, so the last test, that the input's digest is still the same,
-- has nothing to find; nor has the scan for values that are no JSON on the input.
pub mod Inversion
pub mod Validated
use hyperfinite.Common.{
  ℕ, ◌+◌, String, Bool, true, false, not, ◌||◌, Option, none, some, List, [], ◌∷◌, own_value, ◌==◌,
  ◌!=◌, if◌then◌else◌, string_eq,
}
use hyperfinite.Json.{
  Text, text_eq, code_units, Json, Items, string, bool, array, object, no_items, item, no_fields,
  field,
}
use hyperfinite.Json.Canonical.{json_digest}
use hyperfinite.Migrations.{
  MigratableKind, MigrationValidation, ValidatorCall, MigrationValidator, MigrateCall,
  MigrationStep, MigrationRegistry, step_key, PlanError, MigrationPlan, plan,
}

abbrev pub string_items : List Text → Items
string_items [] = no_items
string_items (text ∷ texts) = item (string text) (string_items texts)

abbrev pub validation_json : MigrationValidation → Json
validation_json MigrationValidation.accepted =
    object (field (code_units "valid") (bool true) no_fields)
validation_json (MigrationValidation.invalid errors) = object (
    field (code_units "valid") (bool false)
      (field (code_units "errors") (array (string_items errors)) no_fields))

abbrev pub rejection : String → MigrationValidation
rejection message = MigrationValidation.invalid (code_units message ∷ [])

-- What `once` returns: the result and the document after the call.
pub record ValidatorRun : Type 0 where
  pub result : MigrationValidation
  pub after : Json

abbrev pub run_of : ValidatorCall → Option ValidatorRun
run_of (ValidatorCall.returned result after) = some (record { result = result; after = after })
run_of (ValidatorCall.malformed after) =
    some (record { result = rejection "validator returned an invalid result"; after = after })
run_of ValidatorCall.threw = none

-- Why `migrate` ends without a document: a failure of a schema, an unavailable plan, validator or step,
-- or an error that is thrown.
pub data MigrationFailure : Type 0 where
  invalid_document invalid_source rejected_source invalid_output output_not_json : MigrationFailure
  no_plan : PlanError → MigrationFailure
  no_validator no_step : MigrationFailure
  nondeterministic migrate_threw : MigrationFailure

pub data Migrated : Type 0 where
  reached : Json → Migrated
  failed : MigrationFailure → Migrated

pub record MigrationInput : Type 0 where
  pub kind : MigratableKind
  pub document : Json
  pub from : String
  pub to : String
  pub dry_run : Bool

pub record MigrationResult : Type 0 where
  pub path : List MigrationStep
  pub dry_run : Bool
  pub input_digest : Text
  pub output_digest : Text
  pub changed : Bool
  pub document : Json

pub data MigrationOutcome : Type 0 where
  migrated : MigrationResult → MigrationOutcome
  refused : MigrationFailure → MigrationOutcome

abbrev pub is_accepted : MigrationValidation → Bool
is_accepted MigrationValidation.accepted = true
is_accepted (MigrationValidation.invalid errors) = false

abbrev pub next_round : Migrated → (Json → Migrated) → Migrated
next_round (Migrated.failed e) rest = Migrated.failed e
next_round (Migrated.reached document) rest = rest document

abbrev pub with_found : Option MigrationStep → (MigrationStep → Migrated) → Migrated
with_found none rest = Migrated.failed MigrationFailure.no_step
with_found (some step) rest = rest step

module _ (sha256 : Text → Text) where
  -- The tests on the two runs of a validator.
  abbrev pub agreed : (document : Json) (first second : Option ValidatorRun) → MigrationValidation
  agreed document none second = rejection "validator failed"
  agreed document (some first) none = rejection "validator failed"
  agreed document (some first) (some second) =
      if json_digest sha256 document != json_digest sha256 first.after
        || json_digest sha256 document != json_digest sha256 second.after
      then rejection "validator mutated its input"
      else if json_digest sha256 (validation_json first.result)
          != json_digest sha256 (validation_json second.result)
      then rejection "validator is nondeterministic"
      else first.result

  -- The two calls are at `time` and the next.
  unfoldable pub run_validator :
      MigrationValidator → (time : ℕ) (document : Json) → MigrationValidation
  run_validator validator time document =
      agreed document (run_of (validator.call time document))
        (run_of (validator.call (time + 1) document))

  abbrev pub checked_output :
      (target : MigrationValidator) (time : ℕ) (first second : MigrateCall) → Migrated
  checked_output target time MigrateCall.migrate_threw second =
      Migrated.failed MigrationFailure.migrate_threw
  checked_output target time (MigrateCall.output a) MigrateCall.migrate_threw =
      Migrated.failed MigrationFailure.migrate_threw
  checked_output target time MigrateCall.output_not_json MigrateCall.migrate_threw =
      Migrated.failed MigrationFailure.migrate_threw
  checked_output target time MigrateCall.output_not_json MigrateCall.output_not_json =
      Migrated.failed MigrationFailure.output_not_json
  checked_output target time MigrateCall.output_not_json (MigrateCall.output b) =
      Migrated.failed MigrationFailure.output_not_json
  checked_output target time (MigrateCall.output a) MigrateCall.output_not_json =
      Migrated.failed MigrationFailure.output_not_json
  checked_output target time (MigrateCall.output a) (MigrateCall.output b) =
      if json_digest sha256 a != json_digest sha256 b
      then Migrated.failed MigrationFailure.nondeterministic
      else if not (is_accepted (run_validator target time a))
      then Migrated.failed MigrationFailure.invalid_output
      else Migrated.reached a

  -- One round of the loop over the path, with the validators of its two versions.
  abbrev pub migrate_step :
      MigrationStep
      → (source target : Option MigrationValidator) → (time : ℕ) (current : Json) → Migrated
  migrate_step step none target time current = Migrated.failed MigrationFailure.no_validator
  migrate_step step (some source) none time current = Migrated.failed MigrationFailure.no_validator
  migrate_step step (some source) (some target) time current =
      if not (is_accepted (run_validator source time current))
      then Migrated.failed MigrationFailure.invalid_source
      else if not (is_accepted (run_validator step.validate_source (time + 2) current))
      then Migrated.failed MigrationFailure.rejected_source
      else checked_output target (time + 6) (step.migrate (time + 4) current)
          (step.migrate (time + 5) current)

  -- `for (const segment of plan.path)`: the step is looked up again.
  unfoldable pub migrate_path :
      MigrationRegistry
      → MigratableKind
      → List MigrationStep
      → (version : String) (time : ℕ) (current : Json) → Migrated
  migrate_path registry kind [] version time current = Migrated.reached current
  migrate_path registry kind (segment ∷ path) version time current =
      let rest = λ (step : MigrationStep) (document : Json).
        migrate_path registry kind path step.to (time + 8) document in
      with_found (own_value (step_key kind version) registry.steps) (λ step.
        next_round
          (migrate_step step (own_value (step_key kind version) registry.validators)
            (own_value (step_key kind step.to) registry.validators) time current)
          (rest step))

  abbrev pub validate_only : Option MigrationValidator → (document : Json) → Migrated
  validate_only none document = Migrated.failed MigrationFailure.no_validator
  validate_only (some validator) document =
      if is_accepted (run_validator validator 0 document)
      then Migrated.reached document
      else Migrated.failed MigrationFailure.invalid_document

  abbrev pub migrate_along : MigrationRegistry → MigrationInput → List MigrationStep → Migrated
  migrate_along registry input [] =
      validate_only (own_value (step_key input.kind input.from) registry.validators) input.document
  migrate_along registry input (step ∷ path) =
      migrate_path registry input.kind (step ∷ path) input.from 0 input.document

  abbrev pub outcome_of : MigrationInput → List MigrationStep → Migrated → MigrationOutcome
  outcome_of input path (Migrated.failed e) = MigrationOutcome.refused e
  outcome_of input path (Migrated.reached document) = MigrationOutcome.migrated (record {
    path = path;
    dry_run = input.dry_run;
    input_digest = json_digest sha256 input.document;
    output_digest = json_digest sha256 document;
    changed = json_digest sha256 document != json_digest sha256 input.document;
    document = document;
  })

  abbrev pub follow : MigrationRegistry → MigrationInput → MigrationPlan → MigrationOutcome
  follow registry input (MigrationPlan.unavailable e) =
      MigrationOutcome.refused (MigrationFailure.no_plan e)
  follow registry input (MigrationPlan.planned path) =
      outcome_of input path (migrate_along registry input path)

  unfoldable pub migrate : MigrationRegistry → MigrationInput → MigrationOutcome
  migrate registry input = follow registry input (plan registry input.kind input.from input.to)
