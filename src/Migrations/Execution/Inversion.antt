-- ===== src/Migrations/Execution/Inversion.antt =====
-- What a result without a failure says of its tests (src/migrations.ts, `migrate`).
use hyperfinite.Common.{
  ℕ, Bool, true, false, not, ◌≡◌, refl, sym, subst, ◌!=◌, if◌then◌else◌, string_eq,
}
use hyperfinite.Json.{Text, text_eq, Json}
use hyperfinite.Json.Canonical.{json_digest}
use hyperfinite.Migrations.{MigrationValidation, MigrationValidator, MigrateCall}
use hyperfinite.Migrations.Execution.{
  MigrationFailure, Migrated, MigrationResult, MigrationOutcome, is_accepted, run_validator,
  checked_output, next_round,
}

pub is_accepted_inv :
    (r : MigrationValidation) → is_accepted r ≡ true → r ≡ MigrationValidation.accepted
is_accepted_inv MigrationValidation.accepted h = refl
is_accepted_inv (MigrationValidation.invalid errors) h = cc

pub reached_inj : {a b : Json} → Migrated.reached a ≡ Migrated.reached b → a ≡ b
reached_inj h = cc

pub next_round_inv :
    (m : Migrated) (rest : Json → Migrated) {end : Json}
    → next_round m rest ≡ Migrated.reached end
    → (document : Json) × (m ≡ Migrated.reached document) × (rest document ≡ Migrated.reached end)
next_round_inv (Migrated.failed e) rest h = cc
next_round_inv (Migrated.reached document) rest h = (document, refl, h)

-- Two tests before a document is reached.
pub tests_inv :
    (a b : Bool) (e f : MigrationFailure) (m : Migrated) {end : Json}
    → (if not a then Migrated.failed e else if not b then Migrated.failed f else m)
      ≡ Migrated.reached end
    → (a ≡ true) × (b ≡ true) × (m ≡ Migrated.reached end)
tests_inv true true e f m h = (refl, refl, h)
tests_inv true false e f m h = cc
tests_inv false b e f m h = cc

pub output_tests_inv :
    (a b : Bool) (document : Json) {end : Json}
    → (if a
        then Migrated.failed MigrationFailure.nondeterministic
        else if not b
        then Migrated.failed MigrationFailure.invalid_output
        else Migrated.reached document)
      ≡ Migrated.reached end
    → (b ≡ true) × (end ≡ document)
output_tests_inv false true document h = (refl, cc)
output_tests_inv false false document h = cc
output_tests_inv true b document h = cc

pub only_test_inv :
    (a : Bool) (document : Json) {end : Json}
    → (if a then Migrated.reached document else Migrated.failed MigrationFailure.invalid_document)
      ≡ Migrated.reached end
    → (a ≡ true) × (document ≡ end)
only_test_inv true document h = (refl, cc)
only_test_inv false document h = cc

pub migrated_inj :
    {r q : MigrationResult} → MigrationOutcome.migrated r ≡ MigrationOutcome.migrated q → r ≡ q
migrated_inj h = cc

module _ (sha256 : Text → Text) where
  pub checked_output_inv :
      (target : MigrationValidator) (time : ℕ) (first second : MigrateCall) {end : Json}
      → checked_output sha256 target time first second ≡ Migrated.reached end
      → run_validator sha256 target time end ≡ MigrationValidation.accepted
  checked_output_inv target time MigrateCall.migrate_threw second h = cc
  checked_output_inv target time (MigrateCall.output a) MigrateCall.migrate_threw h = cc
  checked_output_inv target time (MigrateCall.output a) MigrateCall.output_not_json h = cc
  checked_output_inv target time MigrateCall.output_not_json MigrateCall.migrate_threw h = cc
  checked_output_inv target time MigrateCall.output_not_json MigrateCall.output_not_json h = cc
  checked_output_inv target time MigrateCall.output_not_json (MigrateCall.output b) h = cc
  checked_output_inv target time (MigrateCall.output a) (MigrateCall.output b) h =
      let (t, e) =
        output_tests_inv (json_digest sha256 a != json_digest sha256 b)
          (is_accepted (run_validator sha256 target time a)) a h in
      subst (λ d. run_validator sha256 target time d ≡ MigrationValidation.accepted) (sym e)
        (is_accepted_inv (run_validator sha256 target time a) t)
