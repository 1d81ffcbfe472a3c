-- ===== src/Migrations/Execution/Validated.antt =====
-- What a completed migration (src/migrations.ts, `migrate`) has validated.
use hyperfinite.Common.{
  ℕ, ◌+◌, String, Option, none, some, List, [], ◌∷◌, ◌≡◌, refl, sym, subst, ap, own_value,
  string_eq,
}
use hyperfinite.Json.{Text, text_eq, Json}
use hyperfinite.Migrations.{
  MigratableKind, MigrationValidation, MigrationValidator, MigrationStep, MigrationRegistry,
  step_key, MigrationPlan, plan,
}
use hyperfinite.Migrations.Plans.{IsPath, plan-IsPath}
use hyperfinite.Migrations.Execution.{
  MigrationFailure, Migrated, MigrationInput, MigrationResult, MigrationOutcome, is_accepted,
  run_validator, checked_output, migrate_step, next_round, with_found, migrate_path, validate_only,
  migrate_along, outcome_of, follow, migrate,
}
use hyperfinite.Migrations.Execution.Inversion.{
  is_accepted_inv, reached_inj, next_round_inv, tests_inv, only_test_inv, migrated_inj,
  checked_output_inv,
}

module _ (sha256 : Text → Text) where
  -- A validator that is registered for the version accepted the document at some time.
  abbrev pub IsAccepted : MigrationRegistry → MigratableKind → (version : String) → Json → Type 0
  IsAccepted registry kind version document =
      (validator : MigrationValidator) × (time : ℕ) × (own_value (step_key kind version)
          registry.validators
        ≡ some validator)
      × (run_validator sha256 validator time document ≡ MigrationValidation.accepted)

  migrate_step_inv :
      (step : MigrationStep) (source target : Option MigrationValidator) (time : ℕ) (current : Json)
      {end : Json}
      → migrate_step sha256 step source target time current ≡ Migrated.reached end
      → ((v : MigrationValidator) × (source ≡ some v)
          × (run_validator sha256 v time current ≡ MigrationValidation.accepted))
        × ((w : MigrationValidator) × (target ≡ some w)
            × (run_validator sha256 w (time + 6) end ≡ MigrationValidation.accepted))
  migrate_step_inv step none target time current h = cc
  migrate_step_inv step (some v) none time current h = cc
  migrate_step_inv step (some v) (some w) time current h =
      let (a, b, e) =
        tests_inv (is_accepted (run_validator sha256 v time current))
          (is_accepted (run_validator sha256 step.validate_source (time + 2) current))
          MigrationFailure.invalid_source MigrationFailure.rejected_source
          (checked_output sha256 w (time + 6) (step.migrate (time + 4) current)
            (step.migrate (time + 5) current))
          h in
      (
        (v, refl, is_accepted_inv (run_validator sha256 v time current) a),
        (
          w,
          refl,
          checked_output_inv sha256 w (time + 6) (step.migrate (time + 4) current)
              (step.migrate (time + 5) current) e,
        ),
      )

  module _ (registry : MigrationRegistry) (kind : MigratableKind) (to : String) where
    -- A round is one of the registered step, and the rest starts from what it reached.
    migrate_path-round :
        (step : MigrationStep) (path : List MigrationStep) (version : String) (time : ℕ)
        (current : Json) {end : Json}
        → own_value (step_key kind version) registry.steps ≡ some step
        → migrate_path sha256 registry kind (step ∷ path) version time current
          ≡ Migrated.reached end
        → IsAccepted registry kind version current
          × ((document : Json) × IsAccepted registry kind step.to document
              × (migrate_path sha256 registry kind path step.to (time + 8) document
                  ≡ Migrated.reached end))
    unfolding migrate_path
    migrate_path-round step path version time current {end} found h =
        let (document, e, rest) =
          next_round_inv
            (migrate_step sha256 step (own_value (step_key kind version) registry.validators)
              (own_value (step_key kind step.to) registry.validators) time current)
            (λ d. migrate_path sha256 registry kind path step.to (time + 8) d)
            (subst
              (λ o.
                with_found o (λ s.
                  next_round
                    (migrate_step sha256 s (own_value (step_key kind version) registry.validators)
                      (own_value (step_key kind s.to) registry.validators) time current)
                    (λ d. migrate_path sha256 registry kind path s.to (time + 8) d))
                ≡ Migrated.reached end)
              found h) in
        let ((v, a, b), (w, c, d)) = migrate_step_inv step _ _ time current e in
        ((v, time, a, b), (document, (w, time + 6, c, d), rest))

    migrate_path-IsAccepted :
        (path : List MigrationStep) (version : String) (time : ℕ) (current : Json) {end : Json}
        → IsPath registry kind version to path
        → IsAccepted registry kind version current
        → migrate_path sha256 registry kind path version time current ≡ Migrated.reached end
        → IsAccepted registry kind to end
    unfolding migrate_path
    migrate_path-IsAccepted [] version time current {end} is_path start h =
        subst (λ v. IsAccepted registry kind v end) is_path
          (subst (IsAccepted registry kind version) (reached_inj h) start)
    migrate_path-IsAccepted (step ∷ path) version time current is_path start h =
        let (_, (document, there, rest)) =
          migrate_path-round step path version time current is_path.0 h in
        migrate_path-IsAccepted path step.to (time + 8) document is_path.1 there rest

  validate_only_inv :
      (o : Option MigrationValidator) (document : Json) {end : Json}
      → validate_only sha256 o document ≡ Migrated.reached end
      → (v : MigrationValidator) × (o ≡ some v)
        × (run_validator sha256 v 0 document ≡ MigrationValidation.accepted)
        × (document ≡ end)
  validate_only_inv none document h = cc
  validate_only_inv (some v) document h =
      let (t, e) = only_test_inv (is_accepted (run_validator sha256 v 0 document)) document h in
      (v, refl, is_accepted_inv (run_validator sha256 v 0 document) t, e)

  migrate_along-IsAccepted :
      (registry : MigrationRegistry) (input : MigrationInput) (path : List MigrationStep)
      {end : Json}
      → IsPath registry input.kind input.from input.to path
      → migrate_along sha256 registry input path ≡ Migrated.reached end
      → IsAccepted registry input.kind input.from input.document
        × IsAccepted registry input.kind input.to end
  migrate_along-IsAccepted registry input [] {end} is_path h =
      let (v, found, t, e) =
        validate_only_inv (own_value (step_key input.kind input.from) registry.validators)
          input.document h in
      let there : IsAccepted registry input.kind input.from input.document = (v, 0, found, t) in
      (
        there,
        subst (λ version. IsAccepted registry input.kind version end) is_path
            (subst (IsAccepted registry input.kind input.from) e there),
      )
  migrate_along-IsAccepted registry input (step ∷ path) is_path h =
      let there =
        (migrate_path-round registry input.kind input.to step path input.from 0 input.document
          is_path.0 h).0 in
      (
        there,
        migrate_path-IsAccepted registry input.kind input.to (step ∷ path) input.from 0
            input.document is_path there h,
      )

  outcome_inv :
      (input : MigrationInput) (path : List MigrationStep) (m : Migrated) (r : MigrationResult)
      → outcome_of sha256 input path m ≡ MigrationOutcome.migrated r
      → (m ≡ Migrated.reached r.document) × (r.path ≡ path)
  outcome_inv input path (Migrated.failed e) r h = cc
  outcome_inv input path (Migrated.reached document) r h =
      let same = migrated_inj h in
      (
        ap (λ x. Migrated.reached (MigrationResult.document x)) same,
        ap MigrationResult.path (sym same),
      )

  follow_inv :
      (registry : MigrationRegistry) (input : MigrationInput) (p : MigrationPlan)
      (r : MigrationResult)
      → follow sha256 registry input p ≡ MigrationOutcome.migrated r
      → (p ≡ MigrationPlan.planned r.path)
        × (migrate_along sha256 registry input r.path ≡ Migrated.reached r.document)
  follow_inv registry input (MigrationPlan.unavailable e) r h = cc
  follow_inv registry input (MigrationPlan.planned path) r h =
      let (e, same) = outcome_inv input path (migrate_along sha256 registry input path) r h in
      (
        ap MigrationPlan.planned (sym same),
        subst (λ x. migrate_along sha256 registry input x ≡ Migrated.reached r.document) (sym same)
            e,
      )

-- A completed migration follows a path of registered steps; a validator of the first version accepted
-- the document that was given, and a validator of the last version accepted the one that is returned.
pub migrated-IsAccepted :
    (sha256 : Text → Text) (registry : MigrationRegistry) (input : MigrationInput)
    (r : MigrationResult)
    → migrate sha256 registry input ≡ MigrationOutcome.migrated r
    → IsPath registry input.kind input.from input.to r.path
      × IsAccepted sha256 registry input.kind input.from input.document
      × IsAccepted sha256 registry input.kind input.to r.document
unfolding migrate
migrated-IsAccepted sha256 registry input r h =
    let (planned, e) =
      follow_inv sha256 registry input (plan registry input.kind input.from input.to) r h in
    let is_path = (plan-IsPath registry input.kind input.from input.to r.path planned).0 in
    let (given, returned) = migrate_along-IsAccepted sha256 registry input r.path is_path e in
    (is_path, given, returned)
