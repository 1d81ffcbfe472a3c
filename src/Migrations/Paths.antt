-- ===== src/Migrations/Paths.antt =====
-- Registered steps and planned paths (src/migrations.ts).
use hyperfinite.Common.{
  ℕ, String, Bool, true, false, not, ◌||◌, some, ◌≡◌, ◌≢◌, refl, sym, subst, ap, ◌∙◌, arith,
  is_some, own_value, own_value-with_entry, ◌==◌, if◌then◌else◌, string_eq, nat_eq, Bool-cases, inl,
  inr, eq_of_test, eq_of_test_ne, test_self, ne_of_test,
}
use hyperfinite.Migrations.{
  MigrationValidator, MigrationStep, MigrationRegistry, step_key, Registration, RegistrationError,
  conflicts, with_step, register, is_version,
}

-- What a registered step promises: its key, that it changes the version, both versions canonical, and
-- that the validator of its target version is its own.
pub record IsStep (registry : MigrationRegistry) (key : String) (step : MigrationStep)
    : Type 0 where
  pub named : key ≡ step_key step.kind step.from
  pub advances : step.from ≢ step.to
  pub canonical : (is_version step.from ≡ true) × (is_version step.to ≡ true)
  pub target :
      (v : MigrationValidator) × (own_value (step_key step.kind step.to) registry.validators
        ≡ some v)
      × (v.identity ≡ step.validate_target.identity)

pub record IsSound (registry : MigrationRegistry) : Type 0 where
  pub steps :
      (key : String) (step : MigrationStep)
      → own_value key registry.steps ≡ some step
      → IsStep registry key step

-- The tests of an accepted registration.
pub record Accepted (registry : MigrationRegistry) (step : MigrationStep) : Type 0 where
  pub canonical : (is_version step.from ≡ true) × (is_version step.to ≡ true)
  pub advances : step.from ≢ step.to
  pub new : is_some (own_value (step_key step.kind step.from) registry.steps) ≡ false
  pub agrees :
      conflicts (own_value (step_key step.kind step.to) registry.validators) step.validate_target
      ≡ false

accepted_inv :
    (a b c d : Bool) (registry after : MigrationRegistry)
    → (if a
        then Registration.rejected RegistrationError.invalid_version
        else if b
        then Registration.rejected RegistrationError.same_version
        else if c
        then Registration.rejected RegistrationError.already_registered
        else if d
        then Registration.rejected RegistrationError.conflicting_validator
        else Registration.registered registry)
      ≡ Registration.registered after
    → (a ≡ false) × (b ≡ false) × (c ≡ false) × (d ≡ false) × (after ≡ registry)
accepted_inv true b c d r after h = cc
accepted_inv false true c d r after h = cc
accepted_inv false false true d r after h = cc
accepted_inv false false false true r after h = cc
accepted_inv false false false false r after h = (refl, refl, refl, refl, cc)

pub register-Accepted :
    (registry : MigrationRegistry) (step : MigrationStep) (after : MigrationRegistry)
    → register registry step ≡ Registration.registered after
    → Accepted registry step × (after ≡ with_step registry step)
unfolding register
register-Accepted registry step after h =
    let (versions, same, present, conflict, e) =
      accepted_inv (not (is_version step.from) || not (is_version step.to)) (step.from == step.to)
        (is_some (own_value (step_key step.kind step.from) registry.steps))
        (conflicts (own_value (step_key step.kind step.to) registry.validators)
          step.validate_target)
        (with_step registry step) after h in
    (
      record {
        canonical = (ground arith, ground arith);
        advances = ne_of_test same;
        new = present;
        agrees = conflict;
      },
      e,
    )

module _ (registry : MigrationRegistry) (step : MigrationStep)
    (accepted : Accepted registry step) where
  steps_after :
      (key : String)
      → own_value key (with_step registry step).steps
        ≡ (if step_key step.kind step.from == key then some step else own_value key registry.steps)
  steps_after key = own_value-with_entry registry.steps (step_key step.kind step.from) key step

  validators_after :
      (key : String)
      → own_value key (with_step registry step).validators ≡ (
          if step_key step.kind step.to == key
          then some step.validate_target
          else own_value key registry.validators)
  validators_after key =
      own_value-with_entry registry.validators (step_key step.kind step.to) key step.validate_target

  -- A validator that was there is there, or another of its identity.
  agreeing :
      (key : String) (identity : ℕ) (v : MigrationValidator)
      → own_value key registry.validators ≡ some v
      → v.identity ≡ identity
      → (w : MigrationValidator) × (own_value key (with_step registry step).validators ≡ some w)
        × (w.identity ≡ identity)
  agreeing key identity v found same = elim (Bool-cases (step_key step.kind step.to == key)) [
    | inl t ↦
        let there : own_value (step_key step.kind step.to) registry.validators ≡ some v =
          subst (λ k. own_value k registry.validators ≡ some v) (sym (eq_of_test t)) found in
        let kept = subst (λ o. conflicts o step.validate_target ≡ false) there accepted.agrees in
        (step.validate_target, validators_after key ∙ rw t refl, sym (eq_of_test_ne kept) ∙ same)
    | inr f ↦ (v, validators_after key ∙ rw f found, same)
  ]

  old-IsStep :
      (key : String) (s : MigrationStep)
      → IsStep registry key s
      → IsStep (with_step registry step) key s
  old-IsStep key s old = record {
    named = old.named;
    advances = old.advances;
    canonical = old.canonical;
    target =
        agreeing (step_key s.kind s.to) s.validate_target.identity old.target.0 old.target.1
          old.target.2;
  }

  new-IsStep : IsStep (with_step registry step) (step_key step.kind step.from) step
  new-IsStep = record {
    named = refl;
    advances = accepted.advances;
    canonical = accepted.canonical;
    target = (
      step.validate_target,
      validators_after (step_key step.kind step.to)
          ∙ rw (test_self (step_key step.kind step.to)) refl,
      refl,
    );
  }

  with_step-IsSound : IsSound registry → IsSound (with_step registry step)
  with_step-IsSound sound = record {
    steps = λ key s found. elim (Bool-cases (step_key step.kind step.from == key)) [
      | inl t ↦
          let same : some step ≡ some s = sym (steps_after key ∙ rw t refl) ∙ found in
          subst (λ k. IsStep (with_step registry step) k s) (eq_of_test t)
            (subst (λ x. IsStep (with_step registry step) (step_key step.kind step.from) x) (cc)
              new-IsStep)
      | inr f ↦ old-IsStep key s (sound.steps key s (sym (steps_after key ∙ rw f refl) ∙ found))
    ];
  }

  -- A step that was there is there.
  pub keeps_step :
      (key : String) (s : MigrationStep)
      → own_value key registry.steps ≡ some s
      → own_value key (with_step registry step).steps ≡ some s
  keeps_step key s found = elim (Bool-cases (step_key step.kind step.from == key)) [
    | inl t ↦
        let absent =
          subst (λ k. is_some (own_value k registry.steps) ≡ false) (eq_of_test t) accepted.new in
        let present : is_some (own_value key registry.steps) ≡ true = ap is_some found in cc
    | inr f ↦ steps_after key ∙ rw f found
  ]

-- Registration keeps a registry sound: a registered step stays under its own key, changes the version,
-- and the validator of its target version is its own.
pub register-IsSound :
    (registry : MigrationRegistry) (step : MigrationStep) (after : MigrationRegistry)
    → IsSound registry
    → register registry step ≡ Registration.registered after
    → IsSound after
register-IsSound registry step after sound h =
    let (accepted, e) = register-Accepted registry step after h in
    subst IsSound (sym e) (with_step-IsSound registry step accepted sound)
