-- ===== src/Migrations/Ends.antt =====
-- Planning (src/migrations.ts) ends: a key is visited once, and every visited key has a step.
use hyperfinite.Common.{
  ℕ, zero, suc, ◌+◌, ◌≤◌, String, true, false, Option, none, some, List, [], ◌∷◌, ◌≡◌, ◌≢◌, refl,
  arith, includes, length, is_some, own_value, filter, ◌==◌, ◌!=◌, string_eq, Bool-cases, inl, inr,
}
use hyperfinite.Migrations.{
  MigratableKind, MigrationStep, MigrationRegistry, step_key, PlanError, MigrationPlan, first_step,
  from_step, plan_loop, plan_fuel, plan,
}

-- Each once.
abbrev AllOnce : List String → Type 0
AllOnce [] = Unit
AllOnce (x ∷ xs) = (includes xs x ≡ false) × AllOnce xs

-- Each with an entry.
abbrev AllPresent : List String → List (String × MigrationStep) → Type 0
AllPresent [] steps = Unit
AllPresent (x ∷ xs) steps = (is_some (own_value x steps) ≡ true) × AllPresent xs steps

abbrev others : String → List String → List String
others k xs = filter (λ x. x != k) xs

includes-others :
    (k x : String) (xs : List String) → includes xs x ≡ false → includes (others k xs) x ≡ false
includes-others k x [] h = refl
includes-others k x (y ∷ xs) h = ground (arith, includes-others k x xs)

others-AllOnce : (k : String) (xs : List String) → AllOnce xs → AllOnce (others k xs)
others-AllOnce k [] h = tt
others-AllOnce k (x ∷ xs) h = elim (Bool-cases (x != k)) [
  | inl t ↦ rw t (includes-others k x xs h.0, others-AllOnce k xs h.1)
  | inr f ↦ rw f (others-AllOnce k xs h.1)
]

others-AllPresent :
    (entry : String × MigrationStep) (steps : List (String × MigrationStep)) (xs : List String)
    → AllPresent xs (entry ∷ steps)
    → AllPresent (others entry.0 xs) steps
unfolding own_value
others-AllPresent entry steps [] h = tt
others-AllPresent entry steps (x ∷ xs) h = elim (Bool-cases (x != entry.0)) [
  | inl t ↦ rw t (ground arith, others-AllPresent entry steps xs h.1)
  | inr f ↦ rw f (others-AllPresent entry steps xs h.1)
]

length-others_absent :
    (k : String) (xs : List String) → includes xs k ≡ false → length xs ≤ length (others k xs)
length-others_absent k [] h = omega arith
length-others_absent k (x ∷ xs) h = ground (arith, length-others_absent k xs)

length-others :
    (k : String) (xs : List String) → AllOnce xs → length xs ≤ suc (length (others k xs))
length-others k [] h = omega arith
length-others k (x ∷ xs) h = ground (arith, length-others k xs h.1, length-others_absent x xs h.0)

-- No more keys than entries.
length-AllPresent :
    (steps : List (String × MigrationStep)) (xs : List String)
    → AllOnce xs
    → AllPresent xs steps
    → length xs ≤ length steps
unfolding own_value
length-AllPresent [] [] once present = omega arith
length-AllPresent [] (x ∷ xs) once present = cc
length-AllPresent (entry ∷ steps) xs once present = omega (
  arith,
  length-others entry.0 xs once,
  length-AllPresent steps (others entry.0 xs) (others-AllOnce entry.0 xs once)
      (others-AllPresent entry steps xs present),
)

first_step-ends :
    (step : MigrationStep) (p : MigrationPlan)
    → p ≢ MigrationPlan.unavailable PlanError.out_of_fuel
    → first_step step p ≢ MigrationPlan.unavailable PlanError.out_of_fuel
first_step-ends step (MigrationPlan.planned path) h e = cc
first_step-ends step (MigrationPlan.unavailable x) h e = h e

module _ (registry : MigrationRegistry) (kind : MigratableKind) (to : String) where
  from_step-ends :
      (o : Option MigrationStep) (rest : MigrationStep → MigrationPlan)
      → ((step : MigrationStep)
          → o ≡ some step
          → rest step ≢ MigrationPlan.unavailable PlanError.out_of_fuel)
      → from_step o rest ≢ MigrationPlan.unavailable PlanError.out_of_fuel
  from_step-ends none rest h = λ e. cc
  from_step-ends (some step) rest h = first_step-ends step (rest step) (h step refl)

  plan_loop-ends :
      (fuel : ℕ) (version : String) (visited : List String)
      → AllOnce visited
      → AllPresent visited registry.steps
      → suc (length registry.steps) ≤ fuel + length visited
      → plan_loop fuel registry kind to version visited
        ≢ MigrationPlan.unavailable PlanError.out_of_fuel
  unfolding plan_loop
  plan_loop-ends zero version visited once present enough =
      absurd (omega (arith, length-AllPresent registry.steps visited once present))
  plan_loop-ends (suc fuel) version visited once present enough =
      elim (Bool-cases (version == to)) [
        | inl t ↦ rw t (λ e. cc)
        | inr f ↦ rw f (elim (Bool-cases (includes visited (step_key kind version))) [
          | inl seen ↦ rw seen (λ e. cc)
          | inr new ↦ rw new (
              from_step-ends (own_value (step_key kind version) registry.steps) _ (λ step found.
                plan_loop-ends fuel step.to (step_key kind version ∷ visited) (new, once)
                  (ground arith, present) (omega arith)))
        ])
      ]

-- Planning ends on every registry: its fuel, two rounds more than there are steps, is enough.
pub plan-ne-out_of_fuel :
    (registry : MigrationRegistry) (kind : MigratableKind) (from to : String)
    → plan registry kind from to ≢ MigrationPlan.unavailable PlanError.out_of_fuel
unfolding plan
plan-ne-out_of_fuel registry kind from to =
    let ends = plan_loop-ends registry kind to (plan_fuel registry) from [] tt tt (omega arith) in
    ground arith
