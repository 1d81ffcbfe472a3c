-- ===== src/Migrations/Plans.antt =====
-- What a plan (src/migrations.ts, `plan`) promises, also after further registrations.
use hyperfinite.Common.{
  ℕ, zero, suc, ◌≤◌, String, Bool, true, false, not, ◌||◌, Option, none, some, List, [], ◌∷◌, ◌≡◌,
  refl, sym, subst, ap, ◌∙◌, arith, includes, length, own_value, with_entry, ◌==◌, if◌then◌else◌,
  string_eq, inl, inr, eq_of_test, ◌⊎◌,
}
use hyperfinite.Migrations.{
  MigratableKind, MigratableKind-eq, MigrationStep, MigrationRegistry, step_key, Registration,
  with_step, register, PlanError, MigrationPlan, first_step, from_step, plan_loop, is_known,
  plan_fuel, plan, is_version,
}
use hyperfinite.Migrations.Paths.{Accepted, register-Accepted, keeps_step}

-- Each step is the one that is registered for the version that the path has reached.
abbrev pub IsPath :
    MigrationRegistry → MigratableKind → (from to : String) → List MigrationStep → Type 0
IsPath registry kind from to [] = from ≡ to
IsPath registry kind from to (step ∷ path) =
    (own_value (step_key kind from) registry.steps ≡ some step)
    × IsPath registry kind step.to to path

first_step_inv :
    (step : MigrationStep) (p : MigrationPlan) {path : List MigrationStep}
    → first_step step p ≡ MigrationPlan.planned path
    → (rest : List MigrationStep) × (p ≡ MigrationPlan.planned rest) × (path ≡ step ∷ rest)
first_step_inv step (MigrationPlan.planned rest) h = (rest, refl, cc)
first_step_inv step (MigrationPlan.unavailable e) h = cc

from_step_inv :
    (o : Option MigrationStep) (next : MigrationStep → MigrationPlan) {path : List MigrationStep}
    → from_step o next ≡ MigrationPlan.planned path
    → (step : MigrationStep) × (rest : List MigrationStep) × (o ≡ some step)
      × (next step ≡ MigrationPlan.planned rest)
      × (path ≡ step ∷ rest)
from_step_inv none next h = cc
from_step_inv (some step) next h =
    let (rest, e, f) = first_step_inv step (next step) h in (step, rest, refl, e, f)

-- A round of the loop that ends in a plan, from its two tests.
round_inv :
    (reached seen : Bool) (o : Option MigrationStep) (next : MigrationStep → MigrationPlan)
    {path : List MigrationStep}
    → (if reached
        then MigrationPlan.planned []
        else if seen
        then MigrationPlan.unavailable PlanError.migration_cycle
        else from_step o next)
      ≡ MigrationPlan.planned path
    → ((reached ≡ true) × (path ≡ []))
      ⊎ ((reached ≡ false) × (seen ≡ false) × (from_step o next ≡ MigrationPlan.planned path))
round_inv true seen o next h = inl (refl, cc)
round_inv false true o next h = cc
round_inv false false o next h = inr (refl, refl, h)

module _ (registry : MigrationRegistry) (kind : MigratableKind) (to : String) where
  plan_loop-IsPath :
      (fuel : ℕ) (version : String) (visited : List String) {path : List MigrationStep}
      → plan_loop fuel registry kind to version visited ≡ MigrationPlan.planned path
      → IsPath registry kind version to path
  unfolding plan_loop
  plan_loop-IsPath zero version visited h = cc
  plan_loop-IsPath (suc fuel) version visited h =
      elim (round_inv (version == to) (includes visited (step_key kind version))
        (own_value (step_key kind version) registry.steps) _ h) [
          | inl (reached, e) ↦ subst (IsPath registry kind version to) (sym e) (eq_of_test reached)
          | inr (further, new, e) ↦
              let (step, rest, found, goes, split) =
                from_step_inv (own_value (step_key kind version) registry.steps) _ e in
              subst (IsPath registry kind version to) (sym split)
                (found, plan_loop-IsPath fuel step.to (step_key kind version ∷ visited) goes)
        ]

-- A planned result, from the two tests before the loop.
plan_inv :
    (a b c d : Bool) (p : MigrationPlan) {path : List MigrationStep}
    → (if not a || not b
        then MigrationPlan.unavailable PlanError.noncanonical_version
        else if not c || not d
        then MigrationPlan.unavailable PlanError.unsupported_version
        else p)
      ≡ MigrationPlan.planned path
    → (a ≡ true) × (b ≡ true) × (c ≡ true) × (d ≡ true) × (p ≡ MigrationPlan.planned path)
plan_inv false b c d p h = cc
plan_inv true false c d p h = cc
plan_inv true true false d p h = cc
plan_inv true true true false p h = cc
plan_inv true true true true p h = (refl, refl, refl, refl, h)

-- A plan is a path of registered steps from the one version to the other, both in canonical form and
-- known for the kind.
pub plan-IsPath :
    (registry : MigrationRegistry) (kind : MigratableKind) (from to : String)
    (path : List MigrationStep)
    → plan registry kind from to ≡ MigrationPlan.planned path
    → IsPath registry kind from to path
      × ((is_version from ≡ true) × (is_version to ≡ true))
      × ((is_known registry kind from ≡ true) × (is_known registry kind to ≡ true))
unfolding plan
plan-IsPath registry kind from to path h =
    let (a, b, c, d, e) =
      plan_inv (is_version from) (is_version to) (is_known registry kind from)
        (is_known registry kind to) _ h in
    (plan_loop-IsPath registry kind to (plan_fuel registry) from [] e, (a, b), (c, d))

length-with_entry :
    (key : String) (step : MigrationStep) (entries : List (String × MigrationStep))
    → length entries ≤ length (with_entry key step entries)
unfolding with_entry
length-with_entry key step [] = omega arith
length-with_entry key step (entry ∷ entries) =
    let ih = length-with_entry key step entries in ground arith

is_known-with_step :
    (registry : MigrationRegistry) (step : MigrationStep) (kind : MigratableKind) (version : String)
    → is_known registry kind version ≡ true
    → is_known (with_step registry step) kind version ≡ true
is_known-with_step registry step kind version h = ground arith

module _ (registry : MigrationRegistry) (step : MigrationStep) (accepted : Accepted registry step)
    (kind : MigratableKind) (to : String) where
  -- More fuel and one more step change no plan.
  plan_loop-keeps :
      (fuel more : ℕ) (version : String) (visited : List String) {path : List MigrationStep}
      → fuel ≤ more
      → plan_loop fuel registry kind to version visited ≡ MigrationPlan.planned path
      → plan_loop more (with_step registry step) kind to version visited
        ≡ MigrationPlan.planned path
  unfolding plan_loop
  plan_loop-keeps zero more version visited enough h = cc
  plan_loop-keeps (suc fuel) zero version visited enough h = absurd (omega arith)
  plan_loop-keeps (suc fuel) (suc more) version visited enough h =
      elim (round_inv (version == to) (includes visited (step_key kind version))
        (own_value (step_key kind version) registry.steps) _ h) [
          | inl (reached, e) ↦ rw reached (ap MigrationPlan.planned (sym e))
          | inr (further, new, e) ↦
              let (s, rest, found, goes, split) =
                from_step_inv (own_value (step_key kind version) registry.steps) _ e in
              let kept = keeps_step registry step accepted (step_key kind version) s found in
              let later =
                plan_loop-keeps fuel more s.to (step_key kind version ∷ visited) (omega arith)
                  goes in
              rw further
                (rw new (rw kept (ap (first_step s) later ∙ ap MigrationPlan.planned (sym split))))
        ]

-- A further registration keeps every plan that there was: the same path is planned after it.
pub register-keeps_plan :
    (registry : MigrationRegistry) (step : MigrationStep) (after : MigrationRegistry)
    (kind : MigratableKind) (from to : String) (path : List MigrationStep)
    → register registry step ≡ Registration.registered after
    → plan registry kind from to ≡ MigrationPlan.planned path
    → plan after kind from to ≡ MigrationPlan.planned path
unfolding plan
register-keeps_plan registry step after kind from to path h planned_before =
    let (accepted, e) = register-Accepted registry step after h in
    let (a, b, c, d, p) =
      plan_inv (is_version from) (is_version to) (is_known registry kind from)
        (is_known registry kind to) _ planned_before in
    let known_from = is_known-with_step registry step kind from c in
    let known_to = is_known-with_step registry step kind to d in
    let kept =
      plan_loop-keeps registry step accepted kind to (plan_fuel registry)
        (plan_fuel (with_step registry step)) from []
        (omega (arith, length-with_entry (step_key step.kind step.from) step registry.steps)) p in
    subst (λ r. plan r kind from to ≡ MigrationPlan.planned path) (sym e)
      (rw a (rw b (rw known_from (rw known_to kept))))
