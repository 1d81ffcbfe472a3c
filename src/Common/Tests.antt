-- ===== src/Common/Tests.antt =====
-- Boolean tests, decidable equality as an instance, and case splits that keep their equation.
use Prim.Native.Nat.{ℕ, compare, Ordering}
use Prim.Native.String.{String}
use mathlib.Core.Path.{◌≡◌, refl}
use mathlib.Core.Logic.{◌≢◌, ◌⊎◌, inl, inr}
use mathlib.Core.Bool.{Bool, true, false, not}
use mathlib.Core.Option.{Option, none, some}
use native.Mathlib.Omega.{arith}
use native.Mathlib.Decide.{ℕ_discrete}
use text.Mathlib.Text.{◌==◌ as str_eq}
use text.Mathlib.TextEquality.{eq_iff}

abbrev pub ltb : ℕ → ℕ → Bool
ltb a b = elim (compare a b) [ Ordering.lt ↦ true | _ ↦ false ]

abbrev pub leb : ℕ → ℕ → Bool
leb a b = elim (compare a b) [ Ordering.gt ↦ false | _ ↦ true ]

infix 1 if◌then◌else◌
abbrev pub if◌then◌else◌ {ℓ} : {A : Type ℓ} → Bool → A → A → A
if true then x else y = x
if false then x else y = y

pub Bool-cases : (b : Bool) → (b ≡ true) ⊎ (b ≡ false)
Bool-cases true = inl refl
Bool-cases false = inr refl

pub Option-cases {ℓ} : {A : Type ℓ} (o : Option A) → (o ≡ none) ⊎ ((a : A) × (o ≡ some a))
Option-cases none = inl refl
Option-cases (some a) = inr (a, refl)

abbrev pub to_bool {ℓ} : {A : Type ℓ} → Dec A → Bool
to_bool (yes h) = true
to_bool (no h) = false

-- `===` on the program's strings, numbers and enumerations.
pub record Eq {ℓ} (A : Type ℓ) : Type ℓ where
  pub dec : Discrete A

infix 50 ◌==◌ ◌!=◌
abbrev pub ◌==◌ {ℓ} : {A : Type ℓ} ⦃e : Eq A⦄ → A → A → Bool
◌==◌ ⦃e⦄ a b = to_bool (e.dec a b)

abbrev pub ◌!=◌ {ℓ} : {A : Type ℓ} ⦃e : Eq A⦄ → A → A → Bool
◌!=◌ ⦃e⦄ a b = not (to_bool (e.dec a b))

eq_of_not_same : {s t : String} → str_eq s t ≡ false → s ≢ t
eq_of_not_same {s} {t} other p = ground (arith, eq_iff s t)

unfoldable pub String-discrete : Discrete String
unfolding Bool-cases eq_of_not_same
String-discrete s t = elim (Bool-cases (str_eq s t)) [
  | inl same ↦ yes ((eq_iff s t).0 same)
  | inr other ↦ no (eq_of_not_same other)
]

unfoldable pub Option-discrete {ℓ} : {A : Type ℓ} → Discrete A → Discrete (Option A)
Option-discrete d = hlevel d

instance abbrev pub nat_eq : Eq ℕ
nat_eq = record { dec = ℕ_discrete }

instance abbrev pub string_eq : Eq String
string_eq = record { dec = String-discrete }

unfoldable pub Bool-discrete : Discrete Bool
Bool-discrete = hlevel

instance abbrev pub bool_eq : Eq Bool
bool_eq = record { dec = Bool-discrete }

instance abbrev pub option_eq {ℓ} : {A : Type ℓ} ⦃e : Eq A⦄ → Eq (Option A)
option_eq ⦃e⦄ = record { dec = Option-discrete e.dec }

module _ {ℓ} {A : Type ℓ} ⦃e : Eq A⦄ where
  pub eq_of_test : {a b : A} → (a == b) ≡ true → a ≡ b
  eq_of_test {a} {b} h = ground arith

  pub eq_of_test_ne : {a b : A} → (a != b) ≡ false → a ≡ b
  eq_of_test_ne {a} {b} h = ground arith

  pub ne_of_test : {a b : A} → (a == b) ≡ false → a ≢ b
  ne_of_test {a} {b} h = ground arith

  pub test_self : (a : A) → (a == a) ≡ true
  test_self a = ground arith

  pub test-of_eq : {a b : A} → a ≡ b → (a == b) ≡ true
  test-of_eq {a} {b} h = ground arith

  pub test-of_ne : {a b : A} → a ≢ b → (a == b) ≡ false
  test-of_ne {a} {b} h = ground arith
