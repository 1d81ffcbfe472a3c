-- ===== src/Outcome.antt =====
-- Chains of checks in `evaluateTransition`: an early return is a noop or a refusal.
use hyperfinite.Common.{
  String, Bool, true, false, ◌≡◌, refl, Option, none, some, List, [], ◌∷◌, AllFalse, if◌then◌else◌,
}
use hyperfinite.Types.Accord.{Digest}
use hyperfinite.Types.Snapshot.{
  KernelSnapshot, RefusalCode, Recovery, KernelRefusal, Outcome, applied, noop, refused,
}

infixl 5 ◌>>=◌ ◌>>◌
abbrev pub ◌>>=◌ {ℓ κ} : {A : Type ℓ} {B : Type κ} → Outcome A → (A → Outcome B) → Outcome B
applied a >>= f = f a
noop digest s >>= f = noop digest s
refused r s >>= f = refused r s

abbrev pub ◌>>◌ {ℓ} : {B : Type ℓ} → Outcome (Unit {0}) → Outcome B → Outcome B
m >> k = m >>= λ _. k

-- `refusal(snapshot, code, message, ruleId, retryable, recovery)` of src/kernel.ts
abbrev pub refusal : RefusalCode → (rule_id : String) (retryable : Bool) → Recovery → KernelRefusal
refusal code rule_id retryable recovery = record {
  code = code;
  rule_id = rule_id;
  retryable = retryable;
  recovery = recovery;
}

-- `if (test) return refusal(...)`
abbrev pub refuse_when : Bool → KernelSnapshot → KernelRefusal → Outcome (Unit {0})
refuse_when test s r = if test then refused r s else applied tt

-- A row of `if (test) return refusal(...)`.
abbrev pub guards : KernelSnapshot → List (Bool × KernelRefusal) → Outcome (Unit {0})
guards s [] = applied tt
guards s ((test, r) ∷ rest) = if test then refused r s else guards s rest

-- A refusal of src/authorization.ts, with the snapshot.
abbrev pub refuse_with : Option KernelRefusal → KernelSnapshot → Outcome (Unit {0})
refuse_with none s = applied tt
refuse_with (some r) s = refused r s

pub applied_inj {ℓ} : {A : Type ℓ} {a b : A} → Outcome.applied a ≡ applied b → a ≡ b
applied_inj h = cc

-- Inversion of an applied chain.
pub >>=-eq-applied {ℓ κ} :
    {A : Type ℓ} {B : Type κ} (m : Outcome A) (f : A → Outcome B) {b : B}
    → (m >>= f) ≡ applied b
    → (a : A) × (m ≡ applied a) × (f a ≡ applied b)
>>=-eq-applied (applied a) f h = (a, refl, h)
>>=-eq-applied (noop d s) f h = cc
>>=-eq-applied (refused r s) f h = cc

pub >>-eq-applied {κ} :
    {B : Type κ} (m : Outcome (Unit {0})) (k : Outcome B) {b : B}
    → (m >> k) ≡ applied b
    → (m ≡ applied tt) × (k ≡ applied b)
>>-eq-applied (applied a) k h = (refl, h)
>>-eq-applied (noop d s) k h = cc
>>-eq-applied (refused r s) k h = cc

pub refuse_when-eq-applied :
    (test : Bool) (s : KernelSnapshot) (r : KernelRefusal)
    → refuse_when test s r ≡ applied tt
    → test ≡ false
refuse_when-eq-applied true s r h = cc
refuse_when-eq-applied false s r h = refl

pub guards-eq-applied :
    (s : KernelSnapshot) (checks : List (Bool × KernelRefusal))
    → guards s checks ≡ applied tt
    → AllFalse checks
guards-eq-applied s [] h = tt
guards-eq-applied s ((true, r) ∷ rest) h = cc
guards-eq-applied s ((false, r) ∷ rest) h = (refl, guards-eq-applied s rest h)

pub refuse_with-eq-applied :
    (o : Option KernelRefusal) (s : KernelSnapshot) → refuse_with o s ≡ applied tt → o ≡ none
refuse_with-eq-applied none s h = refl
refuse_with-eq-applied (some r) s h = cc

-- What a stage gives back when it stops: nothing, or a result that keeps `s`.
abbrev pub IsKept {ℓ} : {A : Type ℓ} → KernelSnapshot → Outcome A → Type 0
IsKept s (applied a) = Unit
IsKept s (noop d t) = t ≡ s
IsKept s (refused r t) = t ≡ s

pub record KeepsOnStop {ℓ} {A : Type ℓ} (s : KernelSnapshot) (m : Outcome A) : Type 0 where
  pub at : IsKept s m

module _ {ℓ} {A : Type ℓ} (s : KernelSnapshot) where
  pub KeepsOnStop-applied : (a : A) → KeepsOnStop s (applied a)
  KeepsOnStop-applied a = record { at = tt }

  pub KeepsOnStop-noop : (digest : Digest) → KeepsOnStop {A = A} s (noop digest s)
  KeepsOnStop-noop digest = record { at = refl }

  pub KeepsOnStop-refused : (r : KernelRefusal) → KeepsOnStop {A = A} s (refused r s)
  KeepsOnStop-refused r = record { at = refl }

  pub KeepsOnStop-if :
      (b : Bool) (m n : Outcome A)
      → KeepsOnStop s m
      → KeepsOnStop s n
      → KeepsOnStop s (if b then m else n)
  KeepsOnStop-if true m n h k = h
  KeepsOnStop-if false m n h k = k

module _ {ℓ κ} {A : Type ℓ} {B : Type κ} (s : KernelSnapshot) where
  pub KeepsOnStop->>= :
      (m : Outcome A) (f : A → Outcome B)
      → KeepsOnStop s m
      → ((a : A) → KeepsOnStop s (f a))
      → KeepsOnStop s (m >>= f)
  KeepsOnStop->>= (applied a) f h k = k a
  KeepsOnStop->>= (noop d t) f h k = record { at = h.at }
  KeepsOnStop->>= (refused r t) f h k = record { at = h.at }

  pub KeepsOnStop-option :
      (o : Option A) (m : Outcome B) (f : A → Outcome B)
      → KeepsOnStop s m
      → ((a : A) → KeepsOnStop s (f a))
      → KeepsOnStop s (elim o [ none ↦ m | some a ↦ f a ])
  KeepsOnStop-option none m f h k = h
  KeepsOnStop-option (some a) m f h k = k a

pub KeepsOnStop->> {κ} :
    {B : Type κ} (s : KernelSnapshot) (m : Outcome (Unit {0})) (k : Outcome B)
    → KeepsOnStop s m
    → KeepsOnStop s k
    → KeepsOnStop s (m >> k)
KeepsOnStop->> s m k h g = KeepsOnStop->>= s m (λ _. k) h (λ _. g)

pub KeepsOnStop-refuse_when :
    (test : Bool) (s : KernelSnapshot) (r : KernelRefusal) → KeepsOnStop s (refuse_when test s r)
KeepsOnStop-refuse_when true s r = record { at = refl }
KeepsOnStop-refuse_when false s r = record { at = tt }

pub KeepsOnStop-guards :
    (s : KernelSnapshot) (checks : List (Bool × KernelRefusal)) → KeepsOnStop s (guards s checks)
KeepsOnStop-guards s [] = record { at = tt }
KeepsOnStop-guards s ((true, r) ∷ rest) = record { at = refl }
KeepsOnStop-guards s ((false, r) ∷ rest) = KeepsOnStop-guards s rest

pub KeepsOnStop-refuse_with :
    (o : Option KernelRefusal) (s : KernelSnapshot) → KeepsOnStop s (refuse_with o s)
KeepsOnStop-refuse_with none s = record { at = tt }
KeepsOnStop-refuse_with (some r) s = record { at = refl }

pub ruleset keep_rules = (
  KeepsOnStop-applied, KeepsOnStop-noop, KeepsOnStop-refused, KeepsOnStop-if, KeepsOnStop-option,
  KeepsOnStop->>=, KeepsOnStop->>, KeepsOnStop-refuse_when, KeepsOnStop-guards,
  KeepsOnStop-refuse_with,
)
