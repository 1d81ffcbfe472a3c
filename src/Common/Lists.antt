-- ===== src/Common/Lists.antt =====
-- The list and dictionary operations that the program uses, over Boolean tests, with their laws.
use Prim.Native.Nat.{ℕ, suc}
use Prim.Native.String.{String}
use mathlib.Core.Path.{◌≡◌, refl, sym, subst}
use mathlib.Core.Logic.{inl, inr}
use mathlib.Core.Bool.{Bool, true, false, ◌&&◌, ◌||◌}
use mathlib.Core.Option.{Option, none, some}
use mathlib.Core.List.{List, [], ◌∷◌, ◌++◌, Memᴰ}
use native.Mathlib.Omega.{arith}
use hyperfinite.Common.Tests.{Eq, string_eq, ◌==◌, if◌then◌else◌, Bool-cases}

module _ {ℓ} {A : Type ℓ} where
  abbrev pub length : List A → ℕ
  length [] = 0
  length (x ∷ xs) = suc (length xs)

  -- `values.some(test)`
  abbrev pub any : (A → Bool) → List A → Bool
  any test [] = false
  any test (x ∷ xs) = test x || any test xs

  -- `values.every(test)`
  abbrev pub all : (A → Bool) → List A → Bool
  all test [] = true
  all test (x ∷ xs) = test x && all test xs

  -- `values.find(test)`
  abbrev pub find : (A → Bool) → List A → Option A
  find test [] = none
  find test (x ∷ xs) = if test x then some x else find test xs

  -- `values.filter(test)`
  abbrev pub filter : (A → Bool) → List A → List A
  filter test [] = []
  filter test (x ∷ xs) = let rest = filter test xs in if test x then x ∷ rest else rest

  abbrev pub is_empty : List A → Bool
  is_empty [] = true
  is_empty (x ∷ xs) = false

  abbrev pub is_some : Option A → Bool
  is_some none = false
  is_some (some x) = true

  -- A row of `if (test) errors.push(error)`.
  abbrev pub reports : List (Bool × A) → List A
  reports [] = []
  reports ((test, error) ∷ rest) = if test then error ∷ reports rest else reports rest

  abbrev pub AllFalse : List (Bool × A) → Type 0
  AllFalse [] = Unit
  AllFalse ((test, error) ∷ rest) = (test ≡ false) × AllFalse rest

  pub reports-nil : (checks : List (Bool × A)) → reports checks ≡ [] → AllFalse checks
  reports-nil [] h = tt
  reports-nil ((test, error) ∷ rest) h = (ground arith, reports-nil rest (ground arith))

  pub append-nil_inv : (xs ys : List A) → xs ++ ys ≡ [] → (xs ≡ []) × (ys ≡ [])
  append-nil_inv [] ys h = (refl, h)
  append-nil_inv (x ∷ xs) ys h = cc

  pub any-witness :
      (test : A → Bool) (xs : List A) → any test xs ≡ true → (x : A) × Memᴰ x xs × (test x ≡ true)
  any-witness test [] h = cc
  any-witness test (x ∷ xs) h = elim (Bool-cases (test x)) [
    | inl t ↦ (x, Memᴰ.head refl, t)
    | inr f ↦ let (y, m, t) = any-witness test xs (ground arith) in (y, Memᴰ.tail m, t)
  ]

  pub any-of_mem :
      (test : A → Bool) {x : A} {xs : List A} → Memᴰ x xs → test x ≡ true → any test xs ≡ true
  any-of_mem test (Memᴰ.head e) h = ground arith
  any-of_mem test (Memᴰ.tail m) h = ground (arith, any-of_mem test m h)

  pub any-none :
      (test : A → Bool) {x : A} {xs : List A} → any test xs ≡ false → Memᴰ x xs → test x ≡ false
  any-none test h (Memᴰ.head e) = ground arith
  any-none test h (Memᴰ.tail m) = any-none test (ground arith) m

  pub all-mem :
      (test : A → Bool) {x : A} {xs : List A} → all test xs ≡ true → Memᴰ x xs → test x ≡ true
  all-mem test h (Memᴰ.head e) = ground arith
  all-mem test h (Memᴰ.tail m) = all-mem test (ground arith) m

  pub find_sound :
      (test : A → Bool) (xs : List A) {x : A} → find test xs ≡ some x → Memᴰ x xs × (test x ≡ true)
  find_sound test [] h = cc
  find_sound test (y ∷ xs) {x} h = elim (Bool-cases (test y)) [
    | inl t ↦ (Memᴰ.head (ground arith), ground arith)
    | inr f ↦ let (m, t) = find_sound test xs {x = x} (ground arith) in (Memᴰ.tail m, t)
  ]

  filter-true :
      (test : A → Bool) (y : A) (xs : List A)
      → test y ≡ true
      → filter test (y ∷ xs) ≡ y ∷ filter test xs
  filter-true test y xs t = rw t

  filter-false :
      (test : A → Bool) (y : A) (xs : List A)
      → test y ≡ false
      → filter test (y ∷ xs) ≡ filter test xs
  filter-false test y xs t = rw t

  mem-filter_cons :
      (test : A → Bool) (y : A) (xs : List A) {x : A}
      → test y ≡ true
      → (Memᴰ x (filter test xs) → Memᴰ x xs × (test x ≡ true))
      → Memᴰ x (y ∷ filter test xs)
      → Memᴰ x (y ∷ xs) × (test x ≡ true)
  mem-filter_cons test y xs t rec (Memᴰ.head e) = (Memᴰ.head e, ground arith)
  mem-filter_cons test y xs t rec (Memᴰ.tail m) = let (n, h) = rec m in (Memᴰ.tail n, h)

  pub mem-filter_inv :
      (test : A → Bool) (xs : List A) {x : A}
      → Memᴰ x (filter test xs)
      → Memᴰ x xs × (test x ≡ true)
  mem-filter_inv test [] m = elim m [ ]
  mem-filter_inv test (y ∷ xs) {x} m = elim (Bool-cases (test y)) [
    | inl t ↦
        mem-filter_cons test y xs t (mem-filter_inv test xs {x = x})
          (subst (Memᴰ x) (filter-true test y xs t) m)
    | inr f ↦
        let (n, t) = mem-filter_inv test xs {x = x} (subst (Memᴰ x) (filter-false test y xs f) m) in
        (Memᴰ.tail n, t)
  ]

  filter_keeps :
      (test : A → Bool) (y : A) (xs : List A) {x : A}
      → Memᴰ x (filter test xs)
      → Memᴰ x (filter test (y ∷ xs))
  filter_keeps test y xs {x} m = elim (Bool-cases (test y)) [
    | inl t ↦ subst (Memᴰ x) (sym (filter-true test y xs t)) (Memᴰ.tail m)
    | inr f ↦ subst (Memᴰ x) (sym (filter-false test y xs f)) m
  ]

  pub mem-filter :
      (test : A → Bool) (xs : List A) {x : A} → Memᴰ x xs → test x ≡ true → Memᴰ x (filter test xs)
  mem-filter test [] m t = elim m [ ]
  mem-filter test (y ∷ xs) {x} (Memᴰ.head e) t =
      subst (Memᴰ x) (sym (filter-true test y xs (subst (λ a. test a ≡ true) e t))) (Memᴰ.head e)
  mem-filter test (y ∷ xs) (Memᴰ.tail m) t = filter_keeps test y xs (mem-filter test xs m t)

module _ {ℓ} {A : Type ℓ} ⦃e : Eq A⦄ where
  -- `values.includes(a)`
  abbrev pub includes : List A → A → Bool
  includes [] a = false
  includes (x ∷ xs) a = x == a || includes xs a

  pub includes-mem : (xs : List A) (a : A) → includes xs a ≡ true → Memᴰ a xs
  includes-mem [] a h = cc
  includes-mem (x ∷ xs) a h = elim (Bool-cases (x == a)) [
    | inl t ↦ Memᴰ.head (ground arith)
    | inr f ↦ Memᴰ.tail (includes-mem xs a (ground arith))
  ]

-- A plain object that serves as a dictionary, as its entries in the order of insertion.
module _ {ℓ} {V : Type ℓ} where
  -- `Object.hasOwn(entries, key) ? entries[key] : undefined`
  unfoldable pub own_value : (key : String) → List (String × V) → Option V
  own_value key [] = none
  own_value key (entry ∷ entries) =
      let elsewhere = own_value key entries in if entry.0 == key then some entry.1 else elsewhere

  -- `{ ...entries, [key]: value }`
  unfoldable pub with_entry : (key : String) → V → List (String × V) → List (String × V)
  with_entry key value [] = (key, value) ∷ []
  with_entry key value (entry ∷ entries) =
      let rest = with_entry key value entries in
      if entry.0 == key then (key, value) ∷ entries else entry ∷ rest

  pub own_value-with_entry :
      (entries : List (String × V)) (key asked : String) (value : V)
      → own_value asked (with_entry key value entries)
        ≡ (if key == asked then some value else own_value asked entries)
  unfolding own_value with_entry
  own_value-with_entry [] key asked value = refl
  own_value-with_entry (entry ∷ entries) key asked value =
      let ih = own_value-with_entry entries key asked value in ground arith
