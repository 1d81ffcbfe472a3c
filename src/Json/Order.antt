-- ===== src/Json/Order.antt =====
-- The order of strings by code units, and stable sorting by it (`sort()` of the language, and
-- `compareCodeUnits` of src/policy.ts).
use hyperfinite.Common.{
  Bool, true, false, ◌||◌, ◌&&◌, List, [], ◌∷◌, Memᴰ, ◌≡◌, refl, sym, subst, ◌⊎◌, inl, inr, arith,
  ltb, ◌==◌, if◌then◌else◌, Bool-cases, nat_eq,
}
use hyperfinite.Json.{Text, text_eq}

-- `left <= right`
unfoldable pub text_leb : Text → Text → Bool
text_leb [] t = true
text_leb (c ∷ s) [] = false
text_leb (c ∷ s) (d ∷ t) = ltb c d || (c == d && text_leb s t)

pub text_leb_refl : (s : Text) → text_leb s s ≡ true
unfolding text_leb
text_leb_refl [] = refl
text_leb_refl (c ∷ s) = ground (arith, text_leb_refl s)

pub text_leb_total : (s t : Text) → text_leb s t ≡ false → text_leb t s ≡ true
unfolding text_leb
text_leb_total [] t h = cc
text_leb_total (c ∷ s) [] h = refl
text_leb_total (c ∷ s) (d ∷ t) h = ground (arith, text_leb_total s t)

pub text_leb_trans :
    (s t u : Text) → text_leb s t ≡ true → text_leb t u ≡ true → text_leb s u ≡ true
unfolding text_leb
text_leb_trans [] t u h k = refl
text_leb_trans (c ∷ s) [] u h k = cc
text_leb_trans (c ∷ s) (d ∷ t) [] h k = cc
text_leb_trans (c ∷ s) (d ∷ t) (e ∷ u) h k = ground (arith, text_leb_trans s t u)

pub text_leb_antisym : (s t : Text) → text_leb s t ≡ true → text_leb t s ≡ true → s ≡ t
unfolding text_leb
text_leb_antisym [] [] h k = refl
text_leb_antisym [] (d ∷ t) h k = cc
text_leb_antisym (c ∷ s) [] h k = cc
text_leb_antisym (c ∷ s) (d ∷ t) h k = ground (arith, text_leb_antisym s t)

module _ {ℓ} {A : Type ℓ} (key : A → Text) where
  unfoldable pub insert_by : A → List A → List A
  insert_by a [] = a ∷ []
  insert_by a (x ∷ xs) =
      let later = insert_by a xs in if text_leb (key a) (key x) then a ∷ x ∷ xs else x ∷ later

  unfoldable pub sort_by : List A → List A
  sort_by [] = []
  sort_by (x ∷ xs) = insert_by x (sort_by xs)

  -- Each key is at most every later one.
  abbrev pub IsSortedBy : List A → Type ℓ
  IsSortedBy [] = Unit
  IsSortedBy (x ∷ xs) = ((y : A) → Memᴰ y xs → text_leb (key x) (key y) ≡ true) × IsSortedBy xs

  -- What either result of an insertion holds.
  mem-if :
      (b : Bool) {xs ys : List A} {y : A} {P : Type ℓ}
      → (Memᴰ y xs → P)
      → (Memᴰ y ys → P)
      → Memᴰ y (if b then xs else ys)
      → P
  mem-if true f g m = f m
  mem-if false f g m = g m

  if-mem :
      (b : Bool) {xs ys : List A} {y : A} → Memᴰ y xs → Memᴰ y ys → Memᴰ y (if b then xs else ys)
  if-mem true m n = m
  if-mem false m n = n

  mem-cons_inv : (a x : A) (xs : List A) {y : A} → Memᴰ y (a ∷ xs) → (y ≡ a) ⊎ Memᴰ y (x ∷ xs)
  mem-cons_inv a x xs (Memᴰ.head e) = inl e
  mem-cons_inv a x xs (Memᴰ.tail m) = inr (Memᴰ.tail m)

  mem-first_inv : (a : A) (xs : List A) {y : A} → Memᴰ y (a ∷ xs) → (y ≡ a) ⊎ Memᴰ y xs
  mem-first_inv a xs (Memᴰ.head e) = inl e
  mem-first_inv a xs (Memᴰ.tail m) = inr m

  mem-later :
      (a x : A) (xs later : List A) {y : A}
      → (Memᴰ y later → (y ≡ a) ⊎ Memᴰ y xs)
      → Memᴰ y (x ∷ later)
      → (y ≡ a) ⊎ Memᴰ y (x ∷ xs)
  mem-later a x xs later rec (Memᴰ.head e) = inr (Memᴰ.head e)
  mem-later a x xs later rec (Memᴰ.tail m) = elim (rec m) [
    | inl e ↦ inl e
    | inr n ↦ inr (Memᴰ.tail n)
  ]

  pub mem-insert_by_inv :
      (a : A) (xs : List A) {y : A} → Memᴰ y (insert_by a xs) → (y ≡ a) ⊎ Memᴰ y xs
  unfolding insert_by
  mem-insert_by_inv a [] m = mem-first_inv a [] m
  mem-insert_by_inv a (x ∷ xs) {y} m =
      mem-if (text_leb (key a) (key x)) (mem-first_inv a (x ∷ xs))
        (mem-later a x xs (insert_by a xs) (mem-insert_by_inv a xs {y = y})) m

  pub mem-insert_by_self : (a : A) (xs : List A) → Memᴰ a (insert_by a xs)
  unfolding insert_by
  mem-insert_by_self a [] = Memᴰ.head refl
  mem-insert_by_self a (x ∷ xs) =
      if-mem (text_leb (key a) (key x)) (Memᴰ.head refl) (Memᴰ.tail (mem-insert_by_self a xs))

  pub mem-insert_by : (a : A) (xs : List A) {y : A} → Memᴰ y xs → Memᴰ y (insert_by a xs)
  unfolding insert_by
  mem-insert_by a [] m = elim m [ ]
  mem-insert_by a (x ∷ xs) (Memᴰ.head e) =
      if-mem (text_leb (key a) (key x)) (Memᴰ.tail (Memᴰ.head e)) (Memᴰ.head e)
  mem-insert_by a (x ∷ xs) (Memᴰ.tail m) =
      if-mem (text_leb (key a) (key x)) (Memᴰ.tail (Memᴰ.tail m)) (Memᴰ.tail (mem-insert_by a xs m))

  -- Sorting keeps the elements.
  pub mem-sort_by_inv : (xs : List A) {y : A} → Memᴰ y (sort_by xs) → Memᴰ y xs
  unfolding sort_by
  mem-sort_by_inv [] m = m
  mem-sort_by_inv (x ∷ xs) {y} m = elim (mem-insert_by_inv x (sort_by xs) m) [
    | inl e ↦ Memᴰ.head e
    | inr n ↦ Memᴰ.tail (mem-sort_by_inv xs {y = y} n)
  ]

  pub mem-sort_by : (xs : List A) {y : A} → Memᴰ y xs → Memᴰ y (sort_by xs)
  unfolding sort_by
  mem-sort_by [] m = m
  mem-sort_by (x ∷ xs) (Memᴰ.head e) =
      subst (λ a. Memᴰ a (insert_by x (sort_by xs))) (sym e) (mem-insert_by_self x (sort_by xs))
  mem-sort_by (x ∷ xs) (Memᴰ.tail m) = mem-insert_by x (sort_by xs) (mem-sort_by xs m)

  below_first :
      (a x y : A) (xs : List A)
      → text_leb (key a) (key x) ≡ true
      → ((y : A) → Memᴰ y xs → text_leb (key x) (key y) ≡ true)
      → Memᴰ y (x ∷ xs)
      → text_leb (key a) (key y) ≡ true
  below_first a x y xs h le (Memᴰ.head e) = subst (λ b. text_leb (key a) (key b) ≡ true) (sym e) h
  below_first a x y xs h le (Memᴰ.tail m) = text_leb_trans _ _ _ h (le y m)

  below_later :
      (a x y : A) (xs : List A)
      → text_leb (key x) (key a) ≡ true
      → ((y : A) → Memᴰ y xs → text_leb (key x) (key y) ≡ true)
      → (y ≡ a) ⊎ Memᴰ y xs
      → text_leb (key x) (key y) ≡ true
  below_later a x y xs h le (inl e) = subst (λ b. text_leb (key x) (key b) ≡ true) (sym e) h
  below_later a x y xs h le (inr m) = le y m

  pub insert_by-IsSortedBy : (a : A) (xs : List A) → IsSortedBy xs → IsSortedBy (insert_by a xs)
  unfolding insert_by
  insert_by-IsSortedBy a [] s = (λ y m. elim m [ ], tt)
  insert_by-IsSortedBy a (x ∷ xs) s = elim (Bool-cases (text_leb (key a) (key x))) [
    | inl h ↦ rw h (λ y m. below_first a x y xs h s.0 m, s)
    | inr h ↦ rw h (
      λ y m. below_later a x y xs (text_leb_total _ _ h) s.0 (mem-insert_by_inv a xs m),
      insert_by-IsSortedBy a xs s.1,
    )
  ]

  pub sort_by-IsSortedBy : (xs : List A) → IsSortedBy (sort_by xs)
  unfolding sort_by
  sort_by-IsSortedBy [] = tt
  sort_by-IsSortedBy (x ∷ xs) = insert_by-IsSortedBy x (sort_by xs) (sort_by-IsSortedBy xs)
