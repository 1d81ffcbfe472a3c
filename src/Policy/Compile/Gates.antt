-- ===== src/Policy/Compile/Gates.antt =====
-- The selection and the human gates of a compiled policy (src/policy.ts), and failures.
use hyperfinite.Common.{
  String, List, [], ◌∷◌, ◌++◌, map, Memᴰ, ◌≡◌, ◌↔◌, ◌⊎◌, inl, inr, refl, sym, subst, ap, mem-filter,
  mem-filter_inv, ◌!=◌, string_eq, Bool-cases, eq_of_test_ne,
}
use hyperfinite.Json.{code_units}
use hyperfinite.Json.Order.{sort_by, mem-sort_by, mem-sort_by_inv, sort_by-IsSortedBy, IsSortedBy}
use hyperfinite.Types.Policy.{CompiledCapabilityGrant, CompiledPolicy, PolicyBody}
use hyperfinite.Host.{Host, compute_compiled_policy_digest}
use hyperfinite.Registry.{RegistryLibrary}
use hyperfinite.Policy.{PolicyInput, PolicyCompilation}
use hyperfinite.Policy.Compile.{grant_gates, distinct, sorted, policy_body, compile_policy}
use hyperfinite.Policy.Compile.Grants.{is_subset-IsSubset, grant_loop_complete}
use hyperfinite.Policy.Compile.Bounds.{
  compilation, pushed, inputs_nil, mem-capabilities-Granted, compiled-IsGrant,
}

mem-distinct_inv : (xs : List String) {x : String} → Memᴰ x (distinct xs) → Memᴰ x xs
unfolding distinct
mem-distinct_inv [] m = m
mem-distinct_inv (y ∷ xs) (Memᴰ.head e) = Memᴰ.head e
mem-distinct_inv (y ∷ xs) {x} (Memᴰ.tail m) =
    Memᴰ.tail (mem-distinct_inv xs {x = x} (mem-filter_inv (λ z. z != y) (distinct xs) m).0)

mem-distinct : (xs : List String) {x : String} → Memᴰ x xs → Memᴰ x (distinct xs)
unfolding distinct
mem-distinct [] m = m
mem-distinct (y ∷ xs) (Memᴰ.head e) = Memᴰ.head e
mem-distinct (y ∷ xs) {x} (Memᴰ.tail m) = elim (Bool-cases (x != y)) [
  | inl other ↦ Memᴰ.tail (mem-filter (λ z. z != y) (distinct xs) (mem-distinct xs m) other)
  | inr same ↦ Memᴰ.head (eq_of_test_ne same)
]

mem-append_inv : (xs ys : List String) {x : String} → Memᴰ x (xs ++ ys) → Memᴰ x xs ⊎ Memᴰ x ys
mem-append_inv [] ys m = inr m
mem-append_inv (y ∷ xs) ys (Memᴰ.head e) = inl (Memᴰ.head e)
mem-append_inv (y ∷ xs) ys {x} (Memᴰ.tail m) = elim (mem-append_inv xs ys {x = x} m) [
  | inl n ↦ inl (Memᴰ.tail n)
  | inr n ↦ inr n
]

mem-append_left : (xs ys : List String) {x : String} → Memᴰ x xs → Memᴰ x (xs ++ ys)
mem-append_left [] ys m = elim m [ ]
mem-append_left (y ∷ xs) ys (Memᴰ.head e) = Memᴰ.head e
mem-append_left (y ∷ xs) ys (Memᴰ.tail m) = Memᴰ.tail (mem-append_left xs ys m)

mem-append_right : (xs ys : List String) {x : String} → Memᴰ x ys → Memᴰ x (xs ++ ys)
mem-append_right [] ys m = m
mem-append_right (y ∷ xs) ys m = Memᴰ.tail (mem-append_right xs ys m)

abbrev pub HasGate : String → List CompiledCapabilityGrant → Type 0
HasGate gate grants = (g : CompiledCapabilityGrant) × Memᴰ g grants × Memᴰ gate g.human_gates

grant_gates-HasGate :
    (grants : List CompiledCapabilityGrant) {gate : String}
    → Memᴰ gate (grant_gates grants)
    → HasGate gate grants
unfolding grant_gates
grant_gates-HasGate [] m = elim m [ ]
grant_gates-HasGate (h ∷ grants) {gate} m =
    elim (mem-append_inv h.human_gates (grant_gates grants) {x = gate} m) [
      | inl n ↦ (h, Memᴰ.head refl, n)
      | inr n ↦ let (g, l, k) = grant_gates-HasGate grants {gate = gate} n in (g, Memᴰ.tail l, k)
    ]

mem-grant_gates :
    (grants : List CompiledCapabilityGrant) {g : CompiledCapabilityGrant} {gate : String}
    → Memᴰ g grants
    → Memᴰ gate g.human_gates
    → Memᴰ gate (grant_gates grants)
unfolding grant_gates
mem-grant_gates [] m n = elim m [ ]
mem-grant_gates (h ∷ grants) {g} {gate} (Memᴰ.head e) n =
    mem-append_left h.human_gates (grant_gates grants)
      (subst (λ x. Memᴰ gate (CompiledCapabilityGrant.human_gates x)) e n)
mem-grant_gates (h ∷ grants) (Memᴰ.tail m) n =
    mem-append_right h.human_gates (grant_gates grants) (mem-grant_gates grants m n)

mem-references :
    (grants : List CompiledCapabilityGrant) {g : CompiledCapabilityGrant}
    → Memᴰ g grants
    → Memᴰ g.reference (map (λ (c : CompiledCapabilityGrant). c.reference) grants)
mem-references [] m = elim m [ ]
mem-references (h ∷ grants) (Memᴰ.head e) =
    Memᴰ.head (ap (λ c. CompiledCapabilityGrant.reference c) e)
mem-references (h ∷ grants) (Memᴰ.tail m) = Memᴰ.tail (mem-references grants m)

mem-references_inv :
    (grants : List CompiledCapabilityGrant) {r : String}
    → Memᴰ r (map (λ (c : CompiledCapabilityGrant). c.reference) grants)
    → (g : CompiledCapabilityGrant) × Memᴰ g grants × (g.reference ≡ r)
mem-references_inv [] m = elim m [ ]
mem-references_inv (h ∷ grants) (Memᴰ.head e) = (h, Memᴰ.head refl, sym e)
mem-references_inv (h ∷ grants) {r} (Memᴰ.tail m) =
    let (g, n, e) = mem-references_inv grants {r = r} m in (g, Memᴰ.tail n, e)

module _ (host : Host) (library : RegistryLibrary) (input : PolicyInput) (policy : CompiledPolicy)
    (done : compile_policy host library input ≡ PolicyCompilation.compiled policy) where
  abbrev grants : List CompiledCapabilityGrant
  grants =
      sort_by (λ c. code_units (CompiledCapabilityGrant.reference c))
        (pushed host library input policy done)

  grants_eq : policy.capabilities ≡ grants
  unfolding policy_body
  grants_eq =
      ap (λ b. PolicyBody.capabilities b) (compilation host library input policy done).body_eq

  selected_eq :
      policy.allowed_capabilities ≡ map (λ (c : CompiledCapabilityGrant). c.reference) grants
  unfolding policy_body
  selected_eq =
      ap (λ b. PolicyBody.allowed_capabilities b)
        (compilation host library input policy done).body_eq

  -- A capability is selected exactly if the phase allows it, and then there is a grant of it; the
  -- grants are sorted by their references; and the digest is that of the body.
  pub compiled-selection :
      ((r : String) → Memᴰ r policy.allowed_capabilities ↔ Memᴰ r input.phase.allowed_capabilities)
      × ((r : String)
          → Memᴰ r input.phase.allowed_capabilities
          → (g : CompiledCapabilityGrant) × Memᴰ g policy.capabilities × (g.reference ≡ r))
      × IsSortedBy (λ g. code_units (CompiledCapabilityGrant.reference g)) policy.capabilities
      × (policy.digest ≡ compute_compiled_policy_digest host policy.body)
  compiled-selection =
      let found = λ (r : String) (m : Memᴰ r input.phase.allowed_capabilities).
        grant_loop_complete input input.phase.allowed_capabilities
          (compilation host library input policy done).granted {r = r} m in
      let in_grants = λ (r : String) (m : Memᴰ r input.phase.allowed_capabilities).
        mem-sort_by (λ c. code_units (CompiledCapabilityGrant.reference c))
          (pushed host library input policy done) (found r m).1 in
      (
        λ r. (
          λ m.
              let (g, n, e) = mem-references_inv grants {r = r} (subst (Memᴰ r) selected_eq m) in
              subst (λ x. Memᴰ x input.phase.allowed_capabilities) e
                (mem-capabilities-Granted host library input policy done g
                  (subst (Memᴰ g) (sym grants_eq) n)).requested,
          λ m. subst (Memᴰ r) (sym selected_eq) (
              subst (λ x. Memᴰ x (map (λ (c : CompiledCapabilityGrant). c.reference) grants))
                (found r m).2 (mem-references grants (in_grants r m))),
        ),
        λ r m. (
          (found r m).0,
          subst (Memᴰ (found r m).0) (sym grants_eq) (in_grants r m),
          (found r m).2,
        ),
        subst (IsSortedBy (λ g. code_units (CompiledCapabilityGrant.reference g))) (sym grants_eq)
            (sort_by-IsSortedBy _ (pushed host library input policy done)),
        (compilation host library input policy done).digest_eq,
      )

  required_eq :
      policy.required_human_gates
      ≡ sorted (distinct (input.phase.human_gates ++ grant_gates grants))
  unfolding policy_body
  required_eq =
      ap (λ b. PolicyBody.required_human_gates b)
        (compilation host library input policy done).body_eq

  gate_of :
      (gate : String)
      → Memᴰ gate input.phase.human_gates ⊎ HasGate gate policy.capabilities
      → Memᴰ gate (input.phase.human_gates ++ grant_gates grants)
  gate_of gate (inl m) = mem-append_left input.phase.human_gates (grant_gates grants) m
  gate_of gate (inr (g, l, n)) =
      mem-append_right input.phase.human_gates (grant_gates grants)
        (mem-grant_gates grants (subst (Memᴰ g) grants_eq l) n)

  required_or :
      (gate : String)
      → Memᴰ gate policy.required_human_gates
      → Memᴰ gate input.phase.human_gates ⊎ HasGate gate policy.capabilities
  required_or gate m =
      let required = input.phase.human_gates ++ grant_gates grants in
      let listed =
        mem-distinct_inv required
          (mem-sort_by_inv code_units (distinct required) (subst (Memᴰ gate) required_eq m)) in
      elim (mem-append_inv input.phase.human_gates (grant_gates grants) {x = gate} listed) [
        | inl n ↦ inl n
        | inr n ↦
            inr (subst (HasGate gate) (sym grants_eq) (grant_gates-HasGate grants {gate = gate} n))
      ]

  required_of :
      (gate : String)
      → Memᴰ gate input.phase.human_gates ⊎ HasGate gate policy.capabilities
      → Memᴰ gate policy.required_human_gates
  required_of gate either =
      let required = input.phase.human_gates ++ grant_gates grants in
      subst (Memᴰ gate) (sym required_eq)
        (mem-sort_by code_units (distinct required) (mem-distinct required (gate_of gate either)))

  declared :
      (gate : String)
      → Memᴰ gate input.phase.human_gates ⊎ HasGate gate policy.capabilities
      → Memᴰ gate input.accord.human_gates
  declared gate (inl m) =
      let (_, (_, (_, (_, (_, (_, (_, (_, (_, (_, (_, (_, (_, (gates, _)))))))))))))) =
        (inputs_nil host library input policy done).1 in
      is_subset-IsSubset input.phase.human_gates input.accord.human_gates gates gate m
  declared gate (inr (g, l, n)) = (compiled-IsGrant host library input policy done g l).gates gate n

  -- The required human gates are exactly those of the phase and of the grants, and the Work Accord
  -- declares every one.
  pub compiled-gates :
      (gate : String)
      → (Memᴰ gate policy.required_human_gates
          ↔ (Memᴰ gate input.phase.human_gates ⊎ HasGate gate policy.capabilities))
        × (Memᴰ gate policy.required_human_gates → Memᴰ gate input.accord.human_gates)
  compiled-gates gate =
      ((required_or gate, required_of gate), λ m. declared gate (required_or gate m))
