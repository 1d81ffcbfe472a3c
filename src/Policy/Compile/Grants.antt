-- ===== src/Policy/Compile/Grants.antt =====
-- What a successful compilation (src/policy.ts) found, and the grants of its loop.
use hyperfinite.Common.{
  String, Bool, not, List, [], ◌∷◌, ◌++◌, Memᴰ, ◌≡◌, ◌⊎◌, inl, inr, refl, sym, subst, all-mem,
  includes, includes-mem, reports, AllFalse, reports-nil, append-nil_inv, arith, string_eq,
}
use hyperfinite.Types.Policy.{Capability, CompiledCapabilityGrant, CompiledPolicy}
use hyperfinite.Host.{Host, compute_compiled_policy_digest}
use hyperfinite.Registry.{RegistryLibrary, Resolution, resolve_capability}
use hyperfinite.Policy.{PolicyInput, PolicyError, PolicyCompilation}
use hyperfinite.Policy.Compile.{
  is_subset, grant_checks, grant_of, grant_round, grant_loop, compiled_limits, policy_body,
  schema_validation_errors, input_errors, compilation_of, compile_valid, compile_policy,
}

abbrev pub IsSubset : (left right : List String) → Type 0
IsSubset left right = (x : String) → Memᴰ x left → Memᴰ x right

pub is_subset-IsSubset :
    (left right : List String) → not (is_subset left right) ≡ Bool.false → IsSubset left right
is_subset-IsSubset left right h x m =
    includes-mem right x (all-mem (includes right) (ground arith) m)

-- The capability of a grant and the checks that it passed.
pub record Granted (input : PolicyInput) (references : List String)
    (grant : CompiledCapabilityGrant) : Type 0 where
  pub capability : Capability
  pub requested : Memᴰ grant.reference references
  pub resolved :
      resolve_capability input.registry grant.reference input.phase.phase
      ≡ Resolution.resolved capability
  pub checked : AllFalse (grant_checks input grant.reference capability)
  pub grant_eq : grant ≡ grant_of (compiled_limits input) grant.reference capability

module _ (input : PolicyInput) where
  Granted-later :
      (r : String) (references : List String) {g : CompiledCapabilityGrant}
      → Granted input references g
      → Granted input (r ∷ references) g
  Granted-later r references g = record {
    capability = g.capability;
    requested = Memᴰ.tail g.requested;
    resolved = g.resolved;
    checked = g.checked;
    grant_eq = g.grant_eq;
  }

  Granted-head :
      (r : String) (references : List String) (c : Capability)
      → resolve_capability input.registry r input.phase.phase ≡ Resolution.resolved c
      → reports (grant_checks input r c) ≡ []
      → Granted input (r ∷ references) (grant_of (compiled_limits input) r c)
  unfolding grant_of
  Granted-head r references c resolved h = record {
    capability = c;
    requested = Memᴰ.head refl;
    resolved = resolved;
    checked = reports-nil (grant_checks input r c) h;
    grant_eq = refl;
  }

  -- A grant of a round without errors, or of the rest.
  round-or-rest :
      (r : String) (references : List String) (resolution : Resolution)
      (rest : List CompiledCapabilityGrant)
      → resolve_capability input.registry r input.phase.phase ≡ resolution
      → (grant_round input r resolution).0 ≡ []
      → {g : CompiledCapabilityGrant} → Memᴰ g ((grant_round input r resolution).1 ++ rest)
      → Granted input (r ∷ references) g ⊎ Memᴰ g rest
  unfolding grant_round
  round-or-rest r references (Resolution.unresolved e) rest eq h m = cc
  round-or-rest r references (Resolution.resolved c) rest eq h (Memᴰ.head e) =
      inl (subst (Granted input (r ∷ references)) (sym e) (Granted-head r references c eq h))
  round-or-rest r references (Resolution.resolved c) rest eq h (Memᴰ.tail m) = inr m

  pub grant_loop-Granted :
      (references : List String)
      → (grant_loop input references).0 ≡ []
      → {g : CompiledCapabilityGrant} → Memᴰ g (grant_loop input references).1
      → Granted input references g
  unfolding grant_loop
  grant_loop-Granted [] h m = elim m [ ]
  grant_loop-Granted (r ∷ references) h {g} m =
      let resolution = resolve_capability input.registry r input.phase.phase in
      let (here, later) =
        append-nil_inv (grant_round input r resolution).0 (grant_loop input references).0 h in
      elim (round-or-rest r references resolution (grant_loop input references).1 refl here m) [
        | inl granted ↦ granted
        | inr n ↦ Granted-later r references (grant_loop-Granted references later {g = g} n)
      ]

  round_complete :
      (r : String) (resolution : Resolution) (rest : List CompiledCapabilityGrant)
      → (grant_round input r resolution).0 ≡ []
      → (g : CompiledCapabilityGrant) × Memᴰ g ((grant_round input r resolution).1 ++ rest)
        × (g.reference ≡ r)
  unfolding grant_round grant_of
  round_complete r (Resolution.unresolved e) rest h = cc
  round_complete r (Resolution.resolved c) rest h =
      (grant_of (compiled_limits input) r c, Memᴰ.head refl, refl)

  mem-append_right :
      (xs ys : List CompiledCapabilityGrant) {g : CompiledCapabilityGrant}
      → Memᴰ g ys
      → Memᴰ g (xs ++ ys)
  mem-append_right [] ys m = m
  mem-append_right (x ∷ xs) ys m = Memᴰ.tail (mem-append_right xs ys m)

  -- Every reference has its grant.
  pub grant_loop_complete :
      (references : List String)
      → (grant_loop input references).0 ≡ []
      → {r : String} → Memᴰ r references
      → (g : CompiledCapabilityGrant) × Memᴰ g (grant_loop input references).1 × (g.reference ≡ r)
  unfolding grant_loop
  grant_loop_complete [] h m = elim m [ ]
  grant_loop_complete (s ∷ references) h {r} (Memᴰ.head e) =
      let resolution = resolve_capability input.registry s input.phase.phase in
      let (here, later) =
        append-nil_inv (grant_round input s resolution).0 (grant_loop input references).0 h in
      let (g, m, n) = round_complete s resolution (grant_loop input references).1 here in (g, m, cc)
  grant_loop_complete (s ∷ references) h {r} (Memᴰ.tail m) =
      let resolution = resolve_capability input.registry s input.phase.phase in
      let (here, later) =
        append-nil_inv (grant_round input s resolution).0 (grant_loop input references).0 h in
      let (g, n, e) = grant_loop_complete references later {r = r} m in
      (g, mem-append_right (grant_round input s resolution).1 (grant_loop input references).1 n, e)

module _ (host : Host) (library : RegistryLibrary) where
  -- The loop's grants, and that nothing was reported.
  pub record Compilation (input : PolicyInput) (policy : CompiledPolicy) : Type 0 where
    pub schemas : schema_validation_errors host input ≡ []
    pub inputs : input_errors host library input ≡ []
    pub granted : (grant_loop input input.phase.allowed_capabilities).0 ≡ []
    pub body_eq :
        policy.body ≡ policy_body input (grant_loop input input.phase.allowed_capabilities).1
    pub digest_eq : policy.digest ≡ compute_compiled_policy_digest host policy.body

  compilation_of_inv :
      (input : PolicyInput) (errors : List PolicyError) (grants : List CompiledCapabilityGrant)
      {policy : CompiledPolicy}
      → compilation_of host library input errors grants ≡ PolicyCompilation.compiled policy
      → (errors ≡ [])
        × (policy.body ≡ policy_body input grants)
        × (policy.digest ≡ compute_compiled_policy_digest host policy.body)
  unfolding compilation_of
  compilation_of_inv input [] grants h = (refl, cc, cc)
  compilation_of_inv input (e ∷ errors) grants h = cc

  compile_valid_inv :
      (input : PolicyInput) (errors : List PolicyError) {policy : CompiledPolicy}
      → schema_validation_errors host input ≡ errors
      → compile_valid host library input errors ≡ PolicyCompilation.compiled policy
      → Compilation input policy
  unfolding compile_valid
  compile_valid_inv input (e ∷ errors) s h = cc
  compile_valid_inv input [] s h =
      let loop = grant_loop input input.phase.allowed_capabilities in
      let (none, body, digest) =
        compilation_of_inv input (input_errors host library input ++ loop.0) loop.1 h in
      let (inputs, granted) = append-nil_inv (input_errors host library input) loop.0 none in
      record { schemas = s; inputs = inputs; granted = granted; body_eq = body; digest_eq = digest }

  pub compile_policy_inv :
      (input : PolicyInput) (policy : CompiledPolicy)
      → compile_policy host library input ≡ PolicyCompilation.compiled policy
      → Compilation input policy
  unfolding compile_policy
  compile_policy_inv input policy h = compile_valid_inv input _ refl h
