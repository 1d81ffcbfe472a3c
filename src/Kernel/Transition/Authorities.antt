-- ===== src/Kernel/Transition/Authorities.antt =====
-- The phase authorities of src/kernel.ts (currentAuthority, destinationAuthority): each is compiled
-- from a contract of its phase.
use hyperfinite.Common.{
  Bool, true, false, not, ◌&&◌, ◌||◌, ◌==◌, ◌!=◌, ◌⊎◌, inl, inr, ap, eq_of_test_ne, option_eq, ◌≡◌,
  refl, sym, subst, ◌∙◌, Option, none, some, if◌then◌else◌,
}
use hyperfinite.Types.Lifecycle.{
  LifecycleState, PhaseOwner, LifecycleRoute, LifecycleState-eq, PhaseOwner-eq, ActivePhaseOwner-eq,
}
use hyperfinite.Types.Accord.{Digest}
use hyperfinite.Types.Policy.{PhaseContract, CompiledPolicy}
use hyperfinite.Types.Snapshot.{KernelSnapshot, KernelRefusal, Outcome, applied, refused}
use hyperfinite.Host.{Host}
use hyperfinite.Lifecycle.{phase_owner_of}
use hyperfinite.Policy.{PolicyInput, PolicyCompilation, PolicyCompiler}
use hyperfinite.Outcome.{>>=-eq-applied, >>-eq-applied, refuse_when-eq-applied, applied_inj}
use hyperfinite.Kernel.{KernelContext, PhaseAuthority}
use hyperfinite.Kernel.Resolution.{
  authority_or_refusal, unbound_authority, compile_authority, bound_authority, authority_by_digests,
  expected_authority_phase, current_authority, active_destination, destination_authority,
}
use hyperfinite.Kernel.Transition.{effective_policy}

-- What the kernel compiles for a contract.
abbrev pub policy_input : KernelContext → PhaseContract → PolicyInput
policy_input context contract = record {
  enterprise = context.policy;
  accord = context.work_accord;
  phase = contract;
  domain_pack = context.domain_pack;
  registry = context.registry;
}

some_inj {ℓ} : {A : Type ℓ} {a b : A} → some a ≡ some b → a ≡ b
some_inj h = cc

-- Whether a route enters an active phase, so that its destination has a contract of its own.
abbrev pub enters_phase : LifecycleRoute → Bool
enters_phase route =
    not (route.to == LifecycleState.activation_pending || route.to == LifecycleState.cancelled)
    && route.phase_owner != PhaseOwner.kernel

-- The contract of the phase that is in force after a transition: of the phase that the route enters,
-- or of the one that the snapshot is in, or retains, where the route enters none.
abbrev pub IsContractOf :
    (enters : Bool) → KernelSnapshot → LifecycleRoute → KernelContext → PhaseContract → Type 0
IsContractOf true snapshot route context contract =
    (context.destination_phase_contract ≡ some contract)
    × (phase_owner_of contract.phase ≡ route.phase_owner)
IsContractOf false snapshot route context contract =
    (context.current_phase_contract ≡ some contract)
    × (expected_authority_phase snapshot context.graph ≡ some contract.phase)

module _ (compiler : PolicyCompiler) (context : KernelContext) (host : Host)
    (snapshot : KernelSnapshot) where
  abbrev pub IsCompiled : PhaseAuthority → Type 0
  IsCompiled authority =
      compiler.compile_policy (policy_input context authority.contract)
      ≡ PolicyCompilation.compiled authority.compiled

  -- An authority is compiled from a contract of its phase.
  abbrev pub IsAuthority : (enters : Bool) → LifecycleRoute → PhaseAuthority → Type 0
  IsAuthority enters route authority =
      IsCompiled authority × IsContractOf enters snapshot route context authority.contract

  abbrev pub AllCurrent : LifecycleRoute → Option PhaseAuthority → Type 0
  AllCurrent route none = Unit
  AllCurrent route (some authority) = IsAuthority false route authority

  authority_or_refusal-IsCompiled :
      (contract : PhaseContract) (result : PolicyCompilation) {authority : PhaseAuthority}
      → compiler.compile_policy (policy_input context contract) ≡ result
      → authority_or_refusal contract snapshot result ≡ applied authority
      → IsCompiled authority × (authority.contract ≡ contract)
  unfolding authority_or_refusal
  authority_or_refusal-IsCompiled contract (PolicyCompilation.compiled p) e h =
      let same = applied_inj h in (subst IsCompiled same e, ap PhaseAuthority.contract (sym same))
  authority_or_refusal-IsCompiled contract (PolicyCompilation.failed errors) e h = cc

  compile_authority-IsCompiled :
      (contract : PhaseContract) {authority : PhaseAuthority}
      → compile_authority host compiler contract snapshot context ≡ applied authority
      → IsCompiled authority × (authority.contract ≡ contract)
  unfolding compile_authority
  compile_authority-IsCompiled contract h = authority_or_refusal-IsCompiled contract _ refl h

  module _ (route : LifecycleRoute) where
    bound_authority-AllCurrent :
        (c p : Digest) (contract : Option PhaseContract) {authority : Option PhaseAuthority}
        → context.current_phase_contract ≡ contract
        → bound_authority host compiler c p contract snapshot context ≡ applied authority
        → AllCurrent route authority
    unfolding bound_authority
    bound_authority-AllCurrent c p none held h = cc
    bound_authority-AllCurrent c p (some contract) held h =
        let (a, e, h1) =
          >>=-eq-applied (compile_authority host compiler contract snapshot context) _ h in
        let (_, h2) = >>-eq-applied _ _ h1 in
        let (owner, h3) = >>-eq-applied _ _ h2 in
        let expected = refuse_when-eq-applied _ snapshot _ owner in
        let (compiled, same) = compile_authority-IsCompiled contract e in
        let known : IsAuthority false route a =
          (compiled, (held ∙ ap some (sym same), sym (eq_of_test_ne expected))) in
        subst (AllCurrent route) (applied_inj h3) known

    unbound_authority-AllCurrent :
        (bound required : Bool) {authority : Option PhaseAuthority}
        → unbound_authority bound required snapshot ≡ applied authority
        → AllCurrent route authority
    unfolding unbound_authority
    unbound_authority-AllCurrent true required h = cc
    unbound_authority-AllCurrent false true h = cc
    unbound_authority-AllCurrent false false h = subst (AllCurrent route) (applied_inj h) tt

    authority_by_digests-AllCurrent :
        (c p : Option Digest) (required : Bool) {authority : Option PhaseAuthority}
        → authority_by_digests host compiler c p required snapshot context ≡ applied authority
        → AllCurrent route authority
    unfolding authority_by_digests
    authority_by_digests-AllCurrent (some c) (some p) required h =
        bound_authority-AllCurrent c p context.current_phase_contract refl h
    authority_by_digests-AllCurrent (some c) none required h =
        unbound_authority-AllCurrent _ required h
    authority_by_digests-AllCurrent none p required h = unbound_authority-AllCurrent _ required h

    pub current-AllCurrent :
        (required : Bool) {authority : Option PhaseAuthority}
        → current_authority host compiler snapshot context required ≡ applied authority
        → AllCurrent route authority
    unfolding current_authority
    current-AllCurrent required h =
        authority_by_digests-AllCurrent snapshot.phase_contract_digest
          snapshot.compiled_policy_digest required h

    -- The destination of a route: its own authority where it enters a phase, else none or the current.
    abbrev pub IsDestination :
        (enters : Bool) (current destination : Option PhaseAuthority) → Type 0
    IsDestination true current destination =
        (a : PhaseAuthority) × (destination ≡ some a) × IsAuthority true route a
    IsDestination false current destination = (destination ≡ none) ⊎ (destination ≡ current)

    active_destination-IsDestination :
        (contract : Option PhaseContract) (current : Option PhaseAuthority)
        {authority : Option PhaseAuthority}
        → context.destination_phase_contract ≡ contract
        → active_destination host compiler snapshot route contract context ≡ applied authority
        → IsDestination true current authority
    unfolding active_destination
    active_destination-IsDestination none current held h = cc
    active_destination-IsDestination (some contract) current held h =
        let (a, e, h1) =
          >>=-eq-applied (compile_authority host compiler contract snapshot context) _ h in
        let (owner, h2) = >>-eq-applied _ _ h1 in
        let expected = refuse_when-eq-applied _ snapshot _ owner in
        let (compiled, same) = compile_authority-IsCompiled contract e in
        (a, sym (applied_inj h2), (compiled, (held ∙ ap some (sym same), eq_of_test_ne expected)))

    chosen-IsDestination :
        (leaves keeps misplaced : Bool) (r : KernelRefusal) (current : Option PhaseAuthority)
        (own : Outcome (Option PhaseAuthority)) {authority : Option PhaseAuthority}
        → (own ≡ applied authority → IsDestination true current authority)
        → (if leaves
            then applied none
            else if keeps
            then applied current
            else if misplaced
            then refused r snapshot
            else own)
          ≡ applied authority
        → IsDestination (not leaves && not keeps) current authority
    chosen-IsDestination true keeps misplaced r current m f h = inl (sym (applied_inj h))
    chosen-IsDestination false true misplaced r current m f h = inr (sym (applied_inj h))
    chosen-IsDestination false false true r current m f h = cc
    chosen-IsDestination false false false r current m f h = f h

    pub destination_authority-IsDestination :
        (current authority : Option PhaseAuthority)
        → destination_authority host compiler snapshot route current context ≡ applied authority
        → IsDestination (enters_phase route) current authority
    unfolding destination_authority
    destination_authority-IsDestination current authority h =
        chosen-IsDestination
          (route.to == LifecycleState.activation_pending || route.to == LifecycleState.cancelled)
          (route.phase_owner == PhaseOwner.kernel) _ _ current
          (active_destination host compiler snapshot route context.destination_phase_contract
            context)
          (active_destination-IsDestination context.destination_phase_contract current refl) h

    -- The policy in force comes with its contract.
    abbrev pub IsInForce : (enters : Bool) → CompiledPolicy → Type 0
    IsInForce enters policy =
        (contract : PhaseContract) × (compiler.compile_policy (policy_input context contract)
          ≡ PolicyCompilation.compiled policy)
        × IsContractOf enters snapshot route context contract

    in_force :
        (enters : Bool) (a : PhaseAuthority) {policy : CompiledPolicy}
        → IsAuthority enters route a
        → a.compiled ≡ policy
        → IsInForce enters policy
    in_force enters a h e = (
      a.contract,
      subst
          (λ p.
            compiler.compile_policy (policy_input context a.contract)
            ≡ PolicyCompilation.compiled p)
          e h.0,
      h.1,
    )

    current-IsInForce :
        (current destination : Option PhaseAuthority) {policy : CompiledPolicy}
        → AllCurrent route current
        → IsDestination false current destination
        → effective_policy current destination ≡ some policy
        → IsInForce false policy
    unfolding effective_policy
    current-IsInForce none none c d h = cc
    current-IsInForce none (some b) c (inl e) h = cc
    current-IsInForce none (some b) c (inr e) h = cc
    current-IsInForce (some a) none c d h = in_force false a c (some_inj h)
    current-IsInForce (some a) (some b) c (inl e) h = cc
    current-IsInForce (some a) (some b) c (inr e) h =
        in_force false a c (ap PhaseAuthority.compiled (sym (some_inj e)) ∙ some_inj h)

    pub effective-IsInForce :
        (enters : Bool) (current destination : Option PhaseAuthority) {policy : CompiledPolicy}
        → AllCurrent route current
        → IsDestination enters current destination
        → effective_policy current destination ≡ some policy
        → IsInForce enters policy
    unfolding effective_policy
    effective-IsInForce false current destination c d h =
        current-IsInForce current destination c d h
    effective-IsInForce true current none c d h = cc
    effective-IsInForce true current (some b) c d h =
        in_force true d.0 d.2 (ap PhaseAuthority.compiled (sym (some_inj d.1)) ∙ some_inj h)
