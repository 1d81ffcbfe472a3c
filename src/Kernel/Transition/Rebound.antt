-- ===== src/Kernel/Transition/Rebound.antt =====
-- A replacement of the authority keeps the binding to the repository and its work item.
use hyperfinite.Common.{
  Bool, true, false, ◌≡◌, refl, subst, ap, ◌∙◌, Option, none, some, string_eq, arith,
}
use hyperfinite.Types.Lifecycle.{EventType-eq}
use hyperfinite.Types.Event.{EventEnvelope, AuthorityRebind}
use hyperfinite.Types.Snapshot.{KernelSnapshot, Transition, applied}
use hyperfinite.Host.{Host}
use hyperfinite.Policy.{PolicyCompiler}
use hyperfinite.Outcome.{applied_inj, >>-eq-applied, guards-eq-applied}
use hyperfinite.Kernel.{KernelContext}
use hyperfinite.Kernel.Rebind.{
  is_misbound, replacement_guards, check_replacement, rebind_for, validate_authority_rebind,
}
use hyperfinite.Kernel.Commit.{destination_of, next_snapshot}
use hyperfinite.Kernel.Transition.{evaluate_transition}
use hyperfinite.Kernel.Transition.Effect.{passed, committed}

misbound-binding :
    (host : Host) (r : AuthorityRebind) (snapshot : KernelSnapshot)
    → is_misbound host r snapshot ≡ false
    → r.binding_digest ≡ snapshot.binding_digest
unfolding is_misbound
misbound-binding host r snapshot h = ground arith

module _ (host : Host) (compiler : PolicyCompiler) (snapshot : KernelSnapshot)
    (event : EventEnvelope) (context : KernelContext) where
  replacement-binding :
      (replacement : AuthorityRebind) (rebind : Option AuthorityRebind)
      → check_replacement host compiler snapshot event context replacement ≡ applied rebind
      → (destination_of host snapshot context rebind).binding_digest ≡ snapshot.binding_digest
  unfolding check_replacement destination_of
  replacement-binding replacement rebind h =
      let (passes, h1) = >>-eq-applied _ _ h in
      let (compiled, h2) = >>-eq-applied _ _ h1 in
      let facts =
        guards-eq-applied snapshot
          (replacement_guards host compiler snapshot event context replacement) passes in
      subst (λ r. (destination_of host snapshot context r).binding_digest ≡ snapshot.binding_digest)
        (applied_inj h2) (misbound-binding host replacement snapshot facts.1.1.1.0)

  none-binding :
      (destination_of host snapshot context none).binding_digest ≡ snapshot.binding_digest
  unfolding destination_of
  none-binding = refl

  rebind_for-binding :
      (b : Bool) (authority rebind : Option AuthorityRebind)
      → rebind_for host compiler b authority snapshot event context ≡ applied rebind
      → (destination_of host snapshot context rebind).binding_digest ≡ snapshot.binding_digest
  unfolding rebind_for
  rebind_for-binding false none rebind h =
      subst (λ r. (destination_of host snapshot context r).binding_digest ≡ snapshot.binding_digest)
        (applied_inj h) none-binding
  rebind_for-binding false (some replacement) rebind h = cc
  rebind_for-binding true none rebind h = cc
  rebind_for-binding true (some replacement) rebind h = replacement-binding replacement rebind h

-- An applied transition, a rebinding of the authority too, keeps the binding of its snapshot.
pub applied-keeps_binding :
    (host : Host) (compiler : PolicyCompiler) (snapshot : KernelSnapshot) (event : EventEnvelope)
    (context : KernelContext) (t : Transition)
    → evaluate_transition host compiler snapshot event context ≡ applied t
    → t.snapshot.binding_digest ≡ snapshot.binding_digest
unfolding next_snapshot validate_authority_rebind
applied-keeps_binding host compiler snapshot event context t done =
    ap (λ s. s.binding_digest) (committed host compiler snapshot event context t done).snapshot_eq
    ∙ rebind_for-binding host compiler snapshot event context _ _ _
        (passed host compiler snapshot event context t done).guarded.rebinds
