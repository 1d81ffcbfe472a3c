-- ===== src/Runs.antt =====
-- Sequences of applied transitions of the kernel, and what they do to the snapshot.
pub mod Chained
pub mod Once
pub mod Reachable
use hyperfinite.Common.{
  ℕ, ◌+◌, ◌≤◌, ◌≡◌, ◌≢◌, refl, sym, subst, ap, ◌∙◌, List, [], ◌∷◌, length, arith, true,
}
use hyperfinite.Types.Lifecycle.{LifecycleState}
use hyperfinite.Types.Event.{EventEnvelope}
use hyperfinite.Types.Snapshot.{KernelSnapshot, TransitionReceipt, Transition, applied}
use hyperfinite.Host.{Host}
use hyperfinite.Lifecycle.{is_terminal_state}
use hyperfinite.Policy.{PolicyCompiler}
use hyperfinite.Kernel.{KernelContext, max_safe_integer}
use hyperfinite.Kernel.Transition.{evaluate_transition}
use hyperfinite.Kernel.Transition.Progress.{applied-Progress, applied-ne-captured, terminal_absorbs}
use hyperfinite.Kernel.Transition.Rebound.{applied-keeps_binding}

module _ (host : Host) (compiler : PolicyCompiler) where
  -- From a snapshot to another by applied transitions, which leave these receipts; the context
  -- of each evaluation is whatever the caller has then.
  pub data Run : KernelSnapshot → List TransitionReceipt → KernelSnapshot → Type 0 where
    stop : {s : KernelSnapshot} → Run s [] s
    step :
        {s last : KernelSnapshot} {receipts : List TransitionReceipt} (event : EventEnvelope)
        (context : KernelContext) (t : Transition)
        → evaluate_transition host compiler s event context ≡ applied t
        → Run t.snapshot receipts last
        → Run s (t.receipt ∷ receipts) last

  -- A run raises the version by one for each receipt.
  pub Run-version :
      {s last : KernelSnapshot} {receipts : List TransitionReceipt}
      → Run s receipts last
      → last.state_version ≡ s.state_version + length receipts
  Run-version stop = ground arith
  Run-version (step {s} event context t done rest) =
      let ih = Run-version rest in
      let plus_one = (applied-Progress host compiler s event context t done).version in ground arith

  -- A run moves the event sequence up by at least one for each receipt.
  pub Run-sequence :
      {s last : KernelSnapshot} {receipts : List TransitionReceipt}
      → Run s receipts last
      → s.last_event_sequence + length receipts ≤ last.last_event_sequence
  Run-sequence stop = ground arith
  Run-sequence (step {s} event context t done rest) =
      let ih = Run-sequence rest in
      let p = applied-Progress host compiler s event context t done in
      let at = p.sequence in let ordered = p.ordered in ground arith

  -- A run keeps the binding to the repository and the work item.
  pub Run-binding :
      {s last : KernelSnapshot} {receipts : List TransitionReceipt}
      → Run s receipts last
      → last.binding_digest ≡ s.binding_digest
  Run-binding stop = refl
  Run-binding (step {s} event context t done rest) =
      Run-binding rest ∙ applied-keeps_binding host compiler s event context t done

  -- A run from a completed or cancelled snapshot has no transition.
  pub Run-terminal :
      {s last : KernelSnapshot} {receipts : List TransitionReceipt}
      → is_terminal_state s.state ≡ true
      → Run s receipts last
      → (receipts ≡ []) × (last ≡ s)
  Run-terminal ends stop = (refl, refl)
  Run-terminal ends (step {s} event context t done rest) =
      elim (terminal_absorbs host compiler s event context t ends done) [ ]

  -- A run that starts outside CAPTURED does not end in it.
  pub Run-ne-captured :
      {s last : KernelSnapshot} {receipts : List TransitionReceipt}
      → s.state ≢ LifecycleState.captured
      → Run s receipts last
      → last.state ≢ LifecycleState.captured
  Run-ne-captured outside stop = outside
  Run-ne-captured outside (step {s} event context t done rest) =
      Run-ne-captured (applied-ne-captured host compiler s event context t done) rest
