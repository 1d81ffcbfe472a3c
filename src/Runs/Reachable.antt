-- ===== src/Runs/Reachable.antt =====
-- What holds of every snapshot that is reached from `createInitialSnapshot` (src/kernel.ts).
use hyperfinite.Common.{◌≤◌, ◌≡◌, refl, List, length, arith}
use hyperfinite.Types.Lifecycle.{LifecycleState-discrete}
use hyperfinite.Types.Snapshot.{KernelSnapshot, TransitionReceipt}
use hyperfinite.Host.{Host, work_accord_binding_digest}
use hyperfinite.Lifecycle.{state_invariants, allows_null_phase_authority, retained_state}
use hyperfinite.Lifecycle.Semantics.{retains_state}
use hyperfinite.Lifecycle.Semantics.Laws.{IsCoherent}
use hyperfinite.Policy.{PolicyCompiler}
use hyperfinite.Kernel.{InitialInput, create_initial_snapshot}
use hyperfinite.Kernel.Transition.Coherent.{applied-IsCoherent}
use hyperfinite.Runs.{Run, stop, step, Run-version, Run-sequence, Run-binding}

initial-IsCoherent :
    (host : Host) (input : InitialInput) → IsCoherent (create_initial_snapshot host input)
unfolding create_initial_snapshot state_invariants allows_null_phase_authority retained_state
    retains_state LifecycleState-discrete
initial-IsCoherent host input = record {
  owner = refl;
  paired = refl;
  authority = refl;
  retained = refl;
}

Run-IsCoherent :
    (host : Host) (compiler : PolicyCompiler) {s last : KernelSnapshot}
    {receipts : List TransitionReceipt}
    → IsCoherent s
    → Run host compiler s receipts last
    → IsCoherent last
Run-IsCoherent host compiler coherent stop = coherent
Run-IsCoherent host compiler coherent (step {s} event context t done rest) =
    Run-IsCoherent host compiler (applied-IsCoherent host compiler s event context t done) rest

-- Of a snapshot that is reached from the initial one of an accord: its version counts the receipts,
-- its event sequence is no less, its binding is the accord's and it is coherent.
pub record IsReached (host : Host) (input : InitialInput) (receipts : List TransitionReceipt)
    (s : KernelSnapshot) : Type 0 where
  pub version : s.state_version ≡ length receipts
  pub sequence : length receipts ≤ s.last_event_sequence
  pub binding : s.binding_digest ≡ work_accord_binding_digest host input.work_accord
  pub coherent : IsCoherent s

-- Every run from the initial snapshot of an accord reaches a snapshot whose version counts the
-- receipts, whose event sequence is no less, whose binding is the accord's, and that is coherent.
pub Run-IsReached :
    (host : Host) (compiler : PolicyCompiler) (input : InitialInput) (last : KernelSnapshot)
    (receipts : List TransitionReceipt)
    → Run host compiler (create_initial_snapshot host input) receipts last
    → IsReached host input receipts last
unfolding create_initial_snapshot
Run-IsReached host compiler input last receipts run =
    let sequence = Run-sequence host compiler run in
    let version = Run-version host compiler run in
    record {
      version = ground arith;
      sequence = ground arith;
      binding = Run-binding host compiler run;
      coherent = Run-IsCoherent host compiler (initial-IsCoherent host input) run;
    }
