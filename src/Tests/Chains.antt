-- ===== src/Tests/Chains.antt =====
-- Instances of the theorems on runs and receipt chains: the two receipts of the small lifecycle.
use hyperfinite.Common.{
  ℕ, ◌+◌, ◌≤◌, ◌≡◌, ◌≢◌, ◌⊎◌, refl, Option, none, some, true, List, [], ◌∷◌, length,
}
use hyperfinite.Types.Lifecycle.{LifecycleState}
use hyperfinite.Types.Snapshot.{KernelSnapshot, TransitionReceipt, applied}
use hyperfinite.Host.{Document, work_accord_binding_digest}
use hyperfinite.Lifecycle.{is_terminal_state}
use hyperfinite.Receipts.{
  receipt_rounds, receipt_round, prior_round, head_after, accord_unbound, last_receipt,
  verify_receipt_chain,
}
use hyperfinite.Receipts.Chain.{Collision, accepted-one_history}
use hyperfinite.Runs.{Run, stop, step}
use hyperfinite.Runs.Chained.{AreValid, Run-IsAccepted}
use hyperfinite.Runs.Once.{Run-applies_once}
use hyperfinite.Runs.Reachable.{IsReached, Run-IsReached}
use hyperfinite.Kernel.Transition.{evaluate_transition}
use hyperfinite.Tests.Fixture.{
  input, host, compiler, initial, request, approve, context, activation_context, accord,
}
use hyperfinite.Tests.Steps.{model, requested, requested_applied, activated, activated_applied}

abbrev receipts : List TransitionReceipt
receipts = requested.receipt ∷ activated.receipt ∷ []

run : Run host compiler initial receipts activated.snapshot
run =
    step request context requested requested_applied
      (step approve activation_context activated activated_applied stop)

receipts_valid : AreValid host receipts
receipts_valid = (refl, (refl, tt))

receipts_some : receipts ≢ []
receipts_some = cc

rest : Run host compiler requested.snapshot (activated.receipt ∷ []) activated.snapshot
rest = step approve activation_context activated activated_applied stop

outside : requested.snapshot.state ≢ LifecycleState.captured
unfolding model
outside = cc

abbrev cancelled : KernelSnapshot
cancelled = record activated.snapshot { state = LifecycleState.cancelled }

cancelled_ends : is_terminal_state cancelled.state ≡ true
unfolding is_terminal_state
cancelled_ends = refl

abbrev no_receipts : List TransitionReceipt
no_receipts = []

ended : Run host compiler cancelled no_receipts cancelled
ended = stop

bound : initial.binding_digest ≡ work_accord_binding_digest host accord
unfolding model
bound = refl

current : activated.snapshot.work_accord_digest ≡ host.digest (Document.work_accord accord)
unfolding model
current = refl

ends : activated.snapshot.receipt_head ≡ some "e2"
unfolding model
ends = refl

Run-IsAccepted_example : verify_receipt_chain host receipts "e2" accord initial.receipt_head ≡ []
Run-IsAccepted_example =
    Run-IsAccepted host compiler initial activated.snapshot receipts "e2" accord run receipts_some
      receipts_valid refl bound current ends

accepted : verify_receipt_chain host receipts "e2" accord none ≡ []
unfolding model verify_receipt_chain receipt_rounds receipt_round prior_round head_after
    accord_unbound last_receipt hyperfinite.Common.ℕ_discrete
accepted = refl

accepted-one_history_example : (receipts ≡ receipts) ⊎ Collision host
accepted-one_history_example =
    accepted-one_history host receipts receipts "e2" accord accord accepted accepted

-- The request, evaluated again at the end of the run.
Run-applies_once_example :
    evaluate_transition host compiler activated.snapshot request context ≢ applied requested
Run-applies_once_example =
    Run-applies_once host compiler initial activated.snapshot request request context context
      requested requested (activated.receipt ∷ []) requested_applied rest refl

Run-IsReached_example : IsReached host input receipts activated.snapshot
Run-IsReached_example = Run-IsReached host compiler input activated.snapshot receipts run
