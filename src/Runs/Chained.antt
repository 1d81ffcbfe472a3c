-- ===== src/Runs/Chained.antt =====
-- The receipts of a run are a chain that `verifyReceiptChain` (src/receipts.ts) accepts.
use hyperfinite.Common.{
  ℕ, ◌+◌, ◌≤◌, Bool, false, ◌≡◌, ◌≢◌, refl, sym, subst, ap, ◌∙◌, Option, none, some, List, [], ◌∷◌,
  reports, AllFalse, arith, string_eq, nat_eq, option_eq,
}
use hyperfinite.Types.Lifecycle.{LifecycleState-eq}
use hyperfinite.Types.Accord.{Digest, WorkAccord}
use hyperfinite.Types.Snapshot.{KernelSnapshot, TransitionReceipt}
use hyperfinite.Host.{Host, Document, work_accord_binding_digest}
use hyperfinite.Policy.{PolicyCompiler}
use hyperfinite.Kernel.{max_safe_integer}
use hyperfinite.Kernel.Transition.Linked.{IsLink, applied-IsLink}
use hyperfinite.Kernel.Transition.Progress.{applied-Progress}
use hyperfinite.Kernel.Transition.Rebound.{applied-keeps_binding}
use hyperfinite.Receipts.{
  ReceiptChainError, prior_checks, prior_round, own_checks, receipt_round, receipt_rounds,
  head_after, last_receipt, accord_unbound, terminal_checks, verify_receipt_chain,
}
use hyperfinite.Runs.{Run, stop, step}

reports-of_AllFalse :
    (checks : List (Bool × ReceiptChainError)) → AllFalse checks → reports checks ≡ []
reports-of_AllFalse [] facts = refl
reports-of_AllFalse ((test, e) ∷ rest) facts =
    let ih = reports-of_AllFalse rest facts.1 in let off = facts.0 in ground arith

-- Every receipt satisfies its schema.
abbrev pub AreValid : Host → List TransitionReceipt → Type 0
AreValid host [] = Unit
AreValid host (r ∷ receipts) =
    (host.schema_errors (Document.transition_receipt r) ≡ none) × AreValid host receipts

-- The receipt before a snapshot, if there is one, links another snapshot to it.
abbrev Follows : Host → Option TransitionReceipt → KernelSnapshot → Type 0
Follows host none s = Unit
Follows host (some r) s = (before : KernelSnapshot) × IsLink host before r s

module _ (host : Host) where
  prior_checks-AllFalse :
      (i : ℕ) (prior r : TransitionReceipt) {before s after : KernelSnapshot}
      → IsLink host before prior s
      → IsLink host s r after
      → after.state_version ≡ s.state_version + 1
      → after.state_version ≤ max_safe_integer
      → AllFalse (prior_checks i prior r)
  prior_checks-AllFalse i prior r p l plus_one safe =
      let from = l.from ∙ sym p.to in
      let version_p = p.version in
      let version_r = l.version in
      let binding = l.source_binding ∙ sym p.next_binding in
      let graph = l.source_graph ∙ sym p.next_graph in
      let accord = l.source_accord ∙ sym p.next_accord in
      let registry = l.source_registry ∙ sym p.next_registry in
      let pack = l.source_pack ∙ sym p.next_pack in
      let policy = l.source_policy ∙ sym p.next_policy in
      let contract = l.source_contract ∙ sym p.next_contract in
      let compiled = l.source_compiled ∙ sym p.next_compiled in
      (ground arith, (ground arith, (ground arith, (ground arith, tt))))

  prior_round-nil :
      (i : ℕ) (prior : Option TransitionReceipt) (r : TransitionReceipt) {s after : KernelSnapshot}
      → Follows host prior s
      → IsLink host s r after
      → after.state_version ≡ s.state_version + 1
      → after.state_version ≤ max_safe_integer
      → prior_round i prior r ≡ []
  unfolding prior_round
  prior_round-nil i none r follows l plus_one safe = refl
  prior_round-nil i (some p) r (before, link) l plus_one safe =
      reports-of_AllFalse (prior_checks i p r) (prior_checks-AllFalse i p r link l plus_one safe)

  own_checks-AllFalse :
      (i : ℕ) (binding : Digest) (r : TransitionReceipt) {s after : KernelSnapshot}
      → host.schema_errors (Document.transition_receipt r) ≡ none
      → IsLink host s r after
      → s.binding_digest ≡ binding
      → after.binding_digest ≡ binding
      → AllFalse (own_checks host binding i s.receipt_head r)
  own_checks-AllFalse i binding r valid l bound kept =
      let previous = l.previous in
      let source = l.source_binding ∙ bound in
      let next = l.next_binding ∙ kept in (ground arith, (ground arith, (ground arith, tt)))

  receipt_round-nil :
      (i : ℕ) (binding : Digest) (prior : Option TransitionReceipt) (r : TransitionReceipt)
      {s after : KernelSnapshot}
      → host.schema_errors (Document.transition_receipt r) ≡ none
      → Follows host prior s
      → IsLink host s r after
      → s.binding_digest ≡ binding
      → after.binding_digest ≡ binding
      → after.state_version ≡ s.state_version + 1
      → after.state_version ≤ max_safe_integer
      → receipt_round host binding i s.receipt_head prior r ≡ []
  unfolding receipt_round
  receipt_round-nil i binding prior r {s} valid follows l bound kept plus_one safe =
      let own =
        reports-of_AllFalse (own_checks host binding i s.receipt_head r)
          (own_checks-AllFalse i binding r valid l bound kept) in
      let before = prior_round-nil i prior r follows l plus_one safe in rw (own, before)

  module _ (compiler : PolicyCompiler) where
    rounds-nil :
        {s last : KernelSnapshot} {receipts : List TransitionReceipt} (i : ℕ) (binding : Digest)
        (prior : Option TransitionReceipt)
        → Run host compiler s receipts last
        → AreValid host receipts
        → Follows host prior s
        → s.binding_digest ≡ binding
        → receipt_rounds host binding i s.receipt_head prior receipts ≡ []
    unfolding receipt_rounds
    rounds-nil i binding prior stop valid follows bound = refl
    rounds-nil i binding prior (step {s} {last} {receipts} event context t done rest)
          (valid, others) follows bound =
        let l = applied-IsLink host compiler s event context t done in
        let p = applied-Progress host compiler s event context t done in
        let kept = applied-keeps_binding host compiler s event context t done ∙ bound in
        let round =
          receipt_round-nil i binding prior t.receipt valid follows l bound kept p.version
            p.version_safe in
        let ih = rounds-nil (i + 1) binding (some t.receipt) rest others (s, l) kept in
        let after =
          subst (λ h. receipt_rounds host binding (i + 1) h (some t.receipt) receipts ≡ []) l.head
            ih in
        rw (round, after)

    -- The head after the receipts of a run is the head of the snapshot that it ends in.
    pub head_after-Run :
        {s last : KernelSnapshot} {receipts : List TransitionReceipt}
        → Run host compiler s receipts last
        → head_after host s.receipt_head receipts ≡ last.receipt_head
    unfolding head_after
    head_after-Run stop = refl
    head_after-Run (step {s} {last} {receipts} event context t done rest) =
        subst (λ h. head_after host h receipts ≡ last.receipt_head)
          (applied-IsLink host compiler s event context t done).head (head_after-Run rest)

    -- The last receipt, from one that leads to the run's first snapshot.
    last_receipt-IsLink :
        {s last before : KernelSnapshot} {receipts : List TransitionReceipt} (r : TransitionReceipt)
        → IsLink host before r s
        → Run host compiler s receipts last
        → (terminal : TransitionReceipt) × (last_receipt (r ∷ receipts) ≡ some terminal)
          × (previous : KernelSnapshot) × IsLink host previous terminal last
    unfolding last_receipt
    last_receipt-IsLink {before = before} r link stop = (r, refl, before, link)
    last_receipt-IsLink r link (step {s} event context t done rest) =
        last_receipt-IsLink t.receipt (applied-IsLink host compiler s event context t done) rest

    bound-of_link :
        (accord : WorkAccord) (terminal : TransitionReceipt)
        → terminal.destination_work_accord_digest ≡ host.digest (Document.work_accord accord)
        → accord_unbound host accord (some terminal) ≡ false
    unfolding accord_unbound
    bound-of_link accord terminal same = ground arith

    bound-of_last :
        (accord : WorkAccord) (receipts : List TransitionReceipt) {last : KernelSnapshot}
        → last.work_accord_digest ≡ host.digest (Document.work_accord accord)
        → (terminal : TransitionReceipt) × (last_receipt receipts ≡ some terminal)
          × (previous : KernelSnapshot) × IsLink host previous terminal last
        → accord_unbound host accord (last_receipt receipts) ≡ false
    bound-of_last accord receipts current (terminal, found, previous, link) =
        ap (λ o. accord_unbound host accord o) found
        ∙ bound-of_link accord terminal (link.next_accord ∙ current)

    Run-bound :
        {s last : KernelSnapshot} {receipts : List TransitionReceipt} (accord : WorkAccord)
        → Run host compiler s receipts last
        → receipts ≢ []
        → last.work_accord_digest ≡ host.digest (Document.work_accord accord)
        → accord_unbound host accord (last_receipt receipts) ≡ false
    Run-bound accord stop some_step current = elim (some_step refl) [ ]
    Run-bound accord (step {s} {last} {receipts} event context t done rest) some_step current =
        bound-of_last accord (t.receipt ∷ receipts) current
          (last_receipt-IsLink t.receipt (applied-IsLink host compiler s event context t done) rest)

    -- Verification accepts the receipts of every run of at least one transition, with the head of
    -- the snapshot that it starts from and the head that it ends in, where the receipts and the
    -- accord satisfy their schemas and the accord is the last snapshot's, of the same binding.
    pub Run-IsAccepted :
        (s last : KernelSnapshot) (receipts : List TransitionReceipt) (terminal : Digest)
        (accord : WorkAccord)
        → Run host compiler s receipts last
        → receipts ≢ []
        → AreValid host receipts
        → host.schema_errors (Document.work_accord accord) ≡ none
        → s.binding_digest ≡ work_accord_binding_digest host accord
        → last.work_accord_digest ≡ host.digest (Document.work_accord accord)
        → last.receipt_head ≡ some terminal
        → verify_receipt_chain host receipts terminal accord s.receipt_head ≡ []
    unfolding verify_receipt_chain
    Run-IsAccepted s last receipts terminal accord run some_step valid schema bound current ends =
        let rounds = rounds-nil 0 _ none run valid tt bound in
        let head = head_after-Run run ∙ ends in
        let unbound = Run-bound accord run some_step current in
        let tail =
          reports-of_AllFalse
            (terminal_checks host (head_after host s.receipt_head receipts) receipts terminal
              accord)
            (ground arith, (unbound, tt)) in
        rw (schema, rounds, tail)
