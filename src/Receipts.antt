-- ===== src/Receipts.antt =====
-- `verifyReceiptChain` (src/receipts.ts). An error is its kind and its index; -1 is left out.
pub mod Chain
use hyperfinite.Common.{
  ℕ, zero, ◌+◌, ◌-◌, Bool, true, false, not, ◌||◌, Option, none, some, List, [], ◌∷◌, ◌++◌, length,
  is_some, reports, ◌==◌, ◌!=◌, if◌then◌else◌, string_eq, nat_eq, option_eq,
}
use hyperfinite.Types.Lifecycle.{LifecycleState-eq}
use hyperfinite.Types.Accord.{Digest, WorkAccord}
use hyperfinite.Types.Snapshot.{TransitionReceipt}
use hyperfinite.Host.{Host, Document, work_accord_binding_digest}
use hyperfinite.Kernel.{max_safe_integer}

pub data ReceiptChainError : Type 0 where
  accord_schema : ReceiptChainError
  schema predecessor binding source version authority phase : ℕ → ReceiptChainError
  terminal_head terminal_accord : ℕ → ReceiptChainError

-- The checks of a receipt against the one before it.
abbrev pub prior_checks :
    (index : ℕ) → TransitionReceipt → TransitionReceipt → List (Bool × ReceiptChainError)
prior_checks index prior receipt =
    (receipt.from != prior.to, ReceiptChainError.source index)
    ∷ (
      prior.state_version == max_safe_integer || receipt.state_version != prior.state_version + 1,
      ReceiptChainError.version index,
    )
    ∷ (
      receipt.binding_digest != prior.destination_binding_digest
          || receipt.lifecycle_graph_digest != prior.destination_lifecycle_graph_digest
          || receipt.work_accord_digest != prior.destination_work_accord_digest
          || receipt.capability_registry_digest != prior.destination_capability_registry_digest
          || receipt.domain_pack_digest != prior.destination_domain_pack_digest
          || receipt.policy_digest != prior.destination_policy_digest,
      ReceiptChainError.authority index,
    )
    ∷ (
      receipt.source_phase_contract_digest != prior.destination_phase_contract_digest
          || receipt.source_compiled_policy_digest != prior.destination_compiled_policy_digest,
      ReceiptChainError.phase index,
    )
    ∷ []

unfoldable pub prior_round :
    (index : ℕ) → Option TransitionReceipt → TransitionReceipt → List ReceiptChainError
prior_round index none receipt = []
prior_round index (some prior) receipt = reports (prior_checks index prior receipt)

-- `receipts.at(-1)`
unfoldable pub last_receipt : List TransitionReceipt → Option TransitionReceipt
last_receipt [] = none
last_receipt (r ∷ []) = some r
last_receipt (r ∷ s ∷ receipts) = last_receipt (s ∷ receipts)

module _ (host : Host) where
  abbrev pub receipt_digest : TransitionReceipt → Digest
  receipt_digest receipt = host.digest (Document.transition_receipt receipt)

  -- The checks of a receipt by itself.
  abbrev pub own_checks :
      (expected_binding : Digest) (index : ℕ) (expected_head : Option Digest)
      → TransitionReceipt
      → List (Bool × ReceiptChainError)
  own_checks expected_binding index expected_head receipt =
      (
        is_some (host.schema_errors (Document.transition_receipt receipt)),
        ReceiptChainError.schema index,
      )
      ∷ (receipt.previous_receipt != expected_head, ReceiptChainError.predecessor index)
      ∷ (
        receipt.binding_digest != expected_binding
            || receipt.destination_binding_digest != expected_binding,
        ReceiptChainError.binding index,
      )
      ∷ []

  -- One round of `receipts.forEach`.
  unfoldable pub receipt_round :
      (expected_binding : Digest) (index : ℕ) (expected_head : Option Digest)
      → Option TransitionReceipt
      → TransitionReceipt
      → List ReceiptChainError
  receipt_round expected_binding index expected_head prior receipt =
      reports (own_checks expected_binding index expected_head receipt)
      ++ prior_round index prior receipt

  unfoldable pub receipt_rounds :
      (expected_binding : Digest) (index : ℕ) (expected_head : Option Digest)
      → (prior : Option TransitionReceipt) → List TransitionReceipt
      → List ReceiptChainError
  receipt_rounds expected_binding index expected_head prior [] = []
  receipt_rounds expected_binding index expected_head prior (r ∷ receipts) =
      receipt_round expected_binding index expected_head prior r
      ++ receipt_rounds expected_binding (index + 1) (some (receipt_digest r)) (some r) receipts

  -- `expectedHead` when the loop is done.
  unfoldable pub head_after : Option Digest → List TransitionReceipt → Option Digest
  head_after head [] = head
  head_after head (r ∷ receipts) = head_after (some (receipt_digest r)) receipts

  -- `terminalReceipt === undefined || ...`
  unfoldable pub accord_unbound : WorkAccord → Option TransitionReceipt → Bool
  accord_unbound accord none = true
  accord_unbound accord (some terminal) =
      terminal.destination_work_accord_digest != host.digest (Document.work_accord accord)

  -- The checks after the loop, with the head and the last receipt then.
  abbrev pub terminal_checks :
      (head : Option Digest) (receipts : List TransitionReceipt)
      → (expected_terminal_head : Digest) → WorkAccord
      → List (Bool × ReceiptChainError)
  terminal_checks head receipts expected_terminal_head accord =
      (head != some expected_terminal_head, ReceiptChainError.terminal_head (length receipts))
      ∷ (
        accord_unbound accord (last_receipt receipts),
        ReceiptChainError.terminal_accord (length receipts - 1),
      )
      ∷ []

  unfoldable pub verify_receipt_chain :
      List TransitionReceipt
      → (expected_terminal_head : Digest) → WorkAccord
      → (initial_head : Option Digest) → List ReceiptChainError
  verify_receipt_chain receipts expected_terminal_head accord initial_head =
      if is_some (host.schema_errors (Document.work_accord accord))
      then ReceiptChainError.accord_schema ∷ []
      else receipt_rounds (work_accord_binding_digest host accord) 0 initial_head none receipts
        ++ reports (
            terminal_checks (head_after initial_head receipts) receipts expected_terminal_head
              accord)
