-- ===== src/Kernel/Transition/Linked.antt =====
-- The receipt of an applied transition: the link from the snapshot's head to the next one's.
use hyperfinite.Common.{ℕ, ◌≡◌, refl, sym, subst, ap, ◌∙◌, Option, some}
use hyperfinite.Types.Lifecycle.{LifecycleRoute}
use hyperfinite.Types.Event.{EventEnvelope}
use hyperfinite.Types.Snapshot.{KernelSnapshot, TransitionReceipt, Transition, applied}
use hyperfinite.Host.{Host, Document}
use hyperfinite.Policy.{PolicyCompiler}
use hyperfinite.Kernel.{KernelContext, PhaseAuthority}
use hyperfinite.Kernel.Accounting.{Totals}
use hyperfinite.Kernel.Commit.{Destination, receipt_of, next_snapshot, destination_of}
use hyperfinite.Kernel.Transition.{evaluate_transition}
use hyperfinite.Kernel.Transition.Effect.{passed, committed, candidate, attempt_after}

-- The receipt `r` of a step from one snapshot to another: what it says of both.
pub record IsLink (host : Host) (before : KernelSnapshot) (r : TransitionReceipt)
    (after : KernelSnapshot) : Type 0 where
  pub previous : r.previous_receipt ≡ before.receipt_head
  pub head : after.receipt_head ≡ some (host.digest (Document.transition_receipt r))
  pub from : r.from ≡ before.state
  pub to : r.to ≡ after.state
  pub version : r.state_version ≡ after.state_version
  pub source_binding : r.binding_digest ≡ before.binding_digest
  pub source_graph : r.lifecycle_graph_digest ≡ before.lifecycle_graph_digest
  pub source_accord : r.work_accord_digest ≡ before.work_accord_digest
  pub source_registry : r.capability_registry_digest ≡ before.capability_registry_digest
  pub source_pack : r.domain_pack_digest ≡ before.domain_pack_digest
  pub source_policy : r.policy_digest ≡ before.policy_digest
  pub source_contract : r.source_phase_contract_digest ≡ before.phase_contract_digest
  pub source_compiled : r.source_compiled_policy_digest ≡ before.compiled_policy_digest
  pub next_binding : r.destination_binding_digest ≡ after.binding_digest
  pub next_graph : r.destination_lifecycle_graph_digest ≡ after.lifecycle_graph_digest
  pub next_accord : r.destination_work_accord_digest ≡ after.work_accord_digest
  pub next_registry : r.destination_capability_registry_digest ≡ after.capability_registry_digest
  pub next_pack : r.destination_domain_pack_digest ≡ after.domain_pack_digest
  pub next_policy : r.destination_policy_digest ≡ after.policy_digest
  pub next_contract : r.destination_phase_contract_digest ≡ after.phase_contract_digest
  pub next_compiled : r.destination_compiled_policy_digest ≡ after.compiled_policy_digest

IsLink-of_parts :
    (host : Host) (snapshot : KernelSnapshot) (event : EventEnvelope) (route : LifecycleRoute)
    (authority : Option PhaseAuthority) (bound : Destination) (totals : Totals) (attempt : Option ℕ)
    → route.from ≡ snapshot.state
    → IsLink host snapshot (receipt_of host snapshot event route authority bound totals) (
        next_snapshot host snapshot event route authority bound totals
          (host.digest (
            Document.transition_receipt
              (receipt_of host snapshot event route authority bound totals)))
          attempt)
unfolding receipt_of next_snapshot
IsLink-of_parts host snapshot event route authority bound totals attempt source = record {
  previous = refl;
  head = refl;
  from = source;
  to = refl;
  version = refl;
  source_binding = refl;
  source_graph = refl;
  source_accord = refl;
  source_registry = refl;
  source_pack = refl;
  source_policy = refl;
  source_contract = refl;
  source_compiled = refl;
  next_binding = refl;
  next_graph = refl;
  next_accord = refl;
  next_registry = refl;
  next_pack = refl;
  next_policy = refl;
  next_contract = refl;
  next_compiled = refl;
}

module _ (host : Host) (compiler : PolicyCompiler) (snapshot : KernelSnapshot)
    (event : EventEnvelope) (context : KernelContext) (t : Transition)
    (done : evaluate_transition host compiler snapshot event context ≡ applied t) where
  -- The receipt of an applied transition links the snapshot before to the snapshot after: it
  -- names the head before and its digest is the head after, and its states, version, binding,
  -- graph, accord, registry, pack, policy and phase digests are those of the two snapshots.
  pub applied-IsLink : IsLink host snapshot t.receipt t.snapshot
  applied-IsLink =
      let p = passed host compiler snapshot event context t done in
      let c = committed host compiler snapshot event context t done in
      let source =
        ap (λ r. r.from) (sym c.route_eq)
        ∙ (candidate host compiler snapshot event context t done).source in
      let bound = destination_of host snapshot context p.rebind in
      subst (IsLink host snapshot t.receipt) (sym c.snapshot_eq) (
        subst
          (λ d. IsLink host snapshot t.receipt (
            next_snapshot host snapshot event p.route p.destination bound p.totals d
              (attempt_after snapshot p.route)))
          (sym c.digest_eq)
          (subst
            (λ r. IsLink host snapshot r (
              next_snapshot host snapshot event p.route p.destination bound p.totals
                (host.digest (Document.transition_receipt r)) (attempt_after snapshot p.route)))
            (sym c.receipt_eq)
            (IsLink-of_parts host snapshot event p.route p.destination bound p.totals
              (attempt_after snapshot p.route) source)))

  pub applied-digest : t.receipt_digest ≡ host.digest (Document.transition_receipt t.receipt)
  applied-digest = (committed host compiler snapshot event context t done).digest_eq
