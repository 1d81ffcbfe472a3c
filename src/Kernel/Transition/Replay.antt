-- ===== src/Kernel/Transition/Replay.antt =====
-- Exactly once: an applied event is recorded under its identity, and comes back as a noop.
use hyperfinite.Common.{
  ◌≡◌, ◌≢◌, refl, sym, ap, ◌∙◌, some, own_value, with_entry, own_value-with_entry, if◌then◌else◌,
  false, string_eq, test_self, arith,
}
use hyperfinite.Types.Accord.{Digest}
use hyperfinite.Types.Event.{EventEnvelope}
use hyperfinite.Types.Snapshot.{
  ProcessedEvent, KernelSnapshot, RefusalCode, Recovery, Transition, applied, noop, refused,
}
use hyperfinite.Host.{Host, Document}
use hyperfinite.Policy.{PolicyCompiler}
use hyperfinite.Outcome.{refusal}
use hyperfinite.Kernel.{KernelContext}
use hyperfinite.Kernel.Boundary.{check_schemas, check_replay, replay_of}
use hyperfinite.Kernel.Commit.{next_snapshot}
use hyperfinite.Kernel.Transition.{evaluate_transition}
use hyperfinite.Kernel.Transition.Effect.{committed}

pub stored_entry : (k : _) (v : ProcessedEvent) (m : _) → own_value k (with_entry k v m) ≡ some v
stored_entry k v m =
    own_value-with_entry m k k v ∙ ap (λ b. if b then some v else own_value k m) (test_self k)

module _ (host : Host) (snapshot : KernelSnapshot) (event : EventEnvelope) where
  check_replay-known :
      (entry : ProcessedEvent)
      → own_value event.id snapshot.processed_events ≡ some entry
      → check_replay host snapshot event ≡ replay_of host (some entry) snapshot event
  unfolding check_replay
  check_replay-known entry h = ap (λ o. replay_of host o snapshot event) h

  replay_of-same :
      (entry : ProcessedEvent)
      → entry.event_digest ≡ host.digest (Document.kernel_event event)
      → replay_of host (some entry) snapshot event ≡ noop entry.receipt_digest snapshot
  unfolding replay_of
  replay_of-same entry h = ground arith

  replay_of-other :
      (entry : ProcessedEvent)
      → entry.event_digest ≢ host.digest (Document.kernel_event event)
      → replay_of host (some entry) snapshot event
        ≡ refused
            (refusal RefusalCode.replay_conflict "replay.event-identity" false Recovery.reconcile)
            snapshot
  unfolding replay_of
  replay_of-other entry h = ground arith

module _ (host : Host) (compiler : PolicyCompiler) (snapshot : KernelSnapshot)
    (event : EventEnvelope) (context : KernelContext)
    (valid : check_schemas host snapshot event context ≡ applied tt) where
  stops_at_noop :
      (digest : Digest)
      → check_replay host snapshot event ≡ noop digest snapshot
      → evaluate_transition host compiler snapshot event context ≡ noop digest snapshot
  unfolding evaluate_transition
  stops_at_noop digest h = rw (valid, h)

  stops_at_refusal :
      (r : _)
      → check_replay host snapshot event ≡ refused r snapshot
      → evaluate_transition host compiler snapshot event context ≡ refused r snapshot
  unfolding evaluate_transition
  stops_at_refusal r h = rw (valid, h)

module _ (host : Host) (compiler : PolicyCompiler) (snapshot : KernelSnapshot)
    (event : EventEnvelope) (context : KernelContext) (t : Transition)
    (done : evaluate_transition host compiler snapshot event context ≡ applied t) where
  -- An applied transition records its event: under the event's identity the next snapshot has
  -- the digest of the event, its delivery and the digest of the transition's receipt.
  pub applied-recorded :
      (entry : ProcessedEvent) × (own_value event.id t.snapshot.processed_events ≡ some entry)
      × (entry.event_digest ≡ host.digest (Document.kernel_event event))
      × (entry.delivery_id ≡ event.delivery_id)
      × (entry.receipt_digest ≡ t.receipt_digest)
  unfolding next_snapshot
  applied-recorded = (
    _,
    ap (λ s. own_value event.id s.processed_events)
          (committed host compiler snapshot event context t done).snapshot_eq
        ∙ stored_entry event.id _ snapshot.processed_events,
    refl,
    refl,
    refl,
  )

  module _ (later : KernelContext)
      (valid : check_schemas host t.snapshot event later ≡ applied tt) where
    -- An event that has been applied is a noop afterwards, in every later context of valid
    -- documents: it returns the snapshot as it is and the digest of the receipt it was given.
    pub replay-noop :
        evaluate_transition host compiler t.snapshot event later ≡ noop t.receipt_digest t.snapshot
    replay-noop =
        let (entry, found, same, delivery, receipt) = applied-recorded in
        stops_at_noop host compiler t.snapshot event later valid t.receipt_digest (
          check_replay-known host t.snapshot event entry found
          ∙ replay_of-same host t.snapshot event entry same
          ∙ ap (λ d. noop d t.snapshot) receipt)

  -- Another event under the identity of an applied one is refused as a replay conflict, where
  -- its digest differs and the documents of the later context are valid.
  pub replay-conflict :
      (other : EventEnvelope) (later : KernelContext)
      → check_schemas host t.snapshot other later ≡ applied tt
      → other.id ≡ event.id
      → host.digest (Document.kernel_event event) ≢ host.digest (Document.kernel_event other)
      → evaluate_transition host compiler t.snapshot other later
        ≡ refused
            (refusal RefusalCode.replay_conflict "replay.event-identity" false Recovery.reconcile)
            t.snapshot
  replay-conflict other later valid same_id differ =
      let (entry, found, same, delivery, receipt) = applied-recorded in
      stops_at_refusal host compiler t.snapshot other later valid _ (
        check_replay-known host t.snapshot other entry
          (ap (λ k. own_value k t.snapshot.processed_events) same_id ∙ found)
        ∙ replay_of-other host t.snapshot other entry (λ e. differ (sym same ∙ e)))
