-- ===== src/Runs/Once.antt =====
-- Exactly once over a whole run: an event identity that was applied is never applied again.
use hyperfinite.Common.{
  String, ◌≡◌, ◌≢◌, inl, inr, refl, sym, ap, ◌∙◌, Option, none, some, List, own_value, with_entry,
  own_value-with_entry, Bool-cases, ◌==◌, string_eq, arith, eq_of_test,
}
use hyperfinite.Types.Event.{EventEnvelope}
use hyperfinite.Types.Snapshot.{
  ProcessedEvent, KernelSnapshot, TransitionReceipt, Transition, applied,
}
use hyperfinite.Host.{Host}
use hyperfinite.Policy.{PolicyCompiler}
use hyperfinite.Kernel.{KernelContext}
use hyperfinite.Kernel.Boundary.{replay_of, check_replay}
use hyperfinite.Kernel.Commit.{next_snapshot}
use hyperfinite.Kernel.Transition.{evaluate_transition}
use hyperfinite.Kernel.Transition.Effect.{passed, committed}
use hyperfinite.Kernel.Transition.Replay.{applied-recorded}
use hyperfinite.Runs.{Run, stop, step}

replay_of-fresh :
    (host : Host) (o : Option ProcessedEvent) (snapshot : KernelSnapshot) (event : EventEnvelope)
    → replay_of host o snapshot event ≡ applied tt
    → o ≡ none
unfolding replay_of
replay_of-fresh host none snapshot event h = refl
replay_of-fresh host (some p) snapshot event h = ground arith

keeps_other :
    (id other : String) (v : ProcessedEvent) (entries : List (String × ProcessedEvent))
    {e : ProcessedEvent}
    → own_value other entries ≡ none
    → own_value id entries ≡ some e
    → own_value id (with_entry other v entries) ≡ some e
keeps_other id other v entries fresh known = elim (Bool-cases (other == id)) [
  | inl same ↦ cc (sym fresh ∙ ap (λ k. own_value k entries) (eq_of_test same) ∙ known)
  | inr apart ↦ own_value-with_entry entries other id v ∙ (rw apart) ∙ known
]

module _ (host : Host) (compiler : PolicyCompiler) where
  applied-fresh :
      (s : KernelSnapshot) (event : EventEnvelope) (context : KernelContext) (t : Transition)
      → evaluate_transition host compiler s event context ≡ applied t
      → own_value event.id s.processed_events ≡ none
  unfolding check_replay
  applied-fresh s event context t done =
      replay_of-fresh host _ s event (passed host compiler s event context t done).fresh

  applied-keeps_entry :
      (s : KernelSnapshot) (event : EventEnvelope) (context : KernelContext) (t : Transition)
      (id : String) {e : ProcessedEvent}
      → evaluate_transition host compiler s event context ≡ applied t
      → own_value id s.processed_events ≡ some e
      → own_value id t.snapshot.processed_events ≡ some e
  unfolding next_snapshot
  applied-keeps_entry s event context t id done known =
      ap (λ n. own_value id n.processed_events)
        (committed host compiler s event context t done).snapshot_eq
      ∙ keeps_other id event.id _ s.processed_events (applied-fresh s event context t done) known

  -- A run keeps the entry of every event that was processed before it.
  pub Run-keeps_entry :
      {s last : KernelSnapshot} {receipts : List TransitionReceipt} (id : String)
      (e : ProcessedEvent)
      → Run host compiler s receipts last
      → own_value id s.processed_events ≡ some e
      → own_value id last.processed_events ≡ some e
  Run-keeps_entry id e stop known = known
  Run-keeps_entry id e (step {s} event context t done rest) known =
      Run-keeps_entry id e rest (applied-keeps_entry s event context t id done known)

  -- Once an event is applied, no event of its identity is applied again at any snapshot that a
  -- run of later transitions reaches, whatever its content and the context.
  pub Run-applies_once :
      (s last : KernelSnapshot) (event again : EventEnvelope) (context later : KernelContext)
      (t u : Transition) (receipts : List TransitionReceipt)
      → evaluate_transition host compiler s event context ≡ applied t
      → Run host compiler t.snapshot receipts last
      → again.id ≡ event.id
      → evaluate_transition host compiler last again later ≢ applied u
  Run-applies_once s last event again context later t u receipts done run same twice =
      let (e, known, same_event, same_delivery, same_receipt) =
        applied-recorded host compiler s event context t done in
      let still = Run-keeps_entry event.id e run known in
      let fresh = applied-fresh last again later u twice in
      cc (sym still ∙ ap (λ k. own_value k last.processed_events) (sym same) ∙ fresh)
