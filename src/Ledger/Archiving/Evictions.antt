-- ===== src/Ledger/Archiving/Evictions.antt =====
-- What a pass of the archive may evict from the hot events.
use snaplink_audit_governanc.Prelude.{
  if◌then◌else◌, ℕ, ◌≡◌, inl, inr, refl, String, List, [], ◌∷◌, ◌++◌, Table, Bool-cases, All,
}
use snaplink_audit_governanc.Prelude.Texts.{codes}
use snaplink_audit_governanc.Domain.Errors.{ok, err, invalid}
use snaplink_audit_governanc.Domain.Errors.Yields.{
  Yields, Yields-ok, Yields-check, Yields-err, Yields-then, Yields-self,
}
use snaplink_audit_governanc.Domain.Identifiers.{require_tenant_scope}
use snaplink_audit_governanc.Ledger.Models.{Event, DeadLetter, LedgerData, Evidence, framed_key}
use snaplink_audit_governanc.Ledger.Archiving.{
  Put, stored, key_too_long, object_conflict, failed_for_now, Archive, event_result, archive_events,
  archive_segments, archive_pending, capture_events, capture_segments, nothing_to_mark,
  write_outcome,
}
use snaplink_audit_governanc.Ledger.Archiving.Marks.{IsStored, Archives, Archives-refl}
use snaplink_audit_governanc.Ledger.Archiving.Passes.{archive_closure-Archives}

-- Every event that the loop counts as archived was stored.
abbrev AreStored : Archive → String → List Event × Table DeadLetter → Type 0
AreStored archive tenant outcome =
    All (λ event. IsStored archive tenant (framed_key tenant event.event_id)) outcome.0

All-snoc :
    (Q : Event → Type 0) (events : List Event) (event : Event)
    → All Q events
    → Q event
    → All Q (events ++ event ∷ [])
All-snoc Q [] event h q = (q, tt)
All-snoc Q (first ∷ events) event (p, h) q = (p, All-snoc Q events event h q)

event_result-AreStored :
    (archive : Archive) (tenant : String) (now : ℕ) (event : Event) (put : Put)
    (outcome : List Event × Table DeadLetter)
    → archive.put_event event ≡ put
    → AreStored archive tenant outcome
    → Yields (AreStored archive tenant) (event_result tenant now event put outcome)
event_result-AreStored archive tenant now event stored (done, dead) e h = Yields-ok (
    All-snoc (λ event. IsStored archive tenant (framed_key tenant event.event_id)) done event h
      (record { event = event; framed = refl; put = e }))
event_result-AreStored archive tenant now event (key_too_long message) (done, dead) e h =
    Yields-ok h
event_result-AreStored archive tenant now event (object_conflict message) (done, dead) e h =
    Yields-ok h
event_result-AreStored archive tenant now event failed_for_now (done, dead) e h = Yields-err

archive_events-AreStored :
    (archive : Archive) (tenant : String) (now : ℕ) (events : List Event)
    (outcome : List Event × Table DeadLetter)
    → AreStored archive tenant outcome
    → Yields (AreStored archive tenant) (archive_events archive tenant now events outcome)
unfolding archive_events
archive_events-AreStored archive tenant now [] outcome h = Yields-ok h
archive_events-AreStored archive tenant now (event ∷ others) outcome h =
    Yields-then (event_result tenant now event (archive.put_event event) outcome) _
      (event_result-AreStored archive tenant now event (archive.put_event event) outcome refl h)
      (λ later g. archive_events-AreStored archive tenant now others later g)

-- Whatever happened to the ledger between the read of a pass and its write: the body of a hot event
-- goes only if its receipt is archived afterwards; a receipt becomes archived only if this pass stored
-- its event in the archive; and no archived receipt is taken back.
pub archive_pending-Archives :
    (v : Evidence) (archive : Archive) (tenant : String) (now : ℕ) (seen data_ : LedgerData)
    → Yields
        (Archives (IsStored archive tenant) data_)
        (archive_pending v archive tenant now seen data_)
unfolding archive_pending
archive_pending-Archives v archive tenant now seen data_ =
    Yields-then (require_tenant_scope (codes tenant)) _
      (Yields-self (require_tenant_scope (codes tenant)))
      (λ scoped any_. Yields-check (if archive.configured then ok tt else err invalid) _ (λ ready.
        Yields-then
          (archive_segments v archive tenant now (capture_segments v tenant seen seen.segments) [])
          _
          (Yields-self (
            archive_segments v archive tenant now (capture_segments v tenant seen seen.segments)
              []))
          (λ lost any_.
            Yields-then
              (archive_events archive tenant now (capture_events tenant seen seen.events).1
                ([], lost))
              _
              (archive_events-AreStored archive tenant now
                (capture_events tenant seen seen.events).1 ([], lost) tt)
              (λ outcome done. written outcome done))))
  where
    written :
        (outcome : List Event × Table DeadLetter)
        → AreStored archive tenant outcome
        → Yields
            (Archives (IsStored archive tenant) data_)
            (write_outcome tenant now (capture_events tenant seen seen.events).0 outcome data_)
    written (done, dead) h =
        elim (Bool-cases (nothing_to_mark (capture_events tenant seen seen.events).0 done dead)) [
          | inl idle ↦ rw idle (Yields-ok (Archives-refl (IsStored archive tenant) data_))
          | inr busy ↦ rw busy (
              archive_closure-Archives (IsStored archive tenant) tenant now
                (capture_events tenant seen seen.events).0 done dead data_ h)
        ]
