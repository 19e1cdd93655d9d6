-- ===== src/Ledger/Linked/Histories.antt =====
-- Histories of ingests and seal passes: the evidence that they leave is accepted by VerifyIntegrity.
use snaplink_audit_governanc.Prelude.{
  ℕ, ◌≡◌, refl, String, true, List, [], ◌∷◌, Table, lookup, every,
}
use snaplink_audit_governanc.Prelude.Texts.{codes}
use snaplink_audit_governanc.Domain.Errors.{Result, ok}
use snaplink_audit_governanc.Domain.Identifiers.{require_tenant_scope}
use snaplink_audit_governanc.Ledger.Models.{Event, SourceSystem, LedgerData, Evidence, new_ledger}
use snaplink_audit_governanc.Ledger.Ingest.{ingest, data_after}
use snaplink_audit_governanc.Ledger.Seal.{seal_pending_segments, sealed_after}
use snaplink_audit_governanc.Ledger.Verify.{
  content_valid, verify_evidence, captured_events, captured_segments,
}
use snaplink_audit_governanc.Ledger.Verify.Accepts.{verify_evidence-accepts}
use snaplink_audit_governanc.Ledger.Linked.Keeps.{IsLedger}
use snaplink_audit_governanc.Ledger.Linked.Requests.{ingest-IsLedger}
use snaplink_audit_governanc.Ledger.Linked.Steps.{seal_pending_segments-IsLedger}

-- One committed or refused update of the ledger: an ingest with its identifier and clock, the tenant
-- hint, the client and the event; a pass that seals the pending hashes of a tenant; or whatever the
-- administration makes of the registered sources.
pub data LedgerStep : Type 0 where
  ingests : (Event → Result String) → String → ℕ → String → String → Event → LedgerStep
  seals : (String → String) → ℕ → String → LedgerStep
  registers : Table SourceSystem → LedgerStep

unfoldable pub take_step : Evidence → LedgerStep → LedgerData → LedgerData
take_step v (ingests prepare fresh now hint client event) data_ =
    data_after data_ (ingest v prepare fresh now hint client event data_)
take_step v (seals fresh now tenant) data_ =
    sealed_after data_ (seal_pending_segments v fresh now tenant data_)
take_step v (registers sources) data_ = record data_ { sources = sources }

unfoldable pub take_steps : Evidence → List LedgerStep → LedgerData → LedgerData
unfolding take_step
take_steps v [] data_ = data_
take_steps v (step ∷ steps) data_ = take_steps v steps (take_step v step data_)

take_step-IsLedger :
    (v : Evidence) (step : LedgerStep) (data_ : LedgerData)
    → IsLedger v data_
    → IsLedger v (take_step v step data_)
unfolding take_step captured_segments
take_step-IsLedger v (ingests prepare fresh now hint client event) data_ ledger =
    ingest-IsLedger v fresh data_ ledger prepare now hint client event
take_step-IsLedger v (seals fresh now tenant) data_ ledger =
    seal_pending_segments-IsLedger v fresh now tenant data_ ledger
take_step-IsLedger v (registers sources) data_ ledger = record {
  linked = ledger.linked;
  keyed = ledger.keyed;
}

take_steps-IsLedger :
    (v : Evidence) (steps : List LedgerStep) (data_ : LedgerData)
    → IsLedger v data_
    → IsLedger v (take_steps v steps data_)
unfolding take_steps
take_steps-IsLedger v [] data_ ledger = ledger
take_steps-IsLedger v (step ∷ steps) data_ ledger =
    take_steps-IsLedger v steps (take_step v step data_) (take_step-IsLedger v step data_ ledger)

new_ledger-IsLedger : (v : Evidence) → IsLedger v new_ledger
unfolding lookup captured_segments
new_ledger-IsLedger v = record {
  linked = λ tenant stream h. record {
    sealed = [];
    pending = [];
    parts = refl;
    chain = tt;
    tip = (refl, refl);
    covers = tt;
  };
  keyed = λ key st found. absurd cc;
}

-- Whatever is ingested and sealed, the evidence of every stream of an accepted tenant is found valid,
-- if the signer verifies what it signed and the protected contents of the stream's events are intact:
-- each event follows the one before it by hash, and each segment has the Merkle root, the bounds, the
-- manifest and the signature of the events that it spans.
pub take_steps-verify_evidence :
    (v : Evidence) (steps : List LedgerStep) (tenant stream : String)
    → require_tenant_scope (codes tenant) ≡ ok tt
    → ((text signature : String) → v.sign text ≡ ok signature → v.verify text signature ≡ ok true)
    → every (content_valid v) (captured_events tenant stream (take_steps v steps new_ledger)) ≡ true
    → verify_evidence v
        (captured_events tenant stream (take_steps v steps new_ledger))
        (captured_segments tenant stream (take_steps v steps new_ledger))
      ≡ []
take_steps-verify_evidence v steps tenant stream scope signer content =
    let linked =
      (take_steps-IsLedger v steps new_ledger (new_ledger-IsLedger v)).linked tenant stream scope in
    verify_evidence-accepts v tenant stream (take_steps v steps new_ledger) signer linked.chain
      linked.covers content
