-- ===== src/Examples/Archives.antt =====
-- A pass of the archive at concrete inputs: one event with its receipt, and one segment.
use snaplink_audit_governanc.Prelude.{true, ◌≡◌, ◌≢◌, refl, [], ◌∷◌}
use snaplink_audit_governanc.Prelude.Texts.{codes}
use snaplink_audit_governanc.Domain.Errors.{ok}
use snaplink_audit_governanc.Domain.Errors.Yields.{Yields}
use snaplink_audit_governanc.Domain.Identifiers.{
  valid_key_component, is_bad_rune, is_control, is_space,
}
use snaplink_audit_governanc.Ledger.Models.{
  EventReceipt, ledgered, Segment, LedgerData, new_ledger, no_receipt, framed_key,
}
use snaplink_audit_governanc.Ledger.Archiving.{
  Archive, stored, key_too_long, archive_pending, segment_dead_letter_key,
}
use snaplink_audit_governanc.Ledger.Archiving.Marks.{Archives, IsStored}
use snaplink_audit_governanc.Ledger.Archiving.Evictions.{archive_pending-Archives}
use snaplink_audit_governanc.Ledger.Archiving.DeadLetters.{segment_dead_letter_key-apart}
use snaplink_audit_governanc.Examples.Ledgers.{demo_evidence, linked_event, acme_scope}

abbrev demo_archive : Archive
demo_archive = record {
  configured = true;
  put_event = λ event. stored;
  put_segment = λ segment. key_too_long "long";
}

abbrev pub demo_receipt : EventReceipt
demo_receipt = record no_receipt { event_id = "e1"; tenant_id = "acme"; status = ledgered }

unfoldable hot_ledger : LedgerData
unfolding framed_key
hot_ledger = record new_ledger {
  events = (framed_key "acme" "e1", linked_event 1) ∷ [];
  receipts = (framed_key "acme" "e1", demo_receipt) ∷ [];
}

archive_pending-Archives_example :
    Yields
      (Archives (IsStored demo_archive "acme") hot_ledger)
      (archive_pending demo_evidence demo_archive "acme" 50 hot_ledger hot_ledger)
archive_pending-Archives_example =
    archive_pending-Archives demo_evidence demo_archive "acme" 50 hot_ledger hot_ledger

abbrev pub demo_segment : Segment
demo_segment = record {
  tenant_id = "acme";
  stream_id = "s";
  first_sequence = 1;
  last_sequence = 2;
  first_prev_hash = "";
  last_hash = "h";
  event_count = 2;
  merkle_root = "r";
  manifest_hash = "m";
  signature = "g";
  created_at = 1;
}

e1_valid : valid_key_component (codes "e1") ≡ ok tt
unfolding valid_key_component is_bad_rune is_control is_space
e1_valid = refl

segment_dead_letter_key-apart_example :
    framed_key "acme" "e1" ≢ segment_dead_letter_key demo_evidence demo_segment
segment_dead_letter_key-apart_example =
    segment_dead_letter_key-apart demo_evidence demo_segment "acme" "e1" acme_scope acme_scope
      e1_valid
