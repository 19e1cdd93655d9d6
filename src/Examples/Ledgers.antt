-- ===== src/Examples/Ledgers.antt =====
-- The evidence ledger at concrete inputs: two events of one stream, a segment size of two.
use snaplink_audit_governanc.Prelude.{
  ℕ, zero, suc, ◌≡◌, refl, ap, sym, ◌∙◌, String, true, List, [], ◌∷◌, ◌++◌, ◌+++◌, arith, length,
  lookup, insert, every, ◌==◌, eq_refl,
}
use snaplink_audit_governanc.Prelude.Texts.{codes}
use snaplink_audit_governanc.Domain.Errors.{Result, ok, err, failure}
use snaplink_audit_governanc.Domain.Identifiers.{
  require_tenant_scope, valid_tenant_id_component, valid_key_component, is_bad_rune, is_control,
  is_space, valid_archive_component_length, byte_len, rune_len,
}
use snaplink_audit_governanc.Ledger.{merkle_root, merkle_loop, next_level}
use snaplink_audit_governanc.Ledger.Models.{
  Event, SourceSystem, allows_client, Evidence, new_ledger, framed_key,
}
use snaplink_audit_governanc.Ledger.Keys.{codes-append, codes-injective}
use snaplink_audit_governanc.Ledger.Verify.{
  verify_evidence, check_chain, check_event, content_valid, match_content_digest, captured_events,
  captured_segments,
}
use snaplink_audit_governanc.Ledger.Verify.Tampering.{HaveSameLinks, check_chain-determines}
use snaplink_audit_governanc.Ledger.Chain.{
  event_hash, event_digest, content_digest, content_fields, seal_segment, advanced, manifest,
}
use snaplink_audit_governanc.Ledger.Ingest.{
  ingest, resolve_ingest_scope, resolve_ingest_tenant, resolve_loop, ingest_resolved, stamped_event,
  ingest_closure, check_existing_ingest, check_archived, idempotency_key_reused, append_event,
  derived_stream, current_stream, append_hashed, record_event, ledgered_receipt, seal_full,
  store_seal, source_access_allowed,
}
use snaplink_audit_governanc.Ledger.Seal.{seal_pending_segments, seal_loop, seal_round, seal_entry}
use snaplink_audit_governanc.Ledger.Linked.Histories.{
  LedgerStep, ingests, seals, registers, take_steps, take_step, take_steps-verify_evidence,
}

-- Texts and numbers in front of a text, so that they can be read back.
abbrev pub pack : String → String → String
pack String.[] t = "." +++ t
pack (String.◌∷◌ c s) t = "x" +++ String.◌∷◌ c (pack s t)

abbrev pub pack_number : ℕ → String → String
pack_number zero t = "." +++ t
pack_number (suc n) t = "x" +++ pack_number n t

abbrev pub demo_evidence : Evidence
demo_evidence = record {
  segment_size = 2;
  has_publisher = true;
  hash_bytes = λ text. text;
  event_json = λ event. ok event.body;
  link_json = λ d p n s. pack d (pack p (pack_number n s));
  format_int = λ n. pack_number n "";
  sign = λ text. ok text;
  verify = λ text signature. ok (text == signature);
  algorithm = "demo";
  reconstruct_event = λ event. ok event;
  legacy_json = λ event. err failure;
  archived_event = λ receipt. err failure;
}

abbrev demo_source : SourceSystem
demo_source = record {
  id = "erp";
  tenant_id = "acme";
  name = "ERP";
  allowed_client_ids = [];
  active = true;
  created_at = 1;
}

abbrev pub demo_event : String → Event
demo_event id = record {
  event_id = id;
  tenant_id = "acme";
  source_system = "erp";
  event_type = "order.created";
  schema_id = "order";
  schema_version = 1;
  occurred_at = 5;
  received_at = 0;
  operation_id = "";
  aggregate_type = "";
  aggregate_id = "";
  action = "create";
  outcome = "success";
  body = "{}";
  source_digest = "";
  idempotency_key = id;
  stream_id = "";
  sequence = 0;
  prev_hash = "";
  hash = "";
}

same_texts : (a b : String) → ◌≡◌ {A = Result String} (ok a) (ok b) → a ≡ b
same_texts a b h = cc

demo_signer :
    (text signature : String)
    → demo_evidence.sign text ≡ ok signature
    → demo_evidence.verify text signature ≡ ok true
demo_signer text signature h =
    ap ok (ap (λ s. text == s) (sym (same_texts text signature h)) ∙ eq_refl text)

unfoldable demo_steps : List LedgerStep
unfolding framed_key
demo_steps =
    registers ((framed_key "acme" "erp", demo_source) ∷ [])
    ∷ ingests (λ event. ok event.body) "c1" 10 "" "erp" (demo_event "e1")
    ∷ seals (λ key. key) 20 "acme"
    ∷ ingests (λ event. ok event.body) "c2" 30 "" "erp" (demo_event "e2")
    ∷ []

pub acme_scope : require_tenant_scope (codes "acme") ≡ ok tt
unfolding require_tenant_scope valid_tenant_id_component valid_key_component is_bad_rune is_control
    is_space valid_archive_component_length byte_len rune_len
acme_scope = refl

demo_intact :
    every
      (content_valid demo_evidence)
      (captured_events "acme" "acme:source:erp" (take_steps demo_evidence demo_steps new_ledger))
    ≡ true
unfolding demo_steps take_steps take_step ingest resolve_ingest_scope resolve_ingest_tenant
    resolve_loop allows_client ingest_resolved stamped_event content_digest content_fields
    ingest_closure check_existing_ingest check_archived idempotency_key_reused append_event
    derived_stream current_stream event_hash event_digest append_hashed advanced record_event
    ledgered_receipt seal_full seal_segment store_seal seal_pending_segments seal_loop seal_round
    seal_entry merkle_root merkle_loop next_level framed_key lookup insert captured_segments
    source_access_allowed require_tenant_scope valid_tenant_id_component valid_key_component
    is_bad_rune is_control is_space valid_archive_component_length byte_len rune_len manifest
    content_valid match_content_digest
demo_intact = refl

take_steps-verify_evidence_example :
    verify_evidence demo_evidence
      (captured_events "acme" "acme:source:erp" (take_steps demo_evidence demo_steps new_ledger))
      (captured_segments "acme" "acme:source:erp" (take_steps demo_evidence demo_steps new_ledger))
    ≡ []
take_steps-verify_evidence_example =
    take_steps-verify_evidence demo_evidence demo_steps "acme" "acme:source:erp" acme_scope
      demo_signer demo_intact

-- Both events are recorded, the first of them in a segment.
demo_run :
    (length
        (captured_events "acme" "acme:source:erp" (take_steps demo_evidence demo_steps new_ledger))
      ≡ 2)
    × (length (
          captured_segments "acme" "acme:source:erp"
            (take_steps demo_evidence demo_steps new_ledger))
        ≡ 1)
unfolding demo_steps take_steps take_step ingest resolve_ingest_scope resolve_ingest_tenant
    resolve_loop allows_client ingest_resolved stamped_event content_digest content_fields
    ingest_closure check_existing_ingest check_archived idempotency_key_reused append_event
    derived_stream current_stream event_hash event_digest append_hashed advanced record_event
    ledgered_receipt seal_full seal_segment store_seal seal_pending_segments seal_loop seal_round
    seal_entry merkle_root merkle_loop next_level framed_key lookup insert captured_segments
    source_access_allowed require_tenant_scope valid_tenant_id_component valid_key_component
    is_bad_rune is_control is_space valid_archive_component_length byte_len rune_len manifest
demo_run = (refl, refl)

-- A mark in front of a text can be read back.
after_mark : (m t t' : String) (c : ℕ) → codes m ≡ c ∷ [] → m +++ t ≡ m +++ t' → t ≡ t'
after_mark m t t' c one h =
    let all : c ∷ codes t ≡ c ∷ codes t' =
      ap (λ l. l ++ codes t) (sym one)
      ∙ sym (codes-append m t)
      ∙ ap codes h
      ∙ codes-append m t'
      ∙ ap (λ l. l ++ codes t') one in
    codes-injective t t' cc

marks_differ : (t t' : String) → "." +++ t ≡ "x" +++ t' → ⊥
marks_differ t t' h =
    let all : b'.' ∷ codes t ≡ b'x' ∷ codes t' =
      sym (codes-append "." t) ∙ ap codes h ∙ codes-append "x" t' in
    let first : ◌≡◌ {A = ℕ} b'.' b'x' = cc in omega (arith, first)

pack-injective : (s t s' t' : String) → pack s t ≡ pack s' t' → (s ≡ s') × (t ≡ t')
pack-injective String.[] t String.[] t' h = (refl, after_mark "." t t' b'.' refl h)
pack-injective String.[] t (String.◌∷◌ c s') t' h =
    absurd (marks_differ t (String.◌∷◌ c (pack s' t')) h)
pack-injective (String.◌∷◌ c s) t String.[] t' h =
    absurd (marks_differ t' (String.◌∷◌ c (pack s t)) (sym h))
pack-injective (String.◌∷◌ c s) t (String.◌∷◌ d s') t' h =
    let rest : String.◌∷◌ c (pack s t) ≡ String.◌∷◌ d (pack s' t') =
      after_mark "x" (String.◌∷◌ c (pack s t)) (String.◌∷◌ d (pack s' t')) b'x' refl h in
    let same : c ≡ d = cc in
    let (texts, tails) = pack-injective s t s' t' cc in (λ i. String.◌∷◌ (same i) (texts i), tails)

pack_number-injective :
    (n : ℕ) (t : String) (n' : ℕ) (t' : String)
    → pack_number n t ≡ pack_number n' t'
    → (n ≡ n') × (t ≡ t')
pack_number-injective zero t zero t' h = (refl, after_mark "." t t' b'.' refl h)
pack_number-injective zero t (suc n') t' h = absurd (marks_differ t (pack_number n' t') h)
pack_number-injective (suc n) t zero t' h = absurd (marks_differ t' (pack_number n t) (sym h))
pack_number-injective (suc n) t (suc n') t' h =
    let (p, q) =
      pack_number-injective n t n' t'
        (after_mark "x" (pack_number n t) (pack_number n' t') b'x' refl h) in
    (ap suc p, q)

link_injective :
    (d p : String) (n : ℕ) (s d' p' : String) (n' : ℕ) (s' : String)
    → demo_evidence.link_json d p n s ≡ demo_evidence.link_json d' p' n' s'
    → (d ≡ d') × (p ≡ p') × (n ≡ n') × (s ≡ s')
link_injective d p n s d' p' n' s' h =
    let (digests, rest) =
      pack-injective d (pack p (pack_number n s)) d' (pack p' (pack_number n' s')) h in
    let (prevs, last) = pack-injective p (pack_number n s) p' (pack_number n' s') rest in
    let (numbers, streams) = pack_number-injective n s n' s' last in
    (digests, prevs, numbers, streams)

-- A record of one event, with the time at which it was received.
abbrev pub linked_event : ℕ → Event
linked_event received = record (demo_event "e1") {
  received_at = received;
  source_digest = "{}";
  stream_id = "s";
  sequence = 1;
  hash = pack "{}" (pack "" (pack_number 1 "s"));
}

linked_event-clean :
    (received : ℕ) → check_chain demo_evidence "s" "" (linked_event received ∷ []) ≡ []
unfolding check_chain check_event event_hash event_digest content_valid match_content_digest
    content_digest content_fields
linked_event-clean received = refl

same_body :
    (x y : Event) (text : String)
    → demo_evidence.event_json x ≡ ok text
    → demo_evidence.event_json y ≡ ok text
    → x.body ≡ y.body
same_body x y text h k = cc

check_chain-determines_example :
    (◌≡◌ {A = String} "" "")
    × HaveSameLinks demo_evidence (λ event. event.body) (linked_event 1 ∷ []) (linked_event 2 ∷ [])
check_chain-determines_example =
    check_chain-determines demo_evidence (λ event. event.body) (λ s t h. h) link_injective same_body
      "s" "s" "" "" (linked_event 1 ∷ []) (linked_event 2 ∷ []) refl (linked_event-clean 1)
      (linked_event-clean 2) refl
