-- ===== src/Ledger/Linked/Ingests.antt =====
-- Ingest keeps every stream of the ledger linked, whether it records, repeats or refuses.
use snaplink_audit_governanc.Prelude.{
  ◌≡◌, ◌≢◌, refl, ap, ◌∙◌, String, false, List, [], ◌∷◌, ◌++◌, Option, none, some, lookup,
  lookup-insert, length, leb, ◌==◌, eq_refl, if◌then◌else◌, Bool-cases, inl, inr,
}
use snaplink_audit_governanc.Prelude.Texts.{codes}
use snaplink_audit_governanc.Domain.Errors.{Result, ok, err}
use snaplink_audit_governanc.Domain.Identifiers.{require_tenant_scope}
use snaplink_audit_governanc.Ledger.Models.{Event, StreamState, LedgerData, Evidence, framed_key}
use snaplink_audit_governanc.Ledger.Chain.{
  content_fields, content_digest, event_digest, event_hash, signed_seal, seal_segment,
  sealed_checkpoint, manifest_hash_of, advanced, placed,
}
use snaplink_audit_governanc.Ledger.Ingest.{
  data_after, record_event, finish_seal, seal_full, append_hashed, append_event, derived_stream,
}
use snaplink_audit_governanc.Ledger.Linked.{IsLinkedView, tip_of}
use snaplink_audit_governanc.Ledger.Verify.{captured_events, captured_segments}
use snaplink_audit_governanc.Ledger.Linked.Keeps.{IsLinked, IsLedger, current_stream-tip_of}
use snaplink_audit_governanc.Ledger.Linked.Writes.{record_event-IsLedger, store_seal-IsLedger}

-- The hash does not depend on the field that it is written to.
event_hash-hashed :
    (v : Evidence) (event : Event) (hash : String)
    → event_hash v (record event { hash = hash }) ≡ event_hash v event
unfolding event_hash event_digest content_digest content_fields
event_hash-hashed v event hash = refl

snoc≢[] : (hashes : List String) (hash : String) → hashes ++ hash ∷ [] ≢ []
snoc≢[] [] hash h = cc
snoc≢[] (first ∷ hashes) hash h = cc

seal_full-IsLedger :
    (v : Evidence) (fresh key : String) (st : StreamState) (event : Event)
    (data_ before : LedgerData)
    → IsLedger v before
    → IsLedger v data_
    → lookup key data_.streams ≡ some st
    → require_tenant_scope (codes st.tenant_id) ≡ ok tt
    → st.pending_hashes ≢ []
    → IsLedger v (data_after before (seal_full v fresh key st event data_))
unfolding seal_full seal_segment
seal_full-IsLedger v fresh key st event data_ before kept ledger found scope some_ =
    elim (Bool-cases (leb v.segment_size (length st.pending_hashes))) [
      | inr short ↦ rw short ledger
      | inl full ↦ rw full (sealed (v.sign (manifest_hash_of v st)) refl)
    ]
  where
    sealed :
        (signed : Result String)
        → v.sign (manifest_hash_of v st) ≡ signed
        → IsLedger v (
            data_after before
              (finish_seal key st event data_ (signed_seal v fresh st event.received_at signed)))
    sealed (err e) h = kept
    sealed (ok signature) h =
        store_seal-IsLedger v data_ ledger key st event.received_at signature
          (sealed_checkpoint v fresh st event.received_at signature) found scope some_ h

record_event-stream :
    (v : Evidence) (key stream_key : String) (st : StreamState) (event : Event) (data_ : LedgerData)
    → lookup stream_key (record_event v key stream_key st event data_).streams ≡ some st
unfolding record_event
record_event-stream v key stream_key st event data_ =
    lookup-insert stream_key stream_key st data_.streams
    ∙ ap (λ b. if b then some st else lookup stream_key data_.streams) (eq_refl stream_key)

-- The tip that an event is placed at belongs to the event's stream.
tip_of-owner :
    (v : Evidence) (tenant stream : String) (data_ : LedgerData)
    → IsLinked v tenant stream data_
    → (let tip = tip_of tenant stream (lookup (framed_key tenant stream) data_.streams) in
        (tip.tenant_id ≡ tenant) × (tip.stream_id ≡ stream))
tip_of-owner v tenant stream data_ l = owner (lookup (framed_key tenant stream) data_.streams) l
  where
    owner :
        (state : Option StreamState)
        → IsLinkedView v tenant stream
            (captured_events tenant stream data_)
            state
            (captured_segments tenant stream data_)
        → ((tip_of tenant stream state).tenant_id ≡ tenant)
          × ((tip_of tenant stream state).stream_id ≡ stream)
    owner none l = (refl, refl)
    owner (some st) l = (l.tip.tenant_id, l.tip.stream_id)

module _ (v : Evidence) (fresh key : String) (data_ : LedgerData) (ledger : IsLedger v data_)
    (unseen : lookup key data_.events ≡ none) where
  append_hashed-IsLedger :
      (tip : StreamState) (event : Event) (hashed : Result String)
      → require_tenant_scope (codes event.tenant_id) ≡ ok tt
      → tip
        ≡ tip_of event.tenant_id event.stream_id
            (lookup (framed_key event.tenant_id event.stream_id) data_.streams)
      → tip.tenant_id ≡ event.tenant_id
      → tip.stream_id ≡ event.stream_id
      → event.sequence ≡ tip.next_sequence
      → event.prev_hash ≡ tip.head_hash
      → event_hash v event ≡ hashed
      → IsLedger v (
          data_after data_ (
            append_hashed v fresh key
              (framed_key event.tenant_id event.stream_id)
              tip
              event
              data_
              hashed))
  unfolding append_hashed advanced
  append_hashed-IsLedger tip event (err e) scope at ht hs hq hp hh = ledger
  append_hashed-IsLedger tip event (ok hash) scope at ht hs hq hp hh =
      seal_full-IsLedger v fresh (framed_key event.tenant_id event.stream_id)
        (advanced tip key hash) (record event { hash = hash })
        (record_event v key (framed_key event.tenant_id event.stream_id) (advanced tip key hash)
          (record event { hash = hash }) data_)
        data_ ledger
        (record_event-IsLedger v data_ ledger key tip (record event { hash = hash }) unseen scope at
          ht hs hq hp (event_hash-hashed v event hash ∙ hh))
        (record_event-stream v key (framed_key event.tenant_id event.stream_id)
          (advanced tip key hash) (record event { hash = hash }) data_)
        (ap (λ t. require_tenant_scope (codes t)) ht ∙ scope) (snoc≢[] tip.pending_hashes hash)

  -- Recording an event that the ledger does not hold yet keeps all streams linked.
  pub append_event-IsLedger :
      (event : Event)
      → require_tenant_scope (codes event.tenant_id) ≡ ok tt
      → (derived_stream event == "") ≡ false
      → IsLedger v (data_after data_ (append_event v fresh key event data_))
  unfolding append_event
  append_event-IsLedger event scope named =
      rw (current_stream-tip_of v event.tenant_id (derived_stream event) data_ named own) (
        append_hashed-IsLedger
          (tip_of event.tenant_id (derived_stream event)
            (lookup (framed_key event.tenant_id (derived_stream event)) data_.streams))
          (placed (derived_stream event)
            (tip_of event.tenant_id (derived_stream event)
              (lookup (framed_key event.tenant_id (derived_stream event)) data_.streams))
            event)
          (event_hash v (
            placed (derived_stream event)
              (tip_of event.tenant_id (derived_stream event)
                (lookup (framed_key event.tenant_id (derived_stream event)) data_.streams))
              event))
          scope refl (tip_of-owner v event.tenant_id (derived_stream event) data_ own).0
          (tip_of-owner v event.tenant_id (derived_stream event) data_ own).1 refl refl refl)
    where
      own : IsLinked v event.tenant_id (derived_stream event) data_
      own = ledger.linked event.tenant_id (derived_stream event) scope
