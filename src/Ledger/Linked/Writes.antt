-- ===== src/Ledger/Linked/Writes.antt =====
-- The two writes of the ledger, as operations on all streams: an event is recorded, a stream is sealed.
use snaplink_audit_governanc.Prelude.{
  ℕ, ◌≡◌, ◌≢◌, ap, sym, ◌∙◌, subst, String, Bool, true, false, List, [], ◌∷◌, ◌++◌, Option, none,
  some, Table, lookup, insert, lookup-insert, get_or, arith, ◌==◌, eq_iff, eq_refl, if◌then◌else◌,
  Bool-cases, inl, inr,
}
use snaplink_audit_governanc.Prelude.Texts.{codes}
use snaplink_audit_governanc.Domain.Errors.{ok}
use snaplink_audit_governanc.Domain.Identifiers.{require_tenant_scope}
use snaplink_audit_governanc.Ledger.Models.{
  Event, Segment, Checkpoint, StreamState, LedgerData, Evidence, framed_key,
}
use snaplink_audit_governanc.Ledger.Chain.{
  event_hash, sealed_segment, manifest_hash_of, cleared, advanced,
}
use snaplink_audit_governanc.Ledger.Ingest.{record_event, store_seal}
use snaplink_audit_governanc.Ledger.Verify.{is_of, captured_events, captured_segments}
use snaplink_audit_governanc.Ledger.Linked.{IsLinkedView, tip_of, IsLinkedView-sealed}
use snaplink_audit_governanc.Ledger.Linked.Keeps.{
  IsLinked, IsLedger, record_event-other, record_event-own,
}

state_key :
    (a b : StreamState)
    → ◌≡◌ {A = Option StreamState} (some a) (some b)
    → framed_key a.tenant_id a.stream_id ≡ framed_key b.tenant_id b.stream_id
state_key a b h = cc

keyed-insert :
    (written : String) (state : StreamState) (streams : Table StreamState)
    → written ≡ framed_key state.tenant_id state.stream_id
    → ((key : String) (st : StreamState)
        → lookup key streams ≡ some st
        → key ≡ framed_key st.tenant_id st.stream_id)
    → (key : String) (st : StreamState) → lookup key (insert written state streams) ≡ some st
    → key ≡ framed_key st.tenant_id st.stream_id
keyed-insert written state streams own keyed key st found = elim (Bool-cases (written == key)) [
  | inl same ↦
      let this : some state ≡ some st =
        ap (λ b. if b then some state else lookup key streams) (sym same)
        ∙ sym (lookup-insert written key state streams)
        ∙ found in
      sym ((eq_iff written key).0 same) ∙ own ∙ state_key state st this
  | inr differs ↦ keyed key st (
      ap (λ b. if b then some state else lookup key streams) (sym differs)
      ∙ sym (lookup-insert written key state streams)
      ∙ found)
]

abbrev stored : Option (List Segment) → List Segment
stored none = []
stored (some segments) = segments

get_or-insert :
    (key asked : String) (b : Bool) (value : List Segment) (table : Table (List Segment))
    → (key == asked) ≡ b
    → get_or asked [] (insert key value table) ≡ (if b then value else get_or asked [] table)
get_or-insert key asked true value table h =
    ap stored (
      lookup-insert key asked value table
      ∙ ap (λ c. if c then some value else lookup asked table) h)
get_or-insert key asked false value table h =
    ap stored (
      lookup-insert key asked value table
      ∙ ap (λ c. if c then some value else lookup asked table) h)

module _ (v : Evidence) (data_ : LedgerData) (ledger : IsLedger v data_) where
  -- An event that is placed at the tip of its stream and carries its hash.
  pub record_event-IsLedger :
      (key : String) (tip : StreamState) (event : Event)
      → lookup key data_.events ≡ none
      → require_tenant_scope (codes event.tenant_id) ≡ ok tt
      → tip
        ≡ tip_of event.tenant_id event.stream_id
            (lookup (framed_key event.tenant_id event.stream_id) data_.streams)
      → tip.tenant_id ≡ event.tenant_id
      → tip.stream_id ≡ event.stream_id
      → event.sequence ≡ tip.next_sequence
      → event.prev_hash ≡ tip.head_hash
      → event_hash v event ≡ ok event.hash
      → IsLedger v (
          record_event v key
            (framed_key event.tenant_id event.stream_id)
            (advanced tip key event.hash)
            event
            data_)
  unfolding record_event advanced
  record_event-IsLedger key tip event unseen scope at tenant_id stream_id hq hp hh = record {
    linked = λ tenant stream h. elim (Bool-cases (is_of tenant stream event)) [
      | inr other ↦
          record_event-other v key (advanced tip key event.hash) event data_ unseen tenant stream
            other h scope (ledger.linked tenant stream h)
      | inl same ↦
          at_own tenant stream (ground (arith, same, eq_iff event.tenant_id tenant))
            (ground (arith, same, eq_iff event.stream_id stream))
    ];
    keyed =
        keyed-insert (framed_key event.tenant_id event.stream_id) (advanced tip key event.hash)
          data_.streams
          (ap (λ t. framed_key t event.stream_id) (sym tenant_id)
            ∙ ap (λ s. framed_key tip.tenant_id s) (sym stream_id))
          ledger.keyed;
  }
    where
      after : LedgerData
      after =
          record_event v key (framed_key event.tenant_id event.stream_id)
            (advanced tip key event.hash) event data_

      at_own :
          (tenant stream : String)
          → event.tenant_id ≡ tenant
          → event.stream_id ≡ stream
          → IsLinked v tenant stream after
      at_own tenant stream p q =
          subst (λ t. IsLinked v t stream after) p
            (subst (λ s. IsLinked v event.tenant_id s after) q
              (record_event-own v key (advanced tip key event.hash) event data_ unseen
                (ledger.linked event.tenant_id event.stream_id scope)
                (ap (λ s. advanced s key event.hash) at)
                (hq ∙ ap {A = StreamState} (λ s. s.next_sequence) at)
                (hp ∙ ap {A = StreamState} (λ s. s.head_hash) at) hh))

  -- A stream with pending hashes is sealed under the signature of its manifest.
  pub store_seal-IsLedger :
      (key : String) (st : StreamState) (now : ℕ) (signature : String) (checkpoint : Checkpoint)
      → lookup key data_.streams ≡ some st
      → require_tenant_scope (codes st.tenant_id) ≡ ok tt
      → st.pending_hashes ≢ []
      → v.sign (manifest_hash_of v st) ≡ ok signature
      → IsLedger v (store_seal key st (sealed_segment v st now signature) checkpoint data_)
  unfolding store_seal captured_segments
  store_seal-IsLedger key st now signature checkpoint found scope some_ signed = record {
    linked = λ tenant stream h. elim (Bool-cases (key == framed_key tenant stream)) [
      | inr other ↦
          rw
            (
              lookup-insert key (framed_key tenant stream) (cleared st) data_.streams,
              get_or-insert key (framed_key tenant stream) false
                  (get_or key [] data_.segments ++ sealed_segment v st now signature ∷ [])
                  data_.segments other,
              other,
              captured_segments,
            )
            (ledger.linked tenant stream h)
      | inl same ↦ at_own tenant stream h ((eq_iff key (framed_key tenant stream)).0 same)
    ];
    keyed = keyed-insert key (cleared st) data_.streams (ledger.keyed key st found) ledger.keyed;
  }
    where
      at_own :
          (tenant stream : String)
          → require_tenant_scope (codes tenant) ≡ ok tt
          → key ≡ framed_key tenant stream
          → IsLinked v tenant stream
              (store_seal key st (sealed_segment v st now signature) checkpoint data_)
      at_own tenant stream h e =
          rw
            (
              e,
              lookup-insert (framed_key tenant stream) (framed_key tenant stream) (cleared st)
                  data_.streams,
              eq_refl (framed_key tenant stream),
              get_or-insert (framed_key tenant stream) (framed_key tenant stream) true
                  (get_or (framed_key tenant stream) [] data_.segments
                    ++ sealed_segment v st now signature ∷ [])
                  data_.segments (eq_refl (framed_key tenant stream)),
            )
            (IsLinkedView-sealed v tenant stream now (captured_events tenant stream data_) st
              (captured_segments tenant stream data_) signature
              (subst
                (λ o.
                  IsLinkedView v tenant stream (captured_events tenant stream data_) o
                    (captured_segments tenant stream data_))
                (ap (λ k. lookup k data_.streams) (sym e) ∙ found) (ledger.linked tenant stream h))
              some_ signed)
