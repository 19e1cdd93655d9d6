-- ===== src/Ledger/Linked/Keeps.antt =====
-- The writes of Ingest and of SealPendingSegments keep the invariant of every stream of the ledger.
use mathlib.Core.List.{append-nil}
use snaplink_audit_governanc.Prelude.{
  ℕ, ◌≡◌, refl, ap, ◌∙◌, String, Bool, false, ◌&&◌, List, [], ◌∷◌, ◌++◌, Option, none, some, Table,
  lookup, insert, lookup-insert, filter, arith, ◌==◌, eq_iff, eq_refl, if◌then◌else◌, Bool-cases,
  inl, inr,
}
use snaplink_audit_governanc.Prelude.Texts.{codes}
use snaplink_audit_governanc.Domain.Errors.{ok}
use snaplink_audit_governanc.Domain.Identifiers.{
  require_tenant_scope, valid_tenant_id_component, valid_key_component,
}
use snaplink_audit_governanc.Ledger.Models.{Event, StreamState, LedgerData, Evidence, framed_key}
use snaplink_audit_governanc.Ledger.Chain.{event_hash, new_stream, advanced}
use snaplink_audit_governanc.Ledger.Ingest.{current_stream, record_event}
use snaplink_audit_governanc.Ledger.Keys.{framed_key-injective}
use snaplink_audit_governanc.Ledger.Verify.{is_of, hot_events, captured_events, captured_segments}
use snaplink_audit_governanc.Ledger.Linked.{IsLinkedView, tip_of, IsLinkedView-advanced}

abbrev pub IsLinked : Evidence → String → String → LedgerData → Type 0
IsLinked v tenant stream data_ =
    IsLinkedView v tenant stream (captured_events tenant stream data_)
      (lookup (framed_key tenant stream) data_.streams) (captured_segments tenant stream data_)

-- Every stream of every accepted tenant is linked, and stands under its own key.
pub record IsLedger (v : Evidence) (data_ : LedgerData) : Type 0 where
  pub linked :
      (tenant stream : String)
      → require_tenant_scope (codes tenant) ≡ ok tt
      → IsLinked v tenant stream data_
  pub keyed :
      (key : String) (st : StreamState)
      → lookup key data_.streams ≡ some st
      → key ≡ framed_key st.tenant_id st.stream_id

hot_events-insert :
    (key : String) (event : Event) (table : Table Event)
    → lookup key table ≡ none
    → hot_events (insert key event table) ≡ hot_events table ++ event ∷ []
unfolding lookup insert
hot_events-insert key event [] h = refl
hot_events-insert key event ((other, old) ∷ table) h = elim (Bool-cases (other == key)) [
  | inl same ↦ absurd (ground (arith, h, same))
  | inr differs ↦
      rw differs
        (ap (λ l. old ∷ l) (hot_events-insert key event table (ground (arith, h, differs))))
]

filter-snoc :
    (p : Event → Bool) (events : List Event) (event : Event)
    → filter p (events ++ event ∷ []) ≡ filter p events ++ (if p event then event ∷ [] else [])
filter-snoc p [] event = refl
filter-snoc p (first ∷ events) event = elim (Bool-cases (p first)) [
  | inl yes_ ↦ rw yes_ (ap (λ l. first ∷ l) (filter-snoc p events event))
  | inr no_ ↦ rw no_ (filter-snoc p events event)
]

scope_key :
    (tenant : List ℕ) → require_tenant_scope tenant ≡ ok tt → valid_key_component tenant ≡ ok tt
unfolding require_tenant_scope valid_tenant_id_component
scope_key [] h = ground (arith, h)
scope_key (r ∷ rs) h = ground (arith, h)

pub key_of_scope :
    (tenant : String)
    → require_tenant_scope (codes tenant) ≡ ok tt
    → valid_key_component (codes tenant) ≡ ok tt
key_of_scope tenant h = scope_key (codes tenant) h

-- Streams that differ stand under different keys.
pub framed_key-apart :
    (t s t' s' : String)
    → require_tenant_scope (codes t) ≡ ok tt
    → require_tenant_scope (codes t') ≡ ok tt
    → (t == t' && s == s') ≡ false
    → (framed_key t s == framed_key t' s') ≡ false
framed_key-apart t s t' s' h h' differs = elim (Bool-cases (framed_key t s == framed_key t' s')) [
  | inr apart ↦ apart
  | inl same ↦ absurd (
      ground (
        arith,
        differs,
        eq_iff t t',
        eq_iff s s',
        framed_key-injective t s t' s' (key_of_scope t h) (key_of_scope t' h')
            ((eq_iff (framed_key t s) (framed_key t' s')).0 same),
      ))
]

-- The stream that an event goes to is the tip of its log.
pub current_stream-tip_of :
    (v : Evidence) (tenant stream : String) (data_ : LedgerData)
    → (stream == "") ≡ false
    → IsLinked v tenant stream data_
    → current_stream data_ (framed_key tenant stream) tenant stream
      ≡ tip_of tenant stream (lookup (framed_key tenant stream) data_.streams)
unfolding current_stream
current_stream-tip_of v tenant stream data_ h l =
    tip_case (lookup (framed_key tenant stream) data_.streams) l
  where
    tip_case :
        (state : Option StreamState)
        → IsLinkedView v tenant stream
            (captured_events tenant stream data_)
            state
            (captured_segments tenant stream data_)
        → (elim state [
          | none ↦ new_stream tenant stream
          | some st ↦ if st.stream_id == "" then new_stream tenant stream else st
        ])
          ≡ tip_of tenant stream state
    tip_case none l = refl
    tip_case (some st) l = rw (ap (λ s. s == "") l.tip.stream_id ∙ h) refl

module _ (v : Evidence) (key : String) (state : StreamState) (event : Event) (data_ : LedgerData)
    (unseen : lookup key data_.events ≡ none) where
  captured_events-recorded :
      (stream_key tenant stream : String)
      → captured_events tenant stream (record_event v key stream_key state event data_)
        ≡ captured_events tenant stream data_
          ++ (if is_of tenant stream event then event ∷ [] else [])
  unfolding record_event
  captured_events-recorded stream_key tenant stream =
      ap (filter (is_of tenant stream)) (hot_events-insert key event data_.events unseen)
      ∙ filter-snoc (is_of tenant stream) (hot_events data_.events) event

  -- The events of another stream do not see the writes.
  pub record_event-other :
      (tenant stream : String)
      → is_of tenant stream event ≡ false
      → require_tenant_scope (codes tenant) ≡ ok tt
      → require_tenant_scope (codes event.tenant_id) ≡ ok tt
      → IsLinked v tenant stream data_
      → IsLinked v tenant stream
          (record_event v key (framed_key event.tenant_id event.stream_id) state event data_)
  unfolding record_event captured_segments
  record_event-other tenant stream other h h' l =
      rw
        (
          captured_events-recorded (framed_key event.tenant_id event.stream_id) tenant stream,
          lookup-insert (framed_key event.tenant_id event.stream_id) (framed_key tenant stream)
              state data_.streams,
          framed_key-apart event.tenant_id event.stream_id tenant stream h' h other,
          other,
          append-nil (captured_events tenant stream data_),
        )
        l

  -- The event becomes the head of its own stream.
  pub record_event-own :
      IsLinked v event.tenant_id event.stream_id data_
      → state
        ≡ advanced
            (tip_of event.tenant_id event.stream_id
              (lookup (framed_key event.tenant_id event.stream_id) data_.streams))
            key
            event.hash
      → event.sequence
        ≡ (tip_of event.tenant_id event.stream_id
            (lookup (framed_key event.tenant_id event.stream_id) data_.streams)).next_sequence
      → event.prev_hash
        ≡ (tip_of event.tenant_id event.stream_id
            (lookup (framed_key event.tenant_id event.stream_id) data_.streams)).head_hash
      → event_hash v event ≡ ok event.hash
      → IsLinked v event.tenant_id event.stream_id
          (record_event v key (framed_key event.tenant_id event.stream_id) state event data_)
  unfolding record_event captured_segments
  record_event-own l hs hq hp hh =
      rw
        (
          captured_events-recorded (framed_key event.tenant_id event.stream_id) event.tenant_id
              event.stream_id,
          lookup-insert (framed_key event.tenant_id event.stream_id)
              (framed_key event.tenant_id event.stream_id) state data_.streams,
          eq_refl (framed_key event.tenant_id event.stream_id),
          eq_refl event.tenant_id,
          eq_refl event.stream_id,
          hs,
        )
        (IsLinkedView-advanced v event.tenant_id event.stream_id
          (captured_events event.tenant_id event.stream_id data_)
          (lookup (framed_key event.tenant_id event.stream_id) data_.streams)
          (captured_segments event.tenant_id event.stream_id data_) key event l hq hp hh)
