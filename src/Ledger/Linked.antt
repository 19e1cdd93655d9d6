-- ===== src/Ledger/Linked.antt =====
-- The invariant of one stream: its hot events are a chain, its state is the tip of the chain, and its
-- segments seal runs of it.
pub mod Keeps
pub mod Writes
pub mod Ingests
pub mod Scopes
pub mod Requests
pub mod Steps
pub mod Histories
use mathlib.Core.List.{append_assoc, append-nil}
use snaplink_audit_governanc.Prelude.{
  ℕ, suc, ◌+◌, ◌-◌, ◌≡◌, ◌≢◌, refl, ap, sym, ◌∙◌, String, Bool, true, List, [], ◌∷◌, ◌++◌, Option,
  none, some, map, length, length-append, eqb, ltb, arith, if◌then◌else◌, All,
}
use snaplink_audit_governanc.Domain.Errors.{Result, ok, err, ◌>>=◌}
use snaplink_audit_governanc.Ledger.Models.{Event, Segment, Checkpoint, StreamState, Evidence}
use snaplink_audit_governanc.Ledger.Chain.{
  event_hash, sealed_segment, manifest_hash_of, cleared, new_stream, advanced, root_of,
}
use snaplink_audit_governanc.Ledger.Verify.{event_hash_of}
use snaplink_audit_governanc.Ledger.Verify.Sorting.{
  IsChain, head_of, IsChain-append, head_of-append,
}
use snaplink_audit_governanc.Ledger.Verify.Covers.{Covers, Covers-append}

abbrev IsPrevOf : String → List Event → List Event → Type 0
IsPrevOf prev sealed [] = Unit
IsPrevOf prev sealed (event ∷ pending) = prev ≡ head_of "" sealed

-- The state is the tip of the log, and its pending hashes are those of `pending`.
pub record IsTip (tenant stream : String) (log sealed pending : List Event) (st : StreamState)
    : Type 0 where
  pub tenant_id : st.tenant_id ≡ tenant
  pub stream_id : st.stream_id ≡ stream
  pub next_sequence : st.next_sequence ≡ suc (length log)
  pub head_hash : st.head_hash ≡ head_of "" log
  pub pending_hashes : st.pending_hashes ≡ map event_hash_of pending
  pub prev : IsPrevOf st.pending_prev_hash sealed pending

abbrev IsTipOf :
    String → String → List Event → List Event → List Event → Option StreamState → Type 0
IsTipOf tenant stream log sealed pending none = (log ≡ []) × (pending ≡ [])
IsTipOf tenant stream log sealed pending (some st) = IsTip tenant stream log sealed pending st

pub record IsLinkedView (v : Evidence) (tenant stream : String) (log : List Event)
    (state : Option StreamState) (segments : List Segment) : Type 0 where
  pub sealed : List Event
  pub pending : List Event
  pub parts : log ≡ sealed ++ pending
  pub chain : IsChain v 1 "" log
  pub tip : IsTipOf tenant stream log sealed pending state
  pub covers : All (Covers v stream log) segments

All-Covers :
    (v : Evidence) (stream : String) (log events : List Event) (segments : List Segment)
    → All (Covers v stream log) segments
    → All (Covers v stream (log ++ events)) segments
All-Covers v stream log events [] h = tt
All-Covers v stream log events (s ∷ segments) (c, h) =
    (Covers-append v stream log s events c, All-Covers v stream log events segments h)

All-append :
    (v : Evidence) (stream : String) (log : List Event) (segments : List Segment) (s : Segment)
    → All (Covers v stream log) segments
    → Covers v stream log s
    → All (Covers v stream log) (segments ++ s ∷ [])
All-append v stream log [] s h c = (c, tt)
All-append v stream log (first ∷ segments) s (k, h) c = (k, All-append v stream log segments s h c)

abbrev pub tip_of : String → String → Option StreamState → StreamState
tip_of tenant stream none = new_stream tenant stream
tip_of tenant stream (some st) = st

map-append :
    (events : List Event) (event : Event)
    → map event_hash_of events ++ event.hash ∷ [] ≡ map event_hash_of (events ++ event ∷ [])
map-append [] event = refl
map-append (first ∷ events) event = ap (λ l. first.hash ∷ l) (map-append events event)

-- What a tip gives for a new event, also for a new stream.
IsTip-of :
    (tenant stream : String) (log sealed pending : List Event) (state : Option StreamState)
    → log ≡ sealed ++ pending
    → IsTipOf tenant stream log sealed pending state
    → IsTip tenant stream log sealed pending (tip_of tenant stream state)
IsTip-of tenant stream log sealed pending none parts (h, k) =
    rw (h, k)
      (record {
        tenant_id = refl;
        stream_id = refl;
        next_sequence = refl;
        head_hash = refl;
        pending_hashes = refl;
        prev = tt;
      })
IsTip-of tenant stream log sealed pending (some st) parts tip = tip

length-snoc {ℓ} :
    {A : Type ℓ}
    → (events : List A) → (event : A) → length (events ++ event ∷ []) ≡ suc (length events)
length-snoc [] event = refl
length-snoc (first ∷ events) event = omega (arith, length-snoc events event)

IsPrevOf-advanced :
    (tenant stream : String) (log sealed pending : List Event) (st : StreamState) (key : String)
    (event : Event)
    → log ≡ sealed ++ pending
    → IsTip tenant stream log sealed pending st
    → IsPrevOf (advanced st key event.hash).pending_prev_hash sealed (pending ++ event ∷ [])
unfolding advanced
IsPrevOf-advanced tenant stream log sealed [] st key event parts tip =
    rw (tip.pending_hashes) (tip.head_hash ∙ ap (head_of "") (parts ∙ append-nil sealed))
IsPrevOf-advanced tenant stream log sealed (first ∷ pending) st key event parts tip =
    rw more tip.prev
  where
    more : eqb (length (st.pending_hashes ++ event.hash ∷ [])) 1 ≡ Bool.false
    more = ground (arith, length-snoc st.pending_hashes event.hash, ap length tip.pending_hashes)

pub IsLinkedView-advanced :
    (v : Evidence) (tenant stream : String) (log : List Event) (state : Option StreamState)
    (segments : List Segment) (key : String) (event : Event)
    → IsLinkedView v tenant stream log state segments
    → event.sequence ≡ (tip_of tenant stream state).next_sequence
    → event.prev_hash ≡ (tip_of tenant stream state).head_hash
    → event_hash v event ≡ ok event.hash
    → IsLinkedView v tenant stream
        (log ++ event ∷ [])
        (some (advanced (tip_of tenant stream state) key event.hash))
        segments
unfolding advanced
IsLinkedView-advanced v tenant stream log state segments key event l hs hp hh = record {
  sealed = l.sealed;
  pending = l.pending ++ event ∷ [];
  parts = ap (λ all. all ++ event ∷ []) l.parts ∙ append_assoc l.sealed l.pending (event ∷ []);
  chain =
      IsChain-append v 1 "" log event l.chain (omega (arith, hs, tip.next_sequence))
        (hp ∙ tip.head_hash) hh;
  tip = record {
    tenant_id = tip.tenant_id;
    stream_id = tip.stream_id;
    next_sequence = omega (arith, tip.next_sequence, length-snoc log event);
    head_hash = sym (head_of-append "" log event);
    pending_hashes =
        ap (λ hashes. hashes ++ event.hash ∷ []) tip.pending_hashes ∙ map-append l.pending event;
    prev =
        IsPrevOf-advanced tenant stream log l.sealed l.pending (tip_of tenant stream state) key
          event l.parts tip;
  };
  covers = All-Covers v stream log (event ∷ []) segments l.covers;
}
  where
    tip : IsTip tenant stream log l.sealed l.pending (tip_of tenant stream state)
    tip = IsTip-of tenant stream log l.sealed l.pending state l.parts l.tip

length-hashes : (events : List Event) → length (map event_hash_of events) ≡ length events
length-hashes [] = refl
length-hashes (event ∷ events) = omega (arith, length-hashes events)

head_of-split :
    (head : String) (before own : List Event)
    → head_of head (before ++ own) ≡ head_of (head_of head before) own
head_of-split head [] own = refl
head_of-split head (event ∷ before) own = head_of-split event.hash before own

-- What sealSegment makes of a tip seals the pending run.
sealed_segment-Covers :
    (v : Evidence) (tenant stream : String) (now : ℕ) (log sealed : List Event) (first : Event)
    (pending : List Event) (st : StreamState) (signature : String)
    → log ≡ sealed ++ first ∷ pending
    → IsTip tenant stream log sealed (first ∷ pending) st
    → v.sign (manifest_hash_of v st) ≡ ok signature
    → Covers v stream log (sealed_segment v st now signature)
sealed_segment-Covers v tenant stream now log sealed first pending st signature parts tip h =
    record {
      before = sealed;
      first = first;
      more = pending;
      after = [];
      parts = parts ∙ ap (λ own. sealed ++ (first ∷ own)) (sym (append-nil pending));
      stream_id = tip.stream_id;
      first_sequence = omega (arith, count, total, tip.next_sequence);
      last_sequence = omega (arith, total, tip.next_sequence);
      event_count = count;
      first_prev_hash = tip.prev;
      last_hash = tip.head_hash ∙ ap (head_of "") parts ∙ head_of-split "" sealed (first ∷ pending);
      merkle_root = ap (root_of v) tip.pending_hashes;
      manifest_hash = refl;
      signature = h;
    }
  where
    count : length st.pending_hashes ≡ suc (length pending)
    count = ap length tip.pending_hashes ∙ length-hashes (first ∷ pending)

    total : length log ≡ length sealed + suc (length pending)
    total = ap length parts ∙ length-append sealed (first ∷ pending)

pub IsLinkedView-sealed :
    (v : Evidence) (tenant stream : String) (now : ℕ) (log : List Event) (st : StreamState)
    (segments : List Segment) (signature : String)
    → IsLinkedView v tenant stream log (some st) segments
    → st.pending_hashes ≢ []
    → v.sign (manifest_hash_of v st) ≡ ok signature
    → IsLinkedView v tenant stream log
        (some (cleared st))
        (segments ++ sealed_segment v st now signature ∷ [])
IsLinkedView-sealed v tenant stream now log st segments signature l some_ h = record {
  sealed = log;
  pending = [];
  parts = sym (append-nil log);
  chain = l.chain;
  tip = record {
    tenant_id = l.tip.tenant_id;
    stream_id = l.tip.stream_id;
    next_sequence = l.tip.next_sequence;
    head_hash = l.tip.head_hash;
    pending_hashes = refl;
    prev = tt;
  };
  covers =
      All-append v stream log segments (sealed_segment v st now signature) l.covers
        (own l.pending l.parts l.tip);
}
  where
    own :
        (pending : List Event)
        → log ≡ l.sealed ++ pending
        → IsTip tenant stream log l.sealed pending st
        → Covers v stream log (sealed_segment v st now signature)
    own [] parts tip = absurd (some_ tip.pending_hashes)
    own (first ∷ pending) parts tip =
        sealed_segment-Covers v tenant stream now log l.sealed first pending st signature parts tip
          h
