-- ===== src/Ledger/Verify/Covers.antt =====
-- A segment that seals a run of a chain passes the checks of VerifyIntegrity.
use mathlib.Core.List.{append_assoc}
use snaplink_audit_governanc.Prelude.{
  ℕ, suc, ◌+◌, ◌≡◌, refl, ap, sym, ◌∙◌, subst, String, Bool, true, ◌&&◌, List, [], ◌∷◌, ◌++◌, map,
  filter, length, eqb, leb, ◌==◌, eq_refl, arith,
}
use snaplink_audit_governanc.Domain.Errors.{ok}
use snaplink_audit_governanc.Ledger.Models.{Event, Segment, Evidence}
use snaplink_audit_governanc.Ledger.Chain.{manifest, root_of}
use snaplink_audit_governanc.Ledger.Verify.{spans, event_hash_of, has_root, has_signature}
use snaplink_audit_governanc.Ledger.Verify.Sorting.{IsChain, head_of}
use snaplink_audit_governanc.Ledger.Verify.Spans.{filter-spans, field_at-prev, field_at-last}

-- The segment seals the events `first ∷ more` of the log, under a signature of the signer.
pub record Covers (v : Evidence) (stream : String) (log : List Event) (s : Segment) : Type 0 where
  pub before : List Event
  pub first : Event
  pub more : List Event
  pub after : List Event
  pub parts : log ≡ before ++ (first ∷ more ++ after)
  pub stream_id : s.stream_id ≡ stream
  pub first_sequence : s.first_sequence ≡ suc (length before)
  pub last_sequence : s.last_sequence ≡ suc (length before) + length more
  pub event_count : s.event_count ≡ suc (length more)
  pub first_prev_hash : s.first_prev_hash ≡ head_of "" before
  pub last_hash : s.last_hash ≡ head_of first.hash more
  pub merkle_root : s.merkle_root ≡ root_of v (map event_hash_of (first ∷ more))
  pub manifest_hash :
      s.manifest_hash
      ≡ v.hash_bytes
          (manifest v s.tenant_id s.first_sequence s.last_sequence s.last_hash s.merkle_root)
  pub signature : v.sign s.manifest_hash ≡ ok s.signature

length-map : (events : List Event) → length (map event_hash_of events) ≡ length events
length-map [] = refl
length-map (event ∷ events) = omega (arith, length-map events)

all_true :
    (a b c d e f : Bool)
    → a ≡ true
    → b ≡ true
    → c ≡ true
    → d ≡ true
    → e ≡ true
    → f ≡ true
    → (a && b && c && d && e && f) ≡ true
all_true a b c d e f ha hb hc hd he hf = ground (arith, ha, hb, hc, hd, he, hf)

text_eq : (a b : String) → a ≡ b → (a == b) ≡ true
text_eq a b h = rw (h) (eq_refl b)

eqb_of : (a b : ℕ) → a ≡ b → eqb a b ≡ true
eqb_of a b h = ground (arith, h)

leb_of : (a b m : ℕ) → b ≡ a + m → leb a b ≡ true
leb_of a b m h = ground (arith, h)

pub has_root-Covers :
    (v : Evidence) (stream : String) (log : List Event) (s : Segment)
    → IsChain v 1 "" log
    → Covers v stream log s
    → has_root v s log ≡ true
unfolding has_root
has_root-Covers v stream log s chain c = rw (c.parts) (
    all_true _ _ _ _ _ _
      (text_eq _ _ (ap (λ own. root_of v (map event_hash_of own)) own ∙ sym c.merkle_root))
      (eqb_of _ _ (
        ap (λ own. length (map event_hash_of own)) own
        ∙ length-map (c.first ∷ c.more)
        ∙ sym c.event_count))
      (text_eq _ _ (
        field_at-prev v s.first_sequence 1 "" "" c.before c.first (c.more ++ c.after) linked
          (omega (arith, c.first_sequence))
        ∙ sym c.first_prev_hash))
      (text_eq _ _ (
        field_at-last v s.last_sequence 1 "" "" c.before c.first c.more c.after linked
          (omega (arith, c.last_sequence))
        ∙ sym c.last_hash))
      (leb_of s.first_sequence s.last_sequence (length c.more)
        (omega (arith, c.first_sequence, c.last_sequence)))
      (eqb_of _ _ (omega (arith, c.first_sequence, c.last_sequence, c.event_count))))
  where
    linked : IsChain v 1 "" (c.before ++ (c.first ∷ c.more ++ c.after))
    linked = subst (IsChain v 1 "") c.parts chain

    own : filter (spans s) (c.before ++ (c.first ∷ c.more ++ c.after)) ≡ c.first ∷ c.more
    own =
        filter-spans v s 1 "" c.before (c.first ∷ c.more) c.after linked
          (omega (arith, c.first_sequence)) (omega (arith, c.last_sequence))

pub has_signature-Covers :
    (v : Evidence) (stream : String) (log : List Event) (s : Segment)
    → ((text signature : String) → v.sign text ≡ ok signature → v.verify text signature ≡ ok true)
    → Covers v stream log s
    → has_signature v s ≡ true
unfolding has_signature
has_signature-Covers v stream log s signer c =
    rw
      (sym c.manifest_hash, signer s.manifest_hash s.signature c.signature, eq_refl s.manifest_hash)
      refl

pub Covers-append :
    (v : Evidence) (stream : String) (log : List Event) (s : Segment) (events : List Event)
    → Covers v stream log s
    → Covers v stream (log ++ events) s
Covers-append v stream log s events c = record {
  before = c.before;
  first = c.first;
  more = c.more;
  after = c.after ++ events;
  parts =
      rw
        (
          c.parts,
          append_assoc c.before (c.first ∷ c.more ++ c.after) events,
          append_assoc c.more c.after events,
        )
        refl;
  stream_id = c.stream_id;
  first_sequence = c.first_sequence;
  last_sequence = c.last_sequence;
  event_count = c.event_count;
  first_prev_hash = c.first_prev_hash;
  last_hash = c.last_hash;
  merkle_root = c.merkle_root;
  manifest_hash = c.manifest_hash;
  signature = c.signature;
}
