-- ===== src/Ledger/Verify/Tampering.antt =====
-- What the chain pins down, when no two texts have one hash.
use snaplink_audit_governanc.Prelude.{
  ℕ, ◌≡◌, ◌⊎◌, inl, inr, Bool-cases, ◌==◌, if◌then◌else◌, refl, ap, sym, ◌∙◌, String, Bool, true,
  false, List, [], ◌∷◌, ◌++◌, length, eq_iff, arith,
}
use snaplink_audit_governanc.Domain.Errors.{Result, ok, err, ◌>>=◌}
use snaplink_audit_governanc.Ledger.Models.{Event, Evidence}
use snaplink_audit_governanc.Ledger.Chain.{
  event_digest, event_hash, content_digest, legacy_digest, content_fields,
}
use snaplink_audit_governanc.Ledger.Verify.{
  Finding, report, check_event, check_chain, is_verified, match_content_digest, content_valid,
}
use snaplink_audit_governanc.Ledger.Verify.Sorting.{head_of}

-- What a stored event says of its content, seen through `f`: the originals agree, or one of the events
-- is only known by its digest in the legacy encoding, which is lossy.
pub data HaveSameContent {B : Type 0} (v : Evidence) (f : Event → B) (a b : Event) : Type 0 where
  same_content :
      (x y : Event)
      → v.reconstruct_event a ≡ ok x
      → v.reconstruct_event b ≡ ok y
      → f (content_fields x) ≡ f (content_fields y)
      → HaveSameContent v f a b
  legacy_left :
      (x : Event)
      → v.reconstruct_event a ≡ ok x
      → legacy_digest v x ≡ ok a.source_digest
      → HaveSameContent v f a b
  legacy_right :
      (y : Event)
      → v.reconstruct_event b ≡ ok y
      → legacy_digest v y ≡ ok b.source_digest
      → HaveSameContent v f a b

-- The two logs agree, event by event, in content, digest, place, stream and hash.
abbrev pub HaveSameLinks : {B : Type 0} → Evidence → (Event → B) → List Event → List Event → Type 0
HaveSameLinks v f [] [] = Unit
HaveSameLinks v f (a ∷ more) (b ∷ others) =
    HaveSameContent v f a b
    × (a.source_digest ≡ b.source_digest)
    × (a.sequence ≡ b.sequence)
    × (a.stream_id ≡ b.stream_id)
    × (a.hash ≡ b.hash)
    × HaveSameLinks v f more others
HaveSameLinks v f _ _ = ⊥

report-fine : (b : Bool) (finding : Finding) → report b finding ≡ [] → b ≡ true
report-fine true finding h = refl
report-fine false finding h = absurd cc

-- The content of the event is what its digest was taken of.
record IsAuthentic (v : Evidence) (event : Event) : Type 0 where
  digested : (event.source_digest == "") ≡ false
  original : Event
  restored : v.reconstruct_event event ≡ ok original
  matched :
      (content_digest v original ≡ ok event.source_digest)
      ⊎ (legacy_digest v original ≡ ok event.source_digest)

-- A clean event links to the head, carries the hash of its digest, and is authentic.
record IsLink (v : Evidence) (head : String) (event : Event) : Type 0 where
  prev_hash : event.prev_hash ≡ head
  hashed :
      v.hash_bytes (v.link_json event.source_digest event.prev_hash event.sequence event.stream_id)
      ≡ event.hash
  authentic : IsAuthentic v event

append-nothing : (xs ys : List Finding) → xs ++ ys ≡ [] → (xs ≡ []) × (ys ≡ [])
append-nothing [] ys h = (refl, h)
append-nothing (x ∷ xs) ys h = absurd cc

match_content_digest-matched :
    (v : Evidence) (event : Event) (expected : String)
    → is_verified (match_content_digest v event expected) ≡ true
    → (content_digest v event ≡ ok expected) ⊎ (legacy_digest v event ≡ ok expected)
unfolding match_content_digest
match_content_digest-matched v event expected h =
    chosen (content_digest v event) (legacy_digest v event) h
  where
    chosen :
        (current legacy : Result String)
        → is_verified
            (current >>= λ c. if c == expected then ok true else legacy >>= λ l. ok (l == expected))
          ≡ true
        → (current ≡ ok expected) ⊎ (legacy ≡ ok expected)
    chosen (err e) legacy h = absurd (ground (arith, h))
    chosen (ok c) legacy h = elim (Bool-cases (c == expected)) [
      | inl same ↦ inl (ap ok ((eq_iff c expected).0 same))
      | inr differs ↦ inr (late legacy (ground (arith, h, differs)))
    ]
      where
        late :
            (legacy : Result String)
            → is_verified (legacy >>= λ l. ok (l == expected)) ≡ true
            → legacy ≡ ok expected
        late (err e) h = absurd (ground (arith, h))
        late (ok l) h = ap ok ((eq_iff l expected).0 h)

content_valid-IsAuthentic :
    (v : Evidence) (event : Event) → content_valid v event ≡ true → IsAuthentic v event
unfolding content_valid
content_valid-IsAuthentic v event h =
    restored_as (v.reconstruct_event event) refl (ground (arith, h)) (ground (arith, h))
  where
    restored_as :
        (restored : Result Event)
        → v.reconstruct_event event ≡ restored
        → (event.source_digest == "") ≡ false
        → is_verified (restored >>= λ original. match_content_digest v original event.source_digest)
          ≡ true
        → IsAuthentic v event
    restored_as (err e) at named h = absurd (ground (arith, h))
    restored_as (ok original) at named h = record {
      digested = named;
      original = original;
      restored = at;
      matched = match_content_digest-matched v original event.source_digest h;
    }

check_event-IsLink :
    (v : Evidence) (stream head : String) (event : Event)
    → check_event v stream head event ≡ []
    → IsLink v head event
unfolding check_event event_hash event_digest
check_event-IsLink v stream head event h =
    let (links, content) = append-nothing _ _ h in
    let (prev, hash) = append-nothing _ _ links in
    let authentic = content_valid-IsAuthentic v event (report-fine _ _ content) in
    record {
      prev_hash = (eq_iff event.prev_hash head).0 (report-fine _ _ prev);
      hashed = ground (
        arith,
        report-fine _ _ hash,
        authentic.digested,
        eq_iff
            (v.hash_bytes
              (v.link_json event.source_digest event.prev_hash event.sequence event.stream_id))
            event.hash,
      );
      authentic = authentic;
    }

module _ {B : Type 0} (v : Evidence) (f : Event → B)
    (hash_injective : (s t : String) → v.hash_bytes s ≡ v.hash_bytes t → s ≡ t)
    (link_injective : (d p : String) (n : ℕ) (s d' p' : String) (n' : ℕ) (s' : String)
      → v.link_json d p n s ≡ v.link_json d' p' n' s'
      → (d ≡ d') × (p ≡ p') × (n ≡ n') × (s ≡ s'))
    (json_determines : (x y : Event) (text : String)
      → v.event_json x ≡ ok text
      → v.event_json y ≡ ok text
      → f x ≡ f y) where
  same_digests :
      (x y : Event) (digest : String)
      → content_digest v x ≡ ok digest
      → content_digest v y ≡ ok digest
      → f (content_fields x) ≡ f (content_fields y)
  unfolding content_digest
  same_digests x y digest h k =
      encoded (v.event_json (content_fields x)) (v.event_json (content_fields y)) refl refl h k
    where
      encoded :
          (p q : Result String)
          → v.event_json (content_fields x) ≡ p
          → v.event_json (content_fields y) ≡ q
          → (p >>= λ t. ok (v.hash_bytes t)) ≡ ok digest
          → (q >>= λ t. ok (v.hash_bytes t)) ≡ ok digest
          → f (content_fields x) ≡ f (content_fields y)
      encoded (err e) q at at' h k = absurd cc
      encoded (ok s) (err e) at at' h k = absurd cc
      encoded (ok s) (ok t) at at' h k =
          let hashes : v.hash_bytes s ≡ v.hash_bytes t = cc in
          json_determines (content_fields x) (content_fields y) t
            (at ∙ ap ok (hash_injective s t hashes)) at'

  authentic_contents :
      (a b : Event)
      → a.source_digest ≡ b.source_digest
      → IsAuthentic v a
      → IsAuthentic v b
      → HaveSameContent v f a b
  authentic_contents a b same p q = elim p.matched [
    | inr old ↦ legacy_left p.original p.restored old
    | inl new ↦ elim q.matched [
      | inr old ↦ legacy_right q.original q.restored old
      | inl new' ↦
          same_content p.original q.original p.restored q.restored
            (same_digests p.original q.original b.source_digest (new ∙ ap ok same) new')
    ]
  ]

  -- Two chains of one length that both pass the checks of VerifyIntegrity and end in the same hash begin
  -- at the same head, and agree event by event in source digest, sequence, stream and hash, and in
  -- all that `f` tells of their restored contents, unless one of the two events matches its digest in
  -- the legacy encoding. This holds if no two texts have one hash, the encoding of a link determines
  -- its parts, and the current encoding of an event determines what `f` tells of it.
  pub check_chain-determines :
      (stream stream' head head' : String) (log log' : List Event)
      → length log ≡ length log'
      → check_chain v stream head log ≡ []
      → check_chain v stream' head' log' ≡ []
      → head_of head log ≡ head_of head' log'
      → (head ≡ head') × HaveSameLinks v f log log'
  unfolding check_chain
  check_chain-determines stream stream' head head' [] [] len h h' e = (e, tt)
  check_chain-determines stream stream' head head' [] (b ∷ log') len h h' e =
      absurd (omega (arith, len))
  check_chain-determines stream stream' head head' (a ∷ log) [] len h h' e =
      absurd (omega (arith, len))
  check_chain-determines stream stream' head head' (a ∷ log) (b ∷ log') len h h' e =
      let (first, rest) = append-nothing _ _ h in
      let (first', rest') = append-nothing _ _ h' in
      let link = check_event-IsLink v stream head a first in
      let link' = check_event-IsLink v stream' head' b first' in
      let (same, links) =
        check_chain-determines stream stream' a.hash b.hash log log' (omega (arith, len)) rest rest'
          e in
      let (digests, prevs, places, streams) =
        link_injective a.source_digest a.prev_hash a.sequence a.stream_id b.source_digest
          b.prev_hash b.sequence b.stream_id
          (hash_injective _ _ (link.hashed ∙ same ∙ sym link'.hashed)) in
      (
        sym link.prev_hash ∙ prevs ∙ link'.prev_hash,
        (
          authentic_contents a b digests link.authentic link'.authentic,
          digests,
          places,
          streams,
          same,
          links,
        ),
      )
