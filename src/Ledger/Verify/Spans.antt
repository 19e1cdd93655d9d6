-- ===== src/Ledger/Verify/Spans.antt =====
-- What the span of a segment selects from a chain.
use snaplink_audit_governanc.Prelude.{
  ℕ, suc, ◌+◌, ◌<◌, ◌≤◌, ◌≡◌, refl, ◌∙◌, String, Bool, true, List, [], ◌∷◌, ◌++◌, filter, length,
  eqb, arith,
}
use snaplink_audit_governanc.Ledger.Models.{Event, Segment, Evidence}
use snaplink_audit_governanc.Ledger.Verify.{spans, field_at, event_hash_of, event_prev_hash_of}
use snaplink_audit_governanc.Ledger.Verify.Sorting.{IsChain, head_of}

module _ (v : Evidence) where
  filter-beyond :
      (s : Segment) (n : ℕ) (head : String) (log : List Event)
      → IsChain v n head log
      → s.last_sequence < n
      → filter (spans s) log ≡ []
  filter-beyond s n head [] chain h = refl
  filter-beyond s n head (event ∷ log) (p, q, r, chain) h =
      ground (arith, p, h, filter-beyond s (suc n) event.hash log chain (omega (arith, h)))

  filter-own :
      (s : Segment) (n : ℕ) (head : String) (own after : List Event)
      → IsChain v n head (own ++ after)
      → s.first_sequence ≤ n
      → suc s.last_sequence ≡ n + length own
      → filter (spans s) (own ++ after) ≡ own
  filter-own s n head [] after chain h k = filter-beyond s n head after chain (omega (arith, k))
  filter-own s n head (event ∷ own) after (p, q, r, chain) h k =
      rw
        (
          inside,
          filter-own s (suc n) event.hash own after chain (omega (arith, h)) (omega (arith, k)),
        )
        refl
    where
      inside : spans s event ≡ true
      inside = ground (arith, p, h, k)

  pub filter-spans :
      (s : Segment) (n : ℕ) (head : String) (before own after : List Event)
      → IsChain v n head (before ++ (own ++ after))
      → s.first_sequence ≡ n + length before
      → suc s.last_sequence ≡ n + length before + length own
      → filter (spans s) (before ++ (own ++ after)) ≡ own
  filter-spans s n head [] own after chain h k =
      filter-own s n head own after chain (omega (arith, h)) (omega (arith, k))
  filter-spans s n head (event ∷ before) own after (p, q, r, chain) h k = rw outside (
      filter-spans s (suc n) event.hash before own after chain (omega (arith, h))
        (omega (arith, k)))
    where
      outside : spans s event ≡ Bool.false
      outside = ground (arith, p, h)

  field_at-beyond :
      (field : Event → String) (at n : ℕ) (head found : String) (log : List Event)
      → IsChain v n head log
      → at < n
      → field_at field at found log ≡ found
  unfolding field_at
  field_at-beyond field at n head found [] chain h = refl
  field_at-beyond field at n head found (event ∷ log) (p, q, r, chain) h =
      ground (
        arith,
        p,
        h,
        field_at-beyond field at (suc n) event.hash found log chain (omega (arith, h)),
      )

  -- The previous hash of the event behind a prefix is the head of the prefix.
  pub field_at-prev :
      (at n : ℕ) (head found : String) (before : List Event) (event : Event) (after : List Event)
      → IsChain v n head (before ++ event ∷ after)
      → at ≡ n + length before
      → field_at event_prev_hash_of at found (before ++ event ∷ after) ≡ head_of head before
  unfolding field_at
  field_at-prev at n head found [] event after (p, q, r, chain) h = rw (hit) (
      field_at-beyond event_prev_hash_of at (suc n) event.hash event.prev_hash after chain
        (omega (arith, h))
      ∙ q)
    where
      hit : eqb event.sequence at ≡ true
      hit = ground (arith, p, h)
  field_at-prev at n head found (first ∷ before) event after (p, q, r, chain) h =
      rw (miss)
        (field_at-prev at (suc n) first.hash found before event after chain (omega (arith, h)))
    where
      miss : eqb first.sequence at ≡ Bool.false
      miss = ground (arith, p, h)

  -- The hash of the last event of a prefix is the head of the prefix.
  pub field_at-head :
      (at n : ℕ) (head found : String) (first : Event) (more after : List Event)
      → IsChain v n head (first ∷ (more ++ after))
      → at ≡ n + length more
      → field_at event_hash_of at found (first ∷ (more ++ after)) ≡ head_of first.hash more
  unfolding field_at
  field_at-head at n head found first [] after (p, q, r, chain) h = rw (hit) (
      field_at-beyond event_hash_of at (suc n) first.hash first.hash after chain (omega (arith, h)))
    where
      hit : eqb first.sequence at ≡ true
      hit = ground (arith, p, h)
  field_at-head at n head found first (second ∷ more) after (p, q, r, chain) h =
      rw (miss)
        (field_at-head at (suc n) first.hash found second more after chain (omega (arith, h)))
    where
      miss : eqb first.sequence at ≡ Bool.false
      miss = ground (arith, p, h)

  pub field_at-last :
      (at n : ℕ) (head found : String) (before : List Event) (first : Event)
      (more after : List Event)
      → IsChain v n head (before ++ (first ∷ (more ++ after)))
      → at ≡ n + length before + length more
      → field_at event_hash_of at found (before ++ (first ∷ (more ++ after)))
        ≡ head_of first.hash more
  unfolding field_at
  field_at-last at n head found [] first more after chain h =
      field_at-head at n head found first more after chain (omega (arith, h))
  field_at-last at n head found (event ∷ before) first more after (p, q, r, chain) h =
      rw (miss)
        (field_at-last at (suc n) event.hash found before first more after chain (omega (arith, h)))
    where
      miss : eqb event.sequence at ≡ Bool.false
      miss = ground (arith, p, h)
