-- ===== src/Ledger/Verify/Accepts.antt =====
-- VerifyIntegrity accepts a chain whose segments seal runs of it.
use snaplink_audit_governanc.Prelude.{
  ℕ, suc, ◌≡◌, refl, ap, sym, ◌∙◌, String, true, List, [], ◌∷◌, every, ◌==◌, eq_refl, arith, All,
  ◌⊎◌, inl, inr,
}
use snaplink_audit_governanc.Domain.Errors.{ok}
use snaplink_audit_governanc.Ledger.Models.{Event, Segment, Evidence, LedgerData}
use snaplink_audit_governanc.Ledger.Chain.{event_hash}
use snaplink_audit_governanc.Ledger.Verify.{
  content_valid, check_event, check_chain, check_streams, check_segment, check_segments,
  verify_evidence, by_stream, sort_events, stream_names, hot_events, captured_events,
  captured_segments, is_hash,
}
use snaplink_audit_governanc.Ledger.Verify.Sorting.{
  IsChain, sort_events-chain, filter-is_of, stream_names-is_of,
}
use snaplink_audit_governanc.Ledger.Verify.Covers.{Covers, has_root-Covers, has_signature-Covers}

module _ (v : Evidence) where
  check_event-linked :
      (stream head : String) (event : Event)
      → event.prev_hash ≡ head
      → event_hash v event ≡ ok event.hash
      → content_valid v event ≡ true
      → check_event v stream head event ≡ []
  unfolding check_event
  check_event-linked stream head event p q r =
      rw
        (
          ap (λ h. event.prev_hash == h) (sym p) ∙ eq_refl event.prev_hash,
          ap (λ found. is_hash found event.hash) q ∙ eq_refl event.hash,
          r,
        )
        refl

  check_chain-IsChain :
      (n : ℕ) (stream head : String) (log : List Event)
      → IsChain v n head log
      → every (content_valid v) log ≡ true
      → check_chain v stream head log ≡ []
  unfolding check_chain
  check_chain-IsChain n stream head [] chain h = refl
  check_chain-IsChain n stream head (event ∷ log) (p, q, r, chain) h =
      rw
        (
          check_event-linked stream head event q r (ground (arith, h)),
          check_chain-IsChain (suc n) stream event.hash log chain (ground (arith, h)),
        )
        refl

  check_segments-Covers :
      (stream : String) (events : List Event) (segments : List Segment)
      → ((text signature : String) → v.sign text ≡ ok signature → v.verify text signature ≡ ok true)
      → by_stream stream events ≡ events
      → IsChain v 1 "" events
      → All (Covers v stream events) segments
      → check_segments v events segments ≡ []
  unfolding check_segments check_segment
  check_segments-Covers stream events [] signer own chain h = refl
  check_segments-Covers stream events (s ∷ segments) signer own chain (c, h) =
      rw
        (
          c.stream_id,
          own,
          has_root-Covers v stream events s chain c,
          has_signature-Covers v stream events s signer c,
          check_segments-Covers stream events segments signer own chain h,
        )
        refl

  pub by_stream-captured :
      (tenant stream : String) (data_ : LedgerData)
      → IsChain v 1 "" (captured_events tenant stream data_)
      → by_stream stream (captured_events tenant stream data_) ≡ captured_events tenant stream data_
  by_stream-captured tenant stream data_ chain =
      ap sort_events (filter-is_of tenant stream (hot_events data_.events))
      ∙ sort_events-chain v 1 "" (captured_events tenant stream data_) chain

  check_streams-chain :
      (stream : String) (events : List Event) (names : List String)
      → (names ≡ []) ⊎ (names ≡ stream ∷ [])
      → by_stream stream events ≡ events
      → check_chain v stream "" events ≡ []
      → check_streams v events names ≡ []
  unfolding check_streams
  check_streams-chain stream events names (inl none_) own clean = rw none_ refl
  check_streams-chain stream events names (inr one) own clean = rw (one, own, clean) refl

  pub verify_evidence-accepts :
      (tenant stream : String) (data_ : LedgerData)
      → ((text signature : String) → v.sign text ≡ ok signature → v.verify text signature ≡ ok true)
      → IsChain v 1 "" (captured_events tenant stream data_)
      → All
          (Covers v stream (captured_events tenant stream data_))
          (captured_segments tenant stream data_)
      → every (content_valid v) (captured_events tenant stream data_) ≡ true
      → verify_evidence v
          (captured_events tenant stream data_)
          (captured_segments tenant stream data_)
        ≡ []
  unfolding verify_evidence
  verify_evidence-accepts tenant stream data_ signer chain covers content =
      rw
        (
          check_segments-Covers stream (captured_events tenant stream data_)
              (captured_segments tenant stream data_) signer
              (by_stream-captured tenant stream data_ chain) chain covers,
          check_streams-chain stream (captured_events tenant stream data_)
              (stream_names (captured_events tenant stream data_))
              (stream_names-is_of tenant stream (hot_events data_.events))
              (by_stream-captured tenant stream data_ chain)
              (check_chain-IsChain 1 stream "" (captured_events tenant stream data_) chain content),
        )
        refl
