-- ===== src/Ledger/Verify/Sorting.antt =====
-- The events of a chain are in order already, and the grouping by streams keeps them.
use snaplink_audit_governanc.Prelude.{
  ℕ, suc, ◌+◌, ◌≡◌, ◌⊎◌, inl, inr, refl, String, Bool, true, List, [], ◌∷◌, ◌++◌, filter, ◌==◌,
  eq_iff, eq_refl, arith, Bool-cases, length,
}
use snaplink_audit_governanc.Domain.Errors.{ok}
use snaplink_audit_governanc.Ledger.Models.{Event, Evidence}
use snaplink_audit_governanc.Ledger.Chain.{event_hash}
use snaplink_audit_governanc.Ledger.Verify.{
  comes_before, insert_event, sort_events, insert_name, stream_names, is_of,
}

-- Each event follows the one before it in number and by its hash, and carries its own hash.
abbrev pub IsChain : Evidence → ℕ → String → List Event → Type 0
IsChain v n head [] = Unit
IsChain v n head (event ∷ others) =
    (event.sequence ≡ n)
    × (event.prev_hash ≡ head)
    × (event_hash v event ≡ ok event.hash)
    × IsChain v (suc n) event.hash others

abbrev pub head_of : String → List Event → String
head_of head [] = head
head_of head (event ∷ others) = head_of event.hash others

pub IsChain-append :
    (v : Evidence) (n : ℕ) (head : String) (log : List Event) (event : Event)
    → IsChain v n head log
    → event.sequence ≡ n + length log
    → event.prev_hash ≡ head_of head log
    → event_hash v event ≡ ok event.hash
    → IsChain v n head (log ++ event ∷ [])
IsChain-append v n head [] event chain hs hp hh = (omega (arith, hs), hp, hh, tt)
IsChain-append v n head (first ∷ log) event (p, q, r, chain) hs hp hh =
    (p, q, r, IsChain-append v (suc n) first.hash log event chain (omega (arith, hs)) hp hh)

pub head_of-append :
    (head : String) (log : List Event) (event : Event)
    → head_of head (log ++ event ∷ []) ≡ event.hash
head_of-append head [] event = refl
head_of-append head (first ∷ log) event = head_of-append first.hash log event

not-before :
    (a b : Event) (n : ℕ) → a.sequence ≡ suc n → b.sequence ≡ n → comes_before a b ≡ Bool.false
not-before a b n h k = ground (arith, h, k)

pub sort_events-chain :
    (v : Evidence) (n : ℕ) (head : String) (log : List Event)
    → IsChain v n head log
    → sort_events log ≡ log
unfolding sort_events insert_event
sort_events-chain v n head [] chain = refl
sort_events-chain v n head (first ∷ []) chain = refl
sort_events-chain v n head (first ∷ second ∷ log) (p, q, r, chain) =
    rw
      (
        sort_events-chain v (suc n) first.hash (second ∷ log) chain,
        not-before second first n chain.0 p,
      )
      refl

pub filter-is_of :
    (tenant stream : String) (events : List Event)
    → filter (λ e. e.stream_id == stream) (filter (is_of tenant stream) events)
      ≡ filter (is_of tenant stream) events
filter-is_of tenant stream [] = refl
filter-is_of tenant stream (event ∷ events) = ground (arith, filter-is_of tenant stream events)

own_stream :
    (tenant stream : String) (event : Event)
    → is_of tenant stream event ≡ true
    → event.stream_id ≡ stream
own_stream tenant stream event h = ground (arith, h, eq_iff event.stream_id stream)

insert_name-only :
    (name stream : String) (names : List String)
    → name ≡ stream
    → (names ≡ []) ⊎ (names ≡ stream ∷ [])
    → insert_name name names ≡ stream ∷ []
unfolding insert_name
insert_name-only name stream names same (inl none_) = rw (none_, same) refl
insert_name-only name stream names same (inr one) = rw (one, same, eq_refl stream) refl

-- The only stream that the captured events name.
pub stream_names-is_of :
    (tenant stream : String) (events : List Event)
    → (stream_names (filter (is_of tenant stream) events) ≡ [])
      ⊎ (stream_names (filter (is_of tenant stream) events) ≡ stream ∷ [])
unfolding stream_names insert_name
stream_names-is_of tenant stream [] = inl refl
stream_names-is_of tenant stream (event ∷ events) = elim (Bool-cases (is_of tenant stream event)) [
  | inr other ↦ rw other (stream_names-is_of tenant stream events)
  | inl own ↦ rw own (
      inr (
        insert_name-only event.stream_id stream (stream_names (filter (is_of tenant stream) events))
          (own_stream tenant stream event own) (stream_names-is_of tenant stream events)))
]
