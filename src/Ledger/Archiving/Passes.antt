-- ===== src/Ledger/Archiving/Passes.antt =====
-- What the write of an archive pass does to receipts and hot events, write by write (sealing.go).
use snaplink_audit_governanc.Prelude.{
  ℕ, ◌≡◌, inl, inr, refl, String, Option, none, some, List, [], ◌∷◌, Table, lookup, insert, delete,
  get_or, Bool-cases, All,
}
use snaplink_audit_governanc.Domain.Errors.{Result, ok, err, ◌>>=◌}
use snaplink_audit_governanc.Domain.Errors.Yields.{Yields, Yields-ok, Yields-err}
use snaplink_audit_governanc.Ledger.Models.{
  Event, EventReceipt, is_archived, no_receipt, DeadLetter, LedgerData, framed_key,
}
use snaplink_audit_governanc.Ledger.Archiving.{
  evict_archived, mark_found, mark_archived, bury_found, bury_dead_letters, is_segment_dead_letter,
  archive_closure,
}
use snaplink_audit_governanc.Ledger.Archiving.Marks.{
  Archives, is_archived-found, Archives-refl, Archives-trans, Archives-evict, Archives-mark,
  Archives-bury,
}

module _ (P : String → Type 0) where
  evict_archived-Archives :
      (keys : List String) (data_ : LedgerData) → Archives P data_ (evict_archived keys data_)
  unfolding evict_archived
  evict_archived-Archives [] data_ = Archives-refl P data_
  evict_archived-Archives (key ∷ keys) data_ =
      elim (Bool-cases (is_archived (get_or key no_receipt data_.receipts).status)) [
        | inr open_ ↦ rw open_ (evict_archived-Archives keys data_)
        | inl done ↦ rw done (
            Archives-trans P data_ (record data_ { events = delete key data_.events })
              (evict_archived keys (record data_ { events = delete key data_.events }))
              (Archives-evict P key data_ (is_archived-found key data_ done))
              (evict_archived-Archives keys (record data_ { events = delete key data_.events })))
      ]

  Archives-then :
      (data_ : LedgerData) (m : Result LedgerData) (f : LedgerData → Result LedgerData)
      → Yields (Archives P data_) m
      → ((later : LedgerData) → Yields (Archives P later) (f later))
      → Yields (Archives P data_) (m >>= f)
  Archives-then data_ (err e) f h k = Yields-err
  Archives-then data_ (ok later) f h k = chained (f later) (k later)
    where
      chained : (r : Result LedgerData) → Yields (Archives P later) r → Yields (Archives P data_) r
      chained (err e) g = Yields-err
      chained (ok after) g = Yields-ok (Archives-trans P data_ later after h.at g.at)

  bury_dead_letters-Archives :
      (dead : Table DeadLetter) (data_ : LedgerData)
      → Yields (Archives P data_) (bury_dead_letters dead data_)
  unfolding bury_dead_letters
  bury_dead_letters-Archives [] data_ = Yields-ok (Archives-refl P data_)
  bury_dead_letters-Archives ((key, letter) ∷ rest) data_ =
      Archives-then data_ (bury_found key letter data_ (lookup key data_.receipts)) _
        (buried (lookup key data_.receipts) refl) (λ later. bury_dead_letters-Archives rest later)
    where
      buried :
          (found : Option EventReceipt)
          → lookup key data_.receipts ≡ found
          → Yields (Archives P data_) (bury_found key letter data_ found)
      buried (some receipt) h = Yields-ok (
          Archives-bury P key receipt
            (record receipt {
              error_code = "archive_dead_letter";
              error_message = letter.error_message;
            })
            (insert key letter data_.dead_letters) data_ h refl)
      buried none h = elim (Bool-cases (is_segment_dead_letter letter)) [
        | inl segment ↦ rw segment (
            Yields-ok (record {
              kept = λ k a. record { receipt = a.receipt; found = a.found; archived = a.archived };
              hot = λ k. inl refl;
              new = λ k a.
                  inl (record { receipt = a.receipt; found = a.found; archived = a.archived });
            }))
        | inr event ↦ rw event Yields-err
      ]

  mark_archived-Archives :
      (now : ℕ) (tenant : String) (events : List Event)
      → All (λ event. P (framed_key tenant event.event_id)) events
      → (data_ : LedgerData) → Yields (Archives P data_) (mark_archived now tenant events data_)
  unfolding mark_archived
  mark_archived-Archives now tenant [] done data_ = Yields-ok (Archives-refl P data_)
  mark_archived-Archives now tenant (event ∷ others) (p, done) data_ =
      Archives-then data_ _ _ (marked (lookup (framed_key tenant event.event_id) data_.receipts))
        (λ later. mark_archived-Archives now tenant others done later)
    where
      marked :
          (found : Option EventReceipt)
          → Yields
              (Archives P data_)
              (mark_found now (framed_key tenant event.event_id) data_ found)
      marked none = Yields-err
      marked (some receipt) =
          Yields-ok (Archives-mark P now (framed_key tenant event.event_id) receipt data_ p)

  pub archive_closure-Archives :
      (tenant : String) (now : ℕ) (keys : List String) (events : List Event)
      (dead : Table DeadLetter) (data_ : LedgerData)
      → All (λ event. P (framed_key tenant event.event_id)) events
      → Yields (Archives P data_) (archive_closure tenant now keys events dead data_)
  unfolding archive_closure
  archive_closure-Archives tenant now keys events dead data_ done =
      Archives-then data_ (mark_archived now tenant events (evict_archived keys data_)) _
        (after_evicting (mark_archived now tenant events (evict_archived keys data_))
          (mark_archived-Archives now tenant events done (evict_archived keys data_)))
        (λ marked.
          Archives-then marked (bury_dead_letters dead marked) _
            (bury_dead_letters-Archives dead marked)
            (λ buried. Yields-ok (record {
              kept = λ k a. record { receipt = a.receipt; found = a.found; archived = a.archived };
              hot = λ k. inl refl;
              new = λ k a.
                  inl (record { receipt = a.receipt; found = a.found; archived = a.archived });
            })))
    where
      after_evicting :
          (r : Result LedgerData)
          → Yields (Archives P (evict_archived keys data_)) r
          → Yields (Archives P data_) r
      after_evicting (err e) h = Yields-err
      after_evicting (ok after) h = Yields-ok (
          Archives-trans P data_ (evict_archived keys data_) after
            (evict_archived-Archives keys data_) h.at)
