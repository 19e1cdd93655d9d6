-- ===== src/Ledger/Archiving/Marks.antt =====
-- What one write of an archive pass does to receipts and hot events (sealing.go).
use snaplink_audit_governanc.Prelude.{
  ℕ, ◌≡◌, ◌⊎◌, inl, inr, refl, ap, sym, ◌∙◌, subst, String, Bool, true, false, Option, none, some,
  Table, lookup, insert, delete, lookup-insert, lookup-delete, get_or, ◌==◌, eq_iff, if◌then◌else◌,
  Bool-cases, arith,
}
use snaplink_audit_governanc.Ledger.Models.{
  Event, EventReceipt, is_archived, no_receipt, DeadLetter, LedgerData, framed_key,
}
use snaplink_audit_governanc.Ledger.Archiving.{stored, Archive, archived_receipt}

-- The key has an archived receipt.
pub record IsArchived (key : String) (data_ : LedgerData) : Type 0 where
  pub receipt : EventReceipt
  pub found : lookup key data_.receipts ≡ some receipt
  pub archived : is_archived receipt.status ≡ true

-- The object of the key was stored in this pass.
pub record IsStored (archive : Archive) (tenant key : String) : Type 0 where
  pub event : Event
  pub framed : framed_key tenant event.event_id ≡ key
  pub put : archive.put_event event ≡ stored

-- Archived receipts stay archived, a hot event changes only under an archived receipt, and a receipt
-- becomes archived only where `P` holds.
pub record Archives (P : String → Type 0) (before after : LedgerData) : Type 0 where
  pub kept : (key : String) → IsArchived key before → IsArchived key after
  pub hot :
      (key : String) → (lookup key after.events ≡ lookup key before.events) ⊎ IsArchived key after
  pub new : (key : String) → IsArchived key after → IsArchived key before ⊎ P key

pub is_archived-found :
    (key : String) (data_ : LedgerData)
    → is_archived (get_or key no_receipt data_.receipts).status ≡ true
    → IsArchived key data_
is_archived-found key data_ h = present (lookup key data_.receipts) refl h
  where
    present :
        (found : Option EventReceipt)
        → lookup key data_.receipts ≡ found
        → is_archived
            (elim found as (λ x. EventReceipt) [
              | none ↦ no_receipt
              | some receipt ↦ receipt
            ]).status
          ≡ true
        → IsArchived key data_
    present none e h = absurd (ground (arith, h))
    present (some receipt) e h = record { receipt = receipt; found = e; archived = h }

module _ (P : String → Type 0) where
  pub Archives-refl : (data_ : LedgerData) → Archives P data_ data_
  Archives-refl data_ = record { kept = λ k a. a; hot = λ k. inl refl; new = λ k a. inl a }

  pub Archives-trans : (a b c : LedgerData) → Archives P a b → Archives P b c → Archives P a c
  Archives-trans a b c f g = record {
    kept = λ k h. g.kept k (f.kept k h);
    hot = λ k. elim (g.hot k) [
      | inr h ↦ inr h
      | inl same ↦ elim (f.hot k) [ inl old ↦ inl (same ∙ old) | inr h ↦ inr (g.kept k h) ]
    ];
    new = λ k h. elim (g.new k h) [ inr p ↦ inr p | inl old ↦ f.new k old ];
  }

  -- Dropping a body whose receipt is archived.
  pub Archives-evict :
      (key : String) (data_ : LedgerData)
      → IsArchived key data_
      → Archives P data_ (record data_ { events = delete key data_.events })
  Archives-evict key data_ h = record {
    kept = λ k a. record { receipt = a.receipt; found = a.found; archived = a.archived };
    hot = λ k. elim (Bool-cases (key == k)) [
      | inr other ↦ inl (
          lookup-delete key k data_.events
          ∙ ap (λ b. if b then none else lookup k data_.events) other)
      | inl same ↦ inr (record {
        receipt = h.receipt;
        found = ap (λ j. lookup j data_.receipts) (sym ((eq_iff key k).0 same)) ∙ h.found;
        archived = h.archived;
      })
    ];
    new = λ k a. inl (record { receipt = a.receipt; found = a.found; archived = a.archived });
  }

  lookup-written :
      (key k : String) (receipt : EventReceipt) (receipts : Table EventReceipt) (b : Bool)
      → (key == k) ≡ b
      → lookup k (insert key receipt receipts) ≡ (if b then some receipt else lookup k receipts)
  lookup-written key k receipt receipts b h =
      lookup-insert key k receipt receipts
      ∙ ap (λ c. if c then some receipt else lookup k receipts) h

  -- A receipt of the key is rewritten, as archived and with its body gone.
  pub Archives-mark :
      (now : ℕ) (key : String) (receipt : EventReceipt) (data_ : LedgerData)
      → P key
      → Archives P data_ (record data_ {
        receipts = insert key (archived_receipt now receipt) data_.receipts;
        events = delete key data_.events;
      })
  Archives-mark now key receipt data_ p = record {
    kept = λ k a. elim (Bool-cases (key == k)) [
      | inl same ↦ marked k same
      | inr other ↦ record {
        receipt = a.receipt;
        found =
            lookup-written key k (archived_receipt now receipt) data_.receipts false other
            ∙ a.found;
        archived = a.archived;
      }
    ];
    hot = λ k. elim (Bool-cases (key == k)) [
      | inl same ↦ inr (marked k same)
      | inr other ↦ inl (
          lookup-delete key k data_.events
          ∙ ap (λ b. if b then none else lookup k data_.events) other)
    ];
    new = λ k a. elim (Bool-cases (key == k)) [
      | inl same ↦ inr (subst P ((eq_iff key k).0 same) p)
      | inr other ↦ inl (record {
        receipt = a.receipt;
        found =
            sym (lookup-written key k (archived_receipt now receipt) data_.receipts false other)
            ∙ a.found;
        archived = a.archived;
      })
    ];
  }
    where
      after : LedgerData
      after = record data_ {
        receipts = insert key (archived_receipt now receipt) data_.receipts;
        events = delete key data_.events;
      }

      marked : (k : String) → (key == k) ≡ true → IsArchived k after
      marked k same = record {
        receipt = archived_receipt now receipt;
        found = lookup-written key k (archived_receipt now receipt) data_.receipts true same;
        archived = refl;
      }

  -- A receipt of the key is rewritten and keeps its status.
  pub Archives-bury :
      (key : String) (old new_ : EventReceipt) (dead : Table DeadLetter) (data_ : LedgerData)
      → lookup key data_.receipts ≡ some old
      → is_archived new_.status ≡ is_archived old.status
      → Archives P data_
          (record data_ { dead_letters = dead; receipts = insert key new_ data_.receipts })
  Archives-bury key old new_ dead data_ found same_status = record {
    kept = λ k a. elim (Bool-cases (key == k)) [
      | inl same ↦ record {
        receipt = new_;
        found = lookup-written key k new_ data_.receipts true same;
        archived = same_status ∙ was k same a;
      }
      | inr other ↦ record {
        receipt = a.receipt;
        found = lookup-written key k new_ data_.receipts false other ∙ a.found;
        archived = a.archived;
      }
    ];
    hot = λ k. inl refl;
    new = λ k a. elim (Bool-cases (key == k)) [
      | inl same ↦ inl (record {
        receipt = old;
        found = ap (λ j. lookup j data_.receipts) (sym ((eq_iff key k).0 same)) ∙ found;
        archived = sym same_status ∙ now_archived k same a;
      })
      | inr other ↦ inl (record {
        receipt = a.receipt;
        found = sym (lookup-written key k new_ data_.receipts false other) ∙ a.found;
        archived = a.archived;
      })
    ];
  }
    where
      status_of :
          (a b : EventReceipt)
          → ◌≡◌ {A = Option EventReceipt} (some a) (some b)
          → is_archived a.status ≡ is_archived b.status
      status_of a b h = cc

      was : (k : String) → (key == k) ≡ true → IsArchived k data_ → is_archived old.status ≡ true
      was k same a =
          status_of old a.receipt
            (sym found ∙ ap (λ j. lookup j data_.receipts) ((eq_iff key k).0 same) ∙ a.found)
          ∙ a.archived

      now_archived :
          (k : String)
          → (key == k) ≡ true
          → IsArchived k
              (record data_ { dead_letters = dead; receipts = insert key new_ data_.receipts })
          → is_archived new_.status ≡ true
      now_archived k same a =
          status_of new_ a.receipt
            (sym (lookup-written key k new_ data_.receipts true same) ∙ a.found)
          ∙ a.archived
