-- ===== src/Outbox/Finality.antt =====
-- What a batch of the relay does to the rows of the table, one by one.
use snaplink_audit_governanc.Prelude.{
  ℕ, ◌≡◌, refl, ◌∙◌, true, List, [], ◌∷◌, Bool-cases, ◌⊎◌, inl, inr, arith,
}
use snaplink_audit_governanc.Outbox.Rows.{Row, Update, is_waiting, is_target, update_rows}
use snaplink_audit_governanc.Outbox.Relay.{
  Delivery, Config, CorruptRecord, quarantine, outcome, quarantine_all, deliver_all, run_once,
}

module _ {ℓ} {Event : Type ℓ} where
  -- What a statement of the relay may do to one row.
  pub record Keeps (row new : Row Event) : Type ℓ where
    pub same_id : new.id ≡ row.id
    pub same_event : new.event ≡ row.event
    pub final : (is_waiting row.status ≡ true) ⊎ (new ≡ row)

  -- ... and to each row of the table, in place.
  pub data KeepsAll : List (Row Event) → List (Row Event) → Type ℓ where
    none_left : KeepsAll [] []
    and_row :
        {row new : Row Event} {rows news : List (Row Event)}
        → Keeps row new
        → KeepsAll rows news
        → KeepsAll (row ∷ rows) (new ∷ news)

  Keeps-refl : (row : Row Event) → Keeps row row
  Keeps-refl row = record { same_id = refl; same_event = refl; final = inr refl }

  Keeps-trans : (a b c : Row Event) → Keeps a b → Keeps b c → Keeps a c
  Keeps-trans a b c f g = record {
    same_id = g.same_id ∙ f.same_id;
    same_event = g.same_event ∙ f.same_event;
    final = elim f.final [
      | inl waits ↦ inl waits
      | inr e ↦ elim g.final [ inl waits ↦ inl (rw⁻¹ e waits) | inr same ↦ inr (same ∙ e) ]
    ];
  }

  KeepsAll-refl : (rows : List (Row Event)) → KeepsAll rows rows
  KeepsAll-refl [] = none_left
  KeepsAll-refl (row ∷ rows) = and_row (Keeps-refl row) (KeepsAll-refl rows)

  KeepsAll-trans : {a b c : List (Row Event)} → KeepsAll a b → KeepsAll b c → KeepsAll a c
  KeepsAll-trans none_left none_left = none_left
  KeepsAll-trans (and_row f fs) (and_row g gs) =
      and_row (Keeps-trans _ _ _ f g) (KeepsAll-trans fs gs)

  update_rows-KeepsAll :
      (id : ℕ) (patch : Update) (rows : List (Row Event))
      → KeepsAll rows (update_rows id patch rows).0
  unfolding update_rows
  update_rows-KeepsAll id patch [] = none_left
  update_rows-KeepsAll id patch (row ∷ rows) = elim (Bool-cases (is_target id row)) [
    | inl hit ↦ rw hit (
        and_row (record { same_id = refl; same_event = refl; final = inl (ground (arith, hit)) })
          (update_rows-KeepsAll id patch rows))
    | inr miss ↦ rw miss (and_row (Keeps-refl row) (update_rows-KeepsAll id patch rows))
  ]

module _ {ℓ} {Event : Type ℓ} (deliver : Event → Delivery) (c : Config) (now : ℕ) where
  quarantine_all-KeepsAll :
      (corrupt : List CorruptRecord) (rows : List (Row Event))
      → KeepsAll rows (quarantine_all deliver c now corrupt rows)
  unfolding quarantine_all
  quarantine_all-KeepsAll [] rows = KeepsAll-refl rows
  quarantine_all-KeepsAll (r ∷ corrupt) rows =
      KeepsAll-trans (update_rows-KeepsAll r.id (quarantine now r.attempts r.cause) rows)
        (quarantine_all-KeepsAll corrupt _)

  deliver_all-KeepsAll :
      (records rows : List (Row Event)) → KeepsAll rows (deliver_all deliver c now records rows)
  unfolding deliver_all
  deliver_all-KeepsAll [] rows = KeepsAll-refl rows
  deliver_all-KeepsAll (r ∷ records) rows =
      KeepsAll-trans (update_rows-KeepsAll r.id (outcome c now r.attempts (deliver r.event)) rows)
        (deliver_all-KeepsAll records _)

  -- A batch, whatever it read before and whatever the transport answers, leaves each row in its place
  -- with its identifier and event, and leaves a row that is delivered or failed as it is.
  pub run_once-KeepsAll :
      (records : List (Row Event)) (corrupt : List CorruptRecord) (rows : List (Row Event))
      → KeepsAll rows (run_once deliver c now records corrupt rows).0
  unfolding run_once
  run_once-KeepsAll records corrupt rows =
      KeepsAll-trans (quarantine_all-KeepsAll corrupt rows) (deliver_all-KeepsAll records _)
