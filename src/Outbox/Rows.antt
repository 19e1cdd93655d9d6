-- ===== src/Outbox/Rows.antt =====
-- internal/outbox/postgres.go: the rows of audit_outbox, and the update of one of them under the
-- condition `status = 'pending'`; internal/outbox/identity.go, identityMismatch. What PostgreSQL does
-- with the statement is written out; NULL is the zero value, as `nullableString` makes it.
use snaplink_audit_governanc.Prelude.{
  ℕ, suc, String, Bool, true, false, not, ◌&&◌, ◌||◌, List, [], ◌∷◌, Option, none, some, eqb, ◌==◌,
  if◌then◌else◌,
}

pub data RowStatus : Type 0 where
  pending delivered failed : RowStatus

abbrev pub is_waiting : RowStatus → Bool
is_waiting pending = true
is_waiting _ = false

-- `Event` is what the payload decodes to; the columns stand beside it.
pub record Row {ℓ} (Event : Type ℓ) : Type ℓ where
  pub id : ℕ
  pub event : Event
  pub status : RowStatus
  pub attempts : ℕ
  pub next_attempt_at : ℕ
  pub last_error : String
  pub delivered_at : ℕ
  pub delivered_event_id : String
  pub api_status : String

pub record Update : Type 0 where
  pub status : RowStatus
  pub attempts : ℕ
  pub next_attempt_at : ℕ
  pub last_error : String
  pub delivered_at : ℕ
  pub delivered_event_id : String
  pub api_status : String

module _ {ℓ} {Event : Type ℓ} where
  abbrev pub patched : Row Event → Update → Row Event
  patched row patch = record row {
    status = patch.status;
    attempts = patch.attempts;
    next_attempt_at = patch.next_attempt_at;
    last_error = patch.last_error;
    delivered_at = patch.delivered_at;
    delivered_event_id = patch.delivered_event_id;
    api_status = patch.api_status;
  }

  -- `WHERE id = $8 AND status = 'pending'`
  abbrev pub is_target : ℕ → Row Event → Bool
  is_target id row = eqb row.id id && is_waiting row.status

  -- The rows after the statement, and how many it affected.
  unfoldable pub update_rows : ℕ → Update → List (Row Event) → List (Row Event) × ℕ
  update_rows id patch [] = ([], 0)
  update_rows id patch (row ∷ rows) =
      let rest = update_rows id patch rows in
      if is_target id row then (patched row patch ∷ rest.0, suc rest.1) else (row ∷ rest.0, rest.1)

-- The columns that repeat the payload's identity; `none` is NULL, or no timestamp.
pub record RowIdentity : Type 0 where
  pub event_id : Option String
  pub tenant_id : Option String
  pub idempotency_key : Option String
  pub occurred_at : Option ℕ

pub record EventIdentity : Type 0 where
  pub event_id : String
  pub tenant_id : String
  pub idempotency_key : String
  pub occurred_at : ℕ

abbrev pub text_agrees : Option String → String → Bool
text_agrees none b = false
text_agrees (some a) b = not (a == "") && not (b == "") && a == b

abbrev pub time_agrees : Option ℕ → ℕ → Bool
time_agrees none b = false
time_agrees (some a) b = not (eqb a 0) && not (eqb b 0) && eqb a b

-- `identityMismatch` without its message
unfoldable pub identity_mismatch : RowIdentity → EventIdentity → Bool
identity_mismatch row event =
    not (text_agrees row.event_id event.event_id)
    || not (text_agrees row.tenant_id event.tenant_id)
    || not (text_agrees row.idempotency_key event.idempotency_key)
    || not (time_agrees row.occurred_at event.occurred_at)
