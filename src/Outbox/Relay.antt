-- ===== src/Outbox/Relay.antt =====
-- internal/outbox/relay.go: the outcome of one delivery, its bookkeeping, and a batch. `deliver` is the
-- transport. The logger, and a failed statement that is only logged, are left out.
use snaplink_audit_governanc.Prelude.{
  ℕ, suc, zero, ◌+◌, ◌*◌, ◌-◌, String, Bool, ◌||◌, List, [], ◌∷◌, eqb, leb, ltb, if◌then◌else◌,
  length,
}
use snaplink_audit_governanc.Outbox.Rows.{Row, pending, delivered, failed, Update, update_rows}

-- `Relay`: a field that is not positive has the default of its accessor.
pub record Config : Type 0 where
  pub max_attempts : ℕ
  pub base_backoff : ℕ
  pub max_backoff : ℕ

unfoldable pub max_attempts : Config → ℕ
max_attempts c = if eqb c.max_attempts 0 then 8 else c.max_attempts

unfoldable pub base_backoff : Config → ℕ
base_backoff c = if eqb c.base_backoff 0 then 1_000_000_000 else c.base_backoff

unfoldable pub max_backoff : Config → ℕ
max_backoff c = if eqb c.max_backoff 0 then 5 * 60 * 1_000_000_000 else c.max_backoff

-- The loop of `backoff`; the number is of the rounds left.
unfoldable pub backoff_loop : ℕ → ℕ → ℕ → ℕ
backoff_loop top zero backoff = backoff
backoff_loop top (suc i) backoff =
    let rest = backoff_loop top i (backoff * 2) in
    if ltb backoff top then if ltb top (backoff * 2) then top else rest else backoff

unfoldable pub backoff : Config → ℕ → ℕ
backoff c attempt = backoff_loop (max_backoff c) (attempt - 1) (base_backoff c)

-- A receipt's event and status, or the cause of a failure and whether it is permanent.
pub data Delivery : Type 0 where
  received : (event_id status : String) → Delivery
  sent : Delivery
  refused : (cause : String) → (permanent : Bool) → Delivery

unfoldable pub succeed : ℕ → ℕ → String → String → Update
succeed now attempts event_id status = record {
  status = delivered;
  attempts = attempts + 1;
  next_attempt_at = now;
  last_error = "";
  delivered_at = now;
  delivered_event_id = event_id;
  api_status = status;
}

unfoldable pub fail : Config → ℕ → ℕ → String → Bool → Update
fail c now attempts cause permanent =
    let next = attempts + 1 in
    let dead = permanent || leb (max_attempts c) next in
    record {
      status = if dead then failed else pending;
      attempts = next;
      next_attempt_at = if dead then now else now + backoff c next;
      last_error = cause;
      delivered_at = 0;
      delivered_event_id = "";
      api_status = "";
    }

-- A corrupt row is dead at once.
unfoldable pub quarantine : ℕ → ℕ → String → Update
quarantine now attempts cause = record {
  status = failed;
  attempts = attempts + 1;
  next_attempt_at = now;
  last_error = cause;
  delivered_at = 0;
  delivered_event_id = "";
  api_status = "";
}

unfoldable pub outcome : Config → ℕ → ℕ → Delivery → Update
outcome c now attempts (received event_id status) = succeed now attempts event_id status
outcome c now attempts sent = succeed now attempts "" ""
outcome c now attempts (refused cause permanent) = fail c now attempts cause permanent

-- A corrupt record of the batch: its row, its attempts and the diagnosis.
pub record CorruptRecord : Type 0 where
  pub id : ℕ
  pub attempts : ℕ
  pub cause : String

module _ {ℓ} {Event : Type ℓ} (deliver : Event → Delivery) (c : Config) (now : ℕ) where
  unfoldable pub quarantine_all : List CorruptRecord → List (Row Event) → List (Row Event)
  quarantine_all [] rows = rows
  quarantine_all (r ∷ corrupt) rows =
      quarantine_all corrupt (update_rows r.id (quarantine now r.attempts r.cause) rows).0

  unfoldable pub deliver_all : List (Row Event) → List (Row Event) → List (Row Event)
  deliver_all [] rows = rows
  deliver_all (r ∷ records) rows =
      deliver_all records (update_rows r.id (outcome c now r.attempts (deliver r.event)) rows).0

  -- `RunOnce` on the batch that ListPending read; the rows may have changed since.
  unfoldable pub run_once :
      List (Row Event) → List CorruptRecord → List (Row Event) → List (Row Event) × ℕ
  unfolding quarantine_all deliver_all
  run_once records corrupt rows =
      (deliver_all records (quarantine_all corrupt rows), length corrupt + length records)
