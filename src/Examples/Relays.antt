-- ===== src/Examples/Relays.antt =====
-- The relay of the outbox, the optimistic loop of the store and a Merkle root.
use snaplink_audit_governanc.Prelude.{
  some, ℕ, ◌+◌, ◌-◌, ◌*◌, ◌≤◌, ◌≡◌, refl, String, Bool, true, false, [], ◌∷◌, min, arith,
}
use Prim.Native.Nat.{◌^◌}
use snaplink_audit_governanc.Domain.Errors.{Result, ok, err, snapshot_conflict}
use snaplink_audit_governanc.Ledger.{merkle_root}
use snaplink_audit_governanc.Ledger.Roots.{merkle_root_returns}
use snaplink_audit_governanc.Store.Cas.{Backend, other_commit, lost_reply, Fault, update_loop}
use snaplink_audit_governanc.Store.Cas.Atomic.{
  Outcome, commits, update_loop-Outcome, update_loop_converges, update_loop_exhausts,
}
use snaplink_audit_governanc.Outbox.Rows.{Row, pending, failed}
use snaplink_audit_governanc.Outbox.Relay.{
  Config, refused, base_backoff, max_backoff, backoff, run_once,
}
use snaplink_audit_governanc.Outbox.Backoff.{backoff-doubles}
use snaplink_audit_governanc.Outbox.Finality.{KeepsAll, run_once-KeepsAll}

abbrev increment : ℕ → Result (ℕ × Bool × ℕ)
increment n = ok (n + 1, true, n)

abbrev empty_backend : Backend ℕ
empty_backend = record { version = 1; snapshot = 0 }

update_loop-Outcome_example :
    Outcome increment
      (other_commit 5 ∷ lost_reply Fault.connection_lost ∷ [])
      empty_backend
      (update_loop increment 3
        (other_commit 5 ∷ lost_reply Fault.connection_lost ∷ [])
        empty_backend).0
      (update_loop increment 3
        (other_commit 5 ∷ lost_reply Fault.connection_lost ∷ [])
        empty_backend).1
update_loop-Outcome_example =
    update_loop-Outcome increment 3 (other_commit 5 ∷ lost_reply Fault.connection_lost ∷ [])
      empty_backend

update_loop_converges_example :
    (v : ℕ) × ((update_loop increment 3 (commits (5 ∷ 6 ∷ 7 ∷ [])) empty_backend).1 ≡ ok v)
update_loop_converges_example =
    update_loop_converges increment (λ n. (n + 1, n, refl)) 3 (5 ∷ 6 ∷ 7 ∷ []) empty_backend
      (omega arith)

update_loop_exhausts_example :
    (update_loop increment 3 (commits (5 ∷ 6 ∷ 7 ∷ 8 ∷ [])) empty_backend).1 ≡ err snapshot_conflict
update_loop_exhausts_example =
    update_loop_exhausts increment (λ n. (n + 1, n, refl)) 3 (5 ∷ 6 ∷ 7 ∷ 8 ∷ []) empty_backend
      (omega arith)

abbrev config : Config
config = record { max_attempts = 3; base_backoff = 10; max_backoff = 35 }

config-base : base_backoff config ≤ max_backoff config
unfolding base_backoff max_backoff
config-base = omega arith

backoff-doubles_example :
    backoff config 3 ≡ min (base_backoff config * 2 ^ (3 - 1)) (max_backoff config)
backoff-doubles_example = backoff-doubles config 3 config-base

abbrev row : ℕ → Row String
row id = record {
  id = id;
  event = "event";
  status = pending;
  attempts = 0;
  next_attempt_at = 0;
  last_error = "";
  delivered_at = 0;
  delivered_event_id = "";
  api_status = "";
}

abbrev dead : Row String
dead = record (row 2) { status = failed }

run_once-KeepsAll_example :
    KeepsAll
      (row 1 ∷ dead ∷ [])
      (run_once
        (λ event. refused "timeout" false)
        config
        50
        (row 1 ∷ row 2 ∷ [])
        []
        (row 1 ∷ dead ∷ [])).0
run_once-KeepsAll_example =
    run_once-KeepsAll (λ event. refused "timeout" false) config 50 (row 1 ∷ row 2 ∷ []) []
      (row 1 ∷ dead ∷ [])

merkle_root_returns_example :
    (root : String) × (merkle_root (λ text. text) ("a" ∷ "b" ∷ "c" ∷ []) ≡ some root)
merkle_root_returns_example = merkle_root_returns (λ text. text) ("a" ∷ "b" ∷ "c" ∷ [])
