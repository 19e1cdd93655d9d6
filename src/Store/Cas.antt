-- ===== src/Store/Cas.antt =====
-- internal/store/store.go, updateChecked: the optimistic loop over a backend whose Save fails with
-- ErrSnapshotConflict when another instance persisted a snapshot after this one loaded it.
-- `Backend` is the row of internal/store/postgres.go: a version and a snapshot. What other
-- instances and the connection do between the Load and the Save of an attempt is its `Turn`. The row
-- exists: the insert of the first Save into an empty table is left out.
pub mod Atomic
use snaplink_audit_governanc.Prelude.{
  ℕ, zero, suc, Bool, true, false, List, [], ◌∷◌, if◌then◌else◌, eqb,
}
use snaplink_audit_governanc.Domain.Errors.{
  Err, Result, ok, err, snapshot_conflict, deadline, failure,
}

pub record Backend {ℓ} (S : Type ℓ) : Type ℓ where
  pub version : ℕ
  pub snapshot : S

-- A statement that did not report success; it never reports a version conflict.
pub data Fault : Type 0 where
  deadline_passed connection_lost : Fault

abbrev pub fault_err : Fault → Err
fault_err deadline_passed = deadline
fault_err connection_lost = failure

-- `lost_reply`: the row was written, and the answer did not come back.
pub data Turn {ℓ} (S : Type ℓ) : Type ℓ where
  quiet : Turn S
  other_commit : S → Turn S
  save_fails : Fault → Turn S
  lost_reply : Fault → Turn S

abbrev pub conflict_retries : ℕ
conflict_retries = 3

module _ {ℓ} {S : Type ℓ} where
  abbrev pub commit : S → Backend S → Backend S
  commit snapshot b = record { version = suc b.version; snapshot = snapshot }

  -- The other instances' part of a turn.
  abbrev pub disturb : Turn S → Backend S → Backend S
  disturb (other_commit s) b = commit s b
  disturb _ b = b

  -- `UPDATE … SET version = version + 1 WHERE id = 1 AND version = $loaded`
  abbrev pub save_if : ℕ → S → Backend S → Backend S × Result (Unit {0})
  save_if loaded snapshot b =
      if eqb loaded b.version then (commit snapshot b, ok tt) else (b, err snapshot_conflict)

  pub save : ℕ → S → Turn S → Backend S → Backend S × Result (Unit {0})
  save loaded snapshot (save_fails f) b = (b, err (fault_err f))
  save loaded snapshot (lost_reply f) b = ((save_if loaded snapshot b).0, err (fault_err f))
  save loaded snapshot _ b = save_if loaded snapshot b

  abbrev pub head_turn : List (Turn S) → Turn S
  head_turn [] = quiet
  head_turn (t ∷ ts) = t

  abbrev pub tail_turns : List (Turn S) → List (Turn S)
  tail_turns [] = []
  tail_turns (t ∷ ts) = ts

-- One round of the loop: it returns, or Save reported a conflict.
pub data Round {ℓ κ} (S : Type ℓ) (A : Type κ) : Type (ℓ ⊔ κ) where
  returned : Backend S → Result A → Round S A
  conflicted : Backend S → Round S A

module _ {ℓ κ} {S : Type ℓ} {A : Type κ} where
  abbrev pub after_save : A → Backend S → Result (Unit {0}) → Round S A
  after_save value b (ok _) = returned b (ok value)
  after_save value b (err snapshot_conflict) = conflicted b
  after_save value b (err e) = returned b (err e)

  abbrev pub after_closure : Turn S → Backend S → Result (S × Bool × A) → Round S A
  after_closure turn b (err e) = returned (disturb turn b) (err e)
  after_closure turn b (ok (after, false, value)) = returned (disturb turn b) (ok value)
  after_closure turn b (ok (after, true, value)) =
      let (b', saved) = save b.version after turn (disturb turn b) in after_save value b' saved

  pub attempt : (S → Result (S × Bool × A)) → Turn S → Backend S → Round S A
  unfolding save
  attempt closure turn b = after_closure turn b (closure b.snapshot)

  abbrev pub settle : Round S A → Backend S × Result A
  settle (returned b r) = (b, r)
  settle (conflicted b) = (b, err snapshot_conflict)

  abbrev pub continue_with : (Backend S → Backend S × Result A) → Round S A → Backend S × Result A
  continue_with go_on (returned b r) = (b, r)
  continue_with go_on (conflicted b) = go_on b

  -- The number is the attempts that are left after this one.
  pub update_loop :
      (S → Result (S × Bool × A)) → ℕ → List (Turn S) → Backend S → Backend S × Result A
  update_loop closure zero turns b = settle (attempt closure (head_turn turns) b)
  update_loop closure (suc left) turns b =
      continue_with (λ c. update_loop closure left (tail_turns turns) c)
        (attempt closure (head_turn turns) b)
