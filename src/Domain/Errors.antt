-- ===== src/Domain/Errors.antt =====
-- The error values that the services return (internal/domain, internal/service, internal/store),
-- and fallible results. Messages are left out; `fmt.Errorf("%w")` keeps the wrapped value.
pub mod Yields

pub data Err : Type 0 where
  invalid not_found forbidden conflict quota_exceeded tenant_mismatch : Err
  -- `errExportLeaseLost`; `errExportPlanInvalid` and `errExportCheckpointInvalid` wrap `ErrConflict`
  lease_lost plan_invalid checkpoint_invalid : Err
  -- `ErrSnapshotConflict`, `ErrOperationDeadline`, any other failure of a backend or a service
  snapshot_conflict deadline failure : Err

pub data Result {ℓ} (A : Type ℓ) : Type ℓ where
  ok : A → Result A
  err : Err → Result A

-- `if err != nil { return err }` between two steps.
module _ {ℓ κ} {A : Type ℓ} {B : Type κ} where
  infixl 5 ◌>>=◌
  abbrev pub ◌>>=◌ : Result A → (A → Result B) → Result B
  err reason >>= next = err reason
  ok value >>= next = next value

module _ {ℓ} {B : Type ℓ} where
  infixl 5 ◌>>◌
  abbrev pub ◌>>◌ : Result (Unit {0}) → Result B → Result B
  check >> next = check >>= λ done. next
