-- ===== src/Export/Lifecycle/Histories.antt =====
-- The life cycle under one operation, and under histories of them.
use snaplink_audit_governanc.Prelude.{
  ℕ, ◌≡◌, refl, subst, ltb, eq_iff, Option-cases, inl, inr, String, Bool, true, not, ◌||◌, Option,
  some, none, lookup, arith,
}
use snaplink_audit_governanc.Domain.Models.{ExportJob, ExportLease, is_pending, is_running}
use snaplink_audit_governanc.Service.{Service, Call}
use snaplink_audit_governanc.Store.Control.{Control}
use snaplink_audit_governanc.Store.Control.Keeps.{persist-keeps}
use snaplink_audit_governanc.Export.Operations.{
  Operation, create, retry, cancel, claim, renew, finish, recover, perform,
}
use snaplink_audit_governanc.Export.Lease.{ExportClaim, owns_export_lease, lease_is_owned}
use snaplink_audit_governanc.Export.Lifecycle.Moves.{
  Enders, Moves, stays, starts, cancels, ends, fails, HasUniqueKeys, IsSoundStep, IsSoundStep-same,
}
use snaplink_audit_governanc.Export.Lifecycle.Requests.{
  create_closure_sound, retry_closure_sound, renew_closure_sound, cancel_closure_sound,
}
use snaplink_audit_governanc.Export.Lifecycle.Claims.{claim_closure_sound, terminal_closure_sound}
use snaplink_audit_governanc.Export.Lifecycle.Recoveries.{recover_closure_sound}

-- The claim is for this job, and its owner holds the lease of the job, which has not expired.
pub record IsLeaseOwner (d : Control) (job : ExportJob) (c : ExportClaim) (now : ℕ) : Type 0 where
  pub lease : ExportLease
  pub found : lookup job.id d.export_leases ≡ some lease
  pub claimed : job.id ≡ c.job.id
  pub owner : lease.owner ≡ c.owner
  pub lives : ltb now lease.expires_at ≡ true

-- Who ends a job by the operation: the holder of its lease, as the operation reports it.
unfoldable pub EndedBy : Operation → Call → Control → Enders
EndedBy (finish c e on) call d job ending on_write now =
    IsLeaseOwner d job c call.now × (ending ≡ e) × (on_write ≡ on) × (now ≡ call.now)
EndedBy _ call d job ending on_write now = ⊥

leased-IsLeaseOwner :
    (d : Control) (job : ExportJob) (c : ExportClaim) (now : ℕ)
    → owns_export_lease d job c now ≡ true
    → IsLeaseOwner d job c now
unfolding owns_export_lease lease_is_owned
leased-IsLeaseOwner d job c now h = elim (Option-cases (lookup job.id d.export_leases)) [
  | inl gone ↦ absurd (ground (arith, h, gone))
  | inr (lease, at) ↦ record {
    lease = lease;
    found = at;
    claimed = ground (arith, h, at, eq_iff job.id c.job.id);
    owner = ground (arith, h, at, eq_iff lease.owner c.owner);
    lives = ground (arith, h, at);
  }
]

-- Where the keys are unique and the identifier that the call draws is new, one operation moves the
-- job of each key by at most one move of its life (admitted as pending, started, cancelled, ended by
-- an operation of the claim whose owner holds the job's live lease, failed by recovery), and the keys
-- stay unique.
pub perform-IsSoundStep :
    (s : Service) (call : Call) (op : Operation) (d : Control)
    → HasUniqueKeys d.exports
    → lookup (call.fresh 0) d.exports ≡ none
    → IsSoundStep (EndedBy op call d) d.exports (perform s call op d).exports
unfolding perform EndedBy
perform-IsSoundStep s call (create t a q b) d u new =
    persist-keeps d (IsSoundStep-same d.exports u) (create_closure_sound _ s call t a q b d u new)
perform-IsSoundStep s call (retry t a j b) d u new =
    persist-keeps d (IsSoundStep-same d.exports u) (retry_closure_sound _ s call t a j b d u)
perform-IsSoundStep s call (cancel t a j) d u new =
    persist-keeps d (IsSoundStep-same d.exports u) (cancel_closure_sound _ s call t a j d u)
perform-IsSoundStep s call (claim o j sealed) d u new =
    persist-keeps d (IsSoundStep-same d.exports u) (claim_closure_sound _ s call o j sealed d u)
perform-IsSoundStep s call (renew c) d u new =
    persist-keeps d (IsSoundStep-same d.exports u) (renew_closure_sound _ c call.now d u)
perform-IsSoundStep s call (finish c e on) d u new =
    persist-keeps d (IsSoundStep-same d.exports u) (
      terminal_closure_sound _ s call c e on d u
        (λ job owned. (leased-IsLeaseOwner d job c call.now owned, refl, refl, refl)))
perform-IsSoundStep s call (recover t l) d u new =
    persist-keeps d (IsSoundStep-same d.exports u) (recover_closure_sound _ s call t l d u)

-- A history: operations in any order, each with an identifier that is new to the table.
pub data History (s : Service) : Control → Control → Type 0 where
  start : {d : Control} → History s d d
  then_by :
      {d after : Control} (call : Call) (op : Operation)
      → lookup (call.fresh 0) d.exports ≡ none
      → History s (perform s call op d) after
      → History s d after

abbrev pub is_ended : ExportJob → Bool
is_ended job = not (is_pending job.status || is_running job.status)

ended-stays :
    {P : Enders} (job : ExportJob) (o : Option ExportJob)
    → is_ended job ≡ true
    → Moves P (some job) o
    → o ≡ some job
ended-stays job _ h stays = refl
ended-stays job _ h (starts now p) = ground (arith, h, p)
ended-stays job _ h (cancels now p) = ground (arith, h, p)
ended-stays job _ h (ends e on now p may) = ground (arith, h, p)
ended-stays job _ h (fails d now p) = ground (arith, h, p)

-- An export that is neither pending nor running stays as it is, field for field, under every history.
pub ended_is_final :
    (s : Service) (d after : Control) (key : String) (job : ExportJob)
    → HasUniqueKeys d.exports
    → lookup key d.exports ≡ some job
    → is_ended job ≡ true
    → History s d after
    → lookup key after.exports ≡ some job
ended_is_final s d after key job u found ended start = found
ended_is_final s d after key job u found ended (then_by call op new rest) =
    let sound = perform-IsSoundStep s call op d u new in
    let kept : lookup key (perform s call op d).exports ≡ some job = ended-stays job _ ended (
      subst (λ o. Moves (EndedBy op call d) o (lookup key (perform s call op d).exports)) found
        (sound.moves.at key)) in
    ended_is_final s (perform s call op d) after key job sound.unique kept ended rest
