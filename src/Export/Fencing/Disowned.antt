-- ===== src/Export/Fencing/Disowned.antt =====
-- An execution whose lease is gone, or names another owner.
use snaplink_audit_governanc.Prelude.{
  ℕ, ◌≡◌, refl, Bool, true, false, not, none, some, lookup, get_or, ◌==◌, eq_iff, arith, Bool-cases,
  Option-cases, inl, inr,
}
use snaplink_audit_governanc.Domain.Errors.{ok, err, lease_lost}
use snaplink_audit_governanc.Domain.Models.{ExportJob, no_job}
use snaplink_audit_governanc.Service.{Service, Call}
use snaplink_audit_governanc.Store.Control.{Control}
use snaplink_audit_governanc.Export.Lease.{
  ExportClaim, owns_export_lease, lease_is_owned, renew_closure, renew_export_lease,
  check_export_lease,
}
use snaplink_audit_governanc.Export.Checkpoint.{Ending}
use snaplink_audit_governanc.Export.Terminal.{
  OnWrite, terminal_found, terminal_closure, persist_terminal_export,
}

abbrev pub is_disowned : ExportClaim → Control → Bool
is_disowned claim d = elim (lookup claim.job.id d.export_leases) [
  | none ↦ true
  | some lease ↦ not (lease.owner == claim.owner)
]

disowned-owns :
    (claim : ExportClaim) (d : Control) (job : ExportJob) (now : ℕ)
    → is_disowned claim d ≡ true
    → owns_export_lease d job claim now ≡ false
unfolding owns_export_lease lease_is_owned
disowned-owns claim d job now h = elim (Bool-cases (job.id == claim.job.id)) [
  | inl same ↦
      let e : job.id ≡ claim.job.id = ground (arith, same, eq_iff job.id claim.job.id) in
      elim (Option-cases (lookup claim.job.id d.export_leases)) [
        | inl gone ↦ ground (arith, h, gone, e)
        | inr (lease, found) ↦ ground (arith, h, found, e)
      ]
  | inr differs ↦ elim (Option-cases (lookup job.id d.export_leases)) [
    | inl gone ↦ ground (arith, gone)
    | inr (lease, found) ↦ ground (arith, found, differs)
  ]
]

pub disowned_check :
    (claim : ExportClaim) (now : ℕ) (d : Control)
    → is_disowned claim d ≡ true
    → check_export_lease claim now d ≡ err lease_lost
unfolding check_export_lease
disowned_check claim now d h =
    rw (disowned-owns claim d (get_or claim.job.id no_job d.exports) now h) refl

pub disowned_renew :
    (claim : ExportClaim) (now : ℕ) (d : Control)
    → is_disowned claim d ≡ true
    → renew_export_lease claim now d ≡ (d, err lease_lost)
unfolding renew_export_lease renew_closure
disowned_renew claim now d h =
    rw (disowned-owns claim d (get_or claim.job.id no_job d.exports) now h) refl

pub disowned_finish :
    (s : Service) (call : Call) (claim : ExportClaim) (e : Ending) (on : OnWrite) (d : Control)
    → is_disowned claim d ≡ true
    → persist_terminal_export s call claim e on d ≡ (d, ok tt)
unfolding persist_terminal_export terminal_closure terminal_found
disowned_finish s call claim e on d h = elim (Option-cases (lookup claim.job.id d.exports)) [
  | inl gone ↦ ground (arith, gone)
  | inr (job, found) ↦ ground (arith, found, disowned-owns claim d job call.now h)
]
