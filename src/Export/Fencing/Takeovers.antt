-- ===== src/Export/Fencing/Takeovers.antt =====
-- claimExport by a new owner, and what an old one still can do.
use snaplink_audit_governanc.Prelude.{ℕ, ◌≡◌, ◌≢◌, String, Bool, true, some, eq_iff, arith}
use snaplink_audit_governanc.Domain.Errors.{ok, err, lease_lost}
use snaplink_audit_governanc.Service.{Service, Call}
use snaplink_audit_governanc.Store.Control.{Control}
use snaplink_audit_governanc.Export.Lease.{ExportClaim, renew_export_lease, check_export_lease}
use snaplink_audit_governanc.Export.Checkpoint.{Ending}
use snaplink_audit_governanc.Export.Claim.{claim_export}
use snaplink_audit_governanc.Export.Terminal.{OnWrite, persist_terminal_export}
use snaplink_audit_governanc.Export.Fencing.Disowned.{
  is_disowned, disowned_check, disowned_renew, disowned_finish,
}
use snaplink_audit_governanc.Export.Fencing.Grants.{claim_export-IsGranted}

-- What an execution that lost its lease can still do: nothing. Its checks and heartbeats fail, and
-- the end that it reports is not written.
pub record IsFenced (s : Service) (claim : ExportClaim) (d : Control) : Type 0 where
  pub checks : (now : ℕ) → check_export_lease claim now d ≡ err lease_lost
  pub renews : (now : ℕ) → renew_export_lease claim now d ≡ (d, err lease_lost)
  pub finishes :
      (call : Call) (e : Ending) (on : OnWrite)
      → persist_terminal_export s call claim e on d ≡ (d, ok tt)

pub disowned-IsFenced :
    (s : Service) (claim : ExportClaim) (d : Control)
    → is_disowned claim d ≡ true
    → IsFenced s claim d
disowned-IsFenced s claim d h = record {
  checks = λ now. disowned_check claim now d h;
  renews = λ now. disowned_renew claim now d h;
  finishes = λ call e on. disowned_finish s call claim e on d h;
}

-- Once a claim of a job is granted to one owner, every execution of that job under another owner is
-- fenced: in the data after the claim it fails each check and heartbeat with `lease_lost`, which
-- writes nothing, and the end that it reports is dropped without a write.
pub claim_export-fences :
    (s : Service) (call : Call) (owner job_id : String) (allow : Bool) (d after : Control)
    → (new old : ExportClaim) → claim_export s call owner job_id allow d ≡ (after, ok (some new))
    → old.job.id ≡ job_id
    → old.owner ≢ owner
    → IsFenced s old after
claim_export-fences s call owner job_id allow d after new old h same other =
    let g = claim_export-IsGranted owner job_id s call allow d after new h in
    let lost : is_disowned old after ≡ true =
      ground (arith, same, other, g.leased.1.0, g.leased.1.1, eq_iff g.leased.0.owner old.owner) in
    disowned-IsFenced s old after lost
