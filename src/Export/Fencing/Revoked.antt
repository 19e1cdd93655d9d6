-- ===== src/Export/Fencing/Revoked.antt =====
-- CancelExport against the execution that was running.
use snaplink_audit_governanc.Prelude.{
  ◌≡◌, refl, subst, String, true, false, none, lookup, lookup-delete, eq_refl, eq_iff, arith,
  Bool-cases, inl, inr, Option-cases,
}
use snaplink_audit_governanc.Domain.Errors.{Result, ok, err}
use snaplink_audit_governanc.Domain.Errors.Yields.{
  Yields, Yields-ok, Yields-err, Yields-if, Yields-after,
}
use snaplink_audit_governanc.Domain.Models.{ExportJob, ExportSummary}
use snaplink_audit_governanc.Service.{Service, Call}
use snaplink_audit_governanc.Store.Control.{
  Control, Change, skip, save, persist, append_admin_action,
}
use snaplink_audit_governanc.Export.Lease.{ExportClaim}
use snaplink_audit_governanc.Export.Owner.{
  owned_export, cancel_repeated, revoke, cancel_owned, cancel_closure, cancel_export, has_execution,
}
use snaplink_audit_governanc.Export.Fencing.Takeovers.{IsFenced, disowned-IsFenced}

-- What stands for a job that was cancelled: no lease, checkpoint or plan.
pub record IsRevoked (key : String) (d : Control) : Type 0 where
  pub lease : lookup key d.export_leases ≡ none
  pub checkpoint : lookup key d.export_checkpoints ≡ none
  pub plan : lookup key d.export_plans ≡ none

-- A change that leaves the job of `key` revoked, whether it writes or not.
record Revokes (key : String) (d : Control) (c : Change ExportSummary) : Type 0 where
  written : c.changed ≡ true → IsRevoked key c.after
  kept : c.changed ≡ false → IsRevoked key d

module _ (s : Service) (call : Call) (actor : String) (job : ExportJob) (d : Control) where
  revoke-Revokes :
      (v : ExportSummary) → Yields (Revokes job.id d) (save (revoke s call actor job d) v)
  unfolding revoke append_admin_action
  revoke-Revokes v = Yields-ok (record {
    written = λ _. record {
      lease = rw (lookup-delete job.id job.id d.export_leases, eq_refl job.id) refl;
      checkpoint = rw (lookup-delete job.id job.id d.export_checkpoints, eq_refl job.id) refl;
      plan = rw (lookup-delete job.id job.id d.export_plans, eq_refl job.id) refl;
    };
    kept = λ h. cc;
  })

  repeated-Revokes :
      (v : ExportSummary) → has_execution job.id d ≡ false → Yields (Revokes job.id d) (skip d v)
  repeated-Revokes v h = Yields-ok (record {
    written = λ h. cc;
    kept = λ _. record {
      lease = ground (arith, h);
      checkpoint = ground (arith, h);
      plan = ground (arith, h);
    };
  })

  cancel_owned-Revokes : Yields (Revokes job.id d) (cancel_owned s call actor job d)
  unfolding cancel_owned cancel_repeated
  cancel_owned-Revokes =
      search (Yields-if, Yields-err, Yields-after, revoke-Revokes, repeated-Revokes) depth 9

owned_export-id :
    (d : Control) (tenant actor job_id : String) (job : ExportJob)
    → owned_export d tenant actor job_id ≡ ok job
    → job.id ≡ job_id
unfolding owned_export
owned_export-id d tenant actor job_id job h = elim (Option-cases (lookup job_id d.exports)) [
  | inl gone ↦ ground (arith, h, gone)
  | inr (found, at) ↦ ground (arith, h, at, eq_iff found.id job_id)
]

cancel_closure-Revokes :
    (s : Service) (call : Call) (tenant actor job_id : String) (d : Control)
    → Yields (Revokes job_id d) (cancel_closure s call tenant actor job_id d)
unfolding cancel_closure
cancel_closure-Revokes s call tenant actor job_id d = Yields-after (λ job h.
    subst (λ k. Yields (Revokes k d) (cancel_owned s call actor job d))
      (owned_export-id d tenant actor job_id job h) (cancel_owned-Revokes s call actor job d))

revoked :
    (key : String) (d after : Control) (summary : ExportSummary) (r : Result (Change ExportSummary))
    → Yields (Revokes key d) r
    → persist d r ≡ (after, ok summary)
    → IsRevoked key after
revoked key d after summary (err e) y h = ground (arith, h)
revoked key d after summary (ok c) y h = elim (Bool-cases c.changed) [
  | inl saved ↦
      let e : c.after ≡ after = ground (arith, h, saved) in
      subst (IsRevoked key) e (y.at.written saved)
  | inr quiet ↦
      let e : d ≡ after = ground (arith, h, quiet) in subst (IsRevoked key) e (y.at.kept quiet)
]

-- A cancellation that succeeds, the first time or repeated, leaves no lease, checkpoint or plan of
-- the export, and fences every execution of it.
pub cancel_export-fences :
    (s : Service) (call : Call) (tenant actor job_id : String) (d after : Control)
    → (summary : ExportSummary) (claim : ExportClaim)
    → cancel_export s call tenant actor job_id d ≡ (after, ok summary)
    → claim.job.id ≡ job_id
    → IsRevoked job_id after × IsFenced s claim after
unfolding cancel_export
cancel_export-fences s call tenant actor job_id d after summary claim h same =
    let gone : IsRevoked job_id after =
      revoked job_id d after summary (cancel_closure s call tenant actor job_id d)
        (cancel_closure-Revokes s call tenant actor job_id d) h in
    (gone, disowned-IsFenced s claim after (ground (arith, same, gone.lease)))
