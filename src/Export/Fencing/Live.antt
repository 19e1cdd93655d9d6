-- ===== src/Export/Fencing/Live.antt =====
-- claimExport on an export whose owner is alive.
use snaplink_audit_governanc.Prelude.{
  ◌≡◌, ◌≢◌, refl, String, Bool, true, false, not, none, some, Option, lookup, ltb, get_or, ◌||◌,
  eq_iff, arith, ◌<◌,
}
use snaplink_audit_governanc.Domain.Errors.{Result, ok, err}
use snaplink_audit_governanc.Domain.Errors.Yields.{
  Yields, Yields-ok, Yields-err, Yields-if, Yields-after,
}
use snaplink_audit_governanc.Domain.Models.{ExportJob, ExportLease, no_lease, is_running}
use snaplink_audit_governanc.Service.{Service, Call}
use snaplink_audit_governanc.Store.Control.{Control, Change, skip, persist}
use snaplink_audit_governanc.Export.Lease.{ExportClaim}
use snaplink_audit_governanc.Export.Queue.{export_checkpoint_has_capacity}
use snaplink_audit_governanc.Export.Claim.{
  is_mismatched, claim_running, claim_found, claim_closure, claim_export,
}

-- A change that hands out nothing and writes nothing.
record Refuses (c : Change (Option ExportClaim)) : Type 0 where
  unchanged : c.changed ≡ false
  nothing : c.value ≡ none

module _ (s : Service) (call : Call) (owner : String) (d : Control) (lease : ExportLease)
    (alive : call.now < lease.expires_at) where
  Refuses-skip : Yields Refuses (skip d none)
  Refuses-skip = Yields-ok (record { unchanged = refl; nothing = refl })

  expired :
      (value : ExportJob)
      → lookup value.id d.export_leases ≡ some lease
      → (ltb call.now (get_or value.id no_lease d.export_leases).expires_at
          || not (export_checkpoint_has_capacity d.exports value.tenant_id))
        ≡ false
      → (r : Result (Change (Option ExportClaim))) → Yields Refuses r
  expired value leased dead r = ground (arith, leased, alive, dead)

  claim_running-Refuses :
      (value : ExportJob)
      → lookup value.id d.export_leases ≡ some lease
      → Yields Refuses (claim_running s call owner value d)
  unfolding claim_running
  claim_running-Refuses value leased =
      search
        (
          Yields-if,
          Yields-err,
          Yields-after,
          Refuses-skip,
          λ (dead : (ltb call.now (get_or value.id no_lease d.export_leases).expires_at
                    || not (export_checkpoint_has_capacity d.exports value.tenant_id))
                  ≡ false)
                (r : Result (Change (Option ExportClaim))).
              expired value leased dead r,
        )
        depth 9

  busy :
      (value : ExportJob)
      → is_running value.status ≡ true
      → is_running value.status ≡ false
      → (r : Result (Change (Option ExportClaim))) → Yields Refuses r
  busy value running idle r = ground (arith, running, idle)

  claim_found-Refuses :
      (job_id : String) (allow : Bool) (value : ExportJob)
      → is_running value.status ≡ true
      → lookup job_id d.export_leases ≡ some lease
      → Yields Refuses (claim_found s call owner job_id allow value d)
  unfolding claim_found
  claim_found-Refuses job_id allow value running leased =
      search
        (
          Yields-if,
          Yields-err,
          Refuses-skip,
          λ (sound : is_mismatched job_id value ≡ false).
              claim_running-Refuses value (ground (arith, leased, sound, eq_iff value.id job_id)),
          λ (idle : is_running value.status ≡ false) (r : Result (Change (Option ExportClaim))).
              busy value running idle r,
        )
        depth 9

refused :
    (d : Control) (r : Result (Change (Option ExportClaim)))
    → Yields Refuses r
    → ((persist d r).0 ≡ d) × ((claim : ExportClaim) → (persist d r).1 ≢ ok (some claim))
refused d (err e) y = (refl, λ claim h. ground (arith, h))
refused d (ok c) y =
    let quiet : c.changed ≡ false = y.at.unchanged in
    let empty : c.value ≡ none = y.at.nothing in
    (rw quiet refl, λ claim h. ground (arith, h, empty))

-- While the lease of a running export has not expired, a claim by anyone grants nothing and
-- leaves the data as they are.
pub claim_export-spares_live :
    (s : Service) (call : Call) (owner job_id : String) (allow : Bool) (d : Control)
    → (job : ExportJob) (lease : ExportLease) → lookup job_id d.exports ≡ some job
    → is_running job.status ≡ true
    → lookup job_id d.export_leases ≡ some lease
    → call.now < lease.expires_at
    → ((claim_export s call owner job_id allow d).0 ≡ d)
      × ((claim : ExportClaim) → (claim_export s call owner job_id allow d).1 ≢ ok (some claim))
unfolding claim_export claim_closure
claim_export-spares_live s call owner job_id allow d job lease found running leased alive =
    let y = claim_found-Refuses s call owner d lease alive job_id allow job running leased in
    refused d (claim_closure s call owner job_id allow d) (rw (claim_closure, found) y)
