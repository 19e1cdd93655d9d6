-- ===== src/Export/Slots/Tables.antt =====
-- The ceilings as invariants of the table of exports, and what a write of one entry does to them.
use snaplink_audit_governanc.Prelude.{
  ◌≤◌, ◌≡◌, String, true, false, some, Table, lookup, insert, count, count-insert, eq_iff, arith,
}
use snaplink_audit_governanc.Domain.Models.{ExportJob, is_running}
use snaplink_audit_governanc.Export.Queue.{
  export_concurrency, export_tenant_concurrency, max_pending_exports,
  max_pending_exports_per_tenant, occupies, occupies_of, is_queued, is_queued_of,
  export_claim_has_capacity, export_queue_has_capacity,
}

-- At most two exports run, and at most one of each tenant.
pub record IsWithinSlots (m : Table ExportJob) : Type 0 where
  pub total : count occupies m ≤ export_concurrency
  pub each : (tenant : String) → count (occupies_of tenant) m ≤ export_tenant_concurrency

-- At most 128 exports are pending or running, and at most 32 of each tenant.
pub record IsWithinQueue (m : Table ExportJob) : Type 0 where
  pub total : count is_queued m ≤ max_pending_exports
  pub each : (tenant : String) → count (is_queued_of tenant) m ≤ max_pending_exports_per_tenant

module _ (m : Table ExportJob) (k : String) (job : ExportJob) where
  -- a started export takes a slot that the claim's test found free
  pub IsWithinSlots-start :
      IsWithinSlots m
      → export_claim_has_capacity m job.tenant_id ≡ true
      → IsWithinSlots (insert k job m)
  unfolding export_claim_has_capacity
  IsWithinSlots-start w free = record {
    total = ground (arith, count-insert occupies k job m);
    each =
        λ t. ground (arith, w.each t, eq_iff job.tenant_id t, count-insert (occupies_of t) k job m);
  }

  -- an export that does not run takes none
  pub IsWithinSlots-idle :
      IsWithinSlots m → is_running job.status ≡ false → IsWithinSlots (insert k job m)
  IsWithinSlots-idle w idle = record {
    total = ground (arith, count-insert occupies k job m);
    each = λ t. ground (arith, w.each t, count-insert (occupies_of t) k job m);
  }

  -- a write over a running export of the same tenant takes no further slot
  pub IsWithinSlots-replace :
      (old : ExportJob)
      → IsWithinSlots m
      → lookup k m ≡ some old
      → is_running old.status ≡ true
      → old.tenant_id ≡ job.tenant_id
      → IsWithinSlots (insert k job m)
  IsWithinSlots-replace old w found running tenant = record {
    total = ground (arith, count-insert occupies k job m);
    each = λ t. ground (arith, w.each t, count-insert (occupies_of t) k job m);
  }

  pub IsWithinQueue-idle : IsWithinQueue m → is_queued job ≡ false → IsWithinQueue (insert k job m)
  IsWithinQueue-idle w idle = record {
    total = ground (arith, count-insert is_queued k job m);
    each = λ t. ground (arith, w.each t, count-insert (is_queued_of t) k job m);
  }

  pub IsWithinQueue-admit :
      IsWithinQueue m
      → export_queue_has_capacity m job.tenant_id ≡ true
      → IsWithinQueue (insert k job m)
  unfolding export_queue_has_capacity
  IsWithinQueue-admit w free = record {
    total = ground (arith, count-insert is_queued k job m);
    each = λ t.
        ground (arith, w.each t, eq_iff job.tenant_id t, count-insert (is_queued_of t) k job m);
  }

  -- a write over a queued export of the same tenant admits nothing
  pub IsWithinQueue-replace :
      (old : ExportJob)
      → IsWithinQueue m
      → lookup k m ≡ some old
      → is_queued old ≡ true
      → old.tenant_id ≡ job.tenant_id
      → IsWithinQueue (insert k job m)
  IsWithinQueue-replace old w found queued tenant = record {
    total = ground (arith, count-insert is_queued k job m);
    each = λ t. ground (arith, w.each t, count-insert (is_queued_of t) k job m);
  }
