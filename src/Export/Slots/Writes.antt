-- ===== src/Export/Slots/Writes.antt =====
-- What each kind of write to the table of exports does to the two ceilings.
use snaplink_audit_governanc.Prelude.{
  ℕ, ◌≡◌, refl, String, true, false, not, some, lookup, insert, arith,
}
use snaplink_audit_governanc.Domain.Models.{ExportJob, Query, is_running, is_pending}
use snaplink_audit_governanc.Service.{Call}
use snaplink_audit_governanc.Store.Control.{Control}
use snaplink_audit_governanc.Export.Queue.{
  is_queued, export_claim_has_capacity, new_export_job, export_queue_has_capacity,
}
use snaplink_audit_governanc.Export.Claim.{started}
use snaplink_audit_governanc.Export.Facts.{not-false}
use snaplink_audit_governanc.Export.Slots.Tables.{
  IsWithinSlots, IsWithinSlots-start, IsWithinSlots-idle, IsWithinSlots-replace, IsWithinQueue,
  IsWithinQueue-admit, IsWithinQueue-replace, IsWithinQueue-idle,
}

pub record IsWithinCeilings (d : Control) : Type 0 where
  pub slots : IsWithinSlots d.exports
  pub queue : IsWithinQueue d.exports

pub admitted :
    (call : Call) (tenant actor : String) (query : Query) (retry_of : String) (d : Control)
    → IsWithinCeilings d
    → not (export_queue_has_capacity d.exports tenant) ≡ false
    → {after : Control}
    → after.exports
      ≡ insert
          (call.fresh 0)
          (new_export_job (call.fresh 0) tenant actor query retry_of call.now)
          d.exports
    → IsWithinCeilings after
admitted call tenant actor query retry_of d w free {after} e =
    let job = new_export_job (call.fresh 0) tenant actor query retry_of call.now in
    record {
      slots = rw e (IsWithinSlots-idle d.exports job.id job w.slots refl);
      queue = rw e (IsWithinQueue-admit d.exports job.id job w.queue (not-false free));
    }

pub same_exports :
    (d : Control)
    → IsWithinCeilings d
    → {after : Control} → after.exports ≡ d.exports
    → IsWithinCeilings after
same_exports d w e = record { slots = rw e w.slots; queue = rw e w.queue }

pub rewritten :
    (old job : ExportJob) (d : Control)
    → IsWithinCeilings d
    → lookup job.id d.exports ≡ some old
    → is_running old.status ≡ true
    → old.tenant_id ≡ job.tenant_id
    → {after : Control} → after.exports ≡ insert job.id job d.exports
    → IsWithinCeilings after
rewritten old job d w found running tenant e = record {
  slots = rw e (IsWithinSlots-replace d.exports job.id job old w.slots found running tenant);
  queue = rw e (IsWithinQueue-replace d.exports job.id job old w.queue found (ground arith) tenant);
}

pub admitted_start :
    (value : ExportJob) (now : ℕ) (d : Control)
    → IsWithinCeilings d
    → lookup value.id d.exports ≡ some value
    → is_pending value.status ≡ true
    → not (export_claim_has_capacity d.exports value.tenant_id) ≡ false
    → {after : Control} → after.exports ≡ insert value.id (started value now) d.exports
    → IsWithinCeilings after
admitted_start value now d w found pending room e = record {
  slots =
      rw e (IsWithinSlots-start d.exports value.id (started value now) w.slots (not-false room));
  queue = rw e (
      IsWithinQueue-replace d.exports value.id (started value now) value w.queue found
        (ground arith) refl);
}

pub retired :
    (key : String) (job : ExportJob) (d : Control)
    → IsWithinCeilings d
    → is_queued job ≡ false
    → {after : Control} → after.exports ≡ insert key job d.exports
    → IsWithinCeilings after
retired key job d w idle e = record {
  slots = rw e (IsWithinSlots-idle d.exports key job w.slots (ground arith));
  queue = rw e (IsWithinQueue-idle d.exports key job w.queue idle);
}
