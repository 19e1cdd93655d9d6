-- ===== src/Export/Checkpoint.antt =====
-- internal/service/export_checkpoint.go: the sealed-object checkpoint of an export, the agreement of
-- a claim with the artifacts that the control data holds, and validExportArtifacts.
use snaplink_audit_governanc.Prelude.{
  ℕ, String, Bool, true, false, not, ◌&&◌, ◌||◌, Option, none, some, List, [], ◌∷◌, ◌++◌, Table,
  lookup, has, length, every, leb, eqb, ◌==◌, if◌then◌else◌,
}
use snaplink_audit_governanc.Prelude.Texts.{codes, cut_prefix, cut_suffix, is_lower_hex}
use snaplink_audit_governanc.Archive.KeyComponent.{encode_key_component}
use snaplink_audit_governanc.Domain.Errors.{Result, ok, err, plan_invalid, checkpoint_invalid}
use snaplink_audit_governanc.Domain.Equality.{checkpoint_eq}
use snaplink_audit_governanc.Domain.Models.{
  completed, failed, ExportJob, ExportPlan, ExportCheckpoint, LegalHold, Status, is_running,
  is_completed, is_set, not_before,
}
use snaplink_audit_governanc.Service.{Service}
use snaplink_audit_governanc.Store.Control.{Control}
use snaplink_audit_governanc.Export.Lease.{ExportClaim}
use snaplink_audit_governanc.Export.Plan.{
  is_digest, is_none, export_checkpoint_binding, valid_export_plan,
}

abbrev pub max_query_snapshot_events : ℕ
max_query_snapshot_events = 10000

unfoldable pub sign_export_checkpoint : Service → ExportCheckpoint → String
sign_export_checkpoint s cp =
    s.mac_checkpoint "export.checkpoint.sealed.v1" (record cp { signature = "" })

-- "exports/<job>-<16 bytes in lower-case hexadecimal>.jsonl"
unfoldable pub valid_object_path : List ℕ → List ℕ → Bool
valid_object_path job_id path =
    elim (cut_prefix (codes "exports/" ++ (encode_key_component job_id ++ codes "-")) path) [
      | none ↦ false
      | some rest ↦ elim (cut_suffix (codes ".jsonl") rest) [
        | none ↦ false
        | some owner ↦ eqb (length owner) 32 && every is_lower_hex owner
      ]
    ]

unfoldable pub valid_export_checkpoint : Service → ExportJob → ExportCheckpoint → ℕ → Bool
unfolding valid_object_path is_digest export_checkpoint_binding sign_export_checkpoint
valid_export_checkpoint s job cp now =
    eqb cp.version 1
    && eqb cp.seal_version 2
    && not (job.id == "")
    && not (job.tenant_id == "")
    && cp.job_id == job.id
    && cp.tenant_id == job.tenant_id
    && not (eqb job.created_at 0)
    && is_running job.status
    && is_none job.finished_at
    && is_set job.started_at
    && job.object_path == ""
    && job.digest == ""
    && eqb job.event_count 0
    && not (eqb cp.created_at 0)
    && not_before cp.created_at job.started_at
    && leb cp.created_at now
    && leb cp.event_count max_query_snapshot_events
    && valid_object_path (codes job.id) (codes cp.object_path)
    && is_digest (codes cp.sealed_digest)
    && is_digest (codes cp.digest)
    && cp.binding == export_checkpoint_binding s job
    && cp.signature == sign_export_checkpoint s cp

abbrev is_active_hold : String → LegalHold → Bool
is_active_hold tenant hold = hold.tenant_id == tenant && is_none hold.released_at

-- The tenant's holds that are not released.
unfoldable pub active_holds : String → Table LegalHold → Table LegalHold
active_holds tenant [] = []
active_holds tenant ((id, hold) ∷ m) =
    let rest = active_holds tenant m in
    if is_active_hold tenant hold then (id, hold) ∷ rest else rest

unfoldable pub export_hold_binding : Service → Control → String → String
unfolding active_holds
export_hold_binding s data_ tenant =
    s.mac_holds "export.checkpoint.holds.v1" (active_holds tenant data_.legal_holds)

-- The plan that a claim carries is the plan that the control data holds.
unfoldable pub export_plan_matches : Service → Control → ExportJob → ExportClaim → ℕ → Bool
unfolding valid_export_plan
export_plan_matches s data_ job claim now = elim (lookup job.id data_.export_plans) [
  | none ↦ eqb claim.plan.version 0
  | some plan ↦
      not (eqb claim.plan.version 0)
      && plan.signature == claim.plan.signature
      && valid_export_plan s job plan now
      && valid_export_plan s job claim.plan now
]

-- The two statuses that the callers of persistTerminalExport pass.
pub data Verdict : Type 0 where
  completes fails : Verdict

abbrev pub verdict_status : Verdict → Status
verdict_status completes = completed
verdict_status fails = failed

-- What a job is finished with.
pub record Ending : Type 0 where
  pub verdict : Verdict
  pub path : String
  pub digest : String
  pub count : ℕ
  pub failure : String

unfoldable pub terminal_export_checkpoint_matches :
    Service → Control → ExportJob → ExportClaim → Ending → ℕ → Bool
unfolding valid_export_checkpoint export_hold_binding checkpoint_eq
terminal_export_checkpoint_matches s data_ job claim e now =
    elim (lookup job.id data_.export_checkpoints) [
      | none ↦ eqb claim.checkpoint.version 0
      | some cp ↦
          checkpoint_eq cp claim.checkpoint
          && valid_export_checkpoint s job cp now
          && (not (is_completed (verdict_status e.verdict))
              || e.path == cp.object_path
                && e.digest == cp.digest
                && eqb e.count cp.event_count
                && not (claim.hold_binding == "")
                && claim.hold_binding == export_hold_binding s data_ job.tenant_id)
    ]

abbrev valid_plan_entry : Service → ExportJob → ℕ → Bool → Option ExportPlan → Bool
unfolding valid_export_plan
valid_plan_entry s job now sealed none = true
valid_plan_entry s job now sealed (some plan) = not sealed && valid_export_plan s job plan now

abbrev valid_checkpoint_entry : Service → ExportJob → ℕ → Option ExportCheckpoint → Bool
unfolding valid_export_checkpoint
valid_checkpoint_entry s job now none = true
valid_checkpoint_entry s job now (some cp) = valid_export_checkpoint s job cp now

-- Both artifacts are valid for the job, and there is one of them at most.
unfoldable pub valid_export_artifacts : Service → Control → ExportJob → ℕ → Result (Unit {0})
unfolding valid_export_plan valid_export_checkpoint
valid_export_artifacts s data_ job now =
    let plan = lookup job.id data_.export_plans in
    let checkpoint = lookup job.id data_.export_checkpoints in
    if not (valid_plan_entry s job now (has job.id data_.export_checkpoints) plan)
    then err plan_invalid
    else if not (valid_checkpoint_entry s job now checkpoint)
    then err checkpoint_invalid
    else ok tt
