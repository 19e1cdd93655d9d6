-- ===== src/Export/Scheduler.antt =====
-- internal/service/export_scheduler.go, nextExport: the pending export that is to start next.
-- `active` maps the exports that this process runs to their tenants. Go's order of a map does not
-- matter to the counts, and an equal creation time is decided by the identifier.
pub mod Choices
use snaplink_audit_governanc.Prelude.{
  ℕ, ◌+◌, String, Bool, true, false, not, ◌&&◌, ◌||◌, Option, none, some, List, [], ◌∷◌, Table,
  lookup, insert, get_or, has, count, str_lt, ltb, leb, eqb, ◌==◌, if◌then◌else◌, bit,
}
use snaplink_audit_governanc.Domain.Models.{ExportJob, is_pending, is_running, no_job}
use snaplink_audit_governanc.Export.Queue.{
  export_concurrency, export_tenant_concurrency, occupies, occupies_of,
}

abbrev runs : String → Table ExportJob → Bool
runs id jobs = elim (lookup id jobs) [ none ↦ false | some job ↦ is_running job.status ]

-- The active exports that the table does not show as running, of one tenant or of all.
unfoldable pub unseen : (String → Bool) → Table ExportJob → Table String → ℕ
unseen p jobs [] = 0
unseen p jobs ((id, tenant) ∷ active) = bit (not (runs id jobs) && p tenant) + unseen p jobs active

unfoldable pub occupied_total : Table ExportJob → Table String → ℕ
occupied_total jobs active = count occupies jobs + unseen (λ _. true) jobs active

unfoldable pub occupied_by : String → Table ExportJob → Table String → ℕ
occupied_by tenant jobs active =
    count (occupies_of tenant) jobs + unseen (λ t. t == tenant) jobs active

unfoldable pub is_eligible : Table ExportJob → Table String → String → ExportJob → Bool
is_eligible jobs active id job =
    is_pending job.status
    && ltb (occupied_by job.tenant_id jobs active) export_tenant_concurrency
    && not (has id active)

abbrev pub is_earlier : ExportJob → ExportJob → Bool
is_earlier job current =
    ltb job.created_at current.created_at
    || eqb job.created_at current.created_at && str_lt job.id current.id

-- The earliest job of each tenant so far, and one more.
unfoldable pub consider : ExportJob → Table ExportJob → Table ExportJob
consider job by_tenant = elim (lookup job.tenant_id by_tenant) [
  | none ↦ insert job.tenant_id job by_tenant
  | some current ↦ if is_earlier job current then insert job.tenant_id job by_tenant else by_tenant
]

-- The loop over the jobs; `rest` is what is left of them.
unfoldable pub candidates :
    Table ExportJob → Table String → Table ExportJob → Table ExportJob → Table ExportJob
candidates jobs active [] by_tenant = by_tenant
candidates jobs active ((id, job) ∷ rest) by_tenant =
    let skipped = candidates jobs active rest by_tenant in
    let taken = candidates jobs active rest (consider job by_tenant) in
    if is_eligible jobs active id job then taken else skipped

unfoldable pub insert_sorted : String → List String → List String
insert_sorted k [] = k ∷ []
insert_sorted k (j ∷ js) =
    let rest = insert_sorted k js in if str_lt j k then j ∷ rest else k ∷ j ∷ js

-- The keys, sorted by `sort.Strings`.
unfoldable pub sorted_keys : Table ExportJob → List String
sorted_keys [] = []
sorted_keys ((k, _) ∷ m) = insert_sorted k (sorted_keys m)

-- The first tenant past `after`, or the first of all.
unfoldable pub turn_of : String → String → List String → String
turn_of after first [] = first
turn_of after first (t ∷ ts) =
    let rest = turn_of after first ts in if str_lt after t then t else rest

unfoldable pub pick : String → Table ExportJob → List String → ExportJob
pick after by_tenant [] = no_job
pick after by_tenant (t ∷ ts) = get_or (turn_of after t (t ∷ ts)) no_job by_tenant

unfoldable pub next_export : Table ExportJob → Table String → String → ExportJob
next_export jobs active after =
    let by_tenant = candidates jobs active jobs [] in
    if leb export_concurrency (occupied_total jobs active)
    then no_job
    else pick after by_tenant (sorted_keys by_tenant)
