-- ===== src/Export/Scheduler/Choices.antt =====
-- The choice of nextExport against the capacity test of claimExport.
use snaplink_audit_governanc.Prelude.{
  ◌≡◌, ◌⊎◌, refl, String, true, false, none, some, List, [], ◌∷◌, Table, lookup, insert,
  lookup-insert, get_or, count, ltb, leb, ◌==◌, arith, Bool-cases, Option-cases, inl, inr,
}
use snaplink_audit_governanc.Domain.Models.{ExportJob, is_pending, no_job}
use snaplink_audit_governanc.Export.Queue.{
  occupies, occupies_of, export_concurrency, export_tenant_concurrency, export_claim_has_capacity,
}
use snaplink_audit_governanc.Export.Scheduler.{
  occupied_total, occupied_by, is_eligible, is_earlier, consider, candidates, turn_of, sorted_keys,
  pick, next_export,
}

-- A pending job whose tenant has a free slot.
record IsChoice (jobs : Table ExportJob) (active : Table String) (job : ExportJob) : Type 0 where
  pending : is_pending job.status ≡ true
  free : ltb (occupied_by job.tenant_id jobs active) export_tenant_concurrency ≡ true

record AreChoices (jobs : Table ExportJob) (active : Table String) (m : Table ExportJob)
    : Type 0 where
  at : (k : String) (job : ExportJob) → lookup k m ≡ some job → IsChoice jobs active job

module _ (jobs : Table ExportJob) (active : Table String) where
  AreChoices-insert :
      (k : String) (new : ExportJob) (m : Table ExportJob)
      → IsChoice jobs active new
      → AreChoices jobs active m
      → AreChoices jobs active (insert k new m)
  AreChoices-insert k new m c a = record {
    at = λ j job h. elim (Bool-cases (k == j)) [
      | inl same ↦ let e : new ≡ job = ground (arith, h, same, lookup-insert k j new m) in rw⁻¹ e c
      | inr differs ↦ a.at j job (ground (arith, h, differs, lookup-insert k j new m))
    ];
  }

  AreChoices-consider :
      (job : ExportJob) (m : Table ExportJob)
      → IsChoice jobs active job
      → AreChoices jobs active m
      → AreChoices jobs active (consider job m)
  unfolding consider
  AreChoices-consider job m c a =
      let written = AreChoices-insert job.tenant_id job m c a in
      elim (Option-cases (lookup job.tenant_id m)) [
        | inl first ↦ rw (consider, first) written
        | inr (current, found) ↦ elim (Bool-cases (is_earlier job current)) [
          | inl earlier ↦ rw (consider, found, earlier) written
          | inr later ↦ rw (consider, found, later) a
        ]
      ]

  candidates-AreChoices :
      (rest m : Table ExportJob)
      → AreChoices jobs active m
      → AreChoices jobs active (candidates jobs active rest m)
  unfolding candidates is_eligible
  candidates-AreChoices [] m a = a
  candidates-AreChoices ((id, job) ∷ rest) m a =
      elim (Bool-cases (is_eligible jobs active id job)) [
        | inl taken ↦
            let c : IsChoice jobs active job = record {
              pending = ground (arith, taken);
              free = ground (arith, taken);
            } in
            rw taken (candidates-AreChoices rest (consider job m) (AreChoices-consider job m c a))
        | inr passed ↦ rw passed (candidates-AreChoices rest m a)
      ]

  entry-IsChoice :
      (k : String) (m : Table ExportJob)
      → AreChoices jobs active m
      → (get_or k no_job m ≡ no_job) ⊎ IsChoice jobs active (get_or k no_job m)
  entry-IsChoice k m a = elim (Option-cases (lookup k m)) [
    | inl gone ↦ inl (rw (get_or, gone) refl)
    | inr (job, found) ↦ inr (rw (get_or, found) (a.at k job found))
  ]

  pick-IsChoice :
      (after : String) (m : Table ExportJob) (ks : List String)
      → AreChoices jobs active m
      → (pick after m ks ≡ no_job) ⊎ IsChoice jobs active (pick after m ks)
  unfolding pick
  pick-IsChoice after m [] a = inl refl
  pick-IsChoice after m (k ∷ ks) a = entry-IsChoice (turn_of after k (k ∷ ks)) m a

nothing_in : (k : String) → lookup {V = ExportJob} k [] ≡ none
unfolding lookup
nothing_in k = refl

occupied_total-count :
    (jobs : Table ExportJob) (active : Table String)
    → leb export_concurrency (occupied_total jobs active) ≡ false
    → ltb (count occupies jobs) export_concurrency ≡ true
unfolding occupied_total
occupied_total-count jobs active h = ground (arith, h)

occupied_by-count :
    (tenant : String) (jobs : Table ExportJob) (active : Table String)
    → ltb (occupied_by tenant jobs active) export_tenant_concurrency ≡ true
    → ltb (count (occupies_of tenant) jobs) export_tenant_concurrency ≡ true
unfolding occupied_by
occupied_by-count tenant jobs active h = ground (arith, h)

abbrev picked : Table ExportJob → Table String → String → ExportJob
picked jobs active after =
    let by_tenant = candidates jobs active jobs [] in pick after by_tenant (sorted_keys by_tenant)

chosen :
    (jobs : Table ExportJob) (active : Table String) (after : String)
    → leb export_concurrency (occupied_total jobs active) ≡ false
    → (picked jobs active after ≡ no_job)
      ⊎ ((is_pending (picked jobs active after).status ≡ true)
          × (export_claim_has_capacity jobs (picked jobs active after).tenant_id ≡ true))
unfolding export_claim_has_capacity
chosen jobs active after room =
    let none_yet : AreChoices jobs active [] = record {
      at = λ k job h. ground (arith, h, nothing_in k);
    } in
    let by_tenant = candidates jobs active jobs [] in
    elim (pick-IsChoice jobs active after by_tenant (sorted_keys by_tenant)
      (candidates-AreChoices jobs active jobs [] none_yet)) [
        | inl nobody ↦ inl nobody
        | inr c ↦ inr (
          c.pending,
          rw (occupied_total-count jobs active room) (occupied_by-count _ jobs active c.free),
        )
      ]

-- nextExport chooses no export (the empty job), or a pending one that a claim on the same
-- table has a slot for: in all and for its tenant.
pub next_export-has_capacity :
    (jobs : Table ExportJob) (active : Table String) (after : String)
    → (next_export jobs active after ≡ no_job)
      ⊎ ((is_pending (next_export jobs active after).status ≡ true)
          × (export_claim_has_capacity jobs (next_export jobs active after).tenant_id ≡ true))
unfolding next_export
next_export-has_capacity jobs active after =
    elim (Bool-cases (leb export_concurrency (occupied_total jobs active))) [
      | inl full ↦ inl (rw full refl)
      | inr room ↦ rw room (chosen jobs active after room)
    ]
