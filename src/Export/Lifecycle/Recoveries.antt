-- ===== src/Export/Lifecycle/Recoveries.antt =====
-- The life cycle under recoverExportJobs, which writes the map while it walks it.
use snaplink_audit_governanc.Prelude.{
  ℕ, Table, [], ◌∷◌, ◌≡◌, refl, String, Bool, true, false, not, some, none, Option, lookup, insert,
  ◌==◌, eq_iff, arith, lookup-insert, eq_refl,
}
use snaplink_audit_governanc.Domain.Models.{ExportJob, is_running}
use snaplink_audit_governanc.Domain.Errors.{Result, ok, err}
use snaplink_audit_governanc.Domain.Errors.Yields.{
  Yields, Yields-ok, Yields-err, Yields-if, Yields-bind, Yields-value,
}
use snaplink_audit_governanc.Service.{Service, Call}
use snaplink_audit_governanc.Store.Control.{Control, append_admin_action}
use snaplink_audit_governanc.Store.Control.Keeps.{saves_rules, Saves-bind}
use snaplink_audit_governanc.Export.Recover.{
  Diagnosis, diagnose, is_candidate, recovered_job, fail_job, recover_step, settle, recover_loop,
  recovered_change, recover_closure,
}
use snaplink_audit_governanc.Export.Lifecycle.Moves.{
  fails, Enders, HasUniqueKeys, IsSoundStep, IsSoundStep-same, IsSoundStep-over, SavesStep,
}

module _ (P : Enders) where
  -- The state of the walk: what is left stands in the table as it was at the start.
  record Walks (m rest : Table ExportJob) (acc : Table ExportJob) : Type 0 where
    source : (k : String) (job : ExportJob) → lookup k rest ≡ some job → lookup k m ≡ some job
    current : (k : String) (job : ExportJob) → lookup k rest ≡ some job → lookup k acc ≡ some job
    step : IsSoundStep P m acc

  module _ (m : Table ExportJob) (key : String) (job : ExportJob) (rest : Table ExportJob)
      (u : HasUniqueKeys ((key, job) ∷ rest)) where
    unvisited :
        (k : String) (other : ExportJob)
        → lookup k rest ≡ some other
        → ((key == k) ≡ false) × (lookup k ((key, job) ∷ rest) ≡ some other)
    unfolding HasUniqueKeys lookup
    unvisited k other h = ground (arith, h, u.0, eq_iff key k)

    Walks-skip : (acc : Table ExportJob) → Walks m ((key, job) ∷ rest) acc → Walks m rest acc
    Walks-skip acc w = record {
      source = λ k other h. w.source k other (unvisited k other h).1;
      current = λ k other h. w.current k other (unvisited k other h).1;
      step = w.step;
    }

    heads : lookup key ((key, job) ∷ rest) ≡ some job
    unfolding lookup
    heads = rw (eq_refl key) refl

    Walks-write :
        (d : Diagnosis) (now : ℕ) (acc : Table ExportJob)
        → is_running job.status ≡ true
        → Walks m ((key, job) ∷ rest) acc
        → Walks m rest (insert key (recovered_job job d now) acc)
    Walks-write d now acc running w =
        let new = recovered_job job d now in
        record {
          source = λ k other h. w.source k other (unvisited k other h).1;
          current = λ k other h.
              rw (lookup-insert key k new acc, (unvisited k other h).0)
                (w.current k other (unvisited k other h).1);
          step =
              IsSoundStep-over m key job new acc w.step (w.source key job heads)
                (fails d now running);
        }

  settle-Walks :
      (s : Service) (call : Call) (m : Table ExportJob) (key : String) (job : ExportJob)
      → (rest : Table ExportJob) (acc : Control × ℕ) (verdict : Result (Option Diagnosis))
      → HasUniqueKeys ((key, job) ∷ rest)
      → is_running job.status ≡ true
      → Walks m ((key, job) ∷ rest) acc.0.exports
      → Yields (λ next. Walks m rest next.0.exports) (settle s call key job acc verdict)
  unfolding settle fail_job append_admin_action
  settle-Walks s call m key job rest acc (err e) u running w = Yields-err
  settle-Walks s call m key job rest acc (ok none) u running w =
      Yields-ok (Walks-skip m key job rest u acc.0.exports w)
  settle-Walks s call m key job rest (d, n) (ok (some v)) u running w =
      Yields-ok (Walks-write m key job rest u v call.now d.exports running w)

  recover_step-Walks :
      (s : Service) (call : Call) (tenant : String) (legacy : Bool) (m : Table ExportJob)
      → (key : String) (job : ExportJob) (rest : Table ExportJob) (acc : Control × ℕ)
      → HasUniqueKeys ((key, job) ∷ rest)
      → Walks m ((key, job) ∷ rest) acc.0.exports
      → Yields (λ next. Walks m rest next.0.exports) (recover_step s call tenant legacy key job acc)
  unfolding recover_step
  recover_step-Walks s call tenant legacy m key job rest acc u w =
      let verdict = diagnose s call.now legacy key job acc.0 in
      search (
        Yields-if,
        Yields-ok,
        Walks-skip m key job rest u acc.0.exports w,
        λ (chosen : not (is_candidate tenant job) ≡ false).
            settle-Walks s call m key job rest acc verdict u (ground (arith, chosen)) w,
      )

  recover_loop-Walks :
      (s : Service) (call : Call) (tenant : String) (legacy : Bool) (m jobs : Table ExportJob)
      → (acc : Control × ℕ) → HasUniqueKeys jobs
      → Walks m jobs acc.0.exports
      → Yields (λ next. IsSoundStep P m next.0.exports) (recover_loop s call tenant legacy jobs acc)
  unfolding recover_loop HasUniqueKeys
  recover_loop-Walks s call tenant legacy m [] acc u w = Yields-ok w.step
  recover_loop-Walks s call tenant legacy m ((key, job) ∷ jobs) acc u w =
      Yields-bind (recover_step-Walks s call tenant legacy m key job jobs acc u w)
        (λ next kept _. recover_loop-Walks s call tenant legacy m jobs next u.1 kept)

  recovered_change_sound :
      (d : Control) (acc : Control × ℕ)
      → IsSoundStep P d.exports acc.0.exports
      → SavesStep P d (recovered_change acc)
  unfolding recovered_change
  recovered_change_sound d acc w = search (saves_rules, w)

  pub recover_closure_sound :
      (s : Service) (call : Call) (tenant : String) (legacy : Bool) (d : Control)
      → HasUniqueKeys d.exports
      → SavesStep P d (recover_closure s call tenant legacy d)
  unfolding recover_closure
  recover_closure_sound s call tenant legacy d u =
      let start : Walks d.exports d.exports d.exports = record {
        source = λ k job h. h;
        current = λ k job h. h;
        step = IsSoundStep-same d.exports u;
      } in
      Saves-bind (λ acc done. recovered_change_sound d acc (
        Yields-value (recover_loop-Walks s call tenant legacy d.exports d.exports (d, 0) u start)
          done))
