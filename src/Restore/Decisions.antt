-- ===== src/Restore/Decisions.antt =====
-- The decision of internal/service/restore.go, transitionRestore, and what later ones find.
use snaplink_audit_governanc.Prelude.{
  ℕ, ◌≡◌, ◌≢◌, refl, String, true, false, not, some, ◌⊎◌, inl, inr, lookup, lookup-insert, eq_refl,
  ◌==◌, eq_iff, arith, Bool-cases, if◌then◌else◌,
}
use snaplink_audit_governanc.Prelude.Texts.{codes}
use snaplink_audit_governanc.Domain.Errors.{Err, Result, ok, err, not_found, conflict}
use snaplink_audit_governanc.Domain.Errors.Yields.{
  Yields, Yields-ok, Yields-err, Yields-if, Yields-option,
}
use snaplink_audit_governanc.Domain.Models.{RestoreRun}
use snaplink_audit_governanc.Domain.Identifiers.{require_tenant_scope}
use snaplink_audit_governanc.Service.{Service, Call}
use snaplink_audit_governanc.Store.Control.{Control, Change, append_admin_action, persist}
use snaplink_audit_governanc.Restore.{
  Decision, approve, reject, decided_run, is_pending_approval, record_decision, decide_run,
  transition_closure, transition_restore,
}

-- The data hold under `key` a run of `tenant` that `actor`, not its author, decided.
pub record IsDecided (tenant key actor : String) (decision : Decision) (now : ℕ) (d : Control)
    (run : RestoreRun) : Type 0 where
  pub stored : lookup key d.restore_runs ≡ some run
  pub owned : (run.tenant_id == tenant) ≡ true
  pub asked : (before : RestoreRun) × (run ≡ decided_run decision before actor now)
  pub other : run.created_by ≢ actor
  pub closed : is_pending_approval run.status ≡ false

record Decides (tenant key actor : String) (decision : Decision) (now : ℕ) (c : Change RestoreRun)
    : Type 0 where
  written : c.changed ≡ true
  decided : IsDecided tenant key actor decision now c.after c.value

-- The write itself, for each decision.
written-IsDecided :
    (tenant key actor : String) (decision : Decision) (now : ℕ) (run : RestoreRun) (after : Control)
    → (run.tenant_id == tenant) ≡ true
    → (run.created_by == actor) ≡ false
    → lookup key after.restore_runs ≡ some (decided_run decision run actor now)
    → IsDecided tenant key actor decision now after (decided_run decision run actor now)
written-IsDecided tenant key actor approve now run after owned other stored = record {
  stored = stored;
  owned = owned;
  asked = (run, refl);
  other = ground (arith, other, eq_iff run.created_by actor);
  closed = refl;
}
written-IsDecided tenant key actor reject now run after owned other stored = record {
  stored = stored;
  owned = owned;
  asked = (run, refl);
  other = ground (arith, other, eq_iff run.created_by actor);
  closed = refl;
}

record_decision-Decides :
    (s : Service) (call : Call) (tenant key actor : String) (decision : Decision) (run : RestoreRun)
    (d : Control)
    → (run.tenant_id == tenant) ≡ true
    → (run.created_by == actor) ≡ false
    → Yields
        (Decides tenant key actor decision call.now)
        (record_decision s call key actor decision run d)
unfolding record_decision append_admin_action
record_decision-Decides s call tenant key actor decision run d owned other =
    let new = decided_run decision run actor call.now in
    Yields-ok (record {
      written = refl;
      decided =
          written-IsDecided tenant key actor decision call.now run _ owned other
            (rw (lookup-insert key key new d.restore_runs, eq_refl key) refl);
    })

decide_run-Decides :
    (s : Service) (call : Call) (tenant key actor : String) (decision : Decision) (run : RestoreRun)
    (d : Control)
    → (run.tenant_id == tenant) ≡ true
    → Yields
        (Decides tenant key actor decision call.now)
        (decide_run s call key actor decision run d)
unfolding decide_run
decide_run-Decides s call tenant key actor decision run d owned =
    search
      (Yields-if, Yields-err, record_decision-Decides s call tenant key actor decision run d owned)

checked :
    (s : Service) (call : Call) (tenant key actor : String) (decision : Decision) (run : RestoreRun)
    (d : Control)
    → Yields (Decides tenant key actor decision call.now) (
        if not (run.tenant_id == tenant)
        then err not_found
        else decide_run s call key actor decision run d)
checked s call tenant key actor decision run d = elim (Bool-cases (run.tenant_id == tenant)) [
  | inl owned ↦ rw owned (decide_run-Decides s call tenant key actor decision run d owned)
  | inr foreign ↦ rw foreign Yields-err
]

transition_closure-Decides :
    (s : Service) (call : Call) (tenant key actor : String) (decision : Decision) (d : Control)
    → Yields
        (Decides tenant key actor decision call.now)
        (transition_closure s call tenant key actor decision d)
unfolding transition_closure
transition_closure-Decides s call tenant key actor decision d =
    Yields-option Yields-err
      (λ (run : RestoreRun) _. checked s call tenant key actor decision run d)

IsDecided-by_update :
    (tenant key actor : String) (decision : Decision) (now : ℕ) (d after : Control)
    (run : RestoreRun)
    → (r : Result (Change RestoreRun)) → Yields (Decides tenant key actor decision now) r
    → persist d r ≡ (after, ok run)
    → IsDecided tenant key actor decision now after run
IsDecided-by_update tenant key actor decision now d after run (err e) y h = ground (arith, h)
IsDecided-by_update tenant key actor decision now d after run (ok c) y h =
    let saved : c.changed ≡ true = y.at.written in
    let same : c.value ≡ run = ground (arith, h) in
    let e : c.after ≡ after = ground (arith, h, saved) in rw⁻¹ (same, e) y.at.decided

decided_again :
    (s : Service) (call : Call) (tenant key actor other : String) (first second : Decision)
    (now : ℕ)
    → (d : Control) (run : RestoreRun) → IsDecided tenant key actor first now d run
    → persist d (transition_closure s call tenant key other second d) ≡ (d, err conflict)
unfolding transition_closure decide_run
decided_again s call tenant key actor other first second now d run r =
    ground (arith, r.stored, r.owned, r.closed)

scope-cases : (r : Result (Unit {0})) → (r ≡ ok tt) ⊎ ((e : Err) × (r ≡ err e))
scope-cases (ok tt) = inl refl
scope-cases (err e) = inr (e, refl)

-- A decision that succeeds was made by an actor other than the one who asked for the restore, stands
-- under the run's key with that actor and time, and is final: every later decision on the run for
-- the same tenant, the same or the other, by any actor, changes nothing and answers with a conflict.
pub transition_restore-decides_once :
    (s : Service) (call : Call) (tenant key actor : String) (decision : Decision)
    → (d after : Control) (run : RestoreRun)
    → transition_restore s call tenant key actor decision d ≡ (after, ok run)
    → IsDecided tenant key actor decision call.now after run
      × ((later : Call) (other : String) (second : Decision)
          → transition_restore s later tenant key other second after ≡ (after, err conflict))
unfolding transition_restore
transition_restore-decides_once s call tenant key actor decision d after run h =
    elim (scope-cases (require_tenant_scope (codes tenant))) [
      | inl scoped ↦
          let r : IsDecided tenant key actor decision call.now after run =
            IsDecided-by_update tenant key actor decision call.now d after run
              (transition_closure s call tenant key actor decision d)
              (transition_closure-Decides s call tenant key actor decision d)
              (ground (arith, h, scoped)) in
          (
            r,
            λ later other second. ground (
              arith,
              scoped,
              decided_again s later tenant key actor other decision second call.now after run r,
            ),
          )
      | inr (e, refused) ↦ ground (arith, h, refused)
    ]
