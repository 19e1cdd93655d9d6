-- ===== src/Hold/Releases.antt =====
-- Repeated calls of internal/service/hold.go, ReleaseLegalHold.
use snaplink_audit_governanc.Prelude.{
  ℕ, ◌≡◌, refl, String, true, false, not, some, Option-cases, ◌⊎◌, inl, inr, lookup, lookup-insert,
  eq_refl, ◌==◌, arith, Bool-cases, if◌then◌else◌,
}
use snaplink_audit_governanc.Prelude.Texts.{codes}
use snaplink_audit_governanc.Domain.Errors.{Err, Result, ok, err, not_found}
use snaplink_audit_governanc.Domain.Errors.Yields.{Yields, Yields-ok, Yields-err, Yields-option}
use snaplink_audit_governanc.Domain.Models.{LegalHold}
use snaplink_audit_governanc.Domain.Identifiers.{require_tenant_scope}
use snaplink_audit_governanc.Service.{Service, Call}
use snaplink_audit_governanc.Store.Control.{Control, Change, append_admin_action, persist}
use snaplink_audit_governanc.Hold.{
  release_found, release_closure, release_legal_hold, released_hold,
}

-- The data hold `hold`, released, under `key` for `tenant`.
pub record IsReleased (tenant key : String) (d : Control) (hold : LegalHold) : Type 0 where
  pub stored : lookup key d.legal_holds ≡ some hold
  pub owned : (hold.tenant_id == tenant) ≡ true
  pub released : (at : ℕ) × (hold.released_at ≡ some at)

record Releases (tenant key : String) (d : Control) (c : Change LegalHold) : Type 0 where
  written : c.changed ≡ true → IsReleased tenant key c.after c.value
  kept : c.changed ≡ false → IsReleased tenant key d c.value

release_found-Releases :
    (s : Service) (call : Call) (tenant key actor : String) (hold : LegalHold) (d : Control)
    → lookup key d.legal_holds ≡ some hold
    → (hold.tenant_id == tenant) ≡ true
    → Yields (Releases tenant key d) (release_found s call key actor hold d)
unfolding release_found append_admin_action
release_found-Releases s call tenant key actor hold d found owned =
    elim (Option-cases hold.released_at) [
      | inl open_ ↦
          rw (release_found, open_)
            (Yields-ok (record {
              written = λ _. record {
                stored =
                    rw
                      (
                        lookup-insert key key (released_hold hold actor call.now) d.legal_holds,
                        eq_refl key,
                      )
                      refl;
                owned = owned;
                released = (call.now, refl);
              };
              kept = λ h. cc;
            }))
      | inr (at, shut) ↦
          rw (release_found, shut)
            (Yields-ok (record {
              written = λ h. cc;
              kept = λ _. record { stored = found; owned = owned; released = (at, shut) };
            }))
    ]

checked :
    (s : Service) (call : Call) (tenant key actor : String) (hold : LegalHold) (d : Control)
    → lookup key d.legal_holds ≡ some hold
    → Yields (Releases tenant key d) (
        if not (hold.tenant_id == tenant)
        then err not_found
        else release_found s call key actor hold d)
checked s call tenant key actor hold d found = elim (Bool-cases (hold.tenant_id == tenant)) [
  | inl owned ↦ rw owned (release_found-Releases s call tenant key actor hold d found owned)
  | inr foreign ↦ rw foreign Yields-err
]

release_closure-Releases :
    (s : Service) (call : Call) (tenant key actor : String) (d : Control)
    → Yields (Releases tenant key d) (release_closure s call tenant key actor d)
unfolding release_closure
release_closure-Releases s call tenant key actor d =
    Yields-option Yields-err
      (λ (hold : LegalHold) found. checked s call tenant key actor hold d found)

IsReleased-by_update :
    (tenant key : String) (d after : Control) (hold : LegalHold) (r : Result (Change LegalHold))
    → Yields (Releases tenant key d) r
    → persist d r ≡ (after, ok hold)
    → IsReleased tenant key after hold
IsReleased-by_update tenant key d after hold (err e) y h = ground (arith, h)
IsReleased-by_update tenant key d after hold (ok c) y h =
    let same : c.value ≡ hold = ground (arith, h) in
    elim (Bool-cases c.changed) [
      | inl saved ↦
          let e : c.after ≡ after = ground (arith, h, saved) in rw⁻¹ (same, e) (y.at.written saved)
      | inr quiet ↦ let e : d ≡ after = ground (arith, h, quiet) in rw⁻¹ (same, e) (y.at.kept quiet)
    ]

release_again :
    (s : Service) (call : Call) (tenant key actor : String) (d : Control) (hold : LegalHold)
    → IsReleased tenant key d hold
    → persist d (release_closure s call tenant key actor d) ≡ (d, ok hold)
unfolding release_closure release_found
release_again s call tenant key actor d hold r = ground (arith, r.stored, r.owned, r.released.1)

scope-cases : (r : Result (Unit {0})) → (r ≡ ok tt) ⊎ ((e : Err) × (r ≡ err e))
scope-cases (ok tt) = inl refl
scope-cases (err e) = inr (e, refl)

-- A release that succeeds leaves the hold released, and each later release of it for the same
-- tenant, by any actor and at any time, changes nothing and answers with the hold of the first: its actor and its time.
pub release_legal_hold-first_wins :
    (s : Service) (call : Call) (tenant key actor : String) (d after : Control) (hold : LegalHold)
    → release_legal_hold s call tenant key actor d ≡ (after, ok hold)
    → IsReleased tenant key after hold
      × ((later : Call) (other : String)
          → release_legal_hold s later tenant key other after ≡ (after, ok hold))
unfolding release_legal_hold
release_legal_hold-first_wins s call tenant key actor d after hold h =
    elim (scope-cases (require_tenant_scope (codes tenant))) [
      | inl scoped ↦
          let r : IsReleased tenant key after hold =
            IsReleased-by_update tenant key d after hold (release_closure s call tenant key actor d)
              (release_closure-Releases s call tenant key actor d) (ground (arith, h, scoped)) in
          (
            r,
            λ later other.
                ground (arith, scoped, release_again s later tenant key other after hold r),
          )
      | inr (e, refused) ↦ ground (arith, h, refused)
    ]
