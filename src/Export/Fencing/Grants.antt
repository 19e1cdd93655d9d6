-- ===== src/Export/Fencing/Grants.antt =====
-- What a claim that is granted leaves in the table of leases.
use snaplink_audit_governanc.Prelude.{
  ℕ, ◌≡◌, refl, subst, String, Bool, true, false, Option, none, some, lookup, lookup-insert, eq_iff,
  arith,
}
use snaplink_audit_governanc.Domain.Errors.{Result, ok, err}
use snaplink_audit_governanc.Domain.Errors.Yields.{
  Yields, Yields-ok, Yields-err, Yields-if, Yields-after, Yields-option,
}
use snaplink_audit_governanc.Domain.Models.{ExportJob, ExportLease}
use snaplink_audit_governanc.Service.{Service, Call}
use snaplink_audit_governanc.Store.Control.{Control, Change, append_admin_action, skip, persist}
use snaplink_audit_governanc.Export.Lease.{ExportClaim}
use snaplink_audit_governanc.Export.Claim.{
  new_lease, new_claim, take, started, is_mismatched, claim_running, claim_pending, claim_found,
  claim_closure, claim_export,
}

-- The data hold the lease that `claim` was granted for the job of `key`.
pub record IsGranted (owner key : String) (d : Control) (claim : ExportClaim) : Type 0 where
  pub owner_is : claim.owner ≡ owner
  pub key_is : claim.job.id ≡ key
  pub leased :
      (lease : ExportLease) × ((lookup key d.export_leases ≡ some lease) × (lease.owner ≡ owner))

abbrev Handed : String → String → Change (Option ExportClaim) → Option ExportClaim → Type 0
Handed owner key c none = Unit
Handed owner key c (some claim) = (c.changed ≡ true) × IsGranted owner key c.after claim

-- An update that hands out a claim saves its lease.
Grants : String → String → Change (Option ExportClaim) → Type 0
Grants owner key c = Handed owner key c c.value

module _ (owner key : String) where
  Grants-none : (d : Control) → Yields (Grants owner key) (skip d none)
  unfolding Grants
  Grants-none d = Yields-ok tt

  Grants-take :
      (value : ExportJob) (now : ℕ) (d : Control)
      → value.id ≡ key
      → Yields (Grants owner key) (take value owner now d)
  unfolding Grants take new_claim new_lease
  Grants-take value now d e = Yields-ok (
    refl,
    record {
      owner_is = refl;
      key_is = e;
      leased = (
        new_lease value owner now,
        (
          ground (
            arith,
            lookup-insert value.id key (new_lease value owner now) d.export_leases,
            e,
            eq_iff value.id key,
          ),
          refl,
        ),
      );
    },
  )

  claim_running-Grants :
      (s : Service) (call : Call) (value : ExportJob) (d : Control)
      → value.id ≡ key
      → Yields (Grants owner key) (claim_running s call owner value d)
  unfolding claim_running append_admin_action
  claim_running-Grants s call value d e =
      search
        (
          Yields-if,
          Yields-err,
          Yields-after,
          Grants-none d,
          λ (m : Control). Grants-take value call.now m e,
        )
        depth 9

  claim_pending-Grants :
      (call : Call) (value : ExportJob) (d : Control)
      → value.id ≡ key
      → Yields (Grants owner key) (claim_pending call owner value d)
  unfolding claim_pending
  claim_pending-Grants call value d e =
      search
        (Yields-if, Yields-err, Grants-none d, Grants-take (started value call.now) call.now d e)

  sound_key : (value : ExportJob) → is_mismatched key value ≡ false → value.id ≡ key
  sound_key value sound = ground (arith, sound, eq_iff value.id key)

  claim_found-Grants :
      (s : Service) (call : Call) (allow : Bool) (value : ExportJob) (d : Control)
      → Yields (Grants owner key) (claim_found s call owner key allow value d)
  unfolding claim_found
  claim_found-Grants s call allow value d =
      search
        (
          Yields-if,
          Yields-err,
          Grants-none d,
          λ (sound : is_mismatched key value ≡ false).
              claim_running-Grants s call value d (sound_key value sound),
          λ (sound : is_mismatched key value ≡ false).
              claim_pending-Grants call value d (sound_key value sound),
        )
        depth 9

  claim_closure-Grants :
      (s : Service) (call : Call) (allow : Bool) (d : Control)
      → Yields (Grants owner key) (claim_closure s call owner key allow d)
  unfolding claim_closure
  claim_closure-Grants s call allow d =
      Yields-option (Grants-none d) (λ value _. claim_found-Grants s call allow value d)

  granted :
      (d after : Control) (claim : ExportClaim) (r : Result (Change (Option ExportClaim)))
      → Yields (Grants owner key) r
      → persist d r ≡ (after, ok (some claim))
      → IsGranted owner key after claim
  unfolding Grants
  granted d after claim (err e) y h = ground (arith, h)
  granted d after claim (ok c) y h =
      let handed : c.value ≡ some claim = ground (arith, h) in
      let facts : Handed owner key c (some claim) = subst (Handed owner key c) handed y.at in
      let kept : c.after ≡ after = ground (arith, h, facts.0) in
      subst (λ x. IsGranted owner key x claim) kept facts.1

  pub claim_export-IsGranted :
      (s : Service) (call : Call) (allow : Bool) (d after : Control) (claim : ExportClaim)
      → claim_export s call owner key allow d ≡ (after, ok (some claim))
      → IsGranted owner key after claim
  unfolding claim_export
  claim_export-IsGranted s call allow d after claim h =
      granted d after claim (claim_closure s call owner key allow d)
        (claim_closure-Grants s call allow d) h
