-- ===== src/Examples/Exports.antt =====
-- The export theorems on small tables.
use snaplink_audit_governanc.Prelude.{
  ◌≡◌, ◌≢◌, refl, String, true, none, some, [], ◌∷◌, lookup, count, arith, eq_iff,
}
use snaplink_audit_governanc.Domain.Errors.{ok}
use snaplink_audit_governanc.Domain.Models.{ExportJob, no_plan, no_query, summarize_export}
use snaplink_audit_governanc.Store.Control.{Control, new_control}
use snaplink_audit_governanc.Export.Lease.{ExportClaim}
use snaplink_audit_governanc.Export.Claim.{
  claim_export, claim_closure, claim_found, claim_pending, take, new_lease, new_claim, started,
}
use snaplink_audit_governanc.Export.Owner.{
  cancel_export, cancel_closure, owned_export, cancel_owned, lease_fits, revoke, cancelled_job,
}
use snaplink_audit_governanc.Export.Checkpoint.{valid_export_artifacts}
use snaplink_audit_governanc.Export.Queue.{export_claim_has_capacity}
use snaplink_audit_governanc.Export.Operations.{create, claim, cancel, perform, perform_all}
use snaplink_audit_governanc.Export.Slots.Writes.{IsWithinCeilings}
use snaplink_audit_governanc.Export.Slots.Histories.{perform_all-IsWithinCeilings}
use snaplink_audit_governanc.Export.Lifecycle.Moves.{HasUniqueKeys, IsSoundStep}
use snaplink_audit_governanc.Export.Lifecycle.Histories.{
  EndedBy, perform-IsSoundStep, start, then_by, ended_is_final,
}
use snaplink_audit_governanc.Export.Fencing.Takeovers.{IsFenced, claim_export-fences}
use snaplink_audit_governanc.Export.Fencing.Live.{claim_export-spares_live}
use snaplink_audit_governanc.Export.Fencing.Revoked.{IsRevoked, cancel_export-fences}
use snaplink_audit_governanc.Export.Lease.{valid_export_lease}
use snaplink_audit_governanc.Export.Queue.{export_checkpoint_has_capacity}
use snaplink_audit_governanc.Export.Dispatch.{
  next_runnable_export, reclaim_candidates, is_reclaimable, insert_candidate, candidate_after,
}
use snaplink_audit_governanc.Examples.Fixtures.{
  demo, call, waiting, executing, done, holding, live_lease, leased, claim_of,
}

empty-IsWithinCeilings : IsWithinCeilings new_control
unfolding count
empty-IsWithinCeilings = record {
  slots = record { total = omega arith; each = λ tenant. omega arith };
  queue = record { total = omega arith; each = λ tenant. omega arith };
}

perform_all-IsWithinCeilings_example : IsWithinCeilings (
    perform_all demo
      ((call, create "acme" "alice" no_query "export.checkpoint.holds.v1")
        ∷ (call, claim "w1" "new" true)
        ∷ [])
      new_control)
perform_all-IsWithinCeilings_example =
    perform_all-IsWithinCeilings demo
      ((call, create "acme" "alice" no_query "export.checkpoint.holds.v1")
        ∷ (call, claim "w1" "new" true)
        ∷ [])
      new_control empty-IsWithinCeilings

one-HasUniqueKeys : HasUniqueKeys (("e1", done) ∷ [])
unfolding HasUniqueKeys lookup
one-HasUniqueKeys = (refl, tt)

new-lookup : (job : ExportJob) → lookup "new" (("e1", job) ∷ []) ≡ none
unfolding lookup
new-lookup job = refl

done-lookup : lookup "e1" (("e1", done) ∷ []) ≡ some done
unfolding lookup
done-lookup = refl

ended_is_final_example :
    lookup "e1" (perform demo call (cancel "acme" "alice" "e1") (holding done)).exports ≡ some done
ended_is_final_example =
    ended_is_final demo (holding done)
      (perform demo call (cancel "acme" "alice" "e1") (holding done)) "e1" done one-HasUniqueKeys
      done-lookup refl (then_by call (cancel "acme" "alice" "e1") (new-lookup done) start)

waiting-HasUniqueKeys : HasUniqueKeys (("e1", waiting) ∷ [])
unfolding HasUniqueKeys lookup
waiting-HasUniqueKeys = (refl, tt)

perform-IsSoundStep_example :
    IsSoundStep
      (EndedBy (claim "w1" "e1" true) call (holding waiting))
      (("e1", waiting) ∷ [])
      (perform demo call (claim "w1" "e1" true) (holding waiting)).exports
perform-IsSoundStep_example =
    perform-IsSoundStep demo call (claim "w1" "e1" true) (holding waiting) waiting-HasUniqueKeys
      (new-lookup waiting)

abbrev claimed : Control
claimed = (claim_export demo call "w2" "e1" true (holding waiting)).0

waiting-claim :
    claim_export demo call "w2" "e1" true (holding waiting)
    ≡ (claimed, ok (some (claim_of (started waiting 10) "w2")))
unfolding claim_export claim_closure claim_found claim_pending take new_lease new_claim
    export_claim_has_capacity lookup count
waiting-claim = refl

other_owner : ◌≢◌ {A = String} "w1" "w2"
other_owner e = ground (arith, e, eq_iff "w1" "w2")

claim_export-fences_example : IsFenced demo (claim_of waiting "w1") claimed
claim_export-fences_example =
    claim_export-fences demo call "w2" "e1" true (holding waiting) claimed
      (claim_of (started waiting 10) "w2") (claim_of waiting "w1") waiting-claim refl other_owner

abbrev revoked : Control
revoked = (cancel_export demo call "acme" "alice" "e1" (holding waiting)).0

waiting-cancel :
    cancel_export demo call "acme" "alice" "e1" (holding waiting)
    ≡ (revoked, ok (summarize_export (cancelled_job waiting 10)))
unfolding cancel_export cancel_closure owned_export cancel_owned valid_export_artifacts lease_fits
    revoke lookup
waiting-cancel = refl

cancel_export-fences_example :
    IsRevoked "e1" revoked × IsFenced demo (claim_of waiting "w1") revoked
cancel_export-fences_example =
    cancel_export-fences demo call "acme" "alice" "e1" (holding waiting) revoked
      (summarize_export (cancelled_job waiting 10)) (claim_of waiting "w1") waiting-cancel refl

executing-lookup : lookup "e1" (("e1", executing) ∷ []) ≡ some executing
unfolding lookup
executing-lookup = refl

lease-lookup : lookup "e1" (("e1", live_lease) ∷ []) ≡ some live_lease
unfolding lookup
lease-lookup = refl

claim_export-spares_live_example :
    ((claim_export demo call "w2" "e1" true leased).0 ≡ leased)
    × ((claim : ExportClaim) → (claim_export demo call "w2" "e1" true leased).1 ≢ ok (some claim))
claim_export-spares_live_example =
    claim_export-spares_live demo call "w2" "e1" true leased executing live_lease executing-lookup
      refl lease-lookup (omega arith)

-- The lease has expired, and a plan makes the run one to reclaim.
abbrev expired : Control
expired = record leased { export_plans = ("e1", no_plan) ∷ [] }

next_runnable_export-reclaims : next_runnable_export expired [] "" 200_000_000_000 ≡ executing
unfolding next_runnable_export reclaim_candidates is_reclaimable insert_candidate candidate_after
    valid_export_lease export_checkpoint_has_capacity count lookup
next_runnable_export-reclaims = refl
