-- ===== src/Export/Slots/Histories.antt =====
-- The ceilings under histories of export operations.
use snaplink_audit_governanc.Prelude.{List, [], ◌∷◌}
use snaplink_audit_governanc.Service.{Service, Call}
use snaplink_audit_governanc.Store.Control.{Control}
use snaplink_audit_governanc.Store.Control.Keeps.{persist-keeps}
use snaplink_audit_governanc.Export.Operations.{
  Operation, create, retry, cancel, claim, renew, finish, recover, perform, perform_all,
}
use snaplink_audit_governanc.Export.Slots.Writes.{IsWithinCeilings}
use snaplink_audit_governanc.Export.Slots.Admissions.{
  create_closure-keeps, retry_closure-keeps, renew_closure-keeps,
}
use snaplink_audit_governanc.Export.Slots.Starts.{claim_closure-keeps}
use snaplink_audit_governanc.Export.Slots.Ends.{
  cancel_closure-keeps, terminal_closure-keeps, recover_closure-keeps,
}

pub perform-IsWithinCeilings :
    (s : Service) (call : Call) (op : Operation) (d : Control)
    → IsWithinCeilings d
    → IsWithinCeilings (perform s call op d)
unfolding perform
perform-IsWithinCeilings s call (create t a q b) d w =
    persist-keeps d w (create_closure-keeps s call t a q b d w)
perform-IsWithinCeilings s call (retry t a j b) d w =
    persist-keeps d w (retry_closure-keeps s call t a j b d w)
perform-IsWithinCeilings s call (cancel t a j) d w =
    persist-keeps d w (cancel_closure-keeps s call t a j d w)
perform-IsWithinCeilings s call (claim o j sealed) d w =
    persist-keeps d w (claim_closure-keeps s call o j sealed d w)
perform-IsWithinCeilings s call (renew c) d w =
    persist-keeps d w (renew_closure-keeps c call.now d w)
perform-IsWithinCeilings s call (finish c e on) d w =
    persist-keeps d w (terminal_closure-keeps s call c e on d w)
perform-IsWithinCeilings s call (recover t l) d w =
    persist-keeps d w (recover_closure-keeps s call t l d w)

-- From data within the ceilings, whatever operations follow in whatever order and with whatever
-- results, at most two exports run and one of each tenant, and at most 128 are pending or running
-- and 32 of each tenant.
pub perform_all-IsWithinCeilings :
    (s : Service) (ops : List (Call × Operation)) (d : Control)
    → IsWithinCeilings d
    → IsWithinCeilings (perform_all s ops d)
unfolding perform_all
perform_all-IsWithinCeilings s [] d w = w
perform_all-IsWithinCeilings s ((call, op) ∷ ops) d w =
    perform_all-IsWithinCeilings s ops (perform s call op d)
      (perform-IsWithinCeilings s call op d w)
