-- ===== src/Examples/Controls.antt =====
-- Restores, holds, the admin trail and the quota.
use snaplink_audit_governanc.Prelude.{
  pos, ℕ, ◌-◌, ◌≤◌, ◌≡◌, refl, String, true, false, none, some, [], ◌∷◌, lookup, get_or, take,
  filter, drop, length, arith,
}
use mathlib.Core.List.{reverse}
use snaplink_audit_governanc.Domain.Errors.{ok, err, conflict}
use snaplink_audit_governanc.Domain.Identifiers.{
  require_tenant_scope, valid_tenant_id_component, valid_key_component, is_bad_rune, is_control,
  is_space, valid_archive_component_length, byte_len, rune_len,
}
use snaplink_audit_governanc.Domain.Models.{
  RestoreRun, pending_approval, LegalHold, AdminAction, Tenant, no_query,
}
use snaplink_audit_governanc.Service.{Call}
use snaplink_audit_governanc.Store.Control.{Control, new_control}
use snaplink_audit_governanc.Restore.{
  Decision, approve, transition_restore, transition_closure, decide_run, record_decision,
  decided_run,
}
use snaplink_audit_governanc.Restore.Decisions.{IsDecided, transition_restore-decides_once}
use snaplink_audit_governanc.Hold.{
  release_legal_hold, release_closure, release_found, released_hold,
}
use snaplink_audit_governanc.Hold.Releases.{IsReleased, release_legal_hold-first_wins}
use snaplink_audit_governanc.Trail.Order.{IsNewestFirst, list_admin_actions-IsNewestFirst}
use snaplink_audit_governanc.Trail.Listing.{is_visible, clamp_limit, list_admin_actions}
use snaplink_audit_governanc.Trail.Views.{merged, list_admin_actions-take}
use snaplink_audit_governanc.Trail.Cap.{append_all, append_all-drop}
use snaplink_audit_governanc.Quota.{no_window, current_window}
use snaplink_audit_governanc.Quota.Windows.{ceiling, admitted, admitted-limit}
use snaplink_audit_governanc.Examples.Fixtures.{demo, call}

abbrev run : RestoreRun
run = record {
  id = "r1";
  tenant_id = "acme";
  operation_id = "op";
  status = pending_approval;
  reason = "mistake";
  created_by = "alice";
  created_at = 1;
  approved_by = "";
  approved_at = none;
  rejected_by = "";
  rejected_at = none;
}

abbrev asked : Control
asked = record new_control { restore_runs = ("r1", run) ∷ [] }

abbrev decided : Control
decided = (transition_restore demo call "acme" "r1" "bob" approve asked).0

approval :
    transition_restore demo call "acme" "r1" "bob" approve asked
    ≡ (decided, ok (decided_run approve run "bob" 10))
unfolding transition_restore transition_closure decide_run record_decision lookup
    require_tenant_scope valid_tenant_id_component valid_key_component is_bad_rune is_control
    is_space valid_archive_component_length byte_len rune_len
approval = refl

transition_restore-decides_once_example :
    IsDecided "acme" "r1" "bob" approve 10 decided (decided_run approve run "bob" 10)
    × ((later : Call) (other : String) (second : Decision)
        → transition_restore demo later "acme" "r1" other second decided ≡ (decided, err conflict))
transition_restore-decides_once_example =
    transition_restore-decides_once demo call "acme" "r1" "bob" approve asked decided
      (decided_run approve run "bob" 10) approval

abbrev hold : LegalHold
hold = record {
  id = "h1";
  tenant_id = "acme";
  name = "case";
  reason = "court";
  filter = no_query;
  created_by = "alice";
  created_at = 1;
  released_at = none;
  released_by = "";
}

abbrev held : Control
held = record new_control { legal_holds = ("h1", hold) ∷ [] }

abbrev freed : Control
freed = (release_legal_hold demo call "acme" "h1" "bob" held).0

release :
    release_legal_hold demo call "acme" "h1" "bob" held ≡ (freed, ok (released_hold hold "bob" 10))
unfolding release_legal_hold release_closure release_found lookup require_tenant_scope
    valid_tenant_id_component valid_key_component is_bad_rune is_control is_space
    valid_archive_component_length byte_len rune_len
release = refl

release_legal_hold-first_wins_example :
    IsReleased "acme" "h1" freed (released_hold hold "bob" 10)
    × ((later : Call) (other : String)
        → release_legal_hold demo later "acme" "h1" other freed
          ≡ (freed, ok (released_hold hold "bob" 10)))
release_legal_hold-first_wins_example =
    release_legal_hold-first_wins demo call "acme" "h1" "bob" held freed
      (released_hold hold "bob" 10) release

abbrev fact : ℕ → String → AdminAction
fact at tenant = record {
  id = "a";
  tenant_id = tenant;
  actor = "alice";
  action = "export.created";
  target_type = "export";
  target_id = "e1";
  detail = "";
  created_at = at;
}

list_admin_actions-take_example :
    list_admin_actions "acme" false 2
      (fact 1 "acme" ∷ fact 3 "other" ∷ fact 4 "acme" ∷ [])
      (fact 4 "acme" ∷ fact 2 "acme" ∷ [])
    ≡ take (clamp_limit 2) (
        filter (is_visible "acme" false) (
          merged
            (reverse (fact 1 "acme" ∷ fact 3 "other" ∷ fact 4 "acme" ∷ []))
            (fact 4 "acme" ∷ fact 2 "acme" ∷ [])))
list_admin_actions-take_example =
    list_admin_actions-take "acme" false 2 (fact 1 "acme" ∷ fact 3 "other" ∷ fact 4 "acme" ∷ [])
      (fact 4 "acme" ∷ fact 2 "acme" ∷ [])

append_all-drop_example :
    append_all 2 (fact 1 "acme" ∷ []) (fact 2 "acme" ∷ fact 3 "acme" ∷ [])
    ≡ drop
        (length (fact 1 "acme" ∷ fact 2 "acme" ∷ fact 3 "acme" ∷ []) - 2)
        (fact 1 "acme" ∷ fact 2 "acme" ∷ fact 3 "acme" ∷ [])
append_all-drop_example =
    append_all-drop 2 (fact 1 "acme" ∷ []) (fact 2 "acme" ∷ fact 3 "acme" ∷ []) (omega arith)
      (omega arith)

abbrev acme : Tenant
acme = record { id = "acme"; active = true; events_per_second = 2; burst = pos 1 }

acme-lookup : lookup "acme" (("acme", acme) ∷ []) ≡ some acme
unfolding lookup
acme-lookup = refl

first-window : current_window 7 (get_or "acme" no_window []) ≡ record { started = 7; count = 0 }
unfolding current_window lookup
first-window = refl

admitted-limit_example :
    admitted (("acme", acme) ∷ []) "acme" (7 ∷ 8 ∷ 9 ∷ 10 ∷ []) [] ≤ ceiling 2 (pos 1)
admitted-limit_example =
    admitted-limit (("acme", acme) ∷ []) "acme" acme acme-lookup refl (omega arith) 7 (omega arith)
      (8 ∷ 9 ∷ 10 ∷ []) [] first-window (omega arith, (omega arith, (omega arith, tt)))

list_admin_actions-IsNewestFirst_example : IsNewestFirst (
    list_admin_actions "acme" true 2
      (fact 1 "acme" ∷ fact 3 "acme" ∷ [])
      (fact 4 "acme" ∷ fact 2 "acme" ∷ []))
list_admin_actions-IsNewestFirst_example =
    list_admin_actions-IsNewestFirst "acme" true 2 (fact 1 "acme" ∷ fact 3 "acme" ∷ [])
      (fact 4 "acme" ∷ fact 2 "acme" ∷ []) ((omega arith, tt), (tt, tt))
      ((omega arith, tt), (tt, tt))
