-- ===== src/Search/Replays.antt =====
-- The state that a replay leaves, field by field.
use snaplink_audit_governanc.Prelude.{
  ℕ, ◌≡◌, refl, ap, sym, ◌∙◌, String, Option, none, some, List, [], ◌∷◌, ◌++◌, Table, lookup,
  insert, delete, lookup-insert, lookup-delete, ◌==◌, if◌then◌else◌,
}
use snaplink_audit_governanc.Search.{Value, SearchEvent, apply_changes, replay_loop, replay}

-- All changes, in the order of the events.
abbrev pub changes_of : List SearchEvent → Table (Option Value)
changes_of [] = []
changes_of (event ∷ rest) = event.changed_fields ++ changes_of rest

-- What the last change of the field leaves, or what was there before.
abbrev pub final_value : String → Table (Option Value) → Option Value → Option Value
final_value field [] before = before
final_value field ((name, after) ∷ rest) before =
    final_value field rest (if name == field then after else before)

final_value-append :
    (field : String) (a b : Table (Option Value)) (before : Option Value)
    → final_value field (a ++ b) before ≡ final_value field b (final_value field a before)
final_value-append field [] b before = refl
final_value-append field ((name, after) ∷ a) b before =
    final_value-append field a b (if name == field then after else before)

apply_changes-final_value :
    (field : String) (changes : Table (Option Value)) (state : Table Value)
    → lookup field (apply_changes changes state) ≡ final_value field changes (lookup field state)
unfolding apply_changes
apply_changes-final_value field [] state = refl
apply_changes-final_value field ((name, none) ∷ rest) state =
    apply_changes-final_value field rest (delete name state)
    ∙ ap (final_value field rest) (lookup-delete name field state)
apply_changes-final_value field ((name, some after) ∷ rest) state =
    apply_changes-final_value field rest (insert name after state)
    ∙ ap (final_value field rest) (lookup-insert name field after state)

replay_loop-final_value :
    (field : String) (events : List SearchEvent) (state : Table Value) (last : ℕ)
    → lookup field (replay_loop events state last).0
      ≡ final_value field (changes_of events) (lookup field state)
unfolding replay_loop
replay_loop-final_value field [] state last = refl
replay_loop-final_value field (event ∷ rest) state last =
    replay_loop-final_value field rest (apply_changes event.changed_fields state) event.sequence
    ∙ ap (final_value field (changes_of rest))
        (apply_changes-final_value field event.changed_fields state)
    ∙ sym (final_value-append field event.changed_fields (changes_of rest) (lookup field state))

-- A replayed field has the value of the last change that names it among all events in their order, and
-- is absent if that change removes it or no change names it.
pub replay-final_value :
    (events : List SearchEvent) (tenant operation aggregate field : String)
    → lookup field (replay events tenant operation aggregate).state
      ≡ final_value field (changes_of events) none
unfolding replay lookup
replay-final_value events tenant operation aggregate field =
    replay_loop-final_value field events [] 0
