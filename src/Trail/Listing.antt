-- ===== src/Trail/Listing.antt =====
-- mergeAdminActions and ListAdminActions: the mutation facts of the snapshot and the read facts of the
-- trail, newest first. `snapshot` is walked from its end, so the model's loops take it reversed; the
-- trail is newest first already. The room is `limit - len(result)`.
use snaplink_audit_governanc.Prelude.{
  ℕ, ◌-◌, String, Bool, not, ◌&&◌, ◌||◌, List, [], ◌∷◌, eqb, ltb, leb, ◌==◌, if◌then◌else◌,
}
use mathlib.Core.List.{reverse}
use snaplink_audit_governanc.Domain.Models.{AdminAction}

unfoldable pub is_visible : String → Bool → AdminAction → Bool
is_visible tenant platform action = platform && tenant == "" || action.tenant_id == tenant

-- `result = append(result, next)`, and the return when the limit is reached.
abbrev pub emit : (AdminAction → Bool) → ℕ → AdminAction → (ℕ → List AdminAction) → List AdminAction
emit matches room next rest =
    if matches next then (if eqb room 1 then next ∷ [] else next ∷ rest (room - 1)) else rest room

-- The two loops after the merge.
unfoldable pub drain : (AdminAction → Bool) → List AdminAction → ℕ → List AdminAction
drain matches [] room = []
drain matches (next ∷ rest) room = emit matches room next (λ r. drain matches rest r)

abbrev pub is_at_least : AdminAction → AdminAction → Bool
is_at_least t s = not (ltb t.created_at s.created_at)

unfoldable pub merge_admin_actions :
    (AdminAction → Bool) → List AdminAction → List AdminAction → ℕ → List AdminAction
unfolding drain
merge_admin_actions matches [] trail room = drain matches trail room
merge_admin_actions matches (s ∷ ss) [] room = drain matches (s ∷ ss) room
merge_admin_actions matches (s ∷ ss) (t ∷ ts) room =
    let older = emit matches room t (λ r. merge_admin_actions matches (s ∷ ss) ts r) in
    let newer = emit matches room s (λ r. merge_admin_actions matches ss (t ∷ ts) r) in
    if is_at_least t s then older else newer

-- The path of ListAdminActions where the trail is empty.
unfoldable pub newest_first : (AdminAction → Bool) → List AdminAction → ℕ → List AdminAction
newest_first matches [] room = []
newest_first matches (s ∷ ss) room =
    let kept = newest_first matches ss (room - 1) in
    let rest = newest_first matches ss room in
    if leb room 0 then [] else if matches s then s ∷ kept else rest

abbrev pub clamp_limit : ℕ → ℕ
clamp_limit limit = if eqb limit 0 || ltb 100 limit then 100 else limit

-- ListAdminActions behind its reads; a limit below 1 is 0.
unfoldable pub list_admin_actions :
    String → Bool → ℕ → List AdminAction → List AdminAction → List AdminAction
unfolding is_visible merge_admin_actions newest_first
list_admin_actions tenant platform limit snapshot [] =
    newest_first (is_visible tenant platform) (reverse snapshot) (clamp_limit limit)
list_admin_actions tenant platform limit snapshot (t ∷ ts) =
    merge_admin_actions (is_visible tenant platform) (reverse snapshot) (t ∷ ts) (clamp_limit limit)
