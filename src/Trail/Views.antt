-- ===== src/Trail/Views.antt =====
-- The merge of mergeAdminActions without filter and limit, and the two paths of ListAdminActions.
use snaplink_audit_governanc.Prelude.{
  ℕ, zero, suc, ◌-◌, ◌≡◌, refl, sym, subst, String, Bool, false, List, [], ◌∷◌, arith, eqb, leb,
  if◌then◌else◌, Bool-cases, inl, inr, take, filter,
}
use mathlib.Core.List.{reverse}
use snaplink_audit_governanc.Domain.Models.{AdminAction}
use snaplink_audit_governanc.Trail.Listing.{
  is_visible, is_at_least, emit, drain, merge_admin_actions, newest_first, clamp_limit,
  list_admin_actions,
}

-- The whole merge: no filter and no limit, the later fact first; of two facts of one time the trail's.
unfoldable pub merged : List AdminAction → List AdminAction → List AdminAction
merged [] trail = trail
merged (s ∷ ss) [] = s ∷ ss
merged (s ∷ ss) (t ∷ ts) =
    let older = t ∷ merged (s ∷ ss) ts in
    let newer = s ∷ merged ss (t ∷ ts) in if leb s.created_at t.created_at then older else newer

less_one : (n : ℕ) → suc n - 1 ≡ n
less_one n = omega arith

not_last : (n : ℕ) → eqb (suc (suc n)) 1 ≡ false
not_last n = ground arith

not_full : (n : ℕ) → leb (suc n) 0 ≡ false
not_full n = ground arith

merged-nil : (ss : List AdminAction) → merged ss [] ≡ ss
unfolding merged
merged-nil [] = refl
merged-nil (s ∷ ss) = refl

later_or_same : (t s : AdminAction) → is_at_least t s ≡ leb s.created_at t.created_at
later_or_same t s = ground arith

clamp_limit-suc : (limit : ℕ) → clamp_limit limit ≡ suc (clamp_limit limit - 1)
clamp_limit-suc limit = ground arith

module _ (p : AdminAction → Bool) where
  emit-take :
      (n : ℕ) (x : AdminAction) (xs : List AdminAction) (rest : ℕ → List AdminAction)
      → ((r : ℕ) → rest (suc r) ≡ take (suc r) (filter p xs))
      → emit p (suc n) x rest ≡ take (suc n) (filter p (x ∷ xs))
  emit-take zero x xs rest h = elim (Bool-cases (p x)) [
    | inl shown ↦ rw shown refl
    | inr hidden ↦ rw hidden (h 0)
  ]
  emit-take (suc n) x xs rest h = elim (Bool-cases (p x)) [
    | inl shown ↦ rw (shown, not_last n, less_one (suc n), h n) refl
    | inr hidden ↦ rw hidden (h (suc n))
  ]

  drain-take : (xs : List AdminAction) (n : ℕ) → drain p xs (suc n) ≡ take (suc n) (filter p xs)
  unfolding drain
  drain-take [] n = refl
  drain-take (x ∷ xs) n = emit-take n x xs (λ r. drain p xs r) (λ r. drain-take xs r)

  newest_first-take : (xs : List AdminAction) (n : ℕ) → newest_first p xs n ≡ take n (filter p xs)
  unfolding newest_first
  newest_first-take [] zero = refl
  newest_first-take [] (suc n) = refl
  newest_first-take (x ∷ xs) zero = refl
  newest_first-take (x ∷ xs) (suc n) = elim (Bool-cases (p x)) [
    | inl shown ↦ rw (shown, not_full n, less_one n, newest_first-take xs n) refl
    | inr hidden ↦ rw (hidden, not_full n, newest_first-take xs (suc n)) refl
  ]

  merge-take :
      (ss ts : List AdminAction) (n : ℕ)
      → merge_admin_actions p ss ts (suc n) ≡ take (suc n) (filter p (merged ss ts))
  unfolding merge_admin_actions merged
  merge-take [] ts n = drain-take ts n
  merge-take (s ∷ ss) [] n = drain-take (s ∷ ss) n
  merge-take (s ∷ ss) (t ∷ ts) n = elim (Bool-cases (leb s.created_at t.created_at)) [
    | inl older ↦
        rw (later_or_same t s, older)
          (emit-take n t (merged (s ∷ ss) ts) (λ r. merge_admin_actions p (s ∷ ss) ts r)
            (λ r. merge-take (s ∷ ss) ts r))
    | inr newer ↦
        rw (later_or_same t s, newer)
          (emit-take n s (merged ss (t ∷ ts)) (λ r. merge_admin_actions p ss (t ∷ ts) r)
            (λ r. merge-take ss (t ∷ ts) r))
  ]

-- ListAdminActions answers, on both of its paths, with the first facts of the newest-first merge of
-- snapshot and trail that the caller may see, as many as the clamped limit: it filters before it cuts.
pub list_admin_actions-take :
    (tenant : String) (platform : Bool) (limit : ℕ) (snapshot trail : List AdminAction)
    → list_admin_actions tenant platform limit snapshot trail
      ≡ take
          (clamp_limit limit)
          (filter (is_visible tenant platform) (merged (reverse snapshot) trail))
unfolding list_admin_actions
list_admin_actions-take tenant platform limit snapshot [] =
    let visible = is_visible tenant platform in
    rw (merged-nil (reverse snapshot))
      (newest_first-take visible (reverse snapshot) (clamp_limit limit))
list_admin_actions-take tenant platform limit snapshot (t ∷ ts) =
    let visible = is_visible tenant platform in
    let room = clamp_limit limit - 1 in
    subst
      (λ n.
        merge_admin_actions visible (reverse snapshot) (t ∷ ts) n
        ≡ take n (filter visible (merged (reverse snapshot) (t ∷ ts))))
      (sym (clamp_limit-suc limit)) (merge-take visible (reverse snapshot) (t ∷ ts) room)
