-- ===== src/Trail/Order.antt =====
-- The order of what ListAdminActions answers.
use snaplink_audit_governanc.Prelude.{
  ℕ, zero, suc, ◌≤◌, sym, subst, String, Bool, List, [], ◌∷◌, arith, leb, Bool-cases, inl, inr,
  take, filter, All,
}
use mathlib.Core.List.{reverse}
use snaplink_audit_governanc.Domain.Models.{AdminAction}
use snaplink_audit_governanc.Trail.Listing.{is_visible, clamp_limit, list_admin_actions}
use snaplink_audit_governanc.Trail.Views.{merged, list_admin_actions-take}

-- The fact is not later than the time.
abbrev pub IsBefore : ℕ → AdminAction → Type 0
IsBefore time action = action.created_at ≤ time

-- Each fact is followed by none that is later.
abbrev pub IsNewestFirst : List AdminAction → Type 0
IsNewestFirst [] = Unit
IsNewestFirst (a ∷ rest) = All (IsBefore a.created_at) rest × IsNewestFirst rest

module _ (time : ℕ) where
  All-earlier :
      (bound : ℕ) (xs : List AdminAction)
      → bound ≤ time
      → All (IsBefore bound) xs
      → All (IsBefore time) xs
  All-earlier bound [] le h = tt
  All-earlier bound (x ∷ xs) le h = (omega (arith, le, h.0), All-earlier bound xs le h.1)

  All-merged :
      (ss ts : List AdminAction)
      → All (IsBefore time) ss
      → All (IsBefore time) ts
      → All (IsBefore time) (merged ss ts)
  unfolding merged
  All-merged [] ts h k = k
  All-merged (s ∷ ss) [] h k = h
  All-merged (s ∷ ss) (t ∷ ts) h k = elim (Bool-cases (leb s.created_at t.created_at)) [
    | inl older ↦ rw older (k.0, All-merged (s ∷ ss) ts h k.1)
    | inr newer ↦ rw newer (h.0, All-merged ss (t ∷ ts) h.1 k)
  ]

  All-take :
      (n : ℕ) (xs : List AdminAction) → All (IsBefore time) xs → All (IsBefore time) (take n xs)
  All-take zero xs h = tt
  All-take (suc n) [] h = tt
  All-take (suc n) (x ∷ xs) h = (h.0, All-take n xs h.1)

  All-filter :
      (p : AdminAction → Bool) (xs : List AdminAction)
      → All (IsBefore time) xs
      → All (IsBefore time) (filter p xs)
  All-filter p [] h = tt
  All-filter p (x ∷ xs) h = elim (Bool-cases (p x)) [
    | inl shown ↦ rw shown (h.0, All-filter p xs h.1)
    | inr hidden ↦ rw hidden (All-filter p xs h.1)
  ]

merged-IsNewestFirst :
    (ss ts : List AdminAction) → IsNewestFirst ss → IsNewestFirst ts → IsNewestFirst (merged ss ts)
unfolding merged
merged-IsNewestFirst [] ts h k = k
merged-IsNewestFirst (s ∷ ss) [] h k = h
merged-IsNewestFirst (s ∷ ss) (t ∷ ts) h k = elim (Bool-cases (leb s.created_at t.created_at)) [
  | inl older ↦
      let le : s.created_at ≤ t.created_at = ground (arith, older) in
      rw older (
        All-merged t.created_at (s ∷ ss) ts (le, All-earlier t.created_at s.created_at ss le h.0)
            k.0,
        merged-IsNewestFirst (s ∷ ss) ts h k.1,
      )
  | inr newer ↦
      let le : t.created_at ≤ s.created_at = ground (arith, newer) in
      rw newer (
        All-merged s.created_at ss (t ∷ ts) h.0
            (le, All-earlier s.created_at t.created_at ts le k.0),
        merged-IsNewestFirst ss (t ∷ ts) h.1 k,
      )
]

take-IsNewestFirst : (n : ℕ) (xs : List AdminAction) → IsNewestFirst xs → IsNewestFirst (take n xs)
take-IsNewestFirst zero xs h = tt
take-IsNewestFirst (suc n) [] h = tt
take-IsNewestFirst (suc n) (x ∷ xs) h =
    (All-take x.created_at n xs h.0, take-IsNewestFirst n xs h.1)

filter-IsNewestFirst :
    (p : AdminAction → Bool) (xs : List AdminAction)
    → IsNewestFirst xs
    → IsNewestFirst (filter p xs)
filter-IsNewestFirst p [] h = tt
filter-IsNewestFirst p (x ∷ xs) h = elim (Bool-cases (p x)) [
  | inl shown ↦ rw shown (All-filter x.created_at p xs h.0, filter-IsNewestFirst p xs h.1)
  | inr hidden ↦ rw hidden (filter-IsNewestFirst p xs h.1)
]

-- Where the facts of the snapshot stand oldest first and those of the trail newest first,
-- ListAdminActions answers newest first, whoever asks and whatever the limit.
pub list_admin_actions-IsNewestFirst :
    (tenant : String) (platform : Bool) (limit : ℕ) (snapshot trail : List AdminAction)
    → IsNewestFirst (reverse snapshot)
    → IsNewestFirst trail
    → IsNewestFirst (list_admin_actions tenant platform limit snapshot trail)
list_admin_actions-IsNewestFirst tenant platform limit snapshot trail h k =
    let all = merged (reverse snapshot) trail in
    subst IsNewestFirst (sym (list_admin_actions-take tenant platform limit snapshot trail)) (
      take-IsNewestFirst (clamp_limit limit) (filter (is_visible tenant platform) all) (
        filter-IsNewestFirst (is_visible tenant platform) all
          (merged-IsNewestFirst (reverse snapshot) trail h k)))
