-- ===== src/Quota/Windows.antt =====
-- The requests that pass in one window of checkTenantAndQuota.
use snaplink_audit_governanc.Prelude.{
  ℕ, zero, suc, ℤ, pos, negsuc, ◌+ℤ◌, ltb, subst, if◌then◌else◌, ◌-◌, ◌+◌, ◌≤◌, ◌<◌, ◌≡◌, refl,
  String, Bool, true, false, some, List, [], ◌∷◌, Table, lookup, insert, get_or, lookup-insert,
  eq_refl, leb, arith, All, bit, Bool-cases, ◌⊎◌, inl, inr,
}
use snaplink_audit_governanc.Domain.Errors.{Result, ok, err, quota_exceeded}
use snaplink_audit_governanc.Domain.Models.{Tenant}
use snaplink_audit_governanc.Quota.{
  QuotaWindow, no_window, second, positive_or, quota_limit, counted, current_window, take_quota,
  check_tenant_and_quota,
}

abbrev pub is_admitted : Result (Unit {0}) → Bool
is_admitted (ok _) = true
is_admitted (err _) = false

-- How many of the requests at these times pass.
unfoldable pub admitted : Table Tenant → String → List ℕ → Table QuotaWindow → ℕ
unfolding check_tenant_and_quota
admitted tenants tenant [] quotas = 0
admitted tenants tenant (now ∷ times) quotas =
    let (after, answer) = check_tenant_and_quota tenants tenant now quotas in
    bit (is_admitted answer) + admitted tenants tenant times after

-- What a quota lets pass in a window: the rate and the burst, or the rate where a negative burst leaves
-- nothing of it.
abbrev pub ceiling : ℕ → ℤ → ℕ
ceiling rate (pos burst) = rate + burst
ceiling rate (negsuc n) = if ltb (suc n) rate then rate - suc n else rate

quota_limit-ceiling :
    (t : Tenant) → 0 < t.events_per_second → quota_limit t ≡ ceiling t.events_per_second t.burst
unfolding quota_limit ◌+ℤ◌
quota_limit-ceiling t limited = limit-ceiling t.events_per_second t.burst limited
  where
    positive : (n : ℕ) (rate : ℕ) → 0 < n → positive_or rate (pos n) ≡ n
    positive zero rate h = absurd (omega (arith, h))
    positive (suc n) rate h = refl

    limit-ceiling :
        (rate : ℕ) (burst : ℤ)
        → 0 < rate
        → positive_or rate (pos rate +ℤ burst) ≡ ceiling rate burst
    limit-ceiling rate (pos b) h = positive (rate + b) rate (omega (arith, h))
    limit-ceiling rate (negsuc n) h = elim (Bool-cases (ltb (suc n) rate)) [
      | inl some_left ↦
          let covered : leb (suc n) rate ≡ true = ground (arith, some_left) in
          rw (covered, some_left) (positive (rate - suc n) rate (ground (arith, some_left)))
      | inr none_left ↦ elim (Bool-cases (leb (suc n) rate)) [
        | inl covered ↦
            let nothing : rate - suc n ≡ 0 = ground (arith, none_left) in
            rw (covered, none_left, nothing) refl
        | inr short ↦ rw (short, none_left) refl
      ]
    ]

-- The time is in the second that `start` begins.
abbrev pub IsWithin : ℕ → ℕ → Type 0
IsWithin start now = now < start + second

module _ (tenants : Table Tenant) (tenant : String) (t : Tenant)
    (found : lookup tenant tenants ≡ some t) (active : t.active ≡ true)
    (limited : 0 < t.events_per_second) (start : ℕ) (set : 0 < start) where
  checked :
      (now : ℕ) (quotas : Table QuotaWindow)
      → check_tenant_and_quota tenants tenant now quotas ≡ take_quota t tenant now quotas
  unfolding check_tenant_and_quota
  checked now quotas = ground (arith, found, active)

  same_window :
      (now : ℕ) (quotas : Table QuotaWindow) (w : QuotaWindow)
      → lookup tenant quotas ≡ some w
      → w.started ≡ start
      → IsWithin start now
      → current_window now (get_or tenant no_window quotas) ≡ w
  unfolding current_window
  same_window now quotas w at begun within = ground (arith, at, begun, within, set)

  -- A request in the window leaves it with one more, where there is room, and refuses where not.
  take_quota-cases :
      (now : ℕ) (quotas : Table QuotaWindow) (w : QuotaWindow)
      → current_window now (get_or tenant no_window quotas) ≡ w
      → ((w.count < quota_limit t)
          × (take_quota t tenant now quotas ≡ (insert tenant (counted w) quotas, ok tt)))
        ⊎ (take_quota t tenant now quotas ≡ (insert tenant w quotas, err quota_exceeded))
  unfolding take_quota
  take_quota-cases now quotas w e = elim (Bool-cases (leb (quota_limit t) w.count)) [
    | inl full ↦ inr (ground (arith, limited, e, full))
    | inr room ↦ inl (ground (arith, room), ground (arith, limited, e, room))
  ]

  stored :
      (w : QuotaWindow) (quotas : Table QuotaWindow)
      → lookup tenant (insert tenant w quotas) ≡ some w
  stored w quotas = rw (lookup-insert tenant tenant w quotas, eq_refl tenant) refl

  admitted-window :
      (times : List ℕ) (quotas : Table QuotaWindow) (w : QuotaWindow)
      → lookup tenant quotas ≡ some w
      → w.started ≡ start
      → All (IsWithin start) times
      → w.count ≤ quota_limit t
      → admitted tenants tenant times quotas + w.count ≤ quota_limit t
  unfolding admitted
  admitted-window [] quotas w at begun within fits = omega (arith, fits)
  admitted-window (now ∷ times) quotas w at begun within fits =
      elim (take_quota-cases now quotas w (same_window now quotas w at begun within.0)) [
        | inl (room, e) ↦
            let next = insert tenant (counted w) quotas in
            let rest : admitted tenants tenant times next + (w.count + 1) ≤ quota_limit t =
              admitted-window times next (counted w) (stored (counted w) quotas) begun within.1
                (omega (arith, room)) in
            rw (checked now quotas, e) (omega (arith, rest))
        | inr e ↦
            let next = insert tenant w quotas in
            let rest : admitted tenants tenant times next + w.count ≤ quota_limit t =
              admitted-window times next w (stored w quotas) begun within.1 fits in
            rw (checked now quotas, e) (omega (arith, rest))
      ]

  abbrev opened : QuotaWindow
  opened = record { started = start; count = 0 }

  admitted_limited :
      (times : List ℕ) (quotas : Table QuotaWindow)
      → current_window start (get_or tenant no_window quotas) ≡ opened
      → All (IsWithin start) times
      → admitted tenants tenant (start ∷ times) quotas ≤ quota_limit t
  unfolding admitted
  admitted_limited times quotas opens within = elim (take_quota-cases start quotas opened opens) [
    | inl (room, e) ↦
        let next = insert tenant (counted opened) quotas in
        let rest : admitted tenants tenant times next + 1 ≤ quota_limit t =
          admitted-window times next (counted opened) (stored (counted opened) quotas) refl within
            (omega (arith, room)) in
        rw (checked start quotas, e) (omega (arith, rest))
    | inr e ↦
        let next = insert tenant opened quotas in
        let rest : admitted tenants tenant times next + 0 ≤ quota_limit t =
          admitted-window times next opened (stored opened quotas) refl within (omega arith) in
        rw (checked start quotas, e) (omega (arith, rest))
  ]

  -- For an active tenant with a rate, at a start that is not the zero time, the requests that pass in the
  -- second that a window opens with, the one at its start and all that follow in that second, are at
  -- most the rate and the burst together, or the rate alone where a negative burst leaves nothing.
  pub admitted-limit :
      (times : List ℕ) (quotas : Table QuotaWindow)
      → current_window start (get_or tenant no_window quotas) ≡ opened
      → All (IsWithin start) times
      → admitted tenants tenant (start ∷ times) quotas ≤ ceiling t.events_per_second t.burst
  admitted-limit times quotas opens within =
      subst (λ n. admitted tenants tenant (start ∷ times) quotas ≤ n)
        (quota_limit-ceiling t limited) (admitted_limited times quotas opens within)
