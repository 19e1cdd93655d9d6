-- ===== src/Quota.antt =====
-- internal/service/service.go, checkTenantAndQuota: the ingestion quota of a tenant, in windows of one
-- second. A rate that is not positive is 0; a burst may be negative.
pub mod Windows
use snaplink_audit_governanc.Prelude.{
  ℕ, zero, suc, ℤ, pos, negsuc, ◌+ℤ◌, ◌+◌, ◌-◌, String, not, ◌||◌, none, some, Table, lookup,
  insert, get_or, eqb, leb, if◌then◌else◌,
}
use snaplink_audit_governanc.Domain.Errors.{Result, ok, err, not_found, quota_exceeded}
use snaplink_audit_governanc.Domain.Models.{Tenant}

pub record QuotaWindow : Type 0 where
  pub started : ℕ
  pub count : ℕ

abbrev pub no_window : QuotaWindow
no_window = record { started = 0; count = 0 }

-- time.Second
abbrev pub second : ℕ
second = 1_000_000_000

-- The limit where it is positive, and the rate where not.
abbrev pub positive_or : ℕ → ℤ → ℕ
positive_or rate (pos zero) = rate
positive_or rate (pos (suc n)) = suc n
positive_or rate (negsuc n) = rate

unfoldable pub quota_limit : Tenant → ℕ
quota_limit t = positive_or t.events_per_second (pos t.events_per_second +ℤ t.burst)

-- The window that a request at `now` falls in.
unfoldable pub current_window : ℕ → QuotaWindow → QuotaWindow
current_window now window =
    if eqb window.started 0 || leb second (now - window.started)
    then record { started = now; count = 0 }
    else window

abbrev pub counted : QuotaWindow → QuotaWindow
counted window = record window { count = window.count + 1 }

-- Behind the read of the tenant, which exists and is active.
unfoldable pub take_quota :
    Tenant → String → ℕ → Table QuotaWindow → Table QuotaWindow × Result (Unit {0})
unfolding quota_limit current_window
take_quota t tenant now quotas =
    let window = current_window now (get_or tenant no_window quotas) in
    if leb t.events_per_second 0
    then (quotas, ok tt)
    else if leb (quota_limit t) window.count
    then (insert tenant window quotas, err quota_exceeded)
    else (insert tenant (counted window) quotas, ok tt)

unfoldable pub check_tenant_and_quota :
    Table Tenant → String → ℕ → Table QuotaWindow → Table QuotaWindow × Result (Unit {0})
unfolding take_quota
check_tenant_and_quota tenants tenant now quotas = elim (lookup tenant tenants) [
  | none ↦ (quotas, err not_found)
  | some t ↦ if not t.active then (quotas, err not_found) else take_quota t tenant now quotas
]
