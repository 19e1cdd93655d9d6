-- ===== src/Http/Errors.antt =====
-- internal/httpapi/authz.go: statusForError, errorBody, classifyWithdrawal and recordOutcome. An error
-- is its text with the sentinels that `errors.Is` finds in it.
pub mod Responses
use snaplink_audit_governanc.Prelude.{
  ℕ, suc, ◌≡◌, String, Bool, true, false, not, ◌&&◌, ◌||◌, List, [], ◌∷◌, Option, none, some, any,
  eqb, leb, if◌then◌else◌,
}

-- `deadline_exceeded` and `canceled` are those of package context; `other` is any further sentinel.
pub data Sentinel : Type 0 where
  occurred_at_out_of_range invalid unauthorized forbidden not_found conflict : Sentinel
  quota_exceeded schema_not_found tenant_mismatch snapshot_conflict : Sentinel
  operation_deadline canceled deadline_exceeded other : Sentinel

-- `legal_hold_id` is what `errors.As` finds of an error with LegalHoldID.
pub record Failure : Type 0 where
  pub sentinels : List Sentinel
  pub text : String
  pub legal_hold_id : Option String

abbrev pub rank : Sentinel → ℕ
rank occurred_at_out_of_range = 0
rank invalid = 1
rank unauthorized = 2
rank forbidden = 3
rank not_found = 4
rank conflict = 5
rank quota_exceeded = 6
rank schema_not_found = 7
rank tenant_mismatch = 8
rank snapshot_conflict = 9
rank operation_deadline = 10
rank canceled = 11
rank deadline_exceeded = 12
rank other = 13

-- errors.Is
unfoldable pub is : Failure → Sentinel → Bool
is failure target = any (λ sentinel. eqb (rank sentinel) (rank target)) failure.sentinels

pub data Withdrawal : Type 0 where
  withdrawal_none withdrawal_cancelled withdrawal_deadline : Withdrawal

unfoldable pub classify_withdrawal : Failure → Withdrawal
classify_withdrawal failure =
    if is failure canceled
    then withdrawal_cancelled
    else if is failure deadline_exceeded
    then withdrawal_deadline
    else withdrawal_none

abbrev pub status_client_closed_request : ℕ
status_client_closed_request = 499

unfoldable pub status_for_error : Failure → ℕ
status_for_error failure =
    if is failure occurred_at_out_of_range
    then 422
    else if is failure invalid
    then 400
    else if is failure unauthorized
    then 401
    else if is failure forbidden
    then 403
    else if is failure not_found
    then 404
    else if is failure conflict
    then 409
    else if is failure quota_exceeded
    then 429
    else if is failure schema_not_found
    then 422
    else if is failure tenant_mismatch
    then 422
    else if is failure snapshot_conflict
    then 503
    else if is failure operation_deadline
    then 503
    else if is failure canceled
    then status_client_closed_request
    else if is failure deadline_exceeded
    then status_client_closed_request
    else 500

abbrev pub is_cancelled_kind : Withdrawal → Bool
is_cancelled_kind withdrawal_cancelled = true
is_cancelled_kind _ = false

abbrev pub is_deadline_kind : Withdrawal → Bool
is_deadline_kind withdrawal_deadline = true
is_deadline_kind _ = false

unfoldable pub error_code : ℕ → Failure → String
error_code status failure =
    if is failure occurred_at_out_of_range
    then "occurred_at_out_of_range"
    else if is failure invalid
    then "invalid_request"
    else if is failure unauthorized
    then "unauthorized"
    else if is failure forbidden
    then "forbidden"
    else if is failure not_found
    then "not_found"
    else if is failure conflict
    then "conflict"
    else if is failure quota_exceeded
    then "quota_exceeded"
    else if is failure schema_not_found
    then "schema_not_found"
    else if is failure tenant_mismatch
    then "tenant_mismatch"
    else if is failure snapshot_conflict
    then "snapshot_conflict"
    else if is failure operation_deadline
    then "store_timeout"
    else if eqb status status_client_closed_request
        && is_cancelled_kind (classify_withdrawal failure)
    then "client_cancelled"
    else if eqb status status_client_closed_request
        && is_deadline_kind (classify_withdrawal failure)
    then "client_deadline_exceeded"
    else "internal_error"

unfoldable pub error_message : ℕ → Failure → String
error_message status failure =
    if eqb status 401
    then "unauthorized"
    else if leb 500 status
    then "internal server error"
    else if eqb status status_client_closed_request
    then if is_deadline_kind (classify_withdrawal failure)
      then "client request deadline exceeded"
      else "client cancelled the request"
    else failure.text

pub record ErrorBody : Type 0 where
  pub code : String
  pub message : String
  pub request_id : String
  -- `detail["reason"]` with `detail["hold_id"]`
  pub hold_id : Option String

unfoldable pub error_body : ℕ → Failure → String → ErrorBody
error_body status failure request_id = record {
  code = error_code status failure;
  message = error_message status failure;
  request_id = request_id;
  hold_id = if eqb status 403 then failure.legal_hold_id else none;
}

-- The counters of the server, and the response header that writeError sets.
pub record Counters : Type 0 where
  pub error_count : ℕ
  pub withdrawal_deadline_count : ℕ
  pub withdrawal_cancel_count : ℕ

unfoldable pub record_outcome : ℕ → Failure → Counters → Counters
record_outcome status failure counters =
    if leb 500 status
    then record counters { error_count = suc counters.error_count }
    else if not (eqb status status_client_closed_request)
    then counters
    else if is_deadline_kind (classify_withdrawal failure)
    then record counters { withdrawal_deadline_count = suc counters.withdrawal_deadline_count }
    else record counters { withdrawal_cancel_count = suc counters.withdrawal_cancel_count }

-- writeError: whether `Cache-Control: no-store` is set, the counters, the status and the body.
unfoldable pub write_error : ℕ → Failure → String → Counters → Bool × Counters × ℕ × ErrorBody
write_error status failure request_id counters = (
  leb 500 status || eqb status status_client_closed_request,
  record_outcome status failure counters,
  status,
  error_body status failure request_id,
)
