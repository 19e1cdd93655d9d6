-- ===== src/Http/Errors/Responses.antt =====
-- What an error response tells, and how it is counted.
use snaplink_audit_governanc.Prelude.{
  ℕ, ◌≡◌, refl, sym, ◌∙◌, String, Bool, Option, none, some, eq_iff, true, false, ◌||◌, eqb, leb,
  if◌then◌else◌, arith, Bool-cases, inl, inr, ◌==◌,
}
use snaplink_audit_governanc.Http.Errors.{
  Failure, is, classify_withdrawal, status_for_error, error_code, error_message, error_body,
  Counters, record_outcome, write_error, status_client_closed_request, operation_deadline,
  occurred_at_out_of_range, invalid, unauthorized, forbidden, not_found, conflict, quota_exceeded,
  schema_not_found, tenant_mismatch, snapshot_conflict, canceled, deadline_exceeded,
}

-- The contract of the codes, as the documents list it; any other text is none of its codes.
unfoldable pub status_of_code : String → Option ℕ
status_of_code code =
    if code == "occurred_at_out_of_range" || code == "schema_not_found" || code == "tenant_mismatch"
    then some 422
    else if code == "invalid_request"
    then some 400
    else if code == "unauthorized"
    then some 401
    else if code == "forbidden"
    then some 403
    else if code == "not_found"
    then some 404
    else if code == "conflict"
    then some 409
    else if code == "quota_exceeded"
    then some 429
    else if code == "snapshot_conflict" || code == "store_timeout"
    then some 503
    else if code == "client_cancelled" || code == "client_deadline_exceeded"
    then some 499
    else if code == "internal_error"
    then some 500
    else none

pub error_code-status_of_code :
    (failure : Failure)
    → status_of_code (error_code (status_for_error failure) failure)
      ≡ some (status_for_error failure)
unfolding status_of_code error_code status_for_error classify_withdrawal
error_code-status_of_code failure = elim (Bool-cases (is failure occurred_at_out_of_range)) [
  | inl found ↦ rw found refl
  | inr absent ↦ rw absent (elim (Bool-cases (is failure invalid)) [
    | inl found ↦ rw found refl
    | inr absent ↦ rw absent (elim (Bool-cases (is failure unauthorized)) [
      | inl found ↦ rw found refl
      | inr absent ↦ rw absent (elim (Bool-cases (is failure forbidden)) [
        | inl found ↦ rw found refl
        | inr absent ↦ rw absent (elim (Bool-cases (is failure not_found)) [
          | inl found ↦ rw found refl
          | inr absent ↦ rw absent (elim (Bool-cases (is failure conflict)) [
            | inl found ↦ rw found refl
            | inr absent ↦ rw absent (elim (Bool-cases (is failure quota_exceeded)) [
              | inl found ↦ rw found refl
              | inr absent ↦ rw absent (elim (Bool-cases (is failure schema_not_found)) [
                | inl found ↦ rw found refl
                | inr absent ↦ rw absent (elim (Bool-cases (is failure tenant_mismatch)) [
                  | inl found ↦ rw found refl
                  | inr absent ↦ rw absent (elim (Bool-cases (is failure snapshot_conflict)) [
                    | inl found ↦ rw found refl
                    | inr absent ↦ rw absent (elim (Bool-cases (is failure operation_deadline)) [
                      | inl found ↦ rw found refl
                      | inr absent ↦ rw absent (elim (Bool-cases (is failure canceled)) [
                        | inl found ↦ rw found refl
                        | inr absent ↦ rw absent (elim (Bool-cases (is failure deadline_exceeded)) [
                          | inl found ↦ rw found refl
                          | inr absent ↦ rw absent (refl)
                        ])
                      ])
                    ])
                  ])
                ])
              ])
            ])
          ])
        ])
      ])
    ])
  ])
]

status_for_error-deadline :
    (failure : Failure)
    → is failure operation_deadline ≡ true
    → eqb (status_for_error failure) status_client_closed_request ≡ false
unfolding status_for_error
status_for_error-deadline failure h = ground (arith, h)

unfoldable is_withdrawal_code : String → Bool
is_withdrawal_code code = code == "client_cancelled" || code == "client_deadline_exceeded"

status_of_code-withdrawal :
    (code : String) → is_withdrawal_code code ≡ true → status_of_code code ≡ some 499
unfolding status_of_code is_withdrawal_code
status_of_code-withdrawal code h = elim (Bool-cases (code == "client_cancelled")) [
  | inl cancelled ↦ rw ((eq_iff code "client_cancelled").0 cancelled) refl
  | inr kept ↦
      let late : (code == "client_deadline_exceeded") ≡ true = ground (arith, h, kept) in
      rw ((eq_iff code "client_deadline_exceeded").0 late) refl
]

error_code-deadline :
    (failure : Failure)
    → is failure operation_deadline ≡ true
    → is_withdrawal_code (error_code (status_for_error failure) failure) ≡ false
error_code-deadline failure h =
    let code = error_code (status_for_error failure) failure in
    elim (Bool-cases (is_withdrawal_code code)) [
      | inr kept ↦ kept
      | inl withdrawn ↦ absurd (
          let same : some (status_for_error failure) ≡ some 499 =
            sym (error_code-status_of_code failure) ∙ status_of_code-withdrawal code withdrawn in
          ground (arith, same, status_for_error-deadline failure h))
    ]

-- An error that an exhausted deadline of the store caused, answered with its own status, is never
-- answered or counted as a withdrawal of the caller, although it also is a `context.DeadlineExceeded`:
-- the status is not 499, the code is neither `client_cancelled` nor `client_deadline_exceeded`, and the
-- two counters of withdrawals keep their values.
pub write_error-deadline :
    (failure : Failure) (request_id : String) (counters : Counters)
    → is failure operation_deadline ≡ true
    → let (_, after, status, body) =
        write_error (status_for_error failure) failure request_id counters in
      (eqb status status_client_closed_request ≡ false)
      × ((body.code == "client_cancelled" || body.code == "client_deadline_exceeded") ≡ false)
      × (after.withdrawal_deadline_count ≡ counters.withdrawal_deadline_count)
      × (after.withdrawal_cancel_count ≡ counters.withdrawal_cancel_count)
unfolding write_error error_body record_outcome is_withdrawal_code
write_error-deadline failure request_id counters h =
    let own = status_for_error-deadline failure h in
    let (deadlines, cancels) = not_withdrawn (status_for_error failure) own in
    (own, error_code-deadline failure h, deadlines, cancels)
  where
    not_withdrawn :
        (status : ℕ)
        → eqb status status_client_closed_request ≡ false
        → let after = record_outcome status failure counters in
          (after.withdrawal_deadline_count ≡ counters.withdrawal_deadline_count)
          × (after.withdrawal_cancel_count ≡ counters.withdrawal_cancel_count)
    not_withdrawn status k = elim (Bool-cases (leb 500 status)) [
      | inl server ↦ rw server (refl, refl)
      | inr client ↦ rw (client, k) (refl, refl)
    ]

-- A response with the status 401, 499 or of at least 500 is the same whatever the text of the error
-- is: nothing of the text reaches the body, the counters or the headers.
pub write_error-hides :
    (status : ℕ) (failure : Failure) (text request_id : String) (counters : Counters)
    → (eqb status 401 || leb 500 status || eqb status status_client_closed_request) ≡ true
    → write_error status (record failure { text = text }) request_id counters
      ≡ write_error status failure request_id counters
unfolding write_error error_body error_message error_code record_outcome classify_withdrawal is
write_error-hides status failure text request_id counters h = elim (Bool-cases (eqb status 401)) [
  | inl unauthenticated ↦ rw unauthenticated refl
  | inr other_ ↦ elim (Bool-cases (leb 500 status)) [
    | inl server ↦ rw (other_, server) refl
    | inr client ↦
        let withdrawn : eqb status status_client_closed_request ≡ true =
          ground (arith, h, other_, client) in
        rw (other_, client, withdrawn) refl
  ]
]
