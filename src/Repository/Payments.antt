-- ===== src/Repository/Payments.antt =====
-- internal/repository/payment.go
pub mod Laws
use grey_backend_assessment.Prelude.{
  ℕ, String, Bool, true, false, not, ◌&&◌, Option, none, List, ◌∷◌, ◌==◌, if◌then◌else◌, str_eq,
  find, any, filter, update_where, length,
}
use grey_backend_assessment.Domain.{
  Uuid, Time, Payment, PaymentStatus, Error, duplicate_idempotency_key, payment_terminal,
  unique_violation,
}
use grey_backend_assessment.Session.{
  Db, Result, ok, err, Session, or_not_found, map_error, raise_if, ◌>>=◌, ◌>>◌, driver_call,
  statement, query, now,
}

-- status IN ('completed', 'failed', 'reversed')
abbrev pub is_final : PaymentStatus → Bool
is_final PaymentStatus.completed = true
is_final PaymentStatus.failed = true
is_final PaymentStatus.reversed = true
is_final _ = false

-- The error of an INSERT into payments, told apart by code and constraint.
abbrev pub payment_error : Error → Error
payment_error (unique_violation name) =
    if str_eq name "idx_payments_idempotency_key"
    then duplicate_idempotency_key
    else unique_violation name
payment_error e = e

module _ {D : Type 0} where
  abbrev pub has_id : Uuid → Payment D → Bool
  has_id id p = p.id == id

  -- The columns of idx_payments_idempotency_key.
  abbrev pub has_key : String → Uuid → Payment D → Bool
  has_key key source p = str_eq p.idempotency_key key && p.source_account_id == source

  unfoldable pub insert_payment : Payment D → Db D → Result (Unit × Db D)
  insert_payment p db =
      if any (has_id p.id) db.payments
      then err (unique_violation "payments_pkey")
      else if any (has_key p.idempotency_key p.source_account_id) db.payments
      then err (unique_violation "idx_payments_idempotency_key")
      else ok (tt, record db { payments = p ∷ db.payments })

  unfoldable pub create : Payment D → Session D Unit
  create p = map_error payment_error (statement (insert_payment p))

  unfoldable pub get_by_id : Uuid → Session D (Payment D)
  get_by_id id = do row ← query (λ db. find (has_id id) db.payments); or_not_found row

  -- WHERE id = $5 AND status NOT IN (…)
  abbrev pub is_open_with_id : Uuid → Payment D → Bool
  is_open_with_id id p = p.id == id && not (is_final p.status)

  -- SET status = $1, provider_ref = $2, failure_reason = $3, completed_at = $4, updated_at = now()
  abbrev pub set_status :
      PaymentStatus → Option String → Option String → Option Time → Time → Payment D → Payment D
  set_status status provider_ref failure_reason completed_at updated_at p = record p {
    status = status;
    provider_ref = provider_ref;
    failure_reason = failure_reason;
    completed_at = completed_at;
    updated_at = updated_at;
  }

  unfoldable pub update_payments : Uuid → (Payment D → Payment D) → Db D → Result (ℕ × Db D)
  update_payments id change db = ok (
    length (filter (is_open_with_id id) db.payments),
    record db { payments = update_where (is_open_with_id id) change db.payments },
  )

  unfoldable pub update_status :
      Uuid → PaymentStatus → Option String → Option String → Option Time → Session D Unit
  update_status id status provider_ref failure_reason completed_at = do
    updated_at ← now
    rows ←
        statement (
          update_payments id
            (set_status status provider_ref failure_reason completed_at updated_at))
    driver_call
    raise_if (rows == 0) payment_terminal
