-- ===== src/Repository/Payments/Laws.antt =====
-- internal/repository/payment.go: what each statement that returned has found or changed.
use grey_backend_assessment.Prelude.{
  ℕ, String, ◌≡◌, ◌∙◌, true, false, Option, some, ◌∷◌, ◌==◌, arith, find, any, update_where,
  any-of_count,
}
use grey_backend_assessment.Domain.{Uuid, Time, Payment, PaymentStatus}
use grey_backend_assessment.Session.{World, Db, ok}
use grey_backend_assessment.Session.Laws.{
  Ensures, SameDb, SameRun, Ensures-bind, Ensures-or_not_found, Ensures-driver_call,
  Ensures-raise_if, Ensures-mono, Ensures-map_error, Ensures-bind-now, SameRun-trans, SameDb-trans,
  SameDb-of_eq,
}
use grey_backend_assessment.Session.Laws.Tables.{Ensures-query, Ensures-statement}
use grey_backend_assessment.Repository.Payments.{
  has_id, has_key, is_open_with_id, set_status, insert_payment, create, get_by_id, update_payments,
  update_status, payment_error,
}

module _ {D : Type 0} where
  insert_payment-eq_ok :
      (p : Payment D) (db : Db D) {db' : Db D}
      → insert_payment p db ≡ ok (tt, db')
      → (any (has_key p.idempotency_key p.source_account_id) db.payments ≡ false)
        × (db' ≡ record db { payments = p ∷ db.payments })
  unfolding insert_payment
  insert_payment-eq_ok p db h = ground arith

  update_payments-eq_ok :
      (id : Uuid) (change : Payment D → Payment D) (db : Db D) {n : ℕ} {db' : Db D}
      → update_payments id change db ≡ ok (n, db')
      → (n == 0) ≡ false
      → (any (is_open_with_id id) db.payments ≡ true)
        × (db' ≡ record db { payments = update_where (is_open_with_id id) change db.payments })
  unfolding update_payments
  update_payments-eq_ok id change db h k =
      ground (arith, any-of_count (is_open_with_id id) db.payments)

module _ {D : Type 0} {w : World D} where
  -- The key was not used for this account, and the payment is in the table.
  pub Ensures-create :
      (p : Payment D)
      → Ensures (create p) w (λ _ w'.
        (any (has_key p.idempotency_key p.source_account_id) w.db.payments ≡ false)
        × (w'.db ≡ record w.db { payments = p ∷ w.db.payments })
        × SameRun w w')
  unfolding create
  Ensures-create p = Ensures-map_error payment_error (
      Ensures-mono (Ensures-statement (insert_payment p))
        λ _ w1 (e, s). let (fresh, added) = insert_payment-eq_ok p w.db e in (fresh, added, s))

  pub Ensures-get_by_id :
      (id : Uuid)
      → Ensures (get_by_id id) w (λ p w'. (find (has_id id) w.db.payments ≡ some p) × SameDb w w')
  unfolding get_by_id
  Ensures-get_by_id id =
      Ensures-bind (Ensures-query (λ db. find (has_id id) db.payments))
        λ row w1 (e, s). Ensures-or_not_found row (λ a h. (rw (← e) h, s))

  -- The payment was in a state that is not final, and has the new one.
  pub Ensures-update_status :
      (id : Uuid) (status : PaymentStatus) (provider_ref failure_reason : Option String)
      (completed_at : Option Time)
      → Ensures (update_status id status provider_ref failure_reason completed_at) w (λ _ w'.
        (any (is_open_with_id id) w.db.payments ≡ true)
        × (w'.db ≡ record w.db {
          payments =
              update_where
                (is_open_with_id id)
                (set_status status provider_ref failure_reason completed_at (w.env.time_at w.tick))
                w.db.payments;
        })
        × SameRun w w')
  unfolding update_status
  Ensures-update_status id status provider_ref failure_reason completed_at =
      Ensures-bind-now λ t at. rw (← at) (
        Ensures-bind (Ensures-statement _) λ rows w1 (e, s).
          Ensures-bind Ensures-driver_call λ _ w2 c.
            Ensures-mono (Ensures-raise_if (rows == 0) _) λ _ w3 (some_row, same).
              let u = SameDb-trans w1 w2 w3 c (SameDb-of_eq same) in
              let (hit, after) = update_payments-eq_ok id _ w.db e some_row in
              (hit, u.0 ∙ after, SameRun-trans w w1 w3 s u.1))
