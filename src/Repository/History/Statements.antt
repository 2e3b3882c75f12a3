-- ===== src/Repository/History/Statements.antt =====
-- internal/repository: every statement of the services keeps that history.
use grey_backend_assessment.Prelude.{ℕ, String, ◌≡◌, refl, Option, [], ◌∷◌, update_where, arith}
use grey_backend_assessment.Prelude.Int.{ℤ}
use grey_backend_assessment.Domain.{
  Uuid, Time, Payment, PaymentStatus, LedgerEntry, PaymentEvent, Currency, AccountType,
  WebhookEventStatus,
}
use grey_backend_assessment.Session.{Db, ok}
use grey_backend_assessment.Session.Preserves.{
  Preserves, Preserves-bind, Preserves-query, Preserves-or_not_found, Preserves-statement,
  Preserves-driver_call, Preserves-raise_if, Preserves-now,
}
use grey_backend_assessment.Repository.Accounts
use grey_backend_assessment.Repository.Payments
use grey_backend_assessment.Repository.Payments.{has_id, is_final, is_open_with_id}
use grey_backend_assessment.Repository.Ledger
use grey_backend_assessment.Repository.Events
use grey_backend_assessment.Repository.Webhooks
use grey_backend_assessment.Repository.History.{History, history, SameHistory→History, final_update}

module _ {D : Type 0} where
  pub History-update_status :
      (id : Uuid) (status : PaymentStatus) (provider_ref failure_reason : Option String)
      (completed_at : Option Time)
      → Preserves
          (history {D = D})
          (Payments.update_status id status provider_ref failure_reason completed_at)
  unfolding Payments.update_status Payments.update_payments
  History-update_status id status provider_ref failure_reason completed_at =
      Preserves-bind history (Preserves-now history) λ t.
        Preserves-bind history (Preserves-statement history _ λ db n db' h. changed t db n db' h)
          λ rows.
            Preserves-bind history (Preserves-driver_call history)
              λ _. Preserves-raise_if history _ _
    where
      change : Time → Payment D → Payment D
      change t = Payments.set_status status provider_ref failure_reason completed_at t

      changed :
          (t : Time) (db : Db D) (n : ℕ) (db' : Db D)
          → Payments.update_payments id (change t) db ≡ ok (n, db')
          → History db db'
      changed t db n db' h =
          let (rows, l, e, c) = split t db n db' h in
          record {
            final_payments =
                λ j q k f. rw rows (final_update id (change t) db.payments j q (λ r. refl) k f);
            ledger_grows = ([], l);
            events_grow = ([], e);
            cache_same = c;
          }
        where
          split :
              (t : Time) (db : Db D) (n : ℕ) (db' : Db D)
              → Payments.update_payments id (change t) db ≡ ok (n, db')
              → (db'.payments ≡ update_where (is_open_with_id id) (change t) db.payments)
                × (db'.ledger_entries ≡ db.ledger_entries)
                × (db'.payment_events ≡ db.payment_events)
                × (db'.idempotency_cache ≡ db.idempotency_cache)
          split t db n db' h = ground arith

  pub History-create_entry : (e : LedgerEntry) → Preserves (history {D = D}) (Ledger.create e)
  unfolding Ledger.create Ledger.insert_entry
  History-create_entry e = Preserves-statement history _ λ db a db' h.
      let (p, l, v, c) = split db db' h in
      record {
        final_payments = λ id q k f. rw p k;
        ledger_grows = (e ∷ [], l);
        events_grow = ([], v);
        cache_same = c;
      }
    where
      split :
          (db db' : Db D)
          → Ledger.insert_entry e db ≡ ok (tt, db')
          → (db'.payments ≡ db.payments)
            × (db'.ledger_entries ≡ e ∷ db.ledger_entries)
            × (db'.payment_events ≡ db.payment_events)
            × (db'.idempotency_cache ≡ db.idempotency_cache)
      split db db' h = ground arith

  pub History-create_event : (e : PaymentEvent) → Preserves (history {D = D}) (Events.create e)
  unfolding Events.create Events.insert_event
  History-create_event e = Preserves-statement history _ λ db a db' h.
      let (p, l, v, c) = split db db' h in
      record {
        final_payments = λ id q k f. rw p k;
        ledger_grows = ([], l);
        events_grow = (e ∷ [], v);
        cache_same = c;
      }
    where
      split :
          (db db' : Db D)
          → Events.insert_event e db ≡ ok (tt, db')
          → (db'.payments ≡ db.payments)
            × (db'.ledger_entries ≡ db.ledger_entries)
            × (db'.payment_events ≡ e ∷ db.payment_events)
            × (db'.idempotency_cache ≡ db.idempotency_cache)
      split db db' h = ground arith

  pub History-update_balance :
      (id : Uuid) (balance version : ℤ)
      → Preserves (history {D = D}) (Accounts.update_balance id balance version)
  unfolding Accounts.update_balance Accounts.update_accounts
  History-update_balance id balance version =
      Preserves-bind history
        (Preserves-statement history _ λ db n db' h. SameHistory→History db db' (ground arith))
        λ rows.
          Preserves-bind history (Preserves-driver_call history) λ _. Preserves-raise_if history _ _

  pub History-update_webhook :
      (id : Uuid) (status : WebhookEventStatus)
      → Preserves (history {D = D}) (Webhooks.update_status id status)
  unfolding Webhooks.update_status Webhooks.update_events
  History-update_webhook id status = Preserves-bind history (Preserves-now history) λ t.
      Preserves-bind history
        (Preserves-statement history _ λ db n db' h. SameHistory→History db db' (ground arith))
        λ rows.
          Preserves-bind history (Preserves-driver_call history) λ _. Preserves-raise_if history _ _

  pub History-get_pending : (limit : ℕ) → Preserves (history {D = D}) (Webhooks.get_pending limit)
  unfolding Webhooks.get_pending
  History-get_pending limit = Preserves-query history _

  pub History-get_payment : (id : Uuid) → Preserves (history {D = D}) (Payments.get_by_id id)
  unfolding Payments.get_by_id
  History-get_payment id =
      Preserves-bind history (Preserves-query history _) λ row. Preserves-or_not_found history row

  pub History-get_account :
      (user_id : Uuid) (c : Currency) (t : AccountType)
      → Preserves (history {D = D}) (Accounts.get_by_user_and_currency user_id c t)
  unfolding Accounts.get_by_user_and_currency
  History-get_account user_id c t =
      Preserves-bind history (Preserves-query history _) λ row. Preserves-or_not_found history row

  pub History-get_for_update :
      (id : Uuid) → Preserves (history {D = D}) (Accounts.get_for_update id)
  unfolding Accounts.get_for_update
  History-get_for_update id =
      Preserves-bind history (Preserves-query history _) λ row. Preserves-or_not_found history row
