-- ===== src/Webhooks/Failed.antt =====
-- internal/service/webhook_processor.go: a payout that the provider reports as failed is given back.
pub mod Bodies
use grey_backend_assessment.Prelude.{
  String, ◌≡◌, ◌∙◌, ap, true, none, some, List, [], ◌∷◌, find, any, update_where, arith,
}
use grey_backend_assessment.Domain.{
  Uuid, Time, Currency, Account, AccountType, Payment, PaymentStatus, PaymentEventType,
}
use grey_backend_assessment.Session.{World, Db}
use grey_backend_assessment.Session.Laws.{
  Ensures, SameDb, Ensures-bind, Ensures-bind-now, Ensures-bind-new_uuid, Ensures-mono,
}
use grey_backend_assessment.Repository.Accounts.{has_id, belongs}
use grey_backend_assessment.Repository.Accounts.Laws.{Ensures-get_by_user_and_currency, find_own}
use grey_backend_assessment.Repository.Payments.{is_open_with_id, set_status}
use grey_backend_assessment.Repository.Payments.Laws.{Ensures-update_status}
use grey_backend_assessment.Repository.Ledger.Laws.{Ensures-create_event}
use grey_backend_assessment.Payments.Service.{system_user_id}
use grey_backend_assessment.Payments.Locks.{
  locked_account, Ensures-lock_accounts_in_order, locked_account-of_IsSnapshot,
}
use grey_backend_assessment.Payments.Entries.{Posting}
use grey_backend_assessment.Payments.Posting.{Applied, Entered, Located}
use grey_backend_assessment.Payments.Posting.Flow.{HasAmounts}
use grey_backend_assessment.Webhooks.{
  Codec, system_event, write_same_currency_reversal, write_cross_currency_reversal,
  get_system_account, handle_failed_body,
}
use grey_backend_assessment.Webhooks.Reversal.{
  PostedIn, Ensures-write_reversal_entries, two_reversals, four_reversals, same_currency_postings,
  cross_currency_postings,
}

-- The payment was open and is failed with the reason; each posting has moved its account and has its
-- entry; one event is written.
pub record GivenBack {D : Type 0} (codec : Codec) (p : Payment D) (reason : String)
    (qs : List Posting) (db db' : Db D) : Type 0 where
  pub open_before : any (is_open_with_id p.id) db.payments ≡ true
  pub payments :
      (t : Time) × (db'.payments
        ≡ update_where
            (is_open_with_id p.id)
            (set_status PaymentStatus.failed none (some reason) none t)
            db.payments)
  pub located : Located db.accounts qs
  pub accounts : Applied qs db.accounts db'.accounts
  pub entries : (at : Time) × Entered p.id at qs db.ledger_entries db'.ledger_entries
  pub events :
      (id : Uuid) × (at : Time) × (db'.payment_events
        ≡ system_event id p.id PaymentEventType.failed (some (codec.marshal_reason reason)) at
          ∷ db.payment_events)

pub GivenBack-intro :
    {D : Type 0} {codec : Codec} {p : Payment D} {reason : String} {qs : List Posting}
    (db db1 db2 db3 db4 : Db D) (id : Uuid) (t at : Time)
    → db1 ≡ db
    → any (is_open_with_id p.id) db1.payments ≡ true
    → db2 ≡ record db1 {
      payments =
          update_where
            (is_open_with_id p.id)
            (set_status PaymentStatus.failed none (some reason) none t)
            db1.payments;
    }
    → Located db.accounts qs
    → PostedIn p.id at qs db2 db3
    → db4 ≡ record db3 {
      payment_events =
          system_event id p.id PaymentEventType.failed (some (codec.marshal_reason reason)) at
          ∷ db3.payment_events;
    }
    → GivenBack codec p reason qs db db4
GivenBack-intro {D} {codec} {p} {reason} {qs} db db1 db2 db3 db4 id t at same is_open c2 located
      posted c4 =
    let rows : db2.accounts ≡ db.accounts = ground arith in
    let ledger : db2.ledger_entries ≡ db.ledger_entries = ground arith in
    let rows' : db3.accounts ≡ db4.accounts = ground arith in
    let ledger' : db3.ledger_entries ≡ db4.ledger_entries = ground arith in
    record {
      open_before = rw same at is_open;
      payments = (t, payments_after db db1 db2 db3 db4 same c2 posted.others.0 c4);
      located = located;
      accounts = rw (rows, rows') at posted.accounts;
      entries = (at, rw (ledger, ledger') at posted.entries);
      events = (id, at, events_after db db1 db2 db3 db4 same c2 posted.others.1 c4);
    }
  where
    payments_after :
        (db db1 db2 db3 db4 : Db D)
        → db1 ≡ db
        → db2 ≡ record db1 {
          payments =
              update_where
                (is_open_with_id p.id)
                (set_status PaymentStatus.failed none (some reason) none t)
                db1.payments;
        }
        → db3.payments ≡ db2.payments
        → db4 ≡ record db3 {
          payment_events =
              system_event id p.id PaymentEventType.failed (some (codec.marshal_reason reason)) at
              ∷ db3.payment_events;
        }
        → db4.payments
          ≡ update_where
              (is_open_with_id p.id)
              (set_status PaymentStatus.failed none (some reason) none t)
              db.payments
    payments_after db db1 db2 db3 db4 a b c d =
        (λ i. (d i).payments)
        ∙ c
        ∙ (λ i. (b i).payments)
        ∙ ap
            (λ (x : Db D).
              update_where (is_open_with_id p.id)
                (set_status PaymentStatus.failed none (some reason) none t) x.payments)
            a

    events_after :
        (db db1 db2 db3 db4 : Db D)
        → db1 ≡ db
        → db2 ≡ record db1 {
          payments =
              update_where
                (is_open_with_id p.id)
                (set_status PaymentStatus.failed none (some reason) none t)
                db1.payments;
        }
        → db3.payment_events ≡ db2.payment_events
        → db4 ≡ record db3 {
          payment_events =
              system_event id p.id PaymentEventType.failed (some (codec.marshal_reason reason)) at
              ∷ db3.payment_events;
        }
        → db4.payment_events
          ≡ system_event id p.id PaymentEventType.failed (some (codec.marshal_reason reason)) at
            ∷ db.payment_events
    events_after db db1 db2 db3 db4 a b c d =
        (λ i. (d i).payment_events)
        ∙ ap
            (λ l.
              system_event id p.id PaymentEventType.failed (some (codec.marshal_reason reason)) at
              ∷ l)
            (c ∙ (λ i. (b i).payment_events) ∙ (λ i. (a i).payment_events))

module _ {D : Type 0} {w : World D} where
  pub Ensures-get_system_account :
      (account_type : AccountType) (currency : Currency)
      → Ensures (get_system_account account_type currency) w (λ a w'.
        (find (belongs system_user_id currency account_type) w.db.accounts ≡ some a) × SameDb w w')
  unfolding get_system_account
  Ensures-get_system_account account_type currency =
      Ensures-get_by_user_and_currency system_user_id currency account_type
