-- ===== src/Payments/Posting/Settled.antt =====
-- What one committed payment leaves behind, and what follows from it for the books.
use mathlib.Core.Path.{subst}
use grey_backend_assessment.Prelude.{ℕ, ◌≡◌, refl, ap, false, List, ◌∷◌, any, arith}
use grey_backend_assessment.Prelude.Int.{
  ℤ, pos, add64, sub64, pos_part, neg_part, ◌+ℤ◌, ◌-ℤ◌, int_laws,
}
use grey_backend_assessment.Domain.{Uuid, Account, Currency, Payment, PaymentEventType}
use grey_backend_assessment.Session.{Db}
use grey_backend_assessment.Repository.Payments.{has_key}
use grey_backend_assessment.Repository.Accounts.Laws.{Updated, OnlyAccounts-trans}
use grey_backend_assessment.Payments.Entries.{Posting}
use grey_backend_assessment.Payments.Entries.Laws.{event_for, two_postings, four_postings}
use grey_backend_assessment.Payments.Posting.{
  balance_of, net, total, posted_to, posted_in, IsBook, Applied, Entered, Located,
}
use grey_backend_assessment.Payments.Posting.Books.Steps.{Applied-Outcome}
use grey_backend_assessment.Payments.Posting.Books.Ledger.{net-Entered}

-- The row of the payment is new under its key, each posting has its entry and has moved its
-- account, one event is written, and the other tables are as they were.
pub record Settled {D : Type 0} (p : Payment D) (event_type : PaymentEventType) (user_id : Uuid)
    (qs : List Posting) (db db' : Db D) : Type 0 where
  pub fresh_key : any (has_key p.idempotency_key p.source_account_id) db.payments ≡ false
  pub payments : db'.payments ≡ p ∷ db.payments
  pub located : Located db.accounts qs
  pub accounts : Applied qs db.accounts db'.accounts
  pub entries : Entered p.id p.created_at qs db.ledger_entries db'.ledger_entries
  pub events :
      (id : Uuid) × (db'.payment_events
        ≡ event_for id p.id event_type user_id p.created_at ∷ db.payment_events)
  pub others :
      (db'.users ≡ db.users)
      × (db'.webhook_events ≡ db.webhook_events)
      × (db'.idempotency_cache ≡ db.idempotency_cache)

-- From the statements of a transaction, in order: the payment's row, its entries, its event, and the
-- updates of the accounts.
pub Settled-intro :
    {D : Type 0} {p : Payment D} {event_type : PaymentEventType} {user_id event_id : Uuid}
    {qs : List Posting} (db db2 db3 db4 db5 : Db D)
    → any (has_key p.idempotency_key p.source_account_id) db.payments ≡ false
    → Located db.accounts qs
    → db2 ≡ record db { payments = p ∷ db.payments }
    → Entered p.id p.created_at qs db2.ledger_entries db3.ledger_entries
    → db3 ≡ record db2 { ledger_entries = db3.ledger_entries }
    → db4 ≡ record db3 {
      payment_events = event_for event_id p.id event_type user_id p.created_at ∷ db3.payment_events;
    }
    → Applied qs db4.accounts db5.accounts
    → db5 ≡ record db4 { accounts = db5.accounts }
    → Settled p event_type user_id qs db db5
Settled-intro {p} {event_id} {qs} db db2 db3 db4 db5 fresh located c2 e3 c3 c4 u5 c5 =
    let rows : db4.accounts ≡ db.accounts = ground arith in
    let before : db2.ledger_entries ≡ db.ledger_entries = ground arith in
    let after : db3.ledger_entries ≡ db5.ledger_entries = ground arith in
    record {
      fresh_key = fresh;
      payments = ground arith;
      located = located;
      accounts = subst (λ l. Applied qs l db5.accounts) rows u5;
      entries =
          subst (λ l. Entered p.id p.created_at qs l db5.ledger_entries) before
            (subst (λ l. Entered p.id p.created_at qs db2.ledger_entries l) after e3);
      events = (event_id, ground arith);
      others = (ground arith, ground arith, ground arith);
    }

-- The same for a payment with two postings, and for one with four; `db0` is what was locked.
module _ {D : Type 0} {p : Payment D} {event_type : PaymentEventType} {user_id event_id : Uuid}
    (db0 db db2 db3 db4 : Db D) where
  pub two-Settled :
      (a b : Account) (db5 db6 : Db D)
      → db ≡ db0
      → any (has_key p.idempotency_key p.source_account_id) db.payments ≡ false
      → Located db0.accounts (two_postings p a b)
      → db2 ≡ record db { payments = p ∷ db.payments }
      → Entered p.id p.created_at (two_postings p a b) db2.ledger_entries db3.ledger_entries
      → db3 ≡ record db2 { ledger_entries = db3.ledger_entries }
      → db4 ≡ record db3 {
        payment_events =
            event_for event_id p.id event_type user_id p.created_at ∷ db3.payment_events;
      }
      → Updated a.id
          (sub64 a.balance p.source_amount)
          (add64 a.version (pos 1))
          db4.accounts
          db5.accounts
      → db5 ≡ record db4 { accounts = db5.accounts }
      → Updated b.id
          (add64 b.balance p.dest_amount)
          (add64 b.version (pos 1))
          db5.accounts
          db6.accounts
      → db6 ≡ record db5 { accounts = db6.accounts }
      → Settled p event_type user_id (two_postings p a b) db0 db6
  two-Settled a b db5 db6 same fresh located c2 e3 c3 c4 u5 c5 u6 c6 =
      subst (λ x. Settled p event_type user_id (two_postings p a b) x db6) same
        (Settled-intro db db2 db3 db4 db6 fresh (rw same located) c2 e3 c3 c4
          (db5.accounts, u5, (db6.accounts, u6, refl)) (OnlyAccounts-trans db4 db5 db6 c5 c6))

  pub four-Settled :
      (a b c d : Account) (db5 db6 db7 db8 : Db D)
      → db ≡ db0
      → any (has_key p.idempotency_key p.source_account_id) db.payments ≡ false
      → Located db0.accounts (four_postings p a b c d)
      → db2 ≡ record db { payments = p ∷ db.payments }
      → Entered p.id p.created_at (four_postings p a b c d) db2.ledger_entries db3.ledger_entries
      → db3 ≡ record db2 { ledger_entries = db3.ledger_entries }
      → db4 ≡ record db3 {
        payment_events =
            event_for event_id p.id event_type user_id p.created_at ∷ db3.payment_events;
      }
      → Updated a.id
          (sub64 a.balance p.source_amount)
          (add64 a.version (pos 1))
          db4.accounts
          db5.accounts
      → db5 ≡ record db4 { accounts = db5.accounts }
      → Updated b.id
          (add64 b.balance p.source_amount)
          (add64 b.version (pos 1))
          db5.accounts
          db6.accounts
      → db6 ≡ record db5 { accounts = db6.accounts }
      → Updated c.id
          (sub64 c.balance p.dest_amount)
          (add64 c.version (pos 1))
          db6.accounts
          db7.accounts
      → db7 ≡ record db6 { accounts = db7.accounts }
      → Updated d.id
          (add64 d.balance p.dest_amount)
          (add64 d.version (pos 1))
          db7.accounts
          db8.accounts
      → db8 ≡ record db7 { accounts = db8.accounts }
      → Settled p event_type user_id (four_postings p a b c d) db0 db8
  four-Settled a b c d db5 db6 db7 db8 same fresh located c2 e3 c3 c4 u5 c5 u6 c6 u7 c7 u8 c8 =
      let last_two = OnlyAccounts-trans db6 db7 db8 c7 c8 in
      let last_three = OnlyAccounts-trans db5 db6 db8 c6 last_two in
      subst (λ x. Settled p event_type user_id (four_postings p a b c d) x db8) same
        (Settled-intro db db2 db3 db4 db8 fresh (rw same located) c2 e3 c3 c4
          (db5.accounts, u5, (db6.accounts, u6, (db7.accounts, u7, (db8.accounts, u8, refl))))
          (OnlyAccounts-trans db4 db5 db8 c5 last_three))

-- A balance less the net of its ledger entries: what the account held before its first entry.
abbrev pub opening : {D : Type 0} → Uuid → Db D → ℤ
opening id db = balance_of id db.accounts -ℤ net id db.ledger_entries

-- The books agree: the table of accounts keeps its invariant, every balance has moved by its new
-- ledger entries and nothing else, and the money in each currency has moved by what was posted.
pub record Balanced {D : Type 0} (qs : List Posting) (db db' : Db D) : Type 0 where
  pub book : IsBook db'.accounts
  pub reconciled : (id : Uuid) → opening id db' ≡ opening id db
  pub moved :
      (id : Uuid) → balance_of id db'.accounts ≡ balance_of id db.accounts +ℤ posted_to id qs
  pub totals : (c : Currency) → total c db'.accounts ≡ total c db.accounts +ℤ posted_in c qs

reconcile : (b b' n n' x : ℤ) → b' ≡ b +ℤ x → n' ≡ n +ℤ x → b' -ℤ n' ≡ b -ℤ n
reconcile b b' n n' x h k =
    omega (int_laws, ap pos_part h, ap neg_part h, ap pos_part k, ap neg_part k)

module _ {D : Type 0} (qs : List Posting) (db db' : Db D) where
  pub Applied-Balanced :
      (payment_id : Uuid) (at : ℕ)
      → IsBook db.accounts
      → Located db.accounts qs
      → Applied qs db.accounts db'.accounts
      → Entered payment_id at qs db.ledger_entries db'.ledger_entries
      → Balanced qs db db'
  Applied-Balanced payment_id at b l a e =
      let o = Applied-Outcome qs db.accounts db'.accounts b l a in
      record {
        book = o.book;
        reconciled = λ id.
            reconcile _ _ _ _ _ (o.moved id)
              (net-Entered payment_id at id qs db.ledger_entries db'.ledger_entries e);
        moved = o.moved;
        totals = o.kept;
      }

  pub Settled-Balanced :
      {p : Payment D} {event_type : PaymentEventType} {user_id : Uuid}
      → IsBook db.accounts
      → Settled p event_type user_id qs db db'
      → Balanced qs db db'
  Settled-Balanced {p} b s = Applied-Balanced p.id p.created_at b s.located s.accounts s.entries
