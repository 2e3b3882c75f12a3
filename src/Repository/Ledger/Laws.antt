-- ===== src/Repository/Ledger/Laws.antt =====
-- internal/repository/ledger.go and payment_event.go: an INSERT that returned has added its row.
use grey_backend_assessment.Prelude.{◌≡◌, ◌∷◌, arith}
use grey_backend_assessment.Domain.{LedgerEntry, PaymentEvent}
use grey_backend_assessment.Session.{World, Db, ok}
use grey_backend_assessment.Session.Laws.{Ensures, SameRun, Ensures-mono}
use grey_backend_assessment.Session.Laws.Tables.{Ensures-statement}
use grey_backend_assessment.Repository.Ledger.{insert_entry, create}
use grey_backend_assessment.Repository.Events
use grey_backend_assessment.Repository.Events.{insert_event}

module _ {D : Type 0} where
  insert_entry-eq_ok :
      (e : LedgerEntry) (db : Db D) {db' : Db D}
      → insert_entry e db ≡ ok (tt, db')
      → db' ≡ record db { ledger_entries = e ∷ db.ledger_entries }
  unfolding insert_entry
  insert_entry-eq_ok e db h = ground arith

  insert_event-eq_ok :
      (e : PaymentEvent) (db : Db D) {db' : Db D}
      → insert_event e db ≡ ok (tt, db')
      → db' ≡ record db { payment_events = e ∷ db.payment_events }
  unfolding insert_event
  insert_event-eq_ok e db h = ground arith

module _ {D : Type 0} {w : World D} where
  pub Ensures-create_entry :
      (e : LedgerEntry)
      → Ensures (create e) w (λ _ w'.
        (w'.db ≡ record w.db { ledger_entries = e ∷ w.db.ledger_entries }) × SameRun w w')
  unfolding create
  Ensures-create_entry e =
      Ensures-mono (Ensures-statement (insert_entry e))
        λ _ w1 (h, s). (insert_entry-eq_ok e w.db h, s)

  pub Ensures-create_event :
      (e : PaymentEvent)
      → Ensures (Events.create e) w (λ _ w'.
        (w'.db ≡ record w.db { payment_events = e ∷ w.db.payment_events }) × SameRun w w')
  unfolding Events.create
  Ensures-create_event e =
      Ensures-mono (Ensures-statement (insert_event e))
        λ _ w1 (h, s). (insert_event-eq_ok e w.db h, s)
