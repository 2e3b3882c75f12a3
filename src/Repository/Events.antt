-- ===== src/Repository/Events.antt =====
-- internal/repository/payment_event.go
use grey_backend_assessment.Prelude.{Bool, List, ◌∷◌, ◌==◌, if◌then◌else◌, ltb, any, filter}
use grey_backend_assessment.Prelude.Sort.{sort}
use grey_backend_assessment.Domain.{Uuid, PaymentEvent, unique_violation}
use grey_backend_assessment.Session.{Db, Result, ok, err, Session, statement, query}

abbrev pub has_id : Uuid → PaymentEvent → Bool
has_id id e = e.id == id

module _ {D : Type 0} where
  unfoldable pub insert_event : PaymentEvent → Db D → Result (Unit × Db D)
  insert_event e db =
      if any (has_id e.id) db.payment_events
      then err (unique_violation "payment_events_pkey")
      else ok (tt, record db { payment_events = e ∷ db.payment_events })

  unfoldable pub create : PaymentEvent → Session D Unit
  create e = statement (insert_event e)

  unfoldable pub get_by_payment_id : Uuid → Session D (List PaymentEvent)
  get_by_payment_id payment_id = query λ db.
      sort (λ a b. ltb a.created_at b.created_at)
        (filter (λ e. e.payment_id == payment_id) db.payment_events)
