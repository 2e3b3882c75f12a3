-- ===== src/Webhooks/Completed.antt =====
-- internal/service/webhook_processor.go: handleCompleted, which writes no ledger entries, although
-- docs/ARCHITECTURE.md (14. Webhook Processing) speaks of completion entries.
use grey_backend_assessment.Prelude.{◌≡◌, String, true, some, none, any, update_where, ◌∷◌}
use grey_backend_assessment.Domain.{Uuid, Time, Payment, PaymentStatus, PaymentEventType}
use grey_backend_assessment.Session.{World, Db, ok}
use grey_backend_assessment.Session.Laws.{
  Ensures, Ensures-bind, Ensures-bind-now, Ensures-bind-new_uuid, Ensures-mono, Ensures-elim,
}
use grey_backend_assessment.Session.Laws.Tables.{Ensures-transact_db}
use grey_backend_assessment.Repository.Payments.{is_open_with_id, set_status}
use grey_backend_assessment.Repository.Payments.Laws.{Ensures-update_status}
use grey_backend_assessment.Repository.Ledger.Laws.{Ensures-create_event}
use grey_backend_assessment.Webhooks.{ref_of, system_event, handle_completed_body, handle_completed}

-- The open payment is completed under one time stamp, one event is written, and nothing else is changed.
pub record Completes {D : Type 0} (p : Payment D) (ref : String) (db db' : Db D) : Type 0 where
  pub open_before : any (is_open_with_id p.id) db.payments ≡ true
  pub after :
      (at : Time) × (t : Time) × (id : Uuid) × (db' ≡ record db {
        payments =
            update_where
              (is_open_with_id p.id)
              (set_status PaymentStatus.completed (ref_of ref) none (some at) t)
              db.payments;
        payment_events =
            system_event id p.id PaymentEventType.completed none at ∷ db.payment_events;
      })

module _ {D : Type 0} (p : Payment D) (ref : String) where
  Ensures-handle_completed_body :
      (w : World D) → Ensures (handle_completed_body p ref) w (λ _ w'. Completes p ref w.db w'.db)
  unfolding handle_completed_body
  Ensures-handle_completed_body w = Ensures-bind-now λ at _.
      Ensures-bind (Ensures-update_status _ _ _ _ _) λ _ w1 (is_open, c1, _).
        Ensures-bind-new_uuid λ id _.
          Ensures-mono (Ensures-create_event _)
            λ _ w2 (c2, _). record { open_before = is_open; after = (at, _, id, rw c1 at c2) }

  -- A completion that returns has found the payment open and completed it, has written one event, and
  -- has left the accounts, the ledger and every other table as they were: what the code does, and not
  -- what docs/ARCHITECTURE.md says, which has a success webhook create completion ledger entries.
  pub handle_completed-Completes :
      (w w' : World D) → handle_completed p ref w ≡ (ok tt, w') → Completes p ref w.db w'.db
  unfolding handle_completed
  handle_completed-Completes w w' h =
      Ensures-elim
        (Ensures-transact_db (λ db _ db'. Completes p ref db db') Ensures-handle_completed_body) h
