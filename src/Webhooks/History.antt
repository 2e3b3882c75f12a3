-- ===== src/Webhooks/History.antt =====
-- internal/service/webhook_processor.go: whatever the processor meets, payments in a final state stay
-- as they are, the ledger and the events only grow, and the idempotency cache is not touched.
use grey_backend_assessment.Prelude.{
  List, [], ◌∷◌, Option, none, some, Bool-cases, inl, inr, str_eq,
}
use grey_backend_assessment.Domain.{Uuid, Payment, WebhookEvent, Error, is_payment_terminal}
use grey_backend_assessment.Session.{caught, World, Session, Result, ok, err, raise}
use grey_backend_assessment.Session.Preserves.{Preserves, Preserves-bind, Preserves-skip}
use grey_backend_assessment.Repository.History.{History, history}
use grey_backend_assessment.Repository.History.Statements.{
  History-update_status, History-create_entry, History-create_event, History-update_balance,
  History-update_webhook, History-get_pending, History-get_payment,
}
use grey_backend_assessment.Webhooks.Keeps.{
  Keeps, Preserves-handle_completed, Preserves-handle_failed,
}
use grey_backend_assessment.Webhooks.{
  Codec, WebhookCallbackPayload, is_terminal_status, after_handler, dispatch, with_payment,
  with_payment_id, with_payload, process_event, process_all, poll_fetched, poll,
}

-- Every statement of the handlers keeps the history.
abbrev history_kept : {D : Type 0} → Keeps (history {D = D})
history_kept = record {
  update_status = History-update_status;
  create_entry = History-create_entry;
  create_event = History-create_event;
  update_balance = History-update_balance;
}

module _ {D : Type 0} where
  History-raise : {A : Type 0} (e : Error) → Preserves (history {D = D}) (raise {A = A} e)
  unfolding raise
  History-raise e = record { at = λ w. history.reflexive w.db }

  History-caught :
      {A : Type 0} {m : Session D A} → Preserves history m → Preserves history (caught m)
  unfolding caught
  History-caught k = record { at = k.at }

module _ {D : Type 0} (codec : Codec) where
  History-after_handler :
      (event : WebhookEvent) (r : Result Unit)
      → Preserves (history {D = D}) (after_handler codec event r)
  unfolding after_handler
  History-after_handler event (ok _) = History-update_webhook _ _
  History-after_handler event (err e) = elim (Bool-cases (is_payment_terminal e)) [
    | inl t ↦ rw t (History-update_webhook _ _)
    | inr f ↦ rw f (History-raise e)
  ]

  History-dispatch :
      (event : WebhookEvent) (p : Payment D) (payload : WebhookCallbackPayload)
      → Preserves history (dispatch codec event p payload)
  unfolding dispatch
  History-dispatch event p payload = elim (Bool-cases (str_eq payload.status "completed")) [
    | inl c ↦ rw c (
        Preserves-bind history
          (History-caught (Preserves-handle_completed history history_kept p _))
          λ r. History-after_handler event r)
    | inr n ↦ rw n (elim (Bool-cases (str_eq payload.status "failed")) [
      | inl f ↦ rw f (
          Preserves-bind history
            (History-caught (Preserves-handle_failed history history_kept codec p _))
            λ r. History-after_handler event r)
      | inr u ↦ rw u (History-update_webhook _ _)
    ])
  ]

  History-with_payment :
      (event : WebhookEvent) (payload : WebhookCallbackPayload) (r : Result (Payment D))
      → Preserves history (with_payment codec event payload r)
  unfolding with_payment
  History-with_payment event payload (err e) = History-update_webhook _ _
  History-with_payment event payload (ok p) = elim (Bool-cases (is_terminal_status p.status)) [
    | inl t ↦ rw t (History-update_webhook _ _)
    | inr f ↦ rw f (History-dispatch event p payload)
  ]

  History-with_payment_id :
      (event : WebhookEvent) (payload : WebhookCallbackPayload) (id : Option Uuid)
      → Preserves (history {D = D}) (with_payment_id codec event payload id)
  unfolding with_payment_id
  History-with_payment_id event payload none = History-update_webhook _ _
  History-with_payment_id event payload (some id) =
      Preserves-bind history (History-caught (History-get_payment id))
        λ r. History-with_payment event payload r

  History-with_payload :
      (event : WebhookEvent) (payload : Option WebhookCallbackPayload)
      → Preserves (history {D = D}) (with_payload codec event payload)
  unfolding with_payload
  History-with_payload event none = History-update_webhook _ _
  History-with_payload event (some payload) = History-with_payment_id event payload _

  History-process_event :
      (event : WebhookEvent) → Preserves (history {D = D}) (process_event codec event)
  unfolding process_event
  History-process_event event = History-with_payload event _

  History-process_all :
      (events : List WebhookEvent) → Preserves (history {D = D}) (process_all codec events)
  unfolding process_all
  History-process_all [] = Preserves-skip history
  History-process_all (event ∷ events) =
      Preserves-bind history (History-caught (History-process_event event))
        λ _. History-process_all events

  History-poll_fetched :
      (r : Result (List WebhookEvent)) → Preserves (history {D = D}) (poll_fetched codec r)
  unfolding poll_fetched
  History-poll_fetched (err e) = Preserves-skip history
  History-poll_fetched (ok events) = History-process_all events

  -- Whatever events a poll fetches and whatever fails on the way, a payment in a final state stays as
  -- it is, entries and events are only added, and the idempotency cache is not touched.
  pub poll-History : (w : World D) → History w.db (poll codec w).1.db
  unfolding poll
  poll-History w =
      (Preserves-bind history (History-caught (History-get_pending 10))
          λ r. History-poll_fetched r).at
        w
