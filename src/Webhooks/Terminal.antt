-- ===== src/Webhooks/Terminal.antt =====
-- internal/service/webhook_processor.go: an event for a payment whose state is final.
use grey_backend_assessment.Prelude.{◌≡◌, ◌∙◌, refl, sym, ap, true, some, find, arith}
use grey_backend_assessment.Domain.{Uuid, Payment, WebhookEvent, WebhookEventStatus}
use grey_backend_assessment.Session.{caught, Db, World, Result, ok, err, ◌>>=◌}
use grey_backend_assessment.Session.Laws.{Ensures-elim}
use grey_backend_assessment.Session.Atomic.{Reads, Reads-bind, Reads-query, Reads-or_not_found}
use grey_backend_assessment.Session.Preserves.{
  Preorder, Preserves, Preserves-bind, Preserves-now, Preserves-statement, Preserves-driver_call,
  Preserves-raise_if,
}
use grey_backend_assessment.Repository.Payments.{has_id, get_by_id}
use grey_backend_assessment.Repository.Payments.Laws.{Ensures-get_by_id}
use grey_backend_assessment.Repository.Webhooks
use grey_backend_assessment.Webhooks.{
  Codec, WebhookCallbackPayload, is_terminal_status, with_payment, with_payment_id, with_payload,
  process_event,
}

-- Nothing but the table of events has changed.
abbrev pub OnlyWebhookEvents : {D : Type 0} → Db D → Db D → Type 0
OnlyWebhookEvents db db' = db' ≡ record db { webhook_events = db'.webhook_events }

abbrev only_webhook_events : {D : Type 0} → Preorder D
only_webhook_events {D} = record {
  R = OnlyWebhookEvents;
  reflexive = λ db. refl;
  transitive =
      λ a b c p q. q ∙ ap (λ (db : Db D). record db { webhook_events = c.webhook_events }) p;
}

module _ {D : Type 0} where
  only-update_status :
      (id : Uuid) (status : WebhookEventStatus)
      → Preserves (only_webhook_events {D = D}) (Webhooks.update_status id status)
  unfolding Webhooks.update_status Webhooks.update_events
  only-update_status id status =
      Preserves-bind only_webhook_events (Preserves-now only_webhook_events) λ t.
        Preserves-bind only_webhook_events
          (Preserves-statement only_webhook_events _ λ db n db' h. ground arith)
          λ rows.
            Preserves-bind only_webhook_events (Preserves-driver_call only_webhook_events)
              λ _. Preserves-raise_if only_webhook_events _ _

  Reads-get_payment : (id : Uuid) → Reads {D = D} (get_by_id id)
  unfolding get_by_id
  Reads-get_payment id = Reads-bind (Reads-query _) λ row. Reads-or_not_found row

some-injective : {A : Type 0} (a b : A) → some a ≡ some b → a ≡ b
some-injective a b h = cc

only-from : {D : Type 0} (a b c : Db D) → a ≡ b → OnlyWebhookEvents a c → OnlyWebhookEvents b c
only-from a b c p o = o ∙ ap (λ (db : Db _). record db { webhook_events = c.webhook_events }) p

module _ {D : Type 0} (codec : Codec) (event : WebhookEvent)
    (payload : WebhookCallbackPayload) where
  only-with_payment :
      (id : Uuid) (w : World D) (p : Payment D)
      → find (has_id id) w.db.payments ≡ some p
      → is_terminal_status p.status ≡ true
      → (x : Result (Payment D) × World D) → get_by_id id w ≡ x
      → x.1.db ≡ w.db
      → OnlyWebhookEvents w.db (with_payment codec event payload x.0 x.1).1.db
  unfolding with_payment
  only-with_payment id w p h t (err e, v) g same =
      only-from v.db w.db _ same ((only-update_status event.id WebhookEventStatus.failed).at v)
  only-with_payment id w p h t (ok q, v) g same =
      let found : find (has_id id) w.db.payments ≡ some q =
        (Ensures-elim (Ensures-get_by_id id) g).0 in
      let it = some-injective q p (sym found ∙ h) in
      rw (it, t)
        (only-from v.db w.db _ same
          ((only-update_status event.id WebhookEventStatus.dispatched).at v))

  -- An event for a payment in a final state changes nothing but the table of events, whatever it
  -- reports and whatever fails on the way: the payment, the balances and the ledger stay as they are.
  pub process_event_terminal :
      (id : Uuid) (w : World D) (p : Payment D)
      → codec.unmarshal event.payload ≡ some payload
      → codec.parse_uuid payload.payment_id ≡ some id
      → find (has_id id) w.db.payments ≡ some p
      → is_terminal_status p.status ≡ true
      → OnlyWebhookEvents w.db (process_event codec event w).1.db
  unfolding process_event with_payload with_payment_id caught ◌>>=◌
  process_event_terminal id w p u i h t =
      rw (u, i) (only-with_payment id w p h t (get_by_id id w) refl ((Reads-get_payment id).at w))
