-- ===== src/Webhooks/Settles.antt =====
-- internal/service/webhook_processor.go: what becomes of an event that is processed.
use grey_backend_assessment.Prelude.{
  ◌≡◌, ◌∙◌, refl, ◌⊎◌, inl, inr, String, false, ◌&&◌, ◌+◌, Option, none, some, List, [], ◌∷◌, ◌==◌,
  any, update_where, filter, length, str_eq, Bool-cases, arith,
}
use grey_backend_assessment.Prelude.Int.{ℤ}
use grey_backend_assessment.Domain.{
  Uuid, Time, Payment, PaymentStatus, WebhookEvent, WebhookEventStatus, Error, driver_error,
  is_payment_terminal,
}
use grey_backend_assessment.Session.{
  World, Result, ok, err, raise, caught, now, ◌>>=◌, driver_call, statement, run_statement,
  raise_if,
}
use grey_backend_assessment.Session.Atomic.{Reads, Reads-bind, Reads-query, Reads-or_not_found}
use grey_backend_assessment.Session.Preserves.{
  Preorder, Preserves, Preserves-bind, Preserves-statement, Preserves-now, Preserves-driver_call,
  Preserves-raise_if,
}
use grey_backend_assessment.Repository.Accounts
use grey_backend_assessment.Repository.Payments
use grey_backend_assessment.Repository.Ledger
use grey_backend_assessment.Repository.Events
use grey_backend_assessment.Repository.Webhooks
use grey_backend_assessment.Repository.Webhooks.{has_id, is_pending, set_status}
use grey_backend_assessment.Webhooks.Keeps.{
  Keeps, Preserves-handle_completed, Preserves-handle_failed,
}
use grey_backend_assessment.Webhooks.{
  Codec, WebhookCallbackPayload, is_terminal_status, handle_completed, handle_failed, after_handler,
  dispatch, with_payment, with_payment_id, with_payload, process_event,
}

-- The table of events is as it was.
abbrev same_events : {D : Type 0} → Preorder D
same_events {D} = record {
  R = λ a b. b.webhook_events ≡ a.webhook_events;
  reflexive = λ db. refl;
  transitive = λ a b c p q. q ∙ p;
}

module _ {D : Type 0} where
  same-update_status :
      (id : Uuid) (status : PaymentStatus) (provider_ref failure_reason : Option String)
      (completed_at : Option Time)
      → Preserves
          (same_events {D = D})
          (Payments.update_status id status provider_ref failure_reason completed_at)
  unfolding Payments.update_status Payments.update_payments
  same-update_status id status provider_ref failure_reason completed_at =
      Preserves-bind same_events (Preserves-now same_events) λ t.
        Preserves-bind same_events (Preserves-statement same_events _ λ db n db' h. ground arith)
          λ rows.
            Preserves-bind same_events (Preserves-driver_call same_events)
              λ _. Preserves-raise_if same_events _ _

  same-update_balance :
      (id : Uuid) (balance version : ℤ)
      → Preserves (same_events {D = D}) (Accounts.update_balance id balance version)
  unfolding Accounts.update_balance Accounts.update_accounts
  same-update_balance id balance version =
      Preserves-bind same_events (Preserves-statement same_events _ λ db n db' h. ground arith)
        λ rows.
          Preserves-bind same_events (Preserves-driver_call same_events)
            λ _. Preserves-raise_if same_events _ _

  events_kept : Keeps (same_events {D = D})
  unfolding Ledger.create Ledger.insert_entry Events.create Events.insert_event
  events_kept = record {
    update_status = same-update_status;
    create_entry = λ e. Preserves-statement same_events _ λ db a db' h. ground arith;
    create_event = λ e. Preserves-statement same_events _ λ db a db' h. ground arith;
    update_balance = same-update_balance;
  }

-- No row of that event is pending.
abbrev pub IsSettled : Uuid → List WebhookEvent → Type 0
IsSettled id rows = any (λ e. has_id id e && is_pending e.status) rows ≡ false

set_status-IsSettled :
    (id : Uuid) (status : WebhookEventStatus) (t : Time) (rows : List WebhookEvent)
    → is_pending status ≡ false
    → IsSettled id (update_where (has_id id) (set_status status t) rows)
set_status-IsSettled id status t [] h = refl
set_status-IsSettled id status t (e ∷ rows) h = elim (Bool-cases (has_id id e)) [
  | inl it ↦ rw it (rw (it, h) (set_status-IsSettled id status t rows h))
  | inr other ↦ rw other (rw other (set_status-IsSettled id status t rows h))
]

-- The event is settled, or there is an error and the table of events is as it was.
abbrev pub SettlesOrFails : {D A : Type 0} → Uuid → World D → Result A × World D → Type 0
SettlesOrFails id w x =
    IsSettled id x.1.db.webhook_events
    ⊎ ((x.1.db.webhook_events ≡ w.db.webhook_events) × ((e : Error) × (x.0 ≡ err e)))

module _ {D : Type 0} where
  update_status-Settles :
      (id : Uuid) (status : WebhookEventStatus) (w : World D)
      → is_pending status ≡ false
      → SettlesOrFails id w (Webhooks.update_status id status w)
  unfolding Webhooks.update_status Webhooks.update_events now statement run_statement driver_call
      raise_if ◌>>=◌
  update_status-Settles id status w h = elim (Bool-cases (w.env.fails w.tick)) [
    | inl f ↦ inr (rw f (refl, (driver_error, refl)))
    | inr f ↦
        let settled = set_status-IsSettled id status (w.env.time_at w.tick) w.db.webhook_events h in
        inl (
          rw f (elim (Bool-cases (w.env.fails (w.tick + 1))) [
            | inl g ↦ rw g settled
            | inr g ↦ elim (Bool-cases (length (filter (has_id id) w.db.webhook_events) == 0)) [
              | inl none_hit ↦ rw (g, none_hit) settled
              | inr hit ↦ rw (g, hit) settled
            ]
          ]))
  ]

  -- The same, begun where the table of events is as at `w`.
  update_status-Settles_from :
      (id : Uuid) (status : WebhookEventStatus) (w v : World D)
      → v.db.webhook_events ≡ w.db.webhook_events
      → is_pending status ≡ false
      → SettlesOrFails id w (Webhooks.update_status id status v)
  update_status-Settles_from id status w v same h = elim (update_status-Settles id status v h) [
    | inl settled ↦ inl settled
    | inr (rows, e) ↦ inr (rows ∙ same, e)
  ]

  Reads-get_payment : (id : Uuid) → Reads {D = D} (Payments.get_by_id id)
  unfolding Payments.get_by_id
  Reads-get_payment id = Reads-bind (Reads-query _) λ row. Reads-or_not_found row

module _ {D : Type 0} (codec : Codec) (event : WebhookEvent) (w : World D) where
  -- What a handler has ended with settles the event or is passed on.
  after_handler-Settles :
      (x : Result Unit × World D)
      → x.1.db.webhook_events ≡ w.db.webhook_events
      → SettlesOrFails event.id w (after_handler codec event x.0 x.1)
  unfolding after_handler raise
  after_handler-Settles (ok _, v) same = update_status-Settles_from event.id _ w v same refl
  after_handler-Settles (err e, v) same = elim (Bool-cases (is_payment_terminal e)) [
    | inl t ↦ rw t (update_status-Settles_from event.id _ w v same refl)
    | inr f ↦ rw f (inr (same, (e, refl)))
  ]

  dispatch-Settles :
      (p : Payment D) (payload : WebhookCallbackPayload) (v : World D)
      → v.db.webhook_events ≡ w.db.webhook_events
      → SettlesOrFails event.id w (dispatch codec event p payload v)
  unfolding dispatch caught ◌>>=◌
  dispatch-Settles p payload v same = elim (Bool-cases (str_eq payload.status "completed")) [
    | inl c ↦ rw c (
        after_handler-Settles (handle_completed p payload.provider_ref v)
          ((Preserves-handle_completed same_events events_kept p _).at v ∙ same))
    | inr n ↦ rw n (elim (Bool-cases (str_eq payload.status "failed")) [
      | inl f ↦ rw f (
          after_handler-Settles (handle_failed codec p payload.reason v)
            ((Preserves-handle_failed same_events events_kept codec p _).at v ∙ same))
      | inr u ↦ rw u (update_status-Settles_from event.id _ w v same refl)
    ])
  ]

  with_payment-Settles :
      (payload : WebhookCallbackPayload) (x : Result (Payment D) × World D)
      → x.1.db ≡ w.db
      → SettlesOrFails event.id w (with_payment codec event payload x.0 x.1)
  unfolding with_payment
  with_payment-Settles payload (err e, v) same =
      update_status-Settles_from event.id _ w v (λ i. (same i).webhook_events) refl
  with_payment-Settles payload (ok p, v) same = elim (Bool-cases (is_terminal_status p.status)) [
    | inl t ↦ rw t (update_status-Settles_from event.id _ w v (λ i. (same i).webhook_events) refl)
    | inr f ↦ rw f (dispatch-Settles p payload v (λ i. (same i).webhook_events))
  ]

  with_payment_id-Settles :
      (payload : WebhookCallbackPayload) (id : Option Uuid)
      → SettlesOrFails event.id w (with_payment_id codec event payload id w)
  unfolding with_payment_id caught ◌>>=◌
  with_payment_id-Settles payload none = update_status-Settles event.id _ w refl
  with_payment_id-Settles payload (some id) =
      with_payment-Settles payload (Payments.get_by_id id w) ((Reads-get_payment id).at w)

  with_payload-Settles :
      (payload : Option WebhookCallbackPayload)
      → SettlesOrFails event.id w (with_payload codec event payload w)
  unfolding with_payload
  with_payload-Settles none = update_status-Settles event.id _ w refl
  with_payload-Settles (some payload) = with_payment_id-Settles payload _

  -- After an event has been processed, whatever it reports and whatever has failed, no row of it is
  -- pending any more, or the processing has ended in an error and the table of events is as it was, so
  -- that the event is fetched again.
  pub process_event-Settles : SettlesOrFails event.id w (process_event codec event w)
  unfolding process_event
  process_event-Settles = with_payload-Settles (codec.unmarshal event.payload)
