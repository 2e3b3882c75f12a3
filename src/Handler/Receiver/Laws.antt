-- ===== src/Handler/Receiver/Laws.antt =====
-- internal/handler/webhook.go: which events are stored.
use grey_backend_assessment.Prelude.{
  ◌≡◌, ◌∙◌, refl, sym, ◌⊎◌, inl, inr, String, true, false, Option, none, some, List, [], ◌∷◌, any,
  Bool-cases,
}
use grey_backend_assessment.Domain.{Uuid, Time}
use grey_backend_assessment.Session.{
  World, Result, ok, pure, caught, new_uuid, now, ◌>>=◌, driver_call, run_statement, statement,
}
use grey_backend_assessment.Repository.Webhooks
use grey_backend_assessment.Repository.Webhooks.{has_id, has_key}
use grey_backend_assessment.Handler.Http.{FieldError}
use grey_backend_assessment.Handler.Receiver.{
  WebhookPayload, ReceiverCodec, Reply, accepted, validate, verify_hmac, received_event,
  store_event, accept, receive_provider_webhook,
}

module _ {D : Type 0} (codec : ReceiverCodec) (secret : String) where
  -- The body was signed with the secret, it decodes to a payload with no wrong field, its event is
  -- new, and it has been stored and answered as received.
  pub record Stores (body sig : String) (payload : WebhookPayload) (w : World D)
      (x : Result Reply × World D) : Type 0 where
    pub signed : verify_hmac codec body sig secret ≡ true
    pub decoded : codec.unmarshal body ≡ some payload
    pub valid : validate codec payload ≡ []
    pub fresh : any (has_key payload.event_id) w.db.webhook_events ≡ false
    pub added :
        (id : Uuid) × (at : Time) × (x.1.db ≡ record w.db {
          webhook_events = received_event id at body payload ∷ w.db.webhook_events;
        })
    pub reply : x.0 ≡ ok (accepted "received")

  abbrev pub Changes : Option String → String → World D → Result Reply × World D → Type 0
  Changes none sig w x = ⊥
  Changes (some body) sig w x = (payload : WebhookPayload) × Stores body sig payload w x

  store_event-cases :
      (body sig : String) (payload : WebhookPayload) (w : World D)
      → verify_hmac codec body sig secret ≡ true
      → codec.unmarshal body ≡ some payload
      → (fields : List FieldError) → validate codec payload ≡ fields
      → ((store_event codec secret body payload fields w).1.db ≡ w.db)
        ⊎ Stores body sig payload w (store_event codec secret body payload fields w)
  unfolding store_event new_uuid now caught ◌>>=◌ pure Webhooks.create statement driver_call
      run_statement Webhooks.insert_event
  store_event-cases body sig payload w s d (f ∷ fs) v = inl refl
  store_event-cases body sig payload w s d [] v = elim (Bool-cases (w.env.fails w.tick)) [
    | inl h ↦ inl (rw h refl)
    | inr h ↦ elim (Bool-cases (any (has_id (w.env.uuids w.drawn)) w.db.webhook_events)) [
      | inl k ↦ inl (rw (h, k) refl)
      | inr k ↦ elim (Bool-cases (any (has_key payload.event_id) w.db.webhook_events)) [
        | inl l ↦ inl (rw (h, k, l) refl)
        | inr l ↦ inr (
            rw (h, k)
              (record {
                signed = s;
                decoded = d;
                valid = v;
                fresh = l;
                added = (w.env.uuids w.drawn, w.env.time_at w.tick, rw l refl);
                reply = rw l refl;
              }))
      ]
    ]
  ]

  accept-cases :
      (body sig : String) (w : World D)
      → verify_hmac codec body sig secret ≡ true
      → (decoded : Option WebhookPayload) → codec.unmarshal body ≡ decoded
      → ((accept codec secret body decoded w).1.db ≡ w.db)
        ⊎ Changes (some body) sig w (accept codec secret body decoded w)
  unfolding accept pure
  accept-cases body sig w s none d = inl refl
  accept-cases body sig w s (some payload) d =
      elim (store_event-cases body sig payload w s d (validate codec payload) refl) [
        | inl same ↦ inl same
        | inr stored ↦ inr (payload, stored)
      ]

  -- A request either changes no table, or it was signed with the secret, decodes to a payload whose
  -- fields are valid and whose event is new, and exactly that event has been stored as pending and
  -- answered as received.
  pub receive_provider_webhook-Stores :
      (body : Option String) (sig : String) (w : World D)
      → ((receive_provider_webhook codec secret body sig w).1.db ≡ w.db)
        ⊎ Changes body sig w (receive_provider_webhook codec secret body sig w)
  unfolding receive_provider_webhook pure
  receive_provider_webhook-Stores none sig w = inl refl
  receive_provider_webhook-Stores (some body) sig w =
      elim (Bool-cases (verify_hmac codec body sig secret)) [
        | inl s ↦ rw s (accept-cases body sig w s (codec.unmarshal body) refl)
        | inr n ↦ rw n (inl refl)
      ]

  -- An event that is already in the table is not stored again: a request whose payload has its
  -- identifier changes no table.
  pub receive_provider_webhook_again :
      (body sig : String) (payload : WebhookPayload) (w : World D)
      → codec.unmarshal body ≡ some payload
      → any (has_key payload.event_id) w.db.webhook_events ≡ true
      → (receive_provider_webhook codec secret (some body) sig w).1.db ≡ w.db
  receive_provider_webhook_again body sig payload w d taken =
      elim (receive_provider_webhook-Stores (some body) sig w) [
        | inl same ↦ same
        | inr (other, stored) ↦
            absurd (clash other payload (sym stored.decoded ∙ d) stored.fresh taken)
      ]
    where
      clash :
          (a b : WebhookPayload)
          → some a ≡ some b
          → any (has_key a.event_id) w.db.webhook_events ≡ false
          → any (has_key b.event_id) w.db.webhook_events ≡ true
          → ⊥
      clash a b e f t = cc
