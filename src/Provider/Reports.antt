-- ===== src/Provider/Reports.antt =====
-- internal/service/provider_client.go, cmd/mock-provider and internal/handler/webhook.go together: what
-- is sent to the provider comes back as an event.
use Prim.Native.String.{◌++◌}
use grey_backend_assessment.Prelude.{
  ◌+◌, ◌≡◌, refl, String, true, false, some, [], ◌∷◌, any, str_eq, eq_refl, ltb, Bool-cases, inl,
  inr,
}
use grey_backend_assessment.Domain.{Uuid}
use grey_backend_assessment.Session.{
  World, ProviderRequest, ok, pure, caught, new_uuid, now, ◌>>=◌, driver_call, run_statement,
  statement,
}
use grey_backend_assessment.Repository.Webhooks
use grey_backend_assessment.Repository.Webhooks.{has_id, has_key}
use grey_backend_assessment.Handler.Receiver.{
  ReceiverCodec, accepted, uuid_field, status_field, validate, verify_hmac, event_type_of,
  received_event, store_event, accept, receive_provider_webhook,
}
use grey_backend_assessment.Provider.{
  HttpRequest, ProviderClient, ClientCodec, submitted, provider_payload, process_call, submit_body,
  submit_payment,
}
use grey_backend_assessment.Provider.Mock.{
  CallbackPayload, MockCodec, Draws, callback_call, process, process_decoded, compute_hmac,
  call_back, process_payment,
}
use grey_backend_assessment.Provider.Wire.{
  decoded_callback, processed, reported_payload, ReadsBack, Agree, header_value, ask, outcome_type,
}

module _ {D : Type 0} (client : ClientCodec) (mock : MockCodec) (receiver : ReceiverCodec)
    (c : ProviderClient) (req : ProviderRequest) (draws : Draws) (event_id : Uuid)
    (agree : Agree client mock receiver c req draws event_id) (secret : String) (w : World D) where
  abbrev payload : CallbackPayload
  payload = reported_payload client mock c req draws

  uuid_field-none :
      (field : String) (id : Uuid)
      → ReadsBack client receiver id
      → uuid_field receiver field (client.uuid_string id) ≡ []
  unfolding uuid_field
  uuid_field-none field id back = rw (back.given, back.read) refl

  status_field-none : status_field receiver payload.status ≡ []
  unfolding status_field
  status_field-none = elim (Bool-cases (ltb draws.roll 80)) [
    | inl done ↦ rw done refl
    | inr failed ↦ rw failed refl
  ]

  -- The report has no wrong field.
  valid :
      draws.event_id ≡ client.uuid_string event_id
      → validate receiver (decoded_callback payload) ≡ []
  unfolding validate
  valid named =
      rw
        (
          named,
          uuid_field-none "event_id" event_id agree.event_uuid,
          uuid_field-none "payment_id" req.payment_id agree.payment_uuid,
          status_field-none,
        )
        refl

  -- The client is told that the request has been taken; the provider processes it, and its report goes
  -- to the callback URL; the receiver stores it as a pending event, of the outcome drawn, and answers
  -- that it has been received.
  pub record Reported : Type 0 where
    pub taken : submit_payment client c (ask mock) req ≡ submitted
    pub call : HttpRequest
    pub report : HttpRequest
    pub asked : client.marshal (provider_payload client c req) ≡ some call.body
    pub begun : (process mock call.body).1 ≡ some (processed client c req)
    pub reported : process_payment mock secret (processed client c req) draws ≡ some report
    pub url : report.url ≡ c.callback_url
    pub stored :
        receive_provider_webhook receiver secret
          (some report.body)
          (header_value "X-Webhook-Signature" report.headers)
          w
        ≡ (
          ok (accepted "received"),
          record w {
            db = record w.db {
              webhook_events =
                  received_event
                    (w.env.uuids w.drawn)
                    (w.env.time_at w.tick)
                    report.body
                    (decoded_callback payload)
                  ∷ w.db.webhook_events;
            };
            tick = w.tick + 1;
            drawn = w.drawn + 1;
          },
        )
    pub outcome : event_type_of (decoded_callback payload) ≡ outcome_type draws.roll

  signed : (body : String) → verify_hmac receiver body (compute_hmac mock body secret) secret ≡ true
  unfolding verify_hmac compute_hmac
  signed body =
      rw
        (
          agree.one_hash secret body,
          agree.hash_given secret body,
          eq_refl (receiver.hmac secret body),
        )
        refl

  received :
      (body : String)
      → receiver.unmarshal body ≡ some (decoded_callback payload)
      → draws.event_id ≡ client.uuid_string event_id
      → w.env.fails w.tick ≡ false
      → any (has_id (w.env.uuids w.drawn)) w.db.webhook_events ≡ false
      → any (has_key draws.event_id) w.db.webhook_events ≡ false
      → receive_provider_webhook receiver secret (some body) (compute_hmac mock body secret) w ≡ (
        ok (accepted "received"),
        record w {
          db = record w.db {
            webhook_events =
                received_event
                  (w.env.uuids w.drawn)
                  (w.env.time_at w.tick)
                  body
                  (decoded_callback payload)
                ∷ w.db.webhook_events;
          };
          tick = w.tick + 1;
          drawn = w.drawn + 1;
        },
      )
  unfolding receive_provider_webhook accept store_event new_uuid now caught ◌>>=◌ pure
      Webhooks.create statement driver_call run_statement Webhooks.insert_event
  received body d named answers new_id new_key =
      rw (signed body, d, valid named) (rw (answers, new_id, new_key) refl)

  drawn_outcome : event_type_of (decoded_callback payload) ≡ outcome_type draws.roll
  drawn_outcome = elim (Bool-cases (ltb draws.roll 80)) [
    | inl done ↦ rw done refl
    | inr failed ↦ rw failed refl
  ]

  -- A payment that is sent to the mock provider is taken, and its report is stored as a pending event
  -- of the outcome drawn. Both programs have one secret, their
  -- libraries agree on what is exchanged, the two URLs are valid
  -- and there is a callback URL, and at the receiver the driver does not fail and both the identifier
  -- drawn and the key of the event are new.
  pub submit_payment-Reported :
      client.is_url (c.base_url ++ "/process") ≡ true
      → mock.is_url c.callback_url ≡ true
      → str_eq c.callback_url "" ≡ false
      → draws.event_id ≡ client.uuid_string event_id
      → w.env.fails w.tick ≡ false
      → any (has_id (w.env.uuids w.drawn)) w.db.webhook_events ≡ false
      → any (has_key draws.event_id) w.db.webhook_events ≡ false
      → Reported
  unfolding submit_payment submit_body process process_decoded process_payment call_back
  submit_payment-Reported base url given named answers new_id new_key =
      let (sent, marshalled, decoded) = agree.request in
      let (body, encoded, read) = agree.callback in
      record {
        taken = rw (marshalled, base, decoded, agree.payment_uuid.given, given) refl;
        call = process_call c sent;
        report = callback_call mock secret c.callback_url body;
        asked = marshalled;
        begun = rw (decoded, agree.payment_uuid.given, given) refl;
        reported = rw (encoded, url) refl;
        url = refl;
        stored = received body read named answers new_id new_key;
        outcome = drawn_outcome;
      }
