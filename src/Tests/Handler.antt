-- ===== src/Tests/Handler.antt =====
-- Runs of internal/handler/webhook.go.
use grey_backend_assessment.Prelude.{ℕ, ◌≡◌, refl, ◌⊎◌, some, [], ◌∷◌}
use grey_backend_assessment.Session.{World}
use grey_backend_assessment.Handler.Receiver.{
  WebhookPayload, ReceiverCodec, received_event, receive_provider_webhook,
}
use grey_backend_assessment.Handler.Receiver.Laws.{
  Changes, receive_provider_webhook-Stores, receive_provider_webhook_again,
}
use grey_backend_assessment.Tests.{start}

abbrev report : WebhookPayload
report = record {
  event_id = "e1";
  payment_id = "p1";
  status = "completed";
  provider_ref = "r1";
  reason = "";
  timestamp = "";
}

-- Every body is that report, signed with the secret itself.
abbrev codec : ReceiverCodec
codec = record {
  unmarshal = λ body. some report;
  parse_uuid = λ text. some 1;
  hmac = λ secret body. secret;
}

receive_provider_webhook-Stores_example :
    ((receive_provider_webhook codec "key" (some "{}") "key" start).1.db ≡ start.db)
    ⊎ Changes codec "key"
        (some "{}")
        "key"
        start
        (receive_provider_webhook codec "key" (some "{}") "key" start)
receive_provider_webhook-Stores_example =
    receive_provider_webhook-Stores codec "key" (some "{}") "key" start

abbrev received : World ℕ
received = record start {
  db = record start.db { webhook_events = received_event 7 0 "{}" report ∷ [] };
}

receive_provider_webhook_again_example :
    (receive_provider_webhook codec "key" (some "{}") "key" received).1.db ≡ received.db
receive_provider_webhook_again_example =
    receive_provider_webhook_again codec "key" "{}" "key" report received refl refl
