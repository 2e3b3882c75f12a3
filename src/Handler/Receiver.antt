-- ===== src/Handler/Receiver.antt =====
-- internal/handler/webhook.go: the receiver of the provider's events. Decoding JSON, parsing an
-- identifier and the keyed hash come as a parameter.
pub mod Laws
use grey_backend_assessment.Prelude.{
  ℕ, String, Bool, true, false, not, ◌&&◌, Option, none, some, List, [], ◌∷◌, ◌++◌, if◌then◌else◌,
  str_eq,
}
use grey_backend_assessment.Domain.{
  Uuid, Time, WebhookEvent, WebhookEventStatus, WebhookEventType, payment_completed, payment_failed,
  Error, unique_violation,
}
use grey_backend_assessment.Session.{
  World, Session, Result, ok, err, pure, caught, new_uuid, now, ◌>>=◌,
}
use grey_backend_assessment.Repository.Webhooks
use grey_backend_assessment.Handler.{AppError, invalid_request, invalid_signature, internal_error}
use grey_backend_assessment.Handler.Http.{
  FieldError, field_error, Response, HttpCodec, no_payload, status_payload, respond_app_error,
  respond_validation_error, respond_success,
}

pub record WebhookPayload : Type 0 where
  pub event_id : String
  pub payment_id : String
  pub status : String
  pub provider_ref : String
  pub reason : String
  pub timestamp : String

-- `hmac secret body` is the hexadecimal HMAC-SHA256.
pub record ReceiverCodec : Type 0 where
  pub unmarshal : String → Option WebhookPayload
  pub parse_uuid : String → Option Uuid
  pub hmac : String → String → String

-- What is answered: an error, the fields that are wrong, or 200 with a status text.
pub data Reply : Type 0 where
  refused : AppError → Reply
  invalid_fields : List FieldError → Reply
  accepted : String → Reply

abbrev pub is_some : {A : Type 0} → Option A → Bool
is_some none = false
is_some (some a) = true

-- errors.As(err, &pqErr) && pqErr.Code == "23505"
abbrev pub is_duplicate_key : Error → Bool
is_duplicate_key (unique_violation name) = true
is_duplicate_key _ = false

-- p.eventType()
abbrev pub event_type_of : WebhookPayload → WebhookEventType
event_type_of p = if str_eq p.status "completed" then payment_completed else payment_failed

module _ (codec : ReceiverCodec) where
  unfoldable pub uuid_field : String → String → List FieldError
  uuid_field field text =
      if str_eq text ""
      then field_error field "required"
      else if is_some (codec.parse_uuid text)
      then []
      else field_error field "must be a valid UUID"

  unfoldable pub status_field : String → List FieldError
  status_field text =
      if str_eq text ""
      then field_error "status" "required"
      else if not (str_eq text "completed") && not (str_eq text "failed")
      then field_error "status" "must be completed or failed"
      else []

  unfoldable pub validate : WebhookPayload → List FieldError
  validate p =
      uuid_field "event_id" p.event_id
      ++ (uuid_field "payment_id" p.payment_id ++ status_field p.status)

  unfoldable pub verify_hmac : String → String → String → Bool
  verify_hmac body signature secret =
      if str_eq signature "" then false else str_eq (codec.hmac secret body) signature

abbrev pub received_event : Uuid → Time → String → WebhookPayload → WebhookEvent
received_event id at body payload = record {
  id = id;
  idempotency_key = payload.event_id;
  event_type = event_type_of payload;
  payload = body;
  status = WebhookEventStatus.pending;
  attempts = 0;
  last_attempt = none;
  created_at = at;
}

abbrev pub reply_of : Result Unit → Reply
reply_of (ok _) = accepted "received"
reply_of (err e) =
    if is_duplicate_key e then accepted "already_received" else refused internal_error

module _ {D : Type 0} (codec : ReceiverCodec) (secret : String) where
  unfoldable pub store_event : String → WebhookPayload → List FieldError → Session D Reply
  store_event body payload (f ∷ fs) = pure (invalid_fields (f ∷ fs))
  store_event body payload [] = do
    id ← new_uuid
    at ← now
    r ← caught (Webhooks.create (received_event id at body payload))
    pure (reply_of r)

  unfoldable pub accept : String → Option WebhookPayload → Session D Reply
  accept body none = pure (refused invalid_request)
  accept body (some payload) = store_event body payload (validate codec payload)

  -- The body is `none` where reading it fails.
  unfoldable pub receive_provider_webhook : Option String → String → Session D Reply
  receive_provider_webhook none sig = pure (refused invalid_request)
  receive_provider_webhook (some body) sig =
      if not (verify_hmac codec body sig secret)
      then pure (refused invalid_signature)
      else accept body (codec.unmarshal body)

-- What is written for each reply.
unfoldable pub respond_reply : {D : Type 0} → HttpCodec D → Reply → Response
respond_reply codec (refused e) = respond_app_error codec e no_payload
respond_reply codec (invalid_fields fields) = respond_validation_error codec fields
respond_reply codec (accepted status) = respond_success codec 200 (status_payload status)
