-- ===== src/Provider/Wire.antt =====
-- What internal/service/provider_client.go, cmd/mock-provider and internal/handler/webhook.go exchange,
-- and what their libraries are supposed to do with it.
use grey_backend_assessment.Prelude.{
  ℕ, ◌≡◌, String, false, Option, some, List, [], ◌∷◌, if◌then◌else◌, str_eq, ltb,
}
use grey_backend_assessment.Domain.{Uuid, WebhookEventType, payment_completed, payment_failed}
use grey_backend_assessment.Session.{ProviderRequest}
use grey_backend_assessment.Handler.Receiver.{WebhookPayload, ReceiverCodec}
use grey_backend_assessment.Handler.Http.{Response}
use grey_backend_assessment.Provider.{
  HttpRequest, ProviderPayload, ProviderClient, ClientCodec, provider_payload,
}
use grey_backend_assessment.Provider.Mock.{
  ProcessRequest, CallbackPayload, MockCodec, Draws, callback_payload, process,
}

-- The fields have the same names in JSON.
abbrev pub decoded_request : ProviderPayload → ProcessRequest
decoded_request p = record {
  payment_id = p.payment_id;
  amount = p.amount;
  currency = p.currency;
  dest_iban = p.dest_iban;
  dest_bank_name = p.dest_bank_name;
  callback_url = p.callback_url;
}

abbrev pub decoded_callback : CallbackPayload → WebhookPayload
decoded_callback p = record {
  event_id = p.event_id;
  payment_id = p.payment_id;
  status = p.status;
  provider_ref = p.provider_ref;
  reason = p.reason;
  timestamp = p.timestamp;
}

-- The request of the client, as the provider decodes it, and the report on it.
abbrev pub processed : ClientCodec → ProviderClient → ProviderRequest → ProcessRequest
processed client c req = decoded_request (provider_payload client c req)

abbrev pub reported_payload :
    ClientCodec → MockCodec → ProviderClient → ProviderRequest → Draws → CallbackPayload
reported_payload client mock c req draws =
    callback_payload (processed client c req) mock.decimal draws

-- An identifier is read back from its text, which is not empty.
pub record ReadsBack (client : ClientCodec) (receiver : ReceiverCodec) (id : Uuid) : Type 0 where
  pub read : receiver.parse_uuid (client.uuid_string id) ≡ some id
  pub given : str_eq (client.uuid_string id) "" ≡ false

-- What encoding/json, google/uuid and crypto/hmac do for the request and the report: what one side
-- encodes the other side decodes, the two identifiers are read back, and both sides have one keyed hash,
-- whose text is not empty.
pub record Agree (client : ClientCodec) (mock : MockCodec) (receiver : ReceiverCodec)
    (c : ProviderClient) (req : ProviderRequest) (draws : Draws) (event_id : Uuid) : Type 0 where
  pub request :
      (body : String) × (client.marshal (provider_payload client c req) ≡ some body)
      × (mock.decode body ≡ some (processed client c req))
  pub callback :
      (body : String) × (mock.marshal (reported_payload client mock c req draws) ≡ some body)
      × (receiver.unmarshal body
          ≡ some (decoded_callback (reported_payload client mock c req draws)))
  pub payment_uuid : ReadsBack client receiver req.payment_id
  pub event_uuid : ReadsBack client receiver event_id
  pub one_hash : (secret body : String) → mock.hmac secret body ≡ receiver.hmac secret body
  pub hash_given : (secret body : String) → str_eq (receiver.hmac secret body) "" ≡ false

-- The value of a header.
abbrev pub header_value : String → List (String × String) → String
header_value name [] = ""
header_value name ((n, value) ∷ headers) =
    if str_eq n name then value else header_value name headers

-- A provider that is the mock one.
abbrev pub ask : MockCodec → HttpRequest → Option Response
ask mock r = some (process mock r.body).0

abbrev pub outcome_type : ℕ → WebhookEventType
outcome_type roll = if ltb roll 80 then payment_completed else payment_failed
