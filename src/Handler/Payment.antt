-- ===== src/Handler/Payment.antt =====
-- internal/handler/payment.go: the requests for transfers and payouts, and a payment that is looked up.
pub mod Laws
pub mod Validates
pub mod Shows
use grey_backend_assessment.Prelude.{String, Option, none, some, List, ◌∷◌, ◌++◌}
use grey_backend_assessment.Prelude.Int.{ℤ}
use grey_backend_assessment.Domain.{Uuid, Currency, currency_of, currency_string, Payment}
use grey_backend_assessment.Session.{Session, pure}
use grey_backend_assessment.Payments.Service.{Service, get_payment_for_user}
use grey_backend_assessment.Payments.Transfer.{InternalTransferRequest, create_internal_transfer}
use grey_backend_assessment.Payments.Payout.{ExternalPayoutRequest, create_external_payout}
use grey_backend_assessment.Handler.{resource_not_found}
use grey_backend_assessment.Handler.Http.{
  Request, Response, FieldError, PaymentDto, payment_payload, HttpCodec, currency_field,
  required_field, amount_field, decode_body, respond_success, refuse, with_user, with_body,
  if_valid, respond_with, payment_type_string, payment_status_string, payment_location,
}

pub record CreatePaymentRequest : Type 0 where
  pub recipient_unique_name : String
  pub source_currency : String
  pub dest_currency : String
  pub amount : ℤ

pub record CreateExternalPayoutRequest : Type 0 where
  pub source_currency : String
  pub dest_currency : String
  pub amount : ℤ
  pub dest_iban : String
  pub dest_bank_name : String

unfoldable pub validate_payment : CreatePaymentRequest → List FieldError
validate_payment r =
    required_field "recipient_unique_name" r.recipient_unique_name
    ++ (currency_field "source_currency" r.source_currency
        ++ (currency_field "dest_currency" r.dest_currency ++ amount_field r.amount))

unfoldable pub validate_payout : CreateExternalPayoutRequest → List FieldError
validate_payout r =
    currency_field "source_currency" r.source_currency
    ++ (currency_field "dest_currency" r.dest_currency
        ++ (amount_field r.amount
            ++ (required_field "dest_iban" r.dest_iban
                ++ required_field "dest_bank_name" r.dest_bank_name)))

abbrev pub currency_text : Option Currency → Option String
currency_text none = none
currency_text (some c) = some (currency_string c)

unfoldable pub to_payment_dto : {D : Type 0} → Payment D → PaymentDto D
to_payment_dto p = record {
  id = p.id;
  payment_type = payment_type_string p.payment_type;
  status = payment_status_string p.status;
  source_account_id = p.source_account_id;
  dest_account_id = p.dest_account_id;
  source_amount = p.source_amount;
  source_currency = currency_string p.source_currency;
  dest_amount = p.dest_amount;
  dest_currency = currency_string p.dest_currency;
  exchange_rate = p.exchange_rate;
  fee_amount = p.fee_amount;
  fee_currency = currency_text p.fee_currency;
  dest_iban = p.dest_iban;
  dest_bank_name = p.dest_bank_name;
  created_at = p.created_at;
  completed_at = p.completed_at;
}

abbrev pub transfer_request : Uuid → String → CreatePaymentRequest → InternalTransferRequest
transfer_request user_id idempotency_key req = record {
  sender_user_id = user_id;
  recipient_unique_name = req.recipient_unique_name;
  source_currency = currency_of req.source_currency;
  dest_currency = currency_of req.dest_currency;
  amount = req.amount;
  idempotency_key = idempotency_key;
}

abbrev pub payout_request : Uuid → String → CreateExternalPayoutRequest → ExternalPayoutRequest
payout_request user_id idempotency_key req = record {
  sender_user_id = user_id;
  source_currency = currency_of req.source_currency;
  dest_currency = currency_of req.dest_currency;
  amount = req.amount;
  dest_iban = req.dest_iban;
  dest_bank_name = req.dest_bank_name;
  idempotency_key = idempotency_key;
}

-- The requests in the JSON of a body.
pub record PaymentDecoder : Type 0 where
  pub transfer : String → Option CreatePaymentRequest
  pub payout : String → Option CreateExternalPayoutRequest

module _ {D : Type 0} (codec : HttpCodec D) where
  -- The answer to a payment that was made, with its Location.
  unfoldable pub respond_located : Response → Payment D → Response
  respond_located response p = record response {
    headers = ("Location", payment_location (codec.uuid_string p.id)) ∷ response.headers;
  }

  unfoldable pub respond_created : Payment D → Response
  respond_created p =
      respond_located (respond_success codec 201 (payment_payload (to_payment_dto p))) p

  unfoldable pub respond_accepted : Payment D → Response
  respond_accepted p =
      respond_located (respond_success codec 202 (payment_payload (to_payment_dto p))) p

  unfoldable pub with_payment_id : Option Uuid → (Uuid → Session D Response) → Session D Response
  with_payment_id none k = refuse codec resource_not_found
  with_payment_id (some payment_id) k = k payment_id

  module _ (s : Service D) (decoder : PaymentDecoder) where
    unfoldable pub create : Request → Session D Response
    create r = with_user codec r.user_id λ user_id.
        with_body codec (decode_body decoder.transfer r.body) λ req.
          if_valid codec (validate_payment req) (
            respond_with codec
              (create_internal_transfer s
                (transfer_request user_id (r.header "Idempotency-Key") req))
              (respond_created))

    unfoldable pub create_external : Request → Session D Response
    create_external r = with_user codec r.user_id λ user_id.
        with_body codec (decode_body decoder.payout r.body) λ req.
          if_valid codec (validate_payout req) (
            respond_with codec
              (create_external_payout s (payout_request user_id (r.header "Idempotency-Key") req))
              (respond_accepted))

  unfoldable pub get : Request → Session D Response
  get r = with_user codec r.user_id λ user_id.
      with_payment_id (codec.parse_uuid (r.path_value "id")) λ payment_id.
        respond_with codec (get_payment_for_user payment_id user_id)
          λ p. respond_success codec 200 (payment_payload (to_payment_dto p))
