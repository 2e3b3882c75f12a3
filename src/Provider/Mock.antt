-- ===== src/Provider/Mock.antt =====
-- cmd/mock-provider/main.go: a provider for local runs, which takes a request and reports on it later.
use Prim.Native.String.{◌++◌}
use grey_backend_assessment.Prelude.{
  ℕ, String, Bool, ◌||◌, Option, none, some, [], ◌∷◌, if◌then◌else◌, str_eq, ltb,
}
use grey_backend_assessment.Prelude.Int.{ℤ}
use grey_backend_assessment.Handler.Http.{Response}
use grey_backend_assessment.Provider.{HttpRequest}

pub record ProcessRequest : Type 0 where
  pub payment_id : String
  pub amount : ℤ
  pub currency : String
  pub dest_iban : String
  pub dest_bank_name : String
  pub callback_url : String

pub record CallbackPayload : Type 0 where
  pub event_id : String
  pub payment_id : String
  pub status : String
  pub provider_ref : String
  pub reason : String
  pub timestamp : String

-- `hmac secret body` is the hexadecimal HMAC-SHA256; `decimal` writes a number; `encode_status` writes
-- an object with a status.
pub record MockCodec : Type 0 where
  pub decode : String → Option ProcessRequest
  pub marshal : CallbackPayload → Option String
  pub encode_status : String → String
  pub is_url : String → Bool
  pub hmac : String → String → String
  pub decimal : ℕ → String

-- What processPayment draws: the identifier of the event, the time, and the two random numbers.
pub record Draws : Type 0 where
  pub event_id : String
  pub timestamp : String
  pub roll : ℕ
  pub ref : ℕ

-- http.Error
abbrev pub http_error : String → Response
http_error text = record {
  status = 400;
  headers =
      ("Content-Type", "text/plain; charset=utf-8") ∷ ("X-Content-Type-Options", "nosniff") ∷ [];
  body = text ++ "\n";
}

-- Four in five succeed.
abbrev pub callback_payload : ProcessRequest → (ℕ → String) → Draws → CallbackPayload
callback_payload req decimal draws =
    let done = ltb draws.roll 80 in
    record {
      event_id = draws.event_id;
      payment_id = req.payment_id;
      status = if done then "completed" else "failed";
      provider_ref = if done then "mock_ref_" ++ decimal draws.ref else "";
      reason = if done then "" else "Insufficient funds at destination bank";
      timestamp = draws.timestamp;
    }

module _ (codec : MockCodec) where
  abbrev pub respond_status : ℕ → String → Response
  respond_status code status = record {
    status = code;
    headers = ("Content-Type", "application/json") ∷ [];
    body = codec.encode_status status;
  }

  unfoldable pub health : Response
  health = respond_status 200 "ok"

  -- The answer, and the request that is then processed.
  unfoldable pub process_decoded : Option ProcessRequest → Response × Option ProcessRequest
  process_decoded none = (http_error "invalid request body", none)
  process_decoded (some req) =
      if str_eq req.payment_id "" || str_eq req.callback_url ""
      then (http_error "payment_id and callback_url are required", none)
      else (respond_status 202 "accepted", some req)

  unfoldable pub process : String → Response × Option ProcessRequest
  process body = process_decoded (codec.decode body)

  unfoldable pub compute_hmac : String → String → String
  compute_hmac body secret = codec.hmac secret body

  abbrev pub callback_call : String → String → String → HttpRequest
  callback_call secret url body = record {
    method = "POST";
    url = url;
    headers =
        ("Content-Type", "application/json")
        ∷ ("X-Webhook-Signature", compute_hmac body secret)
        ∷ [];
    body = body;
  }

  unfoldable pub call_back : String → String → Option String → Option HttpRequest
  call_back secret url none = none
  call_back secret url (some body) =
      if codec.is_url url then some (callback_call secret url body) else none

  -- The report that is sent, once the delay is over; `none` where it cannot be made.
  unfoldable pub process_payment : String → ProcessRequest → Draws → Option HttpRequest
  process_payment secret req draws =
      call_back secret req.callback_url (codec.marshal (callback_payload req codec.decimal draws))
