-- ===== src/Provider.antt =====
-- internal/service/provider_client.go and cmd/mock-provider: a payout is sent to the provider, which
-- reports back. Both programs meet over HTTP; encoding/json, net/http and crypto/hmac come as a
-- parameter.
pub mod Mock
pub mod Wire
pub mod Reports
use Prim.Native.String.{◌++◌}
use grey_backend_assessment.Prelude.{
  ℕ, String, Bool, true, false, not, Option, none, some, List, [], ◌∷◌, ◌==◌, if◌then◌else◌, str_eq,
}
use grey_backend_assessment.Prelude.Int.{ℤ}
use grey_backend_assessment.Domain.{Uuid, currency_string}
use grey_backend_assessment.Session.{ProviderRequest}
use grey_backend_assessment.Handler.Http.{Response, limit_text}

-- *http.Request, as it is sent
pub record HttpRequest : Type 0 where
  pub method : String
  pub url : String
  pub headers : List (String × String)
  pub body : String

pub record ProviderPayload : Type 0 where
  pub payment_id : String
  pub amount : ℤ
  pub currency : String
  pub dest_iban : String
  pub dest_bank_name : String
  pub callback_url : String

pub record ProviderClient : Type 0 where
  pub base_url : String
  pub callback_url : String

-- `is_url` says whether http.NewRequest takes the text.
pub record ClientCodec : Type 0 where
  pub marshal : ProviderPayload → Option String
  pub is_url : String → Bool
  pub uuid_string : Uuid → String

-- The error that is returned, if any.
pub data Submission : Type 0 where
  submitted marshal_failed build_failed send_failed : Submission
  unexpected_status : ℕ → String → Submission

abbrev pub provider_payload : ClientCodec → ProviderClient → ProviderRequest → ProviderPayload
provider_payload codec c req = record {
  payment_id = codec.uuid_string req.payment_id;
  amount = req.amount;
  currency = currency_string req.currency;
  dest_iban = req.dest_iban;
  dest_bank_name = req.dest_bank_name;
  callback_url = c.callback_url;
}

abbrev pub process_call : ProviderClient → String → HttpRequest
process_call c body = record {
  method = "POST";
  url = c.base_url ++ "/process";
  headers = ("Content-Type", "application/json") ∷ [];
  body = body;
}

abbrev pub submission_of : Option Response → Submission
submission_of none = send_failed
submission_of (some resp) =
    if not (resp.status == 202)
    then unexpected_status resp.status (limit_text 512 resp.body)
    else submitted

module _ (codec : ClientCodec) (c : ProviderClient) (send : HttpRequest → Option Response) where
  unfoldable pub submit_body : Option String → Submission
  submit_body none = marshal_failed
  submit_body (some body) =
      if not (codec.is_url (c.base_url ++ "/process"))
      then build_failed
      else submission_of (send (process_call c body))

  -- `send` is what comes back from the provider, `none` where nothing does in five seconds.
  unfoldable pub submit_payment : ProviderRequest → Submission
  submit_payment req = submit_body (codec.marshal (provider_payload codec c req))
