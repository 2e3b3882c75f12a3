-- ===== src/Handler/Http.antt =====
-- internal/handler/response.go, with the part of net/http that the handlers use: requests, responses,
-- and the data that a response carries. The encoding of JSON and the texts of identifiers come as a
-- parameter, the codec.
pub mod Laws
pub mod Answers
use Prim.Native.String.{◌++◌}
use grey_backend_assessment.Prelude.{
  ℕ, zero, suc, String, Bool, true, false, Option, none, some, List, [], ◌∷◌, if◌then◌else◌, str_eq,
  not,
}
use grey_backend_assessment.Prelude.Int.{ℤ, pos, leb_ℤ}
use grey_backend_assessment.Domain.{
  Uuid, Time, currency_of, is_valid, PaymentType, PaymentStatus, AccountStatus, Error,
}
use grey_backend_assessment.Session.{Result, ok, err, Session, pure, attempt, ◌>>=◌}
use grey_backend_assessment.Handler.{
  AppError, missing_token, invalid_request, validation_failed, app_error_of,
}

-- *http.Request. A header, a value of the path or a parameter of the query that is not there is the
-- empty text; the body is `none` where reading it fails; `user_id` is what auth.UserIDFromContext
-- finds in the context.
pub record Request : Type 0 where
  pub method : String
  pub path : String
  pub header : String → String
  pub path_value : String → String
  pub query : String → String
  pub body : Option String
  pub user_id : Option Uuid

pub record FieldError : Type 0 where
  pub field : String
  pub message : String

abbrev pub field_error : String → String → List FieldError
field_error field message = record { field = field; message = message } ∷ []

pub record PaymentDto (D : Type 0) : Type 0 where
  pub id : Uuid
  pub payment_type : String
  pub status : String
  pub source_account_id : Uuid
  pub dest_account_id : Option Uuid
  pub source_amount : ℤ
  pub source_currency : String
  pub dest_amount : ℤ
  pub dest_currency : String
  pub exchange_rate : Option D
  pub fee_amount : ℤ
  pub fee_currency : Option String
  pub dest_iban : Option String
  pub dest_bank_name : Option String
  pub created_at : Time
  pub completed_at : Option Time

pub record AccountDto : Type 0 where
  pub id : Uuid
  pub user_id : Uuid
  pub currency : String
  pub balance : ℤ
  pub account_number : Option String
  pub iban : Option String
  pub status : String
  pub created_at : Time

pub record UserDto : Type 0 where
  pub id : Uuid
  pub email : String
  pub name : String
  pub unique_name : Option String

pub record LoginResponse : Type 0 where
  pub token : String
  pub user : UserDto

pub record FxRateResponse : Type 0 where
  pub from_currency : String
  pub to_currency : String
  pub mid_market_rate : String
  pub effective_rate : String
  pub spread_pct : String
  pub timestamp : String

-- What the `any` of a response holds.
pub data Payload (D : Type 0) : Type 0 where
  no_payload : Payload D
  payment_payload : PaymentDto D → Payload D
  account_payload : AccountDto → Payload D
  accounts_payload : List AccountDto → Payload D
  user_payload : UserDto → Payload D
  login_payload : LoginResponse → Payload D
  rate_payload : FxRateResponse → Payload D
  status_payload : String → Payload D
  fields_payload : List FieldError → Payload D

pub record ApiError (D : Type 0) : Type 0 where
  pub code : String
  pub message : String
  pub details : Payload D

pub record ApiResponse (D : Type 0) : Type 0 where
  pub success : Bool
  pub payload : Payload D
  pub error : Option (ApiError D)

-- What has been written to an http.ResponseWriter.
pub record Response : Type 0 where
  pub status : ℕ
  pub headers : List (String × String)
  pub body : String

pub record HttpCodec (D : Type 0) : Type 0 where
  pub encode : ApiResponse D → String
  pub parse_uuid : String → Option Uuid
  pub uuid_string : Uuid → String

-- The error that a field with a currency has.
abbrev pub currency_field : String → String → List FieldError
currency_field field text =
    if str_eq text ""
    then field_error field "required"
    else if not (is_valid (currency_of text))
    then field_error field "must be USD, EUR, or GBP"
    else []

abbrev pub required_field : String → String → List FieldError
required_field field text = if str_eq text "" then field_error field "required" else []

abbrev pub amount_field : ℤ → List FieldError
amount_field amount =
    if leb_ℤ amount (pos 0) then field_error "amount" "must be greater than 0" else []

-- json.NewDecoder(r.Body).Decode(&req), which fails where reading the body does
abbrev pub decode_body : {X : Type 0} → (String → Option X) → Option String → Option X
decode_body decode none = none
decode_body decode (some body) = decode body

-- io.LimitReader(r.Body, n)
unfoldable pub limit_text : ℕ → String → String
limit_text zero s = String.[]
limit_text (suc n) String.[] = String.[]
limit_text (suc n) (String.◌∷◌ c s) = String.◌∷◌ c (limit_text n s)

module _ {D : Type 0} (codec : HttpCodec D) where
  unfoldable pub respond_json : ℕ → ApiResponse D → Response
  respond_json status payload = record {
    status = status;
    headers = ("Content-Type", "application/json") ∷ [];
    body = codec.encode payload;
  }

  unfoldable pub respond_success : ℕ → Payload D → Response
  respond_success status payload =
      respond_json status (record { success = true; payload = payload; error = none })

  unfoldable pub respond_app_error : AppError → Payload D → Response
  respond_app_error e details = respond_json e.status (record {
    success = false;
    payload = no_payload;
    error = some (record { code = e.code; message = e.message; details = details });
  })

  unfoldable pub respond_validation_error : List FieldError → Response
  respond_validation_error fields = respond_app_error validation_failed (fields_payload fields)

  unfoldable pub respond_domain_error : Error → Response
  respond_domain_error e = respond_app_error (app_error_of e) no_payload

  -- The early returns that the handlers share.
  unfoldable pub refuse : AppError → Session D Response
  refuse e = pure (respond_app_error e no_payload)

  -- userID, ok := auth.UserIDFromContext(…); if !ok { … }
  unfoldable pub with_user : Option Uuid → (Uuid → Session D Response) → Session D Response
  with_user none k = refuse missing_token
  with_user (some user_id) k = k user_id

  -- if err := json.NewDecoder(r.Body).Decode(&req); err != nil { … }
  unfoldable pub with_body : {X : Type 0} → Option X → (X → Session D Response) → Session D Response
  with_body none k = refuse invalid_request
  with_body (some req) k = k req

  -- if fields := req.Validate(); len(fields) > 0 { … }
  unfoldable pub if_valid : List FieldError → Session D Response → Session D Response
  if_valid [] k = k
  if_valid (f ∷ fields) k = pure (respond_validation_error (f ∷ fields))

  abbrev pub response_of : {A : Type 0} → (A → Response) → Result A → Response
  response_of respond (ok a) = respond a
  response_of respond (err e) = respond_domain_error e

  -- A call of a service: its error goes to RespondDomainError.
  unfoldable pub respond_with : {A : Type 0} → Session D A → (A → Response) → Session D Response
  respond_with m respond = do r ← attempt m; pure (response_of respond r)

-- string(p.Type), string(p.Status) and string(a.Status)
abbrev pub payment_type_string : PaymentType → String
payment_type_string PaymentType.internal_transfer = "internal_transfer"
payment_type_string PaymentType.external_payout = "external_payout"

abbrev pub payment_status_string : PaymentStatus → String
payment_status_string PaymentStatus.pending = "pending"
payment_status_string PaymentStatus.processing = "processing"
payment_status_string PaymentStatus.completed = "completed"
payment_status_string PaymentStatus.failed = "failed"
payment_status_string PaymentStatus.reversed = "reversed"

abbrev pub account_status_string : AccountStatus → String
account_status_string AccountStatus.pending = "pending"
account_status_string AccountStatus.active = "active"
account_status_string AccountStatus.frozen = "frozen"
account_status_string AccountStatus.closed = "closed"

-- fmt.Sprintf("/api/v1/payments/%s", id)
abbrev pub payment_location : String → String
payment_location id = "/api/v1/payments/" ++ id
