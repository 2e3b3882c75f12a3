-- ===== src/Api.antt =====
-- cmd/api/main.go: the routes of the server and the handlers around them. Of net/http's ServeMux the
-- patterns are modelled that the routes use, for paths that it does not clean.
pub mod Routes
pub mod Laws
pub mod SignIn
pub mod Reused
pub mod Handlers
pub mod Wrapped
pub mod Answers
use grey_backend_assessment.Prelude.{
  ℕ, zero, suc, ◌*◌, ◌^◌, String, Bool, true, false, Option, none, some, List, [], ◌∷◌,
  if◌then◌else◌, str_eq,
}
use grey_backend_assessment.Domain.{Time, Currency}
use grey_backend_assessment.Session.{Result, Session, pure, ◌>>=◌}
use grey_backend_assessment.Fx.{Quote}
use grey_backend_assessment.Payments.Service.{Service}
use grey_backend_assessment.Auth.{Jwt}
use grey_backend_assessment.Handler.Http.{Request, Response, HttpCodec, limit_text}
use grey_backend_assessment.Handler.Receiver
use grey_backend_assessment.Handler.Receiver.{
  ReceiverCodec, respond_reply, receive_provider_webhook,
}
use grey_backend_assessment.Handler.Payment
use grey_backend_assessment.Handler.Payment.{PaymentDecoder}
use grey_backend_assessment.Handler.Account
use grey_backend_assessment.Handler.Account.{CreateAccountRequest}
use grey_backend_assessment.Handler.User
use grey_backend_assessment.Handler.Rates
use grey_backend_assessment.Handler.Login.{AuthHandler, LoginRequest, login}
use grey_backend_assessment.Handler.Health.{Health, liveness, readiness}
use grey_backend_assessment.Middleware.Auth.{auth}
use grey_backend_assessment.Middleware.Idempotency.{idempotency}
use grey_backend_assessment.Middleware.Stack.{recovery, tracing, secure_headers}
use grey_backend_assessment.Api.Routes.{
  Endpoint, docs, spec, live, ready, sign_in, show_user, open_account, list_accounts, make_payment,
  make_payout, show_payment, show_rate, take_webhook, Target, target, no_route, wrong_method, route,
}

-- What main builds the handlers from: the services, the secrets, and the libraries' part.
pub record Server (D : Type 0) : Type 0 where
  pub codec : HttpCodec D
  pub jwt : Jwt
  pub jwt_secret : String
  pub compare_hash_and_password : String → String → Bool
  pub webhook_secret : String
  pub payments : Service D
  pub rate : Currency → Currency → Result (Quote D)
  pub payment_decoder : PaymentDecoder
  pub account_decoder : String → Option CreateAccountRequest
  pub login_decoder : String → Option LoginRequest
  pub receiver_codec : ReceiverCodec
  pub sha256 : String → String
  pub digits : Request → Result String
  pub encode_health : Health → String
  pub decimal_string : D → String
  pub rfc3339 : Time → String
  -- the two static pages
  pub page : Endpoint → Response

abbrev pub limit_body : ℕ → Option String → Option String
limit_body n none = none
limit_body n (some body) = some (limit_text n body)

-- http.NotFound and the answer to a method that a path does not take, less its Allow header
abbrev pub plain : ℕ → String → Response
plain status text = record {
  status = status;
  headers = ("Content-Type", "text/plain; charset=utf-8") ∷ [];
  body = text;
}

-- handler.NewAuthHandler(userRepo, cfg.JWTSecret, 24*time.Hour), in nanoseconds
abbrev pub login_handler : {D : Type 0} → Server D → AuthHandler
login_handler s = record {
  jwt = s.jwt;
  jwt_secret = s.jwt_secret;
  jwt_expiry = 24 * 3600 * 10 ^ 9;
  compare_hash_and_password = s.compare_hash_and_password;
}

module _ {D : Type 0} (s : Server D) where
  unfoldable pub receive : Request → Session D Response
  receive r = do
    reply ←
        receive_provider_webhook s.receiver_codec s.webhook_secret (limit_body (2 ^ 20) r.body)
          (r.header "X-Webhook-Signature")
    pure (respond_reply s.codec reply)

  unfoldable pub with_auth : (Request → Session D Response) → Request → Session D Response
  with_auth next = auth s.codec s.jwt s.jwt_secret next

  unfoldable pub create_payment : Request → Session D Response
  create_payment = Payment.create s.codec s.payments s.payment_decoder

  unfoldable pub create_external_payment : Request → Session D Response
  create_external_payment = Payment.create_external s.codec s.payments s.payment_decoder

  unfoldable pub serve_endpoint : Endpoint → Request → Session D Response
  serve_endpoint docs r = pure (s.page docs)
  serve_endpoint spec r = pure (s.page spec)
  serve_endpoint live r = liveness s.encode_health s.rfc3339
  serve_endpoint ready r = readiness s.encode_health s.rfc3339
  serve_endpoint sign_in r = login s.codec (login_handler s) s.login_decoder r
  serve_endpoint show_user r = with_auth (User.get_by_id s.codec) r
  serve_endpoint open_account r =
      with_auth (λ q. Account.create s.codec s.account_decoder (s.digits q) q) r
  serve_endpoint list_accounts r = with_auth (Account.list s.codec) r
  serve_endpoint make_payment r = with_auth (idempotency s.codec s.sha256 create_payment) r
  serve_endpoint make_payout r = with_auth (idempotency s.codec s.sha256 create_external_payment) r
  serve_endpoint show_payment r = with_auth (Payment.get s.codec) r
  serve_endpoint show_rate r =
      with_auth (Rates.get_rate s.codec s.decimal_string s.rfc3339 s.rate) r
  serve_endpoint take_webhook r = receive r

  -- r.PathValue("id") is what the pattern's {id} stands for.
  abbrev pub with_path_value : String → Request → Request
  with_path_value id r = record r { path_value = λ name. if str_eq name "id" then id else "" }

  unfoldable pub serve_target : Target → Request → Session D Response
  serve_target (target endpoint id) r = serve_endpoint endpoint (with_path_value id r)
  serve_target no_route r = pure (plain 404 "404 page not found\n")
  serve_target wrong_method r = pure (plain 405 "Method Not Allowed\n")

  unfoldable pub serve_mux : Request → Session D Response
  serve_mux r = serve_target (route r.method r.path) r

  unfoldable pub serve : Request → Session D Response
  serve = secure_headers s.codec (tracing s.codec (recovery s.codec serve_mux))
