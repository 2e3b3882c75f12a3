-- ===== src/Tests/Requests.antt =====
-- Runs of internal/handler and of a login followed by a request.
use grey_backend_assessment.Prelude.{ℕ, ◌≡◌, ◌≢◌, ◌⊎◌, ◌↔◌, refl, some, [], ◌∷◌, arith}
use grey_backend_assessment.Prelude.Int.{pos, ◌<ℤ◌}
use grey_backend_assessment.Domain.{User}
use grey_backend_assessment.Session.{
  World, ok, attempt, settle, pure, gets, or_not_found, ◌>>=◌, driver_call, now, query,
}
use grey_backend_assessment.Repository.Users
use grey_backend_assessment.Auth.{generate_token}
use grey_backend_assessment.Handler.Http.{Request, with_body, if_valid}
use grey_backend_assessment.Handler.Http.Laws.{Fails}
use grey_backend_assessment.Handler.Payment.{create, create_external, get}
use grey_backend_assessment.Handler.Payment.Laws.{
  Creates, create-Creates, Accepts, create_external-Accepts,
}
use grey_backend_assessment.Handler.Payment.Shows.{Shows, get-Shows}
use grey_backend_assessment.Handler.Payment.Validates.{IsCurrencyCode, validate_payment_lem}
use grey_backend_assessment.Handler.Payment.{validate_payment}
use grey_backend_assessment.Handler.Account.{list, create as open_account}
use grey_backend_assessment.Handler.Account.Opens.{Opened, create-Opened}
use grey_backend_assessment.Handler.Account.Laws.{Lists, list-Lists}
use grey_backend_assessment.Handler.Login.{login, respond_user, respond_token, validate_login}
use grey_backend_assessment.Handler.Login.Laws.{Refuses, Issues, login-Issues}
use grey_backend_assessment.Middleware.Auth.{with_user_id}
use grey_backend_assessment.Api.{login_handler, with_auth}
use grey_backend_assessment.Api.SignIn.{with_auth-login}
use grey_backend_assessment.Tests.{start, service, user_of}
use grey_backend_assessment.Tests.Middleware.{jwt-ReadsBack, strokes}
use grey_backend_assessment.Tests.Api.{http_codec, decoder, server, ask, body_request}

-- The request of a user who has passed the authentication.
abbrev passed : Request
passed = record ask { user_id = some 10 }

create-Creates_example :
    ((create http_codec service decoder passed start).1.db ≡ start.db)
    ⊎ Creates http_codec service decoder passed start
        (create http_codec service decoder passed start)
create-Creates_example = create-Creates http_codec service decoder passed start

get-Shows_example :
    ((get http_codec passed start).1.db ≡ start.db)
    × (Fails http_codec (get http_codec passed start)
        ⊎ Shows http_codec passed start (get http_codec passed start))
get-Shows_example = get-Shows http_codec passed start

list-Lists_example :
    ((list http_codec passed start).1.db ≡ start.db)
    × (Fails http_codec (list http_codec passed start)
        ⊎ Lists http_codec passed start (list http_codec passed start))
list-Lists_example = list-Lists http_codec passed start

validate_payment_lem_example : (validate_payment body_request ≡ []) ↔ (
    (body_request.recipient_unique_name ≢ "")
    × IsCurrencyCode "USD"
    × IsCurrencyCode "USD"
    × (pos 0 <ℤ pos 100))
validate_payment_lem_example = validate_payment_lem body_request

-- Alice with a password, which is stored as it is.
abbrev alice : User
alice = record (user_of 10 "alice") { password_hash = "pw" }

abbrev signing_in : World ℕ
signing_in = record start { db = record start.db { users = alice ∷ [] } }

login-Issues_example :
    ((login http_codec (login_handler server) server.login_decoder ask signing_in).1.db
      ≡ signing_in.db)
    × (Refuses http_codec
          (login_handler server)
          server.login_decoder
          ask
          signing_in
          (login http_codec (login_handler server) server.login_decoder ask signing_in)
        ⊎ Issues http_codec
            (login_handler server)
            server.login_decoder
            ask
            signing_in
            (login http_codec (login_handler server) server.login_decoder ask signing_in))
login-Issues_example =
    login-Issues http_codec (login_handler server) server.login_decoder ask signing_in

-- The login answers with a token for Alice.
unfoldable issued :
    Issues http_codec
      (login_handler server)
      server.login_decoder
      ask
      signing_in
      (login http_codec (login_handler server) server.login_decoder ask signing_in)
unfolding login respond_user respond_token with_body if_valid validate_login attempt settle
    Users.get_by_email query gets driver_call or_not_found now pure ◌>>=◌ generate_token strokes
issued = record {
  req = record { email = "alice"; password = "pw" };
  user = alice;
  token = "token";
  decoded = refl;
  valid = refl;
  found = refl;
  fits = refl;
  made = refl;
  answered = refl;
}

-- What the login makes of a later request of hers.
with_auth-login_example :
    with_auth server (list http_codec) ask start ≡ list http_codec (with_user_id ask 10) start
unfolding issued
with_auth-login_example =
    with_auth-login server jwt-ReadsBack ask signing_in issued (list http_codec) ask start refl refl
      (omega arith)

create_external-Accepts_example :
    ((create_external http_codec service decoder passed start).1.db ≡ start.db)
    ⊎ Accepts http_codec service decoder passed start
        (create_external http_codec service decoder passed start)
create_external-Accepts_example = create_external-Accepts http_codec service decoder passed start

create-Opened_example :
    ((open_account http_codec server.account_decoder (ok "1") passed start).1.db ≡ start.db)
    ⊎ Opened http_codec server.account_decoder
        (ok "1")
        passed
        start
        (open_account http_codec server.account_decoder (ok "1") passed start)
create-Opened_example = create-Opened http_codec server.account_decoder (ok "1") passed start
