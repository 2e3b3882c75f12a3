-- ===== src/Handler/Login.antt =====
-- internal/handler/auth.go: a user logs in. The comparison with a stored hash
-- (golang.org/x/crypto/bcrypt) comes as an argument.
pub mod Laws
use grey_backend_assessment.Prelude.{
  String, Bool, not, Option, none, some, List, ◌++◌, if◌then◌else◌,
}
use grey_backend_assessment.Domain.{Time, User, Error, is_not_found}
use grey_backend_assessment.Session.{Result, ok, err, Session, now, pure, attempt, ◌>>=◌}
use grey_backend_assessment.Repository.Users.{get_by_email}
use grey_backend_assessment.Auth.{Jwt, generate_token}
use grey_backend_assessment.Handler.{invalid_credentials, internal_error}
use grey_backend_assessment.Handler.Http.{
  Request, Response, FieldError, LoginResponse, login_payload, HttpCodec, required_field,
  decode_body, respond_success, respond_domain_error, refuse, with_body, if_valid,
}
use grey_backend_assessment.Handler.User.{user_dto}

pub record LoginRequest : Type 0 where
  pub email : String
  pub password : String

unfoldable pub validate_login : LoginRequest → List FieldError
validate_login r = required_field "email" r.email ++ required_field "password" r.password

pub record AuthHandler : Type 0 where
  pub jwt : Jwt
  pub jwt_secret : String
  pub jwt_expiry : Time
  pub compare_hash_and_password : String → String → Bool

module _ {D : Type 0} (codec : HttpCodec D) (h : AuthHandler) where
  unfoldable pub respond_token : User → Option String → Session D Response
  respond_token u none = refuse codec internal_error
  respond_token u (some token) =
      pure (respond_success codec 200 (login_payload (record { token = token; user = user_dto u })))

  unfoldable pub respond_user : String → Result User → Session D Response
  respond_user password (err e) =
      if is_not_found e
      then refuse codec invalid_credentials
      else pure (respond_domain_error codec e)
  respond_user password (ok u) =
      if not (h.compare_hash_and_password u.password_hash password)
      then refuse codec invalid_credentials
      else now >>= λ at.
          respond_token u (generate_token h.jwt u.id u.email h.jwt_secret h.jwt_expiry at)

  unfoldable pub login : (String → Option LoginRequest) → Request → Session D Response
  login decode r = with_body codec (decode_body decode r.body) λ req.
      if_valid codec (validate_login req)
        (attempt (get_by_email req.email) >>= respond_user req.password)
