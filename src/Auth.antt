-- ===== src/Auth.antt =====
-- internal/auth: the tokens that name a user. Signing and reading a token (github.com/golang-jwt/jwt)
-- and the texts of identifiers come as a parameter.
pub mod Laws
use grey_backend_assessment.Prelude.{String, Option, none, some, ◌+◌}
use grey_backend_assessment.Domain.{Uuid, Time}

pub record Claims : Type 0 where
  pub user_id : Uuid
  pub email : String

pub record TokenClaims : Type 0 where
  pub expires_at : Time
  pub issued_at : Time
  pub user_id : String
  pub email : String

-- `signed_string` signs by HS256. `parse_with_claims` reads the claims of a token whose method is one
-- of the HMAC family, whose signature the secret makes, and that has not expired.
pub record Jwt : Type 0 where
  pub numeric_date : Time → Time
  pub signed_string : TokenClaims → String → Option String
  pub parse_with_claims : String → String → Time → Option TokenClaims
  pub uuid_string : Uuid → String
  pub parse_uuid : String → Option Uuid

module _ (jwt : Jwt) where
  abbrev pub token_claims : Uuid → String → Time → Time → TokenClaims
  token_claims user_id email now expiry = record {
    expires_at = jwt.numeric_date (now + expiry);
    issued_at = jwt.numeric_date now;
    user_id = jwt.uuid_string user_id;
    email = email;
  }

  -- At the time `now`; `none` is an error.
  unfoldable pub generate_token : Uuid → String → String → Time → Time → Option String
  generate_token user_id email secret expiry now =
      jwt.signed_string (token_claims user_id email now expiry) secret

  abbrev pub claims_of : String → Option Uuid → Option Claims
  claims_of email none = none
  claims_of email (some user_id) = some (record { user_id = user_id; email = email })

  abbrev pub read_claims : Option TokenClaims → Option Claims
  read_claims none = none
  read_claims (some tc) = claims_of tc.email (jwt.parse_uuid tc.user_id)

  unfoldable pub validate_token : String → String → Time → Option Claims
  validate_token token secret now = read_claims (jwt.parse_with_claims token secret now)
