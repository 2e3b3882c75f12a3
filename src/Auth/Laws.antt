-- ===== src/Auth/Laws.antt =====
-- internal/auth/jwt.go: a token is read back as the claims that it was made from.
use grey_backend_assessment.Prelude.{◌≡◌, refl, String, some, ◌+◌, ◌<◌}
use grey_backend_assessment.Domain.{Uuid, Time}
use grey_backend_assessment.Auth.{Jwt, TokenClaims, token_claims, generate_token, validate_token}

-- What the program relies on of the libraries: a token that was signed with a secret is read with it
-- until it expires, and the text of an identifier is parsed as that identifier.
pub record ReadsBack (jwt : Jwt) : Type 0 where
  pub signed :
      (claims : TokenClaims) (secret token : String) (at : Time)
      → jwt.signed_string claims secret ≡ some token
      → at < claims.expires_at
      → jwt.parse_with_claims token secret at ≡ some claims
  pub uuid : (id : Uuid) → jwt.parse_uuid (jwt.uuid_string id) ≡ some id

-- Until it expires, a token that was generated is valid, and names the user that it was made for.
pub validate_token-generate_token :
    (jwt : Jwt) (reads_back : ReadsBack jwt) (user_id : Uuid) (email secret token : String)
    (expiry now at : Time)
    → generate_token jwt user_id email secret expiry now ≡ some token
    → at < jwt.numeric_date (now + expiry)
    → validate_token jwt token secret at ≡ some (record { user_id = user_id; email = email })
unfolding generate_token validate_token
validate_token-generate_token jwt reads_back user_id email secret token expiry now at made early =
    rw
      (
        reads_back.signed (token_claims jwt user_id email now expiry) secret token at made early,
        reads_back.uuid user_id,
      )
      refl
