-- ===== src/Middleware/Auth.antt =====
-- internal/middleware/auth.go: a request gets the user that its token names.
pub mod Laws
use Prim.Native.Char.{code}
use grey_backend_assessment.Prelude.{
  String, Bool, ◌||◌, not, Option, none, some, ◌==◌, if◌then◌else◌, str_eq,
}
use grey_backend_assessment.Domain.{Uuid}
use grey_backend_assessment.Session.{Session, now, ◌>>=◌}
use grey_backend_assessment.Auth.{Claims, Jwt, validate_token}
use grey_backend_assessment.Handler.{missing_token, invalid_token}
use grey_backend_assessment.Handler.Http.{Request, Response, HttpCodec, refuse}

-- strings.CutPrefix(s, prefix), where s begins with the prefix
unfoldable pub cut_prefix : String → String → Option String
cut_prefix s String.[] = some s
cut_prefix String.[] (String.◌∷◌ p prefix) = none
cut_prefix (String.◌∷◌ c s) (String.◌∷◌ p prefix) =
    let rest = cut_prefix s prefix in if code c == code p then rest else none

-- auth.ContextWithUserID
abbrev pub with_user_id : Request → Uuid → Request
with_user_id r user_id = record r { user_id = some user_id }

module _ {D : Type 0} (codec : HttpCodec D) (jwt : Jwt) (secret : String)
    (next : Request → Session D Response) where
  unfoldable pub serve_claims : Request → Option Claims → Session D Response
  serve_claims r none = refuse codec invalid_token
  serve_claims r (some claims) = next (with_user_id r claims.user_id)

  unfoldable pub serve_token : Request → Option String → Session D Response
  serve_token r none = refuse codec invalid_token
  serve_token r (some token) =
      if str_eq token ""
      then refuse codec invalid_token
      else now >>= λ at. serve_claims r (validate_token jwt token secret at)

  unfoldable pub auth : Request → Session D Response
  auth r =
      let header = r.header "Authorization" in
      if str_eq header ""
      then refuse codec missing_token
      else serve_token r (cut_prefix header "Bearer ")
