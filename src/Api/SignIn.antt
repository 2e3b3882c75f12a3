-- ===== src/Api/SignIn.antt =====
-- cmd/api/main.go: who has logged in is let in.
use Prim.Native.String.{◌++◌}
use grey_backend_assessment.Prelude.{◌≡◌, ◌+◌, ◌<◌, false, str_eq}
use grey_backend_assessment.Session.{World, Session}
use grey_backend_assessment.Auth.Laws.{ReadsBack, validate_token-generate_token}
use grey_backend_assessment.Handler.Http.{Request, Response}
use grey_backend_assessment.Handler.Login.{login}
use grey_backend_assessment.Handler.Login.Laws.{Issues}
use grey_backend_assessment.Middleware.Auth.{with_user_id}
use grey_backend_assessment.Middleware.Auth.Laws.{auth_pass}
use grey_backend_assessment.Api.{Server, login_handler, with_auth}

module _ {D : Type 0} (s : Server D) (reads_back : ReadsBack s.jwt) (r : Request) (w : World D)
    (issued : Issues s.codec
      (login_handler s)
      s.login_decoder
      r
      w
      (login s.codec (login_handler s) s.login_decoder r w)) where
  -- Where a login has issued a token, a later request that bears it gets through to its handler, with
  -- the user who logged in, until 24 hours after the login. Signing and reading tokens are supposed to
  -- fit each other.
  pub with_auth-login :
      (next : Request → Session D Response) (q : Request) (v : World D)
      → q.header "Authorization" ≡ "Bearer " ++ issued.token
      → str_eq issued.token "" ≡ false
      → v.env.time_at v.tick
        < s.jwt.numeric_date (w.env.time_at (w.tick + 1) + (login_handler s).jwt_expiry)
      → with_auth s next q v ≡ next (with_user_id q issued.user.id) v
  unfolding with_auth
  with_auth-login next q v bears given early =
      auth_pass s.codec s.jwt s.jwt_secret next q v issued.token
        (record { user_id = issued.user.id; email = issued.user.email }) bears given
        (validate_token-generate_token s.jwt reads_back issued.user.id issued.user.email
          s.jwt_secret issued.token (login_handler s).jwt_expiry (w.env.time_at (w.tick + 1))
          (v.env.time_at v.tick) issued.made early)
