-- ===== src/Handler/Login/Laws.antt =====
-- internal/handler/auth.go: who gets a token.
use grey_backend_assessment.Prelude.{
  ◌≡◌, refl, ◌+◌, ◌⊎◌, inl, inr, String, Bool, true, false, Option, none, some, [], find, str_eq,
  Bool-cases, Option-cases,
}
use grey_backend_assessment.Domain.{User, not_found, driver_error}
use grey_backend_assessment.Session.{
  World, Result, ok, err, now, pure, attempt, settle, ◌>>=◌, query, gets, driver_call, or_not_found,
}
use grey_backend_assessment.Repository.Users.{get_by_email}
use grey_backend_assessment.Auth.{generate_token}
use grey_backend_assessment.Handler.{AppError, invalid_credentials}
use grey_backend_assessment.Handler.Http.{
  Request, Response, HttpCodec, Payload, no_payload, login_payload, decode_body, respond_app_error,
  respond_domain_error, respond_success, refuse, with_body, if_valid,
}
use grey_backend_assessment.Handler.Http.Laws.{with_body-elim, if_valid-elim}
use grey_backend_assessment.Handler.User.{user_dto}
use grey_backend_assessment.Handler.Login.{
  AuthHandler, LoginRequest, validate_login, respond_token, respond_user, login,
}

module _ {D : Type 0} (codec : HttpCodec D) (h : AuthHandler)
    (decode : String → Option LoginRequest) (r : Request) (w : World D) where
  -- The user that the request names by email.
  abbrev pub user_named : String → Option User
  user_named email = find (λ u. str_eq u.email email) w.db.users

  -- The body decodes to a request with no wrong field, the password fits the stored hash of the user
  -- with that email, and the answer has a token that was made for that user.
  pub record Issues (x : Result Response × World D) : Type 0 where
    pub req : LoginRequest
    pub user : User
    pub token : String
    pub decoded : decode_body decode r.body ≡ some req
    pub valid : validate_login req ≡ []
    pub found : user_named req.email ≡ some user
    pub fits : h.compare_hash_and_password user.password_hash req.password ≡ true
    pub made :
        generate_token h.jwt user.id user.email h.jwt_secret h.jwt_expiry
          (w.env.time_at (w.tick + 1))
        ≡ some token
    pub answered :
        x.0
        ≡ ok (
            respond_success codec 200
              (login_payload (record { token = token; user = user_dto user })))

  -- An answer that is an error.
  abbrev pub Refuses : Result Response × World D → Type 0
  Refuses x =
      (e : AppError) × (details : Payload D) × (x.0 ≡ ok (respond_app_error codec e details))

  Outcome : Result Response × World D → Type 0
  Outcome x = (x.1.db ≡ w.db) × (Refuses x ⊎ Issues x)

  abbrev looked_up : Bool → Option User → Result User
  looked_up true found = err driver_error
  looked_up false none = err not_found
  looked_up false (some u) = ok u

  attempt-get_by_email :
      (email : String)
      → attempt (get_by_email email) w
        ≡ (ok (looked_up (w.env.fails w.tick) (user_named email)), record w { tick = w.tick + 1 })
  unfolding attempt settle get_by_email query gets driver_call or_not_found ◌>>=◌
  attempt-get_by_email email = elim (Bool-cases (w.env.fails w.tick)) [
    | inl f ↦ rw f refl
    | inr f ↦ elim (Option-cases (user_named email)) [
      | inl e ↦ rw (f, e) refl
      | inr (u, e) ↦ rw (f, e) refl
    ]
  ]

  respond_user-Outcome :
      (req : LoginRequest)
      → decode_body decode r.body ≡ some req
      → validate_login req ≡ []
      → Outcome ((attempt (get_by_email req.email) >>= respond_user codec h req.password) w)
  unfolding Outcome respond_user respond_token refuse respond_domain_error pure now ◌>>=◌
  respond_user-Outcome req d v =
      rw (attempt-get_by_email req.email) (elim (Bool-cases (w.env.fails w.tick)) [
        | inl f ↦ rw f (refl, inl (_, _, refl))
        | inr f ↦ elim (Option-cases (user_named req.email)) [
          | inl e ↦ rw (f, e) (refl, inl (_, _, refl))
          | inr (u, e) ↦
              elim (Bool-cases (h.compare_hash_and_password u.password_hash req.password)) [
                | inr wrong ↦ rw (f, e, wrong) (refl, inl (_, _, refl))
                | inl right ↦
                    elim (Option-cases (
                      generate_token h.jwt u.id u.email h.jwt_secret h.jwt_expiry
                        (w.env.time_at (w.tick + 1)))) [
                          | inl no_token ↦ rw (f, e, right, no_token) (refl, inl (_, _, refl))
                          | inr (token, made) ↦
                              rw (f, e, right, made)
                                (
                                  refl,
                                  inr (record {
                                    req = req;
                                    user = u;
                                    token = token;
                                    decoded = d;
                                    valid = v;
                                    found = e;
                                    fits = right;
                                    made = made;
                                    answered = refl;
                                  }),
                                )
                        ]
              ]
        ]
      ])

  -- A login changes no table, and either it is refused or the password fits the stored hash of the
  -- user with that email, and the answer has a token that was made for that user.
  pub login-Issues :
      ((login codec h decode r w).1.db ≡ w.db)
      × (Refuses (login codec h decode r w) ⊎ Issues (login codec h decode r w))
  unfolding login Outcome
  login-Issues =
      with_body-elim codec w Outcome (λ e details. (refl, inl (e, details, refl)))
        (decode_body decode r.body) _
        λ req d.
          if_valid-elim codec w Outcome (λ e details. (refl, inl (e, details, refl)))
            (validate_login req) _ λ v. respond_user-Outcome req d v

  -- An email that nobody has and a password that does not fit are answered alike, as invalid
  -- credentials, where the lookup does not fail.
  pub login_rejected :
      (req : LoginRequest)
      → decode_body decode r.body ≡ some req
      → validate_login req ≡ []
      → w.env.fails w.tick ≡ false
      → (user_named req.email ≡ none)
        ⊎ ((u : User) × (user_named req.email ≡ some u)
            × (h.compare_hash_and_password u.password_hash req.password ≡ false))
      → (login codec h decode r w).0 ≡ ok (respond_app_error codec invalid_credentials no_payload)
  unfolding login with_body if_valid respond_user refuse pure ◌>>=◌
  login_rejected req d v f (inl nobody) =
      rw (d, v) (rw (attempt-get_by_email req.email) (rw (f, nobody) refl))
  login_rejected req d v f (inr (u, found, wrong)) =
      rw (d, v) (rw (attempt-get_by_email req.email) (rw (f, found, wrong) refl))
