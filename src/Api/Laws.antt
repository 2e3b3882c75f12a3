-- ===== src/Api/Laws.antt =====
-- cmd/api/main.go: what the handlers promise together.
use Prim.Native.String.{◌++◌}
use grey_backend_assessment.Prelude.{
  ◌≡◌, ◌∙◌, refl, sym, ◌+◌, ◌⊎◌, inl, inr, String, Bool, true, false, some, str_eq, any,
}
use grey_backend_assessment.Domain.{Time}
use grey_backend_assessment.Session.{World, IdempotencyCacheEntry, ok, Session}
use grey_backend_assessment.Repository.Idempotency.{has_key}
use grey_backend_assessment.Auth.{Claims, validate_token}
use grey_backend_assessment.Handler.{missing_token, invalid_token}
use grey_backend_assessment.Handler.Http.{Request, Response}
use grey_backend_assessment.Handler.Payment.Laws.{create-cache, create_external-cache}
use grey_backend_assessment.Middleware.Auth.{with_user_id}
use grey_backend_assessment.Middleware.Auth.Laws.{auth-Passes, auth_pass, turned_away}
use grey_backend_assessment.Middleware.Idempotency.{is_safe_method, idempotency}
use grey_backend_assessment.Middleware.Idempotency.Laws.{live_entry, repeated, idempotency_twice}
use grey_backend_assessment.Api.{
  Server, with_auth, create_payment, create_external_payment, serve_endpoint,
}
use grey_backend_assessment.Api.Routes.{
  Endpoint, docs, spec, live, ready, sign_in, show_user, open_account, list_accounts, make_payment,
  make_payout, show_payment, show_rate, take_webhook,
}

-- The endpoints that make payments.
abbrev pub makes_payment : Endpoint → Bool
makes_payment make_payment = true
makes_payment make_payout = true
makes_payment _ = false

-- The endpoints for users who have logged in.
abbrev pub needs_token : Endpoint → Bool
needs_token show_user = true
needs_token open_account = true
needs_token list_accounts = true
needs_token make_payment = true
needs_token make_payout = true
needs_token show_payment = true
needs_token show_rate = true
needs_token _ = false

module _ {D : Type 0} (s : Server D) (r : Request) where
  -- The request bears a token that is valid at the time, with those claims.
  pub record Bears (token : String) (claims : Claims) (at : Time) : Type 0 where
    pub header : r.header "Authorization" ≡ "Bearer " ++ token
    pub given : str_eq token "" ≡ false
    pub valid : validate_token s.jwt token s.jwt_secret at ≡ some claims

  -- The request asks for a change, under a key, and its body can be read.
  pub record HasKey (key body : String) : Type 0 where
    pub unsafe : is_safe_method r.method ≡ false
    pub key_eq : r.header "Idempotency-Key" ≡ key
    pub key_given : str_eq key "" ≡ false
    pub body_eq : r.body ≡ some body

  pub with_auth_pass :
      (next : Request → Session D Response) (w : World D) (token : String) (claims : Claims)
      → Bears token claims (w.env.time_at w.tick)
      → with_auth s next r w ≡ next (with_user_id r claims.user_id) w
  unfolding with_auth
  with_auth_pass next w token claims b =
      auth_pass s.codec s.jwt s.jwt_secret next r w token claims b.header b.given b.valid

  module _ (token key body : String) (claims : Claims) (keyed : HasKey key body) (w w1 w2 : World D)
      (response : Response) (found : IdempotencyCacheEntry)
      (bears1 : Bears token claims (w.env.time_at w.tick))
      (bears2 : Bears token claims (w2.env.time_at w2.tick))
      (absent : any (has_key key claims.user_id) w.db.idempotency_cache ≡ false)
      (answers : w2.env.fails w2.tick ≡ false)
      (kept : live_entry key claims.user_id (w2.env.time_at w2.tick) w1.db.idempotency_cache
        ≡ some found)
      (live_still : live_entry key claims.user_id (w2.env.time_at w2.tick) w2.db.idempotency_cache
        ≡ some found) where
    twice :
        (next : Request → Session D Response)
        → ((q : Request) (v : World D) → (next q v).1.db.idempotency_cache ≡ v.db.idempotency_cache)
        → with_auth s (idempotency s.codec s.sha256 next) r w ≡ (ok response, w1)
        → with_auth s (idempotency s.codec s.sha256 next) r w2
          ≡ (ok (repeated response), record w2 { tick = w2.tick + 1 })
    twice next keeps first =
        with_auth_pass _ w2 token claims bears2
        ∙ idempotency_twice s.codec s.sha256 next (with_user_id r claims.user_id) key claims.user_id
            body
            (record {
              unsafe = keyed.unsafe;
              key_eq = keyed.key_eq;
              key_given = keyed.key_given;
              user_eq = refl;
              body_eq = keyed.body_eq;
            })
            (keeps _) w w1 w2 response found absent
            (sym (with_auth_pass _ w token claims bears1) ∙ first) answers kept live_still

    -- Where a request for a transfer or a payout has been answered, and it comes again from the same
    -- user with the same key while the row of the key is live, no table is changed, the provider is
    -- not asked, and the second answer has the status and the body of the first. The key had no row
    -- before, and the lookup does not fail.
    pub serve_endpoint_twice :
        (e : Endpoint)
        → makes_payment e ≡ true
        → serve_endpoint s e r w ≡ (ok response, w1)
        → serve_endpoint s e r w2 ≡ (ok (repeated response), record w2 { tick = w2.tick + 1 })
    unfolding serve_endpoint create_payment create_external_payment
    serve_endpoint_twice make_payment h first =
        twice (create_payment s) (λ q v. create-cache s.codec s.payments s.payment_decoder q v)
          first
    serve_endpoint_twice make_payout h first =
        twice (create_external_payment s)
          (λ q v. create_external-cache s.codec s.payments s.payment_decoder q v) first
    serve_endpoint_twice _ h first = cc

  -- The request bears a token that is valid at the time.
  abbrev pub BearsValid : Time → Type 0
  BearsValid at =
      (token : String) × (claims : Claims) × (r.header "Authorization" ≡ "Bearer " ++ token)
      × (validate_token s.jwt token s.jwt_secret at ≡ some claims)

  with_auth-token :
      (next : Request → Session D Response) (w : World D)
      → (with_auth s next r w ≡ turned_away s.codec w missing_token)
        ⊎ ((with_auth s next r w ≡ turned_away s.codec w invalid_token)
            ⊎ BearsValid (w.env.time_at w.tick))
  unfolding with_auth
  with_auth-token next w = elim (auth-Passes s.codec s.jwt s.jwt_secret next r w) [
    | inl missing ↦ inl missing
    | inr (inl invalid) ↦ inr (inl invalid)
    | inr (inr passes) ↦ inr (inr (passes.token, passes.claims, passes.bearer, passes.valid))
  ]

  -- An endpoint for users who have logged in either turns a request away, as one with no token or with
  -- an invalid one, and does nothing; or the request bears a token that is valid now.
  pub serve_endpoint-token :
      (e : Endpoint) (w : World D)
      → needs_token e ≡ true
      → (serve_endpoint s e r w ≡ turned_away s.codec w missing_token)
        ⊎ ((serve_endpoint s e r w ≡ turned_away s.codec w invalid_token)
            ⊎ BearsValid (w.env.time_at w.tick))
  unfolding serve_endpoint
  serve_endpoint-token show_user w h = with_auth-token _ w
  serve_endpoint-token open_account w h = with_auth-token _ w
  serve_endpoint-token list_accounts w h = with_auth-token _ w
  serve_endpoint-token make_payment w h = with_auth-token _ w
  serve_endpoint-token make_payout w h = with_auth-token _ w
  serve_endpoint-token show_payment w h = with_auth-token _ w
  serve_endpoint-token show_rate w h = with_auth-token _ w
  serve_endpoint-token docs w h = cc
  serve_endpoint-token spec w h = cc
  serve_endpoint-token live w h = cc
  serve_endpoint-token ready w h = cc
  serve_endpoint-token sign_in w h = cc
  serve_endpoint-token take_webhook w h = cc
