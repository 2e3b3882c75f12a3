-- ===== src/Api/Reused.antt =====
-- cmd/api/main.go: a key that comes again with another request.
use Prim.Native.String.{◌++◌}
use grey_backend_assessment.Prelude.{
  ◌≡◌, ◌∙◌, refl, sym, ◌+◌, String, true, false, some, any, str_eq,
}
use grey_backend_assessment.Session.{World, IdempotencyCacheEntry, ok, Session}
use grey_backend_assessment.Repository.Idempotency.{has_key}
use grey_backend_assessment.Auth.{Claims}
use grey_backend_assessment.Handler.{app_error}
use grey_backend_assessment.Handler.Http.{Request, Response, no_payload, respond_app_error}
use grey_backend_assessment.Handler.Payment.Laws.{create-cache, create_external-cache}
use grey_backend_assessment.Middleware.Auth.{with_user_id}
use grey_backend_assessment.Middleware.Idempotency.{compute_hash, idempotency}
use grey_backend_assessment.Middleware.Idempotency.Laws.{
  IsKeyed, live_entry, idempotency_cached, idempotency-hash,
}
use grey_backend_assessment.Api.{
  Server, with_auth, create_payment, create_external_payment, serve_endpoint,
}
use grey_backend_assessment.Api.Routes.{Endpoint, make_payment, make_payout}
use grey_backend_assessment.Api.Laws.{makes_payment, Bears, HasKey, with_auth_pass}

-- As the middleware sees a request that has passed the authentication.
passed-IsKeyed :
    {D : Type 0} (s : Server D) (r : Request) (key body : String) (claims : Claims)
    → HasKey s r key body
    → IsKeyed (with_user_id r claims.user_id) key claims.user_id body
passed-IsKeyed s r key body claims keyed = record {
  unsafe = keyed.unsafe;
  key_eq = keyed.key_eq;
  key_given = keyed.key_given;
  user_eq = refl;
  body_eq = keyed.body_eq;
}

module _ {D : Type 0} (s : Server D) (r q : Request) (token1 token2 key body1 body2 : String)
    (claims : Claims) (keyed1 : HasKey s r key body1) (keyed2 : HasKey s q key body2)
    (w w1 w2 : World D) (response : Response) (found : IdempotencyCacheEntry)
    (bears1 : Bears s r token1 claims (w.env.time_at w.tick))
    (bears2 : Bears s q token2 claims (w2.env.time_at w2.tick))
    (absent : any (has_key key claims.user_id) w.db.idempotency_cache ≡ false)
    (answers : w2.env.fails w2.tick ≡ false)
    (kept : live_entry key claims.user_id (w2.env.time_at w2.tick) w1.db.idempotency_cache
      ≡ some found)
    (live_still : live_entry key claims.user_id (w2.env.time_at w2.tick) w2.db.idempotency_cache
      ≡ some found)
    (differ : str_eq
        (s.sha256 (r.method ++ (r.path ++ body1)))
        (s.sha256 (q.method ++ (q.path ++ body2)))
      ≡ false) where
  abbrev conflict : Response
  conflict =
      respond_app_error s.codec
        (app_error 409 "IDEMPOTENCY_CONFLICT"
          "Idempotency key already used with a different request")
        no_payload

  reused :
      (next1 next2 : Request → Session D Response)
      → ((p : Request) (v : World D) → (next1 p v).1.db.idempotency_cache ≡ v.db.idempotency_cache)
      → with_auth s (idempotency s.codec s.sha256 next1) r w ≡ (ok response, w1)
      → with_auth s (idempotency s.codec s.sha256 next2) q w2
        ≡ (ok conflict, record w2 { tick = w2.tick + 1 })
  unfolding compute_hash
  reused next1 next2 keeps first =
      let hash =
        idempotency-hash s.codec s.sha256 next1 (with_user_id r claims.user_id) key claims.user_id
          body1 (passed-IsKeyed s r key body1 claims keyed1) (keeps _) w w1 response found _ absent
          (sym (with_auth_pass s r _ w token1 claims bears1) ∙ first) kept in
      with_auth_pass s q _ w2 token2 claims bears2
      ∙ idempotency_cached s.codec s.sha256 next2 (with_user_id q claims.user_id) key claims.user_id
          body2 (passed-IsKeyed s q key body2 claims keyed2) w2 found answers live_still
      ∙ rw (hash, differ) refl

  second :
      (next1 : Request → Session D Response)
      → ((p : Request) (v : World D) → (next1 p v).1.db.idempotency_cache ≡ v.db.idempotency_cache)
      → with_auth s (idempotency s.codec s.sha256 next1) r w ≡ (ok response, w1)
      → (e2 : Endpoint) → makes_payment e2 ≡ true
      → serve_endpoint s e2 q w2 ≡ (ok conflict, record w2 { tick = w2.tick + 1 })
  unfolding serve_endpoint
  second next1 keeps first make_payment h = reused next1 (create_payment s) keeps first
  second next1 keeps first make_payout h = reused next1 (create_external_payment s) keeps first
  second next1 keeps first _ h = cc

  -- Where a request for a transfer or a payout has been answered, and another such request comes from
  -- the same user with the same key while the row of the key is live, it is refused with 409 as a
  -- conflict, no table is changed, and the provider is not asked. The two differ in the hash of method,
  -- path and body, the key had no row before the first, and the lookup does not fail.
  pub serve_endpoint_reused :
      (e1 e2 : Endpoint)
      → makes_payment e1 ≡ true
      → makes_payment e2 ≡ true
      → serve_endpoint s e1 r w ≡ (ok response, w1)
      → serve_endpoint s e2 q w2 ≡ (ok conflict, record w2 { tick = w2.tick + 1 })
  unfolding serve_endpoint create_payment create_external_payment
  serve_endpoint_reused make_payment e2 h k first =
      second (create_payment s) (λ p v. create-cache s.codec s.payments s.payment_decoder p v) first
        e2 k
  serve_endpoint_reused make_payout e2 h k first =
      second (create_external_payment s)
        (λ p v. create_external-cache s.codec s.payments s.payment_decoder p v) first e2 k
  serve_endpoint_reused _ e2 h k first = cc
