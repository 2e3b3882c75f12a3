-- ===== src/Api/Answers.antt =====
-- cmd/api/main.go: every request is answered by its handler.
use grey_backend_assessment.Prelude.{
  ◌≡◌, ◌∙◌, refl, ◌+◌, String, if◌then◌else◌, str_eq, Bool-cases, inl, inr,
}
use grey_backend_assessment.Session.{World, ok, pure, new_uuid, caught, ◌>>=◌}
use grey_backend_assessment.Session.Atomic.{Total, Total-pure}
use grey_backend_assessment.Session.Panics.{
  NeverPanics-driver_call, Total-attempt, Total-bind, Total-now,
}
use grey_backend_assessment.Handler.Http.{Request, Response}
use grey_backend_assessment.Handler.Health.{liveness, readiness}
use grey_backend_assessment.Api.{Server, serve_endpoint, serve_target, serve_mux}
use grey_backend_assessment.Api.Routes.{
  Endpoint, docs, spec, live, ready, sign_in, show_user, open_account, list_accounts, make_payment,
  make_payout, show_payment, show_rate, take_webhook, Target, target, no_route, wrong_method,
}
use grey_backend_assessment.Api.Handlers.{
  IsCalmServer, Total-login, Total-create, Total-create_external, Total-get, Total-open, Total-list,
  Total-show_user, Total-get_rate, Total-receive,
}
use grey_backend_assessment.Api.Wrapped.{Total-with_auth, Total-idempotency}
use grey_backend_assessment.Middleware.Stack.{
  with_header, recovered, recovery, trace_id, tracing, secure_headers,
}
use grey_backend_assessment.Api.{serve}

module _ {D : Type 0} (s : Server D) (calm : IsCalmServer s) where
  Total-liveness : Total {D = D} (liveness s.encode_health s.rfc3339)
  unfolding liveness
  Total-liveness = Total-bind Total-now λ at. Total-pure _

  Total-readiness : Total {D = D} (readiness s.encode_health s.rfc3339)
  unfolding readiness
  Total-readiness =
      Total-bind (Total-attempt NeverPanics-driver_call)
        λ ping. Total-bind Total-now λ at. Total-pure _

  Total-serve_endpoint : (e : Endpoint) (r : Request) → Total (serve_endpoint s e r)
  unfolding serve_endpoint
  Total-serve_endpoint docs r = Total-pure _
  Total-serve_endpoint spec r = Total-pure _
  Total-serve_endpoint live r = Total-liveness
  Total-serve_endpoint ready r = Total-readiness
  Total-serve_endpoint sign_in r = Total-login s calm r
  Total-serve_endpoint show_user r = Total-with_auth s _ (Total-show_user s calm) r
  Total-serve_endpoint open_account r = Total-with_auth s _ (Total-open s calm) r
  Total-serve_endpoint list_accounts r = Total-with_auth s _ (Total-list s calm) r
  Total-serve_endpoint make_payment r =
      Total-with_auth s _ (Total-idempotency s _ (Total-create s calm)) r
  Total-serve_endpoint make_payout r =
      Total-with_auth s _ (Total-idempotency s _ (Total-create_external s calm)) r
  Total-serve_endpoint show_payment r = Total-with_auth s _ (Total-get s calm) r
  Total-serve_endpoint show_rate r = Total-with_auth s _ (Total-get_rate s calm) r
  Total-serve_endpoint take_webhook r = Total-receive s calm r

  Total-serve_target : (t : Target) (r : Request) → Total (serve_target s t r)
  unfolding serve_target
  Total-serve_target (target e id) r = Total-serve_endpoint e _
  Total-serve_target no_route r = Total-pure _
  Total-serve_target wrong_method r = Total-pure _

  Total-serve_mux : (r : Request) → Total (serve_mux s r)
  unfolding serve_mux
  Total-serve_mux r = Total-serve_target _ r

  -- The identifier of a request: the client's, or one that is drawn.
  abbrev pub request_id : Request → World D → String
  request_id r w =
      if str_eq (r.header "X-Request-ID") ""
      then s.codec.uuid_string (w.env.uuids w.drawn)
      else r.header "X-Request-ID"

  -- The world in which the handler starts.
  abbrev pub traced : Request → World D → World D
  traced r w = if str_eq (r.header "X-Request-ID") "" then record w { drawn = w.drawn + 1 } else w

  serve_from :
      (r : Request) (w : World D)
      → serve s r w ≡ (
        ok (
            with_header "X-Content-Type-Options" "nosniff" (
              with_header "X-Frame-Options" "DENY" (
                with_header "X-Request-ID"
                  (request_id r w)
                  (recovered s.codec (serve_mux s r (traced r w)).0)))),
        (serve_mux s r (traced r w)).1,
      )
  unfolding serve secure_headers tracing trace_id recovery caught new_uuid pure ◌>>=◌
  serve_from r w = elim (Bool-cases (str_eq (r.header "X-Request-ID") "")) [
    | inl none_given ↦ rw none_given refl
    | inr given ↦ rw given refl
  ]

  -- Whatever fails, no request makes a handler panic: the handler that the request is routed to returns
  -- a response, and this is what is sent, with the two headers and the identifier of the request, which
  -- is the client's or, where there is none, one that is drawn. The conversion and the draw of an
  -- account number give their errors as errors.
  pub serve_answers :
      (r : Request) (w : World D)
      → (response : Response) × ((serve_mux s r (traced r w)).0 ≡ ok response)
        × (serve s r w ≡ (
          ok (
              with_header "X-Content-Type-Options" "nosniff" (
                with_header "X-Frame-Options" "DENY"
                  (with_header "X-Request-ID" (request_id r w) response))),
          (serve_mux s r (traced r w)).1,
        ))
  serve_answers r w =
      let (response, returned) = (Total-serve_mux r).at (traced r w) in
      (response, returned, serve_from r w ∙ rw returned refl)
