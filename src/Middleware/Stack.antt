-- ===== src/Middleware/Stack.antt =====
-- internal/middleware/recovery.go, tracing.go and security.go: the handlers around all the routes.
use grey_backend_assessment.Prelude.{String, ◌∷◌, if◌then◌else◌, str_eq}
use grey_backend_assessment.Session.{Result, ok, err, Session, caught, new_uuid, pure, ◌>>=◌}
use grey_backend_assessment.Handler.{internal_error}
use grey_backend_assessment.Handler.Http.{
  Request, Response, HttpCodec, no_payload, respond_app_error,
}

abbrev pub with_header : String → String → Response → Response
with_header name value response = record response { headers = (name, value) ∷ response.headers }

module _ {D : Type 0} (codec : HttpCodec D) where
  abbrev pub recovered : Result Response → Response
  recovered (ok response) = response
  recovered (err e) = respond_app_error codec internal_error no_payload

  -- A panic of `next` is answered as an internal error; no handler writes before it can panic.
  unfoldable pub recovery : (Request → Session D Response) → Request → Session D Response
  recovery next r = caught (next r) >>= λ x. pure (recovered x)

  -- The identifier of the request, which the client may have chosen.
  unfoldable pub trace_id : Request → Session D String
  trace_id r =
      let given = r.header "X-Request-ID" in
      if str_eq given "" then (new_uuid >>= λ id. pure (codec.uuid_string id)) else pure given

  unfoldable pub tracing : (Request → Session D Response) → Request → Session D Response
  tracing next r = do
    id ← trace_id r
    response ← next r
    pure (with_header "X-Request-ID" id response)

  -- Every handler sets Content-Type itself, so that the one that is set here first does not last.
  unfoldable pub secure_headers : (Request → Session D Response) → Request → Session D Response
  secure_headers next r = do
    response ← next r
    pure (
        with_header "X-Content-Type-Options" "nosniff"
          (with_header "X-Frame-Options" "DENY" response))
