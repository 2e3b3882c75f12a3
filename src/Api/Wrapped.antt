-- ===== src/Api/Wrapped.antt =====
-- cmd/api/main.go: behind the middleware, a handler that returns still returns.
use grey_backend_assessment.Prelude.{refl, String, Option, none, some, str_eq, Bool-cases, inl, inr}
use grey_backend_assessment.Domain.{Uuid}
use grey_backend_assessment.Session.{Result, ok, err, Session, IdempotencyCacheEntry}
use grey_backend_assessment.Session.Atomic.{Total, Total-pure}
use grey_backend_assessment.Session.Panics.{
  NeverPanics-bind, NeverPanics-now, NeverPanics-statement, NeverPanics-query, Total-attempt,
  Total-bind, Total-now,
}
use grey_backend_assessment.Repository.Idempotency
use grey_backend_assessment.Handler.Http.{Request, Response}
use grey_backend_assessment.Handler.Http.Answers.{Total-refuse}
use grey_backend_assessment.Middleware.Auth.{serve_claims, serve_token, auth}
use grey_backend_assessment.Auth.{Claims}
use grey_backend_assessment.Middleware.Idempotency.{
  is_safe_method, store_answer, run_and_store, with_cached, with_read_body, with_key_user,
  idempotency,
}
use grey_backend_assessment.Api.{Server, with_auth}

module _ {D : Type 0} (s : Server D) (next : Request → Session D Response)
    (t : (r : Request) → Total (next r)) where
  Total-serve_claims :
      (r : Request) (claims : Option Claims)
      → Total (serve_claims s.codec s.jwt s.jwt_secret next r claims)
  unfolding serve_claims
  Total-serve_claims r none = Total-refuse s.codec _
  Total-serve_claims r (some claims) = t _

  Total-serve_token :
      (r : Request) (token : Option String)
      → Total (serve_token s.codec s.jwt s.jwt_secret next r token)
  unfolding serve_token
  Total-serve_token r none = Total-refuse s.codec _
  Total-serve_token r (some token) = elim (Bool-cases (str_eq token "")) [
    | inl nothing ↦ rw nothing (Total-refuse s.codec _)
    | inr given ↦ rw given (Total-bind Total-now λ at. Total-serve_claims r _)
  ]

  pub Total-with_auth : (r : Request) → Total (with_auth s next r)
  unfolding with_auth auth
  Total-with_auth r = elim (Bool-cases (str_eq (r.header "Authorization") "")) [
    | inl nothing ↦ rw nothing (Total-refuse s.codec _)
    | inr given ↦ rw given (Total-serve_token r _)
  ]

  Total-store_answer :
      (key : String) (user_id : Uuid) (hash : String) (response : Response)
      → Total (store_answer {D = D} key user_id hash response)
  unfolding store_answer Idempotency.set Idempotency.insert_entry
  Total-store_answer key user_id hash response = Total-bind Total-now λ created.
      Total-bind Total-now λ expires.
        Total-bind (Total-attempt (NeverPanics-statement _ λ db. refl)) λ _. Total-pure response

  Total-with_cached :
      (r : Request) (key : String) (user_id : Uuid) (hash : String)
      (cached : Result (Option IdempotencyCacheEntry))
      → Total (with_cached s.codec s.sha256 next r key user_id hash cached)
  unfolding with_cached run_and_store
  Total-with_cached r key user_id hash (err e) = Total-refuse s.codec _
  Total-with_cached r key user_id hash (ok none) =
      Total-bind (t r) λ response. Total-store_answer _ _ _ response
  Total-with_cached r key user_id hash (ok (some e)) =
      elim (Bool-cases (str_eq e.request_hash hash)) [
        | inl same ↦ rw same (Total-pure _)
        | inr other ↦ rw other (Total-refuse s.codec _)
      ]

  Total-with_read_body :
      (r : Request) (key : String) (user_id : Uuid) (body : Option String)
      → Total (with_read_body s.codec s.sha256 next r key user_id body)
  unfolding with_read_body Idempotency.get
  Total-with_read_body r key user_id none = Total-refuse s.codec _
  Total-with_read_body r key user_id (some body) =
      Total-bind (Total-attempt (NeverPanics-bind NeverPanics-now λ t. NeverPanics-query _))
        λ cached. Total-with_cached r key user_id _ cached

  Total-with_key_user :
      (r : Request) (key : String) (user : Option Uuid)
      → Total (with_key_user s.codec s.sha256 next r key user)
  unfolding with_key_user
  Total-with_key_user r key none = Total-refuse s.codec _
  Total-with_key_user r key (some user_id) = Total-with_read_body r key user_id _

  pub Total-idempotency : (r : Request) → Total (idempotency s.codec s.sha256 next r)
  unfolding idempotency
  Total-idempotency r = elim (Bool-cases (is_safe_method r.method)) [
    | inl safe ↦ rw safe (t r)
    | inr unsafe ↦ rw unsafe (elim (Bool-cases (str_eq (r.header "Idempotency-Key") "")) [
      | inl nothing ↦ rw nothing (Total-refuse s.codec _)
      | inr given ↦ rw given (Total-with_key_user r _ _)
    ])
  ]
