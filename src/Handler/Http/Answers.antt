-- ===== src/Handler/Http/Answers.antt =====
-- internal/handler and internal/middleware: a handler returns where nothing that it calls panics.
use grey_backend_assessment.Prelude.{Option, none, some, List, [], ◌∷◌}
use grey_backend_assessment.Domain.{Uuid}
use grey_backend_assessment.Session.{Session}
use grey_backend_assessment.Session.Atomic.{Total, Total-pure}
use grey_backend_assessment.Session.Panics.{NeverPanics, Total-attempt, Total-bind}
use grey_backend_assessment.Handler.{AppError}
use grey_backend_assessment.Handler.Http.{
  Response, FieldError, HttpCodec, refuse, with_user, with_body, if_valid, respond_with,
}

module _ {D : Type 0} (codec : HttpCodec D) where
  pub Total-refuse : (e : AppError) → Total (refuse codec e)
  unfolding refuse
  Total-refuse e = Total-pure _

  pub Total-with_user :
      (o : Option Uuid) {k : Uuid → Session D Response}
      → ((user_id : Uuid) → Total (k user_id))
      → Total (with_user codec o k)
  unfolding with_user
  Total-with_user none t = Total-refuse _
  Total-with_user (some user_id) t = t user_id

  pub Total-with_body :
      {X : Type 0} (o : Option X) {k : X → Session D Response}
      → ((req : X) → Total (k req))
      → Total (with_body codec o k)
  unfolding with_body
  Total-with_body none t = Total-refuse _
  Total-with_body (some req) t = t req

  pub Total-if_valid :
      (fields : List FieldError) {k : Session D Response}
      → Total k
      → Total (if_valid codec fields k)
  unfolding if_valid
  Total-if_valid [] t = t
  Total-if_valid (f ∷ fields) t = Total-pure _

  pub Total-respond_with :
      {A : Type 0} {m : Session D A} (respond : A → Response)
      → NeverPanics m
      → Total (respond_with codec m respond)
  unfolding respond_with
  Total-respond_with respond k = Total-bind (Total-attempt k) λ r. Total-pure _
