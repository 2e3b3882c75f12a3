-- ===== src/Handler/Http/Laws.antt =====
-- internal/handler/response.go: the shared steps of a handler, one rule for each.
use grey_backend_assessment.Prelude.{
  ◌≡◌, refl, ◌⊎◌, inl, inr, Option, none, some, List, [], ◌∷◌, Bool-cases,
}
use grey_backend_assessment.Domain.{Uuid, Error}
use grey_backend_assessment.Session.{
  World, Result, ok, err, Session, pure, continue, ◌>>=◌, is_panic, settle, attempt,
}
use grey_backend_assessment.Handler.{AppError, app_error_of}
use grey_backend_assessment.Handler.Http.{
  Response, FieldError, Payload, no_payload, HttpCodec, respond_app_error, respond_validation_error,
  respond_domain_error, refuse, with_user, with_body, if_valid, response_of, respond_with,
}

-- `Q` holds of what a handler does, where it holds of every refusal that leaves the world alone.
module _ {D : Type 0} (codec : HttpCodec D) (w : World D) (Q : Result Response × World D → Type 0)
    (answers : (e : AppError) (details : Payload D)
      → Q (ok (respond_app_error codec e details), w)) where
  pub with_user-elim :
      (o : Option Uuid) (k : Uuid → Session D Response)
      → ((user_id : Uuid) → o ≡ some user_id → Q (k user_id w))
      → Q (with_user codec o k w)
  unfolding with_user refuse pure
  with_user-elim none k h = answers _ _
  with_user-elim (some user_id) k h = h user_id refl

  pub with_body-elim :
      {X : Type 0} (o : Option X) (k : X → Session D Response)
      → ((req : X) → o ≡ some req → Q (k req w))
      → Q (with_body codec o k w)
  unfolding with_body refuse pure
  with_body-elim none k h = answers _ _
  with_body-elim (some req) k h = h req refl

  pub if_valid-elim :
      (fields : List FieldError) (k : Session D Response)
      → (fields ≡ [] → Q (k w))
      → Q (if_valid codec fields k w)
  unfolding if_valid respond_validation_error pure
  if_valid-elim [] k h = h refl
  if_valid-elim (f ∷ fields) k h = answers _ _

module _ {D A : Type 0} (codec : HttpCodec D) (respond : A → Response) where
  -- The answer to what a service has ended with.
  abbrev respond_after : Result A × World D → Result Response × World D
  respond_after (r, w) =
      let (r', w') = settle r w in continue r' (λ a. pure (response_of codec respond a)) w'

  respond_after-db : (e : Error) (w : World D) → (respond_after (err e, w)).1.db ≡ w.db
  unfolding settle pure
  respond_after-db e w = elim (Bool-cases (is_panic e)) [ inl h ↦ rw h refl | inr h ↦ rw h refl ]

  respond_after-cases :
      (m : Session D A) (w : World D)
      → ((e : Error) (w' : World D) → m w ≡ (err e, w') → w'.db ≡ w.db)
      → (x : Result A × World D) → m w ≡ x
      → ((respond_after x).1.db ≡ w.db)
        ⊎ ((a : A) × (m w ≡ (ok a, (respond_after x).1)) × ((respond_after x).0 ≡ ok (respond a)))
  unfolding settle pure
  respond_after-cases m w atomic (ok a, w') e = inr (a, e, refl)
  respond_after-cases m w atomic (err e, w') h = inl (rw (respond_after-db e w') (atomic e w' h))

  -- A service that changes nothing where it fails: either no table is changed, or it has returned and
  -- its result is what is answered.
  pub respond_with-cases :
      (m : Session D A) (w : World D)
      → ((e : Error) (w' : World D) → m w ≡ (err e, w') → w'.db ≡ w.db)
      → ((respond_with codec m respond w).1.db ≡ w.db)
        ⊎ ((a : A) × (m w ≡ (ok a, (respond_with codec m respond w).1))
            × ((respond_with codec m respond w).0 ≡ ok (respond a)))
  unfolding respond_with attempt ◌>>=◌
  respond_with-cases m w atomic = respond_after-cases m w atomic (m w) refl

  respond_after-world : (x : Result A × World D) → (respond_after x).1 ≡ x.1
  unfolding settle pure
  respond_after-world (ok a, w) = refl
  respond_after-world (err e, w) = elim (Bool-cases (is_panic e)) [
    | inl h ↦ rw h refl
    | inr h ↦ rw h refl
  ]

  -- Answering is no step of its own.
  pub respond_with-world :
      (m : Session D A) (w : World D) → (respond_with codec m respond w).1 ≡ (m w).1
  unfolding respond_with attempt ◌>>=◌
  respond_with-world m w = respond_after-world (m w)

-- No data is answered: the answer is an error, or the handler has panicked.
abbrev pub Fails : {D : Type 0} → HttpCodec D → Result Response × World D → Type 0
Fails {D} codec x =
    ((e : AppError) × (details : Payload D) × (x.0 ≡ ok (respond_app_error codec e details)))
    ⊎ ((e : Error) × (x.0 ≡ err e))

module _ {D A : Type 0} (codec : HttpCodec D) (respond : A → Response) where
  respond_after-answers :
      (m : Session D A) (w : World D) (x : Result A × World D)
      → m w ≡ x
      → Fails codec (respond_after codec respond x)
        ⊎ ((a : A) × (m w ≡ (ok a, x.1)) × ((respond_after codec respond x).0 ≡ ok (respond a)))
  unfolding settle pure respond_domain_error
  respond_after-answers m w (ok a, w') h = inr (a, h, refl)
  respond_after-answers m w (err e, w') h = elim (Bool-cases (is_panic e)) [
    | inl p ↦ inl (inr (e, rw p refl))
    | inr p ↦ inl (inl (app_error_of e, no_payload, rw p refl))
  ]

  -- A service has returned and its result is what is answered, or no data is.
  pub respond_with-answers :
      (m : Session D A) (w : World D)
      → Fails codec (respond_with codec m respond w)
        ⊎ ((a : A) × (m w ≡ (ok a, (m w).1))
            × ((respond_with codec m respond w).0 ≡ ok (respond a)))
  unfolding respond_with attempt ◌>>=◌
  respond_with-answers m w = respond_after-answers m w (m w) refl
