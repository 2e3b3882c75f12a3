-- ===== src/Handler/Payment/Laws.antt =====
-- internal/handler/payment.go: when a request makes a payment.
use grey_backend_assessment.Prelude.{◌≡◌, refl, ◌⊎◌, inl, inr, some, []}
use grey_backend_assessment.Domain.{Uuid, Payment}
use grey_backend_assessment.Session.{World, Result, ok}
use grey_backend_assessment.Payments.Service.{Service}
use grey_backend_assessment.Payments.Transfer.{create_internal_transfer}
use grey_backend_assessment.Payments.Payout.{create_external_payout}
use grey_backend_assessment.Payments.Atomic.{
  create_internal_transfer_error, create_external_payout_error,
}
use grey_backend_assessment.Handler.Http.{Request, Response, HttpCodec, decode_body}
use grey_backend_assessment.Handler.Http.Laws.{
  with_user-elim, with_body-elim, if_valid-elim, respond_with-cases, respond_with-world,
}
use grey_backend_assessment.Payments.History.{create_internal_transfer-History}
use grey_backend_assessment.Payments.History.Payouts.{create_external_payout-History}
use grey_backend_assessment.Handler.Payment.{
  CreatePaymentRequest, CreateExternalPayoutRequest, PaymentDecoder, validate_payment,
  validate_payout, transfer_request, payout_request, respond_created, respond_accepted, create,
  create_external,
}

module _ {D : Type 0} (codec : HttpCodec D) (s : Service D) (decoder : PaymentDecoder) (r : Request)
    (w : World D) where
  -- The request has a user, its body decodes to a request with no wrong field, the service has made
  -- the payment of that user, and the answer is 201 with the payment.
  pub record Creates (x : Result Response × World D) : Type 0 where
    pub user_id : Uuid
    pub req : CreatePaymentRequest
    pub payment : Payment D
    pub authenticated : r.user_id ≡ some user_id
    pub decoded : decode_body decoder.transfer r.body ≡ some req
    pub valid : validate_payment req ≡ []
    pub made :
        create_internal_transfer s (transfer_request user_id (r.header "Idempotency-Key") req) w
        ≡ (ok payment, x.1)
    pub answered : x.0 ≡ ok (respond_created codec payment)

  pub record Accepts (x : Result Response × World D) : Type 0 where
    pub user_id : Uuid
    pub req : CreateExternalPayoutRequest
    pub payment : Payment D
    pub authenticated : r.user_id ≡ some user_id
    pub decoded : decode_body decoder.payout r.body ≡ some req
    pub valid : validate_payout req ≡ []
    pub made :
        create_external_payout s (payout_request user_id (r.header "Idempotency-Key") req) w
        ≡ (ok payment, x.1)
    pub answered : x.0 ≡ ok (respond_accepted codec payment)

  -- A request for a transfer either changes no table, or it has a user, its body decodes to a request
  -- with no wrong field, the transfer of that user has been made, and the answer is 201 with it.
  pub create-Creates :
      ((create codec s decoder r w).1.db ≡ w.db) ⊎ Creates (create codec s decoder r w)
  unfolding create
  create-Creates =
      let Q : Result Response × World D → Type 0 = λ x. (x.1.db ≡ w.db) ⊎ Creates x in
      with_user-elim codec w Q (λ _ _. inl refl) r.user_id _
        λ user_id u.
          with_body-elim codec w Q (λ _ _. inl refl) (decode_body decoder.transfer r.body) _
            λ req d.
              if_valid-elim codec w Q (λ _ _. inl refl) (validate_payment req) _
                λ v.
                  elim (respond_with-cases codec (respond_created codec)
                    (create_internal_transfer s _) w
                    (λ e w' h. create_internal_transfer_error s _ w w' e h)) [
                      | inl same ↦ inl same
                      | inr (p, made, answered) ↦ inr (record {
                        user_id = user_id;
                        req = req;
                        payment = p;
                        authenticated = u;
                        decoded = d;
                        valid = v;
                        made = made;
                        answered = answered;
                      })
                    ]

  -- A request for a payout either changes no table, or it has a user, its body decodes to a request
  -- with no wrong field, the payout of that user has been made, and the answer is 202 with it.
  pub create_external-Accepts :
      ((create_external codec s decoder r w).1.db ≡ w.db)
      ⊎ Accepts (create_external codec s decoder r w)
  unfolding create_external
  create_external-Accepts =
      let Q : Result Response × World D → Type 0 = λ x. (x.1.db ≡ w.db) ⊎ Accepts x in
      with_user-elim codec w Q (λ _ _. inl refl) r.user_id _
        λ user_id u.
          with_body-elim codec w Q (λ _ _. inl refl) (decode_body decoder.payout r.body) _
            λ req d.
              if_valid-elim codec w Q (λ _ _. inl refl) (validate_payout req) _
                λ v.
                  elim (respond_with-cases codec (respond_accepted codec)
                    (create_external_payout s _) w
                    (λ e w' h. create_external_payout_error s _ w w' e h)) [
                      | inl same ↦ inl same
                      | inr (p, made, answered) ↦ inr (record {
                        user_id = user_id;
                        req = req;
                        payment = p;
                        authenticated = u;
                        decoded = d;
                        valid = v;
                        made = made;
                        answered = answered;
                      })
                    ]

  -- Whatever a request for a transfer ends with, the idempotency cache is not touched.
  pub create-cache : (create codec s decoder r w).1.db.idempotency_cache ≡ w.db.idempotency_cache
  unfolding create
  create-cache =
      let Q : Result Response × World D → Type 0 =
        λ x. x.1.db.idempotency_cache ≡ w.db.idempotency_cache in
      with_user-elim codec w Q (λ _ _. refl) r.user_id _
        λ user_id u.
          with_body-elim codec w Q (λ _ _. refl) (decode_body decoder.transfer r.body) _
            λ req d.
              if_valid-elim codec w Q (λ _ _. refl) (validate_payment req) _
                λ v.
                  rw
                    (respond_with-world codec (respond_created codec) (create_internal_transfer s _)
                      w)
                    (create_internal_transfer-History s _ w).cache_same

  -- Whatever a request for a payout ends with, the idempotency cache is not touched.
  pub create_external-cache :
      (create_external codec s decoder r w).1.db.idempotency_cache ≡ w.db.idempotency_cache
  unfolding create_external
  create_external-cache =
      let Q : Result Response × World D → Type 0 =
        λ x. x.1.db.idempotency_cache ≡ w.db.idempotency_cache in
      with_user-elim codec w Q (λ _ _. refl) r.user_id _
        λ user_id u.
          with_body-elim codec w Q (λ _ _. refl) (decode_body decoder.payout r.body) _
            λ req d.
              if_valid-elim codec w Q (λ _ _. refl) (validate_payout req) _
                λ v.
                  rw
                    (respond_with-world codec (respond_accepted codec) (create_external_payout s _)
                      w)
                    (create_external_payout-History s _ w).cache_same
