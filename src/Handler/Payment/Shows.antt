-- ===== src/Handler/Payment/Shows.antt =====
-- internal/handler/payment.go: who is shown a payment.
use grey_backend_assessment.Prelude.{◌≡◌, refl, ◌⊎◌, inl, inr, some, find, Option, none}
use grey_backend_assessment.Domain.{Uuid, Account, Payment}
use grey_backend_assessment.Session.{World, Result, ok, Session, pure}
use grey_backend_assessment.Session.Atomic.{
  Reads, Reads-bind, Reads-query, Reads-or_not_found, Reads-raise_if, Reads-pure,
}
use grey_backend_assessment.Repository.Payments
use grey_backend_assessment.Repository.Accounts
use grey_backend_assessment.Payments.Service.{get_payment_for_user}
use grey_backend_assessment.Payments.Service.Laws.{get_payment_for_user-owned}
use grey_backend_assessment.Handler.{resource_not_found}
use grey_backend_assessment.Handler.Http.{
  Request, Response, HttpCodec, no_payload, payment_payload, respond_success, refuse,
}
use grey_backend_assessment.Handler.Http.Laws.{
  Fails, with_user-elim, respond_with-world, respond_with-answers,
}
use grey_backend_assessment.Handler.Payment.{to_payment_dto, with_payment_id, get}

Reads-get_payment_for_user :
    {D : Type 0} (payment_id user_id : Uuid)
    → Reads {D = D} (get_payment_for_user payment_id user_id)
unfolding get_payment_for_user Payments.get_by_id Accounts.get_by_id
Reads-get_payment_for_user payment_id user_id =
    Reads-bind (Reads-bind (Reads-query _) λ row. Reads-or_not_found row) λ p.
      Reads-bind (Reads-bind (Reads-query _) λ row. Reads-or_not_found row)
        λ account. Reads-bind (Reads-raise_if _ _) λ _. Reads-pure p

module _ {D : Type 0} (codec : HttpCodec D) (r : Request) (w : World D) where
  -- The payment in the path is stored, its source account belongs to the user who asks, and it is what
  -- is answered.
  pub record Shows (x : Result Response × World D) : Type 0 where
    pub user_id : Uuid
    pub payment_id : Uuid
    pub payment : Payment D
    pub account : Account
    pub asks : r.user_id ≡ some user_id
    pub named : codec.parse_uuid (r.path_value "id") ≡ some payment_id
    pub stored : find (Payments.has_id payment_id) w.db.payments ≡ some payment
    pub source : find (Accounts.has_id payment.source_account_id) w.db.accounts ≡ some account
    pub own : account.user_id ≡ user_id
    pub answered : x.0 ≡ ok (respond_success codec 200 (payment_payload (to_payment_dto payment)))

  Outcome : Result Response × World D → Type 0
  Outcome x = (x.1.db ≡ w.db) × (Fails codec x ⊎ Shows x)

  with_payment_id-Outcome :
      (o : Option Uuid) (k : Uuid → Session D Response)
      → ((payment_id : Uuid) → o ≡ some payment_id → Outcome (k payment_id w))
      → Outcome (with_payment_id codec o k w)
  unfolding with_payment_id refuse pure Outcome
  with_payment_id-Outcome none k h = (refl, inl (inl (resource_not_found, no_payload, refl)))
  with_payment_id-Outcome (some payment_id) k h = h payment_id refl

  looked_up :
      (user_id payment_id : Uuid)
      → r.user_id ≡ some user_id
      → codec.parse_uuid (r.path_value "id") ≡ some payment_id
      → (x : Result Response × World D) → x.1.db ≡ w.db
      → Fails codec x
        ⊎ ((p : Payment D) × (get_payment_for_user payment_id user_id w
              ≡ (ok p, (get_payment_for_user payment_id user_id w).1))
            × (x.0 ≡ ok (respond_success codec 200 (payment_payload (to_payment_dto p)))))
      → Outcome x
  unfolding Outcome
  looked_up user_id payment_id a n x same (inl fails) = (same, inl fails)
  looked_up user_id payment_id a n x same (inr (p, got, answered)) =
      let (stored, (account, source, own), _) =
        get_payment_for_user-owned payment_id user_id w _ p got in
      (
        same,
        inr (record {
          user_id = user_id;
          payment_id = payment_id;
          payment = p;
          account = account;
          asks = a;
          named = n;
          stored = stored;
          source = source;
          own = own;
          answered = answered;
        }),
      )

  -- Looking a payment up changes no table; either no data is answered, or the payment in the path is
  -- answered, and its source account belongs to the user who asks.
  pub get-Shows :
      ((get codec r w).1.db ≡ w.db) × (Fails codec (get codec r w) ⊎ Shows (get codec r w))
  unfolding get Outcome
  get-Shows =
      with_user-elim codec w Outcome (λ e details. (refl, inl (inl (e, details, refl)))) r.user_id _
        λ user_id a.
          with_payment_id-Outcome (codec.parse_uuid (r.path_value "id")) _ λ payment_id n.
            looked_up user_id payment_id a n _
              (rw (respond_with-world codec _ (get_payment_for_user payment_id user_id) w)
                ((Reads-get_payment_for_user payment_id user_id).at w))
              (respond_with-answers codec _ (get_payment_for_user payment_id user_id) w)
