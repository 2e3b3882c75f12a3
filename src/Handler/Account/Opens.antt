-- ===== src/Handler/Account/Opens.antt =====
-- internal/handler/account.go: for whom an account is opened.
use grey_backend_assessment.Prelude.{◌≡◌, refl, ◌⊎◌, inl, inr, String, Option, some, []}
use grey_backend_assessment.Domain.{Uuid, Currency, Account, currency_of}
use grey_backend_assessment.Session.{World, Result, ok}
use grey_backend_assessment.Session.Atomic.{
  Atomic, Atomic-bind, Atomic-then, Atomic-elim, Atomic-statement, Total-pure, Reads-bind,
  Reads-query, Reads-or_not_found, Reads-raise_if, Reads-lift, Reads-caught, Reads-new_uuid,
  Reads-now,
}
use grey_backend_assessment.Repository.Accounts.{get_by_user_and_currency}
use grey_backend_assessment.Repository.Accounts
use grey_backend_assessment.Repository.Users
use grey_backend_assessment.AccountService.{create_account}
use grey_backend_assessment.Handler.Http.{
  Request, Response, HttpCodec, account_payload, decode_body, respond_success,
}
use grey_backend_assessment.Handler.Http.Laws.{with_body-elim, if_valid-elim, respond_with-cases}
use grey_backend_assessment.Handler.Ownership.Laws.{with_owner-elim}
use grey_backend_assessment.Handler.Account.{
  CreateAccountRequest, validate_account, to_account_dto, create,
}

Atomic-create_account :
    {D : Type 0} (digits : Result String) (user_id : Uuid) (currency : Currency)
    → Atomic {D = D} (create_account digits user_id currency)
unfolding create_account Users.get_by_id get_by_user_and_currency Accounts.create
Atomic-create_account digits user_id currency =
    Atomic-bind (Reads-bind (Reads-query _) λ row. Reads-or_not_found row) λ user.
      Atomic-bind (Reads-raise_if _ _) λ _.
        Atomic-bind (Reads-caught (Reads-bind (Reads-query _) λ row. Reads-or_not_found row))
          λ existing. Atomic-bind (Reads-lift _) λ _. Atomic-bind (Reads-lift _) λ acct_num.
            Atomic-bind Reads-new_uuid
              λ id. Atomic-bind Reads-now λ at. Atomic-then (Atomic-statement _) λ _. Total-pure _

module _ {D : Type 0} (codec : HttpCodec D) (decode : String → Option CreateAccountRequest)
    (digits : Result String) (r : Request) (w : World D) where
  -- The user who asks is the one in the path, the body decodes to a request with no wrong field, the
  -- service has opened the account for that user, and the answer is 201 with it.
  pub record Opened (x : Result Response × World D) : Type 0 where
    pub user_id : Uuid
    pub req : CreateAccountRequest
    pub account : Account
    pub asks : r.user_id ≡ some user_id
    pub named : codec.parse_uuid (r.path_value "id") ≡ some user_id
    pub decoded : decode_body decode r.body ≡ some req
    pub valid : validate_account req ≡ []
    pub opened : create_account digits user_id (currency_of req.currency) w ≡ (ok account, x.1)
    pub answered : x.0 ≡ ok (respond_success codec 201 (account_payload (to_account_dto account)))

  -- A request for an account either changes no table, or the user who asks is the one in the path, the
  -- body decodes to a request with no wrong field, and the answer is 201 with the account that has
  -- been opened for that user.
  pub create-Opened :
      ((create codec decode digits r w).1.db ≡ w.db) ⊎ Opened (create codec decode digits r w)
  unfolding create
  create-Opened =
      let Q : Result Response × World D → Type 0 = λ x. (x.1.db ≡ w.db) ⊎ Opened x in
      with_owner-elim codec r w Q (λ _ _. inl refl) _
        λ user_id a n.
          with_body-elim codec w Q (λ _ _. inl refl) (decode_body decode r.body) _
            λ req d.
              if_valid-elim codec w Q (λ _ _. inl refl) (validate_account req) _
                λ v.
                  elim (respond_with-cases codec _
                    (create_account digits user_id (currency_of req.currency)) w
                    (λ e w' h. Atomic-elim (Atomic-create_account digits user_id _) h)) [
                      | inl same ↦ inl same
                      | inr (account, opened, answered) ↦ inr (record {
                        user_id = user_id;
                        req = req;
                        account = account;
                        asks = a;
                        named = n;
                        decoded = d;
                        valid = v;
                        opened = opened;
                        answered = answered;
                      })
                    ]
