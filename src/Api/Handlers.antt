-- ===== src/Api/Handlers.antt =====
-- cmd/api/main.go: every handler returns, and none panics.
use grey_backend_assessment.Prelude.{
  ◌≡◌, refl, String, false, Option, none, some, List, [], ◌∷◌, Bool-cases, inl, inr, arith,
}
use grey_backend_assessment.Domain.{Uuid, User, Account, Currency, is_not_found}
use grey_backend_assessment.Session.{Result, ok, err, Session}
use grey_backend_assessment.Session.Atomic.{Total, Total-pure}
use grey_backend_assessment.Session.Panics.{
  panics, NeverPanics, NeverPanics-pure, NeverPanics-lift, NeverPanics-or_not_found,
  NeverPanics-bind, NeverPanics-raise_if, NeverPanics-new_uuid, NeverPanics-now,
  NeverPanics-statement, NeverPanics-query, NeverPanics-bind_caught, Total-attempt, Total-caught,
  Total-bind, Total-now, Total-new_uuid,
}
use grey_backend_assessment.Repository.Accounts
use grey_backend_assessment.Repository.Payments
use grey_backend_assessment.Repository.Users
use grey_backend_assessment.AccountService.{check_existing, create_account, get_user_accounts}
use grey_backend_assessment.Payments.Service.{get_payment_for_user}
use grey_backend_assessment.Payments.Panics.{NeverPanics-get_account}
use grey_backend_assessment.Payments.Panics.Flows.{
  ConvertsCalmly, NeverPanics-create_internal_transfer, NeverPanics-create_external_payout,
}
use grey_backend_assessment.Handler.Http.{Request, Response}
use grey_backend_assessment.Handler.Http.Answers.{
  Total-refuse, Total-with_user, Total-with_body, Total-if_valid, Total-respond_with,
}
use grey_backend_assessment.Handler.Ownership.{Owner, owner, not_owner, for_owner, with_owner}
use grey_backend_assessment.Handler.Receiver.{
  WebhookPayload, verify_hmac, receive_provider_webhook, accept, store_event,
}
use grey_backend_assessment.Handler.Http.{FieldError}
use grey_backend_assessment.Handler.Payment
use grey_backend_assessment.Handler.Payment.{with_payment_id}
use grey_backend_assessment.Handler.Account
use grey_backend_assessment.Handler.User
use grey_backend_assessment.Handler.Rates
use grey_backend_assessment.Handler.Rates.{respond_quote}
use grey_backend_assessment.Handler.Login.{login, respond_user, respond_token}
use grey_backend_assessment.Fx.{Quote}
use grey_backend_assessment.Api.{
  Server, login_handler, receive, create_payment, create_external_payment,
}

check_existing-panics : (r : Result Account) → panics r ≡ false → panics (check_existing r) ≡ false
unfolding check_existing
check_existing-panics r h = ground arith

module _ {D : Type 0} where
  NeverPanics-get_user : (id : Uuid) → NeverPanics {D = D} (Users.get_by_id id)
  unfolding Users.get_by_id
  NeverPanics-get_user id =
      NeverPanics-bind (NeverPanics-query _) λ row. NeverPanics-or_not_found row

  NeverPanics-get_by_email : (email : String) → NeverPanics {D = D} (Users.get_by_email email)
  unfolding Users.get_by_email
  NeverPanics-get_by_email email =
      NeverPanics-bind (NeverPanics-query _) λ row. NeverPanics-or_not_found row

  NeverPanics-get_payment_for_user :
      (payment_id user_id : Uuid) → NeverPanics {D = D} (get_payment_for_user payment_id user_id)
  unfolding get_payment_for_user Payments.get_by_id Accounts.get_by_id
  NeverPanics-get_payment_for_user payment_id user_id =
      NeverPanics-bind (NeverPanics-bind (NeverPanics-query _) λ row. NeverPanics-or_not_found row)
        λ p.
          NeverPanics-bind
            (NeverPanics-bind (NeverPanics-query _) λ row. NeverPanics-or_not_found row)
            λ account. NeverPanics-bind (NeverPanics-raise_if _ _ refl) λ _. NeverPanics-pure p

  NeverPanics-get_user_accounts : (user_id : Uuid) → NeverPanics {D = D} (get_user_accounts user_id)
  unfolding get_user_accounts Accounts.get_by_user_id_and_type
  NeverPanics-get_user_accounts user_id = NeverPanics-query _

  NeverPanics-create_account :
      (digits : Result String) (user_id : Uuid) (currency : Currency)
      → panics digits ≡ false
      → NeverPanics {D = D} (create_account digits user_id currency)
  unfolding create_account Accounts.create Accounts.insert_account
  NeverPanics-create_account digits user_id currency h =
      NeverPanics-bind (NeverPanics-get_user _) λ user.
        NeverPanics-bind (NeverPanics-raise_if _ _ refl) λ _.
          NeverPanics-bind_caught (NeverPanics-get_account _ _ _) λ existing calm.
            NeverPanics-bind (NeverPanics-lift _ (check_existing-panics existing calm)) λ _.
              NeverPanics-bind (NeverPanics-lift _ h) λ acct_num.
                NeverPanics-bind NeverPanics-new_uuid λ id. NeverPanics-bind NeverPanics-now λ at.
                  NeverPanics-bind (NeverPanics-statement _ λ db. ground arith)
                    λ _. NeverPanics-pure _

-- What main supplies gives its errors as errors: the conversion, and the digits of account numbers.
pub record IsCalmServer {D : Type 0} (s : Server D) : Type 0 where
  pub converts : ConvertsCalmly s.payments
  pub draws : (r : Request) → panics (s.digits r) ≡ false

module _ {D : Type 0} (s : Server D) (calm : IsCalmServer s) where
  Total-for_owner :
      (o : Owner) {k : Uuid → Session D Response}
      → ((user_id : Uuid) → Total (k user_id))
      → Total (for_owner s.codec o k)
  unfolding for_owner
  Total-for_owner (not_owner e) t = Total-refuse s.codec e
  Total-for_owner (owner user_id) t = t user_id

  Total-with_owner :
      (r : Request) {k : Uuid → Session D Response}
      → ((user_id : Uuid) → Total (k user_id))
      → Total (with_owner s.codec r k)
  unfolding with_owner
  Total-with_owner r t = Total-for_owner _ t

  Total-respond_token :
      (u : User) (token : Option String) → Total (respond_token s.codec (login_handler s) u token)
  unfolding respond_token
  Total-respond_token u none = Total-refuse s.codec _
  Total-respond_token u (some token) = Total-pure _

  Total-respond_user :
      (password : String) (found : Result User)
      → Total (respond_user s.codec (login_handler s) password found)
  unfolding respond_user
  Total-respond_user password (err e) = elim (Bool-cases (is_not_found e)) [
    | inl nobody ↦ rw nobody (Total-refuse s.codec _)
    | inr failed ↦ rw failed (Total-pure _)
  ]
  Total-respond_user password (ok u) =
      elim (Bool-cases (s.compare_hash_and_password u.password_hash password)) [
        | inl fits ↦ rw fits (Total-bind Total-now λ at. Total-respond_token u _)
        | inr wrong ↦ rw wrong (Total-refuse s.codec _)
      ]

  pub Total-login : (r : Request) → Total (login s.codec (login_handler s) s.login_decoder r)
  unfolding login
  Total-login r = Total-with_body s.codec _ λ req. Total-if_valid s.codec _ (
      Total-bind (Total-attempt (NeverPanics-get_by_email _))
        λ found. Total-respond_user req.password found)

  pub Total-create : (r : Request) → Total (create_payment s r)
  unfolding create_payment Payment.create
  Total-create r = Total-with_user s.codec _ λ user_id. Total-with_body s.codec _ λ req.
      Total-if_valid s.codec _ (
        Total-respond_with s.codec _
          (NeverPanics-create_internal_transfer s.payments calm.converts _))

  pub Total-create_external : (r : Request) → Total (create_external_payment s r)
  unfolding create_external_payment Payment.create_external
  Total-create_external r = Total-with_user s.codec _ λ user_id. Total-with_body s.codec _ λ req.
      Total-if_valid s.codec _ (
        Total-respond_with s.codec _
          (NeverPanics-create_external_payout s.payments calm.converts _))

  Total-with_payment_id :
      (o : Option Uuid) {k : Uuid → Session D Response}
      → ((payment_id : Uuid) → Total (k payment_id))
      → Total (with_payment_id s.codec o k)
  unfolding with_payment_id
  Total-with_payment_id none t = Total-refuse s.codec _
  Total-with_payment_id (some payment_id) t = t payment_id

  pub Total-get : (r : Request) → Total (Payment.get s.codec r)
  unfolding Payment.get
  Total-get r = Total-with_user s.codec _ λ user_id.
      Total-with_payment_id _
        λ payment_id. Total-respond_with s.codec _ (NeverPanics-get_payment_for_user _ _)

  pub Total-open : (r : Request) → Total (Account.create s.codec s.account_decoder (s.digits r) r)
  unfolding Account.create
  Total-open r = Total-with_owner r λ user_id. Total-with_body s.codec _ λ req.
      Total-if_valid s.codec _
        (Total-respond_with s.codec _ (NeverPanics-create_account _ _ _ (calm.draws r)))

  pub Total-list : (r : Request) → Total (Account.list s.codec r)
  unfolding Account.list
  Total-list r =
      Total-with_owner r
        λ user_id. Total-respond_with s.codec _ (NeverPanics-get_user_accounts user_id)

  pub Total-show_user : (r : Request) → Total (User.get_by_id s.codec r)
  unfolding User.get_by_id
  Total-show_user r =
      Total-with_owner r λ user_id. Total-respond_with s.codec _ (NeverPanics-get_user user_id)

  Total-respond_quote :
      (q : Result (Quote D)) → Total (respond_quote s.codec s.decimal_string s.rfc3339 q)
  unfolding respond_quote
  Total-respond_quote (err e) = Total-pure _
  Total-respond_quote (ok q) = Total-bind Total-now λ at. Total-pure _

  pub Total-get_rate :
      (r : Request) → Total (Rates.get_rate s.codec s.decimal_string s.rfc3339 s.rate r)
  unfolding Rates.get_rate
  Total-get_rate r = Total-if_valid s.codec _ (Total-respond_quote _)

  Total-store_event :
      (body : String) (payload : WebhookPayload) (fields : List FieldError)
      → Total (store_event {D = D} s.receiver_codec s.webhook_secret body payload fields)
  unfolding store_event
  Total-store_event body payload (f ∷ fields) = Total-pure _
  Total-store_event body payload [] =
      Total-bind Total-new_uuid
        λ id. Total-bind Total-now λ at. Total-bind (Total-caught _) λ r. Total-pure _

  Total-accept :
      (body : String) (payload : Option WebhookPayload)
      → Total (accept {D = D} s.receiver_codec s.webhook_secret body payload)
  unfolding accept
  Total-accept body none = Total-pure _
  Total-accept body (some payload) = Total-store_event body payload _

  Total-receive_provider_webhook :
      (body : Option String) (sig : String)
      → Total (receive_provider_webhook {D = D} s.receiver_codec s.webhook_secret body sig)
  unfolding receive_provider_webhook
  Total-receive_provider_webhook none sig = Total-pure _
  Total-receive_provider_webhook (some body) sig =
      elim (Bool-cases (verify_hmac s.receiver_codec body sig s.webhook_secret)) [
        | inl signed ↦ rw signed (Total-accept body _)
        | inr forged ↦ rw forged (Total-pure _)
      ]

  pub Total-receive : (r : Request) → Total (receive s r)
  unfolding receive
  Total-receive r = Total-bind (Total-receive_provider_webhook _ _) λ reply. Total-pure _
