-- ===== src/Payments/Service/Laws.antt =====
-- internal/service/payment/service.go: the system's accounts, and who is shown a payment.
use grey_backend_assessment.Prelude.{◌≡◌, some, find, ==→eq, arith}
use grey_backend_assessment.Domain.{Uuid, Currency, Account, AccountType, Payment}
use grey_backend_assessment.Session.{World, ok}
use grey_backend_assessment.Session.Laws.{
  Ensures, SameDb, SameDb-trans, Ensures-bind, Ensures-bind-raise_if, Ensures-pure, Ensures-elim,
}
use grey_backend_assessment.Repository.Accounts.{has_id, belongs}
use grey_backend_assessment.Repository.Accounts.Laws.{
  Ensures-get_by_id, Ensures-get_by_user_and_currency,
}
use grey_backend_assessment.Repository.Payments
use grey_backend_assessment.Repository.Payments.Laws
use grey_backend_assessment.Payments.Service.{
  system_user_id, get_system_account, get_payment_for_user,
}

module _ {D : Type 0} {w : World D} where
  pub Ensures-get_system_account :
      (account_type : AccountType) (currency : Currency)
      → Ensures (get_system_account account_type currency) w (λ a w'.
        (find (belongs system_user_id currency account_type) w.db.accounts ≡ some a) × SameDb w w')
  unfolding get_system_account
  Ensures-get_system_account account_type currency =
      Ensures-get_by_user_and_currency system_user_id currency account_type

  Ensures-get_payment_for_user :
      (payment_id user_id : Uuid)
      → Ensures (get_payment_for_user payment_id user_id) w (λ p w'.
        (find (Payments.has_id payment_id) w.db.payments ≡ some p)
        × ((a : Account) × (find (has_id p.source_account_id) w.db.accounts ≡ some a)
            × (a.user_id ≡ user_id))
        × SameDb w w')
  unfolding get_payment_for_user
  Ensures-get_payment_for_user payment_id user_id =
      Ensures-bind (Payments.Laws.Ensures-get_by_id payment_id) λ p w1 (ep, s1).
        Ensures-bind (Ensures-get_by_id p.source_account_id) λ a w2 (ea, s2).
          Ensures-bind-raise_if _ _ λ _ own. Ensures-pure p (
            ep,
            (a, rw (s1.0) at ea, ==→eq a.user_id user_id (ground arith)),
            SameDb-trans w w1 w2 s1 s2,
          )

module _ {D : Type 0} (payment_id user_id : Uuid) (w w' : World D) (p : Payment D) where
  -- A payment that is shown to a user is the stored payment with that identifier, its source account
  -- belongs to the user, and the tables are as they were.
  pub get_payment_for_user-owned :
      get_payment_for_user payment_id user_id w ≡ (ok p, w')
      → (find (Payments.has_id payment_id) w.db.payments ≡ some p)
        × ((a : Account) × (find (has_id p.source_account_id) w.db.accounts ≡ some a)
            × (a.user_id ≡ user_id))
        × SameDb w w'
  get_payment_for_user-owned h = Ensures-elim (Ensures-get_payment_for_user payment_id user_id) h
