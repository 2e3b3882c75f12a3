-- ===== src/Payments/Service.antt =====
-- internal/service/payment/service.go
pub mod Laws
use grey_backend_assessment.Prelude.{◌≡◌, ℕ, String, Bool, ◌==◌, not}
use grey_backend_assessment.Prelude.Int.{ℤ, pos, ◌≤ℤ◌, InInt64}
use grey_backend_assessment.Domain.{
  Uuid, Currency, usd, eur, gbp, other, Account, AccountType, Payment, not_found,
}
use grey_backend_assessment.Session.{Result, ok, Session, pure, raise_if, ◌>>=◌, ◌>>◌}
use grey_backend_assessment.Repository.Accounts
use grey_backend_assessment.Repository.Payments
use grey_backend_assessment.Fx.{Conversion}

-- 00000000-0000-0000-0000-000000000001
abbrev pub system_user_id : Uuid
system_user_id = 1

-- config.Config, as far as the service reads it.
pub record Config : Type 0 where
  pub tx_limit_usd : ℤ
  pub tx_limit_eur : ℤ
  pub tx_limit_gbp : ℤ

-- The rate service is an interface, and so a parameter: `Fx.convert` implements it. The provider
-- may be nil; what it answers is only logged. The repositories are the modules of that name.
pub record Service (D : Type 0) : Type 0 where
  pub convert : ℤ → Currency → Currency → Result (Conversion D)
  pub has_provider : Bool
  pub config : Config

unfoldable pub tx_limit_for_currency : {D : Type 0} → Service D → Currency → ℤ
tx_limit_for_currency s usd = s.config.tx_limit_usd
tx_limit_for_currency s eur = s.config.tx_limit_eur
tx_limit_for_currency s gbp = s.config.tx_limit_gbp
tx_limit_for_currency s (other c) = pos 0

module _ {D : Type 0} where
  unfoldable pub get_payment_by_id : Uuid → Session D (Payment D)
  get_payment_by_id payment_id = Payments.get_by_id payment_id

  -- A payment is shown to the owner of its source account only.
  unfoldable pub get_payment_for_user : Uuid → Uuid → Session D (Payment D)
  get_payment_for_user payment_id user_id = do
    p ← Payments.get_by_id payment_id
    account ← Accounts.get_by_id p.source_account_id
    raise_if (not (account.user_id == user_id)) not_found
    pure p

  unfoldable pub get_system_account : AccountType → Currency → Session D Account
  get_system_account account_type currency =
      Accounts.get_by_user_and_currency system_user_id currency account_type

-- What the service relies on of a rate service: an int64 is converted to an int64 from zero on.
abbrev pub ConvertsWithin : {D : Type 0} → Service D → Type 0
ConvertsWithin {D} s =
    (amount : ℤ) (from to : Currency) (c : Conversion D)
    → InInt64 amount
    → s.convert amount from to ≡ ok c
    → (pos 0 ≤ℤ c.dest_amount) × InInt64 c.dest_amount
