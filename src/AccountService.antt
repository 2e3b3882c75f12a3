-- ===== src/AccountService.antt =====
-- internal/service/account.go: opening an account, and looking accounts up. The ten digits of an
-- account number come out of crypto/rand, which may fail; they are an argument.
pub mod Opens
use Prim.Native.String.{◌++◌}
use grey_backend_assessment.Prelude.{String, Bool, not, Option, none, some, List, if◌then◌else◌}
use grey_backend_assessment.Prelude.Int.{ℤ, pos}
use grey_backend_assessment.Domain.{
  Uuid, Time, Currency, usd, eur, gbp, other, is_valid, Account, AccountType, AccountStatus,
  is_not_found, invalid_currency, account_exists,
}
use grey_backend_assessment.Session.{
  World, Result, ok, err, Session, pure, lift, raise_if, caught, new_uuid, now, ◌>>=◌, ◌>>◌,
}
use grey_backend_assessment.Repository.Accounts
use grey_backend_assessment.Repository.Users

abbrev pub iban_prefix : Currency → String
iban_prefix gbp = "GB"
iban_prefix eur = "DE"
iban_prefix usd = "US"
iban_prefix (other c) = "XX"

-- fmt.Sprintf("%s82GREY0000%s", prefix, acctNum)
unfoldable pub generate_iban : Currency → String → String
generate_iban currency acct_num = (iban_prefix currency ++ "82GREY0000") ++ acct_num

-- err == nil is ErrAccountExists; any error but ErrNotFound is passed on
unfoldable pub check_existing : Result Account → Result Unit
check_existing (ok a) = err account_exists
check_existing (err e) = if is_not_found e then ok tt else err e

abbrev pub opened_account : Uuid → Uuid → Currency → String → Time → Account
opened_account id user_id currency acct_num at = record {
  id = id;
  user_id = user_id;
  currency = currency;
  account_type = AccountType.user;
  balance = pos 0;
  version = pos 1;
  account_number = some acct_num;
  routing_number = none;
  iban = some (generate_iban currency acct_num);
  swift_bic = none;
  provider = none;
  provider_ref = none;
  status = AccountStatus.active;
  created_at = at;
}

module _ {D : Type 0} where
  unfoldable pub create_account : Result String → Uuid → Currency → Session D Account
  create_account digits user_id currency = do
    Users.get_by_id user_id
    raise_if (not (is_valid currency)) invalid_currency
    existing ← caught (Accounts.get_by_user_and_currency user_id currency AccountType.user)
    lift (check_existing existing)
    acct_num ← lift digits
    id ← new_uuid
    at ← now
    let account = opened_account id user_id currency acct_num at
    Accounts.create account
    pure account

  unfoldable pub get_user_accounts : Uuid → Session D (List Account)
  get_user_accounts user_id = Accounts.get_by_user_id_and_type user_id AccountType.user

  unfoldable pub get_account_by_id : Uuid → Session D Account
  get_account_by_id account_id = Accounts.get_by_id account_id
