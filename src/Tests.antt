-- ===== src/Tests.antt =====
-- Data for runs of the services: decimals in millionths, two users with their accounts, the accounts
-- of the system, and an environment in which every call of the driver succeeds.
pub mod Fx
pub mod Payments
pub mod Payouts
pub mod Webhooks
pub mod Accounts
pub mod Handler
pub mod Api
pub mod Middleware
pub mod Requests
pub mod Returns
pub mod Provider
use grey_backend_assessment.Prelude.{
  ℕ, ◌+◌, ◌-◌, ◌*◌, ◌/◌, ◌^◌, String, Bool, true, false, none, some, List, [], ◌∷◌, ltb, ◌≡◌, refl,
  arith,
}
use grey_backend_assessment.Prelude.Int.{ℤ, pos, pos_part, wrap64, wrap64-InInt64}
use grey_backend_assessment.Domain.{
  Uuid, Currency, usd, eur, Account, AccountType, AccountStatus, User, UserStatus, Time,
}
use grey_backend_assessment.Session.{Db, Env, World}
use grey_backend_assessment.Fx.{Decimal, RateService, new_rate_service, convert}
use grey_backend_assessment.Payments.Service.{Service}
use grey_backend_assessment.Payments.Posting.{IsBook}

abbrev pub micro : Decimal
micro = record {
  D = ℕ;
  Float = ℕ;
  literal = λ m k. m * 10 ^ 6 / 10 ^ k;
  new_from_float = λ d. d;
  new_from_int = λ n. pos_part n * 10 ^ 6;
  zero_decimal = 0;
  mul = λ a b. a * b / 10 ^ 6;
  sub = λ a b. a - b;
  round_to_integer = λ a. (a + 500000) / 10 ^ 6 * 10 ^ 6;
  int_part = λ a. wrap64 (pos (a / 10 ^ 6));
  int_part-InInt64 = λ a. wrap64-InInt64 (pos (a / 10 ^ 6));
}

-- A spread of one percent.
abbrev pub rates : RateService ℕ
rates = new_rate_service micro 10000

abbrev pub service : Service ℕ
service = record {
  convert = convert micro rates;
  has_provider = true;
  config = record { tx_limit_usd = pos 5000; tx_limit_eur = pos 5000; tx_limit_gbp = pos 5000 };
}

abbrev pub account_of : Uuid → Uuid → Currency → AccountType → ℕ → Account
account_of id user_id currency account_type balance = record {
  id = id;
  user_id = user_id;
  currency = currency;
  account_type = account_type;
  balance = pos balance;
  version = pos 1;
  account_number = none;
  routing_number = none;
  iban = none;
  swift_bic = none;
  provider = none;
  provider_ref = none;
  status = AccountStatus.active;
  created_at = 0;
}

abbrev pub user_of : Uuid → String → User
user_of id name = record {
  id = id;
  email = name;
  name = name;
  password_hash = "";
  unique_name = some name;
  status = UserStatus.active;
  created_at = 0;
}

-- Alice (10) and Bob (11), and the accounts of the system.
abbrev pub accounts : List Account
accounts =
    account_of 21 10 usd AccountType.user 1000
    ∷ account_of 22 11 usd AccountType.user 50
    ∷ account_of 23 11 eur AccountType.user 0
    ∷ account_of 24 1 usd AccountType.fx_pool 100000
    ∷ account_of 25 1 eur AccountType.fx_pool 100000
    ∷ account_of 26 1 usd AccountType.outgoing 0
    ∷ account_of 27 1 eur AccountType.outgoing 0
    ∷ []

abbrev pub env : Env
env = record {
  fails = λ n. false;
  uuids = λ n. 100 + n;
  time_at = λ n. n;
  string_less = λ a b. ltb a b;
}

abbrev pub start : World ℕ
start = record {
  db = record {
    users = user_of 10 "alice" ∷ user_of 11 "bob" ∷ [];
    accounts = accounts;
    payments = [];
    ledger_entries = [];
    payment_events = [];
    webhook_events = [];
    idempotency_cache = [];
  };
  env = env;
  tick = 0;
  drawn = 0;
  sent = [];
}

pub accounts-IsBook : IsBook accounts
accounts-IsBook = record {
  unique_ids = (refl, (refl, (refl, (refl, (refl, (refl, (refl, tt)))))));
  funds = ground arith;
}
