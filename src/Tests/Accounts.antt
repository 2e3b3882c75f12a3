-- ===== src/Tests/Accounts.antt =====
-- Runs of internal/service/account.go.
use grey_backend_assessment.Prelude.{◌≡◌, refl}
use grey_backend_assessment.Domain.{Currency, gbp, Account}
use grey_backend_assessment.Session.{
  ok, pure, lift, gets, or_not_found, raise_if, caught, new_uuid, now, ◌>>=◌, driver_call,
  run_statement, statement, query,
}
use grey_backend_assessment.Repository.Accounts
use grey_backend_assessment.Repository.Users
use grey_backend_assessment.Payments.Posting.{IsBook, total}
use grey_backend_assessment.AccountService.{
  check_existing, opened_account, create_account, generate_iban,
}
use grey_backend_assessment.AccountService.Opens.{
  Opens, create_account-Opens, create_account-IsBook,
}
use grey_backend_assessment.Tests.{start, accounts-IsBook}
use grey_backend_assessment.Tests.Payments.{with_world}

-- Alice opens an account in pounds.
abbrev pounds : Account
pounds = opened_account 100 10 gbp "0123456789" 2

run_create : (create_account (ok "0123456789") 10 gbp start).0 ≡ ok pounds
unfolding create_account check_existing generate_iban Accounts.get_by_user_and_currency
    Accounts.create Accounts.insert_account Users.get_by_id pure lift gets or_not_found raise_if
    caught new_uuid now ◌>>=◌ driver_call run_statement statement query
run_create = refl

create_account-Opens_example :
    Opens 10 gbp start.db pounds (create_account (ok "0123456789") 10 gbp start).1.db
create_account-Opens_example =
    create_account-Opens (ok "0123456789") 10 gbp start
      (create_account (ok "0123456789") 10 gbp start).1 pounds (with_world run_create)

create_account-IsBook_example :
    IsBook (create_account (ok "0123456789") 10 gbp start).1.db.accounts
    × ((c : Currency)
        → total c (create_account (ok "0123456789") 10 gbp start).1.db.accounts
          ≡ total c start.db.accounts)
create_account-IsBook_example =
    create_account-IsBook (ok "0123456789") 10 gbp start
      (create_account (ok "0123456789") 10 gbp start).1 pounds accounts-IsBook
      (with_world run_create)
