-- ===== src/Tests/Payments.antt =====
-- Runs of internal/service/payment.
use grey_backend_assessment.Prelude.{
  ◌≢◌, ℕ, ◌≡◌, ◌↔◌, refl, true, false, none, some, [], ◌∷◌, find, any, arith,
}
use grey_backend_assessment.Prelude.Int.{pos, add64, sub64, ◌+ℤ◌, ◌-ℤ◌}
use grey_backend_assessment.Prelude.Sort.{sort, insert}
use grey_backend_assessment.Domain.{
  usd, Account, AccountType, Payment, is_valid, insufficient_funds,
}
use grey_backend_assessment.Session.{
  World, ok, err, pure, lift, gets, or_not_found, deref, map_error, ◌>>=◌, skip, raise_if,
  driver_call, new_uuid, now, run_statement, statement, query, transact,
}
use grey_backend_assessment.Session.Laws.{SameDb}
use grey_backend_assessment.Repository.Accounts
use grey_backend_assessment.Repository.Payments
use grey_backend_assessment.Repository.Ledger
use grey_backend_assessment.Repository.Events
use grey_backend_assessment.Repository.Users
use grey_backend_assessment.Fx.Laws.{convert-InInt64}
use grey_backend_assessment.Payments.Service.{
  ConvertsWithin, tx_limit_for_currency, get_payment_for_user,
}
use grey_backend_assessment.Payments.Service.Laws.{get_payment_for_user-owned}
use grey_backend_assessment.Payments.Locks.{
  locked_account, lock_order, lock_each, lock_accounts_in_order, verify_account_active,
}
use grey_backend_assessment.Payments.Entries.{
  write_entry, write_ledger_entries, write_payment_event,
}
use grey_backend_assessment.Payments.Posting.{balance_of}
use grey_backend_assessment.Payments.Posting.Moves.{transfer_flow}
use grey_backend_assessment.Payments.Posting.Conserved.{Conserved}
use grey_backend_assessment.Payments.Transfer.{
  InternalTransferRequest, transfer_payment, validate_transfer, resolve_transfer_accounts,
  same_currency_body, execute_same_currency_transfer, execute_transfer, create_internal_transfer,
}
use grey_backend_assessment.Payments.Transfer.Self.{execute_same_currency_transfer_self}
use grey_backend_assessment.Payments.Transfer.Validates.{
  IsAllowed, validate_transfer_lem, validate_transfer-is_valid,
}
use grey_backend_assessment.Payments.Transfer.Conserves.{
  create_internal_transfer-balances, create_internal_transfer-Conserved,
  create_internal_transfer_once,
}
use grey_backend_assessment.Payments.Atomic.{create_internal_transfer_error}
use grey_backend_assessment.Tests.{micro, rates, service, start, account_of, accounts-IsBook}

pub service-ConvertsWithin : ConvertsWithin service
service-ConvertsWithin amount from to c fits h = convert-InInt64 micro rates amount from to fits h

-- Alice sends Bob 100 cents.
abbrev pub request : InternalTransferRequest
request = record {
  sender_user_id = 10;
  recipient_unique_name = "bob";
  source_currency = usd;
  dest_currency = usd;
  amount = pos 100;
  idempotency_key = "k1";
}

abbrev pub first_payment : Payment ℕ
first_payment = transfer_payment request 100 21 22 (pos 100) none (pos 0) none 6

run_transfer : (create_internal_transfer service request start).0 ≡ ok first_payment
unfolding create_internal_transfer resolve_transfer_accounts validate_transfer tx_limit_for_currency
    execute_transfer execute_same_currency_transfer same_currency_body lock_accounts_in_order
    lock_order lock_each locked_account verify_account_active write_ledger_entries write_entry
    write_payment_event Accounts.get_by_user_and_currency Accounts.get_for_update
    Accounts.update_balance Accounts.update_accounts Payments.create Payments.insert_payment
    Ledger.create Ledger.insert_entry Events.create Events.insert_event Users.get_by_unique_name
    pure lift gets or_not_found deref map_error ◌>>=◌ skip raise_if driver_call new_uuid now
    run_statement statement query transact sort insert add64 sub64 ◌+ℤ◌ ◌-ℤ◌
run_transfer = refl

pub with_world : {A B : Type 0} {r : A × B} {a : A} → r.0 ≡ a → r ≡ (a, r.1)
with_world {r} h = λ i. (h i, r.1)

create_internal_transfer-Conserved_example :
    Conserved 100 start.db (create_internal_transfer service request start).1.db
create_internal_transfer-Conserved_example =
    create_internal_transfer-Conserved service request service-ConvertsWithin (ground arith) start
      (create_internal_transfer service request start).1 first_payment accounts-IsBook
      (with_world run_transfer)

create_internal_transfer_once_example :
    (any (Payments.has_key "k1" 21) start.db.payments ≡ false)
    × ((create_internal_transfer service request start).1.db.payments ≡ first_payment ∷ [])
    × (any (Payments.has_key "k1" 21) (create_internal_transfer service request start).1.db.payments
        ≡ true)
create_internal_transfer_once_example =
    create_internal_transfer_once service request service-ConvertsWithin (ground arith) start
      (create_internal_transfer service request start).1 first_payment accounts-IsBook
      (with_world run_transfer)

-- More than Alice has.
abbrev too_much : InternalTransferRequest
too_much = record request { amount = pos 2000 }

run_too_much : (create_internal_transfer service too_much start).0 ≡ err insufficient_funds
unfolding create_internal_transfer resolve_transfer_accounts validate_transfer tx_limit_for_currency
    execute_transfer execute_same_currency_transfer same_currency_body lock_accounts_in_order
    lock_order lock_each locked_account verify_account_active Accounts.get_by_user_and_currency
    Accounts.get_for_update Users.get_by_unique_name pure lift gets or_not_found deref map_error
    ◌>>=◌ raise_if driver_call query transact sort insert
run_too_much = refl

create_internal_transfer_error_example :
    (create_internal_transfer service too_much start).1.db ≡ start.db
create_internal_transfer_error_example =
    create_internal_transfer_error service too_much start
      (create_internal_transfer service too_much start).1 insufficient_funds
      (with_world run_too_much)

validate_transfer_lem_example :
    (validate_transfer service request
        (account_of 21 10 usd AccountType.user 1000)
        (account_of 22 11 usd AccountType.user 50)
      ≡ ok tt)
    ↔ IsAllowed service request
        (account_of 21 10 usd AccountType.user 1000)
        (account_of 22 11 usd AccountType.user 50)
validate_transfer_lem_example =
    validate_transfer_lem service request (account_of 21 10 usd AccountType.user 1000)
      (account_of 22 11 usd AccountType.user 50)

validated :
    validate_transfer service request
      (account_of 21 10 usd AccountType.user 1000)
      (account_of 22 11 usd AccountType.user 50)
    ≡ ok tt
unfolding validate_transfer tx_limit_for_currency
validated = refl

validate_transfer-is_valid_example : is_valid usd ≡ true
validate_transfer-is_valid_example =
    validate_transfer-is_valid service request (account_of 21 10 usd AccountType.user 1000)
      (account_of 22 11 usd AccountType.user 50) validated

-- Alice looks at a payment of hers.
abbrev with_one : World ℕ
with_one = record start { db = record start.db { payments = first_payment ∷ [] } }

run_get : (get_payment_for_user 100 10 with_one).0 ≡ ok first_payment
unfolding get_payment_for_user Payments.get_by_id Accounts.get_by_id pure gets or_not_found ◌>>=◌
    raise_if driver_call query
run_get = refl

get_payment_for_user-owned_example :
    (find (Payments.has_id 100) with_one.db.payments ≡ some first_payment)
    × ((a : Account) × (find (Accounts.has_id 21) with_one.db.accounts ≡ some a) × (a.user_id ≡ 10))
    × SameDb with_one (get_payment_for_user 100 10 with_one).1
get_payment_for_user-owned_example =
    get_payment_for_user-owned 100 10 with_one (get_payment_for_user 100 10 with_one).1
      first_payment (with_world run_get)

execute_same_currency_transfer_self_example :
    execute_same_currency_transfer request 21 21 start
    ≢ (ok first_payment, (execute_same_currency_transfer request 21 21 start).1)
execute_same_currency_transfer_self_example =
    execute_same_currency_transfer_self request (ground arith) (ground arith) 21 start
      (execute_same_currency_transfer request 21 21 start).1 first_payment accounts-IsBook

create_internal_transfer-balances_example :
    balance_of 22 (create_internal_transfer service request start).1.db.accounts
    ≡ balance_of 22 start.db.accounts +ℤ transfer_flow start.db.accounts first_payment 22
create_internal_transfer-balances_example =
    create_internal_transfer-balances service request service-ConvertsWithin (ground arith) start
      (create_internal_transfer service request start).1 first_payment accounts-IsBook
      (with_world run_transfer) 22
