-- ===== src/Tests/Payouts.antt =====
-- Runs of internal/service/payment/external_payout.go.
use grey_backend_assessment.Prelude.{ℕ, ◌≡◌, refl, true, false, none, [], ◌∷◌, any, arith}
use grey_backend_assessment.Prelude.Int.{pos, add64, sub64, ◌+ℤ◌, ◌-ℤ◌}
use grey_backend_assessment.Prelude.Sort.{sort, insert}
use grey_backend_assessment.Domain.{usd, Payment, insufficient_funds}
use grey_backend_assessment.Session.{
  ok, err, pure, lift, gets, or_not_found, deref, map_error, ◌>>=◌, skip, raise_if, driver_call,
  new_uuid, now, run_statement, statement, query, transact,
}
use grey_backend_assessment.Repository.Accounts
use grey_backend_assessment.Repository.Payments
use grey_backend_assessment.Repository.Ledger
use grey_backend_assessment.Repository.Events
use grey_backend_assessment.Payments.Service.{tx_limit_for_currency, get_system_account}
use grey_backend_assessment.Payments.Locks.{
  locked_account, lock_order, lock_each, lock_accounts_in_order, verify_account_active,
}
use grey_backend_assessment.Payments.Entries.{
  write_entry, write_external_ledger_entries, write_payment_event,
}
use grey_backend_assessment.Payments.Posting.Conserved.{Conserved}
use grey_backend_assessment.Payments.Payout.{
  ExternalPayoutRequest, build_external_payment, validate_external_payout,
  same_currency_payout_body, execute_same_currency_payout, execute_external_payout,
  submit_to_provider, create_external_payout,
}
use grey_backend_assessment.Payments.Payout.Conserves.{
  create_external_payout-Conserved, create_external_payout_once,
}
use grey_backend_assessment.Payments.Payout.Provider.{Asked, create_external_payout-Asked}
use grey_backend_assessment.Payments.Atomic.{create_external_payout_error}
use grey_backend_assessment.Tests.{service, start, accounts-IsBook}
use grey_backend_assessment.Tests.Payments.{with_world, service-ConvertsWithin}

-- Alice pays 200 cents out to a bank.
abbrev pub payout : ExternalPayoutRequest
payout = record {
  sender_user_id = 10;
  source_currency = usd;
  dest_currency = usd;
  amount = pos 200;
  dest_iban = "DE00";
  dest_bank_name = "bank";
  idempotency_key = "k2";
}

abbrev pub first_payout : Payment ℕ
first_payout = build_external_payment payout 100 21 (pos 200) none none 5

pub run_payout : (create_external_payout service payout start).0 ≡ ok first_payout
unfolding create_external_payout validate_external_payout tx_limit_for_currency
    execute_external_payout execute_same_currency_payout same_currency_payout_body
    submit_to_provider get_system_account lock_accounts_in_order lock_order lock_each locked_account
    verify_account_active write_external_ledger_entries write_entry write_payment_event
    Accounts.get_by_user_and_currency Accounts.get_for_update Accounts.update_balance
    Accounts.update_accounts Payments.create Payments.insert_payment Ledger.create
    Ledger.insert_entry Events.create Events.insert_event pure lift gets or_not_found deref
    map_error ◌>>=◌ skip raise_if driver_call new_uuid now run_statement statement query transact
    sort insert add64 sub64 ◌+ℤ◌ ◌-ℤ◌
run_payout = refl

create_external_payout-Conserved_example :
    Conserved 100 start.db (create_external_payout service payout start).1.db
create_external_payout-Conserved_example =
    create_external_payout-Conserved service payout service-ConvertsWithin (ground arith) start
      (create_external_payout service payout start).1 first_payout accounts-IsBook
      (with_world run_payout)

create_external_payout_once_example :
    (any (Payments.has_key "k2" 21) start.db.payments ≡ false)
    × ((create_external_payout service payout start).1.db.payments ≡ first_payout ∷ [])
    × (any (Payments.has_key "k2" 21) (create_external_payout service payout start).1.db.payments
        ≡ true)
create_external_payout_once_example =
    create_external_payout_once service payout service-ConvertsWithin (ground arith) start
      (create_external_payout service payout start).1 first_payout accounts-IsBook
      (with_world run_payout)

create_external_payout-Asked_example :
    Asked service payout start (create_external_payout service payout start)
create_external_payout-Asked_example = create_external_payout-Asked service payout start

run_too_much_payout :
    (create_external_payout service (record payout { amount = pos 2000 }) start).0
    ≡ err insufficient_funds
unfolding create_external_payout validate_external_payout tx_limit_for_currency
    execute_external_payout execute_same_currency_payout same_currency_payout_body
    get_system_account lock_accounts_in_order lock_order lock_each locked_account
    verify_account_active Accounts.get_by_user_and_currency Accounts.get_for_update pure lift gets
    or_not_found deref map_error ◌>>=◌ raise_if driver_call query transact sort insert
run_too_much_payout = refl

create_external_payout_error_example :
    (create_external_payout service (record payout { amount = pos 2000 }) start).1.db ≡ start.db
create_external_payout_error_example =
    create_external_payout_error service (record payout { amount = pos 2000 }) start
      (create_external_payout service (record payout { amount = pos 2000 }) start).1
      insufficient_funds (with_world run_too_much_payout)
