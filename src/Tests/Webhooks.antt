-- ===== src/Tests/Webhooks.antt =====
-- Runs of internal/service/webhook_processor.go.
use grey_backend_assessment.Prelude.{ℕ, ◌≡◌, refl, none, some, List, [], ◌∷◌, find, arith}
use grey_backend_assessment.Prelude.Int.{add64, sub64, ◌+ℤ◌, ◌-ℤ◌}
use grey_backend_assessment.Prelude.Sort.{sort, insert}
use grey_backend_assessment.Domain.{
  usd, Account, AccountType, WebhookEvent, WebhookEventStatus, payment_failed,
}
use grey_backend_assessment.Session.{
  World, ok, pure, lift, gets, or_not_found, deref, ◌>>=◌, skip, raise_if, driver_call, new_uuid,
  now, run_statement, statement, query, transact,
}
use grey_backend_assessment.Repository.Accounts
use grey_backend_assessment.Repository.Payments
use grey_backend_assessment.Repository.Ledger
use grey_backend_assessment.Repository.Events
use grey_backend_assessment.Repository.History.{History}
use grey_backend_assessment.Payments.Locks.{
  locked_account, lock_order, lock_each, lock_accounts_in_order,
}
use grey_backend_assessment.Payments.Entries.{write_entry}
use grey_backend_assessment.Payments.Posting.{IsBook}
use grey_backend_assessment.Payments.Posting.Conserved.{Conserved}
use grey_backend_assessment.Webhooks.{
  Codec, WebhookCallbackPayload, write_reversal_entries, write_same_currency_reversal,
  get_system_account, handle_failed_body, handle_failed, process_event, poll,
}
use grey_backend_assessment.Payments.Posting.Flow.{HasAmounts}
use grey_backend_assessment.Webhooks.GivesBack.{handle_failed-Conserved}
use grey_backend_assessment.Webhooks.Terminal.{OnlyWebhookEvents, process_event_terminal}
use grey_backend_assessment.Webhooks.Settles.{SettlesOrFails, process_event-Settles}
use grey_backend_assessment.Webhooks.History.{poll-History}
use grey_backend_assessment.Tests.{start, account_of}
use grey_backend_assessment.Payments.Service
use grey_backend_assessment.Payments.Service.{tx_limit_for_currency}
use grey_backend_assessment.Payments.Posting.Flow.{payout_flow}
use grey_backend_assessment.Payments.Posting.{balance_of}
use grey_backend_assessment.Payments.Locks.{verify_account_active}
use grey_backend_assessment.Payments.Entries.{write_external_ledger_entries, write_payment_event}
use grey_backend_assessment.Payments.Payout.{
  validate_external_payout, execute_external_payout, execute_same_currency_payout,
  same_currency_payout_body, submit_to_provider, create_external_payout,
}
use grey_backend_assessment.Session.{map_error}
use grey_backend_assessment.Webhooks.{handle_completed, handle_completed_body}
use grey_backend_assessment.Webhooks.Completed.{Completes, handle_completed-Completes}
use grey_backend_assessment.Webhooks.Cycle.{
  create_external_payout-balances, create_external_payout-handle_failed,
}
use grey_backend_assessment.Tests.{service, accounts-IsBook}
use grey_backend_assessment.Webhooks
use grey_backend_assessment.Tests.Payments.{first_payment, with_world, service-ConvertsWithin}
use grey_backend_assessment.Tests.Payouts.{first_payout, payout, run_payout}

abbrev report : WebhookCallbackPayload
report = record {
  event_id = "e1";
  payment_id = "100";
  status = "failed";
  provider_ref = "";
  reason = "no such account";
}

-- Every payload is that report about payment 100.
abbrev codec : Codec
codec = record { unmarshal = λ s. some report; parse_uuid = λ s. some 100; marshal_reason = λ s. s }

-- Alice's 200 cents are on their way.
abbrev under_way : List Account
under_way =
    account_of 21 10 usd AccountType.user 800 ∷ account_of 26 1 usd AccountType.outgoing 200 ∷ []

abbrev event : WebhookEvent
event = record {
  id = 7;
  idempotency_key = "e1";
  event_type = payment_failed;
  payload = "{}";
  status = WebhookEventStatus.pending;
  attempts = 0;
  last_attempt = none;
  created_at = 0;
}

abbrev failing : World ℕ
failing = record start {
  db = record start.db {
    accounts = under_way;
    payments = first_payout ∷ [];
    webhook_events = event ∷ [];
  };
}

under_way-IsBook : IsBook under_way
under_way-IsBook = record { unique_ids = (refl, (refl, tt)); funds = ground arith }

first_payout-HasAmounts : HasAmounts first_payout
first_payout-HasAmounts = record {
  source_from_zero = ground arith;
  source_fits = ground arith;
  dest_from_zero = ground arith;
  dest_fits = ground arith;
  same = λ _. refl;
}

source_in_currency : (a : Account) → find (Accounts.has_id 21) under_way ≡ some a → a.currency ≡ usd
source_in_currency a h = cc

run_failed : (handle_failed codec first_payout "no such account" failing).0 ≡ ok tt
unfolding handle_failed handle_failed_body get_system_account write_same_currency_reversal
    write_reversal_entries write_entry lock_accounts_in_order lock_order lock_each locked_account
    Accounts.get_by_user_and_currency Accounts.get_for_update Accounts.update_balance
    Accounts.update_accounts Payments.update_status Payments.update_payments Ledger.create
    Ledger.insert_entry Events.create Events.insert_event pure lift gets or_not_found deref ◌>>=◌
    skip raise_if driver_call new_uuid now run_statement statement query transact sort insert add64
    sub64 ◌+ℤ◌ ◌-ℤ◌
run_failed = refl

handle_failed-Conserved_example :
    Conserved 100 failing.db (handle_failed codec first_payout "no such account" failing).1.db
handle_failed-Conserved_example =
    handle_failed-Conserved codec first_payout first_payout-HasAmounts "no such account" failing
      under_way-IsBook source_in_currency
      (handle_failed codec first_payout "no such account" failing).1 (with_world run_failed)

-- The payout and then its failure.
abbrev paid : World ℕ
paid = (create_external_payout service payout start).1

run_payout_failed : (handle_failed codec first_payout "no such account" paid).0 ≡ ok tt
unfolding handle_failed handle_failed_body write_same_currency_reversal write_reversal_entries
    write_entry lock_accounts_in_order lock_order lock_each locked_account
    Accounts.get_by_user_and_currency Accounts.get_for_update Accounts.update_balance
    Accounts.update_accounts Payments.update_status Payments.update_payments Ledger.create
    Ledger.insert_entry Events.create Events.insert_event pure lift gets or_not_found deref ◌>>=◌
    skip raise_if driver_call new_uuid now run_statement statement query transact sort insert add64
    sub64 ◌+ℤ◌ ◌-ℤ◌ create_external_payout validate_external_payout tx_limit_for_currency
    execute_external_payout execute_same_currency_payout same_currency_payout_body
    submit_to_provider verify_account_active write_external_ledger_entries write_payment_event
    Payments.create Payments.insert_payment map_error Service.get_system_account
    Webhooks.get_system_account
run_payout_failed = refl

create_external_payout-balances_example :
    balance_of 26 paid.db.accounts
    ≡ balance_of 26 start.db.accounts +ℤ payout_flow start.db.accounts first_payout 26
create_external_payout-balances_example =
    create_external_payout-balances service payout service-ConvertsWithin (ground arith) start paid
      first_payout accounts-IsBook (with_world run_payout) 26

create_external_payout-handle_failed_example :
    balance_of 21 (handle_failed codec first_payout "no such account" paid).1.db.accounts
    ≡ balance_of 21 start.db.accounts
create_external_payout-handle_failed_example =
    create_external_payout-handle_failed service payout service-ConvertsWithin (ground arith) start
      paid first_payout accounts-IsBook (with_world run_payout) codec "no such account"
      (handle_failed codec first_payout "no such account" paid).1 (with_world run_payout_failed) 21

run_completed : (handle_completed first_payout "ref" failing).0 ≡ ok tt
unfolding handle_completed handle_completed_body Payments.update_status Payments.update_payments
    Events.create Events.insert_event ◌>>=◌ raise_if driver_call new_uuid now run_statement
    statement transact
run_completed = refl

handle_completed-Completes_example :
    Completes first_payout "ref" failing.db (handle_completed first_payout "ref" failing).1.db
handle_completed-Completes_example =
    handle_completed-Completes first_payout "ref" failing
      (handle_completed first_payout "ref" failing).1 (with_world run_completed)

poll-History_example : History failing.db (poll codec failing).1.db
poll-History_example = poll-History codec failing

-- The report comes again for a payment that is completed.
abbrev late : World ℕ
late = record start {
  db = record start.db { payments = first_payment ∷ []; webhook_events = event ∷ [] };
}

process_event_terminal_example : OnlyWebhookEvents late.db (process_event codec event late).1.db
process_event_terminal_example =
    process_event_terminal codec event report 100 late first_payment refl refl refl refl

process_event-Settles_example : SettlesOrFails 7 failing (process_event codec event failing)
process_event-Settles_example = process_event-Settles codec event failing
