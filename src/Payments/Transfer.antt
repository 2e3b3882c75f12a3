-- ===== src/Payments/Transfer.antt =====
-- internal/service/payment/transfer.go and transfer_fx.go: transfers between two users.
pub mod Settles
pub mod SettlesFx
pub mod Moved
pub mod Conserves
pub mod Validates
pub mod Self
pub mod Writes
pub mod Returns
use grey_backend_assessment.Prelude.{
  String, Bool, true, false, not, ◌&&◌, Option, none, some, List, [], ◌∷◌, ◌==◌, if◌then◌else◌,
}
use grey_backend_assessment.Prelude.Int.{ℤ, pos, ltb_ℤ, leb_ℤ, add64, sub64}
use grey_backend_assessment.Domain.{
  Uuid, Time, Currency, same_currency, Account, AccountType, is_frozen, is_active, Payment,
  PaymentStatus, internal_transfer, PaymentEventType, Error, is_not_found,
  is_duplicate_idempotency_key, recipient_not_found, account_not_found, invalid_amount,
  self_transfer, account_frozen, account_closed, limit_exceeded, insufficient_funds,
  duplicate_payment,
}
use grey_backend_assessment.Session.{
  Result, ok, err, Session, pure, lift, deref, map_error, raise_if, new_uuid, now, transact, ◌>>=◌,
  ◌>>◌,
}
use grey_backend_assessment.Repository.Accounts.{get_by_user_and_currency, update_balance}
use grey_backend_assessment.Repository.Payments
use grey_backend_assessment.Repository.Users
use grey_backend_assessment.Fx.{Conversion}
use grey_backend_assessment.Payments.Service.{Service, tx_limit_for_currency, get_system_account}
use grey_backend_assessment.Payments.Locks.{
  lock_accounts_in_order, locked_account, verify_account_active,
}
use grey_backend_assessment.Payments.Entries.{
  write_ledger_entries, write_cross_currency_ledger_entries, write_payment_event,
}

pub record InternalTransferRequest : Type 0 where
  pub sender_user_id : Uuid
  pub recipient_unique_name : String
  pub source_currency : Currency
  pub dest_currency : Currency
  pub amount : ℤ
  pub idempotency_key : String

-- if errors.Is(err, ErrNotFound) { return …: wanted } return …: err
abbrev pub if_not_found : Error → Error → Error
if_not_found wanted e = if is_not_found e then wanted else e

abbrev pub if_duplicate : Error → Error
if_duplicate e = if is_duplicate_idempotency_key e then duplicate_payment else e

unfoldable pub validate_transfer :
    {D : Type 0} → Service D → InternalTransferRequest → Account → Account → Result Unit
validate_transfer s req sender recipient =
    if leb_ℤ req.amount (pos 0)
    then err invalid_amount
    else if (sender.user_id == recipient.user_id)
        && same_currency req.source_currency req.dest_currency
    then err self_transfer
    else if is_frozen sender.status
    then err account_frozen
    else if not (is_active sender.status)
    then err account_closed
    else if is_frozen recipient.status
    then err account_frozen
    else if not (is_active recipient.status)
    then err account_closed
    else if ltb_ℤ (tx_limit_for_currency s req.source_currency) req.amount
    then err limit_exceeded
    else ok tt

module _ {D : Type 0} where
  unfoldable pub resolve_transfer_accounts : InternalTransferRequest → Session D (Account × Account)
  resolve_transfer_accounts req = do
    recipient ←
        map_error (if_not_found recipient_not_found)
          (Users.get_by_unique_name req.recipient_unique_name)
    recipient_acct ←
        map_error (if_not_found account_not_found)
          (get_by_user_and_currency recipient.id req.dest_currency AccountType.user)
    sender_acct ←
        map_error (if_not_found account_not_found)
          (get_by_user_and_currency req.sender_user_id req.source_currency AccountType.user)
    pure (sender_acct, recipient_acct)

  -- The row of a transfer, which is complete at once.
  abbrev pub transfer_payment :
      InternalTransferRequest
      → Uuid
      → Uuid
      → Uuid
      → ℤ
      → Option D
      → ℤ
      → Option Currency
      → Time
      → Payment D
  transfer_payment req id sender_id recipient_id dest_amount exchange_rate fee_amount fee_currency
        at =
      record {
        id = id;
        idempotency_key = req.idempotency_key;
        payment_type = internal_transfer;
        status = PaymentStatus.completed;
        source_account_id = sender_id;
        dest_account_id = some recipient_id;
        dest_account_number = none;
        dest_iban = none;
        dest_swift_bic = none;
        dest_bank_name = none;
        source_amount = req.amount;
        source_currency = req.source_currency;
        dest_amount = dest_amount;
        dest_currency = req.dest_currency;
        exchange_rate = exchange_rate;
        fee_amount = fee_amount;
        fee_currency = fee_currency;
        provider = none;
        provider_ref = none;
        failure_reason = none;
        metadata = none;
        created_at = at;
        updated_at = at;
        completed_at = some at;
      }

  -- What executeSameCurrencyTransfer does between BeginTx and Commit.
  unfoldable pub same_currency_body : InternalTransferRequest → Uuid → Uuid → Session D (Payment D)
  same_currency_body req sender_id recipient_id = do
    locked ← lock_accounts_in_order (sender_id ∷ recipient_id ∷ [])
    sender ← deref (locked_account sender_id locked)
    recipient ← deref (locked_account recipient_id locked)
    lift (verify_account_active sender)
    lift (verify_account_active recipient)
    raise_if (ltb_ℤ sender.balance req.amount) insufficient_funds
    at ← now
    id ← new_uuid
    let p = transfer_payment req id sender_id recipient_id req.amount none (pos 0) none at
    Payments.create p
    write_ledger_entries p sender recipient
    write_payment_event p.id PaymentEventType.completed req.sender_user_id at
    update_balance sender_id (sub64 sender.balance req.amount) (add64 sender.version (pos 1))
    update_balance recipient_id (add64 recipient.balance req.amount)
        (add64 recipient.version (pos 1))
    pure p

  unfoldable pub execute_same_currency_transfer :
      InternalTransferRequest → Uuid → Uuid → Session D (Payment D)
  execute_same_currency_transfer req sender_id recipient_id =
      transact (same_currency_body req sender_id recipient_id)

  -- What executeCrossCurrencyTransfer does between BeginTx and Commit.
  unfoldable pub cross_currency_body :
      InternalTransferRequest → Uuid → Uuid → Conversion D → Uuid → Uuid → Session D (Payment D)
  cross_currency_body req sender_id recipient_id conversion fx_source_id fx_dest_id = do
    locked ← lock_accounts_in_order (sender_id ∷ fx_source_id ∷ fx_dest_id ∷ recipient_id ∷ [])
    sender ← deref (locked_account sender_id locked)
    recipient ← deref (locked_account recipient_id locked)
    fx_src ← deref (locked_account fx_source_id locked)
    fx_dst ← deref (locked_account fx_dest_id locked)
    lift (verify_account_active sender)
    lift (verify_account_active recipient)
    raise_if (ltb_ℤ sender.balance req.amount) insufficient_funds
    raise_if (ltb_ℤ fx_dst.balance conversion.dest_amount) insufficient_funds
    at ← now
    id ← new_uuid
    let p =
        transfer_payment req id sender_id recipient_id conversion.dest_amount
          (some conversion.exchange_rate) conversion.fee_amount (some req.dest_currency) at
    Payments.create p
    write_cross_currency_ledger_entries p sender fx_src fx_dst recipient
    write_payment_event p.id PaymentEventType.completed req.sender_user_id at
    update_balance sender.id (sub64 sender.balance req.amount) (add64 sender.version (pos 1))
    update_balance fx_src.id (add64 fx_src.balance req.amount) (add64 fx_src.version (pos 1))
    update_balance fx_dst.id (sub64 fx_dst.balance conversion.dest_amount)
        (add64 fx_dst.version (pos 1))
    update_balance recipient.id (add64 recipient.balance conversion.dest_amount)
        (add64 recipient.version (pos 1))
    pure p

  unfoldable pub execute_cross_currency_transfer :
      Service D → InternalTransferRequest → Uuid → Uuid → Session D (Payment D)
  execute_cross_currency_transfer s req sender_id recipient_id = do
    conversion ← lift (s.convert req.amount req.source_currency req.dest_currency)
    fx_pool_source ← get_system_account AccountType.fx_pool req.source_currency
    fx_pool_dest ← get_system_account AccountType.fx_pool req.dest_currency
    transact (
        cross_currency_body req sender_id recipient_id conversion fx_pool_source.id fx_pool_dest.id)

  unfoldable pub execute_transfer :
      Service D → InternalTransferRequest → Uuid → Uuid → Session D (Payment D)
  execute_transfer s req sender_id recipient_id =
      if not (same_currency req.source_currency req.dest_currency)
      then execute_cross_currency_transfer s req sender_id recipient_id
      else execute_same_currency_transfer req sender_id recipient_id

  unfoldable pub create_internal_transfer :
      Service D → InternalTransferRequest → Session D (Payment D)
  create_internal_transfer s req = do
    accounts ← resolve_transfer_accounts req
    let sender_acct = accounts.0
    let recipient_acct = accounts.1
    lift (validate_transfer s req sender_acct recipient_acct)
    map_error if_duplicate (execute_transfer s req sender_acct.id recipient_acct.id)
