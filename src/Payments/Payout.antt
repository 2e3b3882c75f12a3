-- ===== src/Payments/Payout.antt =====
-- internal/service/payment/external_payout.go and external_payout_fx.go: payouts to a bank account
-- outside, which the provider is asked for after the commit.
pub mod Settles
pub mod SettlesFx
pub mod Provider
pub mod Moved
pub mod Conserves
use grey_backend_assessment.Prelude.{
  String, Bool, not, Option, none, some, List, [], ◌∷◌, if◌then◌else◌, str_eq,
}
use grey_backend_assessment.Prelude.Int.{ℤ, pos, ltb_ℤ, leb_ℤ, add64, sub64}
use grey_backend_assessment.Domain.{
  Uuid, Time, Currency, same_currency, Account, AccountType, is_frozen, is_active, Payment,
  PaymentStatus, external_payout, PaymentEventType, account_not_found, invalid_amount,
  invalid_request, account_frozen, account_closed, limit_exceeded, insufficient_funds,
}
use grey_backend_assessment.Session.{
  World, ProviderRequest, Result, ok, err, Session, pure, lift, deref, map_error, raise_if,
  new_uuid, now, transact, ◌>>=◌, ◌>>◌,
}
use grey_backend_assessment.Repository.Accounts.{get_by_user_and_currency, update_balance}
use grey_backend_assessment.Repository.Payments
use grey_backend_assessment.Fx.{Conversion}
use grey_backend_assessment.Payments.Service.{Service, tx_limit_for_currency, get_system_account}
use grey_backend_assessment.Payments.Locks.{
  lock_accounts_in_order, locked_account, verify_account_active,
}
use grey_backend_assessment.Payments.Entries.{
  write_external_ledger_entries, write_cross_currency_external_ledger_entries, write_payment_event,
}
use grey_backend_assessment.Payments.Transfer.{if_not_found, if_duplicate}

pub record ExternalPayoutRequest : Type 0 where
  pub sender_user_id : Uuid
  pub source_currency : Currency
  pub dest_currency : Currency
  pub amount : ℤ
  pub dest_iban : String
  pub dest_bank_name : String
  pub idempotency_key : String

unfoldable pub validate_external_payout :
    {D : Type 0} → Service D → ExternalPayoutRequest → Account → Result Unit
validate_external_payout s req sender =
    if leb_ℤ req.amount (pos 0)
    then err invalid_amount
    else if str_eq req.dest_iban ""
    then err invalid_request
    else if str_eq req.dest_bank_name ""
    then err invalid_request
    else if is_frozen sender.status
    then err account_frozen
    else if not (is_active sender.status)
    then err account_closed
    else if ltb_ℤ (tx_limit_for_currency s req.source_currency) req.amount
    then err limit_exceeded
    else ok tt

-- stringVal
abbrev pub string_val : Option String → String
string_val none = ""
string_val (some s) = s

module _ {D : Type 0} where
  -- The identifier is drawn by the caller of this record, where buildExternalPayment draws it.
  abbrev pub build_external_payment :
      ExternalPayoutRequest → Uuid → Uuid → ℤ → Option D → Option Currency → Time → Payment D
  build_external_payment req id sender_id dest_amount exchange_rate fee_currency at = record {
    id = id;
    idempotency_key = req.idempotency_key;
    payment_type = external_payout;
    status = PaymentStatus.pending;
    source_account_id = sender_id;
    dest_account_id = none;
    dest_account_number = none;
    dest_iban = some req.dest_iban;
    dest_swift_bic = none;
    dest_bank_name = some req.dest_bank_name;
    source_amount = req.amount;
    source_currency = req.source_currency;
    dest_amount = dest_amount;
    dest_currency = req.dest_currency;
    exchange_rate = exchange_rate;
    fee_amount = pos 0;
    fee_currency = fee_currency;
    provider = none;
    provider_ref = none;
    failure_reason = none;
    metadata = none;
    created_at = at;
    updated_at = at;
    completed_at = none;
  }

  -- The row of a payout across currencies, with its fee.
  abbrev pub converted_payment :
      ExternalPayoutRequest → Uuid → Uuid → Conversion D → Time → Payment D
  converted_payment req id sender_id conversion at =
      record (build_external_payment req id sender_id conversion.dest_amount
        (some conversion.exchange_rate) (some req.dest_currency) at) {
          fee_amount = conversion.fee_amount;
        }

  -- What executeSameCurrencyExternalPayout does between BeginTx and Commit.
  unfoldable pub same_currency_payout_body :
      ExternalPayoutRequest → Uuid → Uuid → Session D (Payment D)
  same_currency_payout_body req sender_id outgoing_id = do
    locked ← lock_accounts_in_order (sender_id ∷ outgoing_id ∷ [])
    sender ← deref (locked_account sender_id locked)
    lift (verify_account_active sender)
    raise_if (ltb_ℤ sender.balance req.amount) insufficient_funds
    at ← now
    id ← new_uuid
    let p = build_external_payment req id sender_id req.amount none none at
    Payments.create p
    outgoing ← deref (locked_account outgoing_id locked)
    write_external_ledger_entries p sender outgoing
    write_payment_event p.id PaymentEventType.created req.sender_user_id at
    update_balance sender.id (sub64 sender.balance req.amount) (add64 sender.version (pos 1))
    update_balance outgoing.id (add64 outgoing.balance req.amount) (add64 outgoing.version (pos 1))
    pure p

  unfoldable pub execute_same_currency_payout : ExternalPayoutRequest → Uuid → Session D (Payment D)
  execute_same_currency_payout req sender_id = do
    outgoing ← get_system_account AccountType.outgoing req.dest_currency
    transact (same_currency_payout_body req sender_id outgoing.id)

  -- What executeCrossCurrencyExternalPayout does between BeginTx and Commit.
  unfoldable pub cross_currency_payout_body :
      ExternalPayoutRequest → Uuid → Conversion D → Uuid → Uuid → Uuid → Session D (Payment D)
  cross_currency_payout_body req sender_id conversion fx_source_id fx_dest_id outgoing_id = do
    locked ← lock_accounts_in_order (sender_id ∷ fx_source_id ∷ fx_dest_id ∷ outgoing_id ∷ [])
    sender ← deref (locked_account sender_id locked)
    lift (verify_account_active sender)
    raise_if (ltb_ℤ sender.balance req.amount) insufficient_funds
    fx_dst ← deref (locked_account fx_dest_id locked)
    raise_if (ltb_ℤ fx_dst.balance conversion.dest_amount) insufficient_funds
    at ← now
    id ← new_uuid
    let p = converted_payment req id sender_id conversion at
    Payments.create p
    fx_src ← deref (locked_account fx_source_id locked)
    outgoing ← deref (locked_account outgoing_id locked)
    write_cross_currency_external_ledger_entries p sender fx_src fx_dst outgoing
    write_payment_event p.id PaymentEventType.created req.sender_user_id at
    update_balance sender.id (sub64 sender.balance req.amount) (add64 sender.version (pos 1))
    update_balance fx_src.id (add64 fx_src.balance req.amount) (add64 fx_src.version (pos 1))
    update_balance fx_dst.id (sub64 fx_dst.balance conversion.dest_amount)
        (add64 fx_dst.version (pos 1))
    update_balance outgoing.id (add64 outgoing.balance conversion.dest_amount)
        (add64 outgoing.version (pos 1))
    pure p

  unfoldable pub execute_cross_currency_payout :
      Service D → ExternalPayoutRequest → Uuid → Session D (Payment D)
  execute_cross_currency_payout s req sender_id = do
    conversion ← lift (s.convert req.amount req.source_currency req.dest_currency)
    fx_pool_source ← get_system_account AccountType.fx_pool req.source_currency
    fx_pool_dest ← get_system_account AccountType.fx_pool req.dest_currency
    outgoing ← get_system_account AccountType.outgoing req.dest_currency
    transact (
        cross_currency_payout_body req sender_id conversion fx_pool_source.id fx_pool_dest.id
          outgoing.id)

  unfoldable pub execute_external_payout :
      Service D → ExternalPayoutRequest → Uuid → Session D (Payment D)
  execute_external_payout s req sender_id =
      if not (same_currency req.source_currency req.dest_currency)
      then execute_cross_currency_payout s req sender_id
      else execute_same_currency_payout req sender_id

  abbrev pub provider_request : Payment D → ProviderRequest
  provider_request p = record {
    payment_id = p.id;
    amount = p.dest_amount;
    currency = p.dest_currency;
    dest_iban = string_val p.dest_iban;
    dest_bank_name = string_val p.dest_bank_name;
  }

  -- What the provider answers is only logged.
  unfoldable pub submit_to_provider : Service D → Payment D → Session D Unit
  submit_to_provider s p w =
      if s.has_provider
      then (ok tt, record w { sent = provider_request p ∷ w.sent })
      else (ok tt, w)

  unfoldable pub create_external_payout : Service D → ExternalPayoutRequest → Session D (Payment D)
  create_external_payout s req = do
    sender_acct ←
        map_error (if_not_found account_not_found)
          (get_by_user_and_currency req.sender_user_id req.source_currency AccountType.user)
    lift (validate_external_payout s req sender_acct)
    p ← map_error if_duplicate (execute_external_payout s req sender_acct.id)
    submit_to_provider s p
    pure p
