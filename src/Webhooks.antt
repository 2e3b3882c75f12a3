-- ===== src/Webhooks.antt =====
-- internal/service/webhook_processor.go and webhook_reversal.go: the processor of the events that the
-- payment provider reports. Decoding a payload (encoding/json), parsing an identifier
-- (github.com/google/uuid) and encoding a reason come as a parameter, the codec.
pub mod Keeps
pub mod History
pub mod Settles
pub mod Reversal
pub mod Flow
pub mod Failed
pub mod GivesBack
pub mod Cycle
pub mod Completed
pub mod Terminal
use grey_backend_assessment.Prelude.{
  ℕ, String, Bool, true, false, not, Option, none, some, List, [], ◌∷◌, ◌++◌, if◌then◌else◌, str_eq,
}
use grey_backend_assessment.Prelude.Int.{ℤ, pos, add64}
use grey_backend_assessment.Domain.{
  Uuid, Time, Currency, same_currency, Account, AccountType, Payment, PaymentStatus, EntryType,
  debit, credit, PaymentEvent, PaymentEventType, system, WebhookEvent, WebhookEventStatus, Error,
  is_payment_terminal,
}
use grey_backend_assessment.Session.{
  caught, World, Result, ok, err, Session, pure, raise, skip, deref, new_uuid, now, transact, ◌>>=◌,
  ◌>>◌,
}
use grey_backend_assessment.Repository.Accounts.{get_by_user_and_currency, update_balance}
use grey_backend_assessment.Repository.Payments
use grey_backend_assessment.Repository.Events
use grey_backend_assessment.Repository.Webhooks
use grey_backend_assessment.Payments.Service.{system_user_id}
use grey_backend_assessment.Payments.Locks.{LockedAccounts, locked_account, lock_accounts_in_order}
use grey_backend_assessment.Payments.Entries.{posting, balance_after, write_entry}

pub record WebhookCallbackPayload : Type 0 where
  pub event_id : String
  pub payment_id : String
  pub status : String
  pub provider_ref : String
  pub reason : String

pub record Codec : Type 0 where
  pub unmarshal : String → Option WebhookCallbackPayload
  pub parse_uuid : String → Option Uuid
  pub marshal_reason : String → String

-- isTerminalStatus
abbrev pub is_terminal_status : PaymentStatus → Bool
is_terminal_status PaymentStatus.completed = true
is_terminal_status PaymentStatus.failed = true
is_terminal_status PaymentStatus.reversed = true
is_terminal_status _ = false

-- `account` is a pointer out of the map of locked rows.
pub record ReversalEntry : Type 0 where
  pub account : Option Account
  pub entry_type : EntryType
  pub amount : ℤ
  pub currency : Currency

abbrev pub reversal_entry : Option Account → EntryType → ℤ → Currency → ReversalEntry
reversal_entry account entry_type amount currency = record {
  account = account;
  entry_type = entry_type;
  amount = amount;
  currency = currency;
}

-- "system" is the actor.
abbrev pub system_event : Uuid → Uuid → PaymentEventType → Option String → Time → PaymentEvent
system_event id payment_id event_type payload at = record {
  id = id;
  payment_id = payment_id;
  event_type = event_type;
  actor = system;
  payload = payload;
  created_at = at;
}

-- if providerRef != "" { ref = &providerRef }
abbrev pub ref_of : String → Option String
ref_of provider_ref = if str_eq provider_ref "" then none else some provider_ref

module _ {D : Type 0} where
  unfoldable pub write_reversal_entries : Uuid → List ReversalEntry → Time → Session D Unit
  write_reversal_entries payment_id [] at = skip
  write_reversal_entries payment_id (e ∷ entries) at = do
    account ← deref e.account
    let new_balance = balance_after e.entry_type account.balance e.amount
    write_entry payment_id at (posting account e.entry_type e.amount e.currency) new_balance
    update_balance account.id new_balance (add64 account.version (pos 1))
    write_reversal_entries payment_id entries at

  abbrev pub same_currency_entries : Payment D → LockedAccounts → Uuid → List ReversalEntry
  same_currency_entries pmt locked outgoing_id =
      reversal_entry (locked_account outgoing_id locked) debit pmt.dest_amount pmt.dest_currency
      ∷ reversal_entry (locked_account pmt.source_account_id locked) credit pmt.source_amount
          pmt.source_currency
      ∷ []

  unfoldable pub write_same_currency_reversal :
      Payment D → LockedAccounts → Uuid → Time → Session D Unit
  write_same_currency_reversal pmt locked outgoing_id at =
      write_reversal_entries pmt.id (same_currency_entries pmt locked outgoing_id) at

  abbrev pub cross_currency_entries :
      Payment D → LockedAccounts → Uuid → Uuid → Uuid → List ReversalEntry
  cross_currency_entries pmt locked outgoing_id fx_pool_source_id fx_pool_dest_id =
      reversal_entry (locked_account outgoing_id locked) debit pmt.dest_amount pmt.dest_currency
      ∷ reversal_entry (locked_account fx_pool_dest_id locked) credit pmt.dest_amount
          pmt.dest_currency
      ∷ reversal_entry (locked_account fx_pool_source_id locked) debit pmt.source_amount
          pmt.source_currency
      ∷ reversal_entry (locked_account pmt.source_account_id locked) credit pmt.source_amount
          pmt.source_currency
      ∷ []

  unfoldable pub write_cross_currency_reversal :
      Payment D → LockedAccounts → Uuid → Uuid → Uuid → Time → Session D Unit
  write_cross_currency_reversal pmt locked outgoing_id fx_pool_source_id fx_pool_dest_id at =
      write_reversal_entries pmt.id
        (cross_currency_entries pmt locked outgoing_id fx_pool_source_id fx_pool_dest_id) at

  unfoldable pub get_system_account : AccountType → Currency → Session D Account
  get_system_account account_type currency =
      get_by_user_and_currency system_user_id currency account_type

  unfoldable pub handle_completed_body : Payment D → String → Session D Unit
  handle_completed_body payment provider_ref = do
    at ← now
    Payments.update_status payment.id PaymentStatus.completed (ref_of provider_ref) none (some at)
    id ← new_uuid
    Events.create (system_event id payment.id PaymentEventType.completed none at)

  unfoldable pub handle_completed : Payment D → String → Session D Unit
  handle_completed payment provider_ref = transact (handle_completed_body payment provider_ref)

module _ {D : Type 0} (codec : Codec) where
  -- What handleFailed does between BeginTx and Commit; `pools` are the two pools' identifiers for a
  -- payment across currencies.
  unfoldable pub handle_failed_body :
      Payment D → String → Uuid → Option (Uuid × Uuid) → Session D Unit
  handle_failed_body payment reason outgoing_id none = do
    locked ← lock_accounts_in_order (payment.source_account_id ∷ outgoing_id ∷ [])
    at ← now
    Payments.update_status payment.id PaymentStatus.failed none (some reason) none
    write_same_currency_reversal payment locked outgoing_id at
    id ← new_uuid
    Events.create
        (system_event id payment.id PaymentEventType.failed (some (codec.marshal_reason reason)) at)
  handle_failed_body payment reason outgoing_id (some (fx_source_id, fx_dest_id)) = do
    locked ←
        lock_accounts_in_order
          (payment.source_account_id ∷ outgoing_id ∷ fx_source_id ∷ fx_dest_id ∷ [])
    at ← now
    Payments.update_status payment.id PaymentStatus.failed none (some reason) none
    write_cross_currency_reversal payment locked outgoing_id fx_source_id fx_dest_id at
    id ← new_uuid
    Events.create
        (system_event id payment.id PaymentEventType.failed (some (codec.marshal_reason reason)) at)

  unfoldable pub fail_across_currencies : Payment D → String → Uuid → Session D Unit
  fail_across_currencies payment reason outgoing_id = do
    fx_src ← get_system_account AccountType.fx_pool payment.source_currency
    fx_dst ← get_system_account AccountType.fx_pool payment.dest_currency
    transact (handle_failed_body payment reason outgoing_id (some (fx_src.id, fx_dst.id)))

  unfoldable pub handle_failed : Payment D → String → Session D Unit
  handle_failed payment reason = do
    outgoing ← get_system_account AccountType.outgoing payment.dest_currency
    if not (same_currency payment.source_currency payment.dest_currency)
        then fail_across_currencies payment reason outgoing.id
        else transact (handle_failed_body payment reason outgoing.id none)

  -- What the outcome of a handler makes of the event.
  unfoldable pub after_handler : WebhookEvent → Result Unit → Session D Unit
  after_handler event (ok _) = Webhooks.update_status event.id WebhookEventStatus.dispatched
  after_handler event (err e) =
      if is_payment_terminal e
      then Webhooks.update_status event.id WebhookEventStatus.dispatched
      else raise e

  -- switch payload.Status
  unfoldable pub dispatch : WebhookEvent → Payment D → WebhookCallbackPayload → Session D Unit
  dispatch event payment payload =
      if str_eq payload.status "completed"
      then caught (handle_completed payment payload.provider_ref) >>= after_handler event
      else if str_eq payload.status "failed"
      then caught (handle_failed payment payload.reason) >>= after_handler event
      else Webhooks.update_status event.id WebhookEventStatus.failed

  -- if err != nil of GetByID, then the rest
  unfoldable pub with_payment :
      WebhookEvent → WebhookCallbackPayload → Result (Payment D) → Session D Unit
  with_payment event payload (err e) = Webhooks.update_status event.id WebhookEventStatus.failed
  with_payment event payload (ok payment) =
      if is_terminal_status payment.status
      then Webhooks.update_status event.id WebhookEventStatus.dispatched
      else dispatch event payment payload

  unfoldable pub with_payment_id :
      WebhookEvent → WebhookCallbackPayload → Option Uuid → Session D Unit
  with_payment_id event payload none = Webhooks.update_status event.id WebhookEventStatus.failed
  with_payment_id event payload (some payment_id) =
      caught (Payments.get_by_id payment_id) >>= with_payment event payload

  unfoldable pub with_payload : WebhookEvent → Option WebhookCallbackPayload → Session D Unit
  with_payload event none = Webhooks.update_status event.id WebhookEventStatus.failed
  with_payload event (some payload) =
      with_payment_id event payload (codec.parse_uuid payload.payment_id)

  unfoldable pub process_event : WebhookEvent → Session D Unit
  process_event event = with_payload event (codec.unmarshal event.payload)

  -- for _, event := range events: an error is logged
  unfoldable pub process_all : List WebhookEvent → Session D Unit
  process_all [] = skip
  process_all (event ∷ events) = caught (process_event event) >>= λ _. process_all events

  -- A failed fetch is logged.
  unfoldable pub poll_fetched : Result (List WebhookEvent) → Session D Unit
  poll_fetched (err e) = skip
  poll_fetched (ok events) = process_all events

  unfoldable pub poll : Session D Unit
  poll = caught (Webhooks.get_pending 10) >>= poll_fetched
