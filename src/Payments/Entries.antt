-- ===== src/Payments/Entries.antt =====
-- internal/service/payment: the ledger entries and the audit event of a payment.
pub mod Laws
use grey_backend_assessment.Prelude.{Bool, Option, none, List, [], ◌∷◌}
use grey_backend_assessment.Prelude.Int.{ℤ, add64, sub64}
use grey_backend_assessment.Domain.{
  Uuid, Time, Currency, Account, Payment, EntryType, debit, credit, LedgerEntry, PaymentEvent,
  PaymentEventType, Actor, user_actor,
}
use grey_backend_assessment.Session.{Session, skip, new_uuid, ◌>>=◌, ◌>>◌}
use grey_backend_assessment.Repository.Ledger
use grey_backend_assessment.Repository.Events

-- One side of a movement of money, against a locked account (`reversalEntry`, and the rows of the
-- tables in the cross-currency flows).
pub record Posting : Type 0 where
  pub account : Account
  pub entry_type : EntryType
  pub amount : ℤ
  pub currency : Currency

-- if e.entryType == EntryTypeDebit { … - … } else { … + … }
abbrev pub balance_after : EntryType → ℤ → ℤ → ℤ
balance_after debit balance amount = sub64 balance amount
balance_after credit balance amount = add64 balance amount

abbrev pub new_balance : Posting → ℤ
new_balance q = balance_after q.entry_type q.account.balance q.amount

abbrev pub entry_for : Uuid → Uuid → Time → Posting → ℤ → LedgerEntry
entry_for id payment_id at q new_bal = record {
  id = id;
  payment_id = payment_id;
  account_id = q.account.id;
  entry_type = q.entry_type;
  amount = q.amount;
  currency = q.currency;
  balance_before = q.account.balance;
  balance_after = new_bal;
  created_at = at;
}

abbrev pub posting : Account → EntryType → ℤ → Currency → Posting
posting account entry_type amount currency = record {
  account = account;
  entry_type = entry_type;
  amount = amount;
  currency = currency;
}

module _ {D : Type 0} where
  unfoldable pub write_entry : Uuid → Time → Posting → ℤ → Session D Unit
  write_entry payment_id at q new_bal = do
    id ← new_uuid
    Ledger.create (entry_for id payment_id at q new_bal)

  -- The loop over the rows of a cross-currency payment.
  unfoldable pub write_entries : Uuid → Time → List (Posting × ℤ) → Session D Unit
  write_entries payment_id at [] = skip
  write_entries payment_id at ((q, new_bal) ∷ rows) = do
    write_entry payment_id at q new_bal
    write_entries payment_id at rows

  unfoldable pub write_ledger_entries : Payment D → Account → Account → Session D Unit
  write_ledger_entries p sender recipient = do
    write_entry p.id p.created_at (posting sender debit p.source_amount p.source_currency)
        (sub64 sender.balance p.source_amount)
    write_entry p.id p.created_at (posting recipient credit p.dest_amount p.dest_currency)
        (add64 recipient.balance p.dest_amount)

  unfoldable pub write_cross_currency_ledger_entries :
      Payment D → Account → Account → Account → Account → Session D Unit
  write_cross_currency_ledger_entries p sender fx_pool_source fx_pool_dest recipient =
      write_entries p.id p.created_at (
        (
          posting sender debit p.source_amount p.source_currency,
          sub64 sender.balance p.source_amount,
        )
        ∷ (
          posting fx_pool_source credit p.source_amount p.source_currency,
          add64 fx_pool_source.balance p.source_amount,
        )
        ∷ (
          posting fx_pool_dest debit p.dest_amount p.dest_currency,
          sub64 fx_pool_dest.balance p.dest_amount,
        )
        ∷ (
          posting recipient credit p.dest_amount p.dest_currency,
          add64 recipient.balance p.dest_amount,
        )
        ∷ [])

  unfoldable pub write_external_ledger_entries : Payment D → Account → Account → Session D Unit
  write_external_ledger_entries p sender outgoing = do
    write_entry p.id p.created_at (posting sender debit p.source_amount p.source_currency)
        (sub64 sender.balance p.source_amount)
    write_entry p.id p.created_at (posting outgoing credit p.dest_amount p.dest_currency)
        (add64 outgoing.balance p.dest_amount)

  -- The loop that works the new balance out from the entry's type.
  unfoldable pub write_postings : Uuid → Time → List Posting → Session D Unit
  write_postings payment_id at [] = skip
  write_postings payment_id at (q ∷ qs) = do
    write_entry payment_id at q (new_balance q)
    write_postings payment_id at qs

  unfoldable pub write_cross_currency_external_ledger_entries :
      Payment D → Account → Account → Account → Account → Session D Unit
  write_cross_currency_external_ledger_entries p sender fx_pool_source fx_pool_dest outgoing =
      write_postings p.id p.created_at (
        posting sender debit p.source_amount p.source_currency
        ∷ posting fx_pool_source credit p.source_amount p.source_currency
        ∷ posting fx_pool_dest debit p.dest_amount p.dest_currency
        ∷ posting outgoing credit p.dest_amount p.dest_currency
        ∷ [])

  unfoldable pub write_payment_event : Uuid → PaymentEventType → Uuid → Time → Session D Unit
  write_payment_event payment_id event_type actor_user_id at = do
    id ← new_uuid
    Events.create (record {
      id = id;
      payment_id = payment_id;
      event_type = event_type;
      actor = user_actor actor_user_id;
      payload = none;
      created_at = at;
    })
