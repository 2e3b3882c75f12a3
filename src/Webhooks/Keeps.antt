-- ===== src/Webhooks/Keeps.antt =====
-- internal/service/webhook_processor.go and webhook_reversal.go: what the statements of the two handlers
-- keep, the handlers keep, for any relation of the tables before and after.
use grey_backend_assessment.Prelude.{
  String, List, [], ◌∷◌, Option, none, some, Bool-cases, inl, inr,
}
use grey_backend_assessment.Prelude.Int.{ℤ}
use grey_backend_assessment.Domain.{
  Uuid, Time, Currency, AccountType, Payment, PaymentStatus, LedgerEntry, PaymentEvent,
  same_currency,
}
use grey_backend_assessment.Session.Preserves.{
  Preorder, Preserves, Preserves-bind, Preserves-deref, Preserves-now, Preserves-new_uuid,
  Preserves-skip, Preserves-transact, Preserves-pure, Preserves-gets, Preserves-query,
  Preserves-or_not_found,
}
use grey_backend_assessment.Repository.Accounts
use grey_backend_assessment.Repository.Payments
use grey_backend_assessment.Repository.Ledger
use grey_backend_assessment.Repository.Events
use grey_backend_assessment.Payments.Locks.{LockedAccounts, lock_each, lock_accounts_in_order}
use grey_backend_assessment.Payments.Entries.{Posting, write_entry}
use grey_backend_assessment.Webhooks.{
  Codec, ReversalEntry, write_reversal_entries, write_same_currency_reversal,
  write_cross_currency_reversal, get_system_account, handle_completed_body, handle_completed,
  handle_failed_body, fail_across_currencies, handle_failed,
}

-- The statements that write keep the relation.
pub record Keeps {D : Type 0} (order : Preorder D) : Type 0 where
  pub update_status :
      (id : Uuid) (status : PaymentStatus) (provider_ref failure_reason : Option String)
      (completed_at : Option Time)
      → Preserves order (Payments.update_status id status provider_ref failure_reason completed_at)
  pub create_entry : (e : LedgerEntry) → Preserves order (Ledger.create e)
  pub create_event : (e : PaymentEvent) → Preserves order (Events.create e)
  pub update_balance :
      (id : Uuid) (balance version : ℤ)
      → Preserves order (Accounts.update_balance id balance version)

module _ {D : Type 0} (order : Preorder D) (k : Keeps order) where
  Preserves-lock_each : (ids : List Uuid) (m : LockedAccounts) → Preserves order (lock_each ids m)
  unfolding lock_each Accounts.get_for_update
  Preserves-lock_each [] m = Preserves-pure order m
  Preserves-lock_each (id ∷ ids) m =
      Preserves-bind order
        (Preserves-bind order (Preserves-query order _) λ row. Preserves-or_not_found order row)
        λ a. Preserves-lock_each ids ((id, a) ∷ m)

  Preserves-lock_accounts_in_order :
      (ids : List Uuid) → Preserves order (lock_accounts_in_order ids)
  unfolding lock_accounts_in_order
  Preserves-lock_accounts_in_order ids =
      Preserves-bind order (Preserves-gets order _) λ sorted. Preserves-lock_each sorted []

  Preserves-write_entry :
      (payment_id : Uuid) (at : Time) (q : Posting) (b : ℤ)
      → Preserves order (write_entry payment_id at q b)
  unfolding write_entry
  Preserves-write_entry payment_id at q b =
      Preserves-bind order (Preserves-new_uuid order) λ id. k.create_entry _

  Preserves-get_account :
      (user_id : Uuid) (c : Currency) (t : AccountType)
      → Preserves order (Accounts.get_by_user_and_currency user_id c t)
  unfolding Accounts.get_by_user_and_currency
  Preserves-get_account user_id c t =
      Preserves-bind order (Preserves-query order _) λ row. Preserves-or_not_found order row

  Preserves-write_reversal_entries :
      (payment_id : Uuid) (entries : List ReversalEntry) (at : Time)
      → Preserves order (write_reversal_entries payment_id entries at)
  unfolding write_reversal_entries
  Preserves-write_reversal_entries payment_id [] at = Preserves-skip order
  Preserves-write_reversal_entries payment_id (e ∷ entries) at =
      Preserves-bind order (Preserves-deref order e.account) λ account.
        Preserves-bind order (Preserves-write_entry _ _ _ _) λ _.
          Preserves-bind order (k.update_balance _ _ _)
            λ _. Preserves-write_reversal_entries payment_id entries at

  Preserves-get_system_account :
      (t : AccountType) (c : Currency) → Preserves order (get_system_account t c)
  unfolding get_system_account
  Preserves-get_system_account t c = Preserves-get_account _ c t

  pub Preserves-handle_completed :
      (p : Payment D) (ref : String) → Preserves order (handle_completed p ref)
  unfolding handle_completed handle_completed_body
  Preserves-handle_completed p ref = Preserves-transact order (
      Preserves-bind order (Preserves-now order) λ at.
        Preserves-bind order (k.update_status _ _ _ _ _)
          λ _. Preserves-bind order (Preserves-new_uuid order) λ id. k.create_event _)

  module _ (codec : Codec) where
    Preserves-handle_failed_body :
        (p : Payment D) (reason : String) (o : Uuid) (pools : Option (Uuid × Uuid))
        → Preserves order (handle_failed_body codec p reason o pools)
    unfolding handle_failed_body write_same_currency_reversal write_cross_currency_reversal
    Preserves-handle_failed_body p reason o none =
        Preserves-bind order (Preserves-lock_accounts_in_order _) λ locked.
          Preserves-bind order (Preserves-now order) λ at.
            Preserves-bind order (k.update_status _ _ _ _ _) λ _.
              Preserves-bind order (Preserves-write_reversal_entries _ _ _)
                λ _. Preserves-bind order (Preserves-new_uuid order) λ id. k.create_event _
    Preserves-handle_failed_body p reason o (some (f, g)) =
        Preserves-bind order (Preserves-lock_accounts_in_order _) λ locked.
          Preserves-bind order (Preserves-now order) λ at.
            Preserves-bind order (k.update_status _ _ _ _ _) λ _.
              Preserves-bind order (Preserves-write_reversal_entries _ _ _)
                λ _. Preserves-bind order (Preserves-new_uuid order) λ id. k.create_event _

    pub Preserves-handle_failed :
        (p : Payment D) (reason : String) → Preserves order (handle_failed codec p reason)
    unfolding handle_failed fail_across_currencies
    Preserves-handle_failed p reason = Preserves-bind order (Preserves-get_system_account _ _) λ o.
        elim (Bool-cases (same_currency p.source_currency p.dest_currency)) [
          | inl same ↦
              rw same (Preserves-transact order (Preserves-handle_failed_body p reason _ none))
          | inr ne ↦ rw ne (
              Preserves-bind order (Preserves-get_system_account _ _) λ f.
                Preserves-bind order (Preserves-get_system_account _ _)
                  λ g. Preserves-transact order (Preserves-handle_failed_body p reason _ (some _)))
        ]
