-- ===== src/Payments/History.antt =====
-- internal/service/payment: whatever a request ends with, payments in a final state stay as they are,
-- the ledger and the events only grow, and the idempotency cache is not touched.
pub mod Payouts
use grey_backend_assessment.Prelude.{List, [], ◌∷◌, Bool-cases, inl, inr}
use grey_backend_assessment.Prelude.Int.{ℤ}
use grey_backend_assessment.Domain.{
  Uuid, Time, Currency, AccountType, Payment, PaymentEventType, same_currency,
}
use grey_backend_assessment.Session.{World, Session, ◌>>=◌}
use grey_backend_assessment.Session.Preserves.{
  Preserves, Preserves-bind, Preserves-pure, Preserves-lift, Preserves-gets, Preserves-deref,
  Preserves-map_error, Preserves-raise_if, Preserves-now, Preserves-new_uuid, Preserves-skip,
  Preserves-transact, Preserves-query, Preserves-or_not_found,
}
use grey_backend_assessment.Repository.History.{History, history, History-create_payment}
use grey_backend_assessment.Repository.History.Statements.{
  History-create_entry, History-create_event, History-update_balance, History-get_account,
  History-get_for_update,
}
use grey_backend_assessment.Repository.Accounts
use grey_backend_assessment.Repository.Users.{get_by_unique_name}
use grey_backend_assessment.Fx.{Conversion}
use grey_backend_assessment.Payments.Service.{Service, get_system_account}
use grey_backend_assessment.Payments.Locks.{LockedAccounts, lock_each, lock_accounts_in_order}
use grey_backend_assessment.Payments.Entries.{
  Posting, write_entry, write_entries, write_postings, write_ledger_entries,
  write_cross_currency_ledger_entries, write_external_ledger_entries,
  write_cross_currency_external_ledger_entries, write_payment_event,
}
use grey_backend_assessment.Payments.Transfer.{
  InternalTransferRequest, resolve_transfer_accounts, same_currency_body, cross_currency_body,
  execute_same_currency_transfer, execute_cross_currency_transfer, execute_transfer,
  create_internal_transfer,
}
use grey_backend_assessment.Payments.Payout.{
  ExternalPayoutRequest, same_currency_payout_body, cross_currency_payout_body,
  execute_same_currency_payout, execute_cross_currency_payout, execute_external_payout,
  submit_to_provider, create_external_payout,
}

module _ {D : Type 0} where
  History-lock_each :
      (ids : List Uuid) (m : LockedAccounts) → Preserves (history {D = D}) (lock_each ids m)
  unfolding lock_each
  History-lock_each [] m = Preserves-pure history m
  History-lock_each (id ∷ ids) m =
      Preserves-bind history (History-get_for_update id) λ a. History-lock_each ids ((id, a) ∷ m)

  pub History-lock_accounts_in_order :
      (ids : List Uuid) → Preserves (history {D = D}) (lock_accounts_in_order ids)
  unfolding lock_accounts_in_order
  History-lock_accounts_in_order ids =
      Preserves-bind history (Preserves-gets history _) λ sorted. History-lock_each sorted []

  pub History-write_entry :
      (payment_id : Uuid) (at : Time) (q : Posting) (b : ℤ)
      → Preserves (history {D = D}) (write_entry payment_id at q b)
  unfolding write_entry
  History-write_entry payment_id at q b =
      Preserves-bind history (Preserves-new_uuid history) λ id. History-create_entry _

  History-write_entries :
      (payment_id : Uuid) (at : Time) (rows : List (Posting × ℤ))
      → Preserves (history {D = D}) (write_entries payment_id at rows)
  unfolding write_entries
  History-write_entries payment_id at [] = Preserves-skip history
  History-write_entries payment_id at ((q, b) ∷ rows) =
      Preserves-bind history (History-write_entry payment_id at q b)
        λ _. History-write_entries payment_id at rows

  pub History-write_postings :
      (payment_id : Uuid) (at : Time) (qs : List Posting)
      → Preserves (history {D = D}) (write_postings payment_id at qs)
  unfolding write_postings
  History-write_postings payment_id at [] = Preserves-skip history
  History-write_postings payment_id at (q ∷ qs) =
      Preserves-bind history (History-write_entry payment_id at q _)
        λ _. History-write_postings payment_id at qs

  pub History-write_payment_event :
      (payment_id : Uuid) (t : PaymentEventType) (user_id : Uuid) (at : Time)
      → Preserves (history {D = D}) (write_payment_event payment_id t user_id at)
  unfolding write_payment_event
  History-write_payment_event payment_id t user_id at =
      Preserves-bind history (Preserves-new_uuid history) λ id. History-create_event _

  pub History-get_system_account :
      (t : AccountType) (c : Currency) → Preserves (history {D = D}) (get_system_account t c)
  unfolding get_system_account
  History-get_system_account t c = History-get_account _ c t

  -- One update of a balance before another action.
  pub History-then_update :
      {A : Type 0} (id : Uuid) (b v : ℤ) {m : Session D A}
      → Preserves history m
      → Preserves history (Accounts.update_balance id b v >>= λ _. m)
  History-then_update id b v k = Preserves-bind history (History-update_balance id b v) λ _. k

module _ {D : Type 0} (s : Service D) (req : InternalTransferRequest) where
  History-resolve_transfer_accounts : Preserves (history {D = D}) (resolve_transfer_accounts req)
  unfolding resolve_transfer_accounts get_by_unique_name
  History-resolve_transfer_accounts =
      Preserves-bind history
        (Preserves-map_error history _ (
          Preserves-bind history (Preserves-query history _)
            λ row. Preserves-or_not_found history row))
        λ recipient.
          Preserves-bind history (Preserves-map_error history _ (History-get_account _ _ _))
            λ recipient_acct.
              Preserves-bind history (Preserves-map_error history _ (History-get_account _ _ _))
                λ sender_acct. Preserves-pure history _

  History-same_currency_body :
      (a b : Uuid) → Preserves (history {D = D}) (same_currency_body req a b)
  unfolding same_currency_body write_ledger_entries
  History-same_currency_body a b =
      Preserves-bind history (History-lock_accounts_in_order _) λ locked.
        Preserves-bind history (Preserves-deref history _) λ sender.
          Preserves-bind history (Preserves-deref history _) λ recipient.
            Preserves-bind history (Preserves-lift history _) λ _.
              Preserves-bind history (Preserves-lift history _) λ _.
                Preserves-bind history (Preserves-raise_if history _ _) λ _.
                  Preserves-bind history (Preserves-now history) λ at.
                    Preserves-bind history (Preserves-new_uuid history) λ id.
                      Preserves-bind history (History-create_payment _) λ _.
                        Preserves-bind history
                          (Preserves-bind history (History-write_entry _ _ _ _)
                            λ _. History-write_entry _ _ _ _)
                          λ _. Preserves-bind history (History-write_payment_event _ _ _ _) λ _.
                            History-then_update _ _ _
                              (History-then_update _ _ _ (Preserves-pure history _))

  History-cross_currency_body :
      (a b : Uuid) (c : Conversion D) (f g : Uuid)
      → Preserves history (cross_currency_body req a b c f g)
  unfolding cross_currency_body write_cross_currency_ledger_entries
  History-cross_currency_body a b c f g =
      Preserves-bind history (History-lock_accounts_in_order _) λ locked.
        Preserves-bind history (Preserves-deref history _) λ sender.
          Preserves-bind history (Preserves-deref history _) λ recipient.
            Preserves-bind history (Preserves-deref history _) λ fx_src.
              Preserves-bind history (Preserves-deref history _) λ fx_dst.
                Preserves-bind history (Preserves-lift history _) λ _.
                  Preserves-bind history (Preserves-lift history _) λ _.
                    Preserves-bind history (Preserves-raise_if history _ _) λ _.
                      Preserves-bind history (Preserves-raise_if history _ _) λ _.
                        Preserves-bind history (Preserves-now history) λ at.
                          Preserves-bind history (Preserves-new_uuid history) λ id.
                            Preserves-bind history (History-create_payment _) λ _.
                              Preserves-bind history (History-write_entries _ _ _) λ _.
                                Preserves-bind history (History-write_payment_event _ _ _ _) λ _.
                                  History-then_update _ _ _ (
                                    History-then_update _ _ _ (
                                      History-then_update _ _ _
                                        (History-then_update _ _ _ (Preserves-pure history _))))

  History-execute_transfer : (a b : Uuid) → Preserves history (execute_transfer s req a b)
  unfolding execute_transfer execute_same_currency_transfer execute_cross_currency_transfer
  History-execute_transfer a b =
      elim (Bool-cases (same_currency req.source_currency req.dest_currency)) [
        | inl same ↦ rw same (Preserves-transact history (History-same_currency_body a b))
        | inr ne ↦ rw ne (
            Preserves-bind history (Preserves-lift history _) λ c.
              Preserves-bind history (History-get_system_account _ _) λ f.
                Preserves-bind history (History-get_system_account _ _)
                  λ g. Preserves-transact history (History-cross_currency_body a b c _ _))
      ]

  -- Whatever a transfer ends with, a payment in a final state stays as it is, entries and events are
  -- only added, and the idempotency cache is not touched.
  pub create_internal_transfer-History :
      (w : World D) → History w.db (create_internal_transfer s req w).1.db
  unfolding create_internal_transfer
  create_internal_transfer-History w =
      (Preserves-bind history History-resolve_transfer_accounts λ accounts.
          Preserves-bind history (Preserves-lift history _)
            λ _. Preserves-map_error history _ (History-execute_transfer _ _)).at
        w
