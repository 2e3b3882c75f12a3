-- ===== src/Payments/Transfer/Settles.antt =====
-- internal/service/payment/transfer.go, transfer_fx.go: what a transfer that was committed has done.
use grey_backend_assessment.Prelude.{◌≡◌, refl, none, some, [], ◌∷◌, find}
use grey_backend_assessment.Prelude.Int.{pos, ◌≤ℤ◌, InInt64, ltb_ℤ→le}
use grey_backend_assessment.Domain.{Uuid, Account, Payment, PaymentEventType, Time}
use grey_backend_assessment.Session.{World, Db, ok}
use grey_backend_assessment.Session.Laws.{
  Ensures, Ensures-bind, Ensures-pure, Ensures-bind-deref, Ensures-bind-lift, Ensures-bind-raise_if,
  Ensures-bind-now, Ensures-bind-new_uuid,
}
use grey_backend_assessment.Repository.Accounts.{has_id}
use grey_backend_assessment.Repository.Accounts.Laws.{Ensures-update_balance, find_own, Updated-own}
use grey_backend_assessment.Repository.Payments.Laws.{Ensures-create}
use grey_backend_assessment.Payments.Locks.{
  verify_account_active, Ensures-lock_accounts_in_order, locked_account-of_IsSnapshot,
}
use grey_backend_assessment.Payments.Entries.Laws.{
  two_postings, Ensures-write_ledger_entries, Ensures-write_payment_event,
}
use grey_backend_assessment.Payments.Posting.Settled.{Settled, two-Settled}
use grey_backend_assessment.Payments.Transfer.{
  InternalTransferRequest, transfer_payment, same_currency_body,
}

-- A transfer of the requested amount from the sender's row to the recipient's.
pub record Transferred {D : Type 0} (req : InternalTransferRequest) (sender_id recipient_id : Uuid)
    (db : Db D) (p : Payment D) (db' : Db D) : Type 0 where
  pub sender : Account
  pub recipient : Account
  pub sender_row : find (has_id sender_id) db.accounts ≡ some sender
  pub recipient_row : find (has_id recipient_id) db.accounts ≡ some recipient
  pub active : (verify_account_active sender ≡ ok tt) × (verify_account_active recipient ≡ ok tt)
  pub covered : req.amount ≤ℤ sender.balance
  pub row :
      (id : Uuid) × (at : Time) × (p
        ≡ transfer_payment req id sender_id recipient_id req.amount none (pos 0) none at)
  pub settled :
      Settled p PaymentEventType.completed req.sender_user_id
        (two_postings p sender recipient)
        db
        db'

module _ {D : Type 0} (req : InternalTransferRequest) (sender_id recipient_id : Uuid)
    (positive : pos 0 ≤ℤ req.amount) (fits : InInt64 req.amount) where
  pub same_currency_body-Transferred :
      (w : World D)
      → Ensures
          (same_currency_body req sender_id recipient_id)
          w
          (λ p w'. Transferred req sender_id recipient_id w.db p w'.db)
  unfolding same_currency_body
  same_currency_body-Transferred w =
      Ensures-bind (Ensures-lock_accounts_in_order (sender_id ∷ recipient_id ∷ []))
        λ locked w1 (snap, s1). Ensures-bind-deref _ λ sender es.
          Ensures-bind-deref _ λ recipient er. Ensures-bind-lift _ λ _ vs.
            Ensures-bind-lift _ λ _ vr. Ensures-bind-raise_if _ _ λ _ funds.
              Ensures-bind-now λ at _. Ensures-bind-new_uuid λ id _.
                Ensures-bind (Ensures-create _) λ _ w2 (fresh, c2, _).
                  Ensures-bind (Ensures-write_ledger_entries _ sender recipient)
                    λ _ w3 (e3, c3, _, _).
                      Ensures-bind (Ensures-write_payment_event _ _ _ _) λ _ w4 (ev, c4, _, _).
                        Ensures-bind (Ensures-update_balance _ _ _) λ _ w5 (u5, (c5, _)).
                          Ensures-bind (Ensures-update_balance _ _ _) λ _ w6 (u6, (c6, _)).
                            Ensures-pure _ (
                              let sr =
                                locked_account-of_IsSnapshot w.db.accounts locked sender_id snap
                                  es in
                              let rr =
                                locked_account-of_IsSnapshot w.db.accounts locked recipient_id snap
                                  er in
                              record {
                                sender = sender;
                                recipient = recipient;
                                sender_row = sr;
                                recipient_row = rr;
                                active = (vs, vr);
                                covered = ltb_ℤ→le sender.balance req.amount funds;
                                row = (id, at, refl);
                                settled =
                                    two-Settled w.db w1.db w2.db w3.db w4.db sender recipient w5.db
                                      w6.db s1.0 fresh
                                      (
                                        (find_own sender_id w.db.accounts sr, positive, fits),
                                        (
                                          (find_own recipient_id w.db.accounts rr, positive, fits),
                                          tt,
                                        ),
                                      )
                                      c2 e3 c3 c4 (Updated-own sender_id w.db.accounts sr u5) c5
                                      (Updated-own recipient_id w.db.accounts rr u6) c6;
                              })
