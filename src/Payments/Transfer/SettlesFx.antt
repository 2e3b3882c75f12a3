-- ===== src/Payments/Transfer/SettlesFx.antt =====
-- internal/service/payment/transfer_fx.go: what a transfer across currencies that was committed has
-- done.
use grey_backend_assessment.Prelude.{◌≡◌, refl, some, [], ◌∷◌, find}
use grey_backend_assessment.Prelude.Int.{pos, ◌≤ℤ◌, InInt64, ltb_ℤ→le}
use grey_backend_assessment.Domain.{Uuid, Account, Payment, PaymentEventType, Time}
use grey_backend_assessment.Session.{World, Db, ok}
use grey_backend_assessment.Session.Laws.{
  Ensures, Ensures-bind, Ensures-pure, Ensures-bind-deref, Ensures-bind-lift, Ensures-bind-raise_if,
  Ensures-bind-now, Ensures-bind-new_uuid,
}
use grey_backend_assessment.Repository.Accounts.{has_id}
use grey_backend_assessment.Repository.Accounts.Laws.{Ensures-update_balance, find_own}
use grey_backend_assessment.Repository.Payments.Laws.{Ensures-create}
use grey_backend_assessment.Fx.{Conversion}
use grey_backend_assessment.Payments.Locks.{
  locked_account, verify_account_active, Ensures-lock_accounts_in_order,
  locked_account-of_IsSnapshot,
}
use grey_backend_assessment.Payments.Entries.Laws.{
  four_postings, Ensures-write_cross_currency_ledger_entries, Ensures-write_payment_event,
}
use grey_backend_assessment.Payments.Posting.Settled.{Settled, four-Settled}
use grey_backend_assessment.Payments.Transfer.{
  InternalTransferRequest, transfer_payment, cross_currency_body,
}

-- A transfer of the requested amount into one pool, and of the converted amount out of the other.
pub record Exchanged {D : Type 0} (req : InternalTransferRequest) (sender_id recipient_id : Uuid)
    (conversion : Conversion D) (fx_source_id fx_dest_id : Uuid) (db : Db D) (p : Payment D)
    (db' : Db D) : Type 0 where
  pub sender : Account
  pub recipient : Account
  pub fx_src : Account
  pub fx_dst : Account
  pub sender_row : find (has_id sender_id) db.accounts ≡ some sender
  pub recipient_row : find (has_id recipient_id) db.accounts ≡ some recipient
  pub fx_src_row : find (has_id fx_source_id) db.accounts ≡ some fx_src
  pub fx_dst_row : find (has_id fx_dest_id) db.accounts ≡ some fx_dst
  pub active : (verify_account_active sender ≡ ok tt) × (verify_account_active recipient ≡ ok tt)
  pub covered : req.amount ≤ℤ sender.balance
  pub pool_covered : conversion.dest_amount ≤ℤ fx_dst.balance
  pub row :
      (id : Uuid) × (at : Time) × (p
        ≡ transfer_payment req id sender_id recipient_id conversion.dest_amount
            (some conversion.exchange_rate)
            conversion.fee_amount
            (some req.dest_currency)
            at)
  pub settled :
      Settled p PaymentEventType.completed req.sender_user_id
        (four_postings p sender fx_src fx_dst recipient)
        db
        db'

module _ {D : Type 0} (req : InternalTransferRequest) (sender_id recipient_id : Uuid)
    (conversion : Conversion D) (fx_source_id fx_dest_id : Uuid) (positive : pos 0 ≤ℤ req.amount)
    (fits : InInt64 req.amount) (dest_positive : pos 0 ≤ℤ conversion.dest_amount)
    (dest_fits : InInt64 conversion.dest_amount) where
  pub cross_currency_body-Exchanged :
      (w : World D)
      → Ensures
          (cross_currency_body req sender_id recipient_id conversion fx_source_id fx_dest_id)
          w
          (λ p w'.
            Exchanged req sender_id recipient_id conversion fx_source_id fx_dest_id w.db p w'.db)
  unfolding cross_currency_body
  cross_currency_body-Exchanged w =
      Ensures-bind
        (Ensures-lock_accounts_in_order (sender_id ∷ fx_source_id ∷ fx_dest_id ∷ recipient_id ∷ []))
        λ locked w1 (snap, s1). Ensures-bind-deref _ λ sender es.
          Ensures-bind-deref _ λ recipient er. Ensures-bind-deref _ λ fx_src ef.
            Ensures-bind-deref _ λ fx_dst ed. Ensures-bind-lift _ λ _ vs.
              Ensures-bind-lift _ λ _ vr. Ensures-bind-raise_if _ _ λ _ funds.
                Ensures-bind-raise_if _ _ λ _ pool. Ensures-bind-now λ at _.
                  Ensures-bind-new_uuid λ id _.
                    Ensures-bind (Ensures-create _) λ _ w2 (fresh, c2, _).
                      Ensures-bind
                        (Ensures-write_cross_currency_ledger_entries _ sender fx_src fx_dst
                          recipient)
                        λ _ w3 (e3, c3, _, _).
                          Ensures-bind (Ensures-write_payment_event _ _ _ _) λ _ w4 (ev, c4, _, _).
                            Ensures-bind (Ensures-update_balance _ _ _) λ _ w5 (u5, (c5, _)).
                              Ensures-bind (Ensures-update_balance _ _ _) λ _ w6 (u6, (c6, _)).
                                Ensures-bind (Ensures-update_balance _ _ _) λ _ w7 (u7, (c7, _)).
                                  Ensures-bind (Ensures-update_balance _ _ _) λ _ w8 (u8, (c8, _)).
                                    Ensures-pure _ (
                                      let row = λ (i : Uuid). λ (a : Account).
                                        λ (e : locked_account i locked ≡ some a).
                                          locked_account-of_IsSnapshot w.db.accounts locked i snap
                                            e in
                                      let p : Payment D =
                                        transfer_payment req id sender_id recipient_id
                                          conversion.dest_amount (some conversion.exchange_rate)
                                          conversion.fee_amount (some req.dest_currency) at in
                                      let qs = four_postings p sender fx_src fx_dst recipient in
                                      record {
                                        sender = sender;
                                        recipient = recipient;
                                        fx_src = fx_src;
                                        fx_dst = fx_dst;
                                        sender_row = row sender_id sender es;
                                        recipient_row = row recipient_id recipient er;
                                        fx_src_row = row fx_source_id fx_src ef;
                                        fx_dst_row = row fx_dest_id fx_dst ed;
                                        active = (vs, vr);
                                        covered = ltb_ℤ→le sender.balance req.amount funds;
                                        pool_covered =
                                            ltb_ℤ→le fx_dst.balance conversion.dest_amount pool;
                                        row = (id, at, refl);
                                        settled =
                                            four-Settled w.db w1.db w2.db w3.db w4.db sender fx_src
                                              fx_dst recipient w5.db w6.db w7.db w8.db s1.0 fresh
                                              (
                                                (
                                                  find_own sender_id w.db.accounts
                                                      (row sender_id sender es),
                                                  positive,
                                                  fits,
                                                ),
                                                (
                                                  (
                                                    find_own fx_source_id w.db.accounts
                                                        (row fx_source_id fx_src ef),
                                                    positive,
                                                    fits,
                                                  ),
                                                  (
                                                    (
                                                      find_own fx_dest_id w.db.accounts
                                                          (row fx_dest_id fx_dst ed),
                                                      dest_positive,
                                                      dest_fits,
                                                    ),
                                                    (
                                                      (
                                                        find_own recipient_id w.db.accounts
                                                            (row recipient_id recipient er),
                                                        dest_positive,
                                                        dest_fits,
                                                      ),
                                                      tt,
                                                    ),
                                                  ),
                                                ),
                                              )
                                              c2 e3 c3 c4 u5 c5 u6 c6 u7 c7 u8 c8;
                                      })
