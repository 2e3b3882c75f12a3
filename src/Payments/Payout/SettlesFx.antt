-- ===== src/Payments/Payout/SettlesFx.antt =====
-- internal/service/payment/external_payout_fx.go: what a payout across currencies that was committed
-- has done.
use grey_backend_assessment.Prelude.{◌≡◌, refl, some, [], ◌∷◌, find}
use grey_backend_assessment.Prelude.Int.{pos, ◌≤ℤ◌, InInt64, ltb_ℤ→le}
use grey_backend_assessment.Domain.{Uuid, Account, Payment, PaymentEventType, Time}
use grey_backend_assessment.Session.{World, Db, ok}
use grey_backend_assessment.Session.Laws.{
  Ensures, Ensures-bind, Ensures-pure, Ensures-bind-deref, Ensures-bind-lift, Ensures-bind-raise_if,
  Ensures-bind-now, Ensures-bind-new_uuid,
}
use grey_backend_assessment.Repository.Accounts.{has_id}
use grey_backend_assessment.Repository.Accounts.Laws.{Ensures-update_balance, find_own}
use grey_backend_assessment.Repository.Payments.Laws.{Ensures-create}
use grey_backend_assessment.Fx.{Conversion}
use grey_backend_assessment.Payments.Locks.{
  locked_account, verify_account_active, Ensures-lock_accounts_in_order,
  locked_account-of_IsSnapshot,
}
use grey_backend_assessment.Payments.Entries.Laws.{
  four_postings, Ensures-write_cross_currency_external_ledger_entries, Ensures-write_payment_event,
}
use grey_backend_assessment.Payments.Posting.Settled.{Settled, four-Settled}
use grey_backend_assessment.Payments.Payout.{
  ExternalPayoutRequest, converted_payment, cross_currency_payout_body,
}

-- A payout of the requested amount into one pool, and of the converted amount out of the other and
-- into the outgoing account.
pub record PaidOutFx {D : Type 0} (req : ExternalPayoutRequest) (sender_id : Uuid)
    (conversion : Conversion D) (fx_source_id fx_dest_id outgoing_id : Uuid) (db : Db D)
    (p : Payment D) (db' : Db D) : Type 0 where
  pub sender : Account
  pub fx_src : Account
  pub fx_dst : Account
  pub outgoing : Account
  pub sender_row : find (has_id sender_id) db.accounts ≡ some sender
  pub fx_src_row : find (has_id fx_source_id) db.accounts ≡ some fx_src
  pub fx_dst_row : find (has_id fx_dest_id) db.accounts ≡ some fx_dst
  pub outgoing_row : find (has_id outgoing_id) db.accounts ≡ some outgoing
  pub active : verify_account_active sender ≡ ok tt
  pub covered : req.amount ≤ℤ sender.balance
  pub pool_covered : conversion.dest_amount ≤ℤ fx_dst.balance
  pub row : (id : Uuid) × (at : Time) × (p ≡ converted_payment req id sender_id conversion at)
  pub settled :
      Settled p PaymentEventType.created req.sender_user_id
        (four_postings p sender fx_src fx_dst outgoing)
        db
        db'

module _ {D : Type 0} (req : ExternalPayoutRequest) (sender_id : Uuid) (conversion : Conversion D)
    (fx_source_id fx_dest_id outgoing_id : Uuid) (positive : pos 0 ≤ℤ req.amount)
    (fits : InInt64 req.amount) (dest_positive : pos 0 ≤ℤ conversion.dest_amount)
    (dest_fits : InInt64 conversion.dest_amount) where
  pub cross_currency_payout_body-PaidOutFx :
      (w : World D)
      → Ensures
          (cross_currency_payout_body req sender_id conversion fx_source_id fx_dest_id outgoing_id)
          w
          (λ p w'.
            PaidOutFx req sender_id conversion fx_source_id fx_dest_id outgoing_id w.db p w'.db)
  unfolding cross_currency_payout_body
  cross_currency_payout_body-PaidOutFx w =
      Ensures-bind
        (Ensures-lock_accounts_in_order (sender_id ∷ fx_source_id ∷ fx_dest_id ∷ outgoing_id ∷ []))
        λ locked w1 (snap, s1). Ensures-bind-deref _ λ sender es. Ensures-bind-lift _ λ _ vs.
          Ensures-bind-raise_if _ _ λ _ funds. Ensures-bind-deref _ λ fx_dst ed.
            Ensures-bind-raise_if _ _ λ _ pool. Ensures-bind-now λ at _.
              Ensures-bind-new_uuid λ id _. Ensures-bind (Ensures-create _) λ _ w2 (fresh, c2, _).
                Ensures-bind-deref _ λ fx_src ef. Ensures-bind-deref _ λ outgoing eo.
                  Ensures-bind
                    (Ensures-write_cross_currency_external_ledger_entries _ sender fx_src fx_dst
                      outgoing)
                    λ _ w3 (e3, c3, _, _).
                      Ensures-bind (Ensures-write_payment_event _ _ _ _) λ _ w4 (ev, c4, _, _).
                        Ensures-bind (Ensures-update_balance _ _ _) λ _ w5 (u5, (c5, _)).
                          Ensures-bind (Ensures-update_balance _ _ _) λ _ w6 (u6, (c6, _)).
                            Ensures-bind (Ensures-update_balance _ _ _) λ _ w7 (u7, (c7, _)).
                              Ensures-bind (Ensures-update_balance _ _ _) λ _ w8 (u8, (c8, _)).
                                Ensures-pure _ (
                                  let row = λ (i : Uuid). λ (a : Account).
                                    λ (e : locked_account i locked ≡ some a).
                                      locked_account-of_IsSnapshot w.db.accounts locked i snap e in
                                  let located = λ (i : Uuid). λ (a : Account).
                                    λ (e : locked_account i locked ≡ some a).
                                      find_own i w.db.accounts (row i a e) in
                                  record {
                                    sender = sender;
                                    fx_src = fx_src;
                                    fx_dst = fx_dst;
                                    outgoing = outgoing;
                                    sender_row = row sender_id sender es;
                                    fx_src_row = row fx_source_id fx_src ef;
                                    fx_dst_row = row fx_dest_id fx_dst ed;
                                    outgoing_row = row outgoing_id outgoing eo;
                                    active = vs;
                                    covered = ltb_ℤ→le sender.balance req.amount funds;
                                    pool_covered =
                                        ltb_ℤ→le fx_dst.balance conversion.dest_amount pool;
                                    row = (id, at, refl);
                                    settled =
                                        four-Settled w.db w1.db w2.db w3.db w4.db sender fx_src
                                          fx_dst outgoing w5.db w6.db w7.db w8.db s1.0 fresh
                                          (
                                            (located sender_id sender es, positive, fits),
                                            (
                                              (located fx_source_id fx_src ef, positive, fits),
                                              (
                                                (
                                                  located fx_dest_id fx_dst ed,
                                                  dest_positive,
                                                  dest_fits,
                                                ),
                                                (
                                                  (
                                                    located outgoing_id outgoing eo,
                                                    dest_positive,
                                                    dest_fits,
                                                  ),
                                                  tt,
                                                ),
                                              ),
                                            ),
                                          )
                                          c2 e3 c3 c4 u5 c5 u6 c6 u7 c7 u8 c8;
                                  })
