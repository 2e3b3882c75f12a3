-- ===== src/Payments/Transfer/Moved.antt =====
-- internal/service/payment/transfer.go, transfer_fx.go: a transfer that returned has been settled
-- between accounts of its two currencies.
use grey_backend_assessment.Prelude.{
  refl, ◌≡◌, ◌∙◌, sym, false, some, inl, inr, find, arith, Bool-cases,
}
use grey_backend_assessment.Prelude.Int.{pos, leb_ℤ, ◌≤ℤ◌, leb_ℤ→lt, InInt64}
use grey_backend_assessment.Domain.{
  Uuid, Account, AccountType, Payment, PaymentEventType, same_currency,
}
use grey_backend_assessment.Domain.Laws.{same_currency→eq, same_currency_refl}
use grey_backend_assessment.Session.{World, Db, ok}
use grey_backend_assessment.Session.Laws.{
  Ensures, SameDb, SameDb-trans, Ensures-bind, Ensures-pure, Ensures-bind-lift, Ensures-map_error,
  Ensures-mono, Ensures-or_not_found,
}
use grey_backend_assessment.Session.Laws.Tables.{Ensures-query, Ensures-transact_db}
use grey_backend_assessment.Repository.Accounts.{belongs}
use grey_backend_assessment.Repository.Accounts.Laws.{Ensures-get_by_user_and_currency}
use grey_backend_assessment.Repository.Users.{get_by_unique_name}
use grey_backend_assessment.Fx.{Conversion}
use grey_backend_assessment.Payments.Service.{Service, ConvertsWithin, system_user_id}
use grey_backend_assessment.Payments.Service.Laws.{Ensures-get_system_account}
use grey_backend_assessment.Payments.Entries.Laws.{two_postings, four_postings}
use grey_backend_assessment.Payments.Posting.{IsBook}
use grey_backend_assessment.Payments.Posting.Moves.{Moves, transfer_flow-two, transfer_flow-four}
use grey_backend_assessment.Repository.Accounts.Laws.{find-has_id}
use grey_backend_assessment.Payments.Posting.Conserved.{
  SettledNeutrally, two-IsNeutral, four-IsNeutral, locked-currency,
}
use grey_backend_assessment.Payments.Transfer.{
  InternalTransferRequest, validate_transfer, resolve_transfer_accounts,
  execute_same_currency_transfer, execute_cross_currency_transfer, execute_transfer,
  create_internal_transfer,
}
use grey_backend_assessment.Payments.Transfer.Settles.{Transferred, same_currency_body-Transferred}
use grey_backend_assessment.Payments.Transfer.SettlesFx.{Exchanged, cross_currency_body-Exchanged}

module _ {D : Type 0} {w : World D} where
  -- The accounts are a user's in the source currency and a user's in the destination currency.
  Ensures-resolve_transfer_accounts :
      (req : InternalTransferRequest)
      → Ensures (resolve_transfer_accounts req) w (λ accounts w'.
        (recipient_id : Uuid) × (find
            (belongs req.sender_user_id req.source_currency AccountType.user)
            w.db.accounts
          ≡ some accounts.0)
        × (find (belongs recipient_id req.dest_currency AccountType.user) w.db.accounts
            ≡ some accounts.1)
        × SameDb w w')
  unfolding resolve_transfer_accounts get_by_unique_name
  Ensures-resolve_transfer_accounts req =
      Ensures-bind
        (Ensures-map_error _
          (Ensures-bind (Ensures-query _) λ row w1 (_, s). Ensures-or_not_found row (λ a _. s)))
        λ recipient w1 s1.
          Ensures-bind (Ensures-map_error _ (Ensures-get_by_user_and_currency recipient.id _ _))
            λ recipient_acct w2 (er, s2).
              Ensures-bind
                (Ensures-map_error _ (Ensures-get_by_user_and_currency req.sender_user_id _ _))
                λ sender_acct w3 (es, s3). Ensures-pure _ (
                  let s = SameDb-trans w w1 w2 s1 s2 in
                  (recipient.id, rw (s.0) at es, rw (s1.0) at er, SameDb-trans w w2 w3 s s3))

pub validate_transfer-positive :
    {D : Type 0} (s : Service D) (req : InternalTransferRequest) (sender recipient : Account)
    → validate_transfer s req sender recipient ≡ ok tt
    → pos 0 ≤ℤ req.amount
unfolding validate_transfer
validate_transfer-positive s req sender recipient h =
    let above : leb_ℤ req.amount (pos 0) ≡ false = ground arith in
    omega (arith, leb_ℤ→lt req.amount (pos 0) above)

module _ {D : Type 0} (s : Service D) (req : InternalTransferRequest) (converts : ConvertsWithin s)
    (fits : InInt64 req.amount) where
  abbrev Settles : Db D → Payment D → Db D → Type 0
  Settles db p db' =
      Moves PaymentEventType.completed req.sender_user_id req.idempotency_key db p db'

  module _ (w : World D) (b : IsBook w.db.accounts) (positive : pos 0 ≤ℤ req.amount)
      (recipient_id : Uuid) (sender recipient : Account)
      (sender_found : find
          (belongs req.sender_user_id req.source_currency AccountType.user)
          w.db.accounts
        ≡ some sender)
      (recipient_found : find
          (belongs recipient_id req.dest_currency AccountType.user)
          w.db.accounts
        ≡ some recipient) where
    Ensures-execute_same_currency_transfer :
        req.dest_currency ≡ req.source_currency
        → Ensures
            (execute_same_currency_transfer req sender.id recipient.id)
            w
            (λ p w'. Settles w.db p w'.db)
    unfolding execute_same_currency_transfer
    Ensures-execute_same_currency_transfer same =
        Ensures-mono
          (Ensures-transact_db (Transferred req sender.id recipient.id)
            (same_currency_body-Transferred req sender.id recipient.id positive fits))
          λ p w' t.
            let (id, at, e) = t.row in
            let paid : SettledNeutrally p PaymentEventType.completed req.sender_user_id
                req.idempotency_key w.db w'.db =
              record {
                keyed = (λ i. (e i).idempotency_key);
                postings = two_postings p t.sender t.recipient;
                settled = t.settled;
                neutral =
                    two-IsNeutral p t.sender t.recipient
                      (locked-currency _ _ _ w.db.accounts b.unique_ids sender_found t.sender_row
                        ∙ sym (λ i. (e i).source_currency))
                      (locked-currency _ _ _ w.db.accounts b.unique_ids recipient_found
                          t.recipient_row
                        ∙ sym (λ i. (e i).dest_currency))
                      ((λ i. (e i).dest_currency) ∙ same ∙ sym (λ i. (e i).source_currency))
                      ((λ i. (e i).dest_amount) ∙ sym (λ i. (e i).source_amount));
              } in
            record {
              paid = paid;
              flow = λ j.
                  transfer_flow-two w.db.accounts p j t.sender t.recipient
                    (rw (e, same) (same_currency_refl req.source_currency))
                    (find-has_id sender.id w.db.accounts t.sender_row
                      ∙ sym (λ i. (e i).source_account_id))
                    (rw (e, find-has_id recipient.id w.db.accounts t.recipient_row) refl);
            }

    Ensures-execute_cross_currency_transfer :
        same_currency req.source_currency req.dest_currency ≡ false
        → Ensures
            (execute_cross_currency_transfer s req sender.id recipient.id)
            w
            (λ p w'. Settles w.db p w'.db)
    unfolding execute_cross_currency_transfer
    Ensures-execute_cross_currency_transfer ne = Ensures-bind-lift _ λ conversion converted.
        Ensures-bind (Ensures-get_system_account _ _) λ fx_source w1 (e1, s1).
          Ensures-bind (Ensures-get_system_account _ _) λ fx_dest w2 (e2, s2).
            let (dest_positive, dest_fits) = converts _ _ _ _ fits converted in
            let unchanged = SameDb-trans w w1 w2 s1 s2 in
            Ensures-mono
              (Ensures-transact_db
                (Exchanged req sender.id recipient.id conversion fx_source.id fx_dest.id)
                (cross_currency_body-Exchanged req sender.id recipient.id conversion fx_source.id
                  fx_dest.id positive fits dest_positive dest_fits))
              λ p w' t.
                settles conversion fx_source fx_dest p w' e1 (rw (s1.0) at e2)
                  (rw (unchanged.0) at t)
      where
        settles :
            (conversion : Conversion D) (fx_source fx_dest : Account) (p : Payment D) (w' : World D)
            → find (belongs system_user_id req.source_currency AccountType.fx_pool) w.db.accounts
              ≡ some fx_source
            → find (belongs system_user_id req.dest_currency AccountType.fx_pool) w.db.accounts
              ≡ some fx_dest
            → Exchanged req sender.id recipient.id conversion fx_source.id fx_dest.id w.db p w'.db
            → Settles w.db p w'.db
        settles conversion fx_source fx_dest p w' e1 e2 t =
            let (id, at, e) = t.row in
            let paid : SettledNeutrally p PaymentEventType.completed req.sender_user_id
                req.idempotency_key w.db w'.db =
              record {
                keyed = (λ i. (e i).idempotency_key);
                postings = four_postings p t.sender t.fx_src t.fx_dst t.recipient;
                settled = t.settled;
                neutral =
                    four-IsNeutral p t.sender t.fx_src t.fx_dst t.recipient
                      (locked-currency _ _ _ w.db.accounts b.unique_ids sender_found t.sender_row
                        ∙ sym (λ i. (e i).source_currency))
                      (locked-currency _ _ _ w.db.accounts b.unique_ids e1 t.fx_src_row
                        ∙ sym (λ i. (e i).source_currency))
                      (locked-currency _ _ _ w.db.accounts b.unique_ids e2 t.fx_dst_row
                        ∙ sym (λ i. (e i).dest_currency))
                      (locked-currency _ _ _ w.db.accounts b.unique_ids recipient_found
                          t.recipient_row
                        ∙ sym (λ i. (e i).dest_currency));
              } in
            record {
              paid = paid;
              flow = λ j.
                  transfer_flow-four w.db.accounts p j t.sender t.fx_src t.fx_dst t.recipient
                    fx_source fx_dest (rw e e1) (rw e e2) (rw e ne)
                    (find-has_id sender.id w.db.accounts t.sender_row
                      ∙ sym (λ i. (e i).source_account_id))
                    (find-has_id fx_source.id w.db.accounts t.fx_src_row)
                    (find-has_id fx_dest.id w.db.accounts t.fx_dst_row)
                    (rw (e, find-has_id recipient.id w.db.accounts t.recipient_row) refl);
            }

    Ensures-execute_transfer :
        Ensures (execute_transfer s req sender.id recipient.id) w (λ p w'. Settles w.db p w'.db)
    unfolding execute_transfer
    Ensures-execute_transfer =
        elim (Bool-cases (same_currency req.source_currency req.dest_currency)) [
          | inl same ↦ rw same (
              Ensures-execute_same_currency_transfer
                (sym (same_currency→eq req.source_currency req.dest_currency same)))
          | inr ne ↦ rw ne (Ensures-execute_cross_currency_transfer ne)
        ]

  pub Ensures-create_internal_transfer :
      (w : World D)
      → IsBook w.db.accounts
      → Ensures (create_internal_transfer s req) w (λ p w'. Settles w.db p w'.db)
  unfolding create_internal_transfer
  Ensures-create_internal_transfer w b =
      Ensures-bind (Ensures-resolve_transfer_accounts req) λ accounts w1 (recipient_id, es, er, s1).
        Ensures-bind-lift _ λ _ valid. Ensures-map_error _ (
          Ensures-mono
            (Ensures-execute_transfer w1 (rw (s1.0) b)
              (validate_transfer-positive s req accounts.0 accounts.1 valid) recipient_id accounts.0
              accounts.1 (rw (s1.0) es) (rw (s1.0) er))
            λ p w' t. rw (s1.0) at t)
