-- ===== src/Payments/Payout/Moved.antt =====
-- internal/service/payment/external_payout.go, external_payout_fx.go: a payout that returned has been
-- settled between accounts of its two currencies.
use grey_backend_assessment.Prelude.{
  Bool, String, ◌≡◌, ◌∙◌, refl, sym, true, false, some, inl, inr, find, arith, Bool-cases,
}
use grey_backend_assessment.Prelude.Int.{pos, leb_ℤ, ◌≤ℤ◌, leb_ℤ→lt, InInt64}
use grey_backend_assessment.Domain.{
  Uuid, PaymentStatus, Account, AccountType, Payment, PaymentEventType, same_currency,
}
use grey_backend_assessment.Domain.Laws.{same_currency→eq, same_currency_refl}
use grey_backend_assessment.Session.{World, Db, ok}
use grey_backend_assessment.Session.Laws.{
  Ensures, SameDb-trans, Ensures-bind, Ensures-pure, Ensures-bind-lift, Ensures-map_error,
  Ensures-mono,
}
use grey_backend_assessment.Session.Laws.Tables.{Ensures-transact_db}
use grey_backend_assessment.Repository.Accounts.{belongs}
use grey_backend_assessment.Repository.Accounts.Laws.{find-has_id, Ensures-get_by_user_and_currency}
use grey_backend_assessment.Fx.{Conversion}
use grey_backend_assessment.Payments.Service.{Service, ConvertsWithin, system_user_id}
use grey_backend_assessment.Payments.Service.Laws.{Ensures-get_system_account}
use grey_backend_assessment.Payments.Entries.Laws.{two_postings, four_postings}
use grey_backend_assessment.Payments.Posting.{IsBook, posted_to}
use grey_backend_assessment.Payments.Posting.Flow.{
  HasAmounts, payout_flow, payout_flow-two, payout_flow-four,
}
use grey_backend_assessment.Payments.Posting.Conserved.{
  SettledNeutrally, two-IsNeutral, four-IsNeutral, locked-currency,
}
use grey_backend_assessment.Payments.Payout.{
  ExternalPayoutRequest, validate_external_payout, execute_same_currency_payout,
  execute_cross_currency_payout, execute_external_payout, submit_to_provider,
  create_external_payout,
}
use grey_backend_assessment.Payments.Payout.Settles.{PaidOut, same_currency_payout_body-PaidOut}
use grey_backend_assessment.Payments.Payout.SettlesFx.{
  PaidOutFx, cross_currency_payout_body-PaidOutFx,
}

-- A payout that was committed: it is settled by way of postings that make no money, and they are what
-- the payment and the accounts of the system say.
pub record PaysOut {D : Type 0} (user_id : Uuid) (key : String) (db : Db D) (p : Payment D)
    (db' : Db D) : Type 0 where
  pub paid : SettledNeutrally p PaymentEventType.created user_id key db db'
  pub pending : p.status ≡ PaymentStatus.pending
  pub amounts : HasAmounts p
  pub flow : (j : Uuid) → posted_to j paid.postings ≡ payout_flow db.accounts p j

validate_external_payout-positive :
    {D : Type 0} (s : Service D) (req : ExternalPayoutRequest) (sender : Account)
    → validate_external_payout s req sender ≡ ok tt
    → pos 0 ≤ℤ req.amount
unfolding validate_external_payout
validate_external_payout-positive s req sender h =
    let above : leb_ℤ req.amount (pos 0) ≡ false = ground arith in
    omega (arith, leb_ℤ→lt req.amount (pos 0) above)

module _ {D : Type 0} (s : Service D) (req : ExternalPayoutRequest) (converts : ConvertsWithin s)
    (fits : InInt64 req.amount) where
  abbrev Settles : Db D → Payment D → Db D → Type 0
  Settles db p db' = PaysOut req.sender_user_id req.idempotency_key db p db'

  module _ (w : World D) (b : IsBook w.db.accounts) (positive : pos 0 ≤ℤ req.amount)
      (sender : Account)
      (sender_found : find
          (belongs req.sender_user_id req.source_currency AccountType.user)
          w.db.accounts
        ≡ some sender) where
    Settles-two :
        (outgoing : Account) (p : Payment D) (w' : World D)
        → req.dest_currency ≡ req.source_currency
        → find (belongs system_user_id req.dest_currency AccountType.outgoing) w.db.accounts
          ≡ some outgoing
        → PaidOut req sender.id outgoing.id w.db p w'.db
        → Settles w.db p w'.db
    Settles-two outgoing p w' same eo t =
        let (id, at, e) = t.row in
        let paid : SettledNeutrally p PaymentEventType.created req.sender_user_id
            req.idempotency_key w.db w'.db =
          record {
            keyed = (λ i. (e i).idempotency_key);
            postings = two_postings p t.sender t.outgoing;
            settled = t.settled;
            neutral =
                two-IsNeutral p t.sender t.outgoing
                  (locked-currency _ _ _ w.db.accounts b.unique_ids sender_found t.sender_row
                    ∙ sym (λ i. (e i).source_currency))
                  (locked-currency _ _ _ w.db.accounts b.unique_ids eo t.outgoing_row
                    ∙ sym (λ i. (e i).dest_currency))
                  ((λ i. (e i).dest_currency) ∙ same ∙ sym (λ i. (e i).source_currency))
                  ((λ i. (e i).dest_amount) ∙ sym (λ i. (e i).source_amount));
          } in
        record {
          paid = paid;
          pending = λ i. (e i).status;
          amounts = rw e (record {
            source_from_zero = positive;
            source_fits = fits;
            dest_from_zero = positive;
            dest_fits = fits;
            same = λ _. refl;
          });
          flow = λ j.
              payout_flow-two w.db.accounts p j t.sender t.outgoing outgoing (rw e eo)
                (rw (e, same) (same_currency_refl req.source_currency))
                (find-has_id sender.id w.db.accounts t.sender_row
                  ∙ sym (λ i. (e i).source_account_id))
                (find-has_id outgoing.id w.db.accounts t.outgoing_row);
        }

    Ensures-execute_same_currency_payout :
        req.dest_currency ≡ req.source_currency
        → Ensures (execute_same_currency_payout req sender.id) w (λ p w'. Settles w.db p w'.db)
    unfolding execute_same_currency_payout
    Ensures-execute_same_currency_payout same =
        Ensures-bind (Ensures-get_system_account {w = w} AccountType.outgoing req.dest_currency)
          λ outgoing w1 (eo, s1).
            Ensures-mono
              (Ensures-transact_db (PaidOut req sender.id outgoing.id)
                (same_currency_payout_body-PaidOut req sender.id outgoing.id positive fits))
              λ p w' t. Settles-two outgoing p w' same eo (rw (s1.0) at t)

    Settles-four :
        (conversion : Conversion D) (fx_source fx_dest outgoing : Account) (p : Payment D)
        (w' : World D)
        → find (belongs system_user_id req.source_currency AccountType.fx_pool) w.db.accounts
          ≡ some fx_source
        → find (belongs system_user_id req.dest_currency AccountType.fx_pool) w.db.accounts
          ≡ some fx_dest
        → find (belongs system_user_id req.dest_currency AccountType.outgoing) w.db.accounts
          ≡ some outgoing
        → same_currency req.source_currency req.dest_currency ≡ false
        → (pos 0 ≤ℤ conversion.dest_amount) × InInt64 conversion.dest_amount
        → PaidOutFx req sender.id conversion fx_source.id fx_dest.id outgoing.id w.db p w'.db
        → Settles w.db p w'.db
    Settles-four conversion fx_source fx_dest outgoing p w' e1 e2 e3 ne within t =
        let (id, at, e) = t.row in
        let paid : SettledNeutrally p PaymentEventType.created req.sender_user_id
            req.idempotency_key w.db w'.db =
          record {
            keyed = (λ i. (e i).idempotency_key);
            postings = four_postings p t.sender t.fx_src t.fx_dst t.outgoing;
            settled = t.settled;
            neutral =
                four-IsNeutral p t.sender t.fx_src t.fx_dst t.outgoing
                  (locked-currency _ _ _ w.db.accounts b.unique_ids sender_found t.sender_row
                    ∙ sym (λ i. (e i).source_currency))
                  (locked-currency _ _ _ w.db.accounts b.unique_ids e1 t.fx_src_row
                    ∙ sym (λ i. (e i).source_currency))
                  (locked-currency _ _ _ w.db.accounts b.unique_ids e2 t.fx_dst_row
                    ∙ sym (λ i. (e i).dest_currency))
                  (locked-currency _ _ _ w.db.accounts b.unique_ids e3 t.outgoing_row
                    ∙ sym (λ i. (e i).dest_currency));
          } in
        record {
          paid = paid;
          pending = λ i. (e i).status;
          amounts = rw e (record {
            source_from_zero = positive;
            source_fits = fits;
            dest_from_zero = within.0;
            dest_fits = within.1;
            same = λ h. absurd (clash _ ne h);
          });
          flow = λ j.
              payout_flow-four w.db.accounts p j t.sender t.fx_src t.fx_dst t.outgoing fx_source
                fx_dest outgoing (rw e e1) (rw e e2) (rw e e3) (rw e ne)
                (find-has_id sender.id w.db.accounts t.sender_row
                  ∙ sym (λ i. (e i).source_account_id))
                (find-has_id fx_source.id w.db.accounts t.fx_src_row)
                (find-has_id fx_dest.id w.db.accounts t.fx_dst_row)
                (find-has_id outgoing.id w.db.accounts t.outgoing_row);
        }
      where
        clash : (x : Bool) → x ≡ false → x ≡ true → ⊥
        clash x h k = cc

    Ensures-execute_cross_currency_payout :
        same_currency req.source_currency req.dest_currency ≡ false
        → Ensures (execute_cross_currency_payout s req sender.id) w (λ p w'. Settles w.db p w'.db)
    unfolding execute_cross_currency_payout
    Ensures-execute_cross_currency_payout ne = Ensures-bind-lift _ λ conversion converted.
        Ensures-bind (Ensures-get_system_account _ _) λ fx_source w1 (e1, s1).
          Ensures-bind (Ensures-get_system_account _ _) λ fx_dest w2 (e2, s2).
            Ensures-bind (Ensures-get_system_account _ _) λ outgoing w3 (e3, s3).
              let (dest_positive, dest_fits) = converts _ _ _ _ fits converted in
              let before = SameDb-trans w w1 w2 s1 s2 in
              let unchanged = SameDb-trans w w2 w3 before s3 in
              Ensures-mono
                (Ensures-transact_db
                  (PaidOutFx req sender.id conversion fx_source.id fx_dest.id outgoing.id)
                  (cross_currency_payout_body-PaidOutFx req sender.id conversion fx_source.id
                    fx_dest.id outgoing.id positive fits dest_positive dest_fits))
                λ p w' t.
                  Settles-four conversion fx_source fx_dest outgoing p w' e1 (rw (s1.0) at e2)
                    (rw (before.0) at e3) ne (dest_positive, dest_fits) (rw (unchanged.0) at t)

    Ensures-execute_external_payout :
        Ensures (execute_external_payout s req sender.id) w (λ p w'. Settles w.db p w'.db)
    unfolding execute_external_payout
    Ensures-execute_external_payout =
        elim (Bool-cases (same_currency req.source_currency req.dest_currency)) [
          | inl same ↦ rw same (
              Ensures-execute_same_currency_payout
                (sym (same_currency→eq req.source_currency req.dest_currency same)))
          | inr ne ↦ rw ne (Ensures-execute_cross_currency_payout ne)
        ]

  Ensures-submit_to_provider :
      (p : Payment D) (w : World D) → Ensures (submit_to_provider s p) w (λ _ w'. w'.db ≡ w.db)
  unfolding submit_to_provider
  Ensures-submit_to_provider p w = elim (Bool-cases s.has_provider) [
    | inl h ↦ record { at = rw h refl }
    | inr h ↦ record { at = rw h refl }
  ]

  pub Ensures-create_external_payout :
      (w : World D)
      → IsBook w.db.accounts
      → Ensures (create_external_payout s req) w (λ p w'. Settles w.db p w'.db)
  unfolding create_external_payout
  Ensures-create_external_payout w b =
      Ensures-bind (Ensures-map_error _ (Ensures-get_by_user_and_currency req.sender_user_id _ _))
        λ sender w1 (es, s1). Ensures-bind-lift _ λ _ valid.
          Ensures-bind
            (Ensures-map_error _ (
              Ensures-execute_external_payout w1 (rw (s1.0) b)
                (validate_external_payout-positive s req sender valid) sender (rw (s1.0) es)))
            λ p w2 t.
              Ensures-bind (Ensures-submit_to_provider p w2)
                λ _ w3 same. Ensures-pure p (rw same (rw (s1.0) at t))
