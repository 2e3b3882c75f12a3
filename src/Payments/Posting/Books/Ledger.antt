-- ===== src/Payments/Posting/Books/Ledger.antt =====
-- A list of postings in the ledger: the net of an account, and the entries of one payment.
use grey_backend_assessment.Prelude.{◌≡◌, ◌∙◌, List, [], ◌∷◌, ==_refl}
use grey_backend_assessment.Prelude.Int.{◌+ℤ◌, int_laws}
use grey_backend_assessment.Domain.{Uuid, Time, Currency, LedgerEntry}
use grey_backend_assessment.Payments.Entries.{Posting, new_balance, entry_for}
use grey_backend_assessment.Payments.Posting.{net, payment_net, entered_in, posted_to, Entered}
use grey_backend_assessment.Payments.Posting.Books.{swap_add}

module _ (payment_id : Uuid) (at : Time) where
  -- The ledger moves with the accounts.
  pub net-Entered :
      (j : Uuid) (qs : List Posting) (es es' : List LedgerEntry)
      → Entered payment_id at qs es es'
      → net j es' ≡ net j es +ℤ posted_to j qs
  unfolding net posted_to
  net-Entered j [] es es' e = rw e (omega int_laws)
  net-Entered j (q ∷ qs) es es' (id, rest) =
      let ih = net-Entered j qs (entry_for id payment_id at q (new_balance q) ∷ es) es' rest in
      ih ∙ swap_add _ _ _

  -- The entries of the payment come to what is posted under each currency.
  pub payment_net-Entered :
      (c : Currency) (qs : List Posting) (es es' : List LedgerEntry)
      → Entered payment_id at qs es es'
      → payment_net payment_id c es' ≡ payment_net payment_id c es +ℤ entered_in c qs
  unfolding payment_net entered_in
  payment_net-Entered c [] es es' e = rw e (omega int_laws)
  payment_net-Entered c (q ∷ qs) es es' (id, rest) =
      let ih =
        payment_net-Entered c qs (entry_for id payment_id at q (new_balance q) ∷ es) es' rest in
      ih ∙ rw (==_refl payment_id) (swap_add _ _ _)
