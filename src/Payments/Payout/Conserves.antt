-- ===== src/Payments/Payout/Conserves.antt =====
-- internal/service/payment/external_payout.go, external_payout_fx.go: a payout makes no money.
use grey_backend_assessment.Prelude.{◌≡◌, true, false, ◌∷◌, any}
use grey_backend_assessment.Prelude.Int.{InInt64}
use grey_backend_assessment.Domain.{Payment}
use grey_backend_assessment.Session.{World, ok}
use grey_backend_assessment.Session.Laws.{Ensures-elim}
use grey_backend_assessment.Repository.Payments.{has_key}
use grey_backend_assessment.Payments.Service.{Service, ConvertsWithin}
use grey_backend_assessment.Payments.Posting.{IsBook}
use grey_backend_assessment.Payments.Posting.Conserved.{
  SettledNeutrally-Conserved, SettledNeutrally-once, Conserved,
}
use grey_backend_assessment.Payments.Payout.{ExternalPayoutRequest, create_external_payout}
use grey_backend_assessment.Payments.Payout.Moved.{Ensures-create_external_payout}

module _ {D : Type 0} (s : Service D) (req : ExternalPayoutRequest) (converts : ConvertsWithin s)
    (fits : InInt64 req.amount) where
  -- A payout that returns makes and loses no money: for a table of accounts that keeps its
  -- invariant, the invariant holds after it, every account's balance agrees with its ledger entries
  -- as it did before, each currency has the same total, and the payment's entries add up to nothing
  -- in each currency. The rate service is one that converts an int64 to an int64 from zero on.
  pub create_external_payout-Conserved :
      (w w' : World D) (p : Payment D)
      → IsBook w.db.accounts
      → create_external_payout s req w ≡ (ok p, w')
      → Conserved p.id w.db w'.db
  create_external_payout-Conserved w w' p b h =
      SettledNeutrally-Conserved b
        (Ensures-elim (Ensures-create_external_payout s req converts fits w b) h).paid

  -- A payout that returns has been recorded once: its idempotency key was free for the source account
  -- before it, its row is the only new one, and the key is taken after it.
  pub create_external_payout_once :
      (w w' : World D) (p : Payment D)
      → IsBook w.db.accounts
      → create_external_payout s req w ≡ (ok p, w')
      → (any (has_key req.idempotency_key p.source_account_id) w.db.payments ≡ false)
        × (w'.db.payments ≡ p ∷ w.db.payments)
        × (any (has_key req.idempotency_key p.source_account_id) w'.db.payments ≡ true)
  create_external_payout_once w w' p b h =
      SettledNeutrally-once
        (Ensures-elim (Ensures-create_external_payout s req converts fits w b) h).paid
