-- ===== src/Payments/Transfer/Conserves.antt =====
-- internal/service/payment/transfer.go, transfer_fx.go: a transfer makes no money.
use grey_backend_assessment.Prelude.{ap, ◌≡◌, ◌∙◌, true, false, ◌∷◌, any}
use grey_backend_assessment.Prelude.Int.{ℤ, ◌+ℤ◌, InInt64}
use grey_backend_assessment.Domain.{Uuid, Payment}
use grey_backend_assessment.Session.{World, ok}
use grey_backend_assessment.Session.Laws.{Ensures-elim}
use grey_backend_assessment.Repository.Payments.{has_key}
use grey_backend_assessment.Payments.Service.{Service, ConvertsWithin}
use grey_backend_assessment.Payments.Posting.{IsBook, balance_of}
use grey_backend_assessment.Payments.Posting.Settled.{Settled-Balanced}
use grey_backend_assessment.Payments.Posting.Moves.{transfer_flow}
use grey_backend_assessment.Payments.Posting.Conserved.{
  SettledNeutrally-Conserved, SettledNeutrally-once, Conserved,
}
use grey_backend_assessment.Payments.Transfer.{InternalTransferRequest, create_internal_transfer}
use grey_backend_assessment.Payments.Transfer.Moved.{Ensures-create_internal_transfer}

module _ {D : Type 0} (s : Service D) (req : InternalTransferRequest) (converts : ConvertsWithin s)
    (fits : InInt64 req.amount) where
  -- A transfer that returns makes and loses no money: for a table of accounts that keeps its
  -- invariant, the invariant holds after it, every account's balance agrees with its ledger entries
  -- as it did before, each currency has the same total, and the payment's entries add up to nothing
  -- in each currency. The rate service is one that converts an int64 to an int64 from zero on.
  pub create_internal_transfer-Conserved :
      (w w' : World D) (p : Payment D)
      → IsBook w.db.accounts
      → create_internal_transfer s req w ≡ (ok p, w')
      → Conserved p.id w.db w'.db
  create_internal_transfer-Conserved w w' p b h =
      SettledNeutrally-Conserved b
        (Ensures-elim (Ensures-create_internal_transfer s req converts fits w b) h).paid

  -- A transfer that returns has been recorded once: its idempotency key was free for the source account
  -- before it, its row is the only new one, and the key is taken after it.
  pub create_internal_transfer_once :
      (w w' : World D) (p : Payment D)
      → IsBook w.db.accounts
      → create_internal_transfer s req w ≡ (ok p, w')
      → (any (has_key req.idempotency_key p.source_account_id) w.db.payments ≡ false)
        × (w'.db.payments ≡ p ∷ w.db.payments)
        × (any (has_key req.idempotency_key p.source_account_id) w'.db.payments ≡ true)
  create_internal_transfer_once w w' p b h =
      SettledNeutrally-once
        (Ensures-elim (Ensures-create_internal_transfer s req converts fits w b) h).paid

  -- A transfer that returns has taken its amount out of the source account and put what the recipient
  -- gets into the destination account, across currencies by way of the two pools; the balance of every
  -- other account is as it was.
  pub create_internal_transfer-balances :
      (w w' : World D) (p : Payment D)
      → IsBook w.db.accounts
      → create_internal_transfer s req w ≡ (ok p, w')
      → (j : Uuid)
      → balance_of j w'.db.accounts ≡ balance_of j w.db.accounts +ℤ transfer_flow w.db.accounts p j
  create_internal_transfer-balances w w' p b h j =
      let moves = Ensures-elim (Ensures-create_internal_transfer s req converts fits w b) h in
      (Settled-Balanced moves.paid.postings w.db w'.db b moves.paid.settled).moved j
      ∙ ap (λ (x : ℤ). balance_of j w.db.accounts +ℤ x) (moves.flow j)
