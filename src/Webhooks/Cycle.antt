-- ===== src/Webhooks/Cycle.antt =====
-- internal/service/payment/external_payout.go with internal/service/webhook_processor.go: a payout that
-- the provider reports as failed.
use grey_backend_assessment.Prelude.{◌≡◌, ◌∙◌, ap, String}
use grey_backend_assessment.Prelude.Int.{ℤ, pos_part, neg_part, ◌+ℤ◌, ◌-ℤ◌, int_laws, InInt64}
use grey_backend_assessment.Domain.{Uuid, Payment}
use grey_backend_assessment.Session.{World, ok}
use grey_backend_assessment.Session.Laws.{Ensures-elim}
use grey_backend_assessment.Payments.Service.{Service, ConvertsWithin}
use grey_backend_assessment.Payments.Posting.{balance_of, IsBook}
use grey_backend_assessment.Payments.Posting.Flow.{payout_flow, payout_flow-Applied}
use grey_backend_assessment.Payments.Posting.Settled.{Settled-Balanced}
use grey_backend_assessment.Payments.Payout.{ExternalPayoutRequest, create_external_payout}
use grey_backend_assessment.Payments.Payout.Moved.{PaysOut, Ensures-create_external_payout}
use grey_backend_assessment.Webhooks.{Codec, handle_failed}
use grey_backend_assessment.Webhooks.GivesBack.{Ensures-handle_failed, Reverses-balances}

there_and_back : (x y z f g : ℤ) → y ≡ x +ℤ f → z ≡ y -ℤ g → g ≡ f → z ≡ x
there_and_back x y z f g h k e = omega (
  int_laws,
  ap pos_part h,
  ap neg_part h,
  ap pos_part k,
  ap neg_part k,
  ap pos_part e,
  ap neg_part e,
)

module _ {D : Type 0} (s : Service D) (req : ExternalPayoutRequest) (converts : ConvertsWithin s)
    (fits : InInt64 req.amount) (w w' : World D) (p : Payment D) (b : IsBook w.db.accounts)
    (paid : create_external_payout s req w ≡ (ok p, w')) where
  payout : PaysOut req.sender_user_id req.idempotency_key w.db p w'.db
  payout = Ensures-elim (Ensures-create_external_payout s req converts fits w b) paid

  -- A payout that returns has taken its amount out of the source account and put what the recipient
  -- gets into the outgoing account of the destination currency, across currencies by way of the two
  -- pools; the balance of every other account is as it was.
  pub create_external_payout-balances :
      (j : Uuid)
      → balance_of j w'.db.accounts ≡ balance_of j w.db.accounts +ℤ payout_flow w.db.accounts p j
  create_external_payout-balances j =
      (Settled-Balanced payout.paid.postings w.db w'.db b payout.paid.settled).moved j
      ∙ ap (λ (x : ℤ). balance_of j w.db.accounts +ℤ x) (payout.flow j)

  -- If a payout returns and then its failure is handled, and that returns, every account has the
  -- balance that it had before the payout.
  pub create_external_payout-handle_failed :
      (codec : Codec) (reason : String) (w'' : World D)
      → handle_failed codec p reason w' ≡ (ok tt, w'')
      → (j : Uuid) → balance_of j w''.db.accounts ≡ balance_of j w.db.accounts
  create_external_payout-handle_failed codec reason w'' h j =
      let book = (Settled-Balanced payout.paid.postings w.db w'.db b payout.paid.settled).book in
      let reversal = Ensures-elim (Ensures-handle_failed codec p payout.amounts reason w') h in
      there_and_back _ _ _ _ _ (create_external_payout-balances j)
        (Reverses-balances w'.db w''.db book reversal j)
        (payout_flow-Applied p j payout.paid.postings w.db.accounts w'.db.accounts
          payout.paid.settled.accounts)
