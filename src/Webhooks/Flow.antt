-- ===== src/Webhooks/Flow.antt =====
-- internal/service/webhook_reversal.go: the reversal takes the money the way back that the payout went.
use grey_backend_assessment.Prelude.{
  ◌≡◌, refl, ap, Bool, true, false, some, ◌==◌, if◌then◌else◌, List,
}
use grey_backend_assessment.Prelude.Int.{ℤ, pos, pos_part, neg_part, ◌+ℤ◌, ◌-ℤ◌, int_laws}
use grey_backend_assessment.Domain.{Uuid, AccountType, Account, Payment, same_currency}
use grey_backend_assessment.Payments.Posting.{posted_to}
use grey_backend_assessment.Payments.Posting.Flow.{system_account, payout_flow}
use grey_backend_assessment.Webhooks.Reversal.{two_reversals, four_reversals}

negative_if :
    (b : Bool) (n : ℤ) → (if b then pos 0 -ℤ n else pos 0) ≡ pos 0 -ℤ (if b then n else pos 0)
negative_if true n = refl
negative_if false n = omega int_laws

back_two :
    (s o s' o' : ℤ) → s' ≡ pos 0 -ℤ s → o' ≡ pos 0 -ℤ o → o' +ℤ (s +ℤ pos 0) ≡ pos 0 -ℤ (s' +ℤ o)
back_two s o s' o' h k =
    omega (int_laws, ap pos_part h, ap neg_part h, ap pos_part k, ap neg_part k)

back_four :
    (s f g o s' f' g' o' : ℤ)
    → s' ≡ pos 0 -ℤ s
    → f' ≡ pos 0 -ℤ f
    → g' ≡ pos 0 -ℤ g
    → o' ≡ pos 0 -ℤ o
    → o' +ℤ (g +ℤ (f' +ℤ (s +ℤ pos 0))) ≡ pos 0 -ℤ (s' +ℤ (f +ℤ (g' +ℤ o)))
back_four s f g o s' f' g' o' h k l m = omega (
  int_laws,
  ap pos_part h,
  ap neg_part h,
  ap pos_part k,
  ap neg_part k,
  ap pos_part l,
  ap neg_part l,
  ap pos_part m,
  ap neg_part m,
)

module _ {D : Type 0} (rows : List Account) (p : Payment D) (j : Uuid) where
  pub payout_flow-two_back :
      (s o o' : Account)
      → system_account rows AccountType.outgoing p.dest_currency ≡ some o'
      → same_currency p.source_currency p.dest_currency ≡ true
      → s.id ≡ p.source_account_id
      → o.id ≡ o'.id
      → posted_to j (two_reversals p s o) ≡ pos 0 -ℤ payout_flow rows p j
  unfolding posted_to payout_flow
  payout_flow-two_back s o o' eo same es oi =
      rw (eo, same, es, oi)
        (back_two _ _ _ _ (negative_if (p.source_account_id == j) p.source_amount)
          (negative_if (o'.id == j) p.dest_amount))

  pub payout_flow-four_back :
      (s f g o f' g' o' : Account)
      → system_account rows AccountType.fx_pool p.source_currency ≡ some f'
      → system_account rows AccountType.fx_pool p.dest_currency ≡ some g'
      → system_account rows AccountType.outgoing p.dest_currency ≡ some o'
      → same_currency p.source_currency p.dest_currency ≡ false
      → s.id ≡ p.source_account_id
      → f.id ≡ f'.id
      → g.id ≡ g'.id
      → o.id ≡ o'.id
      → posted_to j (four_reversals p s f g o) ≡ pos 0 -ℤ payout_flow rows p j
  unfolding posted_to payout_flow
  payout_flow-four_back s f g o f' g' o' ef eg eo ne es fi gi oi =
      rw (ef, eg, eo, ne, es, fi, gi, oi)
        (back_four _ _ _ _ _ _ _ _ (negative_if (p.source_account_id == j) p.source_amount)
          (negative_if (f'.id == j) p.source_amount) (negative_if (g'.id == j) p.dest_amount)
          (negative_if (o'.id == j) p.dest_amount))
