-- ===== src/Payments/Transfer/Validates.antt =====
-- internal/service/payment/transfer.go: which transfers validateTransfer lets through.
use grey_backend_assessment.Prelude.{◌≡◌, ◌↔◌, refl, true, false, ◌&&◌, ◌==◌, arith}
use grey_backend_assessment.Prelude.Int.{ℤ, pos, ltb_ℤ, leb_ℤ, ◌≤ℤ◌, ◌<ℤ◌, leb_ℤ→lt, ltb_ℤ→le}
use grey_backend_assessment.Domain.{
  Currency, usd, eur, gbp, other, Account, AccountStatus, is_active, is_valid, same_currency,
}
use grey_backend_assessment.Session.{ok}
use grey_backend_assessment.Payments.Service.{Service, tx_limit_for_currency}
use grey_backend_assessment.Payments.Transfer.{InternalTransferRequest, validate_transfer}

-- A transfer that the rules allow.
pub record IsAllowed {D : Type 0} (s : Service D) (req : InternalTransferRequest)
    (sender recipient : Account) : Type 0 where
  pub amount_positive : pos 0 <ℤ req.amount
  pub within_limit : req.amount ≤ℤ tx_limit_for_currency s req.source_currency
  pub between_two :
      ((sender.user_id == recipient.user_id) && same_currency req.source_currency req.dest_currency)
      ≡ false
  pub sender_active : sender.status ≡ AccountStatus.active
  pub recipient_active : recipient.status ≡ AccountStatus.active

active_status : (x : AccountStatus) → is_active x ≡ true → x ≡ AccountStatus.active
active_status AccountStatus.active h = refl
active_status AccountStatus.pending h = cc
active_status AccountStatus.frozen h = cc
active_status AccountStatus.closed h = cc

limited :
    {D : Type 0} (s : Service D) (amount : ℤ) (c : Currency)
    → pos 0 <ℤ amount
    → amount ≤ℤ tx_limit_for_currency s c
    → is_valid c ≡ true
unfolding tx_limit_for_currency
limited s amount usd p q = refl
limited s amount eur p q = refl
limited s amount gbp p q = refl
limited s amount (other t) p q = absurd (omega (arith, p, q))

module _ {D : Type 0} (s : Service D) (req : InternalTransferRequest)
    (sender recipient : Account) where
  allowed : validate_transfer s req sender recipient ≡ ok tt → IsAllowed s req sender recipient
  unfolding validate_transfer
  allowed h =
      let above : leb_ℤ req.amount (pos 0) ≡ false = ground arith in
      let below : ltb_ℤ (tx_limit_for_currency s req.source_currency) req.amount ≡ false =
        ground arith in
      record {
        amount_positive = leb_ℤ→lt req.amount (pos 0) above;
        within_limit = ltb_ℤ→le _ req.amount below;
        between_two = ground arith;
        sender_active = active_status sender.status (ground arith);
        recipient_active = active_status recipient.status (ground arith);
      }

  lets_through : IsAllowed s req sender recipient → validate_transfer s req sender recipient ≡ ok tt
  unfolding validate_transfer
  lets_through a =
      let above : leb_ℤ req.amount (pos 0) ≡ false = positive req.amount a.amount_positive in
      let below : ltb_ℤ (tx_limit_for_currency s req.source_currency) req.amount ≡ false =
        within (tx_limit_for_currency s req.source_currency) req.amount a.within_limit in
      rw (above, a.between_two, a.sender_active, a.recipient_active, below) refl
    where
      positive : (n : ℤ) → pos 0 <ℤ n → leb_ℤ n (pos 0) ≡ false
      positive n h = ground arith

      within : (m n : ℤ) → n ≤ℤ m → ltb_ℤ m n ≡ false
      within m n h = ground arith

  -- validateTransfer lets a transfer through exactly if its amount is positive and within the limit of
  -- the source currency, it is not from a user to the same user in one currency, and both accounts
  -- are active.
  pub validate_transfer_lem :
      (validate_transfer s req sender recipient ≡ ok tt) ↔ IsAllowed s req sender recipient
  validate_transfer_lem = (allowed, lets_through)

  -- A transfer from a currency other than the three is never let through.
  pub validate_transfer-is_valid :
      validate_transfer s req sender recipient ≡ ok tt → is_valid req.source_currency ≡ true
  validate_transfer-is_valid h =
      let a = allowed h in limited s req.amount req.source_currency a.amount_positive a.within_limit
