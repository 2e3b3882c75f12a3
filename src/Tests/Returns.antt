-- ===== src/Tests/Returns.antt =====
-- A transfer that nothing stands against.
use grey_backend_assessment.Prelude.{ℕ, ◌≡◌, refl, arith}
use grey_backend_assessment.Domain.{Payment, usd, AccountType}
use grey_backend_assessment.Session.{World, ok}
use grey_backend_assessment.Prelude.Int.{add64}
use grey_backend_assessment.Payments.Service.{tx_limit_for_currency}
use grey_backend_assessment.Payments.Transfer.{create_internal_transfer}
use grey_backend_assessment.Payments.Transfer.Writes.{HasFreshIds}
use grey_backend_assessment.Payments.Transfer.Returns.{
  CanTransfer, create_internal_transfer_returns,
}
use grey_backend_assessment.Tests.{start, service, account_of, user_of, accounts-IsBook}
use grey_backend_assessment.Tests.Payments.{request}

start-HasFreshIds : HasFreshIds start
start-HasFreshIds = record {
  distinct = λ m n e. omega (arith, e);
  payment_ids = λ n h. refl;
  entry_ids = λ n h. refl;
  event_ids = λ n h. refl;
}

can : CanTransfer service request start
unfolding tx_limit_for_currency add64
can = record {
  one_currency = refl;
  user = user_of 11 "bob";
  recipient = account_of 22 11 usd AccountType.user 50;
  sender = account_of 21 10 usd AccountType.user 1000;
  named = refl;
  recipient_row = refl;
  sender_row = refl;
  allowed = record {
    amount_positive = ground arith;
    within_limit = ground arith;
    between_two = refl;
    sender_active = refl;
    recipient_active = refl;
  };
  amount_fits = ground arith;
  covered = ground arith;
  room = ground arith;
  new_key = refl;
}

create_internal_transfer_returns_example :
    (p : Payment ℕ) × (w' : World ℕ) × (create_internal_transfer service request start ≡ (ok p, w'))
create_internal_transfer_returns_example =
    create_internal_transfer_returns service request start (λ n. refl) can accounts-IsBook
      start-HasFreshIds
