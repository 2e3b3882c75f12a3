-- ===== src/Payments.antt =====
-- internal/service/payment: the payment service. Its parts are the locks and checks that every flow
-- shares, the ledger entries of a payment, internal transfers and external payouts.
pub mod Service
pub mod Locks
pub mod Entries
pub mod Transfer
pub mod Payout
pub mod Posting
pub mod Runs
pub mod Atomic
pub mod History
pub mod Panics
