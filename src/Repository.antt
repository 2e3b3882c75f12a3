-- ===== src/Repository.antt =====
-- internal/repository: the statements that the services run, each as what it makes of the tables. A
-- table lists its newest row first. The constraints are those of migrations/: primary keys, unique
-- indices and the check on balances. Foreign keys and the widths of columns are not modelled; a
-- statement that they refuse is one that `fails`.
pub mod Accounts
pub mod Payments
pub mod Ledger
pub mod Events
pub mod Users
pub mod Idempotency
pub mod Webhooks
pub mod History
