-- ===== src/Payments/Posting.antt =====
-- What the flows of internal/service/payment and internal/service promise of the books, said apart
-- from the code: the balance of an account, the net of its ledger entries, the money in one
-- currency, and what a list of postings makes of the accounts and of the ledger.
pub mod Rows
pub mod Books
pub mod Settled
pub mod Conserved
pub mod Flow
pub mod Moves
use grey_backend_assessment.Prelude.{
  ◌≡◌, Bool, true, false, Option, none, some, List, [], ◌∷◌, ◌==◌, if◌then◌else◌, find, any,
}
use grey_backend_assessment.Prelude.Int.{ℤ, pos, ◌+ℤ◌, ◌-ℤ◌, ◌≤ℤ◌, add64, InInt64}
use grey_backend_assessment.Domain.{
  Uuid, Time, Currency, same_currency, Account, EntryType, debit, credit, LedgerEntry,
}
use grey_backend_assessment.Repository.Accounts.{has_id}
use grey_backend_assessment.Repository.Accounts.Laws.{Updated}
use grey_backend_assessment.Payments.Entries.{Posting, new_balance, entry_for}

abbrev pub balance_in : Option Account → ℤ
balance_in none = pos 0
balance_in (some a) = a.balance

-- The balance of an account, zero if there is none.
abbrev pub balance_of : Uuid → List Account → ℤ
balance_of id accounts = balance_in (find (has_id id) accounts)

-- A credit adds to an account, a debit takes from it.
abbrev pub signed : EntryType → ℤ → ℤ
signed debit amount = pos 0 -ℤ amount
signed credit amount = amount

-- Credits less debits of an account in the ledger.
unfoldable pub net : Uuid → List LedgerEntry → ℤ
net id [] = pos 0
net id (e ∷ es) = (if e.account_id == id then signed e.entry_type e.amount else pos 0) +ℤ net id es

-- Credits less debits of one payment in one currency.
unfoldable pub payment_net : Uuid → Currency → List LedgerEntry → ℤ
payment_net payment_id c [] = pos 0
payment_net payment_id c (e ∷ es) =
    (if e.payment_id == payment_id
      then (if same_currency e.currency c then signed e.entry_type e.amount else pos 0)
      else pos 0)
    +ℤ payment_net payment_id c es

-- The money that all accounts hold in one currency.
unfoldable pub total : Currency → List Account → ℤ
total c [] = pos 0
total c (a ∷ rows) = (if same_currency a.currency c then a.balance else pos 0) +ℤ total c rows

-- What a list of postings adds to one account, and to the accounts of one currency.
unfoldable pub posted_to : Uuid → List Posting → ℤ
posted_to id [] = pos 0
posted_to id (q ∷ qs) =
    (if q.account.id == id then signed q.entry_type q.amount else pos 0) +ℤ posted_to id qs

unfoldable pub posted_in : Currency → List Posting → ℤ
posted_in c [] = pos 0
posted_in c (q ∷ qs) =
    (if same_currency q.account.currency c then signed q.entry_type q.amount else pos 0)
    +ℤ posted_in c qs

-- What the entries of a list of postings come to in one currency.
unfoldable pub entered_in : Currency → List Posting → ℤ
entered_in c [] = pos 0
entered_in c (q ∷ qs) =
    (if same_currency q.currency c then signed q.entry_type q.amount else pos 0) +ℤ entered_in c qs

-- No two rows have one identifier: the primary key.
abbrev pub HasUniqueIds : List Account → Type 0
HasUniqueIds [] = Unit
HasUniqueIds (a ∷ rows) = (any (has_id a.id) rows ≡ false) × HasUniqueIds rows

-- Every balance is an int64 from zero on: the column's type and its check.
abbrev pub HasFunds : List Account → Type 0
HasFunds [] = Unit
HasFunds (a ∷ rows) = ((pos 0 ≤ℤ a.balance) × InInt64 a.balance × InInt64 a.version) × HasFunds rows

pub record IsBook (accounts : List Account) : Type 0 where
  pub unique_ids : HasUniqueIds accounts
  pub funds : HasFunds accounts

-- Each posting in turn gives its account the new balance and the next version.
abbrev pub Applied : List Posting → List Account → List Account → Type 0
Applied [] rows bs = bs ≡ rows
Applied (q ∷ qs) rows bs =
    (mid : List Account) × Updated q.account.id (new_balance q) (add64 q.account.version (pos 1))
      rows mid
    × Applied qs mid bs

-- Each posting in turn adds its entry.
abbrev pub Entered : Uuid → Time → List Posting → List LedgerEntry → List LedgerEntry → Type 0
Entered payment_id at [] es es' = es' ≡ es
Entered payment_id at (q ∷ qs) es es' =
    (id : Uuid) × Entered payment_id at qs (entry_for id payment_id at q (new_balance q) ∷ es) es'

-- Each posting is against a row of the table, for an int64 from zero on.
abbrev pub Located : List Account → List Posting → Type 0
Located accounts [] = Unit
Located accounts (q ∷ qs) =
    ((find (has_id q.account.id) accounts ≡ some q.account)
      × (pos 0 ≤ℤ q.amount)
      × InInt64 q.amount)
    × Located accounts qs
