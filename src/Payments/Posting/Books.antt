-- ===== src/Payments/Posting/Books.antt =====
-- A list of postings against rows that one transaction has locked: if every UpdateBalance returned,
-- the accounts have changed by exactly what was posted, and the table keeps its invariant.
pub mod Steps
pub mod Ledger
use grey_backend_assessment.Prelude.{
  ◌≡◌, ◌∙◌, refl, sym, ap, ◌⊎◌, inl, inr, Bool, true, false, Option, some, List, [], ◌∷◌, ◌==◌,
  if◌then◌else◌, find, ==→eq, ==_refl, Bool-cases,
}
use grey_backend_assessment.Prelude.Int.{
  ℤ, pos, pos_part, neg_part, ◌+ℤ◌, ◌≤ℤ◌, add64, InInt64, int_laws, sub64-of_nonneg,
  add64-of_nonneg, sub64-add64_one, add64_one-ne, InInt64-add64, InInt64-sub64,
}
use grey_backend_assessment.Domain.{
  Uuid, Time, Currency, same_currency, Account, EntryType, debit, credit, LedgerEntry,
}
use grey_backend_assessment.Repository.Accounts.{has_id, set_balance}
use grey_backend_assessment.Repository.Accounts.Laws.{Updated}
use grey_backend_assessment.Payments.Entries.{Posting, balance_after, new_balance, entry_for}
use grey_backend_assessment.Payments.Posting.{
  balance_in, balance_of, signed, net, payment_net, total, entered_in, posted_to, posted_in,
  HasFunds, IsBook, Applied, Entered, Located,
}
use grey_backend_assessment.Payments.Posting.Rows.{
  row_at_version, updated-HasUniqueIds, updated-HasFunds, find-updated, total-updated,
}

pub some-injective : (a b : Account) → some a ≡ some b → a ≡ b
some-injective a b h = cc

pub funds-find :
    (id : Uuid) (rows : List Account) {r : Account}
    → HasFunds rows
    → find (has_id id) rows ≡ some r
    → (pos 0 ≤ℤ r.balance) × InInt64 r.balance × InInt64 r.version
funds-find id [] f h = cc
funds-find id (a ∷ rows) {r} f h = elim (Bool-cases (a.id == id)) [
  | inl p ↦ let e : some a ≡ some r = rw p at h in rw (← some-injective a r e) f.0
  | inr p ↦ funds-find id rows f.1 (rw p at h)
]

-- A posting that keeps the balance from going below zero has not wrapped.
pub balance_after-exact :
    (t : EntryType) (balance amount : ℤ)
    → InInt64 balance
    → InInt64 amount
    → pos 0 ≤ℤ balance
    → pos 0 ≤ℤ amount
    → pos 0 ≤ℤ balance_after t balance amount
    → balance_after t balance amount ≡ balance +ℤ signed t amount
balance_after-exact debit b a hb ha pb pa h = sub64-of_nonneg b a hb ha pb pa ∙ omega int_laws
balance_after-exact credit b a hb ha pb pa h = add64-of_nonneg b a hb ha pb pa h

pub InInt64-balance_after :
    (t : EntryType) (balance amount : ℤ) → InInt64 (balance_after t balance amount)
InInt64-balance_after debit b a = InInt64-sub64 b a
InInt64-balance_after credit b a = InInt64-add64 b a

-- What the row of a posting gains.
pub gain_at :
    (rows : List Account) (q : Posting) (j : Uuid)
    → find (has_id q.account.id) rows ≡ some q.account
    → new_balance q ≡ q.account.balance +ℤ signed q.entry_type q.amount
    → balance_in (
        if q.account.id == j
        then some (set_balance (new_balance q) (add64 q.account.version (pos 1)) q.account)
        else find (has_id j) rows)
      ≡ balance_of j rows +ℤ (if q.account.id == j then signed q.entry_type q.amount else pos 0)
gain_at rows q j row exact = elim (Bool-cases (q.account.id == j)) [
  | inl p ↦
      let at_j : find (has_id j) rows ≡ some q.account = rw (← ==→eq q.account.id j p) row in
      rw p (
        exact
        ∙ sym (ap (λ (o : Option Account). balance_in o +ℤ signed q.entry_type q.amount) at_j))
  | inr p ↦ rw p (omega int_laws)
]

pub gain_in :
    (t t' balance new amount : ℤ) (b : Bool)
    → new ≡ balance +ℤ amount
    → t' +ℤ (if b then balance else pos 0) ≡ t +ℤ (if b then new else pos 0)
    → t' ≡ t +ℤ (if b then amount else pos 0)
gain_in t t' balance new amount true e h =
    omega (int_laws, ap pos_part h, ap neg_part h, ap pos_part e, ap neg_part e)
gain_in t t' balance new amount false e h = omega (int_laws, ap pos_part h, ap neg_part h)

pub chain : (a b c x y : ℤ) → b ≡ a +ℤ x → c ≡ b +ℤ y → c ≡ a +ℤ (x +ℤ y)
chain a b c x y h k = omega (int_laws, ap pos_part h, ap neg_part h, ap pos_part k, ap neg_part k)

pub swap_add : (x n y : ℤ) → x +ℤ n +ℤ y ≡ n +ℤ (x +ℤ y)
swap_add x n y = omega int_laws
