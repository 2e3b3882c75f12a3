-- ===== src/Payments/Posting/Books/Steps.antt =====
-- The postings of one transaction, one after the other.
use grey_backend_assessment.Prelude.{
  ◌≡◌, ◌∙◌, refl, sym, ap, ◌⊎◌, inl, inr, some, List, [], ◌∷◌, ◌==◌, if◌then◌else◌, find, ==→eq,
  Bool-cases,
}
use grey_backend_assessment.Prelude.Int.{
  ℤ, pos, ◌+ℤ◌, ◌≤ℤ◌, add64, InInt64, int_laws, sub64-add64_one, add64_one-ne, InInt64-add64,
}
use grey_backend_assessment.Domain.{Uuid, Currency, same_currency, Account}
use grey_backend_assessment.Repository.Accounts.{has_id, set_balance}
use grey_backend_assessment.Repository.Accounts.Laws.{Updated}
use grey_backend_assessment.Payments.Entries.{Posting, new_balance}
use grey_backend_assessment.Payments.Posting.{
  balance_in, balance_of, signed, total, posted_to, posted_in, HasFunds, IsBook, Applied, Located,
}
use grey_backend_assessment.Payments.Posting.Rows.{
  row_at_version, updated-HasUniqueIds, updated-HasFunds, find-updated, total-updated,
}
use grey_backend_assessment.Payments.Posting.Books.{
  some-injective, funds-find, balance_after-exact, InInt64-balance_after, gain_at, gain_in, chain,
}

-- A row is as it was when the transaction began, or has the next version.
abbrev LaterAt : Uuid → List Account → List Account → Type 0
LaterAt j base rows =
    (find (has_id j) rows ≡ find (has_id j) base)
    ⊎ ((r0 : Account) × (r : Account) × (find (has_id j) base ≡ some r0)
        × (find (has_id j) rows ≡ some r)
        × (r.version ≡ add64 r0.version (pos 1)))

-- What a list of postings makes of the table.
pub record Outcome (rows rows' : List Account) (qs : List Posting) : Type 0 where
  pub book : IsBook rows'
  pub moved : (j : Uuid) → balance_of j rows' ≡ balance_of j rows +ℤ posted_to j qs
  pub kept : (c : Currency) → total c rows' ≡ total c rows +ℤ posted_in c qs

module _ (base : List Account) where
  IsLater : List Account → Type 0
  IsLater rows = (j : Uuid) → LaterAt j base rows

  -- An update that hits a row hits it as it was locked: one that was updated before has another
  -- version.
  locked_row :
      (rows : List Account) (a : Account) {balance : ℤ} {rows' : List Account}
      → HasFunds base
      → IsBook rows
      → IsLater rows
      → find (has_id a.id) base ≡ some a
      → Updated a.id balance (add64 a.version (pos 1)) rows rows'
      → find (has_id a.id) rows ≡ some a
  unfolding IsLater
  locked_row rows a f b l e u =
      let fits = (funds-find a.id base f e).2 in
      let (r, found, v) =
        row_at_version a.id a.version rows b.unique_ids
          (rw (sub64-add64_one a.version fits) at u.hit) in
      elim (l a.id) [
        | inl same ↦ same ∙ e
        | inr (r0, r', e0, e', v') ↦ absurd (
            add64_one-ne a.version fits (
              bumped a r r0 r' (some-injective r r' (sym found ∙ e'))
                (some-injective a r0 (sym e ∙ e0)) v v'))
      ]
    where
      bumped :
          (a r r0 r' : Account)
          → r ≡ r'
          → a ≡ r0
          → r.version ≡ a.version
          → r'.version ≡ add64 r0.version (pos 1)
          → add64 a.version (pos 1) ≡ a.version
      bumped a r r0 r' p q v v' = cc

  -- What one posting makes of the table.
  record Step (rows rows' : List Account) (q : Posting) : Type 0 where
    book : IsBook rows'
    later : IsLater rows'
    moved :
        (j : Uuid)
        → balance_of j rows'
          ≡ balance_of j rows +ℤ (if q.account.id == j then signed q.entry_type q.amount else pos 0)
    kept :
        (c : Currency)
        → total c rows'
          ≡ total c rows
            +ℤ (if same_currency q.account.currency c then signed q.entry_type q.amount else pos 0)

  LaterAt-updated :
      (rows rows' : List Account) (a : Account) (balance : ℤ) (j : Uuid)
      → find (has_id a.id) base ≡ some a
      → LaterAt j base rows
      → find (has_id j) rows' ≡ (
          if a.id == j
          then some (set_balance balance (add64 a.version (pos 1)) a)
          else find (has_id j) rows)
      → LaterAt j base rows'
  LaterAt-updated rows rows' a balance j e l c = elim (Bool-cases (a.id == j)) [
    | inl p ↦ inr (
      a,
      set_balance balance (add64 a.version (pos 1)) a,
      rw (← ==→eq a.id j p) e,
      rw p at c,
      refl,
    )
    | inr p ↦ elim l [
      | inl same ↦ inl ((rw p at c) ∙ same)
      | inr (r0, r, e0, e1, v) ↦ inr (r0, r, e0, (rw p at c) ∙ e1, v)
    ]
  ]

  posting-Step :
      (rows rows' : List Account) (q : Posting)
      → HasFunds base
      → IsBook rows
      → IsLater rows
      → find (has_id q.account.id) base ≡ some q.account
      → pos 0 ≤ℤ q.amount
      → InInt64 q.amount
      → Updated q.account.id (new_balance q) (add64 q.account.version (pos 1)) rows rows'
      → Step rows rows' q
  unfolding IsLater
  posting-Step rows rows' q f b l e pa ha u =
      let row = locked_row rows q.account f b l e u in
      let (pb, hb, hv) = funds-find q.account.id base f e in
      let exact =
        balance_after-exact q.entry_type q.account.balance q.amount hb ha pb pa u.nonneg in
      let after = rw (sub64-add64_one q.account.version hv) at u.after in
      let next = add64 q.account.version (pos 1) in
      let changed =
        find-updated q.account.id q.account.version (new_balance q) next rows row refl in
      rw after (record {
        book = record {
          unique_ids =
              updated-HasUniqueIds q.account.id q.account.version (new_balance q) next rows
                b.unique_ids;
          funds =
              updated-HasFunds q.account.id q.account.version (new_balance q) next rows b.funds
                u.nonneg (InInt64-balance_after q.entry_type q.account.balance q.amount)
                (InInt64-add64 q.account.version (pos 1));
        };
        later = λ j. LaterAt-updated rows _ q.account (new_balance q) j e (l j) (changed j);
        moved = λ j. ap balance_in (changed j) ∙ gain_at rows q j row exact;
        kept = λ c. gain_in _ _ _ _ _ (same_currency q.account.currency c) exact (
            total-updated q.account.id q.account.version (new_balance q) next rows b.unique_ids row
              refl c);
      })

  Applied-Outcome_from :
      (qs : List Posting) (rows rows' : List Account)
      → HasFunds base
      → IsBook rows
      → IsLater rows
      → Located base qs
      → Applied qs rows rows'
      → Outcome rows rows' qs
  unfolding posted_to posted_in
  Applied-Outcome_from [] rows rows' f b l at a =
      rw a (record { book = b; moved = λ j. omega int_laws; kept = λ c. omega int_laws })
  Applied-Outcome_from (q ∷ qs) rows rows' f b l at (mid, u, rest) =
      let (e, pa, ha) = at.0 in
      let s = posting-Step rows mid q f b l e pa ha u in
      let o = Applied-Outcome_from qs mid rows' f s.book s.later at.1 rest in
      record {
        book = o.book;
        moved = λ j. chain _ _ _ _ _ (s.moved j) (o.moved j);
        kept = λ c. chain _ _ _ _ _ (s.kept c) (o.kept c);
      }

-- From the table that was locked.
pub Applied-Outcome :
    (qs : List Posting) (base rows' : List Account)
    → IsBook base
    → Located base qs
    → Applied qs base rows'
    → Outcome base rows' qs
unfolding IsLater
Applied-Outcome qs base rows' b at a =
    Applied-Outcome_from base qs base rows' b.funds b (λ j. inl refl) at a
