-- ===== src/Payments/Transfer/Self.antt =====
-- internal/service/payment/transfer.go with internal/repository/account.go: one account as sender and
-- recipient. validateTransfer compares users, so it does not see this; the versions do.
use grey_backend_assessment.Prelude.{◌≡◌, ◌≢◌, ◌∙◌, refl, sym, List, some, find, ==_refl}
use grey_backend_assessment.Prelude.Int.{
  ℤ, pos, ◌≤ℤ◌, InInt64, add64, sub64-add64_one, add64_one-ne,
}
use grey_backend_assessment.Domain.{Uuid, Account, Payment}
use grey_backend_assessment.Session.{World, ok}
use grey_backend_assessment.Session.Laws.{Ensures-elim}
use grey_backend_assessment.Session.Laws.Tables.{Ensures-transact_db}
use grey_backend_assessment.Repository.Accounts.{has_id, set_balance}
use grey_backend_assessment.Repository.Accounts.Laws.{Updated, find_own}
use grey_backend_assessment.Payments.Posting.{IsBook}
use grey_backend_assessment.Payments.Posting.Rows.{
  row_at_version, updated-HasUniqueIds, find-updated,
}
use grey_backend_assessment.Payments.Posting.Books.{funds-find}
use grey_backend_assessment.Payments.Transfer.{
  InternalTransferRequest, execute_same_currency_transfer,
}
use grey_backend_assessment.Payments.Transfer.Settles.{Transferred, same_currency_body-Transferred}

some-injective : (a b : Account) → some a ≡ some b → a ≡ b
some-injective a b h = cc

-- A row that was locked once cannot be updated twice from what was locked.
not_twice :
    (rows mid rows' : List Account) (a : Account) {b c : ℤ}
    → IsBook rows
    → find (has_id a.id) rows ≡ some a
    → Updated a.id b (add64 a.version (pos 1)) rows mid
    → Updated a.id c (add64 a.version (pos 1)) mid rows'
    → ⊥
not_twice rows mid rows' a {b} book row u v =
    let (_, _, fits) = funds-find a.id rows book.funds row in
    let next = add64 a.version (pos 1) in
    let after = rw (sub64-add64_one a.version fits) at u.after in
    let unique =
      rw (sym after) at (updated-HasUniqueIds a.id a.version b next rows book.unique_ids) in
    let (r, found, same) =
      row_at_version a.id a.version mid unique (rw (sub64-add64_one a.version fits) at v.hit) in
    let changed = find-updated a.id a.version b next rows row refl a.id in
    let now_there : find (has_id a.id) mid ≡ some (set_balance b next a) =
      rw after (changed ∙ rw (==_refl a.id) refl) in
    let it = some-injective r (set_balance b next a) (sym found ∙ now_there) in
    add64_one-ne a.version fits (sym (λ i. (it i).version) ∙ same)

module _ {D : Type 0} (req : InternalTransferRequest) (positive : pos 0 ≤ℤ req.amount)
    (fits : InInt64 req.amount) where
  -- A transfer of an int64 amount from zero on, from an account to that account, never returns: the
  -- second update of the balance meets a version that the first has moved on.
  pub execute_same_currency_transfer_self :
      (id : Uuid) (w w' : World D) (p : Payment D)
      → IsBook w.db.accounts
      → execute_same_currency_transfer req id id w ≢ (ok p, w')
  unfolding execute_same_currency_transfer
  execute_same_currency_transfer_self id w w' p b h =
      let t =
        Ensures-elim
          (Ensures-transact_db (Transferred req id id)
            (same_currency_body-Transferred req id id positive fits))
          h in
      let one = some-injective t.recipient t.sender (sym t.recipient_row ∙ t.sender_row) in
      let (mid, u, (last, v, _)) = t.settled.accounts in
      not_twice w.db.accounts mid last t.sender b (find_own id w.db.accounts t.sender_row) u
        (rw one at v)
