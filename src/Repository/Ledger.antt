-- ===== src/Repository/Ledger.antt =====
-- internal/repository/ledger.go
pub mod Laws
use grey_backend_assessment.Prelude.{
  ℕ, Bool, List, ◌∷◌, ◌==◌, if◌then◌else◌, ltb, any, filter, take, drop, length,
}
use grey_backend_assessment.Prelude.Sort.{sort}
use grey_backend_assessment.Domain.{Uuid, LedgerEntry, unique_violation}
use grey_backend_assessment.Session.{Db, Result, ok, err, Session, pure, ◌>>=◌, statement, query}

abbrev pub has_id : Uuid → LedgerEntry → Bool
has_id id e = e.id == id

module _ {D : Type 0} where
  unfoldable pub insert_entry : LedgerEntry → Db D → Result (Unit × Db D)
  insert_entry e db =
      if any (has_id e.id) db.ledger_entries
      then err (unique_violation "ledger_entries_pkey")
      else ok (tt, record db { ledger_entries = e ∷ db.ledger_entries })

  unfoldable pub create : LedgerEntry → Session D Unit
  create e = statement (insert_entry e)

  -- One page of an account's entries, the newest first, and how many there are in all.
  unfoldable pub get_by_account_id : Uuid → ℕ → ℕ → Session D (List LedgerEntry × ℕ)
  get_by_account_id account_id limit offset = do
    total ← query (λ db. length (filter (λ e. e.account_id == account_id) db.ledger_entries))
    entries ← query (λ db.
        sort (λ a b. ltb b.created_at a.created_at)
          (filter (λ e. e.account_id == account_id) db.ledger_entries))
    pure (take limit (drop offset entries), total)

  unfoldable pub get_by_payment_id : Uuid → Session D (List LedgerEntry)
  get_by_payment_id payment_id = query λ db.
      sort (λ a b. ltb a.created_at b.created_at)
        (filter (λ e. e.payment_id == payment_id) db.ledger_entries)
