-- ===== src/Repository/Accounts.antt =====
-- internal/repository/account.go
pub mod Laws
use grey_backend_assessment.Prelude.{
  ℕ, Bool, true, false, ◌&&◌, ◌||◌, Option, List, ◌∷◌, ◌==◌, if◌then◌else◌, ltb, find, any, filter,
  update_where, length,
}
use grey_backend_assessment.Prelude.Int.{ℤ, pos, ltb_ℤ, eqb_ℤ, sub64}
use grey_backend_assessment.Prelude.Sort.{sort}
use grey_backend_assessment.Domain.{
  Uuid, Currency, AccountType, Account, same_currency, same_account_type, Error, driver_error,
  version_conflict, unique_violation,
}
use grey_backend_assessment.Session.{
  Db, Result, ok, err, Session, pure, or_not_found, raise_if, ◌>>=◌, ◌>>◌, driver_call, statement,
  query,
}

abbrev pub has_id : Uuid → Account → Bool
has_id id a = a.id == id

abbrev pub belongs : Uuid → Currency → AccountType → Account → Bool
belongs user_id currency account_type a =
    a.user_id == user_id
    && same_currency a.currency currency
    && same_account_type a.account_type account_type

module _ {D : Type 0} where
  -- SELECT … WHERE id = $1
  unfoldable pub get_by_id : Uuid → Session D Account
  get_by_id id = do row ← query (λ db. find (has_id id) db.accounts); or_not_found row

  -- SELECT … WHERE user_id = $1 AND currency = $2 AND account_type = $3
  unfoldable pub get_by_user_and_currency : Uuid → Currency → AccountType → Session D Account
  get_by_user_and_currency user_id currency account_type = do
    row ← query (λ db. find (belongs user_id currency account_type) db.accounts)
    or_not_found row

  -- SELECT … WHERE user_id = $1 AND account_type = $2 ORDER BY created_at
  unfoldable pub get_by_user_id_and_type : Uuid → AccountType → Session D (List Account)
  get_by_user_id_and_type user_id account_type = query λ db.
      sort (λ a b. ltb a.created_at b.created_at)
        (filter (λ a. a.user_id == user_id && same_account_type a.account_type account_type)
          db.accounts)

  -- INSERT: the primary key, idx_accounts_user_currency_type and the check on balances
  unfoldable pub insert_account : Account → Db D → Result (Unit × Db D)
  insert_account a db =
      if any (has_id a.id) db.accounts
      then err (unique_violation "accounts_pkey")
      else if any (belongs a.user_id a.currency a.account_type) db.accounts
      then err (unique_violation "idx_accounts_user_currency_type")
      else if ltb_ℤ a.balance (pos 0)
      then err driver_error
      else ok (tt, record db { accounts = a ∷ db.accounts })

  unfoldable pub create : Account → Session D Unit
  create a = statement (insert_account a)

  -- SELECT … WHERE id = $1 FOR UPDATE
  unfoldable pub get_for_update : Uuid → Session D Account
  get_for_update id = do row ← query (λ db. find (has_id id) db.accounts); or_not_found row

-- WHERE id = $3 AND version = $4
abbrev pub at_version : Uuid → ℤ → Account → Bool
at_version id version a = a.id == id && eqb_ℤ a.version version

-- SET balance = $1, version = $2
abbrev pub set_balance : ℤ → ℤ → Account → Account
set_balance balance version a = record a { balance = balance; version = version }

module _ {D : Type 0} where
  -- The number of rows affected, and chk_accounts_balance on each of them.
  unfoldable pub update_accounts : Uuid → ℤ → ℤ → ℤ → Db D → Result (ℕ × Db D)
  update_accounts id new_balance new_version old_version db =
      let hit = at_version id old_version in
      let rows = length (filter hit db.accounts) in
      if any hit db.accounts && ltb_ℤ new_balance (pos 0)
      then err driver_error
      else ok (
        rows,
        record db { accounts = update_where hit (set_balance new_balance new_version) db.accounts },
      )

  unfoldable pub update_balance : Uuid → ℤ → ℤ → Session D Unit
  update_balance id new_balance new_version = do
    rows ← statement (update_accounts id new_balance new_version (sub64 new_version (pos 1)))
    driver_call
    raise_if (rows == 0) version_conflict
