-- ===== src/Repository/Accounts/Laws.antt =====
-- internal/repository/account.go: what each statement that returned has found or changed.
use mathlib.Core.Path.{subst}
use grey_backend_assessment.Prelude.{
  sym, ℕ, ◌≡◌, ap, ◌∙◌, true, false, some, List, ◌==◌, arith, find, find_sound, ==→eq, any,
  update_where, any-of_count,
}
use grey_backend_assessment.Prelude.Int.{ℤ, pos, ◌≤ℤ◌, sub64}
use grey_backend_assessment.Domain.{Uuid, Currency, AccountType, Account}
use grey_backend_assessment.Session.{World, Db, ok}
use grey_backend_assessment.Session.Laws.{
  Ensures, SameDb, SameRun, Ensures-bind, Ensures-or_not_found, Ensures-driver_call,
  Ensures-raise_if, Ensures-mono, SameRun-trans, SameDb-trans, SameDb-of_eq,
}
use grey_backend_assessment.Session.Laws.Tables.{Ensures-query, Ensures-statement}
use grey_backend_assessment.Repository.Accounts.{
  has_id, belongs, at_version, set_balance, get_by_id, get_by_user_and_currency, get_for_update,
  update_accounts, update_balance,
}

module _ {D : Type 0} {w : World D} where
  pub Ensures-get_for_update :
      (id : Uuid)
      → Ensures
          (get_for_update id)
          w
          (λ a w'. (find (has_id id) w.db.accounts ≡ some a) × SameDb w w')
  unfolding get_for_update
  Ensures-get_for_update id =
      Ensures-bind (Ensures-query (λ db. find (has_id id) db.accounts))
        λ row w1 (e, s). Ensures-or_not_found row (λ a h. (rw (← e) h, s))

  pub Ensures-get_by_id :
      (id : Uuid)
      → Ensures (get_by_id id) w (λ a w'. (find (has_id id) w.db.accounts ≡ some a) × SameDb w w')
  unfolding get_by_id
  Ensures-get_by_id id =
      Ensures-bind (Ensures-query (λ db. find (has_id id) db.accounts))
        λ row w1 (e, s). Ensures-or_not_found row (λ a h. (rw (← e) h, s))

  pub Ensures-get_by_user_and_currency :
      (user_id : Uuid) (currency : Currency) (account_type : AccountType)
      → Ensures (get_by_user_and_currency user_id currency account_type) w (λ a w'.
        (find (belongs user_id currency account_type) w.db.accounts ≡ some a) × SameDb w w')
  unfolding get_by_user_and_currency
  Ensures-get_by_user_and_currency user_id currency account_type =
      Ensures-bind (Ensures-query (λ db. find (belongs user_id currency account_type) db.accounts))
        λ row w1 (e, s). Ensures-or_not_found row (λ a h. (rw (← e) h, s))

-- What an UPDATE of one balance makes of the accounts: a row had the expected version, the new
-- balance is not negative, and that row has the new balance and version.
pub record Updated (id : Uuid) (new_balance new_version : ℤ) (accounts accounts' : List Account)
    : Type 0 where
  pub hit : any (at_version id (sub64 new_version (pos 1))) accounts ≡ true
  pub nonneg : pos 0 ≤ℤ new_balance
  pub after :
      accounts'
      ≡ update_where
          (at_version id (sub64 new_version (pos 1)))
          (set_balance new_balance new_version)
          accounts

-- Everything but the accounts is as it was.
abbrev pub OnlyAccounts : {D : Type 0} → World D → World D → Type 0
OnlyAccounts w w' = (w'.db ≡ record w.db { accounts = w'.db.accounts }) × SameRun w w'

-- Two updates in a row.
pub OnlyAccounts-trans :
    {D : Type 0} (a b c : Db D)
    → b ≡ record a { accounts = b.accounts }
    → c ≡ record b { accounts = c.accounts }
    → c ≡ record a { accounts = c.accounts }
OnlyAccounts-trans a b c p q = q ∙ ap (λ (db : Db _). record db { accounts = c.accounts }) p

pub find-has_id :
    (id : Uuid) (rows : List Account) {a : Account} → find (has_id id) rows ≡ some a → a.id ≡ id
find-has_id id rows {a} h = ==→eq a.id id (find_sound (has_id id) rows h)

-- A row that was found under an identifier has it.
pub find_own :
    (id : Uuid) (rows : List Account) {a : Account}
    → find (has_id id) rows ≡ some a
    → find (has_id a.id) rows ≡ some a
find_own id rows {a} h = subst (λ k. find (has_id k) rows ≡ some a) (sym (find-has_id id rows h)) h

pub Updated-own :
    (id : Uuid) (rows : List Account) {a : Account} {balance version : ℤ} {xs ys : List Account}
    → find (has_id id) rows ≡ some a
    → Updated id balance version xs ys
    → Updated a.id balance version xs ys
Updated-own id rows {balance} {version} {xs} {ys} h u =
    subst (λ k. Updated k balance version xs ys) (sym (find-has_id id rows h)) u

update_accounts-eq_ok :
    {D : Type 0} (id : Uuid) (new_balance new_version : ℤ) (db : Db D) {n : ℕ} {db' : Db D}
    → update_accounts id new_balance new_version (sub64 new_version (pos 1)) db ≡ ok (n, db')
    → (n == 0) ≡ false
    → Updated id new_balance new_version db.accounts db'.accounts
      × (db' ≡ record db { accounts = db'.accounts })
unfolding update_accounts
update_accounts-eq_ok id nb nv db {n} {db'} h k =
    ground (arith, any-of_count (at_version id (sub64 nv (pos 1))) db.accounts)

module _ {D : Type 0} {w : World D} where
  pub Ensures-update_balance :
      (id : Uuid) (new_balance new_version : ℤ)
      → Ensures (update_balance id new_balance new_version) w (λ _ w'.
        Updated id new_balance new_version w.db.accounts w'.db.accounts × OnlyAccounts w w')
  unfolding update_balance
  Ensures-update_balance id nb nv =
      Ensures-bind (Ensures-statement (update_accounts id nb nv (sub64 nv (pos 1))))
        λ rows w1 (e, s). Ensures-bind Ensures-driver_call λ _ w2 t.
          Ensures-mono (Ensures-raise_if (rows == 0) _) λ _ w3 (some_row, same).
            let u = SameDb-trans w1 w2 w3 t (SameDb-of_eq same) in
            let (updated, only) = update_accounts-eq_ok id nb nv w.db e some_row in
            rw (u.0) (updated, (only, SameRun-trans w w1 w3 s u.1))
