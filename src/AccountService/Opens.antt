-- ===== src/AccountService/Opens.antt =====
-- internal/service/account.go: what an account that was opened is, and what it leaves alone.
use grey_backend_assessment.Prelude.{
  ◌≡◌, ◌∙◌, refl, String, Bool, true, false, not, ◌==◌, some, ◌∷◌, find, any, arith, if◌then◌else◌,
}
use grey_backend_assessment.Prelude.Int.{ℤ, pos, ◌+ℤ◌, int_laws}
use grey_backend_assessment.Domain.{
  Uuid, Time, Currency, is_valid, same_currency, Account, AccountType, User,
}
use grey_backend_assessment.Session.{World, Db, Session, Result, ok, caught}
use grey_backend_assessment.Session.Laws.{
  Ensures, SameDb, Ensures-bind, Ensures-pure, Ensures-bind-lift, Ensures-bind-raise_if,
  Ensures-bind-now, Ensures-bind-new_uuid, Ensures-or_not_found, Ensures-mono, Ensures-elim,
}
use grey_backend_assessment.Session.Laws.Tables.{Ensures-query, Ensures-statement}
use grey_backend_assessment.Session.Atomic.{Reads, Reads-bind, Reads-query, Reads-or_not_found}
use grey_backend_assessment.Repository.Accounts
use grey_backend_assessment.Repository.Accounts.{has_id, belongs}
use grey_backend_assessment.Repository.Users
use grey_backend_assessment.Payments.Posting.{IsBook, total}
use grey_backend_assessment.AccountService.{opened_account, create_account}

insert_account-eq_ok :
    {D : Type 0} (a : Account) (db : Db D) {db' : Db D}
    → Accounts.insert_account a db ≡ ok (tt, db')
    → (any (has_id a.id) db.accounts ≡ false)
      × (any (belongs a.user_id a.currency a.account_type) db.accounts ≡ false)
      × (db' ≡ record db { accounts = a ∷ db.accounts })
unfolding Accounts.insert_account
insert_account-eq_ok a db h = ground arith

-- The user exists, the currency is one of the three, the user had no account in it, and the new account
-- is empty, active and the only change.
pub record Opens {D : Type 0} (user_id : Uuid) (currency : Currency) (db : Db D) (a : Account)
    (db' : Db D) : Type 0 where
  pub user : (u : User) × (find (λ x. x.id == user_id) db.users ≡ some u)
  pub supported : is_valid currency ≡ true
  pub first : any (belongs user_id currency AccountType.user) db.accounts ≡ false
  pub fresh : any (has_id a.id) db.accounts ≡ false
  pub row :
      (id : Uuid) × (acct_num : String) × (at : Time) × (a
        ≡ opened_account id user_id currency acct_num at)
  pub only : db' ≡ record db { accounts = a ∷ db.accounts }

module _ {D : Type 0} {w : World D} where
  Ensures-create :
      (a : Account)
      → Ensures (Accounts.create a) w (λ _ w'.
        (any (has_id a.id) w.db.accounts ≡ false)
        × (any (belongs a.user_id a.currency a.account_type) w.db.accounts ≡ false)
        × (w'.db ≡ record w.db { accounts = a ∷ w.db.accounts }))
  unfolding Accounts.create
  Ensures-create a =
      Ensures-mono (Ensures-statement (Accounts.insert_account a))
        λ _ w1 (h, _). insert_account-eq_ok a w.db h

  Ensures-get_user :
      (id : Uuid)
      → Ensures
          (Users.get_by_id id)
          w
          (λ u w'. (find (λ x. x.id == id) w.db.users ≡ some u) × SameDb w w')
  unfolding Users.get_by_id
  Ensures-get_user id =
      Ensures-bind (Ensures-query _)
        λ row w1 (e, s). Ensures-or_not_found row (λ a h. (rw (← e) h, s))

  Ensures-caught :
      {A : Type 0} {m : Session D A} → Reads m → Ensures (caught m) w (λ _ w'. w'.db ≡ w.db)
  unfolding caught
  Ensures-caught r = record { at = r.at w }

Reads-get_account :
    {D : Type 0} (u : Uuid) (c : Currency) (t : AccountType)
    → Reads {D = D} (Accounts.get_by_user_and_currency u c t)
unfolding Accounts.get_by_user_and_currency
Reads-get_account u c t = Reads-bind (Reads-query _) λ row. Reads-or_not_found row

double_negation : (b : Bool) → not b ≡ false → b ≡ true
double_negation true h = refl
double_negation false h = cc

module _ {D : Type 0} (digits : Result String) (user_id : Uuid) (currency : Currency) where
  Ensures-create_account :
      (w : World D)
      → Ensures
          (create_account digits user_id currency)
          w
          (λ a w'. Opens user_id currency w.db a w'.db)
  unfolding create_account
  Ensures-create_account w = Ensures-bind (Ensures-get_user user_id) λ u w1 (eu, s1).
      Ensures-bind-raise_if _ _ λ _ valid.
        Ensures-bind (Ensures-caught (Reads-get_account _ _ _)) λ existing w2 s2.
          Ensures-bind-lift _ λ _ _. Ensures-bind-lift _ λ acct_num _. Ensures-bind-new_uuid λ id _.
            Ensures-bind-now λ at _. Ensures-bind (Ensures-create _) λ _ w3 (fresh, first, only).
              let same = s2 ∙ s1.0 in
              Ensures-pure _ (record {
                user = (u, eu);
                supported = double_negation (is_valid currency) valid;
                first = rw same at first;
                fresh = rw same at fresh;
                row = (id, acct_num, at, refl);
                only = rw same at only;
              })

  -- An account that is opened belongs to a user who exists, in one of the three currencies, in which
  -- the user had none; it is new, empty and active, and nothing else is changed.
  pub create_account-Opens :
      (w w' : World D) (a : Account)
      → create_account digits user_id currency w ≡ (ok a, w')
      → Opens user_id currency w.db a w'.db
  create_account-Opens w w' a h = Ensures-elim (Ensures-create_account w) h

  -- Opening an account keeps the invariant of the table of accounts, and the money in each currency is
  -- what it was.
  pub create_account-IsBook :
      (w w' : World D) (a : Account)
      → IsBook w.db.accounts
      → create_account digits user_id currency w ≡ (ok a, w')
      → IsBook w'.db.accounts × ((c : Currency) → total c w'.db.accounts ≡ total c w.db.accounts)
  unfolding total
  create_account-IsBook w w' a b h =
      let o = create_account-Opens w w' a h in
      let (id, acct_num, at, e) = o.row in
      rw (o.only) (
        record { unique_ids = (o.fresh, b.unique_ids); funds = (rw e (ground arith), b.funds) },
        λ c. rw e (empty (total c w.db.accounts) (same_currency currency c)),
      )
    where
      empty : (t : ℤ) (x : Bool) → (if x then pos 0 else pos 0) +ℤ t ≡ t
      empty t true = omega int_laws
      empty t false = omega int_laws
