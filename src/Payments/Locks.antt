-- ===== src/Payments/Locks.antt =====
-- internal/service/payment/transfer.go and service/webhook_reversal.go: the account rows that a
-- transaction locks, in the order of their identifiers' texts, and the check of their state.
use grey_backend_assessment.Prelude.{
  ◌≡◌, ◌∙◌, refl, ap, not, Option, none, some, List, [], ◌∷◌, ◌==◌, if◌then◌else◌, arith, find,
  ==→eq,
}
use grey_backend_assessment.Prelude.Sort.{sort}
use grey_backend_assessment.Domain.{
  Uuid, Account, is_frozen, is_active, account_frozen, account_closed,
}
use grey_backend_assessment.Session.{World, Env, Db, Result, ok, err, Session, pure, gets, ◌>>=◌}
use grey_backend_assessment.Session.Laws.{
  Ensures, SameDb, Ensures-bind, Ensures-pure, Ensures-bind-gets, Ensures-mono, SameDb-trans,
}
use grey_backend_assessment.Repository.Accounts.{get_for_update, has_id}
use grey_backend_assessment.Repository.Accounts.Laws.{Ensures-get_for_update}

-- map[uuid.UUID]*domain.Account
abbrev pub LockedAccounts : Type 0
LockedAccounts = List (Uuid × Account)

-- locked[id]: a missing key gives a nil pointer
unfoldable pub locked_account : Uuid → LockedAccounts → Option Account
locked_account id [] = none
locked_account id ((k, a) ∷ m) = if k == id then some a else locked_account id m

-- The order in which rows are locked.
unfoldable pub lock_order : Env → List Uuid → List Uuid
lock_order env ids = sort env.string_less ids

module _ {D : Type 0} where
  unfoldable pub lock_each : List Uuid → LockedAccounts → Session D LockedAccounts
  lock_each [] m = pure m
  lock_each (id ∷ ids) m = do account ← get_for_update id; lock_each ids ((id, account) ∷ m)

  unfoldable pub lock_accounts_in_order : List Uuid → Session D LockedAccounts
  lock_accounts_in_order ids = do sorted ← gets (λ w. lock_order w.env ids); lock_each sorted []

unfoldable pub verify_account_active : Account → Result Unit
verify_account_active account =
    if is_frozen account.status
    then err account_frozen
    else if not (is_active account.status)
    then err account_closed
    else ok tt

-- The map holds rows of the table, under their identifiers.
abbrev pub IsSnapshot : List Account → LockedAccounts → Type 0
IsSnapshot accounts [] = Unit
IsSnapshot accounts ((k, a) ∷ m) = (find (has_id k) accounts ≡ some a) × IsSnapshot accounts m

pub locked_account-of_IsSnapshot :
    (accounts : List Account) (m : LockedAccounts) (id : Uuid) {a : Account}
    → IsSnapshot accounts m
    → locked_account id m ≡ some a
    → find (has_id id) accounts ≡ some a
unfolding locked_account
locked_account-of_IsSnapshot accounts [] id s h = cc
locked_account-of_IsSnapshot accounts ((k, b) ∷ m) id {a} s h =
    ground (arith, locked_account-of_IsSnapshot accounts m id {a = a}, ==→eq k id)

module _ {D : Type 0} where
  Ensures-lock_each :
      (ids : List Uuid) (m : LockedAccounts) (accounts : List Account) {w : World D}
      → w.db.accounts ≡ accounts
      → IsSnapshot accounts m
      → Ensures (lock_each ids m) w (λ locked w'. IsSnapshot accounts locked × SameDb w w')
  unfolding lock_each
  Ensures-lock_each [] m accounts p s = Ensures-pure m (s, (refl, (refl, refl, refl)))
  Ensures-lock_each (id ∷ ids) m accounts {w} p s =
      Ensures-bind (Ensures-get_for_update id) λ a w1 (e, t).
        Ensures-mono
          (Ensures-lock_each ids ((id, a) ∷ m) accounts (ap (λ (db : Db D). db.accounts) t.0 ∙ p)
            (rw p at e, s))
          λ locked w2 (u, v). (u, SameDb-trans w w1 w2 t v)

  -- Every locked row is the row of the table with that identifier, and nothing is changed.
  pub Ensures-lock_accounts_in_order :
      (ids : List Uuid) {w : World D}
      → Ensures
          (lock_accounts_in_order ids)
          w
          (λ locked w'. IsSnapshot w.db.accounts locked × SameDb w w')
  unfolding lock_accounts_in_order
  Ensures-lock_accounts_in_order ids {w} =
      Ensures-bind-gets _ λ sorted e. Ensures-lock_each sorted [] w.db.accounts refl tt
