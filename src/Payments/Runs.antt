-- ===== src/Payments/Runs.antt =====
-- internal/service/payment: what the steps of a payment do in an environment in which no call of the
-- driver fails.
pub mod Statements
pub mod Rows
use grey_backend_assessment.Prelude.{
  ◌≡◌, ◌∙◌, refl, ap, sym, ◌⊎◌, inl, inr, ℕ, ◌+◌, Bool, true, false, ◌||◌, ◌&&◌, Option, none, some,
  List, [], ◌∷◌, ◌==◌, ==→eq, ==_refl, if◌then◌else◌, find, any, Bool-cases, arith,
}
use grey_backend_assessment.Prelude.Sort.{insert, sort}
use grey_backend_assessment.Domain.{Uuid, Account}
use grey_backend_assessment.Session.{World, Result, ok, Session, pure, gets, ◌>>=◌}
use grey_backend_assessment.Session.Runs.{IsCalm, bind-runs, lookup-runs}
use grey_backend_assessment.Repository.Accounts.{has_id, get_for_update}
use grey_backend_assessment.Payments.Locks.{
  LockedAccounts, locked_account, lock_order, lock_each, lock_accounts_in_order,
}

any-insert :
    {A : Type 0} (less : A → A → Bool) (p : A → Bool) (x : A) (xs : List A)
    → any p (insert less x xs) ≡ p x || any p xs
unfolding insert
any-insert less p x [] = refl
any-insert less p x (y ∷ ys) = elim (Bool-cases (less x y)) [
  | inl first ↦ rw (first, insert) refl
  | inr later ↦ rw (later, insert) (rw (any-insert less p x ys) (swap (p y) (p x) (any p ys)))
]
  where
    swap : (a b c : Bool) → a || (b || c) ≡ b || (a || c)
    swap true true c = refl
    swap true false c = refl
    swap false true c = refl
    swap false false c = refl

pub any-sort :
    {A : Type 0} (less : A → A → Bool) (p : A → Bool) (xs : List A)
    → any p (sort less xs) ≡ any p xs
unfolding sort
any-sort less p [] = refl
any-sort less p (x ∷ xs) = any-insert less p x (sort less xs) ∙ rw (any-sort less p xs) refl

-- The map has the row of the table under that identifier.
abbrev pub Knows : List Account → Uuid → LockedAccounts → Type 0
Knows accounts k m = locked_account k m ≡ find (has_id k) accounts

-- The identifier is in the list.
abbrev pub among : Uuid → List Uuid → Bool
among k ids = any (λ id. id == k) ids

-- Each of them is the identifier of a row.
abbrev pub AreStored : List Account → List Uuid → Type 0
AreStored accounts ids =
    (k : Uuid) → among k ids ≡ true → (a : Account) × (find (has_id k) accounts ≡ some a)

-- The locking of rows returns, with the rows of the table.
pub record Locked {D : Type 0} (m : Session D LockedAccounts) (ids : List Uuid) (w : World D)
    : Type 0 where
  pub locked : LockedAccounts
  pub tick : ℕ
  pub runs : m w ≡ (ok locked, record w { tick = tick })
  pub knows : (k : Uuid) → among k ids ≡ true → Knows w.db.accounts k locked

keep_knowing :
    (accounts : List Account) (id : Uuid) (a : Account) (ids : List Uuid) (m : LockedAccounts)
    (k : Uuid)
    → find (has_id id) accounts ≡ some a
    → (among k (id ∷ ids) ≡ true) ⊎ Knows accounts k m
    → (among k ids ≡ true) ⊎ Knows accounts k ((id, a) ∷ m)
unfolding locked_account
keep_knowing accounts id a ids m k h known = elim (Bool-cases (id == k)) [
  | inl it ↦ inr (rw it (sym (rw (==→eq id k it) at h)))
  | inr other ↦ elim known [
    | inl rest ↦ inl (rw other at rest)
    | inr before ↦ inr (rw other before)
  ]
]

module _ {D : Type 0} where
  lock_each-runs :
      (ids : List Uuid) (m : LockedAccounts) (w : World D)
      → IsCalm w.env
      → AreStored w.db.accounts ids
      → (locked : LockedAccounts) × (t : ℕ) × (lock_each ids m w
          ≡ (ok locked, record w { tick = t }))
        × ((k : Uuid)
            → (among k ids ≡ true) ⊎ Knows w.db.accounts k m
            → Knows w.db.accounts k locked)
  unfolding lock_each pure get_for_update
  lock_each-runs [] m w calm stored =
      (m, w.tick, refl, λ k h. elim h [ inl no_id ↦ cc | inr e ↦ e ])
  lock_each-runs (id ∷ ids) m w calm stored =
      let (a, h) = stored id (rw (==_refl id) refl) in
      let (locked, t, runs, knows) =
        lock_each-runs ids ((id, a) ∷ m) (record w { tick = w.tick + 1 }) calm
          (λ k e. stored k (later k e)) in
      (
        locked,
        t,
        bind-runs (get_for_update id) _ (lookup-runs w calm _ h) ∙ runs,
        λ k known. knows k (keep_knowing w.db.accounts id a ids m k h known),
      )
    where
      later : (k : Uuid) → among k ids ≡ true → among k (id ∷ ids) ≡ true
      later k e = ground arith

  pub lock_accounts_in_order-Locked :
      (ids : List Uuid) (w : World D)
      → IsCalm w.env
      → AreStored w.db.accounts ids
      → Locked (lock_accounts_in_order ids) ids w
  unfolding lock_accounts_in_order gets lock_order ◌>>=◌
  lock_accounts_in_order-Locked ids w calm stored =
      let same = λ (k : Uuid). any-sort w.env.string_less (λ id. id == k) ids in
      let (locked, t, runs, knows) =
        lock_each-runs (sort w.env.string_less ids) [] w calm
          (λ k e. stored k (rw (same k) at e)) in
      record {
        locked = locked;
        tick = t;
        runs = runs;
        knows = λ k e. knows k (inl (rw (same k) e));
      }
