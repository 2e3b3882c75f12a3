-- ===== src/Payments/Panics.antt =====
-- internal/service/payment: no pointer out of the map of locked rows is nil, so that no request for a
-- payment panics.
pub mod Flows
use grey_backend_assessment.Prelude.{
  ◌≡◌, ◌∙◌, refl, sym, ◌⊎◌, inl, inr, Bool, true, false, not, ◌&&◌, none, some, List, [], ◌∷◌, ◌==◌,
  ==_refl, if◌then◌else◌, any, find, str_eq, Bool-cases, arith,
}
use grey_backend_assessment.Prelude.Int.{ℤ}
use grey_backend_assessment.Domain.{
  Uuid, Time, Currency, AccountType, Account, Payment, PaymentEventType, Error, same_currency,
  is_not_found, is_duplicate_idempotency_key, duplicate_payment,
}
use grey_backend_assessment.Session.{
  World, Result, ok, err, Session, is_panic, gets, deref, map_error, ◌>>=◌,
}
use grey_backend_assessment.Session.Laws.{
  Ensures, Ensures-bind, Ensures-pure, Ensures-mono, Ensures-bind-gets,
}
use grey_backend_assessment.Session.Panics.{
  panics, NeverPanics, NeverPanics-pure, NeverPanics-lift, NeverPanics-gets,
  NeverPanics-or_not_found, NeverPanics-map_error, replaced, NeverPanics-bind,
  NeverPanics-bind_ensures, NeverPanics-bind_deref, NeverPanics-skip, NeverPanics-raise_if,
  NeverPanics-driver_call, NeverPanics-new_uuid, NeverPanics-now, NeverPanics-statement,
  NeverPanics-query, NeverPanics-transact,
}
use grey_backend_assessment.Repository.Accounts
use grey_backend_assessment.Repository.Accounts.{get_for_update, get_by_user_and_currency}
use grey_backend_assessment.Repository.Accounts.Laws.{Ensures-get_for_update}
use grey_backend_assessment.Repository.Payments
use grey_backend_assessment.Repository.Payments.{payment_error}
use grey_backend_assessment.Repository.Ledger
use grey_backend_assessment.Repository.Events
use grey_backend_assessment.Repository.Users.{get_by_unique_name}
use grey_backend_assessment.Payments.Service.{Service, get_system_account}
use grey_backend_assessment.Payments.Locks.{
  LockedAccounts, locked_account, lock_order, lock_each, lock_accounts_in_order,
  verify_account_active,
}
use grey_backend_assessment.Payments.Runs.{among, any-sort}
use grey_backend_assessment.Payments.Entries.{
  Posting, write_entry, write_entries, write_postings, write_payment_event,
}
use grey_backend_assessment.Payments.Transfer.{if_not_found, if_duplicate}

-- The map has a row under that identifier.
abbrev pub Has : Uuid → LockedAccounts → Type 0
Has k m = (a : Account) × (locked_account k m ≡ some a)

-- It has one for each of them.
abbrev pub HasAll : List Uuid → LockedAccounts → Type 0
HasAll ids m = (k : Uuid) → among k ids ≡ true → Has k m

locked_account-Has :
    (id : Uuid) (a : Account) (ids : List Uuid) (m : LockedAccounts) (k : Uuid)
    → (among k (id ∷ ids) ≡ true) ⊎ Has k m
    → (among k ids ≡ true) ⊎ Has k ((id, a) ∷ m)
unfolding locked_account
locked_account-Has id a ids m k h = elim (Bool-cases (id == k)) [
  | inl it ↦ inr (a, rw it refl)
  | inr other ↦ elim h [
    | inl rest ↦ inl (rw other at rest)
    | inr before ↦ inr (before.0, rw other before.1)
  ]
]

module _ {D : Type 0} where
  Ensures-lock_each_all :
      (ids : List Uuid) (m : LockedAccounts) (w : World D)
      → Ensures
          (lock_each ids m)
          w
          (λ locked _. (k : Uuid) → (among k ids ≡ true) ⊎ Has k m → Has k locked)
  unfolding lock_each
  Ensures-lock_each_all [] m w = Ensures-pure m (λ k h. elim h [ inl no_id ↦ cc | inr e ↦ e ])
  Ensures-lock_each_all (id ∷ ids) m w = Ensures-bind (Ensures-get_for_update id) λ a w1 _.
      Ensures-mono (Ensures-lock_each_all ids ((id, a) ∷ m) w1)
        λ locked w2 all k h. all k (locked_account-Has id a ids m k h)

  Ensures-lock_accounts_in_order_all :
      (ids : List Uuid) (w : World D)
      → Ensures (lock_accounts_in_order ids) w (λ locked _. HasAll ids locked)
  unfolding lock_accounts_in_order lock_order
  Ensures-lock_accounts_in_order_all ids w = Ensures-bind-gets _ λ sorted e.
      Ensures-mono (Ensures-lock_each_all sorted [] w) λ locked w' all k h.
        all k (inl (rw e (rw (any-sort w.env.string_less (λ id. id == k) ids) h)))

  NeverPanics-lock_each :
      (ids : List Uuid) (m : LockedAccounts) → NeverPanics {D = D} (lock_each ids m)
  unfolding lock_each get_for_update
  NeverPanics-lock_each [] m = NeverPanics-pure m
  NeverPanics-lock_each (id ∷ ids) m =
      NeverPanics-bind (NeverPanics-bind (NeverPanics-query _) λ row. NeverPanics-or_not_found row)
        λ a. NeverPanics-lock_each ids ((id, a) ∷ m)

  NeverPanics-lock_accounts_in_order :
      (ids : List Uuid) → NeverPanics {D = D} (lock_accounts_in_order ids)
  unfolding lock_accounts_in_order
  NeverPanics-lock_accounts_in_order ids =
      NeverPanics-bind (NeverPanics-gets _) λ sorted. NeverPanics-lock_each sorted []

  -- Rows are locked, and every one of them is there for the rest.
  pub NeverPanics-lock :
      {B : Type 0} (ids : List Uuid) {f : LockedAccounts → Session D B}
      → ((locked : LockedAccounts) → HasAll ids locked → NeverPanics (f locked))
      → NeverPanics (lock_accounts_in_order ids >>= f)
  NeverPanics-lock ids k =
      NeverPanics-bind_ensures (HasAll ids) (NeverPanics-lock_accounts_in_order ids)
        (Ensures-lock_accounts_in_order_all ids) k

  pub NeverPanics-create_payment : (p : Payment D) → NeverPanics (Payments.create p)
  unfolding Payments.create Payments.insert_payment
  NeverPanics-create_payment p =
      NeverPanics-map_error _ renamed (NeverPanics-statement _ λ db. inserted db)
    where
      renamed : (e : Error) → is_panic e ≡ false → is_panic (payment_error e) ≡ false
      renamed e h = ground arith

      inserted : (db : _) → panics (Payments.insert_payment p db) ≡ false
      inserted db = ground arith

  NeverPanics-write_entry :
      (payment_id : Uuid) (at : Time) (q : Posting) (b : ℤ)
      → NeverPanics {D = D} (write_entry payment_id at q b)
  unfolding write_entry Ledger.create Ledger.insert_entry
  NeverPanics-write_entry payment_id at q b =
      NeverPanics-bind NeverPanics-new_uuid λ id. NeverPanics-statement _ λ db. ground arith

  pub NeverPanics-write_entries :
      (payment_id : Uuid) (at : Time) (rows : List (Posting × ℤ))
      → NeverPanics {D = D} (write_entries payment_id at rows)
  unfolding write_entries
  NeverPanics-write_entries payment_id at [] = NeverPanics-skip
  NeverPanics-write_entries payment_id at ((q, b) ∷ rows) =
      NeverPanics-bind (NeverPanics-write_entry payment_id at q b)
        λ _. NeverPanics-write_entries payment_id at rows

  pub NeverPanics-write_postings :
      (payment_id : Uuid) (at : Time) (qs : List Posting)
      → NeverPanics {D = D} (write_postings payment_id at qs)
  unfolding write_postings
  NeverPanics-write_postings payment_id at [] = NeverPanics-skip
  NeverPanics-write_postings payment_id at (q ∷ qs) =
      NeverPanics-bind (NeverPanics-write_entry payment_id at q _)
        λ _. NeverPanics-write_postings payment_id at qs

  -- The two entries of a payment within one currency.
  pub NeverPanics-two_entries :
      (payment_id : Uuid) (at : Time) (q r : Posting) (b c : ℤ)
      → NeverPanics {D = D} (write_entry payment_id at q b >>= λ _. write_entry payment_id at r c)
  NeverPanics-two_entries payment_id at q r b c =
      NeverPanics-bind (NeverPanics-write_entry _ _ q b) λ _. NeverPanics-write_entry _ _ r c

  pub NeverPanics-write_payment_event :
      (payment_id : Uuid) (t : PaymentEventType) (user_id : Uuid) (at : Time)
      → NeverPanics {D = D} (write_payment_event payment_id t user_id at)
  unfolding write_payment_event Events.create Events.insert_event
  NeverPanics-write_payment_event payment_id t user_id at =
      NeverPanics-bind NeverPanics-new_uuid λ id. NeverPanics-statement _ λ db. ground arith

  -- One update of a balance before another action.
  pub NeverPanics-then_update :
      {A : Type 0} (id : Uuid) (b v : ℤ) {m : Session D A}
      → NeverPanics m
      → NeverPanics (Accounts.update_balance id b v >>= λ _. m)
  unfolding Accounts.update_balance Accounts.update_accounts
  NeverPanics-then_update id b v k =
      NeverPanics-bind
        (NeverPanics-bind (NeverPanics-statement _ λ db. ground arith)
          λ rows. NeverPanics-bind NeverPanics-driver_call λ _. NeverPanics-raise_if _ _ refl)
        λ _. k

  pub NeverPanics-get_account :
      (user_id : Uuid) (c : Currency) (t : AccountType)
      → NeverPanics {D = D} (get_by_user_and_currency user_id c t)
  unfolding get_by_user_and_currency
  NeverPanics-get_account user_id c t =
      NeverPanics-bind (NeverPanics-query _) λ row. NeverPanics-or_not_found row

  pub NeverPanics-get_system_account :
      (t : AccountType) (c : Currency) → NeverPanics {D = D} (get_system_account t c)
  unfolding get_system_account
  NeverPanics-get_system_account t c = NeverPanics-get_account _ c t

  pub NeverPanics-if_not_found :
      {A : Type 0} (wanted : Error) {m : Session D A}
      → is_panic wanted ≡ false
      → NeverPanics m
      → NeverPanics (map_error (if_not_found wanted) m)
  NeverPanics-if_not_found wanted h k =
      NeverPanics-map_error _ (λ e. replaced (is_not_found e) wanted e h) k

  pub NeverPanics-if_duplicate :
      {A : Type 0} {m : Session D A} → NeverPanics m → NeverPanics (map_error if_duplicate m)
  NeverPanics-if_duplicate k =
      NeverPanics-map_error _
        (λ e. replaced (is_duplicate_idempotency_key e) duplicate_payment e refl) k

pub verify_account_active-panics : (a : Account) → panics (verify_account_active a) ≡ false
unfolding verify_account_active
verify_account_active-panics a = ground arith
