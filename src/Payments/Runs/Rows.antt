-- ===== src/Payments/Runs/Rows.antt =====
-- The table of accounts: rows by their identifiers, where no two rows have one.
use grey_backend_assessment.Prelude.{
  ◌≡◌, ◌∙◌, refl, sym, Bool, true, false, some, List, [], ◌∷◌, ◌==◌, ==→eq, ==_refl, find, any,
  Bool-cases, arith, inl, inr,
}
use grey_backend_assessment.Prelude.Int.{ℤ, pos, ◌≤ℤ◌, InInt64, add64, sub64}
use grey_backend_assessment.Domain.{Uuid, Account}
use grey_backend_assessment.Repository.Accounts.{has_id, at_version}
use grey_backend_assessment.Payments.Posting.{HasUniqueIds, HasFunds}
use grey_backend_assessment.Payments.Runs.Statements.{with_balance}

pub some_inj : {A : Type 0} (a b : A) → some a ≡ some b → a ≡ b
some_inj a b e = cc

any_of_find :
    {A : Type 0} (p : A → Bool) (rows : List A) {a : A} → find p rows ≡ some a → any p rows ≡ true
any_of_find p [] h = cc
any_of_find p (r ∷ rows) {a} h = ground (arith, any_of_find p rows {a = a})

-- A row that a query finds is the row of its identifier.
pub find_by_id :
    (p : Account → Bool) (rows : List Account) {a : Account}
    → HasUniqueIds rows
    → find p rows ≡ some a
    → find (has_id a.id) rows ≡ some a
find_by_id p [] u h = cc
find_by_id p (r ∷ rows) {a} u h = elim (Bool-cases (p r)) [
  | inl here ↦ let e : r ≡ a = some_inj r a (rw here at h) in rw (← e) (rw (==_refl r.id) refl)
  | inr later ↦
      let rest : find (has_id a.id) rows ≡ some a = find_by_id p rows u.1 (rw later at h) in
      elim (Bool-cases (r.id == a.id)) [
        | inl clash ↦
            let twice = any_of_find (has_id a.id) rows rest in
            let fresh : any (has_id a.id) rows ≡ false = rw (==→eq r.id a.id clash) at u.0 in
            absurd (no_clash (sym twice ∙ fresh))
        | inr other ↦ rw other rest
      ]
]
  where
    no_clash : true ≡ false → ⊥
    no_clash e = cc

-- The balance and the version of a row that a query finds are in range.
pub funds_of_found :
    (p : Account → Bool) (rows : List Account) {a : Account}
    → HasFunds rows
    → find p rows ≡ some a
    → (pos 0 ≤ℤ a.balance) × InInt64 a.balance × InInt64 a.version
funds_of_found p [] f h = cc
funds_of_found p (r ∷ rows) {a} f h = elim (Bool-cases (p r)) [
  | inl here ↦ rw (← some_inj r a (rw here at h)) (f.0)
  | inr later ↦ funds_of_found p rows f.1 (rw later at h)
]

-- Another row is as it was after an update.
pub find-with_balance :
    (a : Account) (b : ℤ) (id : Uuid) (rows : List Account) {c : Account}
    → (a.id == id) ≡ false
    → find (has_id id) rows ≡ some c
    → find (has_id id) (with_balance a b rows) ≡ some c
find-with_balance a b id [] ne h = cc
find-with_balance a b id (r ∷ rows) {c} ne h = elim (Bool-cases (r.id == id)) [
  | inl here ↦ elim (Bool-cases (r.id == a.id)) [
    | inl clash ↦ absurd (no_clash r.id (sym (==→eq r.id a.id clash)) ne here)
    | inr other ↦ rw other (rw here (rw here at h))
  ]
  | inr later ↦
      let rest = find-with_balance a b id rows ne (rw later at h) in
      elim (Bool-cases (at_version a.id (sub64 (add64 a.version (pos 1)) (pos 1)) r)) [
        | inl hit ↦ rw hit (rw later rest)
        | inr miss ↦ rw miss (rw later rest)
      ]
]
  where
    no_clash : (k : Uuid) → a.id ≡ k → (a.id == id) ≡ false → (k == id) ≡ true → ⊥
    no_clash k e n t = ground arith
