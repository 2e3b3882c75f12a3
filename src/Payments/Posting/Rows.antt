-- ===== src/Payments/Posting/Rows.antt =====
-- internal/repository/account.go: what UpdateBalance makes of the rows, of the money in a currency
-- and of the invariant of the table.
use grey_backend_assessment.Prelude.{
  ◌≡◌, ◌∙◌, refl, ap, Bool, true, false, some, List, [], ◌∷◌, ◌==◌, if◌then◌else◌, arith, find, any,
  update_where, ==→eq, Bool-cases, inl, inr,
}
use grey_backend_assessment.Prelude.Int.{
  ℤ, pos, pos_part, neg_part, ◌+ℤ◌, ◌≤ℤ◌, InInt64, eqb_ℤ_refl, int_laws,
}
use grey_backend_assessment.Domain.{Uuid, Currency, same_currency, Account}
use grey_backend_assessment.Repository.Accounts.{has_id, at_version, set_balance}
use grey_backend_assessment.Payments.Posting.{total, HasUniqueIds, HasFunds}

module _ (id : Uuid) (version : ℤ) where
  no_row :
      (rows : List Account)
      → any (has_id id) rows ≡ false
      → any (at_version id version) rows ≡ false
  no_row [] h = refl
  no_row (a ∷ rows) h = ground (arith, no_row rows)

  -- In a table with a primary key, a row with the wanted version is the row of that identifier.
  pub row_at_version :
      (rows : List Account)
      → HasUniqueIds rows
      → any (at_version id version) rows ≡ true
      → (r : Account) × (find (has_id id) rows ≡ some r) × (r.version ≡ version)
  row_at_version [] u h = cc
  row_at_version (a ∷ rows) u h = elim (Bool-cases (a.id == id)) [
    | inl p ↦ (a, ground arith, ground (arith, ==→eq a.id id p, no_row rows))
    | inr p ↦ let (r, e, v) = row_at_version rows u.1 (ground arith) in (r, ground arith, v)
  ]

gain_here :
    (new old rest : ℤ) (b : Bool)
    → (if b then new else pos 0) +ℤ rest +ℤ (if b then old else pos 0)
      ≡ (if b then old else pos 0) +ℤ rest +ℤ (if b then new else pos 0)
gain_here new old rest b = omega int_laws

gain_there : (x t t' o n : ℤ) → t +ℤ o ≡ t' +ℤ n → x +ℤ t +ℤ o ≡ x +ℤ t' +ℤ n
gain_there x t t' o n h = omega (int_laws, ap pos_part h, ap neg_part h)

module _ (id : Uuid) (version balance new_version : ℤ) where
  abbrev updated : List Account → List Account
  updated = update_where (at_version id version) (set_balance balance new_version)

  updated_absent : (rows : List Account) → any (has_id id) rows ≡ false → updated rows ≡ rows
  updated_absent [] h = refl
  updated_absent (a ∷ rows) h = ground (arith, updated_absent rows)

  any-has_id-updated :
      (j : Uuid) (rows : List Account) → any (has_id j) (updated rows) ≡ any (has_id j) rows
  any-has_id-updated j [] = refl
  any-has_id-updated j (a ∷ rows) = ground (arith, any-has_id-updated j rows)

  pub updated-HasUniqueIds : (rows : List Account) → HasUniqueIds rows → HasUniqueIds (updated rows)
  updated-HasUniqueIds [] u = tt
  updated-HasUniqueIds (a ∷ rows) u =
      ground (arith, updated-HasUniqueIds rows u.1, any-has_id-updated a.id rows)

  pub updated-HasFunds :
      (rows : List Account)
      → HasFunds rows
      → pos 0 ≤ℤ balance
      → InInt64 balance
      → InInt64 new_version
      → HasFunds (updated rows)
  updated-HasFunds [] f p q r = tt
  updated-HasFunds (a ∷ rows) f p q r = ground (arith, updated-HasFunds rows f.1 p q r)

  this_row :
      (a : Account) (rows : List Account) {r : Account}
      → find (has_id id) (a ∷ rows) ≡ some r
      → (a.id == id) ≡ true
      → a ≡ r
  this_row a rows {r} h p = let e : some a ≡ some r = rw p at h in cc

  at_this_row :
      (a : Account) (rows : List Account) {r : Account}
      → find (has_id id) (a ∷ rows) ≡ some r
      → r.version ≡ version
      → (a.id == id) ≡ true
      → at_version id version a ≡ true
  at_this_row a rows {r} h v p = rw (p, this_row a rows h p, v) (eqb_ℤ_refl version)

  at_other_row : (a : Account) → (a.id == id) ≡ false → at_version id version a ≡ false
  at_other_row a p = rw p

  updated_hit :
      (a : Account) (rows : List Account)
      → at_version id version a ≡ true
      → updated (a ∷ rows) ≡ set_balance balance new_version a ∷ updated rows
  updated_hit a rows t = rw t

  updated_miss :
      (a : Account) (rows : List Account)
      → at_version id version a ≡ false
      → updated (a ∷ rows) ≡ a ∷ updated rows
  updated_miss a rows t = rw t

  find-updated_ne :
      (j : Uuid) (rows : List Account)
      → (id == j) ≡ false
      → find (has_id j) (updated rows) ≡ find (has_id j) rows
  find-updated_ne j [] h = refl
  find-updated_ne j (a ∷ rows) h = elim (Bool-cases (at_version id version a)) [
    | inl p ↦ ap (find (has_id j)) (updated_hit a rows p) ∙ ground (arith, find-updated_ne j rows h)
    | inr p ↦
        ap (find (has_id j)) (updated_miss a rows p) ∙ ground (arith, find-updated_ne j rows h)
  ]

  -- Only the row of that identifier is changed.
  pub find-updated :
      (rows : List Account) {r : Account}
      → find (has_id id) rows ≡ some r
      → r.version ≡ version
      → (j : Uuid)
      → find (has_id j) (updated rows)
        ≡ (if id == j then some (set_balance balance new_version r) else find (has_id j) rows)
  find-updated [] h v j = cc
  find-updated (a ∷ rows) {r} h v j = elim (Bool-cases (a.id == id)) [
    | inl p ↦
        ap (find (has_id j)) (updated_hit a rows (at_this_row a rows h v p))
        ∙ ground (arith, this_row a rows h p, ==→eq a.id id p, find-updated_ne j rows)
    | inr p ↦
        ap (find (has_id j)) (updated_miss a rows (at_other_row a p))
        ∙ ground (arith, find-updated rows {r = r} (rw p at h) v j, ==→eq a.id j, ==→eq id j)
  ]

  -- The money in a currency changes by what the row gains.
  pub total-updated :
      (rows : List Account) {r : Account}
      → HasUniqueIds rows
      → find (has_id id) rows ≡ some r
      → r.version ≡ version
      → (c : Currency)
      → total c (updated rows) +ℤ (if same_currency r.currency c then r.balance else pos 0)
        ≡ total c rows +ℤ (if same_currency r.currency c then balance else pos 0)
  unfolding total
  total-updated [] u h v c = cc
  total-updated (a ∷ rows) {r} u h v c = elim (Bool-cases (a.id == id)) [
    | inl p ↦
        ap (λ (t : ℤ). t +ℤ (if same_currency r.currency c then r.balance else pos 0))
          (ap (total c) (
            updated_hit a rows (at_this_row a rows h v p)
            ∙ ap (λ (l : List Account). set_balance balance new_version a ∷ l)
                (updated_absent rows (rw (==→eq a.id id p) at u.0))))
        ∙ rw (this_row a rows h p)
            (gain_here balance r.balance (total c rows) (same_currency r.currency c))
    | inr p ↦
        ap (λ (t : ℤ). t +ℤ (if same_currency r.currency c then r.balance else pos 0))
          (ap (total c) (updated_miss a rows (at_other_row a p)))
        ∙ gain_there _ _ _ _ _ (total-updated rows {r = r} u.1 (rw p at h) v c)
  ]
