-- ===== src/Payments/Posting/Flow.antt =====
-- Where the money of a payout goes, said from the payment and the accounts of the system alone: out of
-- the source account and into the outgoing account of the destination currency, across currencies by
-- way of the two pools.
use grey_backend_assessment.Prelude.{
  ◌≡◌, ◌∙◌, refl, true, false, Option, none, some, List, [], ◌∷◌, ◌==◌, if◌then◌else◌, find,
  update_where, inl, inr, Bool-cases,
}
use grey_backend_assessment.Prelude.Int.{ℤ, pos, ◌+ℤ◌, ◌-ℤ◌, ◌≤ℤ◌, InInt64, int_laws}
use grey_backend_assessment.Domain.{Uuid, Currency, AccountType, same_currency, Account, Payment}
use grey_backend_assessment.Repository.Accounts.{belongs, at_version, set_balance}
use grey_backend_assessment.Payments.Service.{system_user_id}
use grey_backend_assessment.Payments.Entries.{Posting}
use grey_backend_assessment.Payments.Entries.Laws.{two_postings, four_postings}
use grey_backend_assessment.Payments.Posting.{posted_to, Applied}

-- The amounts of a payment are int64s from zero on, and one amount within one currency.
pub record HasAmounts {D : Type 0} (p : Payment D) : Type 0 where
  pub source_from_zero : pos 0 ≤ℤ p.source_amount
  pub source_fits : InInt64 p.source_amount
  pub dest_from_zero : pos 0 ≤ℤ p.dest_amount
  pub dest_fits : InInt64 p.dest_amount
  pub same :
      same_currency p.source_currency p.dest_currency ≡ true → p.dest_amount ≡ p.source_amount

-- What an account that was found gets of an amount, seen from the account `j`.
abbrev pub amount_at : Option Account → Uuid → ℤ → ℤ
amount_at none j n = pos 0
amount_at (some a) j n = if a.id == j then n else pos 0

abbrev pub system_account : List Account → AccountType → Currency → Option Account
system_account rows t c = find (belongs system_user_id c t) rows

-- What a payout adds to the balance of the account `j`.
unfoldable pub payout_flow : {D : Type 0} → List Account → Payment D → Uuid → ℤ
payout_flow rows p j =
    let outgoing =
      amount_at (system_account rows AccountType.outgoing p.dest_currency) j p.dest_amount in
    (if p.source_account_id == j then pos 0 -ℤ p.source_amount else pos 0)
    +ℤ (if same_currency p.source_currency p.dest_currency
        then outgoing
        else amount_at (system_account rows AccountType.fx_pool p.source_currency) j p.source_amount
          +ℤ (amount_at (system_account rows AccountType.fx_pool p.dest_currency) j
                (pos 0 -ℤ p.dest_amount)
              +ℤ outgoing))

module _ (x y z t : ℤ) where
  pub two_terms : x +ℤ (y +ℤ pos 0) ≡ x +ℤ y
  two_terms = omega int_laws

  pub four_terms : x +ℤ (y +ℤ (z +ℤ (t +ℤ pos 0))) ≡ x +ℤ (y +ℤ (z +ℤ t))
  four_terms = omega int_laws

module _ {D : Type 0} (rows : List Account) (p : Payment D) (j : Uuid) where
  pub payout_flow-two :
      (s o o' : Account)
      → system_account rows AccountType.outgoing p.dest_currency ≡ some o'
      → same_currency p.source_currency p.dest_currency ≡ true
      → s.id ≡ p.source_account_id
      → o.id ≡ o'.id
      → posted_to j (two_postings p s o) ≡ payout_flow rows p j
  unfolding posted_to payout_flow
  payout_flow-two s o o' eo same es ei = rw (eo, same, es, ei) (two_terms _ _ (pos 0) (pos 0))

  pub payout_flow-four :
      (s f g o f' g' o' : Account)
      → system_account rows AccountType.fx_pool p.source_currency ≡ some f'
      → system_account rows AccountType.fx_pool p.dest_currency ≡ some g'
      → system_account rows AccountType.outgoing p.dest_currency ≡ some o'
      → same_currency p.source_currency p.dest_currency ≡ false
      → s.id ≡ p.source_account_id
      → f.id ≡ f'.id
      → g.id ≡ g'.id
      → o.id ≡ o'.id
      → posted_to j (four_postings p s f g o) ≡ payout_flow rows p j
  unfolding posted_to payout_flow
  payout_flow-four s f g o f' g' o' ef eg eo ne es fi gi oi =
      rw (ef, eg, eo, ne, es, fi, gi, oi) (four_terms _ _ _ _)

-- The accounts of the system are the same after postings.
module _ (user_id : Uuid) (c : Currency) (t : AccountType) (j : Uuid) (n : ℤ) where
  amount_at-updated :
      (id : Uuid) (version b v : ℤ) (rows : List Account)
      → amount_at
          (find (belongs user_id c t) (update_where (at_version id version) (set_balance b v) rows))
          j
          n
        ≡ amount_at (find (belongs user_id c t) rows) j n
  amount_at-updated id version b v [] = refl
  amount_at-updated id version b v (a ∷ rows) =
      let ih = amount_at-updated id version b v rows in
      elim (Bool-cases (at_version id version a)) [
        | inl h ↦
            rw h (elim (Bool-cases (belongs user_id c t a)) [ inl k ↦ rw k refl | inr k ↦ rw k ih ])
        | inr h ↦
            rw h (elim (Bool-cases (belongs user_id c t a)) [ inl k ↦ rw k refl | inr k ↦ rw k ih ])
      ]

  amount_at-Applied :
      (qs : List Posting) (rows rows' : List Account)
      → Applied qs rows rows'
      → amount_at (find (belongs user_id c t) rows') j n
        ≡ amount_at (find (belongs user_id c t) rows) j n
  amount_at-Applied [] rows rows' a = rw a refl
  amount_at-Applied (q ∷ qs) rows rows' (mid, u, rest) =
      amount_at-Applied qs mid rows' rest ∙ rw (u.after) (amount_at-updated _ _ _ _ rows)

pub payout_flow-Applied :
    {D : Type 0} (p : Payment D) (j : Uuid) (qs : List Posting) (rows rows' : List Account)
    → Applied qs rows rows'
    → payout_flow rows' p j ≡ payout_flow rows p j
unfolding payout_flow
payout_flow-Applied p j qs rows rows' a =
    rw
      (
        amount_at-Applied system_user_id p.dest_currency AccountType.outgoing j p.dest_amount qs
            rows rows' a,
        amount_at-Applied system_user_id p.source_currency AccountType.fx_pool j p.source_amount qs
            rows rows' a,
        amount_at-Applied system_user_id p.dest_currency AccountType.fx_pool j
            (pos 0 -ℤ p.dest_amount) qs rows rows' a,
      )
      refl
