-- ===== src/Payments/Posting/Moves.antt =====
-- Where the money of a transfer goes, said from the payment and the accounts of the system alone: out
-- of the source account and into the destination account, across currencies by way of the two pools.
use grey_backend_assessment.Prelude.{
  ◌≡◌, true, false, Option, none, some, String, List, ◌==◌, if◌then◌else◌,
}
use grey_backend_assessment.Prelude.Int.{ℤ, pos, ◌+ℤ◌, ◌-ℤ◌}
use grey_backend_assessment.Domain.{
  Uuid, AccountType, same_currency, Account, Payment, PaymentEventType,
}
use grey_backend_assessment.Session.{Db}
use grey_backend_assessment.Payments.Entries.Laws.{two_postings, four_postings}
use grey_backend_assessment.Payments.Posting.{posted_to}
use grey_backend_assessment.Payments.Posting.Conserved.{SettledNeutrally}
use grey_backend_assessment.Payments.Posting.Flow.{amount_at, system_account, two_terms, four_terms}

abbrev owner_gets : Option Uuid → Uuid → ℤ → ℤ
owner_gets none j n = pos 0
owner_gets (some id) j n = if id == j then n else pos 0

-- What a transfer adds to the balance of the account `j`.
pub transfer_flow : {D : Type 0} → List Account → Payment D → Uuid → ℤ
transfer_flow rows p j =
    (if p.source_account_id == j then pos 0 -ℤ p.source_amount else pos 0)
    +ℤ (if same_currency p.source_currency p.dest_currency
        then owner_gets p.dest_account_id j p.dest_amount
        else amount_at (system_account rows AccountType.fx_pool p.source_currency) j p.source_amount
          +ℤ (amount_at (system_account rows AccountType.fx_pool p.dest_currency) j
                (pos 0 -ℤ p.dest_amount)
              +ℤ owner_gets p.dest_account_id j p.dest_amount))

module _ {D : Type 0} (rows : List Account) (p : Payment D) (j : Uuid) where
  pub transfer_flow-two :
      (s r : Account)
      → same_currency p.source_currency p.dest_currency ≡ true
      → s.id ≡ p.source_account_id
      → p.dest_account_id ≡ some r.id
      → posted_to j (two_postings p s r) ≡ transfer_flow rows p j
  unfolding posted_to transfer_flow
  transfer_flow-two s r same es er = rw (same, es, er) (two_terms _ _ (pos 0) (pos 0))

  pub transfer_flow-four :
      (s f g r f' g' : Account)
      → system_account rows AccountType.fx_pool p.source_currency ≡ some f'
      → system_account rows AccountType.fx_pool p.dest_currency ≡ some g'
      → same_currency p.source_currency p.dest_currency ≡ false
      → s.id ≡ p.source_account_id
      → f.id ≡ f'.id
      → g.id ≡ g'.id
      → p.dest_account_id ≡ some r.id
      → posted_to j (four_postings p s f g r) ≡ transfer_flow rows p j
  unfolding posted_to transfer_flow
  transfer_flow-four s f g r f' g' ef eg ne es fi gi er =
      rw (ef, eg, ne, es, fi, gi, er) (four_terms _ _ _ _)

-- A transfer that was committed: it is settled by way of postings that make no money, and they are what
-- the payment and the accounts of the system say.
pub record Moves {D : Type 0} (event_type : PaymentEventType) (user_id : Uuid) (key : String)
    (db : Db D) (p : Payment D) (db' : Db D) : Type 0 where
  pub paid : SettledNeutrally p event_type user_id key db db'
  pub flow : (j : Uuid) → posted_to j paid.postings ≡ transfer_flow db.accounts p j
