-- ===== src/Webhooks/GivesBack.antt =====
-- internal/service/webhook_processor.go: handleFailed as a whole.
use grey_backend_assessment.Prelude.{
  List, ap, true, false, String, ◌≡◌, sym, some, find, Bool-cases, inl, inr, List,
}
use grey_backend_assessment.Domain.{Uuid, Account, AccountType, Payment, same_currency}
use grey_backend_assessment.Domain.Laws.{same_currency→eq}
use grey_backend_assessment.Session.{World, Db, ok}
use grey_backend_assessment.Session.Laws.{
  Ensures, SameDb-trans, Ensures-bind, Ensures-mono, Ensures-elim,
}
use grey_backend_assessment.Session.Laws.Tables.{Ensures-transact_db}
use grey_backend_assessment.Repository.Accounts.{has_id, belongs}
use grey_backend_assessment.Payments.Service.{system_user_id}
use grey_backend_assessment.Payments.Entries.{Posting}
use grey_backend_assessment.Payments.Posting.{IsBook, balance_of, posted_to}
use grey_backend_assessment.Payments.Posting.Settled.{Applied-Balanced}
use grey_backend_assessment.Payments.Posting.Conserved.{
  IsNeutral, Conserved, Balanced-Conserved, locked-currency,
}
use grey_backend_assessment.Payments.Posting.Flow.{HasAmounts, payout_flow}
use grey_backend_assessment.Webhooks.Flow.{payout_flow-two_back, payout_flow-four_back}
use grey_backend_assessment.Repository.Accounts.Laws.{find-has_id}
use grey_backend_assessment.Prelude.Int.{ℤ, pos, pos_part, neg_part, ◌+ℤ◌, ◌-ℤ◌, int_laws}
use grey_backend_assessment.Webhooks.{Codec, fail_across_currencies, handle_failed}
use grey_backend_assessment.Webhooks.Reversal.{
  two_reversals, four_reversals, two_reversals-IsNeutral, four_reversals-IsNeutral,
}
use grey_backend_assessment.Webhooks.Failed.{GivenBack, Ensures-get_system_account}
use grey_backend_assessment.Webhooks.Failed.Bodies.{
  TwoRows, FourRows, Ensures-fail_same_currency, Ensures-fail_cross_currency,
}

GivenBack-Conserved :
    {D : Type 0} {codec : Codec} {p : Payment D} {reason : String} (qs : List Posting)
    (db db' : Db D)
    → IsBook db.accounts
    → GivenBack codec p reason qs db db'
    → IsNeutral qs
    → Conserved p.id db db'
GivenBack-Conserved {p} qs db db' b g n =
    let (at, entered) = g.entries in
    Balanced-Conserved p.id at qs db db'
      (Applied-Balanced qs db db' p.id at b g.located g.accounts entered) entered n

-- The source account of a payment, where there is one, is in its source currency.
abbrev pub IsInCurrency : {D : Type 0} → Payment D → Db D → Type 0
IsInCurrency p db =
    (a : Account)
    → find (has_id p.source_account_id) db.accounts ≡ some a
    → a.currency ≡ p.source_currency

-- A payout that was given back, the way that it went.
pub record Reverses {D : Type 0} (codec : Codec) (p : Payment D) (reason : String) (db db' : Db D)
    : Type 0 where
  pub postings : List Posting
  pub given : GivenBack codec p reason postings db db'
  pub neutral : IsBook db.accounts → IsInCurrency p db → IsNeutral postings
  pub flow : (j : Uuid) → posted_to j postings ≡ pos 0 -ℤ payout_flow db.accounts p j

module _ {D : Type 0} (codec : Codec) (p : Payment D) (amounts : HasAmounts p) (reason : String)
    (w : World D) where
  abbrev IsGivenBack : Uuid → Db D → Unit {0} → Db D → Type 0
  IsGivenBack o db _ db' =
      (r : TwoRows db.accounts p.source_account_id o) × GivenBack codec p reason
        (two_reversals p r.sender r.outgoing) db db'

  abbrev IsGivenBackFx : Uuid → Uuid → Uuid → Db D → Unit {0} → Db D → Type 0
  IsGivenBackFx o f g db _ db' =
      (r : FourRows db.accounts p.source_account_id o f g) × GivenBack codec p reason
        (four_reversals p r.sender r.fx_src r.fx_dst r.outgoing) db db'

  Reverses-two :
      (outgoing : Account) (w' : World D)
      → same_currency p.source_currency p.dest_currency ≡ true
      → find (belongs system_user_id p.dest_currency AccountType.outgoing) w.db.accounts
        ≡ some outgoing
      → IsGivenBack outgoing.id w.db tt w'.db
      → Reverses codec p reason w.db w'.db
  Reverses-two outgoing w' same eo (r, g) = record {
    postings = two_reversals p r.sender r.outgoing;
    given = g;
    neutral = λ b in_currency.
        two_reversals-IsNeutral p r.sender r.outgoing (in_currency r.sender r.sender_row)
          (locked-currency _ _ _ w.db.accounts b.unique_ids eo r.outgoing_row)
          (sym (same_currency→eq p.source_currency p.dest_currency same)) (amounts.same same);
    flow = λ j.
        payout_flow-two_back w.db.accounts p j r.sender r.outgoing outgoing eo same
          (find-has_id p.source_account_id w.db.accounts r.sender_row)
          (find-has_id outgoing.id w.db.accounts r.outgoing_row);
  }

  Reverses-four :
      (outgoing fx_source fx_dest : Account) (w' : World D)
      → same_currency p.source_currency p.dest_currency ≡ false
      → find (belongs system_user_id p.dest_currency AccountType.outgoing) w.db.accounts
        ≡ some outgoing
      → find (belongs system_user_id p.source_currency AccountType.fx_pool) w.db.accounts
        ≡ some fx_source
      → find (belongs system_user_id p.dest_currency AccountType.fx_pool) w.db.accounts
        ≡ some fx_dest
      → IsGivenBackFx outgoing.id fx_source.id fx_dest.id w.db tt w'.db
      → Reverses codec p reason w.db w'.db
  Reverses-four outgoing fx_source fx_dest w' ne eo ef eg (r, g) = record {
    postings = four_reversals p r.sender r.fx_src r.fx_dst r.outgoing;
    given = g;
    neutral = λ b in_currency.
        four_reversals-IsNeutral p r.sender r.fx_src r.fx_dst r.outgoing
          (in_currency r.sender r.sender_row)
          (locked-currency _ _ _ w.db.accounts b.unique_ids ef r.fx_src_row)
          (locked-currency _ _ _ w.db.accounts b.unique_ids eg r.fx_dst_row)
          (locked-currency _ _ _ w.db.accounts b.unique_ids eo r.outgoing_row);
    flow = λ j.
        payout_flow-four_back w.db.accounts p j r.sender r.fx_src r.fx_dst r.outgoing fx_source
          fx_dest outgoing ef eg eo ne (find-has_id p.source_account_id w.db.accounts r.sender_row)
          (find-has_id fx_source.id w.db.accounts r.fx_src_row)
          (find-has_id fx_dest.id w.db.accounts r.fx_dst_row)
          (find-has_id outgoing.id w.db.accounts r.outgoing_row);
  }

  pub Ensures-handle_failed :
      Ensures (handle_failed codec p reason) w (λ _ w'. Reverses codec p reason w.db w'.db)
  unfolding handle_failed fail_across_currencies
  Ensures-handle_failed =
      Ensures-bind (Ensures-get_system_account {w = w} AccountType.outgoing p.dest_currency)
        λ outgoing w1 (eo, s1).
          elim (Bool-cases (same_currency p.source_currency p.dest_currency)) [
            | inl same ↦ rw same (
                Ensures-mono
                  (Ensures-transact_db (IsGivenBack outgoing.id)
                    (Ensures-fail_same_currency codec p amounts reason outgoing.id))
                  λ _ w' t. Reverses-two outgoing w' same eo (rw (s1.0) at t))
            | inr ne ↦ rw ne (
                Ensures-bind
                  (Ensures-get_system_account {w = w1} AccountType.fx_pool p.source_currency)
                  λ fx_source w2 (ef, s2).
                    Ensures-bind
                      (Ensures-get_system_account {w = w2} AccountType.fx_pool p.dest_currency)
                      λ fx_dest w3 (eg, s3).
                        let before = SameDb-trans w w1 w2 s1 s2 in
                        let unchanged = SameDb-trans w w2 w3 before s3 in
                        Ensures-mono
                          (Ensures-transact_db (IsGivenBackFx outgoing.id fx_source.id fx_dest.id) (
                            Ensures-fail_cross_currency codec p amounts reason outgoing.id
                              fx_source.id fx_dest.id))
                          λ _ w' t.
                            Reverses-four outgoing fx_source fx_dest w' ne eo (rw (s1.0) at ef)
                              (rw (before.0) at eg) (rw (unchanged.0) at t))
          ]

  -- Giving a failed payout back makes and loses no money, if it returns: for a table of accounts that
  -- keeps its invariant, a payment of int64 amounts from zero on (one amount within one currency)
  -- whose source account is in its source currency, the invariant holds after it, every account's
  -- balance agrees with its ledger entries as it did before, each currency has the same total, and
  -- the payment's new entries add up to nothing in each currency.
  pub handle_failed-Conserved :
      IsBook w.db.accounts
      → IsInCurrency p w.db
      → (w' : World D) → handle_failed codec p reason w ≡ (ok tt, w')
      → Conserved p.id w.db w'.db
  handle_failed-Conserved b in_currency w' h =
      let r = Ensures-elim Ensures-handle_failed h in
      GivenBack-Conserved r.postings w.db w'.db b r.given (r.neutral b in_currency)

-- What the reversal makes of the balances.
pub Reverses-balances :
    {D : Type 0} {codec : Codec} {p : Payment D} {reason : String} (db db' : Db D)
    → IsBook db.accounts
    → Reverses codec p reason db db'
    → (j : Uuid)
    → balance_of j db'.accounts ≡ balance_of j db.accounts -ℤ payout_flow db.accounts p j
Reverses-balances {p} db db' b r j =
    let (at, entered) = r.given.entries in
    let balanced =
      Applied-Balanced r.postings db db' p.id at b r.given.located r.given.accounts entered in
    less _ _ _ _ (balanced.moved j) (r.flow j)
  where
    less : (x y z t : ℤ) → x ≡ y +ℤ z → z ≡ pos 0 -ℤ t → x ≡ y -ℤ t
    less x y z t h k = omega (int_laws, ap pos_part h, ap neg_part h, ap pos_part k, ap neg_part k)
