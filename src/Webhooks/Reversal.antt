-- ===== src/Webhooks/Reversal.antt =====
-- internal/service/webhook_reversal.go: what the writer of reversal entries leaves in the tables, and
-- the postings that it is given.
use grey_backend_assessment.Prelude.{◌≡◌, ◌∙◌, refl, sym, ap, some, List, [], ◌∷◌, arith}
use grey_backend_assessment.Domain.{Uuid, Time, same_currency, Account, Payment, debit, credit}
use grey_backend_assessment.Session.{World, Db}
use grey_backend_assessment.Session.Laws.{
  Ensures, Ensures-bind, Ensures-bind-deref, Ensures-mono, Ensures-skip,
}
use grey_backend_assessment.Repository.Accounts.Laws.{Ensures-update_balance}
use grey_backend_assessment.Payments.Locks.{LockedAccounts, locked_account}
use grey_backend_assessment.Payments.Entries.{Posting, posting}
use grey_backend_assessment.Payments.Entries.Laws.{Ensures-write_entry}
use grey_backend_assessment.Payments.Posting.{Applied, Entered, posted_in, entered_in}
use grey_backend_assessment.Payments.Posting.Conserved.{IsNeutral, pair_sum, four_sum}
use grey_backend_assessment.Webhooks.{
  ReversalEntry, write_reversal_entries, same_currency_entries, cross_currency_entries,
}

-- The postings that reversal entries stand for, once their pointers are followed.
abbrev pub AreEntriesOf : List ReversalEntry → List Posting → Type 0
AreEntriesOf [] [] = Unit
AreEntriesOf (e ∷ es) (q ∷ qs) =
    (e.account ≡ some q.account)
    × (q ≡ posting q.account e.entry_type e.amount e.currency)
    × AreEntriesOf es qs
AreEntriesOf _ _ = ⊥

-- Each posting has moved its account and has its entry, and no other table is changed.
pub record PostedIn {D : Type 0} (payment_id : Uuid) (at : Time) (qs : List Posting) (db db' : Db D)
    : Type 0 where
  pub accounts : Applied qs db.accounts db'.accounts
  pub entries : Entered payment_id at qs db.ledger_entries db'.ledger_entries
  pub others : (db'.payments ≡ db.payments) × (db'.payment_events ≡ db.payment_events)

PostedIn-cons :
    {D : Type 0} (payment_id : Uuid) (at : Time) (q : Posting) (qs : List Posting)
    (db db1 db2 db3 : Db D)
    → Entered payment_id at (q ∷ []) db.ledger_entries db1.ledger_entries
    → db1 ≡ record db { ledger_entries = db1.ledger_entries }
    → Applied (q ∷ []) db1.accounts db2.accounts
    → db2 ≡ record db1 { accounts = db2.accounts }
    → PostedIn payment_id at qs db2 db3
    → PostedIn payment_id at (q ∷ qs) db db3
PostedIn-cons payment_id at q qs db db1 db2 db3 (id, e) c1 (mid, u, same) c2 h =
    let rows : db1.accounts ≡ db.accounts = ground arith in
    let ledger : db2.ledger_entries ≡ db1.ledger_entries = ground arith in
    record {
      accounts = (db2.accounts, rw (rows, sym same) at u, h.accounts);
      entries = (id, rw (ledger, e) at h.entries);
      others = (ground arith, ground arith);
    }

module _ {D : Type 0} (payment_id : Uuid) (at : Time) where
  pub Ensures-write_reversal_entries :
      (entries : List ReversalEntry) {w : World D}
      → Ensures (write_reversal_entries payment_id entries at) w (λ _ w'.
        (qs : List Posting) × AreEntriesOf entries qs × PostedIn payment_id at qs w.db w'.db)
  unfolding write_reversal_entries
  Ensures-write_reversal_entries [] {w} =
      Ensures-mono Ensures-skip
        λ _ w' e. ([], tt, rw e (record { accounts = refl; entries = refl; others = (refl, refl) }))
  Ensures-write_reversal_entries (e ∷ entries) {w} = Ensures-bind-deref _ λ account found.
      let q = posting account e.entry_type e.amount e.currency in
      Ensures-bind (Ensures-write_entry payment_id at q) λ _ w1 (e1, c1, _, _).
        Ensures-bind (Ensures-update_balance _ _ _) λ _ w2 (u2, (c2, _)).
          Ensures-mono (Ensures-write_reversal_entries entries) λ _ w3 (qs, of, posted). (
            q ∷ qs,
            (found, refl, of),
            PostedIn-cons payment_id at q qs w.db w1.db w2.db w3.db e1 c1 (w2.db.accounts, u2, refl)
                c2 posted,
          )

-- A debit of the outgoing account and a credit of the sender.
abbrev pub two_reversals : {D : Type 0} → Payment D → Account → Account → List Posting
two_reversals p sender outgoing =
    posting outgoing debit p.dest_amount p.dest_currency
    ∷ posting sender credit p.source_amount p.source_currency
    ∷ []

-- The same by way of the two pools.
abbrev pub four_reversals :
    {D : Type 0} → Payment D → Account → Account → Account → Account → List Posting
four_reversals p sender fx_src fx_dst outgoing =
    posting outgoing debit p.dest_amount p.dest_currency
    ∷ posting fx_dst credit p.dest_amount p.dest_currency
    ∷ posting fx_src debit p.source_amount p.source_currency
    ∷ posting sender credit p.source_amount p.source_currency
    ∷ []

module _ {D : Type 0} (p : Payment D) (locked : LockedAccounts) where
  pub same_currency_postings :
      (outgoing_id : Uuid) (qs : List Posting)
      → AreEntriesOf (same_currency_entries p locked outgoing_id) qs
      → (outgoing : Account) × (sender : Account) × (locked_account outgoing_id locked
          ≡ some outgoing)
        × (locked_account p.source_account_id locked ≡ some sender)
        × (qs ≡ two_reversals p sender outgoing)
  same_currency_postings outgoing_id (q ∷ r ∷ []) (eq, sq, (er, sr, _)) = (
    q.account,
    r.account,
    eq,
    er,
    ap (λ (x : Posting). x ∷ r ∷ []) sq
        ∙ ap (λ (x : Posting). posting q.account debit p.dest_amount p.dest_currency ∷ x ∷ []) sr,
  )
  same_currency_postings outgoing_id [] h = absurd h
  same_currency_postings outgoing_id (q ∷ []) h = absurd h.2
  same_currency_postings outgoing_id (q ∷ r ∷ s ∷ qs) h = absurd h.2.2

  pub cross_currency_postings :
      (o f g : Uuid) (qs : List Posting)
      → AreEntriesOf (cross_currency_entries p locked o f g) qs
      → (outgoing : Account) × (fx_dst : Account) × (fx_src : Account) × (sender : Account)
        × (locked_account o locked ≡ some outgoing)
        × (locked_account g locked ≡ some fx_dst)
        × (locked_account f locked ≡ some fx_src)
        × (locked_account p.source_account_id locked ≡ some sender)
        × (qs ≡ four_reversals p sender fx_src fx_dst outgoing)
  cross_currency_postings o f g (a ∷ b ∷ c ∷ d ∷ []) (ea, sa, (eb, sb, (ec, sc, (ed, sd, _)))) =
      (a.account, b.account, c.account, d.account, ea, eb, ec, ed, four a b c d _ _ _ _ sa sb sc sd)
    where
      four :
          (a b c d a' b' c' d' : Posting)
          → a ≡ a'
          → b ≡ b'
          → c ≡ c'
          → d ≡ d'
          → a ∷ b ∷ c ∷ d ∷ [] ≡ a' ∷ b' ∷ c' ∷ d' ∷ []
      four a b c d a' b' c' d' h i j k = cc
  cross_currency_postings o f g [] h = absurd h
  cross_currency_postings o f g (a ∷ []) h = absurd h.2
  cross_currency_postings o f g (a ∷ b ∷ []) h = absurd h.2.2
  cross_currency_postings o f g (a ∷ b ∷ c ∷ []) h = absurd h.2.2.2
  cross_currency_postings o f g (a ∷ b ∷ c ∷ d ∷ e ∷ qs) h = absurd h.2.2.2.2

module _ {D : Type 0} (p : Payment D) where
  pub two_reversals-IsNeutral :
      (a b : Account)
      → a.currency ≡ p.source_currency
      → b.currency ≡ p.dest_currency
      → p.dest_currency ≡ p.source_currency
      → p.dest_amount ≡ p.source_amount
      → IsNeutral (two_reversals p a b)
  unfolding posted_in entered_in
  two_reversals-IsNeutral a b ea eb es em c =
      let sum = pair_sum p.source_amount p.source_amount (same_currency p.source_currency c) in
      rw (ea, eb, es, em) (sum, sum)

  pub four_reversals-IsNeutral :
      (a b c d : Account)
      → a.currency ≡ p.source_currency
      → b.currency ≡ p.source_currency
      → c.currency ≡ p.dest_currency
      → d.currency ≡ p.dest_currency
      → IsNeutral (four_reversals p a b c d)
  unfolding posted_in entered_in
  four_reversals-IsNeutral a b c d ea eb ec ed k =
      let sum =
        four_sum p.dest_amount p.source_amount (same_currency p.dest_currency k)
          (same_currency p.source_currency k) in
      rw (ea, eb, ec, ed) (sum, sum)
