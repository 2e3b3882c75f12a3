-- ===== src/Payments/Posting/Conserved.antt =====
-- Postings that move money between accounts and make none, and what that says of the books.
use grey_backend_assessment.Prelude.{
  ◌≡◌, ◌∙◌, refl, sym, ap, Bool, true, false, ◌&&◌, some, inl, inr, List, [], ◌∷◌, ◌==◌,
  if◌then◌else◌, find, any, String, str_eq, eq_refl, ◌||◌, arith, Bool-cases, find_sound, ==→eq,
  ==_refl,
}
use grey_backend_assessment.Prelude.Int.{ℤ, pos, pos_part, neg_part, ◌+ℤ◌, ◌-ℤ◌, int_laws}
use grey_backend_assessment.Domain.{
  Uuid, Time, Currency, AccountType, same_currency, Account, Payment, PaymentEventType,
}
use grey_backend_assessment.Session.{Db}
use grey_backend_assessment.Domain.Laws.{same_currency→eq}
use grey_backend_assessment.Repository.Accounts.{has_id, belongs}
use grey_backend_assessment.Repository.Payments.{has_key}
use grey_backend_assessment.Payments.Entries.{Posting}
use grey_backend_assessment.Payments.Entries.Laws.{two_postings, four_postings}
use grey_backend_assessment.Payments.Posting.{
  payment_net, total, posted_in, entered_in, HasUniqueIds, IsBook, Entered,
}
use grey_backend_assessment.Payments.Posting.Books.Ledger.{payment_net-Entered}
use grey_backend_assessment.Payments.Posting.Settled.{Settled, Balanced, Settled-Balanced, opening}

-- In every currency, what is posted to accounts comes to nothing, and so do the entries.
abbrev pub IsNeutral : List Posting → Type 0
IsNeutral qs = (c : Currency) → (posted_in c qs ≡ pos 0) × (entered_in c qs ≡ pos 0)

module _ (n m : ℤ) where
  pub pair_sum :
      (b : Bool) → (if b then pos 0 -ℤ n else pos 0) +ℤ ((if b then n else pos 0) +ℤ pos 0) ≡ pos 0
  pair_sum true = omega int_laws
  pair_sum false = omega int_laws

  pub four_sum :
      (b d : Bool)
      → (if b then pos 0 -ℤ n else pos 0)
          +ℤ ((if b then n else pos 0)
              +ℤ ((if d then pos 0 -ℤ m else pos 0) +ℤ ((if d then m else pos 0) +ℤ pos 0)))
        ≡ pos 0
  four_sum true true = omega int_laws
  four_sum true false = omega int_laws
  four_sum false true = omega int_laws
  four_sum false false = omega int_laws

module _ {D : Type 0} (p : Payment D) where
  pub two-IsNeutral :
      (a b : Account)
      → a.currency ≡ p.source_currency
      → b.currency ≡ p.dest_currency
      → p.dest_currency ≡ p.source_currency
      → p.dest_amount ≡ p.source_amount
      → IsNeutral (two_postings p a b)
  unfolding posted_in entered_in
  two-IsNeutral a b ea eb es em c =
      rw (ea, eb, es, em)
        (
          pair_sum p.source_amount p.source_amount (same_currency p.source_currency c),
          pair_sum p.source_amount p.source_amount (same_currency p.source_currency c),
        )

  pub four-IsNeutral :
      (a b c d : Account)
      → a.currency ≡ p.source_currency
      → b.currency ≡ p.source_currency
      → c.currency ≡ p.dest_currency
      → d.currency ≡ p.dest_currency
      → IsNeutral (four_postings p a b c d)
  unfolding posted_in entered_in
  four-IsNeutral a b c d ea eb ec ed k =
      let sum =
        four_sum p.source_amount p.dest_amount (same_currency p.source_currency k)
          (same_currency p.dest_currency k) in
      rw (ea, eb, ec, ed) (sum, sum)

-- Money is neither made nor lost: the accounts keep their invariant, every balance agrees with its
-- ledger entries as before, each currency has as much money as before, and the entries of the
-- payment add nothing up in any currency.
pub record Conserved {D : Type 0} (payment_id : Uuid) (db db' : Db D) : Type 0 where
  pub book : IsBook db'.accounts
  pub reconciled : (id : Uuid) → opening id db' ≡ opening id db
  pub totals : (c : Currency) → total c db'.accounts ≡ total c db.accounts
  pub zero_sum :
      (c : Currency)
      → payment_net payment_id c db'.ledger_entries ≡ payment_net payment_id c db.ledger_entries

plus_nothing : (a b x : ℤ) → a ≡ b +ℤ x → x ≡ pos 0 → a ≡ b
plus_nothing a b x h e =
    omega (int_laws, ap pos_part h, ap neg_part h, ap pos_part e, ap neg_part e)

pub Balanced-Conserved :
    {D : Type 0} (payment_id : Uuid) (at : Time) (qs : List Posting) (db db' : Db D)
    → Balanced qs db db'
    → Entered payment_id at qs db.ledger_entries db'.ledger_entries
    → IsNeutral qs
    → Conserved payment_id db db'
Balanced-Conserved payment_id at qs db db' b e n = record {
  book = b.book;
  reconciled = b.reconciled;
  totals = λ c. plus_nothing _ _ _ (b.totals c) (n c).0;
  zero_sum = λ c.
      plus_nothing _ _ _
        (payment_net-Entered payment_id at c qs db.ledger_entries db'.ledger_entries e) (n c).1;
}

pub Settled-Conserved :
    {D : Type 0} {p : Payment D} {event_type : PaymentEventType} {user_id : Uuid}
    (qs : List Posting) (db db' : Db D)
    → IsBook db.accounts
    → Settled p event_type user_id qs db db'
    → IsNeutral qs
    → Conserved p.id db db'
Settled-Conserved {p} qs db db' b s n =
    Balanced-Conserved p.id p.created_at qs db db' (Settled-Balanced qs db db' b s) s.entries n

-- A row that any search finds is the row with its identifier.
pub find_by_id :
    (test : Account → Bool) (rows : List Account) {a : Account}
    → HasUniqueIds rows
    → find test rows ≡ some a
    → find (has_id a.id) rows ≡ some a
find_by_id test [] u h = cc
find_by_id test (r ∷ rows) {a} u h = elim (Bool-cases (test r)) [
  | inl t ↦ let e : some r ≡ some a = rw t at h in ground (arith, ==_refl a.id)
  | inr t ↦
      let found : find test rows ≡ some a = rw t at h in
      let ih = find_by_id test rows u.1 found in
      elim (Bool-cases (r.id == a.id)) [
        | inl same ↦ absurd (clash rows r a u.0 (==→eq r.id a.id same) ih)
        | inr ne ↦ rw ne ih
      ]
]
  where
    clash :
        (rows : List Account) (r a : Account)
        → any (has_id r.id) rows ≡ false
        → r.id ≡ a.id
        → find (has_id a.id) rows ≡ some a
        → ⊥
    clash [] r a n e h = cc
    clash (x ∷ rows) r a n e h = ground (arith, clash rows r a)

some-injective : (a b : Account) → some a ≡ some b → a ≡ b
some-injective a b h = cc

belongs-currency :
    (user_id : Uuid) (c : Currency) (account_type : AccountType) (a : Account)
    → belongs user_id c account_type a ≡ true
    → a.currency ≡ c
belongs-currency user_id c account_type a h = same_currency→eq a.currency c (ground arith)

-- The row that is locked is in the currency that its identifier was looked up by.
pub locked-currency :
    (user_id : Uuid) (c : Currency) (account_type : AccountType) (rows : List Account)
    {a b : Account}
    → HasUniqueIds rows
    → find (belongs user_id c account_type) rows ≡ some a
    → find (has_id a.id) rows ≡ some b
    → b.currency ≡ c
locked-currency user_id c account_type rows {a} {b} u h k =
    let same = some-injective b a (sym k ∙ find_by_id _ rows u h) in
    ap (λ (x : Account). x.currency) same
    ∙ belongs-currency user_id c account_type a (find_sound _ rows h)

-- A payment that was committed, by way of postings that make no money.
pub record SettledNeutrally {D : Type 0} (p : Payment D) (event_type : PaymentEventType)
    (user_id : Uuid) (key : String) (db db' : Db D) : Type 0 where
  pub keyed : p.idempotency_key ≡ key
  pub postings : List Posting
  pub settled : Settled p event_type user_id postings db db'
  pub neutral : IsNeutral postings

module _ {D : Type 0} {p : Payment D} {event_type : PaymentEventType} {user_id : Uuid}
    {key : String} {db db' : Db D} where
  pub SettledNeutrally-Conserved :
      IsBook db.accounts → SettledNeutrally p event_type user_id key db db' → Conserved p.id db db'
  SettledNeutrally-Conserved b s = Settled-Conserved s.postings db db' b s.settled s.neutral

  -- The key was free for the account, and the payment that takes it is the only new row.
  pub SettledNeutrally-once :
      SettledNeutrally p event_type user_id key db db'
      → (any (has_key key p.source_account_id) db.payments ≡ false)
        × (db'.payments ≡ p ∷ db.payments)
        × (any (has_key key p.source_account_id) db'.payments ≡ true)
  SettledNeutrally-once s = (
    rw s.keyed at s.settled.fresh_key,
    s.settled.payments,
    rw (s.settled.payments, s.keyed) (taken key p.source_account_id),
  )
    where
      taken :
          (k : String) (source : Uuid)
          → (str_eq k k && source == source || any (has_key k source) db.payments) ≡ true
      taken k source = rw (eq_refl k, ==_refl source) refl
