-- ===== src/Payments/Entries/Laws.antt =====
-- internal/service/payment: what the writers of ledger entries and events leave in the tables.
use grey_backend_assessment.Prelude.{◌≡◌, ◌∙◌, refl, sym, ap, none, List, [], ◌∷◌, ◌++◌}
use grey_backend_assessment.Prelude.Int.{ℤ}
use grey_backend_assessment.Domain.{
  Uuid, Time, Payment, LedgerEntry, PaymentEvent, PaymentEventType, Account, debit, credit,
  user_actor,
}
use grey_backend_assessment.Session.{World, Db}
use grey_backend_assessment.Session.Laws.{
  Ensures, Ensures-bind, Ensures-bind-new_uuid, Ensures-mono, Ensures-skip,
}
use grey_backend_assessment.Repository.Ledger.Laws.{Ensures-create_entry, Ensures-create_event}
use grey_backend_assessment.Payments.Entries.{
  Posting, posting, new_balance, entry_for, write_entry, write_entries, write_ledger_entries,
  write_cross_currency_ledger_entries, write_external_ledger_entries, write_postings,
  write_cross_currency_external_ledger_entries, write_payment_event,
}
use grey_backend_assessment.Payments.Posting.{Entered}

-- The ledger has the entries of a list of postings on top, and nothing else is changed.
abbrev pub EnteredIn : {D : Type 0} → Uuid → Time → List Posting → World D → World D → Type 0
EnteredIn payment_id at qs w w' =
    Entered payment_id at qs w.db.ledger_entries w'.db.ledger_entries
    × (w'.db ≡ record w.db { ledger_entries = w'.db.ledger_entries })
    × (w'.env ≡ w.env)
    × (w'.sent ≡ w.sent)

Entered-append :
    (payment_id : Uuid) (at : Time) (qs rs : List Posting) (es fs gs : List LedgerEntry)
    → Entered payment_id at qs es fs
    → Entered payment_id at rs fs gs
    → Entered payment_id at (qs ++ rs) es gs
Entered-append payment_id at [] rs es fs gs h k = rw (← h) k
Entered-append payment_id at (q ∷ qs) rs es fs gs (id, h) k =
    (id, Entered-append payment_id at qs rs _ fs gs h k)

EnteredIn-trans :
    {D : Type 0} (payment_id : Uuid) (at : Time) (qs rs : List Posting) (u v w : World D)
    → EnteredIn payment_id at qs u v
    → EnteredIn payment_id at rs v w
    → EnteredIn payment_id at (qs ++ rs) u w
EnteredIn-trans payment_id at qs rs u v w (e, o, env, sent) (e', o', env', sent') = (
  Entered-append payment_id at qs rs _ _ _ e e',
  o' ∙ ap (λ (db : Db _). record db { ledger_entries = w.db.ledger_entries }) o,
  env' ∙ env,
  sent' ∙ sent,
)

EnteredIn-nil :
    {D : Type 0} (payment_id : Uuid) (at : Time) {v w : World D}
    → w ≡ v
    → EnteredIn payment_id at [] v w
EnteredIn-nil payment_id at {v} e = rw e (refl, refl, refl, refl)

module _ {D : Type 0} {w : World D} where
  pub Ensures-write_entry :
      (payment_id : Uuid) (at : Time) (q : Posting)
      → Ensures
          (write_entry payment_id at q (new_balance q))
          w
          (λ _ w'. EnteredIn payment_id at (q ∷ []) w w')
  unfolding write_entry
  Ensures-write_entry payment_id at q = Ensures-bind-new_uuid λ id _.
      Ensures-mono (Ensures-create_entry (entry_for id payment_id at q (new_balance q)))
        λ _ w' (e, (same_env, _, same_sent)).
          let es = ap (λ (db : Db D). db.ledger_entries) e in
          (
            (id, es),
            e ∙ ap (λ (l : List LedgerEntry). record w.db { ledger_entries = l }) (sym es),
            same_env,
            same_sent,
          )

abbrev with_balances : List Posting → List (Posting × ℤ)
with_balances [] = []
with_balances (q ∷ qs) = (q, new_balance q) ∷ with_balances qs

module _ {D : Type 0} (payment_id : Uuid) (at : Time) where
  -- The loop that computes each new balance from the type of its entry.
  pub Ensures-write_postings :
      (qs : List Posting) {w : World D}
      → Ensures (write_postings payment_id at qs) w (λ _ w'. EnteredIn payment_id at qs w w')
  unfolding write_postings
  Ensures-write_postings [] = Ensures-mono Ensures-skip (λ _ w' e. EnteredIn-nil payment_id at e)
  Ensures-write_postings (q ∷ qs) {w} = Ensures-bind (Ensures-write_entry payment_id at q) λ _ w1 h.
      Ensures-mono (Ensures-write_postings qs)
        λ _ w2 k. EnteredIn-trans payment_id at (q ∷ []) qs w w1 w2 h k

  -- The loop over rows that bring their new balance.
  pub Ensures-write_entries :
      (qs : List Posting) {w : World D}
      → Ensures
          (write_entries payment_id at (with_balances qs))
          w
          (λ _ w'. EnteredIn payment_id at qs w w')
  unfolding write_entries
  Ensures-write_entries [] = Ensures-mono Ensures-skip (λ _ w' e. EnteredIn-nil payment_id at e)
  Ensures-write_entries (q ∷ qs) {w} = Ensures-bind (Ensures-write_entry payment_id at q) λ _ w1 h.
      Ensures-mono (Ensures-write_entries qs)
        λ _ w2 k. EnteredIn-trans payment_id at (q ∷ []) qs w w1 w2 h k

-- A debit of the source amount and a credit of the destination amount.
abbrev pub two_postings : {D : Type 0} → Payment D → Account → Account → List Posting
two_postings p sender recipient =
    posting sender debit p.source_amount p.source_currency
    ∷ posting recipient credit p.dest_amount p.dest_currency
    ∷ []

-- The same by way of the two pools of the currencies.
abbrev pub four_postings :
    {D : Type 0} → Payment D → Account → Account → Account → Account → List Posting
four_postings p sender fx_pool_source fx_pool_dest recipient =
    posting sender debit p.source_amount p.source_currency
    ∷ posting fx_pool_source credit p.source_amount p.source_currency
    ∷ posting fx_pool_dest debit p.dest_amount p.dest_currency
    ∷ posting recipient credit p.dest_amount p.dest_currency
    ∷ []

module _ {D : Type 0} {w : World D} (p : Payment D) where
  pub Ensures-write_ledger_entries :
      (sender recipient : Account)
      → Ensures
          (write_ledger_entries p sender recipient)
          w
          (λ _ w'. EnteredIn p.id p.created_at (two_postings p sender recipient) w w')
  unfolding write_ledger_entries
  Ensures-write_ledger_entries sender recipient =
      let q = posting sender debit p.source_amount p.source_currency in
      let r = posting recipient credit p.dest_amount p.dest_currency in
      Ensures-bind (Ensures-write_entry p.id p.created_at q) λ _ w1 h.
        Ensures-mono (Ensures-write_entry p.id p.created_at r)
          λ _ w2 k. EnteredIn-trans p.id p.created_at (q ∷ []) (r ∷ []) w w1 w2 h k

  pub Ensures-write_external_ledger_entries :
      (sender outgoing : Account)
      → Ensures
          (write_external_ledger_entries p sender outgoing)
          w
          (λ _ w'. EnteredIn p.id p.created_at (two_postings p sender outgoing) w w')
  unfolding write_external_ledger_entries
  Ensures-write_external_ledger_entries sender outgoing =
      let q = posting sender debit p.source_amount p.source_currency in
      let r = posting outgoing credit p.dest_amount p.dest_currency in
      Ensures-bind (Ensures-write_entry p.id p.created_at q) λ _ w1 h.
        Ensures-mono (Ensures-write_entry p.id p.created_at r)
          λ _ w2 k. EnteredIn-trans p.id p.created_at (q ∷ []) (r ∷ []) w w1 w2 h k

  pub Ensures-write_cross_currency_ledger_entries :
      (sender fx_src fx_dst recipient : Account)
      → Ensures (write_cross_currency_ledger_entries p sender fx_src fx_dst recipient) w (λ _ w'.
        EnteredIn p.id p.created_at (four_postings p sender fx_src fx_dst recipient) w w')
  unfolding write_cross_currency_ledger_entries
  Ensures-write_cross_currency_ledger_entries sender fx_src fx_dst recipient =
      Ensures-write_entries p.id p.created_at (four_postings p sender fx_src fx_dst recipient)

  pub Ensures-write_cross_currency_external_ledger_entries :
      (sender fx_src fx_dst outgoing : Account)
      → Ensures
          (write_cross_currency_external_ledger_entries p sender fx_src fx_dst outgoing)
          w
          (λ _ w'. EnteredIn p.id p.created_at (four_postings p sender fx_src fx_dst outgoing) w w')
  unfolding write_cross_currency_external_ledger_entries
  Ensures-write_cross_currency_external_ledger_entries sender fx_src fx_dst outgoing =
      Ensures-write_postings p.id p.created_at (four_postings p sender fx_src fx_dst outgoing)

-- The event that a payment's first transaction writes.
abbrev pub event_for : Uuid → Uuid → PaymentEventType → Uuid → Time → PaymentEvent
event_for id payment_id event_type user_id at = record {
  id = id;
  payment_id = payment_id;
  event_type = event_type;
  actor = user_actor user_id;
  payload = none;
  created_at = at;
}

module _ {D : Type 0} {w : World D} where
  pub Ensures-write_payment_event :
      (payment_id : Uuid) (event_type : PaymentEventType) (user_id : Uuid) (at : Time)
      → Ensures (write_payment_event payment_id event_type user_id at) w (λ _ w'.
        (id : Uuid) × (w'.db ≡ record w.db {
          payment_events = event_for id payment_id event_type user_id at ∷ w.db.payment_events;
        })
        × (w'.env ≡ w.env)
        × (w'.sent ≡ w.sent))
  unfolding write_payment_event
  Ensures-write_payment_event payment_id event_type user_id at = Ensures-bind-new_uuid λ id _.
      Ensures-mono (Ensures-create_event (event_for id payment_id event_type user_id at))
        λ _ w' (e, (same_env, _, same_sent)). (id, e, same_env, same_sent)
