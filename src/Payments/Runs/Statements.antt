-- ===== src/Payments/Runs/Statements.antt =====
-- internal/repository: the statements of a payment, where the driver does not fail and the row is new,
-- or there.
use grey_backend_assessment.Prelude.{
  ◌≡◌, ◌∙◌, refl, ap, ℕ, suc, ◌+◌, true, false, some, none, List, [], ◌∷◌, ◌==◌, find, any, filter,
  length, update_where, Bool-cases, arith, inl, inr,
}
use grey_backend_assessment.Prelude.Int.{
  ℤ, pos, ◌≤ℤ◌, ltb_ℤ, eqb_ℤ, eqb_ℤ_refl, InInt64, add64, sub64, sub64-add64_one,
}
use grey_backend_assessment.Domain.{
  Uuid, Time, Account, Payment, PaymentEvent, PaymentEventType, user_actor,
}
use grey_backend_assessment.Session.{World, ok, ◌>>=◌, new_uuid, driver_call}
use grey_backend_assessment.Session.Runs.{
  IsCalm, bind-runs, map_error-runs, raise_if-runs, driver_call-runs, statement-runs,
}
use grey_backend_assessment.Repository.Accounts.{
  has_id, at_version, set_balance, update_accounts, update_balance,
}
use grey_backend_assessment.Repository.Payments
use grey_backend_assessment.Repository.Ledger
use grey_backend_assessment.Repository.Events
use grey_backend_assessment.Payments.Entries.{Posting, entry_for, write_entry, write_payment_event}

module _ {D : Type 0} (w : World D) (calm : IsCalm w.env) where
  pub create-runs :
      (p : Payment D)
      → any (Payments.has_id p.id) w.db.payments ≡ false
      → any (Payments.has_key p.idempotency_key p.source_account_id) w.db.payments ≡ false
      → Payments.create p w
        ≡ (ok tt, record w { db = record w.db { payments = p ∷ w.db.payments }; tick = w.tick + 1 })
  unfolding Payments.create Payments.insert_payment
  create-runs p new_id new_key =
      map_error-runs _ _ (statement-runs w calm _ (rw (new_id, new_key) refl))

  pub write_entry-runs :
      (payment_id : Uuid) (at : Time) (q : Posting) (b : ℤ)
      → any (Ledger.has_id (w.env.uuids w.drawn)) w.db.ledger_entries ≡ false
      → write_entry payment_id at q b w ≡ (
        ok tt,
        record w {
          db = record w.db {
            ledger_entries =
                entry_for (w.env.uuids w.drawn) payment_id at q b ∷ w.db.ledger_entries;
          };
          tick = w.tick + 1;
          drawn = w.drawn + 1;
        },
      )
  unfolding write_entry new_uuid ◌>>=◌ Ledger.create Ledger.insert_entry
  write_entry-runs payment_id at q b fresh =
      statement-runs (record w { drawn = w.drawn + 1 }) calm _ (rw fresh refl)

  abbrev pub created_event : Uuid → PaymentEventType → Uuid → Time → PaymentEvent
  created_event payment_id event_type user_id at = record {
    id = w.env.uuids w.drawn;
    payment_id = payment_id;
    event_type = event_type;
    actor = user_actor user_id;
    payload = none;
    created_at = at;
  }

  pub write_payment_event-runs :
      (payment_id : Uuid) (event_type : PaymentEventType) (user_id : Uuid) (at : Time)
      → any (Events.has_id (w.env.uuids w.drawn)) w.db.payment_events ≡ false
      → write_payment_event payment_id event_type user_id at w ≡ (
        ok tt,
        record w {
          db = record w.db {
            payment_events = created_event payment_id event_type user_id at ∷ w.db.payment_events;
          };
          tick = w.tick + 1;
          drawn = w.drawn + 1;
        },
      )
  unfolding write_payment_event new_uuid ◌>>=◌ Events.create Events.insert_event
  write_payment_event-runs payment_id event_type user_id at fresh =
      statement-runs (record w { drawn = w.drawn + 1 }) calm _ (rw fresh refl)

-- A row of that version is hit.
at_version_hit :
    (id : Uuid) (a : Account) (rows : List Account)
    → find (has_id id) rows ≡ some a
    → (any (at_version id a.version) rows ≡ true)
      × ((length (filter (at_version id a.version) rows) == 0) ≡ false)
at_version_hit id a [] h = cc
at_version_hit id a (r ∷ rows) h = elim (Bool-cases (r.id == id)) [
  | inl it ↦
      let same : eqb_ℤ r.version a.version ≡ true = own r a (rw it at h) in
      rw (it, same) (refl, not_zero _)
  | inr other ↦ rw other (at_version_hit id a rows (rw other at h))
]
  where
    not_zero : (n : ℕ) → (suc n == 0) ≡ false
    not_zero n = ground arith

    own : (r a : Account) → some r ≡ some a → eqb_ℤ r.version a.version ≡ true
    own r a e =
        let e' : r ≡ a = inj r a e in rw (ap (λ (x : Account). x.version) e') (eqb_ℤ_refl a.version)
      where
        inj : (r a : Account) → some r ≡ some a → r ≡ a
        inj r a e = cc

-- The accounts after an update of one balance.
abbrev pub with_balance : Account → ℤ → List Account → List Account
with_balance a balance rows =
    update_where (at_version a.id (sub64 (add64 a.version (pos 1)) (pos 1)))
      (set_balance balance (add64 a.version (pos 1))) rows

module _ {D : Type 0} (w : World D) (calm : IsCalm w.env) where
  pub update_balance-runs :
      (a : Account) (balance : ℤ)
      → find (has_id a.id) w.db.accounts ≡ some a
      → InInt64 a.version
      → pos 0 ≤ℤ balance
      → update_balance a.id balance (add64 a.version (pos 1)) w ≡ (
        ok tt,
        record w {
          db = record w.db { accounts = with_balance a balance w.db.accounts };
          tick = w.tick + 1 + 1;
        },
      )
  unfolding update_balance update_accounts
  update_balance-runs a balance h fits nonneg =
      let back = sub64-add64_one a.version fits in
      let (hit, rows) = at_version_hit a.id a w.db.accounts h in
      let not_below : ltb_ℤ balance (pos 0) ≡ false = above balance nonneg in
      let old = sub64 (add64 a.version (pos 1)) (pos 1) in
      let changed : update_accounts a.id balance (add64 a.version (pos 1)) old w.db
          ≡ ok (
            length (filter (at_version a.id old) w.db.accounts),
            record w.db { accounts = with_balance a balance w.db.accounts },
          ) =
        rw (back, hit, not_below) refl in
      bind-runs _ _ (statement-runs w calm _ changed)
      ∙ bind-runs driver_call _ (driver_call-runs _ calm)
      ∙ raise_if-runs _ _ (rw back rows)
    where
      above : (b : ℤ) → pos 0 ≤ℤ b → ltb_ℤ b (pos 0) ≡ false
      above b h = ground arith
