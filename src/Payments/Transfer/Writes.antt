-- ===== src/Payments/Transfer/Writes.antt =====
-- internal/service/payment/transfer.go: what is run inside the transaction of a transfer returns, once the
-- accounts are found and nothing stands against it.
use grey_backend_assessment.Prelude.{
  none, ◌≡◌, ◌≢◌, ◌∙◌, refl, ℕ, ◌+◌, ◌≤◌, true, false, some, List, [], ◌∷◌, ◌==◌, ==→eq, ==_refl,
  find, any, Bool-cases, arith, inl, inr,
}
use grey_backend_assessment.Prelude.Int.{
  ℤ, pos, ◌≤ℤ◌, ◌<ℤ◌, ltb_ℤ, InInt64, add64, sub64, sub64-of_nonneg, int_laws,
}
use grey_backend_assessment.Domain.{
  PaymentEventType, Uuid, Account, AccountStatus, Payment, debit, credit,
}
use grey_backend_assessment.Session.{
  Session, ◌>>=◌, ◌>>◌, pure, World, Db, ok, lift, deref, raise_if, new_uuid, now,
}
use grey_backend_assessment.Session.Runs.{
  Returns, IsCalm, Returns-bind, Returns-pure, bind-runs, lift-runs, deref-runs, raise_if-runs,
  now-runs, new_uuid-runs,
}
use grey_backend_assessment.Repository.Accounts.{has_id, update_balance}
use grey_backend_assessment.Repository.Payments
use grey_backend_assessment.Repository.Ledger
use grey_backend_assessment.Repository.Events
use grey_backend_assessment.Payments.Service.{Service}
use grey_backend_assessment.Payments.Locks.{verify_account_active}
use grey_backend_assessment.Payments.Entries.{posting, write_ledger_entries, write_payment_event}
use grey_backend_assessment.Payments.Runs.{AreStored, among, lock_accounts_in_order-Locked}
use grey_backend_assessment.Payments.Runs.Statements.{
  create-runs, write_entry-runs, write_payment_event-runs, update_balance-runs,
}
use grey_backend_assessment.Payments.Runs.Rows.{find-with_balance}
use grey_backend_assessment.Payments.Transfer.{
  transfer_payment, InternalTransferRequest, same_currency_body,
}
use grey_backend_assessment.Payments.Transfer.Validates.{IsAllowed}

-- The identifiers that are drawn from now on are all different, and no row has one.
pub record HasFreshIds {D : Type 0} (w : World D) : Type 0 where
  pub distinct : (m n : ℕ) → w.env.uuids m ≡ w.env.uuids n → m ≡ n
  pub payment_ids :
      (n : ℕ) → w.drawn ≤ n → any (Payments.has_id (w.env.uuids n)) w.db.payments ≡ false
  pub entry_ids :
      (n : ℕ) → w.drawn ≤ n → any (Ledger.has_id (w.env.uuids n)) w.db.ledger_entries ≡ false
  pub event_ids :
      (n : ℕ) → w.drawn ≤ n → any (Events.has_id (w.env.uuids n)) w.db.payment_events ≡ false

pub at_tick :
    {D : Type 0} (w : World D) (t : ℕ) → HasFreshIds w → HasFreshIds (record w { tick = t })
at_tick w t f = record {
  distinct = f.distinct;
  payment_ids = f.payment_ids;
  entry_ids = f.entry_ids;
  event_ids = f.event_ids;
}

-- What the transaction needs: the rows of the two accounts, which are different, their versions, a
-- balance that covers the amount, room for it at the recipient, and a new key.
pub record IsReady {D : Type 0} (req : InternalTransferRequest) (sender recipient : Account)
    (db : Db D) : Type 0 where
  pub sender_row : find (has_id sender.id) db.accounts ≡ some sender
  pub recipient_row : find (has_id recipient.id) db.accounts ≡ some recipient
  pub differ : (sender.id == recipient.id) ≡ false
  pub sender_version : InInt64 sender.version
  pub recipient_version : InInt64 recipient.version
  pub balance_fits : InInt64 sender.balance
  pub balance_from_zero : pos 0 ≤ℤ sender.balance
  pub covered : req.amount ≤ℤ sender.balance
  pub room : pos 0 ≤ℤ add64 recipient.balance req.amount
  pub new_key : any (Payments.has_key req.idempotency_key sender.id) db.payments ≡ false

active-verified : (a : Account) → a.status ≡ AccountStatus.active → verify_account_active a ≡ ok tt
unfolding verify_account_active
active-verified a h = rw h refl

not_short : (b n : ℤ) → n ≤ℤ b → ltb_ℤ b n ≡ false
not_short b n h = ground arith

left_over :
    (b n : ℤ) → InInt64 b → InInt64 n → pos 0 ≤ℤ b → pos 0 <ℤ n → n ≤ℤ b → pos 0 ≤ℤ sub64 b n
left_over b n fb fn pb pn h = rw (sub64-of_nonneg b n fb fn pb (omega arith)) (omega int_laws)

next_entry :
    (a b : ℕ) (env_uuids : ℕ → Uuid)
    → ((m n : ℕ) → env_uuids m ≡ env_uuids n → m ≡ n)
    → a ≢ b
    → (env_uuids a == env_uuids b) ≡ false
next_entry a b uuids distinct ne = elim (Bool-cases (uuids a == uuids b)) [
  | inl e ↦ absurd (ne (distinct a b (==→eq _ _ e)))
  | inr n ↦ n
]

one_more : (n : ℕ) → n + 1 ≢ n + 1 + 1
one_more n e = omega arith

second_among : (a b : Uuid) → among b (a ∷ b ∷ []) ≡ true
second_among a b = ground arith

last_among : (a b k : Uuid) → (a == k) ≡ false → among k (a ∷ b ∷ []) ≡ true → (b == k) ≡ true
last_among a b k n e = ground arith

both_stored :
    (rows : List Account) (a b : Account)
    → find (has_id a.id) rows ≡ some a
    → find (has_id b.id) rows ≡ some b
    → AreStored rows (a.id ∷ b.id ∷ [])
both_stored rows a b ha hb k e = elim (Bool-cases (a.id == k)) [
  | inl it ↦ (a, rw (← ==→eq a.id k it) ha)
  | inr other ↦ (b, rw (← ==→eq b.id k (last_among a.id b.id k other e)) hb)
]

module _ {D : Type 0} (s : Service D) (req : InternalTransferRequest) where
  -- The two entries of a payment.
  write_ledger_entries-runs :
      (w : World D) (p : Payment D) (sender recipient : Account)
      → IsCalm w.env
      → any (Ledger.has_id (w.env.uuids w.drawn)) w.db.ledger_entries ≡ false
      → any (Ledger.has_id (w.env.uuids (w.drawn + 1))) w.db.ledger_entries ≡ false
      → (w.env.uuids w.drawn == w.env.uuids (w.drawn + 1)) ≡ false
      → (es : List _) × (write_ledger_entries p sender recipient w ≡ (
        ok tt,
        record w {
          db = record w.db { ledger_entries = es };
          tick = w.tick + 1 + 1;
          drawn = w.drawn + 1 + 1;
        },
      ))
  unfolding write_ledger_entries
  write_ledger_entries-runs w p sender recipient calm fresh1 fresh2 differ = (
    _,
    bind-runs _ _ (
          write_entry-runs w calm p.id p.created_at
            (posting sender debit p.source_amount p.source_currency)
            (sub64 sender.balance p.source_amount) fresh1)
        ∙ write_entry-runs _ calm p.id p.created_at
            (posting recipient credit p.dest_amount p.dest_currency)
            (add64 recipient.balance p.dest_amount) (rw (differ, fresh2) refl),
  )

  module _ (sender recipient : Account) (allowed : IsAllowed s req sender recipient)
      (fits : InInt64 req.amount) where
    -- The part of the transaction that writes.
    abbrev write_transfer : Session D (Payment D)
    write_transfer = do
      at ← now
      id ← new_uuid
      let p = transfer_payment req id sender.id recipient.id req.amount none (pos 0) none at
      Payments.create p
      write_ledger_entries p sender recipient
      write_payment_event p.id PaymentEventType.completed req.sender_user_id at
      update_balance sender.id (sub64 sender.balance req.amount) (add64 sender.version (pos 1))
      update_balance recipient.id (add64 recipient.balance req.amount)
          (add64 recipient.version (pos 1))
      pure p

    write_transfer-Returns :
        (w : World D)
        → IsCalm w.env
        → HasFreshIds w
        → IsReady req sender recipient w.db
        → Returns write_transfer w
    write_transfer-Returns w calm fresh ready =
        let left =
          left_over _ _ ready.balance_fits fits ready.balance_from_zero allowed.amount_positive
            ready.covered in
        let other =
          find-with_balance sender _ recipient.id w.db.accounts ready.differ ready.recipient_row in
        Returns-bind now _ (now-runs _) refl (
          Returns-bind new_uuid _ (new_uuid-runs _) refl (
            Returns-bind (Payments.create _) _
              (create-runs _ calm _ (fresh.payment_ids w.drawn (omega arith)) ready.new_key) refl
              (Returns-bind (write_ledger_entries _ _ _) _
                (write_ledger_entries-runs _ _ sender recipient calm
                  (fresh.entry_ids _ (omega arith)) (fresh.entry_ids _ (omega arith))
                  (next_entry _ _ w.env.uuids fresh.distinct (one_more w.drawn))).1
                refl
                (Returns-bind (write_payment_event _ _ _ _) _
                  (write_payment_event-runs _ calm _ _ _ _ (fresh.event_ids _ (omega arith))) refl
                  (Returns-bind (update_balance _ _ _) _
                    (update_balance-runs _ calm sender _ ready.sender_row ready.sender_version left)
                    refl
                    (Returns-bind (update_balance _ _ _) _
                      (update_balance-runs _ calm recipient _ other ready.recipient_version
                        ready.room)
                      refl (Returns-pure _)))))))

    pub same_currency_body-Returns :
        (w : World D)
        → IsCalm w.env
        → HasFreshIds w
        → IsReady req sender recipient w.db
        → Returns (same_currency_body req sender.id recipient.id) w
    unfolding same_currency_body
    same_currency_body-Returns w calm fresh ready =
        let lock =
          lock_accounts_in_order-Locked (sender.id ∷ recipient.id ∷ []) w calm
            (both_stored w.db.accounts sender recipient ready.sender_row ready.recipient_row) in
        let ls = lock.knows sender.id (rw (==_refl sender.id) refl) ∙ ready.sender_row in
        let lr =
          lock.knows recipient.id (second_among sender.id recipient.id) ∙ ready.recipient_row in
        Returns-bind _ _ (lock.runs) refl (
          Returns-bind (deref _) _ (deref-runs _ ls) refl (
            Returns-bind (deref _) _ (deref-runs _ lr) refl (
              Returns-bind (lift _) _ (lift-runs _ (active-verified sender allowed.sender_active))
                refl
                (Returns-bind (lift _) _
                  (lift-runs _ (active-verified recipient allowed.recipient_active)) refl
                  (Returns-bind (raise_if _ _) _
                    (raise_if-runs _ _ (not_short sender.balance req.amount ready.covered)) refl
                    (write_transfer-Returns (record w { tick = lock.tick }) calm (at_tick w _ fresh)
                      ready))))))
