-- ===== src/Repository/History.antt =====
-- internal/repository: what no statement of the services ever undoes. A payment in a final state stays
-- as it is, the ledger and the events only grow, and the idempotency cache is not touched.
pub mod Statements
use grey_backend_assessment.Prelude.{
  ℕ, String, ◌≡◌, ◌∙◌, refl, ap, inl, inr, true, false, Option, some, List, [], ◌∷◌, ◌++◌, ◌==◌,
  find, any, update_where, arith, ==→eq, Bool-cases,
}
use grey_backend_assessment.Prelude.Int.{ℤ}
use grey_backend_assessment.Domain.{
  Uuid, Time, Payment, PaymentStatus, LedgerEntry, PaymentEvent, Currency, AccountType,
  WebhookEventStatus,
}
use grey_backend_assessment.Session.{Db, ok}
use grey_backend_assessment.Session.Preserves.{
  Preorder, Preserves, Preserves-bind, Preserves-query, Preserves-or_not_found, Preserves-statement,
  Preserves-driver_call, Preserves-raise_if, Preserves-now, Preserves-map_error,
}
use grey_backend_assessment.Repository.Accounts
use grey_backend_assessment.Repository.Payments
use grey_backend_assessment.Repository.Payments.{has_id, is_final, is_open_with_id}
use grey_backend_assessment.Repository.Ledger
use grey_backend_assessment.Repository.Events
use grey_backend_assessment.Repository.Webhooks

-- A list that has grown at its front.
abbrev pub Extends : {A : Type 0} → List A → List A → Type 0
Extends {A} old new = (added : List A) × (new ≡ added ++ old)

pub Extends-refl : {A : Type 0} (xs : List A) → Extends xs xs
Extends-refl xs = ([], refl)

append_assoc : {A : Type 0} (xs ys zs : List A) → xs ++ (ys ++ zs) ≡ (xs ++ ys) ++ zs
append_assoc [] ys zs = refl
append_assoc (x ∷ xs) ys zs = ap (λ l. x ∷ l) (append_assoc xs ys zs)

pub Extends-trans : {A : Type 0} (xs ys zs : List A) → Extends xs ys → Extends ys zs → Extends xs zs
Extends-trans xs ys zs (a, e) (b, h) = (b ++ a, h ∙ ap (λ l. b ++ l) e ∙ append_assoc b a xs)

-- The table of payments keeps every payment in a final state.
abbrev pub KeepsFinal : {D : Type 0} → List (Payment D) → List (Payment D) → Type 0
KeepsFinal {D} old new =
    (id : Uuid) (p : Payment D)
    → find (has_id id) old ≡ some p
    → is_final p.status ≡ true
    → find (has_id id) new ≡ some p

pub record History {D : Type 0} (db db' : Db D) : Type 0 where
  pub final_payments : KeepsFinal db.payments db'.payments
  pub ledger_grows : Extends db.ledger_entries db'.ledger_entries
  pub events_grow : Extends db.payment_events db'.payment_events
  pub cache_same : db'.idempotency_cache ≡ db.idempotency_cache

abbrev pub history : {D : Type 0} → Preorder D
history {D} = record {
  R = History;
  reflexive = λ db. record {
    final_payments = λ id p h f. h;
    ledger_grows = Extends-refl db.ledger_entries;
    events_grow = Extends-refl db.payment_events;
    cache_same = refl;
  };
  transitive = λ a b c h k. record {
    final_payments = λ id p e f. k.final_payments id p (h.final_payments id p e f) f;
    ledger_grows = Extends-trans _ _ _ h.ledger_grows k.ledger_grows;
    events_grow = Extends-trans _ _ _ h.events_grow k.events_grow;
    cache_same = k.cache_same ∙ h.cache_same;
  };
}

-- A statement on another table.
abbrev pub SameHistory : {D : Type 0} → Db D → Db D → Type 0
SameHistory db db' =
    (db'.payments ≡ db.payments)
    × (db'.ledger_entries ≡ db.ledger_entries)
    × (db'.payment_events ≡ db.payment_events)
    × (db'.idempotency_cache ≡ db.idempotency_cache)

pub SameHistory→History : {D : Type 0} (db db' : Db D) → SameHistory db db' → History db db'
SameHistory→History db db' (p, l, e, c) = record {
  final_payments = λ id q h f. rw (← p) at h;
  ledger_grows = ([], l);
  events_grow = ([], e);
  cache_same = c;
}

module _ {D : Type 0} where
  absent :
      (i j : Uuid) (rows : List (Payment D)) {p : Payment D}
      → any (has_id i) rows ≡ false
      → find (has_id j) rows ≡ some p
      → (i == j) ≡ false
  absent i j [] a h = cc
  absent i j (r ∷ rows) {p} a h =
      ground (arith, absent i j rows {p = p}, ==→eq r.id j, ==→eq i j, ==→eq r.id i)

  pub final_update :
      (i : Uuid) (change : Payment D → Payment D) (rows : List (Payment D)) (id : Uuid)
      (p : Payment D)
      → ((q : Payment D) → (change q).id ≡ q.id)
      → find (has_id id) rows ≡ some p
      → is_final p.status ≡ true
      → find (has_id id) (update_where (is_open_with_id i) change rows) ≡ some p
  final_update i change [] id p keeps h f = cc
  final_update i change (r ∷ rows) id p keeps h f = elim (Bool-cases (r.id == id)) [
    | inl same ↦
        let here : some r ≡ some p = rw same at h in
        let closed : is_open_with_id i r ≡ false = settled r here in rw closed (rw same here)
    | inr other ↦
        let rest = final_update i change rows id p keeps (rw other at h) f in
        elim (Bool-cases (is_open_with_id i r)) [
          | inl o ↦ rw o (rw (keeps r, other) rest)
          | inr c ↦ rw c (rw other rest)
        ]
  ]
    where
      settled : (r : Payment D) → some r ≡ some p → is_open_with_id i r ≡ false
      settled r e = ground arith

  pub History-create_payment : (p : Payment D) → Preserves history (Payments.create p)
  unfolding Payments.create Payments.insert_payment
  History-create_payment p =
      Preserves-map_error history _ (Preserves-statement history _ λ db a db' h. inserted db db' h)
    where
      inserted : (db db' : Db D) → Payments.insert_payment p db ≡ ok (tt, db') → History db db'
      inserted db db' h =
          let (fresh, rows, l, e, c) = split db db' h in
          record {
            final_payments = λ id q k f. rw rows (rw (absent p.id id db.payments fresh k) k);
            ledger_grows = ([], l);
            events_grow = ([], e);
            cache_same = c;
          }
        where
          split :
              (db db' : Db D)
              → Payments.insert_payment p db ≡ ok (tt, db')
              → (any (has_id p.id) db.payments ≡ false)
                × (db'.payments ≡ p ∷ db.payments)
                × (db'.ledger_entries ≡ db.ledger_entries)
                × (db'.payment_events ≡ db.payment_events)
                × (db'.idempotency_cache ≡ db.idempotency_cache)
          split db db' h = ground arith
