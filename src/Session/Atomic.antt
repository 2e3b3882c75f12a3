-- ===== src/Session/Atomic.antt =====
-- The session: actions that read only, and actions that change the tables as a whole or not at all.
use grey_backend_assessment.Prelude.{◌≡◌, ◌∙◌, refl, sym, Bool, true, false, Option, none, some}
use grey_backend_assessment.Domain.{Error}
use grey_backend_assessment.Session.{
  Db, World, Result, ok, err, Session, pure, lift, gets, or_not_found, map_error, map_result,
  continue, ◌>>=◌, raise_if, driver_call, query, transact, caught, new_uuid, now, statement,
  run_statement, store,
}
use grey_backend_assessment.Session.Laws.Tables.{transact_error}

-- The tables are never changed.
pub record Reads {D A : Type 0} (m : Session D A) : Type 0 where
  pub at : (w : World D) → (m w).1.db ≡ w.db

-- An error leaves the tables as they were.
pub record Atomic {D A : Type 0} (m : Session D A) : Type 0 where
  pub at : (w : World D) {e : Error} → (m w).0 ≡ err e → (m w).1.db ≡ w.db

-- No error is given.
pub record Total {D A : Type 0} (m : Session D A) : Type 0 where
  pub at : (w : World D) → (a : A) × ((m w).0 ≡ ok a)

module _ {D A : Type 0} where
  pub Reads-pure : (a : A) → Reads {D = D} (pure a)
  unfolding pure
  Reads-pure a = record { at = λ w. refl }

  pub Reads-lift : (r : Result A) → Reads {D = D} (lift r)
  unfolding lift
  Reads-lift r = record { at = λ w. refl }

  pub Reads-or_not_found : (o : Option A) → Reads {D = D} (or_not_found o)
  unfolding or_not_found
  Reads-or_not_found none = record { at = λ w. refl }
  Reads-or_not_found (some a) = record { at = λ w. refl }

  pub Reads-map_error : (f : Error → Error) {m : Session D A} → Reads m → Reads (map_error f m)
  unfolding map_error
  Reads-map_error f r = record { at = r.at }

module _ {D : Type 0} where
  pub Reads-raise_if : (b : Bool) (e : Error) → Reads {D = D} (raise_if b e)
  unfolding raise_if
  Reads-raise_if true e = record { at = λ w. refl }
  Reads-raise_if false e = record { at = λ w. refl }

module _ {D A B : Type 0} where
  continue-db :
      (x : Result A × World D) (f : A → Session D B)
      → ((a : A) → Reads (f a))
      → (continue x.0 f x.1).1.db ≡ x.1.db
  continue-db (ok a, w) f r = (r a).at w
  continue-db (err e, w) f r = refl

  pub Reads-bind :
      {m : Session D A} {f : A → Session D B} → Reads m → ((a : A) → Reads (f a)) → Reads (m >>= f)
  unfolding ◌>>=◌
  Reads-bind {m} {f} r k = record { at = λ w. continue-db (m w) f k ∙ r.at w }

  continue-after_read :
      (x : Result A × World D) (f : A → Session D B) {e : Error}
      → ((a : A) → Atomic (f a))
      → (continue x.0 f x.1).0 ≡ err e
      → (continue x.0 f x.1).1.db ≡ x.1.db
  continue-after_read (ok a, w) f k h = (k a).at w h
  continue-after_read (err e, w) f k h = refl

  -- Reads in front of an atomic action.
  pub Atomic-bind :
      {m : Session D A} {f : A → Session D B}
      → Reads m
      → ((a : A) → Atomic (f a))
      → Atomic (m >>= f)
  unfolding ◌>>=◌
  Atomic-bind {m} {f} r k = record { at = λ w h. continue-after_read (m w) f k h ∙ r.at w }

  continue-before-Total :
      (x : Result A × World D) (f : A → Session D B) (db : Db D) {e : Error}
      → ((e' : Error) → x.0 ≡ err e' → x.1.db ≡ db)
      → ((a : A) → Total (f a))
      → (continue x.0 f x.1).0 ≡ err e
      → (continue x.0 f x.1).1.db ≡ db
  continue-before-Total (ok a, w) f db p k h = let (b, eq) = (k a).at w in absurd cc
  continue-before-Total (err e, w) f db p k h = p e refl

  -- An action that gives no error after an atomic one.
  pub Atomic-then :
      {m : Session D A} {f : A → Session D B}
      → Atomic m
      → ((a : A) → Total (f a))
      → Atomic (m >>= f)
  unfolding ◌>>=◌
  Atomic-then {m} {f} c k = record {
    at = λ w h. continue-before-Total (m w) f w.db (λ e' h'. c.at w h') k h;
  }

module _ {D : Type 0} where
  pub Reads-new_uuid : Reads {D = D} new_uuid
  unfolding new_uuid
  Reads-new_uuid = record { at = λ w. refl }

  pub Reads-now : Reads {D = D} now
  unfolding now
  Reads-now = record { at = λ w. refl }

module _ {D A : Type 0} where
  pub Reads-caught : {m : Session D A} → Reads m → Reads (caught m)
  unfolding caught
  Reads-caught r = record { at = r.at }

  pub Total-pure : (a : A) → Total {D = D} (pure a)
  unfolding pure
  Total-pure a = record { at = λ w. (a, refl) }

  pub Atomic-run_statement : (f : Db D → Result (A × Db D)) → Atomic (run_statement f)
  unfolding run_statement
  Atomic-run_statement f = record { at = λ w h. unchanged w (f w.db) h }
    where
      unchanged :
          (w : World D) (r : Result (A × Db D)) {e : Error}
          → (store w r).0 ≡ err e
          → (store w r).1.db ≡ w.db
      unchanged w (ok (a, db)) h = cc
      unchanged w (err e) h = refl

  -- A statement that is refused has done nothing.
  pub Atomic-statement : (f : Db D → Result (A × Db D)) → Atomic (statement f)
  unfolding statement driver_call
  Atomic-statement f = Atomic-bind (record { at = λ w. refl }) λ _. Atomic-run_statement f

module _ {A : Type 0} where
  map_result-err :
      (f : Error → Error) (r : Result A) {e : Error}
      → map_result f r ≡ err e
      → (e' : Error) × (r ≡ err e')
  map_result-err f (ok a) h = cc
  map_result-err f (err e') h = (e', refl)

module _ {D A : Type 0} where
  pub Reads-query : (f : Db D → A) → Reads (query f)
  unfolding query driver_call gets
  Reads-query f = Reads-bind (record { at = λ w. refl }) λ _. record { at = λ w. refl }

  pub Atomic-map_error : (f : Error → Error) {m : Session D A} → Atomic m → Atomic (map_error f m)
  unfolding map_error
  Atomic-map_error f {m} c = record { at = λ w h. c.at w (map_result-err f (m w).0 h).1 }

  pub Atomic-transact : (m : Session D A) → Atomic (transact m)
  Atomic-transact m = record { at = λ w h. transact_error m w h }

  pub Atomic-elim :
      {m : Session D A} {w w' : World D} {e : Error} → Atomic m → m w ≡ (err e, w') → w'.db ≡ w.db
  Atomic-elim {w} {e} c h = sym (λ i. (h i).1.db) ∙ c.at w {e = e} (λ i. (h i).0)
