-- ===== src/Session/Laws/Tables.antt =====
-- The session: statements, queries and transactions.
use mathlib.Core.Path.{subst}
use grey_backend_assessment.Prelude.{◌≡◌, refl, ap, sym}
use grey_backend_assessment.Domain.{Error}
use grey_backend_assessment.Session.{
  Db, World, Result, ok, err, Session, driver_call, run_statement, statement, query, commit, finish,
  begin, transact,
}
use grey_backend_assessment.Session.Laws.{
  Ensures, Ensures-bind, Ensures-mono, Ensures-gets, Ensures-driver_call, Holds-store, Holds-begin,
  SameDb, SameRun, driver_call-SameDb,
}

module _ {D A : Type 0} {w : World D} where
  -- After a statement that returned, the table is what its effect says.
  pub Ensures-statement :
      (f : Db D → Result (A × Db D))
      → Ensures (statement f) w (λ a w'. (f w.db ≡ ok (a, w'.db)) × SameRun w w')
  unfolding statement run_statement
  Ensures-statement f =
      Ensures-bind Ensures-driver_call
        λ _ w1 s. record { at = Holds-store _ w1 (f w1.db) (λ a db h. (rw (← s.0) h, s.1)) }

  pub Ensures-query : (f : Db D → A) → Ensures (query f) w (λ a w'. (a ≡ f w.db) × SameDb w w')
  unfolding query
  Ensures-query f =
      Ensures-bind Ensures-driver_call λ _ w1 s. Ensures-gets (λ v. f v.db) (ap f s.0, s)

  -- What holds after the body of a transaction holds after it, if it speaks of what the driver
  -- leaves alone.
  pub Ensures-transact :
      {Q : A → World D → Type 0} {m : Session D A}
      → ((v : World D) → SameDb w v → Ensures m v Q)
      → ((a : A) (v v' : World D) → SameDb v v' → Q a v → Q a v')
      → Ensures (transact m) w Q
  unfolding transact
  Ensures-transact {Q} {m} e k = record {
    at =
        Holds-begin Q w.db m (driver_call w) (e _ (driver_call-SameDb w))
          (λ a v. k a v _ (driver_call-SameDb v));
  }

  -- The same for what is said of the tables before and after.
  pub Ensures-transact_db :
      (R : Db D → A → Db D → Type 0) {m : Session D A}
      → ((v : World D) → Ensures m v (λ a v'. R v.db a v'.db))
      → Ensures (transact m) w (λ a w'. R w.db a w'.db)
  Ensures-transact_db R e =
      Ensures-transact (λ v s. Ensures-mono (e v) (λ a v' r. subst (λ db. R db a v'.db) s.0 r))
        (λ a v v' s r. subst (R w.db a) (sym s.0) r)

module _ {D A : Type 0} {e : Error} where
  commit_error :
      (db : Db D) (a : A) (x : Result Unit × World D)
      → (commit db a x).0 ≡ err e
      → (commit db a x).1.db ≡ db
  commit_error db a (ok _, v) h = cc
  commit_error db a (err _, v) h = refl

  finish_error :
      (db : Db D) (x : Result A × World D) → (finish db x).0 ≡ err e → (finish db x).1.db ≡ db
  finish_error db (ok a, v) h = commit_error db a (driver_call v) h
  finish_error db (err _, v) h = refl

  begin_error :
      (db : Db D) (m : Session D A) (x : Result Unit × World D)
      → x.1.db ≡ db
      → (begin m db x).0 ≡ err e
      → (begin m db x).1.db ≡ db
  begin_error db m (ok _, v) p h = finish_error db (m v) h
  begin_error db m (err _, v) p h = p

  -- A transaction that ends in an error leaves the tables as they were.
  pub transact_error :
      (m : Session D A) (w : World D) → (transact m w).0 ≡ err e → (transact m w).1.db ≡ w.db
  unfolding transact
  transact_error m w h = begin_error w.db m (driver_call w) (driver_call-SameDb w).0 h
