-- ===== src/Session/Sent.antt =====
-- The session: actions that ask nothing of the payment provider, whether they return or fail.
use grey_backend_assessment.Prelude.{◌≡◌, ◌∙◌, refl, Bool, true, false, Option, none, some}
use grey_backend_assessment.Domain.{Error}
use grey_backend_assessment.Session.{
  Db, World, Result, ok, err, Session, pure, lift, gets, or_not_found, deref, map_error, continue,
  ◌>>=◌, skip, raise_if, driver_call, new_uuid, now, store, run_statement, statement, query, commit,
  finish, begin, transact,
}

pub record KeepsSent {D A : Type 0} (m : Session D A) : Type 0 where
  pub at : (w : World D) → (m w).1.sent ≡ w.sent

module _ {D A : Type 0} where
  pub KeepsSent-pure : (a : A) → KeepsSent {D = D} (pure a)
  unfolding pure
  KeepsSent-pure a = record { at = λ w. refl }

  pub KeepsSent-lift : (r : Result A) → KeepsSent {D = D} (lift r)
  unfolding lift
  KeepsSent-lift r = record { at = λ w. refl }

  pub KeepsSent-gets : (f : World D → A) → KeepsSent (gets f)
  unfolding gets
  KeepsSent-gets f = record { at = λ w. refl }

  pub KeepsSent-or_not_found : (o : Option A) → KeepsSent {D = D} (or_not_found o)
  unfolding or_not_found
  KeepsSent-or_not_found none = record { at = λ w. refl }
  KeepsSent-or_not_found (some a) = record { at = λ w. refl }

  pub KeepsSent-deref : (o : Option A) → KeepsSent {D = D} (deref o)
  unfolding deref
  KeepsSent-deref none = record { at = λ w. refl }
  KeepsSent-deref (some a) = record { at = λ w. refl }

  pub KeepsSent-map_error :
      (f : Error → Error) {m : Session D A} → KeepsSent m → KeepsSent (map_error f m)
  unfolding map_error
  KeepsSent-map_error f k = record { at = k.at }

module _ {D A B : Type 0} where
  continue-sent :
      (x : Result A × World D) (f : A → Session D B)
      → ((a : A) → KeepsSent (f a))
      → (continue x.0 f x.1).1.sent ≡ x.1.sent
  continue-sent (ok a, w) f k = (k a).at w
  continue-sent (err e, w) f k = refl

  pub KeepsSent-bind :
      {m : Session D A} {f : A → Session D B}
      → KeepsSent m
      → ((a : A) → KeepsSent (f a))
      → KeepsSent (m >>= f)
  unfolding ◌>>=◌
  KeepsSent-bind {m} {f} k l = record { at = λ w. continue-sent (m w) f l ∙ k.at w }

module _ {D : Type 0} where
  pub KeepsSent-skip : KeepsSent {D = D} skip
  unfolding skip
  KeepsSent-skip = record { at = λ w. refl }

  pub KeepsSent-raise_if : (b : Bool) (e : Error) → KeepsSent {D = D} (raise_if b e)
  unfolding raise_if
  KeepsSent-raise_if true e = record { at = λ w. refl }
  KeepsSent-raise_if false e = record { at = λ w. refl }

  pub KeepsSent-driver_call : KeepsSent {D = D} driver_call
  unfolding driver_call
  KeepsSent-driver_call = record { at = λ w. refl }

  pub KeepsSent-new_uuid : KeepsSent {D = D} new_uuid
  unfolding new_uuid
  KeepsSent-new_uuid = record { at = λ w. refl }

  pub KeepsSent-now : KeepsSent {D = D} now
  unfolding now
  KeepsSent-now = record { at = λ w. refl }

module _ {D A : Type 0} where
  store-sent : (w : World D) (r : Result (A × Db D)) → (store w r).1.sent ≡ w.sent
  store-sent w (ok _) = refl
  store-sent w (err e) = refl

  pub KeepsSent-statement : (f : Db D → Result (A × Db D)) → KeepsSent (statement f)
  unfolding statement run_statement
  KeepsSent-statement f =
      KeepsSent-bind KeepsSent-driver_call λ _. record { at = λ w. store-sent w (f w.db) }

  pub KeepsSent-query : (f : Db D → A) → KeepsSent (query f)
  unfolding query
  KeepsSent-query f = KeepsSent-bind KeepsSent-driver_call λ _. KeepsSent-gets _

  commit-sent : (db : Db D) (a : A) (x : Result Unit × World D) → (commit db a x).1.sent ≡ x.1.sent
  commit-sent db a (ok _, w) = refl
  commit-sent db a (err e, w) = refl

  finish-sent : (db : Db D) (x : Result A × World D) → (finish db x).1.sent ≡ x.1.sent
  finish-sent db (ok a, w) = commit-sent db a (driver_call w) ∙ KeepsSent-driver_call.at w
  finish-sent db (err e, w) = refl

  begin-sent :
      (db : Db D) {m : Session D A} (x : Result Unit × World D)
      → KeepsSent m
      → (begin m db x).1.sent ≡ x.1.sent
  begin-sent db {m} (ok _, w) k = finish-sent db (m w) ∙ k.at w
  begin-sent db (err e, w) k = refl

  pub KeepsSent-transact : {m : Session D A} → KeepsSent m → KeepsSent (transact m)
  unfolding transact
  KeepsSent-transact {m} k = record {
    at = λ w. begin-sent w.db (driver_call w) k ∙ KeepsSent-driver_call.at w;
  }
