-- ===== src/Session/Preserves.antt =====
-- The session: a relation between the tables before and after an action, whether it returns or
-- fails, for a relation that is reflexive and transitive.
use grey_backend_assessment.Prelude.{◌≡◌, refl, Bool, true, false, Option, none, some}
use grey_backend_assessment.Domain.{Error}
use grey_backend_assessment.Session.{
  Db, World, Result, ok, err, Session, pure, lift, gets, or_not_found, deref, map_error, continue,
  ◌>>=◌, skip, raise_if, driver_call, new_uuid, now, store, run_statement, statement, query, commit,
  finish, begin, transact,
}

pub record Preorder (D : Type 0) : Type 1 where
  pub R : Db D → Db D → Type 0
  pub reflexive : (db : Db D) → R db db
  pub transitive : (a b c : Db D) → R a b → R b c → R a c

pub record Preserves {D A : Type 0} (order : Preorder D) (m : Session D A) : Type 0 where
  pub at : (w : World D) → order.R w.db (m w).1.db

module _ {D : Type 0} (order : Preorder D) where
  module _ {A : Type 0} where
    pub Preserves-pure : (a : A) → Preserves order (pure a)
    unfolding pure
    Preserves-pure a = record { at = λ w. order.reflexive w.db }

    pub Preserves-lift : (r : Result A) → Preserves order (lift r)
    unfolding lift
    Preserves-lift r = record { at = λ w. order.reflexive w.db }

    pub Preserves-gets : (f : World D → A) → Preserves order (gets f)
    unfolding gets
    Preserves-gets f = record { at = λ w. order.reflexive w.db }

    pub Preserves-or_not_found : (o : Option A) → Preserves order (or_not_found o)
    unfolding or_not_found
    Preserves-or_not_found none = record { at = λ w. order.reflexive w.db }
    Preserves-or_not_found (some a) = record { at = λ w. order.reflexive w.db }

    pub Preserves-deref : (o : Option A) → Preserves order (deref o)
    unfolding deref
    Preserves-deref none = record { at = λ w. order.reflexive w.db }
    Preserves-deref (some a) = record { at = λ w. order.reflexive w.db }

    pub Preserves-map_error :
        (f : Error → Error) {m : Session D A} → Preserves order m → Preserves order (map_error f m)
    unfolding map_error
    Preserves-map_error f k = record { at = k.at }

  module _ {A B : Type 0} where
    continue-R :
        (x : Result A × World D) (f : A → Session D B) (db : Db D)
        → order.R db x.1.db
        → ((a : A) → Preserves order (f a))
        → order.R db (continue x.0 f x.1).1.db
    continue-R (ok a, w) f db r k = order.transitive _ _ _ r ((k a).at w)
    continue-R (err e, w) f db r k = r

    pub Preserves-bind :
        {m : Session D A} {f : A → Session D B}
        → Preserves order m
        → ((a : A) → Preserves order (f a))
        → Preserves order (m >>= f)
    unfolding ◌>>=◌
    Preserves-bind {m} {f} k l = record { at = λ w. continue-R (m w) f w.db (k.at w) l }

  pub Preserves-skip : Preserves order skip
  unfolding skip
  Preserves-skip = record { at = λ w. order.reflexive w.db }

  pub Preserves-raise_if : (b : Bool) (e : Error) → Preserves order (raise_if b e)
  unfolding raise_if
  Preserves-raise_if true e = record { at = λ w. order.reflexive w.db }
  Preserves-raise_if false e = record { at = λ w. order.reflexive w.db }

  pub Preserves-driver_call : Preserves order driver_call
  unfolding driver_call
  Preserves-driver_call = record { at = λ w. order.reflexive w.db }

  pub Preserves-new_uuid : Preserves order new_uuid
  unfolding new_uuid
  Preserves-new_uuid = record { at = λ w. order.reflexive w.db }

  pub Preserves-now : Preserves order now
  unfolding now
  Preserves-now = record { at = λ w. order.reflexive w.db }

  module _ {A : Type 0} where
    store-R :
        (w : World D) (r : Result (A × Db D))
        → ((a : A) (db' : Db D) → r ≡ ok (a, db') → order.R w.db db')
        → order.R w.db (store w r).1.db
    store-R w (ok (a, db')) k = k a db' refl
    store-R w (err e) k = order.reflexive w.db

    pub Preserves-statement :
        (f : Db D → Result (A × Db D))
        → ((db : Db D) (a : A) (db' : Db D) → f db ≡ ok (a, db') → order.R db db')
        → Preserves order (statement f)
    unfolding statement run_statement
    Preserves-statement f k =
        Preserves-bind Preserves-driver_call λ _. record { at = λ w. store-R w (f w.db) (k w.db) }

    pub Preserves-query : (f : Db D → A) → Preserves order (query f)
    unfolding query
    Preserves-query f = Preserves-bind Preserves-driver_call λ _. Preserves-gets _

    commit-R :
        (db : Db D) (a : A) (x : Result Unit × World D)
        → order.R db x.1.db
        → order.R db (commit db a x).1.db
    commit-R db a (ok _, w) r = r
    commit-R db a (err e, w) r = order.reflexive db

    finish-R :
        (db : Db D) (x : Result A × World D) → order.R db x.1.db → order.R db (finish db x).1.db
    finish-R db (ok a, w) r =
        commit-R db a (driver_call w) (order.transitive _ _ _ r (Preserves-driver_call.at w))
    finish-R db (err e, w) r = order.reflexive db

    begin-R :
        (db : Db D) {m : Session D A} (x : Result Unit × World D)
        → order.R db x.1.db
        → Preserves order m
        → order.R db (begin m db x).1.db
    begin-R db {m} (ok _, w) r k = finish-R db (m w) (order.transitive _ _ _ r (k.at w))
    begin-R db (err e, w) r k = r

    pub Preserves-transact : {m : Session D A} → Preserves order m → Preserves order (transact m)
    unfolding transact
    Preserves-transact {m} k = record {
      at = λ w. begin-R w.db (driver_call w) (Preserves-driver_call.at w) k;
    }
