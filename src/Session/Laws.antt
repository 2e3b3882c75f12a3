-- ===== src/Session/Laws.antt =====
-- The session: what holds after an action that returned, one rule for each way to build an action,
-- and that a transaction which fails leaves the tables as they were.
pub mod Tables
use mathlib.Core.Path.{subst}
use grey_backend_assessment.Prelude.{
  ℕ, ◌≡◌, ◌+◌, ◌∙◌, refl, ap, sym, Bool, true, false, Option, none, some, Bool-cases, inl, inr,
}
use grey_backend_assessment.Domain.{Error}
use grey_backend_assessment.Session.{
  Db, World, Result, ok, err, Session, pure, raise, lift, gets, or_not_found, deref, map_error,
  map_result, continue, ◌>>=◌, skip, raise_if, driver_call, new_uuid, now, store, run_statement,
  statement, query, commit, finish, begin, transact,
}

-- `Q` holds of a result and the state beside it, unless the result is an error.
abbrev pub Holds : {D A : Type 0} → (A → World D → Type 0) → Result A × World D → Type 0
Holds Q (ok a, w) = Q a w
Holds Q (err e, w) = Unit

-- If `m`, begun at `w`, returns, then `Q` holds of its result and of the state that it leaves.
pub record Ensures {D A : Type 0} (m : Session D A) (w : World D) (Q : A → World D → Type 0)
    : Type 0 where
  pub at : Holds Q (m w)

module _ {D A : Type 0} (Q : A → World D → Type 0) where
  Holds-map_result :
      (f : Error → Error) (x : Result A × World D) → Holds Q x → Holds Q (map_result f x.0, x.1)
  Holds-map_result f (ok a, w') h = h
  Holds-map_result f (err e, w') h = tt

  -- What holds may be weakened.
  Holds-mono :
      (P : A → World D → Type 0) (x : Result A × World D)
      → Holds P x
      → ((a : A) (w' : World D) → P a w' → Q a w')
      → Holds Q x
  Holds-mono P (ok a, w') h k = k a w' h
  Holds-mono P (err e, w') h k = tt

  pub Holds-store :
      (v : World D) (r : Result (A × Db D))
      → ((a : A) (db : Db D) → r ≡ ok (a, db) → Q a (record v { db = db }))
      → Holds Q (store v r)
  Holds-store v (ok (a, db)) k = k a db refl
  Holds-store v (err e) k = tt

  Holds-commit : (db : Db D) (a : A) (x : Result Unit × World D) → Q a x.1 → Holds Q (commit db a x)
  Holds-commit db a (ok _, v) q = q
  Holds-commit db a (err e, v) q = tt

  Holds-finish :
      (db : Db D) (x : Result A × World D)
      → Holds Q x
      → ((a : A) (v : World D) → Q a v → Q a (driver_call v).1)
      → Holds Q (finish db x)
  Holds-finish db (ok a, v) q k = Holds-commit db a (driver_call v) (k a v q)
  Holds-finish db (err e, v) q k = tt

  pub Holds-begin :
      (db : Db D) (m : Session D A) (x : Result Unit × World D)
      → Ensures m x.1 Q
      → ((a : A) (v : World D) → Q a v → Q a (driver_call v).1)
      → Holds Q (begin m db x)
  Holds-begin db m (ok _, v) q k = Holds-finish db (m v) q.at k
  Holds-begin db m (err e, v) q k = tt

module _ {D A B : Type 0} (P : A → World D → Type 0) (Q : B → World D → Type 0) where
  Holds-continue :
      (x : Result A × World D) (f : A → Session D B)
      → Holds P x
      → ((a : A) (w' : World D) → P a w' → Ensures (f a) w' Q)
      → Holds Q (continue x.0 f x.1)
  Holds-continue (ok a, w') f h k = (k a w' h).at
  Holds-continue (err e, w') f h k = tt

module _ {D A : Type 0} {w : World D} {Q : A → World D → Type 0} where
  pub Ensures-elim :
      {m : Session D A} {a : A} {w' : World D} → Ensures m w Q → m w ≡ (ok a, w') → Q a w'
  Ensures-elim e h = subst (Holds Q) h e.at

  pub Ensures-pure : (a : A) → Q a w → Ensures (pure a) w Q
  unfolding pure
  Ensures-pure a q = record { at = q }

  pub Ensures-gets : (f : World D → A) → Q (f w) w → Ensures (gets f) w Q
  unfolding gets
  Ensures-gets f q = record { at = q }

  pub Ensures-or_not_found :
      (o : Option A) → ((a : A) → o ≡ some a → Q a w) → Ensures (or_not_found o) w Q
  unfolding or_not_found
  Ensures-or_not_found none q = record { at = tt }
  Ensures-or_not_found (some a) q = record { at = q a refl }

  pub Ensures-map_error :
      (f : Error → Error) {m : Session D A} → Ensures m w Q → Ensures (map_error f m) w Q
  unfolding map_error
  Ensures-map_error f {m} e = record { at = Holds-map_result Q f (m w) e.at }

  pub Ensures-mono :
      {P : A → World D → Type 0} {m : Session D A}
      → Ensures m w P
      → ((a : A) (w' : World D) → P a w' → Q a w')
      → Ensures m w Q
  Ensures-mono {P} {m} e k = record { at = Holds-mono Q P (m w) e.at k }

module _ {D A B : Type 0} {w : World D} {P : A → World D → Type 0} {Q : B → World D → Type 0} where
  pub Ensures-bind :
      {m : Session D A} {f : A → Session D B}
      → Ensures m w P
      → ((a : A) (w' : World D) → P a w' → Ensures (f a) w' Q)
      → Ensures (m >>= f) w Q
  unfolding ◌>>=◌
  Ensures-bind {m} {f} e k = record { at = Holds-continue P Q (m w) f e.at k }

-- Only the tables and the count of driver calls may differ.
abbrev pub SameRun : {D : Type 0} → World D → World D → Type 0
SameRun w w' = (w'.env ≡ w.env) × (w'.drawn ≡ w.drawn) × (w'.sent ≡ w.sent)

-- Only the count of driver calls may differ.
abbrev pub SameDb : {D : Type 0} → World D → World D → Type 0
SameDb w w' = (w'.db ≡ w.db) × SameRun w w'

pub SameRun-trans : {D : Type 0} (u v w : World D) → SameRun u v → SameRun v w → SameRun u w
SameRun-trans u v w s t = (t.0 ∙ s.0, t.1 ∙ s.1, t.2 ∙ s.2)

pub SameDb-trans : {D : Type 0} (u v w : World D) → SameDb u v → SameDb v w → SameDb u w
SameDb-trans u v w s t = (t.0 ∙ s.0, SameRun-trans u v w s.1 t.1)

pub SameDb-of_eq : {D : Type 0} {v w : World D} → w ≡ v → SameDb v w
SameDb-of_eq p = (λ i. (p i).db, (λ i. (p i).env, λ i. (p i).drawn, λ i. (p i).sent))

pub driver_call-SameDb : {D : Type 0} (w : World D) → SameDb w (driver_call w).1
unfolding driver_call
driver_call-SameDb w = (refl, (refl, refl, refl))

module _ {D : Type 0} {w : World D} where
  pub Ensures-raise_if :
      (b : Bool) (e : Error) → Ensures (raise_if b e) w (λ _ w'. (b ≡ false) × (w' ≡ w))
  unfolding raise_if
  Ensures-raise_if true e = record { at = tt }
  Ensures-raise_if false e = record { at = (refl, refl) }

  pub Ensures-skip : Ensures skip w (λ _ w'. w' ≡ w)
  unfolding skip
  Ensures-skip = record { at = refl }

  pub Ensures-driver_call : Ensures driver_call w (λ _ w'. SameDb w w')
  unfolding driver_call
  Ensures-driver_call = elim (Bool-cases (w.env.fails w.tick)) [
    | inl p ↦ record { at = rw p tt }
    | inr p ↦ record { at = rw p (refl, (refl, refl, refl)) }
  ]

-- The actions that leave the world alone, or draw an identifier, in front of another action.
module _ {D B : Type 0} {w : World D} {Q : B → World D → Type 0} where
  pub Ensures-bind-now :
      {f : ℕ → Session D B}
      → ((t : ℕ) → t ≡ w.env.time_at w.tick → Ensures (f t) w Q)
      → Ensures (now >>= f) w Q
  unfolding now ◌>>=◌
  Ensures-bind-now k = record { at = (k _ refl).at }

  pub Ensures-bind-new_uuid :
      {f : ℕ → Session D B}
      → ((id : ℕ) → id ≡ w.env.uuids w.drawn → Ensures (f id) (record w { drawn = w.drawn + 1 }) Q)
      → Ensures (new_uuid >>= f) w Q
  unfolding new_uuid ◌>>=◌
  Ensures-bind-new_uuid k = record { at = (k _ refl).at }

  pub Ensures-bind-raise_if :
      (b : Bool) (e : Error) {f : Unit → Session D B}
      → ((u : Unit) → b ≡ false → Ensures (f u) w Q)
      → Ensures (raise_if b e >>= f) w Q
  unfolding raise_if ◌>>=◌
  Ensures-bind-raise_if true e k = record { at = tt }
  Ensures-bind-raise_if false e k = record { at = (k tt refl).at }

module _ {D A B : Type 0} {w : World D} {Q : B → World D → Type 0} where
  pub Ensures-bind-gets :
      (g : World D → A) {f : A → Session D B}
      → ((a : A) → a ≡ g w → Ensures (f a) w Q)
      → Ensures (gets g >>= f) w Q
  unfolding gets ◌>>=◌
  Ensures-bind-gets g k = record { at = (k _ refl).at }

  pub Ensures-bind-lift :
      (r : Result A) {f : A → Session D B}
      → ((a : A) → r ≡ ok a → Ensures (f a) w Q)
      → Ensures (lift r >>= f) w Q
  unfolding lift ◌>>=◌
  Ensures-bind-lift (ok a) k = record { at = (k a refl).at }
  Ensures-bind-lift (err e) k = record { at = tt }

  pub Ensures-bind-deref :
      (o : Option A) {f : A → Session D B}
      → ((a : A) → o ≡ some a → Ensures (f a) w Q)
      → Ensures (deref o >>= f) w Q
  unfolding deref ◌>>=◌
  Ensures-bind-deref none k = record { at = tt }
  Ensures-bind-deref (some a) k = record { at = (k a refl).at }
