-- ===== src/Session/Runs.antt =====
-- The session: actions that return, one rule for each way to build an action, in an environment in
-- which no call of the driver fails.
use grey_backend_assessment.Prelude.{◌≡◌, ◌∙◌, refl, ◌+◌, Bool, false, Option, some, ℕ}
use grey_backend_assessment.Domain.{Error}
use grey_backend_assessment.Session.{
  Db, Env, World, Result, ok, Session, pure, lift, gets, or_not_found, deref, map_error, ◌>>=◌,
  raise_if, driver_call, new_uuid, now, run_statement, statement, query, commit, transact,
}

-- The action returns.
pub record Returns {D A : Type 0} (m : Session D A) (w : World D) : Type 0 where
  pub result : A
  pub after : World D
  pub runs : m w ≡ (ok result, after)
  pub same_env : after.env ≡ w.env

-- No call of the driver fails.
abbrev pub IsCalm : Env → Type 0
IsCalm env = (n : ℕ) → env.fails n ≡ false

module _ {D A : Type 0} {w : World D} where
  pub Returns-pure : (a : A) → Returns (pure a) w
  unfolding pure
  Returns-pure a = record { result = a; after = w; runs = refl; same_env = refl }

  pub Returns-map_error :
      (f : Error → Error) {m : Session D A} → Returns m w → Returns (map_error f m) w
  unfolding map_error
  Returns-map_error f {m} r = record {
    result = r.result;
    after = r.after;
    runs = rw (r.runs) refl;
    same_env = r.same_env;
  }

  pub map_error-runs :
      (f : Error → Error) (m : Session D A) {a : A} {v : World D}
      → m w ≡ (ok a, v)
      → map_error f m w ≡ (ok a, v)
  unfolding map_error
  map_error-runs f m h = rw h refl

  pub lift-runs : (r : Result A) {a : A} → r ≡ ok a → lift r w ≡ (ok a, w)
  unfolding lift
  lift-runs r h = rw h refl

  pub deref-runs : (o : Option A) {a : A} → o ≡ some a → deref o w ≡ (ok a, w)
  unfolding deref
  deref-runs o h = rw h refl

  pub or_not_found-runs : (o : Option A) {a : A} → o ≡ some a → or_not_found o w ≡ (ok a, w)
  unfolding or_not_found
  or_not_found-runs o h = rw h refl

module _ {D A B : Type 0} {w v : World D} where
  pub bind-runs :
      (m : Session D A) (f : A → Session D B) {a : A} → m w ≡ (ok a, v) → (m >>= f) w ≡ f a v
  unfolding ◌>>=◌
  bind-runs m f h = rw h refl

  pub Returns-bind :
      (m : Session D A) (f : A → Session D B) {a : A}
      → m w ≡ (ok a, v)
      → v.env ≡ w.env
      → Returns (f a) v
      → Returns (m >>= f) w
  Returns-bind m f h e r = record {
    result = r.result;
    after = r.after;
    runs = bind-runs m f h ∙ r.runs;
    same_env = r.same_env ∙ e;
  }

module _ {D : Type 0} (w : World D) where
  pub now-runs : now w ≡ (ok (w.env.time_at w.tick), w)
  unfolding now
  now-runs = refl

  pub new_uuid-runs : new_uuid w ≡ (ok (w.env.uuids w.drawn), record w { drawn = w.drawn + 1 })
  unfolding new_uuid
  new_uuid-runs = refl

module _ {D : Type 0} {w : World D} where
  pub raise_if-runs : (b : Bool) (e : Error) → b ≡ false → raise_if b e w ≡ (ok tt, w)
  unfolding raise_if
  raise_if-runs b e h = rw h refl

module _ {D : Type 0} (w : World D) (calm : IsCalm w.env) where
  pub driver_call-runs : driver_call w ≡ (ok tt, record w { tick = w.tick + 1 })
  unfolding driver_call
  driver_call-runs = rw (calm w.tick) refl

  module _ {A : Type 0} where
    pub query-runs : (f : Db D → A) → query f w ≡ (ok (f w.db), record w { tick = w.tick + 1 })
    unfolding query gets
    query-runs f = bind-runs driver_call _ driver_call-runs

    pub statement-runs :
        (f : Db D → Result (A × Db D)) {a : A} {db : Db D}
        → f w.db ≡ ok (a, db)
        → statement f w ≡ (ok a, record w { db = db; tick = w.tick + 1 })
    unfolding statement run_statement
    statement-runs f h = bind-runs driver_call _ driver_call-runs ∙ rw h refl

  -- A query for a row that is there.
  pub lookup-runs :
      {A : Type 0} (f : Db D → Option A) {a : A}
      → f w.db ≡ some a
      → (query f >>= or_not_found) w ≡ (ok a, record w { tick = w.tick + 1 })
  lookup-runs f h = bind-runs (query f) or_not_found (query-runs f) ∙ or_not_found-runs _ h

module _ {D A : Type 0} (w : World D) (calm : IsCalm w.env) where
  commit-runs :
      (db : Db D) (a : A) (v : World D)
      → IsCalm v.env
      → commit db a (driver_call v) ≡ (ok a, record v { tick = v.tick + 1 })
  commit-runs db a v c = rw (driver_call-runs v c) refl

  -- A transaction whose body returns.
  pub Returns-transact :
      (m : Session D A) → Returns m (record w { tick = w.tick + 1 }) → Returns (transact m) w
  unfolding transact
  Returns-transact m r = record {
    result = r.result;
    after = record r.after { tick = r.after.tick + 1 };
    runs =
        rw (driver_call-runs w calm)
          (rw (r.runs) (commit-runs w.db r.result r.after (calm_at r.same_env)));
    same_env = r.same_env;
  }
    where
      calm_at : {env : Env} → env ≡ w.env → IsCalm env
      calm_at e n = rw e (calm n)
