-- ===== src/Session/Panics.antt =====
-- The session: actions that never end in a panic, and actions that always return.
use grey_backend_assessment.Prelude.{
  ◌≡◌, refl, Bool, true, false, Option, none, some, if◌then◌else◌, Bool-cases, inl, inr,
}
use grey_backend_assessment.Domain.{Error}
use grey_backend_assessment.Session.{
  Db, World, Result, ok, err, Session, pure, lift, gets, or_not_found, deref, map_error, map_result,
  continue, ◌>>=◌, skip, raise_if, is_panic, driver_call, new_uuid, now, store, run_statement,
  statement, query, commit, finish, begin, transact, caught, settle, attempt,
}
use grey_backend_assessment.Session.Laws.{Ensures, Ensures-elim}
use grey_backend_assessment.Session.Atomic.{Total}

abbrev pub panics : {A : Type 0} → Result A → Bool
panics (ok a) = false
panics (err e) = is_panic e

pub record NeverPanics {D A : Type 0} (m : Session D A) : Type 0 where
  pub at : (w : World D) → panics (m w).0 ≡ false

mapped :
    {A : Type 0} (f : Error → Error) (r : Result A)
    → ((e : Error) → is_panic e ≡ false → is_panic (f e) ≡ false)
    → panics r ≡ false
    → panics (map_result f r) ≡ false
mapped f (ok a) keeps h = refl
mapped f (err e) keeps h = keeps e h

module _ {D A : Type 0} where
  pub NeverPanics-pure : (a : A) → NeverPanics {D = D} (pure a)
  unfolding pure
  NeverPanics-pure a = record { at = λ w. refl }

  pub NeverPanics-lift : (r : Result A) → panics r ≡ false → NeverPanics {D = D} (lift r)
  unfolding lift
  NeverPanics-lift r h = record { at = λ w. h }

  pub NeverPanics-gets : (f : World D → A) → NeverPanics (gets f)
  unfolding gets
  NeverPanics-gets f = record { at = λ w. refl }

  pub NeverPanics-or_not_found : (o : Option A) → NeverPanics {D = D} (or_not_found o)
  unfolding or_not_found
  NeverPanics-or_not_found none = record { at = λ w. refl }
  NeverPanics-or_not_found (some a) = record { at = λ w. refl }

  pub NeverPanics-map_error :
      (f : Error → Error) {m : Session D A}
      → ((e : Error) → is_panic e ≡ false → is_panic (f e) ≡ false)
      → NeverPanics m
      → NeverPanics (map_error f m)
  unfolding map_error
  NeverPanics-map_error f {m} keeps k = record { at = λ w. mapped f (m w).0 keeps (k.at w) }

-- One error in place of another, neither a panic.
pub replaced :
    (b : Bool) (wanted e : Error)
    → is_panic wanted ≡ false
    → is_panic e ≡ false
    → is_panic (if b then wanted else e) ≡ false
replaced true wanted e h k = h
replaced false wanted e h k = k

module _ {D A B : Type 0} where
  continued :
      (x : Result A × World D) (f : A → Session D B)
      → panics x.0 ≡ false
      → ((a : A) (w : World D) → x ≡ (ok a, w) → NeverPanics (f a))
      → panics (continue x.0 f x.1).0 ≡ false
  continued (ok a, w) f h k = (k a w refl).at w
  continued (err e, w) f h k = h

  pub NeverPanics-bind :
      {m : Session D A} {f : A → Session D B}
      → NeverPanics m
      → ((a : A) → NeverPanics (f a))
      → NeverPanics (m >>= f)
  unfolding ◌>>=◌
  NeverPanics-bind {m} {f} k l = record { at = λ w. continued (m w) f (k.at w) (λ a w' _. l a) }

  -- The rest may use what the first action ensures.
  pub NeverPanics-bind_ensures :
      {m : Session D A} {f : A → Session D B} (Q : A → Type 0)
      → NeverPanics m
      → ((w : World D) → Ensures m w (λ a _. Q a))
      → ((a : A) → Q a → NeverPanics (f a))
      → NeverPanics (m >>= f)
  unfolding ◌>>=◌
  NeverPanics-bind_ensures {m} {f} Q k e l = record {
    at = λ w. continued (m w) f (k.at w) (λ a w' h. l a (Ensures-elim (e w) h));
  }

  -- A pointer that is not nil is read.
  pub NeverPanics-bind_deref :
      (o : Option A) {f : A → Session D B}
      → (a : A) × (o ≡ some a)
      → ((a : A) → NeverPanics (f a))
      → NeverPanics (deref o >>= f)
  unfolding deref ◌>>=◌
  NeverPanics-bind_deref none there k = let (a, e) = there in absurd cc
  NeverPanics-bind_deref (some a) there k = record { at = λ w. (k a).at w }

module _ {D : Type 0} where
  pub NeverPanics-skip : NeverPanics {D = D} skip
  unfolding skip
  NeverPanics-skip = record { at = λ w. refl }

  pub NeverPanics-raise_if :
      (b : Bool) (e : Error) → is_panic e ≡ false → NeverPanics {D = D} (raise_if b e)
  unfolding raise_if
  NeverPanics-raise_if true e h = record { at = λ w. h }
  NeverPanics-raise_if false e h = record { at = λ w. refl }

  pub NeverPanics-driver_call : NeverPanics {D = D} driver_call
  unfolding driver_call
  NeverPanics-driver_call = record {
    at = λ w. elim (Bool-cases (w.env.fails w.tick)) [ inl f ↦ rw f refl | inr f ↦ rw f refl ];
  }

  pub NeverPanics-new_uuid : NeverPanics {D = D} new_uuid
  unfolding new_uuid
  NeverPanics-new_uuid = record { at = λ w. refl }

  pub NeverPanics-now : NeverPanics {D = D} now
  unfolding now
  NeverPanics-now = record { at = λ w. refl }

module _ {D A : Type 0} where
  stored : (w : World D) (r : Result (A × Db D)) → panics r ≡ false → panics (store w r).0 ≡ false
  stored w (ok (a, db)) h = refl
  stored w (err e) h = h

  pub NeverPanics-statement :
      (f : Db D → Result (A × Db D))
      → ((db : Db D) → panics (f db) ≡ false)
      → NeverPanics (statement f)
  unfolding statement run_statement
  NeverPanics-statement f h =
      NeverPanics-bind NeverPanics-driver_call λ _. record { at = λ w. stored w (f w.db) (h w.db) }

  pub NeverPanics-query : (f : Db D → A) → NeverPanics (query f)
  unfolding query
  NeverPanics-query f = NeverPanics-bind NeverPanics-driver_call λ _. NeverPanics-gets _

  committed :
      (db : Db D) (a : A) (x : Result Unit × World D)
      → panics x.0 ≡ false
      → panics (commit db a x).0 ≡ false
  committed db a (ok _, w) h = refl
  committed db a (err e, w) h = h

  finished :
      (db : Db D) (x : Result A × World D) → panics x.0 ≡ false → panics (finish db x).0 ≡ false
  finished db (ok a, w) h = committed db a (driver_call w) (NeverPanics-driver_call.at w)
  finished db (err e, w) h = h

  begun :
      (body : Session D A) (db : Db D) (x : Result Unit × World D)
      → NeverPanics body
      → panics x.0 ≡ false
      → panics (begin body db x).0 ≡ false
  begun body db (ok _, w) k h = finished db (body w) (k.at w)
  begun body db (err e, w) k h = h

  pub NeverPanics-transact : {body : Session D A} → NeverPanics body → NeverPanics (transact body)
  unfolding transact
  NeverPanics-transact {body} k = record {
    at = λ w. begun body w.db (driver_call w) k (NeverPanics-driver_call.at w);
  }

  settled :
      (r : Result A) (w : World D) → panics r ≡ false → (x : Result A) × ((settle r w).0 ≡ ok x)
  unfolding settle
  settled (ok a) w h = (ok a, refl)
  settled (err e) w h = (err e, rw h refl)

  -- An error is looked at, and there is no panic to pass through.
  pub Total-attempt : {m : Session D A} → NeverPanics m → Total (attempt m)
  unfolding attempt
  Total-attempt {m} k = record { at = λ w. settled (m w).0 (m w).1 (k.at w) }

  pub Total-caught : (m : Session D A) → Total (caught m)
  unfolding caught
  Total-caught m = record { at = λ w. ((m w).0, refl) }

module _ {D A B : Type 0} where
  onward :
      (x : Result A × World D) (f : A → Session D B)
      → (a : A) × (x.0 ≡ ok a)
      → ((a : A) → Total (f a))
      → (b : B) × ((continue x.0 f x.1).0 ≡ ok b)
  onward (ok a, w) f there k = (k a).at w
  onward (err e, w) f there k = let (a, h) = there in absurd cc

  pub Total-bind :
      {m : Session D A} {f : A → Session D B} → Total m → ((a : A) → Total (f a)) → Total (m >>= f)
  unfolding ◌>>=◌
  Total-bind {m} {f} k l = record { at = λ w. onward (m w) f (k.at w) l }

module _ {D : Type 0} where
  pub Total-now : Total {D = D} now
  unfolding now
  Total-now = record { at = λ w. (w.env.time_at w.tick, refl) }

  pub Total-new_uuid : Total {D = D} new_uuid
  unfolding new_uuid
  Total-new_uuid = record { at = λ w. (w.env.uuids w.drawn, refl) }

module _ {D A B : Type 0} where
  -- An error is taken as a value, which is no panic.
  pub NeverPanics-bind_caught :
      {m : Session D A} {f : Result A → Session D B}
      → NeverPanics m
      → ((r : Result A) → panics r ≡ false → NeverPanics (f r))
      → NeverPanics (caught m >>= f)
  unfolding caught ◌>>=◌
  NeverPanics-bind_caught {m} {f} k l = record { at = λ w. (l (m w).0 (k.at w)).at (m w).1 }
