-- ===== src/Session.antt =====
-- What a request handler works with: the tables of the database (migrations/), the driver and the
-- sources of identifiers and of time. A call that may fail is an action on that state; its error
-- comes back beside the state that it left.
pub mod Laws
pub mod Sent
pub mod Atomic
pub mod Preserves
pub mod Panics
pub mod Runs
use grey_backend_assessment.Prelude.{
  ℕ, zero, suc, ◌+◌, String, Bool, true, false, Option, none, some, List, [], ◌∷◌, if◌then◌else◌,
}
use grey_backend_assessment.Prelude.Int.{ℤ}
use grey_backend_assessment.Domain.{
  Currency, Uuid, Time, Account, Payment, LedgerEntry, PaymentEvent, WebhookEvent, User, Error,
  driver_error, not_found, nil_dereference,
}

-- repository.IdempotencyCacheEntry
pub record IdempotencyCacheEntry : Type 0 where
  pub key : String
  pub user_id : Uuid
  pub request_hash : String
  pub status_code : ℕ
  pub response_body : String
  pub created_at : Time
  pub expires_at : Time

-- payment.ProviderRequest: what the payment provider is asked to pay out.
pub record ProviderRequest : Type 0 where
  pub payment_id : Uuid
  pub amount : ℤ
  pub currency : Currency
  pub dest_iban : String
  pub dest_bank_name : String

-- The tables.
pub record Db (D : Type 0) : Type 0 where
  pub users : List User
  pub accounts : List Account
  pub payments : List (Payment D)
  pub ledger_entries : List LedgerEntry
  pub payment_events : List PaymentEvent
  pub webhook_events : List WebhookEvent
  pub idempotency_cache : List IdempotencyCacheEntry

-- What the program does not decide: which calls of the driver fail, the identifiers that uuid.New
-- draws, the clock, and the order of uuid.String() texts.
pub record Env : Type 0 where
  pub fails : ℕ → Bool
  pub uuids : ℕ → Uuid
  pub time_at : ℕ → Time
  pub string_less : Uuid → Uuid → Bool

-- `tick` counts the calls of the driver, `drawn` the identifiers; `sent` is what the provider has
-- been asked, the latest request first.
pub record World (D : Type 0) : Type 0 where
  pub db : Db D
  pub env : Env
  pub tick : ℕ
  pub drawn : ℕ
  pub sent : List ProviderRequest

pub data Result (A : Type 0) : Type 0 where
  ok : A → Result A
  err : Error → Result A

abbrev pub Session : Type 0 → Type 0 → Type 0
Session D A = World D → Result A × World D

abbrev pub map_result : {A : Type 0} → (Error → Error) → Result A → Result A
map_result f (ok a) = ok a
map_result f (err e) = err (f e)

module _ {D A : Type 0} where
  unfoldable pub pure : A → Session D A
  pure a w = (ok a, w)

  unfoldable pub raise : Error → Session D A
  raise e w = (err e, w)

  unfoldable pub lift : Result A → Session D A
  lift r w = (r, w)

  unfoldable pub gets : (World D → A) → Session D A
  gets f w = (ok (f w), w)

  -- A row that SELECT may not find: sql.ErrNoRows becomes domain.ErrNotFound.
  unfoldable pub or_not_found : Option A → Session D A
  or_not_found none w = (err not_found, w)
  or_not_found (some a) w = (ok a, w)

  -- A pointer is read: nil panics.
  unfoldable pub deref : Option A → Session D A
  deref none w = (err nil_dereference, w)
  deref (some a) w = (ok a, w)

  -- The error that a caller puts in place of the one that it got.
  unfoldable pub map_error : (Error → Error) → Session D A → Session D A
  map_error f m w = let (r, w') = m w in (map_result f r, w')

module _ {D A B : Type 0} where
  abbrev pub continue : Result A → (A → Session D B) → Session D B
  continue (ok a) f w = f a w
  continue (err e) f w = (err e, w)

  infixl 10 ◌>>=◌ ◌>>◌
  unfoldable pub ◌>>=◌ : Session D A → (A → Session D B) → Session D B
  ◌>>=◌ m f w = let (r, w') = m w in continue r f w'

  abbrev pub ◌>>◌ : Session D A → Session D B → Session D B
  m >> n = m >>= λ _. n

module _ {D : Type 0} where
  unfoldable pub skip : Session D Unit
  skip w = (ok tt, w)

  unfoldable pub raise_if : Bool → Error → Session D Unit
  raise_if true e w = (err e, w)
  raise_if false e w = (ok tt, w)

  -- One call of the driver, which may fail.
  unfoldable pub driver_call : Session D Unit
  driver_call w =
      (if w.env.fails w.tick then err driver_error else ok tt, record w { tick = w.tick + 1 })

  -- uuid.New()
  unfoldable pub new_uuid : Session D Uuid
  new_uuid w = (ok (w.env.uuids w.drawn), record w { drawn = w.drawn + 1 })

  -- time.Now().UTC()
  unfoldable pub now : Session D Time
  now w = (ok (w.env.time_at w.tick), w)

-- The database as it was before the transaction.
abbrev pub rollback : {D : Type 0} → Db D → World D → World D
rollback db w = record w { db = db }

module _ {D A : Type 0} where
  abbrev pub store : World D → Result (A × Db D) → Result A × World D
  store w (ok (a, db)) = (ok a, record w { db = db })
  store w (err e) = (err e, w)

  unfoldable pub run_statement : (Db D → Result (A × Db D)) → Session D A
  run_statement f w = store w (f w.db)

  -- A statement: the driver's call, then what the database makes of it.
  unfoldable pub statement : (Db D → Result (A × Db D)) → Session D A
  statement f = driver_call >>= λ _. run_statement f

  -- A query, which reads only.
  unfoldable pub query : (Db D → A) → Session D A
  query f = driver_call >>= λ _. gets (λ w. f w.db)

  abbrev pub commit : Db D → A → Result Unit × World D → Result A × World D
  commit db a (ok _, w) = (ok a, w)
  commit db a (err e, w) = (err e, rollback db w)

  abbrev pub finish : Db D → Result A × World D → Result A × World D
  finish db (ok a, w) = commit db a (driver_call w)
  finish db (err e, w) = (err e, rollback db w)

  abbrev pub begin : Session D A → Db D → Result Unit × World D → Result A × World D
  begin body db (ok _, w) = finish db (body w)
  begin body db (err e, w) = (err e, w)

  -- BeginTx, the body, Commit, with the deferred Rollback. A Commit that fails has not taken effect.
  unfoldable pub transact : Session D A → Session D A
  transact body w = begin body w.db (driver_call w)

module _ {D : Type 0} where
  -- A call that gives its error as a value.
  unfoldable pub caught : {A : Type 0} → Session D A → Session D (Result A)
  caught m w = let (r, w') = m w in (ok r, w')

-- A panic, which a returned error is not: no `if err != nil` sees it.
abbrev pub is_panic : Error → Bool
is_panic nil_dereference = true
is_panic _ = false

module _ {D A : Type 0} where
  unfoldable pub settle : Result A → Session D (Result A)
  settle (ok a) w = (ok (ok a), w)
  settle (err e) w = (if is_panic e then err e else ok (err e), w)

  -- A call whose error the caller looks at. A panic passes through it.
  unfoldable pub attempt : Session D A → Session D (Result A)
  attempt m w = let (r, w') = m w in settle r w'
