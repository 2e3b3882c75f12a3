-- ===== src/Repository/Idempotency.antt =====
-- internal/repository/idempotency.go
use grey_backend_assessment.Prelude.{
  ℕ, String, Bool, ◌&&◌, not, Option, ◌∷◌, ◌==◌, if◌then◌else◌, str_eq, ltb, find, any, filter,
  length,
}
use grey_backend_assessment.Domain.{Uuid, Time}
use grey_backend_assessment.Session.{
  Db, IdempotencyCacheEntry, Result, ok, Session, pure, ◌>>=◌, ◌>>◌, driver_call, now, statement,
  query,
}

-- The primary key: idempotency_key, user_id.
abbrev pub has_key : String → Uuid → IdempotencyCacheEntry → Bool
has_key key user_id e = str_eq e.key key && e.user_id == user_id

module _ {D : Type 0} where
  -- A row that is not there is no error: the pointer is nil.
  unfoldable pub get : String → Uuid → Session D (Option IdempotencyCacheEntry)
  get key user_id = do
    t ← now
    query (λ db. find (λ e. has_key key user_id e && ltb t e.expires_at) db.idempotency_cache)

  -- INSERT … ON CONFLICT (idempotency_key, user_id) DO NOTHING
  unfoldable pub insert_entry : IdempotencyCacheEntry → Db D → Result (Unit × Db D)
  insert_entry e db = ok (
    tt,
    if any (has_key e.key e.user_id) db.idempotency_cache
        then db
        else record db { idempotency_cache = e ∷ db.idempotency_cache },
  )

  unfoldable pub set : IdempotencyCacheEntry → Session D Unit
  set e = statement (insert_entry e)

  -- DELETE … WHERE expires_at < now()
  unfoldable pub delete_expired : Time → Db D → Result (ℕ × Db D)
  delete_expired t db = ok (
    length (filter (λ e. ltb e.expires_at t) db.idempotency_cache),
    record db { idempotency_cache = filter (λ e. not (ltb e.expires_at t)) db.idempotency_cache },
  )

  unfoldable pub clean_expired : Session D ℕ
  clean_expired = do t ← now; n ← statement (delete_expired t); driver_call; pure n
