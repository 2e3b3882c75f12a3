-- ===== src/Middleware/Idempotency.antt =====
-- internal/middleware/idempotency.go: a request that comes again is answered from the cache. The hash
-- (crypto/sha256, in hexadecimal) comes as an argument.
pub mod Laws
use Prim.Native.String.{◌++◌}
use grey_backend_assessment.Prelude.{
  ◌+◌, ◌*◌, ◌^◌, String, Bool, ◌||◌, not, Option, none, some, [], ◌∷◌, if◌then◌else◌, str_eq,
}
use grey_backend_assessment.Domain.{Uuid, Time}
use grey_backend_assessment.Session.{
  IdempotencyCacheEntry, World, Result, ok, err, Session, pure, now, attempt, ◌>>=◌, ◌>>◌,
}
use grey_backend_assessment.Repository.Idempotency
use grey_backend_assessment.Handler.{
  missing_idempotency_key, missing_token, invalid_request, internal_error, idempotency_conflict,
}
use grey_backend_assessment.Handler.Http.{Request, Response, HttpCodec, refuse}

-- 24 * time.Hour, in nanoseconds
abbrev pub idempotency_ttl : Time
idempotency_ttl = 24 * 3600 * 10 ^ 9

abbrev pub is_safe_method : String → Bool
is_safe_method m = str_eq m "GET" || str_eq m "HEAD" || str_eq m "OPTIONS"

-- The text is hashed that the three writes make up.
unfoldable pub compute_hash : (String → String) → String → String → String → String
compute_hash sha256 method path body = sha256 (method ++ (path ++ body))

-- The answer out of the cache.
unfoldable pub replay : IdempotencyCacheEntry → Response
replay cached = record {
  status = cached.status_code;
  headers = ("Content-Type", "application/json") ∷ ("X-Idempotent-Replayed", "true") ∷ [];
  body = cached.response_body;
}

unfoldable pub new_entry : String → Uuid → String → Response → Time → Time → IdempotencyCacheEntry
new_entry key user_id request_hash response created expires = record {
  key = key;
  user_id = user_id;
  request_hash = request_hash;
  status_code = response.status;
  response_body = response.body;
  created_at = created;
  expires_at = expires;
}

module _ {D : Type 0} where
  -- What the recorder has of an answer is stored; what storing it ends with is logged.
  unfoldable pub store_answer : String → Uuid → String → Response → Session D Response
  store_answer key user_id request_hash response = do
    created ← now
    expires ← now
    attempt (
        Idempotency.set
          (new_entry key user_id request_hash response created (expires + idempotency_ttl)))
    pure response

module _ {D : Type 0} (codec : HttpCodec D) (sha256 : String → String)
    (next : Request → Session D Response) where
  unfoldable pub run_and_store : Request → String → Uuid → String → Session D Response
  run_and_store r key user_id request_hash = next r >>= store_answer key user_id request_hash

  unfoldable pub with_cached :
      Request → String → Uuid → String → Result (Option IdempotencyCacheEntry) → Session D Response
  with_cached r key user_id request_hash (err e) = refuse codec internal_error
  with_cached r key user_id request_hash (ok none) = run_and_store r key user_id request_hash
  with_cached r key user_id request_hash (ok (some cached)) =
      if not (str_eq cached.request_hash request_hash)
      then refuse codec idempotency_conflict
      else pure (replay cached)

  unfoldable pub with_read_body : Request → String → Uuid → Option String → Session D Response
  with_read_body r key user_id none = refuse codec invalid_request
  with_read_body r key user_id (some body) =
      attempt (Idempotency.get key user_id)
      >>= with_cached r key user_id (compute_hash sha256 r.method r.path body)

  unfoldable pub with_key_user : Request → String → Option Uuid → Session D Response
  with_key_user r key none = refuse codec missing_token
  with_key_user r key (some user_id) = with_read_body r key user_id r.body

  unfoldable pub idempotency : Request → Session D Response
  idempotency r =
      if is_safe_method r.method
      then next r
      else let key = r.header "Idempotency-Key" in
        if str_eq key ""
        then refuse codec missing_idempotency_key
        else with_key_user r key r.user_id
