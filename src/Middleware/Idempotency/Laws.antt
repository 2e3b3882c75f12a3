-- ===== src/Middleware/Idempotency/Laws.antt =====
-- internal/middleware/idempotency.go: what a second request with the same key is answered.
use grey_backend_assessment.Prelude.{
  ◌≡◌, ◌∙◌, refl, sym, ap, ◌+◌, ◌⊎◌, inl, inr, String, true, false, ◌&&◌, Option, none, some, List,
  [], ◌∷◌, if◌then◌else◌, str_eq, ltb, find, any, Bool-cases, eq_refl, arith,
}
use grey_backend_assessment.Domain.{Uuid, Time, driver_error}
use grey_backend_assessment.Session.{
  IdempotencyCacheEntry, World, Result, ok, err, Session, pure, now, settle, attempt, continue,
  ◌>>=◌, driver_call, query, gets, statement, run_statement,
}
use grey_backend_assessment.Repository.Idempotency
use grey_backend_assessment.Repository.Idempotency.{has_key}
use grey_backend_assessment.Handler.{idempotency_conflict}
use grey_backend_assessment.Handler.Http.{
  Request, Response, HttpCodec, refuse, respond_app_error, no_payload,
}
use grey_backend_assessment.Middleware.Idempotency.{
  is_safe_method, compute_hash, replay, new_entry, run_and_store, store_answer, with_cached,
  with_read_body, with_key_user, idempotency,
}

-- What a second request is answered where the first was answered `response`.
abbrev pub repeated : Response → Response
repeated response = record {
  status = response.status;
  headers = ("Content-Type", "application/json") ∷ ("X-Idempotent-Replayed", "true") ∷ [];
  body = response.body;
}

-- The row that a lookup at the time `t` finds.
abbrev pub live_entry :
    String → Uuid → Time → List IdempotencyCacheEntry → Option IdempotencyCacheEntry
live_entry key user_id t rows = find (λ e. has_key key user_id e && ltb t e.expires_at) rows

-- A row that is not there is not found.
live_entry-absent :
    (key : String) (user_id : Uuid) (t : Time) (rows : List IdempotencyCacheEntry)
    → any (has_key key user_id) rows ≡ false
    → live_entry key user_id t rows ≡ none
live_entry-absent key user_id t [] h = refl
live_entry-absent key user_id t (e ∷ rows) h = ground (arith, live_entry-absent key user_id t rows)

-- Behind a row that is the only one of its key, nothing else is found.
live_entry-first :
    (key : String) (user_id : Uuid) (t : Time) (e : IdempotencyCacheEntry)
    (rows : List IdempotencyCacheEntry) {found : IdempotencyCacheEntry}
    → any (has_key key user_id) rows ≡ false
    → live_entry key user_id t (e ∷ rows) ≡ some found
    → found ≡ e
live_entry-first key user_id t e rows h k = ground (arith, live_entry-absent key user_id t rows h)

-- A request that the middleware looks up: its method is not one of the safe ones, it has a key and a
-- user, and its body can be read.
pub record IsKeyed (r : Request) (key : String) (user_id : Uuid) (body : String) : Type 0 where
  pub unsafe : is_safe_method r.method ≡ false
  pub key_eq : r.header "Idempotency-Key" ≡ key
  pub key_given : str_eq key "" ≡ false
  pub user_eq : r.user_id ≡ some user_id
  pub body_eq : r.body ≡ some body

module _ {D : Type 0} (codec : HttpCodec D) (sha256 : String → String)
    (next : Request → Session D Response) (r : Request) (key : String) (user_id : Uuid)
    (body : String) (keyed : IsKeyed r key user_id body) where
  abbrev request_hash : String
  request_hash = compute_hash sha256 r.method r.path body

  idempotency-of_keyed :
      (w : World D)
      → idempotency codec sha256 next r w
        ≡ (attempt (Idempotency.get key user_id)
              >>= with_cached codec sha256 next r key user_id request_hash)
            w
  unfolding idempotency with_key_user with_read_body
  idempotency-of_keyed w =
      rw (keyed.unsafe, keyed.key_eq, keyed.key_given, keyed.user_eq, keyed.body_eq) refl

  -- The lookup, where the driver does not fail.
  get-found :
      (w : World D) (found : Option IdempotencyCacheEntry)
      → w.env.fails w.tick ≡ false
      → live_entry key user_id (w.env.time_at w.tick) w.db.idempotency_cache ≡ found
      → attempt (Idempotency.get key user_id) w ≡ (ok (ok found), record w { tick = w.tick + 1 })
  unfolding attempt settle Idempotency.get now query gets driver_call ◌>>=◌
  get-found w found f e = rw (f, e) refl

  get-failed :
      (w : World D)
      → w.env.fails w.tick ≡ true
      → attempt (Idempotency.get key user_id) w
        ≡ (ok (err driver_error), record w { tick = w.tick + 1 })
  unfolding attempt settle Idempotency.get now query gets driver_call ◌>>=◌
  get-failed w f = rw f refl

  -- A request whose key has a live row runs nothing: if the row has its hash, the row is the answer,
  -- and otherwise the request is refused as a conflict; no table is changed.
  pub idempotency_cached :
      (w : World D) (e : IdempotencyCacheEntry)
      → w.env.fails w.tick ≡ false
      → live_entry key user_id (w.env.time_at w.tick) w.db.idempotency_cache ≡ some e
      → idempotency codec sha256 next r w ≡ (
        ok (
            if str_eq e.request_hash (compute_hash sha256 r.method r.path body)
            then replay e
            else respond_app_error codec idempotency_conflict no_payload),
        record w { tick = w.tick + 1 },
      )
  unfolding ◌>>=◌ with_cached refuse pure
  idempotency_cached w e f live =
      idempotency-of_keyed w
      ∙ rw (get-found w (some e) f live) (elim (Bool-cases (str_eq e.request_hash request_hash)) [
        | inl same ↦ rw same refl
        | inr other ↦ rw other refl
      ])

  -- Storing an answer under a key that no row has: the answer comes back, and at most the row is added.
  abbrev Stored : Response → List IdempotencyCacheEntry → List IdempotencyCacheEntry → Type 0
  Stored response before after =
      (after ≡ before)
      ⊎ ((created : Time) × (expires : Time) × (after
            ≡ new_entry key user_id request_hash response created expires ∷ before))

  store_answer-Stored :
      (response : Response) (v : World D)
      → any (has_key key user_id) v.db.idempotency_cache ≡ false
      → ((store_answer key user_id request_hash response v).0 ≡ ok response)
        × Stored response v.db.idempotency_cache
            (store_answer key user_id request_hash response v).1.db.idempotency_cache
  unfolding store_answer attempt settle now pure Idempotency.set Idempotency.insert_entry statement
      run_statement driver_call ◌>>=◌ new_entry
  store_answer-Stored response v absent = elim (Bool-cases (v.env.fails v.tick)) [
    | inl f ↦ rw f (refl, inl refl)
    | inr f ↦ rw (f, absent) (refl, inr (v.env.time_at v.tick, _, refl))
  ]

  after_next :
      (x : Result Response × World D) (before : List IdempotencyCacheEntry) (w1 : World D)
      (response : Response)
      → any (has_key key user_id) before ≡ false
      → x.1.db.idempotency_cache ≡ before
      → continue x.0 (store_answer key user_id request_hash) x.1 ≡ (ok response, w1)
      → Stored response before w1.db.idempotency_cache
  after_next (err e, v) before w1 response absent same h = cc
  after_next (ok answer, v) before w1 response absent same h =
      let (returned, stored) = store_answer-Stored answer v (rw same absent) in
      let e : answer ≡ response = ok_inj _ _ (sym returned ∙ λ i. (h i).0) in
      let at : (store_answer key user_id request_hash answer v).1 ≡ w1 = λ i. (h i).1 in
      rw (← e) (rw (← same) (rw (← at) stored))
    where
      ok_inj : (a b : Response) → ok a ≡ ok b → a ≡ b
      ok_inj a b e = cc

  module _
      (keeps : (v : World D) → (next r v).1.db.idempotency_cache ≡ v.db.idempotency_cache) where
    -- A first request that returns adds at most the row of its answer.
    idempotency-Stored :
        (w w1 : World D) (response : Response)
        → any (has_key key user_id) w.db.idempotency_cache ≡ false
        → idempotency codec sha256 next r w ≡ (ok response, w1)
        → Stored response w.db.idempotency_cache w1.db.idempotency_cache
    unfolding ◌>>=◌ with_cached run_and_store refuse pure
    idempotency-Stored w w1 response absent h =
        let h' = sym (idempotency-of_keyed w) ∙ h in
        elim (Bool-cases (w.env.fails w.tick)) [
          | inl f ↦ inl (λ i. (sym (rw (get-failed w f) at h') i).1.db.idempotency_cache)
          | inr f ↦
              after_next (next r (record w { tick = w.tick + 1 })) w.db.idempotency_cache w1
                response absent (keeps _)
                (rw (get-found w none f (live_entry-absent key user_id _ _ absent)) at h')
        ]

    found-new :
        (t : Time) (before after : List IdempotencyCacheEntry) (response : Response)
        (found : IdempotencyCacheEntry)
        → any (has_key key user_id) before ≡ false
        → Stored response before after
        → live_entry key user_id t after ≡ some found
        → (found.request_hash ≡ request_hash) × (replay found ≡ repeated response)
    unfolding replay new_entry
    found-new t before after response found absent (inl same) live =
        let none_found = live_entry-absent key user_id t before absent in
        absurd (clash found (sym (rw same at live) ∙ none_found))
      where
        clash : (x : IdempotencyCacheEntry) → some x ≡ none → ⊥
        clash x e = cc
    found-new t before after response found absent (inr (created, expires, e)) live =
        let new = live_entry-first key user_id t _ before absent (rw e at live) in
        (ap (λ (x : IdempotencyCacheEntry). x.request_hash) new, ap replay new)

    -- After a first request that returns, a live row of the key has the hash of that request.
    pub idempotency-hash :
        (w w1 : World D) (response : Response) (found : IdempotencyCacheEntry) (t : Time)
        → any (has_key key user_id) w.db.idempotency_cache ≡ false
        → idempotency codec sha256 next r w ≡ (ok response, w1)
        → live_entry key user_id t w1.db.idempotency_cache ≡ some found
        → found.request_hash ≡ compute_hash sha256 r.method r.path body
    idempotency-hash w w1 response found t absent first live =
        (found-new t w.db.idempotency_cache w1.db.idempotency_cache response found absent
          (idempotency-Stored w w1 response absent first) live).0

    matched :
        {w : World D} (e : IdempotencyCacheEntry) (response : Response)
        → e.request_hash ≡ request_hash
        → replay e ≡ repeated response
        → ◌≡◌ {A = Result Response × World D}
            (
              ok (
                  if str_eq e.request_hash request_hash
                  then replay e
                  else respond_app_error codec idempotency_conflict no_payload),
              w,
            )
            (ok (repeated response), w)
    matched e response h answer = simp (h, eq_refl request_hash, answer)

    -- If a request with a key that no row has returns an answer, and the same request comes again
    -- while a lookup finds a row of its key that was there after the first, then the second runs
    -- nothing and changes no table, and its answer has the status and the body of the first and the
    -- header of a replay. The handler is supposed to leave the cache alone.
    pub idempotency_twice :
        (w w1 w2 : World D) (response : Response) (found : IdempotencyCacheEntry)
        → any (has_key key user_id) w.db.idempotency_cache ≡ false
        → idempotency codec sha256 next r w ≡ (ok response, w1)
        → w2.env.fails w2.tick ≡ false
        → live_entry key user_id (w2.env.time_at w2.tick) w1.db.idempotency_cache ≡ some found
        → live_entry key user_id (w2.env.time_at w2.tick) w2.db.idempotency_cache ≡ some found
        → idempotency codec sha256 next r w2
          ≡ (ok (repeated response), record w2 { tick = w2.tick + 1 })
    idempotency_twice w w1 w2 response found absent first f live1 live2 =
        let stored = idempotency-Stored w w1 response absent first in
        let (hash, answer) =
          found-new _ w.db.idempotency_cache w1.db.idempotency_cache response found absent stored
            live1 in
        idempotency_cached w2 found f live2 ∙ matched found response hash answer
