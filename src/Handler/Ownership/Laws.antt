-- ===== src/Handler/Ownership/Laws.antt =====
-- internal/handler/ownership.go: whose data a request gets.
use grey_backend_assessment.Prelude.{
  ◌≡◌, ◌↔◌, refl, inl, inr, String, false, Option, none, some, ◌==◌, ==→eq, Bool-cases,
  Option-cases, arith,
}
use grey_backend_assessment.Domain.{Uuid}
use grey_backend_assessment.Session.{World, Result, ok, Session, pure}
use grey_backend_assessment.Handler.{AppError}
use grey_backend_assessment.Handler.Http.{
  Request, Response, HttpCodec, Payload, no_payload, respond_app_error, refuse,
}
use grey_backend_assessment.Handler.Ownership.{
  Owner, owner, not_owner, owner_of, owner_from_path, for_owner, with_owner,
}

owner_inj : (a b : Uuid) → owner a ≡ owner b → a ≡ b
owner_inj a b e = cc

owner_of_lem :
    (parse_uuid : String → Option Uuid) (asks : Option Uuid) (id : String) (user_id : Uuid)
    → (owner_of parse_uuid asks id ≡ owner user_id)
      ↔ ((asks ≡ some user_id) × (parse_uuid id ≡ some user_id))
unfolding owner_of
owner_of_lem parse_uuid none id user_id = (λ e. cc, λ (a, p). cc)
owner_of_lem parse_uuid (some auth) id user_id = elim (Option-cases (parse_uuid id)) [
  | inl bad ↦ rw bad (λ e. cc, λ (a, p). cc)
  | inr (named, e) ↦ elim (Bool-cases (named == auth)) [
    | inl same ↦
        let same' : named ≡ auth = ==→eq named auth same in
        rw (e, same)
          (
            λ q.
                let n : named ≡ user_id = owner_inj named user_id q in
                (rw (← same') (rw n refl), rw n refl),
            λ (a, p). some_owner named user_id p,
          )
    | inr other ↦ rw (e, other) (λ q. cc, λ (a, p). absurd (clash named auth user_id other a p))
  ]
]
  where
    some_owner : (a b : Uuid) → some a ≡ some b → owner a ≡ owner b
    some_owner a b h = cc

    clash :
        (named auth user_id : Uuid)
        → (named == auth) ≡ false
        → some auth ≡ some user_id
        → some named ≡ some user_id
        → ⊥
    clash named auth user_id h a p = ground arith

-- A request is its owner's exactly if the user who asks is the user whose identifier is in the path.
pub owner_from_path_lem :
    (parse_uuid : String → Option Uuid) (r : Request) (user_id : Uuid)
    → (owner_from_path parse_uuid r ≡ owner user_id)
      ↔ ((r.user_id ≡ some user_id) × (parse_uuid (r.path_value "id") ≡ some user_id))
unfolding owner_from_path
owner_from_path_lem parse_uuid r user_id =
    owner_of_lem parse_uuid r.user_id (r.path_value "id") user_id

module _ {D : Type 0} (codec : HttpCodec D) (r : Request) (w : World D)
    (Q : Result Response × World D → Type 0)
    (answers : (e : AppError) (details : Payload D)
      → Q (ok (respond_app_error codec e details), w)) where
  for_owner-elim :
      (o : Owner) (k : Uuid → Session D Response)
      → ((user_id : Uuid) → o ≡ owner user_id → Q (k user_id w))
      → Q (for_owner codec o k w)
  unfolding for_owner refuse pure
  for_owner-elim (owner user_id) k h = h user_id refl
  for_owner-elim (not_owner e) k h = answers e no_payload

  -- What a handler behind the check of the owner does.
  pub with_owner-elim :
      (k : Uuid → Session D Response)
      → ((user_id : Uuid)
          → r.user_id ≡ some user_id
          → codec.parse_uuid (r.path_value "id") ≡ some user_id
          → Q (k user_id w))
      → Q (with_owner codec r k w)
  unfolding with_owner
  with_owner-elim k h = for_owner-elim (owner_from_path codec.parse_uuid r) k λ user_id e.
      let (a, p) = (owner_from_path_lem codec.parse_uuid r user_id).0 e in h user_id a p
