-- ===== src/Middleware/Auth/Laws.antt =====
-- internal/middleware/auth.go: whom a request is from.
use Prim.Native.Char.{code}
use Prim.Native.String.{◌++◌}
use text.Mathlib.TextLemmas.{nil-append, cons-append, append-eq-nil_iff}
use text.Mathlib.TextEquality.{Char-path}
use grey_backend_assessment.Prelude.{
  ◌≡◌, ◌∙◌, refl, sym, ◌⊎◌, inl, inr, String, true, false, none, some, ◌==◌, ==_refl, ==→eq, str_eq,
  Bool-cases, Option-cases, eq_iff,
}
use grey_backend_assessment.Session.{World, Result, ok, Session, pure, now, ◌>>=◌}
use grey_backend_assessment.Auth.{Claims, Jwt, validate_token}
use grey_backend_assessment.Handler.{AppError, missing_token, invalid_token}
use grey_backend_assessment.Handler.Http.{
  Request, Response, HttpCodec, refuse, respond_app_error, no_payload,
}
use grey_backend_assessment.Middleware.Auth.{
  cut_prefix, with_user_id, serve_claims, serve_token, auth,
}

cut_prefix-append : (p t : String) → cut_prefix (p ++ t) p ≡ some t
unfolding cut_prefix
cut_prefix-append String.[] t = rw (nil-append t) refl
cut_prefix-append (String.◌∷◌ c p) t =
    rw (cons-append c p t) (rw (==_refl (code c)) (cut_prefix-append p t))

cut_prefix_sound : (s p t : String) → cut_prefix s p ≡ some t → s ≡ p ++ t
unfolding cut_prefix
cut_prefix_sound s String.[] t h = rw (nil-append t) (some_inj s t h)
  where
    some_inj : (a b : String) → some a ≡ some b → a ≡ b
    some_inj a b e = cc
cut_prefix_sound String.[] (String.◌∷◌ d p) t h = cc
cut_prefix_sound (String.◌∷◌ c s) (String.◌∷◌ d p) t h = elim (Bool-cases (code c == code d)) [
  | inl same ↦
      let e : c ≡ d = Char-path c d (==→eq _ _ same) in
      let rest : s ≡ p ++ t = cut_prefix_sound s p t (rw same at h) in
      rw (cons-append d p t) (rw (e, rest) refl)
  | inr other ↦ absurd (clash (rw other at h))
]
  where
    clash : none ≡ some t → ⊥
    clash e = cc

-- The answer to a request that is turned away.
abbrev pub turned_away : {D : Type 0} → HttpCodec D → World D → AppError → Result Response × World D
turned_away codec w e = (ok (respond_app_error codec e no_payload), w)

module _ {D : Type 0} (codec : HttpCodec D) (jwt : Jwt) (secret : String)
    (next : Request → Session D Response) (r : Request) (w : World D) where
  -- The request carries a token that is valid now, and goes on with the user of the token.
  pub record Passes (x : Result Response × World D) : Type 0 where
    pub token : String
    pub claims : Claims
    pub bearer : r.header "Authorization" ≡ "Bearer " ++ token
    pub valid : validate_token jwt token secret (w.env.time_at w.tick) ≡ some claims
    pub goes_on : x ≡ next (with_user_id r claims.user_id) w

  Outcome : Result Response × World D → Type 0
  Outcome x =
      (x ≡ turned_away codec w missing_token) ⊎ ((x ≡ turned_away codec w invalid_token) ⊎ Passes x)

  -- A request is turned away as one with no token or with an invalid one, and nothing is done; or it
  -- carries a token that is valid now, and the handler gets it with the user of the token.
  pub auth-Passes :
      (auth codec jwt secret next r w ≡ turned_away codec w missing_token)
      ⊎ ((auth codec jwt secret next r w ≡ turned_away codec w invalid_token)
          ⊎ Passes (auth codec jwt secret next r w))
  unfolding auth serve_token serve_claims refuse pure now ◌>>=◌
  auth-Passes = elim (Bool-cases (str_eq (r.header "Authorization") "")) [
    | inl empty ↦ inl (rw empty refl)
    | inr given ↦ elim (Option-cases (cut_prefix (r.header "Authorization") "Bearer ")) [
      | inl no_prefix ↦ inr (inl (rw (given, no_prefix) refl))
      | inr (token, cut) ↦ elim (Bool-cases (str_eq token "")) [
        | inl empty ↦ inr (inl (rw (given, cut, empty) refl))
        | inr some_token ↦
            elim (Option-cases (validate_token jwt token secret (w.env.time_at w.tick))) [
              | inl bad ↦ inr (inl (rw (given, cut, some_token, bad) refl))
              | inr (claims, good) ↦ inr (
                  inr (record {
                    token = token;
                    claims = claims;
                    bearer = cut_prefix_sound _ _ token cut;
                    valid = good;
                    goes_on = rw (given, cut, some_token, good) refl;
                  }))
            ]
      ]
    ]
  ]

  -- A token that is valid now lets the request through.
  pub auth_pass :
      (token : String) (claims : Claims)
      → r.header "Authorization" ≡ "Bearer " ++ token
      → str_eq token "" ≡ false
      → validate_token jwt token secret (w.env.time_at w.tick) ≡ some claims
      → auth codec jwt secret next r w ≡ next (with_user_id r claims.user_id) w
  unfolding auth serve_token serve_claims now ◌>>=◌
  auth_pass token claims bearer given valid =
      rw (bearer, header_given token, cut_prefix-append "Bearer " token, given, valid) refl
    where
      header_given : (t : String) → str_eq ("Bearer " ++ t) "" ≡ false
      header_given t = elim (Bool-cases (str_eq ("Bearer " ++ t) "")) [
        | inl empty ↦
            let bearer_empty = (append-eq-nil_iff.0 ((eq_iff _ _).0 empty)).0 in
            let e : true ≡ str_eq "Bearer " "" = sym ((eq_iff "Bearer " "").1 bearer_empty) in
            empty ∙ e
        | inr given ↦ given
      ]
