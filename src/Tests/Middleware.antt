-- ===== src/Tests/Middleware.antt =====
-- Runs of internal/auth and of internal/middleware, and the libraries' part of the server, made concrete.
use grey_backend_assessment.Prelude.{
  ℕ, zero, suc, ◌+◌, ◌*◌, ◌^◌, ◌<◌, ◌≡◌, refl, ◌&&◌, String, true, Bool, none, some, if◌then◌else◌,
  str_eq, eq_iff, ◌==◌, ltb, arith, Bool-cases, inl, inr,
}
use grey_backend_assessment.Domain.{Time}
use grey_backend_assessment.Auth.{Jwt, TokenClaims}
use grey_backend_assessment.Auth.Laws.{ReadsBack}

-- An identifier is written as so many strokes.
unfoldable pub strokes : ℕ → String
strokes zero = ""
strokes (suc n) = String.◌∷◌ "x" (strokes n)

unfoldable pub count_strokes : String → ℕ
count_strokes String.[] = 0
count_strokes (String.◌∷◌ c s) = suc (count_strokes s)

count_strokes-strokes : (n : ℕ) → count_strokes (strokes n) ≡ n
unfolding count_strokes strokes
count_strokes-strokes zero = refl
count_strokes-strokes (suc n) = omega (arith, count_strokes-strokes n)

-- 24 hours
abbrev pub expiry : Time
expiry = 24 * 3600 * 10 ^ 9

-- The claims of Alice's token.
abbrev pub alice_claims : TokenClaims
alice_claims = record {
  expires_at = expiry + 1;
  issued_at = 1;
  user_id = "xxxxxxxxxx";
  email = "alice";
}

abbrev pub are_alices : TokenClaims → Bool
are_alices c =
    c.expires_at == expiry + 1
    && (c.issued_at == 1 && (str_eq c.user_id "xxxxxxxxxx" && str_eq c.email "alice"))

-- A library that signs those claims only, and reads their token until it expires.
abbrev pub jwt : Jwt
jwt = record {
  numeric_date = λ t. t;
  signed_string = λ claims secret. if are_alices claims then some "token" else none;
  parse_with_claims = λ token secret at.
      if str_eq token "token" && ltb at (expiry + 1) then some alice_claims else none;
  uuid_string = strokes;
  parse_uuid = λ text. some (count_strokes text);
}

are_alices_sound : (c : TokenClaims) → are_alices c ≡ true → c ≡ alice_claims
are_alices_sound c h = ground (arith, eq_iff c.user_id "xxxxxxxxxx", eq_iff c.email "alice")

pub jwt-ReadsBack : ReadsBack jwt
jwt-ReadsBack = record {
  signed = λ claims secret token at made early. elim (Bool-cases (are_alices claims)) [
    | inr other ↦ absurd (nothing (rw other at made))
    | inl hers ↦
        let e = are_alices_sound claims hers in
        let it : "token" ≡ token = the_token token (rw hers at made) in
        let in_time : at < expiry + 1 = rw e at early in rw (← it) (rw e (read_in_time at in_time))
  ];
  uuid = λ id. rw (count_strokes-strokes id) refl;
}
  where
    nothing : {t : String} → none ≡ some t → ⊥
    nothing e = cc

    the_token : (t : String) → some "token" ≡ some t → "token" ≡ t
    the_token t e = cc

    read_in_time :
        (at : ℕ)
        → at < expiry + 1
        → (if ltb at (expiry + 1) then some alice_claims else none) ≡ some alice_claims
    read_in_time at h = ground arith
