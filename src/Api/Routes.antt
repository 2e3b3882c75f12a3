-- ===== src/Api/Routes.antt =====
-- cmd/api/main.go: the patterns that the handlers are registered under.
use Prim.Native.Char.{code}
use grey_backend_assessment.Prelude.{
  String, Bool, ◌&&◌, ◌||◌, Option, none, some, List, [], ◌∷◌, ◌==◌, if◌then◌else◌, str_eq,
}

pub data Endpoint : Type 0 where
  docs spec live ready sign_in show_user open_account list_accounts : Endpoint
  make_payment make_payout show_payment show_rate take_webhook : Endpoint

-- A part of a pattern's path: a literal, or {id}.
pub data Segment : Type 0 where
  lit : String → Segment
  id_segment : Segment

pub record Route : Type 0 where
  pub method : String
  pub path : List Segment
  pub endpoint : Endpoint

-- The handler that a request goes to, with the value of {id}.
pub data Target : Type 0 where
  target : Endpoint → String → Target
  no_route wrong_method : Target

abbrev pub on_head : (String → String) → List String → List String
on_head f [] = []
on_head f (s ∷ ss) = f s ∷ ss

-- The parts between the slashes.
unfoldable pub split_path : String → List String
split_path String.[] = "" ∷ []
split_path (String.◌∷◌ c s) =
    let rest = split_path s in
    if code c == b'/' then "" ∷ rest else on_head (λ t. String.◌∷◌ c t) rest

-- Whether a path fits, and the value of {id}, which is not empty.
unfoldable pub match_path : List Segment → List String → String → Option String
match_path [] [] id = some id
match_path [] (s ∷ ss) id = none
match_path (p ∷ ps) [] id = none
match_path (lit t ∷ ps) (s ∷ ss) id =
    let rest = match_path ps ss id in if str_eq s t then rest else none
match_path (id_segment ∷ ps) (s ∷ ss) id =
    let rest = match_path ps ss s in if str_eq s "" then none else rest

abbrev pub api : List Segment → List Segment
api path = lit "" ∷ lit "api" ∷ lit "v1" ∷ path

abbrev pub routes : List Route
routes =
    record { method = "GET"; path = lit "" ∷ lit "docs" ∷ []; endpoint = docs }
    ∷ record {
      method = "GET";
      path = lit "" ∷ lit "docs" ∷ lit "openapi.yaml" ∷ [];
      endpoint = spec;
    }
    ∷ record { method = "GET"; path = lit "" ∷ lit "health" ∷ []; endpoint = live }
    ∷ record { method = "GET"; path = lit "" ∷ lit "health" ∷ lit "ready" ∷ []; endpoint = ready }
    ∷ record { method = "POST"; path = api (lit "auth" ∷ lit "login" ∷ []); endpoint = sign_in }
    ∷ record { method = "GET"; path = api (lit "users" ∷ id_segment ∷ []); endpoint = show_user }
    ∷ record {
      method = "POST";
      path = api (lit "users" ∷ id_segment ∷ lit "accounts" ∷ []);
      endpoint = open_account;
    }
    ∷ record {
      method = "GET";
      path = api (lit "users" ∷ id_segment ∷ lit "accounts" ∷ []);
      endpoint = list_accounts;
    }
    ∷ record { method = "POST"; path = api (lit "payments" ∷ []); endpoint = make_payment }
    ∷ record {
      method = "POST";
      path = api (lit "payments" ∷ lit "external" ∷ []);
      endpoint = make_payout;
    }
    ∷ record {
      method = "GET";
      path = api (lit "payments" ∷ id_segment ∷ []);
      endpoint = show_payment;
    }
    ∷ record { method = "GET"; path = api (lit "fx" ∷ lit "rates" ∷ []); endpoint = show_rate }
    ∷ record {
      method = "POST";
      path = api (lit "webhooks" ∷ lit "provider" ∷ []);
      endpoint = take_webhook;
    }
    ∷ []

-- A pattern with GET takes HEAD too.
abbrev pub takes_method : String → String → Bool
takes_method pattern method =
    str_eq method pattern || (str_eq pattern "GET" && str_eq method "HEAD")

-- No two of the patterns with one method fit one path, so that the order is of no account.
unfoldable pub select : String → List String → List Route → Target → Target
select method parts [] otherwise = otherwise
select method parts (r ∷ rs) otherwise = elim (match_path r.path parts "") [
  | none ↦ select method parts rs otherwise
  | some id ↦
      if takes_method r.method method
      then target r.endpoint id
      else select method parts rs wrong_method
]

unfoldable pub route : String → String → Target
route method path = select method (split_path path) routes no_route
