-- ===== src/Tests/Api.antt =====
-- Runs of cmd/api/main.go and of internal/handler.
use grey_backend_assessment.Prelude.{
  ℕ, ◌+◌, ◌<◌, ◌≡◌, refl, String, false, none, some, [], str_eq, if◌then◌else◌, arith,
}
use grey_backend_assessment.Prelude.Int.{pos, add64, sub64, ◌+ℤ◌, ◌-ℤ◌}
use grey_backend_assessment.Prelude.Sort.{sort, insert}
use grey_backend_assessment.Session.{World, IdempotencyCacheEntry, ok}
use grey_backend_assessment.Handler.Http.{HttpCodec, Request, Response}
use grey_backend_assessment.Handler.Payment.{PaymentDecoder, CreatePaymentRequest}
use grey_backend_assessment.Fx.{get_rate}
use grey_backend_assessment.Fx.Laws.{convert-panics}
use grey_backend_assessment.Api.{Server, serve, serve_endpoint}
use grey_backend_assessment.Api.Routes.{
  make_payment, make_payout, route, target, no_route, wrong_method, split_path, match_path, select,
  list_accounts,
}
use grey_backend_assessment.Domain.{Payment}
use grey_backend_assessment.Prelude.{◌⊎◌}
use grey_backend_assessment.Session.{
  attempt, settle, pure, lift, gets, or_not_found, deref, map_error, ◌>>=◌, skip, raise_if,
  driver_call, new_uuid, now, run_statement, statement, query, transact,
}
use grey_backend_assessment.Repository.Accounts
use grey_backend_assessment.Repository.Payments
use grey_backend_assessment.Repository.Ledger
use grey_backend_assessment.Repository.Events
use grey_backend_assessment.Repository.Users
use grey_backend_assessment.Repository.Idempotency
use grey_backend_assessment.Payments.Service.{tx_limit_for_currency}
use grey_backend_assessment.Payments.Locks.{
  locked_account, lock_order, lock_each, lock_accounts_in_order, verify_account_active,
}
use grey_backend_assessment.Payments.Entries.{
  write_entry, write_ledger_entries, write_payment_event,
}
use grey_backend_assessment.Payments.Transfer.{
  transfer_payment, validate_transfer, resolve_transfer_accounts, same_currency_body,
  execute_same_currency_transfer, execute_transfer, create_internal_transfer,
}
use grey_backend_assessment.Auth.{validate_token}
use grey_backend_assessment.Handler.{app_error, missing_token, invalid_token}
use grey_backend_assessment.Handler.Http.{
  no_payload, respond_app_error, with_user, with_body, if_valid, respond_with,
}
use grey_backend_assessment.Handler.Payment
use grey_backend_assessment.Handler.Payment.{validate_payment, respond_created}
use grey_backend_assessment.Middleware.Auth.{cut_prefix, serve_claims, serve_token, auth}
use grey_backend_assessment.Middleware.Auth.Laws.{turned_away}
use grey_backend_assessment.Middleware.Idempotency.{
  idempotency_ttl, compute_hash, new_entry, run_and_store, store_answer, with_cached,
  with_read_body, with_key_user, idempotency,
}
use grey_backend_assessment.Middleware.Idempotency.Laws.{live_entry, repeated}
use grey_backend_assessment.Middleware.Stack.{with_header}
use grey_backend_assessment.Api.{with_auth, create_payment}
use grey_backend_assessment.Api.Laws.{
  Bears, HasKey, BearsValid, serve_endpoint-token, serve_endpoint_twice,
}
use grey_backend_assessment.Api.Handlers.{IsCalmServer}
use grey_backend_assessment.Api.Answers.{serve_answers}
use grey_backend_assessment.Api.{serve_mux}
use grey_backend_assessment.Api.Reused.{serve_endpoint_reused}
use grey_backend_assessment.Tests.Payments.{request, with_world}
use grey_backend_assessment.Tests.{start, service, micro, rates}
use grey_backend_assessment.Tests.Middleware.{jwt, expiry, strokes, count_strokes}

abbrev pub http_codec : HttpCodec ℕ
http_codec = record {
  encode = λ response. if response.success then "done" else "refused";
  parse_uuid = λ text. some (count_strokes text);
  uuid_string = strokes;
}

-- Every body asks for the same.
abbrev pub body_request : CreatePaymentRequest
body_request = record {
  recipient_unique_name = "bob";
  source_currency = "USD";
  dest_currency = "USD";
  amount = pos 100;
}

abbrev pub decoder : PaymentDecoder
decoder = record {
  transfer = λ body. some body_request;
  payout = λ body. some (record {
    source_currency = "USD";
    dest_currency = "USD";
    amount = pos 100;
    dest_iban = "DE1";
    dest_bank_name = "Bank";
  });
}

abbrev pub server : Server ℕ
server = record {
  codec = http_codec;
  jwt = jwt;
  jwt_secret = "secret";
  compare_hash_and_password = λ hash password. str_eq hash password;
  webhook_secret = "key";
  payments = service;
  rate = get_rate micro rates;
  payment_decoder = decoder;
  account_decoder = λ body. some (record { currency = "EUR" });
  login_decoder = λ body. some (record { email = "alice"; password = "pw" });
  receiver_codec = record {
    unmarshal = λ body. none;
    parse_uuid = λ text. none;
    hmac = λ secret body. secret;
  };
  sha256 = λ text. text;
  digits = λ r. ok "0123456789";
  encode_health = λ health. "healthy";
  decimal_string = λ d. "1";
  rfc3339 = λ t. "now";
  page = λ e. record { status = 200; headers = []; body = "page" };
}

-- A request of Alice's, with her token and a key.
abbrev pub header : String → String
header name =
    if str_eq name "Authorization"
    then "Bearer token"
    else if str_eq name "Idempotency-Key"
    then "k1"
    else ""

abbrev pub ask : Request
ask = record {
  method = "POST";
  path = "/api/v1/payments";
  header = header;
  path_value = λ name. "xxxxxxxxxx";
  query = λ name. "";
  body = some "pay";
  user_id = none;
}

route_payment : route "POST" "/api/v1/payments" ≡ target make_payment ""
unfolding route split_path match_path select
route_payment = refl

route_accounts : route "HEAD" "/api/v1/users/x1/accounts" ≡ target list_accounts "x1"
unfolding route split_path match_path select
route_accounts = refl

route_delete : route "DELETE" "/api/v1/payments" ≡ wrong_method
unfolding route split_path match_path select
route_delete = refl

route_nowhere : route "GET" "/api/v1/users/" ≡ no_route
unfolding route split_path match_path select
route_nowhere = refl

calm_server : IsCalmServer server
calm_server = record { converts = convert-panics micro rates; draws = λ r. refl }

serve_answers_example :
    (response : Response) × ((serve_mux server ask (record start { drawn = 1 })).0 ≡ ok response)
    × (serve server ask start ≡ (
      ok (
          with_header "X-Content-Type-Options" "nosniff" (
            with_header "X-Frame-Options" "DENY"
              (with_header "X-Request-ID" (strokes 100) response))),
      (serve_mux server ask (record start { drawn = 1 })).1,
    ))
serve_answers_example = serve_answers server calm_server ask start

serve_endpoint-token_example :
    (serve_endpoint server make_payment ask start ≡ turned_away http_codec start missing_token)
    ⊎ ((serve_endpoint server make_payment ask start ≡ turned_away http_codec start invalid_token)
        ⊎ BearsValid server ask 0)
serve_endpoint-token_example = serve_endpoint-token server ask make_payment start refl

-- The payment that the request makes, its answer, and the world after it.
abbrev made_payment : Payment ℕ
made_payment = transfer_payment request 100 21 22 (pos 100) none (pos 0) none 7

abbrev made_answer : Response
made_answer = respond_created http_codec made_payment

abbrev once : World ℕ
once = (serve_endpoint server make_payment ask start).1

-- The row of the answer.
abbrev row : IdempotencyCacheEntry
row =
    new_entry "k1" 10 (compute_hash server.sha256 "POST" "/api/v1/payments" "pay") made_answer 16
      (16 + idempotency_ttl)

-- What the first request does.
once_runs :
    ((serve_endpoint server make_payment ask start).0 ≡ ok made_answer)
    × (live_entry "k1" 10 (once.env.time_at once.tick) once.db.idempotency_cache ≡ some row)
    × (once.env.time_at once.tick ≡ 17)
    × (once.env.fails once.tick ≡ false)
unfolding serve_endpoint with_auth auth cut_prefix serve_token serve_claims validate_token
    count_strokes idempotency with_key_user with_read_body with_cached run_and_store store_answer
    Idempotency.get Idempotency.set Idempotency.insert_entry attempt settle create_payment
    Payment.create with_user with_body if_valid validate_payment respond_with
    create_internal_transfer resolve_transfer_accounts validate_transfer tx_limit_for_currency
    execute_transfer execute_same_currency_transfer same_currency_body lock_accounts_in_order
    lock_order lock_each locked_account verify_account_active write_ledger_entries write_entry
    write_payment_event Accounts.get_by_user_and_currency Accounts.get_for_update
    Accounts.update_balance Accounts.update_accounts Payments.create Payments.insert_payment
    Ledger.create Ledger.insert_entry Events.create Events.insert_event Users.get_by_unique_name
    pure lift gets or_not_found deref map_error ◌>>=◌ skip raise_if driver_call new_uuid now
    run_statement statement query transact sort insert add64 sub64 ◌+ℤ◌ ◌-ℤ◌ new_entry
once_runs = (refl, refl, refl, refl)

-- The same at another path.
abbrev ask_at : String → Request
ask_at path = record ask { path = path }

token-Bears :
    (path : String) (at : ℕ)
    → at < expiry + 1
    → Bears server (ask_at path) "token" (record { user_id = 10; email = "alice" }) at
unfolding validate_token count_strokes
token-Bears path at early = record { header = refl; given = refl; valid = ground (arith) }

ask-HasKey : (path : String) → HasKey server (ask_at path) "k1" "pay"
ask-HasKey path = record { unsafe = refl; key_eq = refl; key_given = refl; body_eq = refl }

serve_endpoint_twice_example :
    serve_endpoint server make_payment ask once
    ≡ (ok (repeated made_answer), record once { tick = once.tick + 1 })
serve_endpoint_twice_example =
    let (answered, found, at, answers) = once_runs in
    serve_endpoint_twice server ask "token" "k1" "pay" (record { user_id = 10; email = "alice" })
      (ask-HasKey _) start once once made_answer row (token-Bears _ _ (omega arith))
      (rw at (token-Bears _ 17 (omega arith))) refl answers found found make_payment refl
      (with_world answered)

-- The key comes again with a payout.
serve_endpoint_reused_example :
    serve_endpoint server make_payout (ask_at "/api/v1/payments/external") once ≡ (
      ok (
          respond_app_error http_codec
            (app_error 409 "IDEMPOTENCY_CONFLICT"
              "Idempotency key already used with a different request")
            no_payload),
      record once { tick = once.tick + 1 },
    )
serve_endpoint_reused_example =
    let (answered, found, at, answers) = once_runs in
    serve_endpoint_reused server ask (ask_at "/api/v1/payments/external") "token" "token" "k1" "pay"
      "pay" (record { user_id = 10; email = "alice" }) (ask-HasKey _) (ask-HasKey _) start once once
      made_answer row (token-Bears _ _ (omega arith)) (rw at (token-Bears _ 17 (omega arith))) refl
      answers found found refl make_payment make_payout refl refl (with_world answered)
