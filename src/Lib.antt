-- ===== src/Lib.antt =====
-- Verification of the payment backend: its HTTP server, internal transfers, payouts to outside banks,
-- and the events that the payment provider sends back.
--
-- A request passes the middleware (internal/middleware), which answers panics, checks the token and
-- replays answers by idempotency key, to a handler (internal/handler), which checks the body and
-- calls a service (internal/service), which reads the tables, opens one transaction, locks the rows
-- of the accounts, writes the payment, its ledger entries and an event, and moves the balances
-- under optimistic versions. A payout is then sent to the provider, whose events are stored and
-- later picked up by the webhook processor: it completes the payment, or fails it and gives the
-- money back.
--
-- Prelude: names of the libraries, lists and options; Prelude.Int has int64 with its wrap-around
-- (a version or a balance is an int64), Prelude.Sort stands for sort.Slice and ORDER BY.
-- Domain: internal/domain, types and sentinel errors. uuid.UUID and time.Time are numbers.
-- Session: the state that a handler works with, and how its calls are put together: the tables, the
-- driver (any call of which may fail), identifiers, the clock, and what the provider was asked. A Go
-- function that returns an error is an action whose Result is `ok` or `err`; BeginTx, Commit and the
-- deferred Rollback are `transact`. Session.Laws, Sent, Atomic, Preserves, Runs
-- and Panics are the rules that the proofs about actions use.
-- Repository: internal/repository, a module for each table, statements as functions on rows, with the
-- keys, the unique indices and the check on balances of migrations/.
-- Fx: internal/fx/service.go. The decimal library is the parameter `Decimal`.
-- Payments: internal/service/payment. Service (service.go), Locks and Entries (shared by the flows),
-- Transfer (transfer.go, transfer_fx.go), Payout (external_payout.go, external_payout_fx.go). Posting
-- says what the flows promise of the books, apart from the code: balances, the net of ledger entries,
-- totals in a currency.
-- Webhooks: internal/service/webhook_processor.go and webhook_reversal.go. Decoding JSON and parsing
-- an identifier are the parameter `Codec`.
-- AccountService: internal/service/account.go. The digits of an account number are an argument.
-- Provider: internal/service/provider_client.go and, in Mock, cmd/mock-provider, the provider of local
-- runs. What the two encode and draw are the parameters `ClientCodec`, `MockCodec` and `Draws`.
-- Auth: internal/auth. Signing and reading a token is the parameter `Jwt`.
-- Handler: internal/handler. The errors that a client is told are in Handler, requests and responses in
-- Handler.Http (response.go), then a module for each of the files: Receiver (webhook.go), Ownership,
-- Payment, Account, User, Rates (fx.go), Login (auth.go) and Health. JSON, identifiers and hashes are
-- parameters: `HttpCodec`, `PaymentDecoder`, `ReceiverCodec` and single functions.
-- Middleware: internal/middleware, with Auth (auth.go), Idempotency (idempotency.go) and Stack
-- (recovery.go, tracing.go, security.go). A handler is an action whose result is a response; its error
-- is a panic.
-- Api: cmd/api/main.go, the table of routes (Api.Routes), what stands behind each, and the stack of
-- middleware around them. `Server` holds what main builds the handlers from. Api.Handlers, Wrapped and
-- Answers follow every route to its answer, Api.Reused is about a key that comes with another request.
-- Tests: runs at concrete data.
--
-- The names are the source's, in snake case: executeSameCurrencyTransfer is
-- execute_same_currency_transfer. Where a function opens a transaction, what it does between BeginTx
-- and Commit is a definition of its own, named _body. Errors are not wrapped: errors.Is sees through
-- the wrapping. No definition uses fuel: every loop runs along a list or a text.
--
-- Not modelled: log lines, with the middleware that writes them; the static pages, which are an
-- argument; configuration, start and shutdown; the call of the provider client out of a payout, of
-- which the payment alone is recorded; the ticker around `poll`; the cleaning of paths by
-- net/http's mux, and the Allow header of its answers; interleaved transactions (row locks and
-- versions are modelled as one transaction at a time meets them); foreign keys and widths of
-- columns, whose refusal is a call that fails. The clock and the driver's failures are arbitrary
-- functions of the calls made so far.
pub mod Prelude
pub mod Domain
pub mod Session
pub mod Repository
pub mod Fx
pub mod Payments
pub mod AccountService
pub mod Webhooks
pub mod Provider
pub mod Auth
pub mod Handler
pub mod Middleware
pub mod Api
pub mod Tests
