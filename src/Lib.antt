-- ===== src/Lib.antt =====
-- Croupier is a wallet and wagering service: it keeps one wallet for a player and a currency,
-- applies wager transactions (BET, WIN, LOSS, REFUND, ROLLBACK) to it, keeps an append-only ledger
-- of the movements, and announces what it has done through an outbox. This library models its core,
-- from the money type over the use cases and the PostgreSQL repositories up to the queue, the HTTP
-- API and the service as a whole, and proves what makes it right.
--
-- Parts. The domain types stand alone: Money (internal/money/money.go), Wallet and Wallet/Ledger
-- (internal/wallet), Wager and Wager/Kinds (internal/wager/transaction.go), Outbox and Outbox/Inbox
-- (internal/outbox, internal/inbox). A constructor or a method of Go is a function with the same
-- name in snake_case; a method that mutates its receiver returns the new value; `(value, error)` is
-- a Result, whose errors (Errors) are the sentinel errors of the packages. What uuid.New and
-- time.Now return is an argument of the constructors, which take both first.
--
-- Store models internal/postgres. Store/Tables has the rows of the tables. Store/Monad (db.go) is
-- the type App of calls on the database: a call takes a World, that is the tables, the transaction
-- of the context, the failures that the coming statements will meet, and how many UUIDs and clock
-- readings were drawn, and returns a result with a new World. within_tx is TxManager.WithinTx, with
-- the reentrance, the rollback, and the aborted state in which PostgreSQL refuses statements. A
-- failure befalls a statement before any data was sent, or behind that point without an effect, or
-- after the effect, whose acknowledgement it loses: then the write, or the whole transaction at its
-- COMMIT, has been made although the caller sees an error. Store/Wallets, Store/Entries,
-- Store/Wagers, Store/Pending and Store/Outbox have one function for each query and write of the
-- repositories, with the constraints of internal/postgres/migrations that the statements can meet.
-- Store/Rules and Store/Keeps reason about calls by their parts, inside and outside a transaction;
-- Store/Atomic, Store/RoundTrip and Store/Books have what holds of the tables.
--
-- App models internal/app: App/Events (events.go), App/Movement and App/Submit (wager_submit.go,
-- failure_codes.go; the first has the branches that save, the second their composition), App/Create
-- (wallet_create.go), App/Reconcile (wallet_reconcile.go), App/Worker (outbox_worker.go and
-- backoffDelay), App/Resolver (pending_reference_resolver.go), App/Queries (wallet_get.go,
-- wager_get.go, wallet_ledger_list.go). The use cases call the domain and the repositories; the
-- resolver calls the submitter's process and reject. App/Env has what the use cases take from
-- outside: the ISO 4217 table of golang.org/x/text, SHA-256 of JSON, JSON, the text of UUIDs, the
-- UUIDs and the clock. Tests has concrete data, runs, and applications of the theorems.
--
-- Sqs models internal/sqs: Sqs has the wire shapes and the checks of an envelope, Sqs/Consumer
-- (consumer.go) the handling of a delivery, which wraps the inbox entry and the submission in one
-- transaction, and Sqs/Publisher (publisher.go) the message of an outbox entry. Auth is
-- internal/auth. Http models internal/httpapi: Http/Failures (errors.go), Http/Guards (auth.go),
-- Http/Wallets and Http/Wagering (the handlers), Http/Server (server.go and health.go: the routes
-- with their guards). A handler takes a World and returns a response with a new World; the record
-- Web has what the handlers take from outside. Money/Text is the decimal text of amounts. Command
-- and Command/Loops model the loops of cmd/croupier/lifecycle.go, the second a background loop and
-- the hook that stops it as steps that alternate, Command/Config is cmd/croupier/config.go,
-- Command/Probes the readiness check and the poll of the dead-letter queue (providers.go), Metrics
-- what internal/metrics reports to its instruments, and System composes the server, the consumer,
-- the resolver and the relay as steps on one World.
--
-- Store/Inside has the rules for calls inside the transaction of a caller, where an error may have
-- aborted it; a call that keeps an assertion (Store/Keeps) does so inside and outside.
-- Store/Atomic/Undone has those for calls that succeed or leave the tables as they were, but for a
-- lost acknowledgement. Store/Quiet has those by which a call that meets no failure is followed to
-- what it returns, and Store/Quiet/Inserts says when the tables accept the rows of a movement. With
-- them App/Movement/Lands and App/Submit (Plays, Offers and References say which submissions
-- nothing stands against; Lands, Live, Reverses, Parks, Declined and Repeats follow the kinds of
-- them), and above them Sqs/Consumer/Live, Http/Server/Live, App/Resolver/Resolves (after
-- App/Resolver/Run) and Command/Drain/Empties, show that the code does what it is asked.
--
-- Numbers. An int64 is an integer ℤ over the native numbers, with the wrap-around of Go written out
-- (Prelude/Int64). Times are nanoseconds since the zero time, of which a timestamptz column keeps
-- the microseconds (micros of Values, applied wherever a time is written). The payload of an outbox
-- entry is read back as the text that its JSONB column makes of it (jsonb_text of App/Env). The
-- loop of the outbox worker's tick (Command.drain) runs on fuel, of which one more than the number
-- of pending entries is enough where the publisher accepts them, and so do the digits of a number
-- (Money/Text), of which one more than the number is enough; every other loop is over a list, which
-- for the loop of the resolver has what its select sees. A UUID or a time may be drawn earlier than
-- in the code where the constructor draws it behind its checks, which no result shows.
--
-- Not modelled: logs, the places that report metrics, which nothing in the core reads, and the
-- set-up of Prometheus with the route GET /metrics that shows it; the construction of clients and
-- of the process (internal/sqs/client.go, the rest of cmd/croupier), which are calls of third-party
-- libraries; response headers; and callers that run at the same time: the steps of System are whole
-- requests, deliveries and rounds, so row locks (FOR UPDATE, SKIP LOCKED) have no effect in their
-- sequence.
pub mod Prelude
pub mod Values
pub mod Errors
pub mod Money
pub mod Wallet
pub mod Wager
pub mod Outbox
pub mod Store
pub mod App
pub mod Sqs
pub mod Auth
pub mod Http
pub mod System
pub mod Command
pub mod Metrics
pub mod Tests
