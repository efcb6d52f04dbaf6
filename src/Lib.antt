-- ===== src/Lib.antt =====
-- The cashback ledger: an API that stores orders and confirms them, and a worker that credits the
-- cashback of each confirmed order to a ledger, once.
--
-- Parts. A request to `POST /orders` stores an order in `CREATED`; `POST /orders/:id/confirm` makes
-- it `CONFIRMED` and, in the same transaction, puts an `OrderConfirmed` event into the outbox
-- table. A loop of the worker publishes the events that are due to Kafka. The consumer takes each
-- message, keeps it in the inbox table and at once tries to credit the order; what fails is tried
-- again by a second loop, with a backoff, until it goes to a dead letter topic. The rate and the cap
-- of a merchant come from the database, in the worker through a cache in Redis.
--
-- Files.
--   Prelude     names of the libraries, Boolean tests, lists, equality that decides
--   Schema      the tables of packages/db/prisma/schema.prisma as records and enumerations
--   Json        JSON values, and reading a member as `v?.k` does
--   Errors      what the database and the broker report, and what the code throws
--   Services    what the code calls and this repository does not implement, one record that every
--               definition takes; Services.Table is the contract of one table
--   Effect      `await` and `throw`: a function from the state to a result and the state, with
--               try/catch and try/finally
--   World       the shared state: tables, Redis, messages sent, metrics, and a count of calls
--   Calls       calls of the database, of Redis and of Kafka, transactions, the clock; Calls.Post
--               and Calls.Quiet reason about the tables after a call, Calls.Respects about
--               a relation that every call keeps, Calls.Ensures about an invariant of the state,
--               Calls.Answers about effects that answer when no call fails
--   Queries     Prisma's findUnique, create, update, upsert, updateMany and findMany on one table
--   Cashback    the part that both versions of `processOrderConfirmed` share
--   Domain      packages/domain/src/process-order-confirmed.ts
--   RuleCache   apps/worker/src/cache/cashback-rule-cache.ts
--   RuleService apps/api/src/merchants/cashback-rule.service.ts
--   Handler     apps/worker/src/handlers/process-order-confirmed.ts
--   Idempotency apps/api/src/common/idempotency/idempotency.service.ts
--   Orders      apps/api/src/orders/orders.controller.ts: create, confirm, confirmAndOutbox
--   Merchants   apps/api/src/merchants/merchants.controller.ts: upsertRule
--   Outbox      apps/worker/src/index.ts: publishOnce and its loop
--   Consumer    apps/worker/src/consumer.ts: eachMessage
--   Retry       apps/worker/src/inbox-retry.ts: one round of retryInboxLoop
--   Replay      apps/worker/src/replay.ts: replayInbox and replayOutbox; Replay.Arguments is
--               parseArgs, Replay.Command is main
--   Gauges      apps/worker/src/metrics-refresh.ts: one tick
--   Users       apps/api/src/users/users.controller.ts: getBalance
--   Platform    functions of JavaScript that Config and Http take as parameters
--   Config      apps/api/src/config/app.config.ts and getPositiveInt of apps/api/src/app.module.ts
--   Http        apps/api/src/common: request ids, the envelope, the exception filter; Http.Throttle
--               is the guard, Http.Metrics apps/api/src/metrics, Http.Serve a request through
--               all of them
--   Startup     apps/api/src/main.ts: bootstrap, with apps/api/src/db/run-migrations.ts; and the
--               answers of apps/worker/src/metrics-server.ts
--   Clients     getRedis of both programs, and the variables that apps/worker reads
--   Worker      apps/worker/src/index.ts: main, with what starts the loops and what ends the process
--   Spec        the program as a book of orders, credits and events that changes by four kinds of
--               steps; Spec.Kept and Spec.Announced are about what the steps keep, Spec.Maps about
--               maps with one value set
--   History     the tables as a book, and that each operation changes it by steps
--   System      all operations in any order; System.Delivered is about one message, System.Paid about
--               an order from its confirmation to its cashback
--   Concurrent  requests and messages at the same time, a statement at a time: the moves of a session
--               and the locks it holds. Concurrent.Invariant is what each session knows where it
--               stands, Concurrent.Turns what a move does to that, Concurrent.Changes how a move
--               changes the book, Concurrent.Safety about all interleavings.
--               Concurrent.Schedules builds schedules, Concurrent.Runs and Concurrent.Twice use them
--   Tests       concrete services, a run of the program, the theorems at concrete inputs
-- A method of a class or a function of the source has here its name in snake_case; a body with
-- several awaits under ifs is split into one definition for each branch point.
--
-- Failures. Each external call has a number, and `Services.outcome` says of the number whether the
-- call takes effect and answers, fails without effect, or takes effect and its answer is lost; a
-- theorem without a hypothesis on it holds for every pattern of failures. A transaction
-- that throws is rolled back; its commit may fail or be unacknowledged like any call, and a
-- transaction with a failed statement commits nothing where the database says so
-- (`Services.aborts`, true of PostgreSQL). A crash of a process between two calls leaves the same
-- tables as the same calls with a throw in place of the rest.
--
-- Bounds. Numbers of attempts, times and counts are natural numbers; the times are milliseconds. The
-- endless loops of the worker are modelled by the round, and a run is any list of rounds,
-- requests and messages (in Worker, of turns of the loops), so no fuel is needed: each loop inside
-- a round goes over a list.
-- Decimals, JavaScript numbers, SHA-256, JSON.stringify and JSON.parse are parameters, with the laws
-- named in Services.
--
-- Concurrency. In System each operation is one step, and only the cache changes in between
-- (`Services.meanwhile`). In Concurrent the statements of any number of sessions interleave: a
-- statement reads what is committed, a write is seen when its transaction commits, and until then
-- its row or its unique key is locked, as with READ COMMITTED in PostgreSQL. There the tables are the
-- book, a failure is a session that stops without an effect, and the rule that a session reads may
-- be any. Orders.Raced has the calls of two requests under one idempotency key in one such order.
--
-- Not modelled: a limit of the replay command below zero, validation of DTOs by class-validator,
-- the refusal by the database of an id that is no uuid (ids are texts here, and such an id is one
-- that no row has), the servers and clients themselves, the tables of inbox events and of idempotency keys in
-- Concurrent, deployment files and load tests, which keep no state of the ledger.
pub mod Platform
pub mod Prelude
pub mod Gauges
pub mod Http
pub mod Json
pub mod Schema
pub mod Errors
pub mod Effect
pub mod Services
pub mod World
pub mod Calls
pub mod Queries
pub mod Cashback
pub mod Domain
pub mod RuleCache
pub mod RuleService
pub mod Handler
pub mod Idempotency
pub mod Orders
pub mod Merchants
pub mod Outbox
pub mod Config
pub mod Consumer
pub mod Retry
pub mod Replay
pub mod Spec
pub mod Startup
pub mod History
pub mod System
pub mod Concurrent
pub mod Users
pub mod Clients
pub mod Worker
pub mod Tests
