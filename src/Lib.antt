-- ===== src/Lib.antt =====
-- The tax module takes invoices over HTTP, keeps them in PostgreSQL, and publishes them to the
-- Viettel SInvoice API through a pool of workers. These files model the program and prove what makes
-- it correct.
--
-- Parts and files:
-- - Domain (internal/domain): Status is `InvoiceStatus` with `ValidTransitions` and
--   `CanTransitionTo`; Invoice has the records; Errors is `AppError` and `ViettelError` with their
--   texts and `errors.As`; Token is `AccessToken`; Publisher is the port `InvoicePublisher` and what
--   the worker relies on in it.
-- - Config (internal/config/config.go): the configuration records, `DSN`, `Load` and `validate`; what a pool
--   makes of its settings, and at which it panics, is Worker/Settings.
-- - Store: what the components share, as one record `World`: the tables (the SQL of
--   internal/repository/postgres and its migrations), the queue of jobs and the log of HTTP
--   requests. An operation is a function from a world to its result and the world after it.
-- - Repository (internal/repository/postgres): Rows has the SQL statements on the tables, Invoices,
--   Items, Listing and Lookups are the methods of `InvoiceRepo`, Tokens those of `AccessTokenRepo`. Status,
--   Reliable, Atomic, Upsert and Completed have the lemmas about them.
-- - Worker (internal/worker): Publish is `handlePublish` with `handlePublishError`, Poll is
--   `handlePoll` and `processJob`, Queue is `Enqueue`, `pollPendingInvoices` and one turn of a worker.
-- - Service (internal/service/invoice_service.go): every method of `InvoiceService`.
-- - Integration (internal/integration): Dto and Wire are the messages and the codec, Mapper is
--   mapper.go, Failures is `ParseViettelError`, Auth and Client are viettel_client.go, Publisher is
--   viettel_publisher.go and validate.go.
-- - Handler (internal/handler): every handler of invoice_handler.go; Answers is dto/response.go with
--   `handleError`, Requests is dto/request.go, Mapping makes an invoice of a request, Asked says what a
--   request asks for, Routes is router.go.
-- - System: the operations that write, each run whole with no other between its calls; Lifecycle is the
--   machine on the status of an invoice that one of them follows. Where they interleave this fails:
--   Examples/Concurrency has a schedule of two workers that takes a completed invoice back.
-- - Concurrency (internal/worker/pool.go and the requests): the goroutines of the pool and of the
--   requests, which interleave between the calls of the repository, of the queue and of the
--   publisher. Publishing and Programs are the handlers call by call, Pool is `Start`, `Shutdown`,
--   `worker` and `poller`; a schedule lists who acts next. Alone relates them to the other parts.
-- - Server (cmd/server/main.go): `main`, which joins the parts, and the ways in which it ends.
-- - Examples: test data, and each theorem applied to it.
--
-- How they interact: the service stores an invoice and puts a publish job in the queue; a worker
-- takes the job, loads the invoice, calls the publisher and writes what comes of it; the poller puts
-- jobs for the invoices that wait in the queue. The publisher maps the invoice, validates the
-- request and calls the client, which keeps its access token in the database.
--
-- Parameters, for what lies outside the repository: `Env` answers for the database server, which may
-- refuse any statement and break off any stream of rows, for its order of rows, for the clock and
-- for new uuids, all by the tick at which it is asked, and for the rounding of a value to its column; `Wire` is HTTP, JSON, the validator and the
-- printing and reading of numbers; `Binding` is the parsing and the binding of a request; `Viper` is
-- what viper reads; `Floats` is the arithmetic of `float64` and the order in which a
-- loop over a Go map goes. A refused statement changes nothing.
--
-- Numbers: uuids and times are natural numbers, and a float is its bit pattern. A Go `int` that can be
-- negative is a ℤ; a counter is natural. No loop needs fuel: each is
-- a recursion on a list.
--
-- Not modelled: logging; the choice of a route, CORS and the validation tags of requests, which belong
-- to gin; an interleaving within one call of the repository, which is one statement or one
-- transaction; the period of the poller's ticker; the rounding of values that an update writes, since
-- they come from a row or are new times and tokens, whose parts below a microsecond are kept; a value
-- that is too large for its column, beyond the error that the server may answer; a channel of capacity
-- 0, which hands a job to a waiting worker where the model answers that it is full; the opening of the
-- database and the migrations, which call libraries only; the timeouts of the HTTP server.
pub mod Prelude
pub mod Domain
pub mod Config
pub mod Store
pub mod Worker
pub mod Repository
pub mod Service
pub mod Integration
pub mod System
pub mod Concurrency
pub mod Handler
pub mod Server
pub mod Examples
