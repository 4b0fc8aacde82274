-- ===== src/Lib.antt =====
-- The backend of a ride service: riders request orders, drivers accept them, and each change is written
-- to PostgreSQL together with the event that a listener publishes on Kafka.
--
-- Parts, and how they meet. The process (cmd/platform/main.go) builds a gin engine with its middlewares
-- (platform/middleware.go, platform/platform.go) and mounts two handlers (internal/orders/handler.go,
-- internal/drivers/handler.go). A handler checks the identifiers and calls its service
-- (internal/orders/service.go, internal/drivers/service.go); a service makes the event (events/events.go,
-- platform/context.go), calls its repository, which runs one SQL statement
-- (internal/orders/repository.go, internal/drivers/repository.go), and turns errors into typed HTTP
-- errors (platform/platform.go). The driver's service first reads the order through the rider's service
-- and its cache, and refuses at once if the status has moved on; the guard in the SQL statement decides.
-- Other processes may write between the two.
--
-- Where it is modelled.
--   Database/Statements   requestedSQL, viewSQL, acceptedSQL: the rows that a statement inserts or reads,
--                         as functions of the tables as they were when it began
--   Database/Run          execute and queryView of the repositories, over a connection that may fail
--   Database/System       any number of statements at once: a step relation in which statements begin,
--                         commit and fail in any order; its children prove the invariant, and the life of
--                         an order as a machine of three phases
--   Database/Stale        what an old view says about the guard
--   Database/Unordered    that the order in which a table holds its rows does not matter; in
--                         Database/Reordering, for whole runs, with the contents as a quotient
--   Contract              what the backend promises about one order, in phases and answers, and the proofs
--                         that the two services keep it and that no order is stuck
--   Orders/*, Drivers/*   models.go, repository.go, service.go and handler.go of the two packages, with a
--                         proof module for each concern
--   App                   run of cmd/platform/main.go: the joined services, and sequences of HTTP calls; in
--                         App/Journey, a request and the look at its order; in App/Hidden, an order of
--                         another rider against none; in App/Fresh and App/Recent, the age of what the
--                         cache answers; in App/Statuses, the statuses of the routes,
--                         in App/Wire, the routes behind the middlewares, and in
--                         App/Once and App/Settled, what an acceptance means for later calls
--   Runtime/Signals       what a call tells the telemetry client: attributes of spans, metrics, log lines
--                         and the ends of jobs; in Orders/Signals and Drivers/Signals, who tells what; in
--                         App/Signals and App/Jobs, the whole call
--   Errors, Errors/Abort  HTTPError and its functions, AbortError
--   Events, Trace, Json   events/events.go, platform/context.go, and the JSON values they work on; in
--                         Events/Payload and Events/Stored, what the rows of the outbox look like to a
--                         reader
--   Env                   env/env.go, with strconv, time.ParseDuration, Duration.String and fmt.Sscanf as
--                         far as it calls them (Env/Number, Env/Duration)
--   Config                Config, NewConfig, Validate and csvEnv of platform/platform.go
--   Middleware/*          the middlewares, NewRouter in Middleware/Chain, observedWriter in
--                         Middleware/Observed
--   Process               platform/process.go, NewServer and Run of platform/platform.go; in
--                         Process/Startup, main and run of cmd/platform/main.go with their deferred calls
--   Base                  shared tests, lists, texts and integers; Tests has concrete runs
--
-- Conventions. A function of the source keeps its name in snake case (doAccepted is do_accepted, a method
-- Database.Accepted is database_accepted). A use case takes the state that its repository persists and
-- returns the new state, the `status` label of its metrics and the result; a pair of a value and an error
-- is a Result, and an error that may be nil is an Option. A middleware maps runs to runs, and a run is
-- the list of the calls made on the gin context and the panic that leaves it. A float64 is its bits, as
-- the code only copies coordinates; a time is a number of milliseconds, a duration one of nanoseconds.
-- `int` has 64 bits. Texts are sequences of Unicode characters. JSON payloads are values, with members in
-- the order in which encoding/json writes them.
--
-- What stands for code that is not in the repository is a parameter. PostgreSQL and its schema are the
-- record Schema: the cast to uuid, the constraint violations, the names of the statuses; theorems that
-- need them ask for the keys orders_pkey and uq_order_acceptances_order (IsKeyed), for the name of
-- status 1 (NamesRequested) and for the way a duplicate is reported (ReportsDuplicates). The loser of
-- a race violates two keys, and LostKey says which one is reported. uuid.Parse is a test, the cache is
-- the port ViewCache, which is given the time, the key, what the factory would load and the lifetime;
-- a theorem that needs it asks that the cache is read-through (IsReadThrough), that it keeps lifetimes
-- (IsTimed), or that its errors are its own or the factory's (IsErrorPassing), or, for one call, that
-- it answers with the view or the error that it loads (Misses, Tells). The telemetry client is what
-- WorkerContext returns (the job's error: IsFaithful) and, in the middlewares, what
-- telemetry.Middleware makes of the handler that it is given (Instrument; Passes: it calls it). For
-- the process, the record Outside says whether each client can be made and what ends the server; the
-- one step of time.ParseDuration in floating point is a function of its three arguments. Fresh
-- identifiers, the clock, the time that a use case takes, the environment and the trace propagator are
-- fields of a Call.
--
-- Bounds and fuel. The decimal digits of strconv.Itoa have the number itself as fuel, which is enough
-- because each round divides by ten. The loop of time.ParseDuration has a unit for each character of the
-- text and one more, which is enough because each round takes a character. Everything else is structural
-- recursion. The sum of a text h:m:s wraps around at 64 bits, as the code's does.
--
-- Not modelled: a cache whose levels disagree between processes: a call of another process on the same
-- cache is a turn like one of this process; the methods of gin's writer that observedWriter only
-- passes on, Flush and Hijack, which no handler calls; the delivery of signals of the operating
-- system; the time limits of contexts; what the telemetry client does with what it is told; the health
-- endpoints, which the telemetry library answers.
pub mod Base
pub mod Errors
pub mod Json
pub mod Env
pub mod Events
pub mod Trace
pub mod Runtime
pub mod Http
pub mod Database
pub mod Orders
pub mod Drivers
pub mod App
pub mod Config
pub mod Contract
pub mod Middleware
pub mod Process
pub mod Tests
