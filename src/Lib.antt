-- ===== src/Lib.antt =====
-- The Go service of the Sync Bridge (sync-bridge-go): it receives batches of customers, products,
-- orders and employees, writes each batch in one SQLite transaction, logs it, and serves employees
-- over GraphQL.
--
-- The parts, and the files that model them:
--
-- - Errors: sync-bridge-go/internal/errors/errors.go. `handle_db_error` is HandleDBError with the
--   matching of its regular expression written out, `parse_validation_error` ParseValidationError.
-- - Json, Dto, Dto/Decode, Dto/Rules: sync-bridge-go/internal/dto/dto.go. A request is a JSON tree;
--   `decode_…` stores it into the structs by field name the way encoding/json does, and `…_rules`
--   are the tags of the structs that Validate checks.
-- - Sql: the database. `Statement` and `Query` are the statements of the service, `effect` and
--   `Answers` what they do and answer on the tables of
--   sync-bridge-go/internal/db/migrations/001_init.sql. `Engine` is the driver, a parameter: any
--   call may fail. `IsSqlite` is what the service relies on: a statement that succeeds has its
--   effect, one that fails has none or ends the transaction, a rollback restores the tables of the
--   transaction's begin. Sql/Memory is a database in memory that behaves so.
-- - Handlers: sync-bridge-go/internal/handlers. `Host` holds what is not in the repository: the
--   Unicode tables, the validator, the database, the source of UUIDs and the JSON encoder.
--   `Action` is Go's control flow: a result, an error, or a panic, with the state of the
--   database. `process_item` is processItem, `sync_handler` SyncHandler with its helpers in
--   sync.go; Handlers/History is history.go and Handlers/Health health.go.
-- - Handlers/Log: what the log of syncs promises, as steps on entries by id, whose order in the
--   table is forgotten.
-- - Server: sync-bridge-go/cmd/server/main.go, the table of routes and the way of a request through
--   the middleware to a handler. `World` holds gin's router, gqlgen's calls of the resolvers, and
--   division of float64, all parameters. Server/Service is the service as it runs: requests and the
--   events of subscriptions in any order.
-- - Middleware: sync-bridge-go/internal/middleware/middleware.go.
-- - Config: sync-bridge-go/internal/config/config.go.
-- - Graph: sync-bridge-go/graph. Graph/Broker is EmployeeBroker of resolver.go, whose methods hold a
--   mutex and so are single steps; Graph/Model and Graph/Resolvers are schema.resolvers.go.
-- - Start: sync-bridge-go/internal/db/db.go, over a driver that is a parameter.
-- - Base and Text: integers of 64 bits with their wrap-around, lists, and byte strings.
--
-- A request flows through Middleware to a handler; SyncHandler decodes and validates it (Dto), logs
-- it and opens a transaction (Sql), runs processItem on each item, and rolls back or commits. An
-- error becomes an answer through Errors. A created employee goes to the subscribers of the broker.
--
-- Bounds: an int and an int64 have 64 bits. The digits of a number are printed with a bound of 20,
-- which a 64-bit number does not exceed; an employee's id is made of the first eight bytes of a UUID.
-- All recursion is structural.
--
-- Not modelled: HTTP, JSON texts, the log output, time measured for metrics, the registration of
-- the metrics, listening and signals (main.go), generated code (graph/generated.go, docs/docs.go),
-- which employees match a search pattern, how times are written (the strftime in the queries of the
-- log gives the column as it stands), the numeric affinity of the DATETIME columns of employees (a
-- text is stored as it is given), an order with two keys "items" (the second array is decoded anew,
-- not onto the elements of the first), and the ports of the service to other languages. Requests
-- are served one at a time.
pub mod Base
pub mod Text
pub mod Errors
pub mod Json
pub mod Dto
pub mod Sql
pub mod Handlers
pub mod Middleware
pub mod Config
pub mod Graph
pub mod Server
pub mod Start
