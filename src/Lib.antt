-- ===== src/Lib.antt =====
-- novaque: a message queue with topics, channels and at-least-once delivery on a SQL database.
--
-- The program: a Client (client.go) publishes messages and runs consumers on a Store (store/store.go),
-- through a cache of ids (store/cached.go). A driver implements the Store on a database: driver/sqlite,
-- driver/postgres or driver/mysql. The admin pages (admin/) show its counters.
--
-- Prelude: lists as tables, lemmas on rows with rising keys, signed numbers, texts.
-- Action: state passing with an error result (`Action S A`). Action/Follows: rules for how an action may
--   change the state, by a preorder.
-- Store/Errors, Store/Types, Store/Interface: the errors, structs and interface of store/store.go.
-- Store/Delay: store/delay.go. Store/Cache: store/cached.go, the two sync.Maps as association lists
--   and the inner store's state.
-- Sqlite/Schema: the tables of driver/sqlite/schema.sql as lists of rows. Sqlite/Engine: statements and
--   transactions. What the code does not decide is the parameter `Env`: the clock, the failure of
--   each engine call, the random tokens, and what other processes commit before each statement or
--   transaction; inside a transaction nothing is seen of them.
-- Sqlite/Names: EnsureTopic, EnsureChannel (sqlite.go). Sqlite/Publish: publish.go. Sqlite/Claim: Claim and
--   runClaimTx (claim.go). Sqlite/Finish: Ack and Requeue (claim.go). Sqlite/Maintenance: maintenance.go.
--   Sqlite/Sink: stats_foundation.go. Sqlite/Stats, Sqlite/Flush: stats.go. Sqlite/Admin: admin.go.
--   Sqlite/Driver: the driver as a Store. Sqlite/Invariant: well-formed databases.
--   Sqlite/Lifecycle: the moves of a delivery's row, as a relation, in which a revival from dead
--   may be ruled out. Sqlite/Evolution: databases that stay well-formed and whose deliveries move
--   so, which Valid modules show of each operation. Sqlite/Histories: sequences of calls.
-- Server: what driver/postgres and driver/mysql share, on the tables of Sqlite/Schema and many of the
--   statements of the Sqlite modules, which the three drivers spell alike; the lines of driver/postgres are
--   the ones that it is mapped to. Server/Engine: transactions at READ COMMITTED. The parameter
--   `Server` adds to `Env` what others commit before each statement inside a transaction, which rows
--   they have locked, and what they commit between a subquery and its writes; `Dialect` holds the collation, the
--   settings of a transaction, and the order in which a bounded DELETE takes rows. Server/Publish, Server/Claim,
--   Server/Finish, Server/Maintenance, Server/Stats, Server/Admin: the operations. Server/Claim/Locks: what a
--   transaction may rely on for rows that it has locked. Server/Histories: sequences of calls on any store
--   whose writes are lawful. Postgres and Mysql: what each does in its own way (names, the lease of a claim, the
--   reaper, the orphans) and the driver as a Store, in Postgres/Driver and Mysql/Driver.
-- Client/Options, Client/Publishing, Client/Finishing, Client/Reads: client.go. Client/Consumer: the poller,
--   the channel and the workers of a Consumer, and Client/Upkeep: the maintenance loops of a Client, as
--   step relations of which every interleaving is a sequence. Admin/Heatmap:
--   admin/heatmap.go. Admin/Prefix, Admin/Routes, Admin/Middleware: the mount prefix, the routes and the chain
--   of handlers around them (admin.go, middleware.go). Admin/Views, Admin/Loads, Admin/Pages: the view models,
--   reads and handlers of admin.go, with Admin/Replies for what they answer. Admin/Dead: dead.go. Admin/Api:
--   api.go and the JSON of dead.go. Paths, queries and credentials are lists of characters.
--
-- Numbers: times are whole Unix seconds on the naturals and durations are nanoseconds; ids, limits and
-- durations that callers pass are signed. Sums do not overflow 64 bits, but for those of the heat levels,
-- which wrap as int64 does. The column created_at, which nothing reads, is left out. A statement
-- reads the clock once, also where PostgreSQL reads it by row. An id that a transaction took and rolled
-- back may be given again. A foreign key, a cascade and a unique key act as the engines document them.
--
-- Fuel: a claim is tried 10 times, as in the source. The pages of the liveness read and the batches of a
-- flush have the number of rows as fuel, and each takes a row at least. The rounds of PruneStats have
-- the number of stats rows and one more, since a round that goes on has deleted 500 rows; if others add
--   stale rows meanwhile, the rounds can run out, and the model fails.
--
-- Not modelled: the texts of statements, the making of lease tokens, the templates, titles and texts of admin/, the
-- router's cleaning of paths and the protection against foreign posts (net/http), Migrate and the
-- version check, logging, timers and jitter, and the commands.
pub mod Prelude
pub mod Action
pub mod Store
pub mod Sqlite
pub mod Client
pub mod Admin
pub mod Server
pub mod Postgres
pub mod Mysql
