-- ===== src/Lib.antt =====
-- verix-dbm is a browser-based database manager: a server process that keeps connection profiles in
-- a metadata store, logs people in through OpenID Connect, and runs what they ask for against
-- PostgreSQL, MySQL, SQLite, Redis and MongoDB targets.
--
-- The parts, and the file that models each of them:
--
--   internal/config/config.go      Config: `Load` as a function of the environment.
--   internal/auth/auth.go          Auth.Roles: `User`, `applyCaps`, `mergeRoles`. Auth.Flow:
--                                  `Middleware`, `Login`, `Callback`, `Logout`.
--   internal/auth/sessions.go      Auth.Sessions: the in-memory store, and `current`, `put`, `csrfFor`
--                                  and `CheckCSRF` of auth.go.
--   internal/store/store.go        Store: the tables and the statements that change them.
--                                  Store.Grants: `GrantForSubjects` and the lists.
--   internal/web/access.go         Access: `ResolveConnAccess`, `access`, with `connFor` of
--                                  internal/web/server.go and the list of `apiListConnections`.
--   internal/web/ratelimit.go      RateLimit: `allow` and `prune`.
--   internal/crypto/crypto.go      Crypto: the keyring. Crypto.Env: `ParseKeyring` and `New`.
--   internal/dbsql/dbsql.go        Sql: the records that the dialects share. Sql.Families: `Family`
--                                  and `Column.Cat`. Sql.Confirm: `NeedsConfirm`. Sql.Dialects: the
--                                  interface `Dialect`, filled by the three dialects.
--   internal/*/ddl.go              Sql.Screens: `IsServerSideExec` of each engine, with
--                                  `serverSideBlocked` of internal/web/security.go. Regex: the
--                                  regular expressions that they and `NeedsConfirm` use.
--   internal/mysql/ddl.go          Sql.Mysql.
--   internal/sqlite/ddl.go         Sql.Sqlite.
--   internal/postgres/ddl.go       Sql.Postgres, with the dialect of internal/postgres/engine.go.
--                                  Sql.Scripts: `ExecScript`.
--   internal/conn/registry.go      Registry: the pools, their opening, the janitor and `Forget`.
--                                  Registry.Races: their interleavings, as a step relation.
--                                  Store.Paths: `ResolveSQLitePath` of internal/store/store.go.
--
--   internal/redisdb, mongodb      Redis, Mongo: the screens of the consoles, the words of a command
--                                  line, and the pages of documents.
--   internal/mysql, internal/sqlite  Engines: how a statement is run and its rows are capped. Engines.Trees:
--                                  the schemas of the tree, as internal/postgres has them too.
--   internal/web/egress.go         Web.Egress.
--   internal/web/api.go            Web.Gates: `apiRequireAdmin`, `apiSQL`, `apiRequireWrite`.
--                                  Web.Safety, Web.Editing: the routes.
--   internal/web/api_sql.go        Web.Console: `apiQuery`. Web.Statements: the handlers that change a
--                                  target, each as a plan behind the gate. Web.Reads: those that read,
--                                  with internal/web/handlers_export.go. Web.Explorer: the tree and
--                                  the form of a column.
--   internal/web/api_connections.go  Web.Connections.
--   internal/web/api_audit.go      Web.Admin: the audit log and `apiReencrypt`.
--   internal/web/api_redis.go, api_mongo.go  Web.Consoles.
--   What they share                Web.Site: the store, the registry and the calls on targets, newest
--                                  first; Web.Responses: statuses and fields.
-- A request comes in through the rate limiter and the middleware, which finds the session's user; a
-- handler asks `access` what the user may do on the connection, which looks at the user's roles and
-- at the rows of the grant table; the keyring opens the stored password, and the dialect writes the
-- statements. Where the keyring opens a password for a pool, the audit log gets an entry for it, which
-- cmd/server/main.go asks for (`credential_used` of Web.Site). Base, GoMap and GoStrings hold what the
-- parts share: results, Boolean tests, byte strings, and Go's maps and its package `strings`. Examples holds tests and instances.
--
-- Strings are lists of bytes, and literals are ASCII. Go's `int` and `int64` are natural numbers
-- where the code only counts or compares them, and `Base.Ints` where a configured number may be
-- negative. A time is a number of nanoseconds and an argument of the call that reads the clock;
-- random tokens, nonces and generated keys are arguments too; the audit log keeps whole seconds. A
-- mutex makes a call one step; a login callback looks its state up in one (`check_state`) and deletes it
-- in another (`after_check`), and `callback` takes both where no other call comes in between. Loops go
-- through a list; the one loop that does not, in `resolveExistingPrefix`, runs on fuel, one more
-- than the bytes of the path, and each of its rounds takes a component off the path.
--
-- Parameters stand for code outside the repository: the identity provider and the OIDC libraries
-- (Auth.Flow.Provider), AES-GCM, base64 and hex (Crypto.Library), the database drivers
-- (Sql.Scripts.Driver, Registry.Drivers), path/filepath with the file system (Store.Paths.Files), the
-- package net (Web.Egress.Net), and bson with encoding/json (Mongo.Bson). What a target answers to the
-- calls of the interface `Engine` is a parameter as well (Web.Site.Target, Engines.Querier): it may depend
-- on every call before. The replacements of credentials in `auditDetail` and the format of times are fields of
-- Web.Site.Env.
-- What is assumed of them is written as their laws.
--
-- Not modelled: most of the engines' own queries of a target's catalogue, the sessions in which
-- Postgres and SQLite keep a statement read-only, the HTTP plumbing (a handler takes the decoded body,
-- or none where it is no JSON) and the single-page application, logging and metrics, the Redis
-- session store, the expressions that redact the audit log, the security headers, failures of the
-- metadata store other than of the grant look-up, deadlines, and the order in which rows come back
-- from the metadata store.
pub mod Base
pub mod GoMap
pub mod GoStrings
pub mod Regex
pub mod Web
pub mod Redis
pub mod Mongo
pub mod Engines
pub mod Sql
pub mod Registry
pub mod Config
pub mod Crypto
pub mod Auth
pub mod Store
pub mod Access
pub mod RateLimit
pub mod Examples
