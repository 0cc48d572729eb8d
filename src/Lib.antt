-- ===== src/Lib.antt =====
-- lite-mail: a mail server that receives messages from a mail worker over HTTP, stores them in
-- MariaDB and on disk, and shows them to users who log in with a pre-shared key (PSK).
--
-- How the parts interact. Every request goes through the middleware of the router
-- (internal/server/server.go): RequestID, SecurityHeaders, RequestLogging, CORS. POST /api/ingest
-- and POST /api/login have a rate limiter and a size limit of their own in front of their handlers.
-- The routes of the messages are behind RequireAuth, which looks the cookie's token up in the
-- session store and puts the session into the request's context; the handlers of internal/api ask
-- the database only for messages of that session's e-mail, or for all of them for an administrator.
-- The ingest handler parses a raw message and writes it to the disk and, in one transaction, to the
-- tables. The process (cmd/server/main.go) migrates the database, starts the server in a goroutine,
-- and shuts it down on a signal.
--
-- Which file models which part:
--   Base           shared names: Boolean tests, Go's int64 (Base/Int), strings as lists of code points
--                  (Base/Strings), maps as association lists (Base/Assoc), lists (Base/Lists)
--   Strconv        ParseInt and FormatInt of Go's strconv for base 10, as far as the program uses them
--   Config         internal/config/config.go
--   Session        internal/auth/session.go, the store as values; Session/Sharing is the store with its
--                  pointers, and callers that write through theirs
--   Http           what the handlers use of net/http: requests, the response writer, middleware;
--                  Http/Response is the steps by which a response is made
--   Auth           internal/auth/handler.go, middleware.go and the cookies of session.go
--   Main           cmd/server/main.go: the start, and in Main/Shutdown the end, with Start and Shutdown
--                  of internal/server/server.go, as steps of main and the serving goroutine
--   Middleware     internal/middleware/requestid.go, security.go, cors.go, maxbody.go, logging.go
--   Middleware/RateLimit  internal/middleware/ratelimit.go
--   Storage        internal/storage/storage.go
--   Ingest         internal/ingest: Message, Mime, Decoding and Parser (parser.go, with the libraries it
--                  calls in Mime), Fallback, Persist and Handler (handler.go), Database (tables of
--                  internal/db/migrations)
--   Api            internal/api: Params, Sql (the statements as the code puts them together; Statements
--                  has them written out), Messages (messages.go), Attachments (attachments.go),
--                  Errors (errors.go)
--   Server         internal/server/server.go and handlers.go: the routes with their middleware; in
--                  Server/History any sequence of requests to it, one after another
--   Migrate        internal/db/migrate.go: Load (LoadMigrations), Statements (splitSQL), Run
--                  (RunMigrations and RollbackMigration), Connect (Connect, Migrate, Rollback)
--   Tests          concrete inputs on which the theorems are tried
-- The modules below these hold what is proved of them. A handler is a function from the request,
-- the state that it may change and the response writer to the new state and writer; a middleware
-- answers itself or calls the next handler with a request. Definitions carry the names of the Go
-- functions in snake case; the part of a function behind one of its early returns is often a
-- definition of its own.
--
-- What is a parameter: the routing of chi and what it answers itself (with the hypothesis that
-- this leaves the security headers and the request's id as they are), the clock, random bytes, Go's
-- Unicode table of lower-case letters, the float64 operations of the rate limiter (with bounds on
-- their rounding as hypotheses), the result of JSON decoding, what the parser calls of
-- net/mail, mime, charset and html2text (with what the package utf8 says of validity as
-- hypotheses), the disk (which decides what system calls fail and what a failed write leaves), the
-- faults of the database in a transaction (a commit that returns an error is taken to have changed
-- nothing), for the migrations the directory of scripts and the
-- database driver (whose own statements lose no row of the table of versions but by a DELETE, and
-- whose INSERT adds one, and that ParseDSN reads back what FormatDSN prints of a configuration with
-- its defaults, as hypotheses),
-- and in internal/api the database as a function from a statement to rows (with what SQL says of
-- the rows of the statements in Api/Statements as hypotheses).
--
-- sort.Slice is an insertion sort, as Go's is up to twelve items.
--
-- A body of a message is the tree of the parts that multipart.Reader finds in it; a part is shorter
-- than its body, so the tree is finite.
--
-- In Main/Shutdown each step of main, of the goroutine, of net/http and of the world is one step of the
-- process; s.http, the two channels and the state of the http.Server are what they share. That a
-- Shutdown of the http.Server returns, and that ListenAndServe then returns ErrServerClosed, are steps
-- that are taken sooner or later.
--
-- Loops are structural recursions over lists and that tree; the only fuel is that of FormatInt,
-- where n + 1 rounds are enough for n.
--
-- Not modelled: log lines but those of the access log, TLS and sockets, the tests and their helpers,
-- the Cloudflare Worker (worker/, in TypeScript) and the browser's code (internal/server/static).
pub mod Base
pub mod Strconv
pub mod Config
pub mod Server
pub mod Session
pub mod Http
pub mod Auth
pub mod Middleware
pub mod Storage
pub mod Migrate
pub mod Api
pub mod Ingest
pub mod Main
pub mod Tests
