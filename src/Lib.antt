-- ===== src/Lib.antt =====
-- Trails, a web framework: a verification library of its request middlewares, its cache, its
-- realtime channels, and the SQL builder and the schemas of its ORM.
--
-- A request passes a chain of middlewares, each a function from a handler to a handler. Some judge
-- the request (allowedhosts, cors, ratelimit), set headers (secureheaders) or leave values for the
-- handlers behind (trustedproxy leaves the client's address, from which ratelimit makes its key;
-- session loads a session from its cookie, and csrf checks a request against the session's token).
-- ratelimit counts in a cache.Store; the in-memory backend is one; httpcache keeps responses in
-- one. jobs enqueues jobs at a backend, at once or when the scheduler finds them due. channels
-- keeps the live connections of clients and fans the messages of a Broadcaster out to them. The
-- ORM, pack, makes its statements with the builders of pack/internal/sqlbuild, for one of three
-- dialects.
--
-- Files:
--   Base          numbers, lists, Booleans, 64-bit integers, byte texts, Go maps, results, decimals
--   Web           net/http's Header (Web/Header), net.SplitHostPort (Web/Address), base64
--                 (Web/Base64), and context.go and errors.go as the middlewares use them (Web/Context)
--   Cache         cache/store.go as an interface with a contract (Cache/Store), cache/cache.go over
--                 any store (Cache/Typed), and cache/backend/memory/memory.go (Cache/Memory)
--   RateLimit     ratelimit/ratelimit.go, over any store that keeps the contract
--   AllowedHosts  allowedhosts/allowedhosts.go
--   TrustedProxy  trustedproxy/trustedproxy.go
--   Cors          cors/cors.go
--   SecureHeaders secureheaders/secureheaders.go
--   Credentials   internal/credentials/credentials.go: Encrypt and Decrypt
--   Session       session/session.go, and session/middleware.go (Session/Cookie)
--   HttpCache     cache/httpcache/httpcache.go, over any store
--   Csrf          csrf/csrf.go
--   Auth          auth/signed_token.go
--   Jobs          jobs/backend/async/async.go: the concurrency slots; jobs/enqueue.go,
--                 jobs/registry.go and the inline backend (Jobs/Enqueue), and jobs/scheduler.go
--                 (Jobs/Scheduler)
--   Sql           pack/dialect (Sql/Dialect) and pack/internal/sqlbuild: data (Sql/Types), conditions
--                 and fragments (Sql/Render), shared clauses (Sql/Clauses), and the builders
--                 (Sql/Select, Sql/Insert, Sql/Update); Sql/Spec says what a text should print. The
--                 files ddl.go of the dialects are under Sql/Ddl/Engines, the builders of schema
--                 statements Sql/Ddl/Statements and Sql/Ddl/Tables; Sql/Ddl/Scan is how a database
--                 takes a statement apart
--   Pack          pack/internal/schema: tags.go (Pack/Tags), snakecase.go (Pack/Snake), errors.go
--                 (Pack/Errors), and schema.go, with the types as reflection shows them
--                 (Pack/Types), the walk over a struct (Pack/Walk) and the rest (Pack/Schema)
--   Channels      channels: hub.go, conn.go and channel.go (Channels/Hub, Channels/Api), sse.go
--                 (Channels/Sse), backend/memory/memory.go (Channels/Memory) and
--                 backend/database/run.go (Channels/Poll). Channels/Steps and Channels/Memory/Steps
--                 have the steps between two holds of a mutex, in any order; their
--                 theorems are in Untrack, Joined, Invariant, Subscriptions, Delivery and Late;
--                 Channels/Accounts is what they rely on of a Broadcaster, and
--                 Channels/Memory/Accounts shows it of the in-process one
-- Each component's Laws, or the modules named for what they prove, hold its theorems, and its Tests
-- the examples.
--
-- A function in Go is a function here, under its name in snake case; a method takes its receiver
-- last and returns the new one; a Go error is `err` of a Result, or `none` where no caller looks at
-- which error it is. A mutex makes its method one step; the objects of channels have an address, a
-- number, and stand in a store by it. Text is a list of bytes; a Go map is an association list with
-- one entry to a key. Numbers are natural numbers, and int64 is an integer whose additions wrap
-- (add_int64). Time is a number of nanoseconds that the caller passes: a method that reads the
-- clock once has one such argument, the rate limiter has two.
--
-- Loops are recursion on the list that they walk. Fuel is used in poll, which needs one round more
-- than there are rows to deliver, in format_ℕ, which has a round more than the number it prints and
-- needs one for each digit, and in xor_bits, which counts the bits of a byte.
--
-- Parameters: net/netip of trustedproxy; strconv.Quote in the errors of a schema; the JSON codecs
-- of cached values, sessions and signed tokens; the gob codec, SHA-256 and the write to the
-- connection of httpcache; `fn` of cache.Fetch; the AEAD of crypto/cipher; random bytes, which the
-- caller passes; the handlers behind a middleware, over an arbitrary state; the jobs of an
-- application, with their codec; an app's channels, and the Broadcaster of a hub. Not modelled: the
-- texts of messages, but for the errors of a schema; letters outside ASCII in ToLower, TrimSpace
-- and column names; the cache of schemas by type; the rounding of Duration.Seconds through a float,
-- and the parts of the program that the library has no file for.
pub mod Base
pub mod Web
pub mod Cache
pub mod RateLimit
pub mod Sql
pub mod AllowedHosts
pub mod TrustedProxy
pub mod Cors
pub mod Session
pub mod Credentials
pub mod Csrf
pub mod Jobs
pub mod Auth
pub mod SecureHeaders
pub mod Pack
pub mod Channels
pub mod HttpCache
